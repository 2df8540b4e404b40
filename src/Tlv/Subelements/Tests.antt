-- ===== src/Tlv/Subelements/Tests.antt =====
-- Subelements that are their own types.
use ya_nfd.Prelude.{ℕ, ◌≡◌, refl, [], ◌∷◌}
use ya_nfd.Tlv.Subelements.{Parent}
use ya_nfd.Tlv.Subelements.Erasure.{occurrences}

abbrev three : Parent ℕ
three = record { tlv_type = 7; subelements = 8 ∷ 9 ∷ 8 ∷ []; wire = 1 ∷ [] }

enough : occurrences (λ e. e) 8 three.subelements ≡ 2
unfolding occurrences
enough = refl
