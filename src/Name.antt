-- ===== src/Name.antt =====
-- Names: lists of components, whose equality is the codec package's `Component.Equal`.
use mathlib.Core.Logic.{ite}
use ya_nfd.Prelude.{◌≡◌, refl, Bool, true, false, List, [], ◌∷◌, arith}

module _ {C : Type 0} (equal : Discrete C) where
  -- `Name.Equal`
  unfoldable pub same_name : List C → List C → Bool
  same_name [] [] = true
  same_name [] (d ∷ ds) = false
  same_name (c ∷ cs) [] = false
  same_name (c ∷ cs) (d ∷ ds) = ite (equal c d) (same_name cs ds) false

  pub same_name→eq : (n m : List C) → same_name n m ≡ true → n ≡ m
  unfolding same_name
  same_name→eq [] [] h = refl
  same_name→eq [] (d ∷ ds) h = ground arith
  same_name→eq (c ∷ cs) [] h = ground arith
  same_name→eq (c ∷ cs) (d ∷ ds) h = ground (arith, same_name→eq cs ds)

  pub same_name_self : (n : List C) → same_name n n ≡ true
  unfolding same_name
  same_name_self [] = refl
  same_name_self (c ∷ cs) = ground (arith, same_name_self cs)

  -- `Name.IsPrefix`
  unfoldable pub is_prefix : List C → List C → Bool
  is_prefix [] m = true
  is_prefix (c ∷ cs) [] = false
  is_prefix (c ∷ cs) (d ∷ ds) = ite (equal c d) (is_prefix cs ds) false
