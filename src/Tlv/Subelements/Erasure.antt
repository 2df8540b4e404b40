-- ===== src/Tlv/Subelements/Erasure.antt =====
-- EraseAll removes the subelements of a type and keeps the others in their order.
use ya_nfd.Prelude.{
  ℕ, zero, suc, ◌≤◌, ◌≡◌, refl, none, some, List, [], ◌∷◌, ◌==◌, if◌then◌else◌, arith, Option-cases,
  inl, inr,
}
use ya_nfd.Tlv.Subelements.{Parent, index_of, remove_at, erase, erase_all}

module _ {E : Type 0} (type_of : E → ℕ) (t : ℕ) where
  -- The subelements of other types, and how many have this one.
  unfoldable pub others : List E → List E
  others [] = []
  others (e ∷ es) = let rest = others es in if type_of e == t then rest else e ∷ rest

  unfoldable pub occurrences : List E → ℕ
  occurrences [] = 0
  occurrences (e ∷ es) = let rest = occurrences es in if type_of e == t then suc rest else rest

  index_of-none :
      (es : List E) → index_of type_of t es ≡ none → (others es ≡ es) × (occurrences es ≡ 0)
  unfolding index_of others occurrences
  index_of-none [] h = (refl, refl)
  index_of-none (e ∷ es) h = ground (arith, index_of-none es)

  index_of-some :
      (es : List E) (i : ℕ)
      → index_of type_of t es ≡ some i
      → (others (remove_at type_of i es) ≡ others es)
        × (occurrences es ≡ suc (occurrences (remove_at type_of i es)))
  unfolding index_of others occurrences remove_at
  index_of-some [] i h = ground arith
  index_of-some (e ∷ es) zero h = ground arith
  index_of-some (e ∷ es) (suc i) h = ground (arith, index_of-some es i)

  -- With fuel for more turns than there are subelements of the type, all of them are erased and
  -- counted, and the others stay in their order.
  pub erase_all-others :
      (fuel : ℕ) (b : Parent E)
      → suc (occurrences b.subelements) ≤ fuel
      → ((erase_all type_of fuel b t).1.subelements ≡ others b.subelements)
        × ((erase_all type_of fuel b t).0 ≡ occurrences b.subelements)
  unfolding erase_all erase
  erase_all-others zero b h = absurd (omega arith)
  erase_all-others (suc fuel) b h = elim (Option-cases (index_of type_of t b.subelements)) [
    | inl n ↦ let same = index_of-none b.subelements n in ground arith
    | inr (i, s) ↦
        let b' : Parent E = record b {
          subelements = remove_at type_of i b.subelements;
          wire = [];
        } in
        let step = index_of-some b.subelements i s in
        let rest = erase_all-others fuel b' (omega arith) in ground arith
  ]
