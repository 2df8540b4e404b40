-- ===== src/NetworkRegion.antt =====
-- table/network-region.go: the names of the regions whose producers this forwarder reaches.
mod Tests
use mathlib.Core.Logic.{ite}
use ya_nfd.Prelude.{
  ◌≡◌, refl, Bool, true, false, ◌||◌, List, [], ◌∷◌, ◌++◌, if◌then◌else◌, arith, Bool-cases, inl,
  inr,
}
use ya_nfd.Name.{same_name, same_name→eq, is_prefix}

module _ {C : Type 0} (equal : Discrete C) where
  unfoldable pub is_producer : List (List C) → List C → Bool
  is_producer [] name = false
  is_producer (region ∷ regions) name =
      let rest = is_producer regions name in if is_prefix equal region name then true else rest

  -- The loop of `Add`.
  unfoldable pub has_region : List (List C) → List C → Bool
  has_region [] name = false
  has_region (region ∷ regions) name =
      let rest = has_region regions name in if same_name equal region name then true else rest

  unfoldable pub add : List (List C) → List C → List (List C)
  add table name = if has_region table name then table else table ++ (name ∷ [])

  is_producer-append :
      (table : List (List C)) (region name : List C)
      → is_producer (table ++ (region ∷ [])) name
        ≡ (is_producer table name || is_prefix equal region name)
  unfolding is_producer
  is_producer-append [] region name = ground arith
  is_producer-append (r ∷ table) region name = ground (arith, is_producer-append table region name)

  has_region-is_producer :
      (table : List (List C)) (region name : List C)
      → has_region table region ≡ true
      → is_prefix equal region name ≡ true
      → is_producer table name ≡ true
  unfolding is_producer has_region
  has_region-is_producer [] region name h p = ground arith
  has_region-is_producer (r ∷ table) region name h p =
      elim (Bool-cases (same_name equal r region)) [
        | inl e ↦ let same = same_name→eq equal r region e in rw (same, p) refl
        | inr e ↦ ground (arith, has_region-is_producer table region name)
      ]

  -- After a region is added, the names that reach a producer are those that did and those under the region,
  -- whether the table had it or not.
  pub is_producer-add :
      (table : List (List C)) (region name : List C)
      → is_producer (add table region) name
        ≡ (is_producer table name || is_prefix equal region name)
  unfolding add
  is_producer-add table region name = elim (Bool-cases (has_region table region)) [
    | inl h ↦ elim (Bool-cases (is_prefix equal region name)) [
      | inl p ↦ let known = has_region-is_producer table region name h p in ground arith
      | inr p ↦ ground arith
    ]
    | inr h ↦ let new = is_producer-append table region name in ground arith
  ]
