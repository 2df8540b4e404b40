-- ===== src/Fib/HashTable/Search.antt =====
-- The hash table's lookups are longest-prefix matches over the real entries of exact names.
use ya_nfd.Prelude.{
  ℕ, zero, suc, ◌+◌, ◌-◌, ◌≤◌, ◌<◌, ◌≡◌, refl, sym, ◌∙◌, Bool, true, Option, none, some, List, [],
  length, take, length-take_of_le, if◌then◌else◌, arith, Option-cases, inl, inr,
}
use ya_nfd.Fib.Spec.{
  scan_prefixes, longest_prefix, longest_prefix-scan, no_hops, no_strategy, no_hops_eq,
  no_strategy_eq,
}
use ya_nfd.Fib.HashTable.{
  NameCodec, IsCodec, RealEntry, FibHashTable, get, scan_real, hops_of, strategy_of, back_to_hops,
  back_to_strategy, find_longest_prefix_match, find_next_hops, find_strategy, hops_at, strategy_at,
}
use ya_nfd.Fib.HashTable.Lookup.{
  NoCollision, IsValid, FoundAt, scan_real_found, scan_real-none, entry_name, find-scan,
}

module _ {C : Type 0} (codec : NameCodec C) (InUse : List C → Type 0) (laws : IsCodec codec)
    (apart : NoCollision codec InUse) (f : FibHashTable C) (valid : IsValid codec InUse f)
    (name : List C) (used : InUse name) where
  open codec use {hash, prefix_hash}

  -- A value of entries, with its blank one where there is no entry.
  module _ {A : Type 0} (blank : A → Bool) (of : Option (RealEntry C) → A)
      (is_blank : blank (of none) ≡ true) (blank_eq : (a : A) → blank a ≡ true → a ≡ of none) where
    value_at : List C → A
    value_at n = of (get (hash n) f.real_table)

    back_to : ℕ → A
    back_to zero = of (get (prefix_hash name 0) f.real_table)
    back_to (suc n) =
        let below = back_to n in
        let here = of (get (prefix_hash name (suc n)) f.real_table) in
        if blank here then below else here

    value_at-prefix :
        (j : ℕ)
        → j ≤ length name
        → value_at (take j name) ≡ of (get (prefix_hash name j) f.real_table)
    unfolding value_at
    value_at-prefix j p = rw (laws.prefix_hash-hash name j p)

    back_to-scan : (n : ℕ) → n ≤ length name → back_to n ≡ scan_prefixes blank value_at name n
    unfolding back_to scan_prefixes
    back_to-scan zero p = sym (value_at-prefix 0 (omega arith))
    back_to-scan (suc n) p = rw (value_at-prefix (suc n) p, back_to-scan n (omega arith))

    scan_prefixes_step :
        (n : ℕ)
        → suc n ≤ length name
        → get (prefix_hash name (suc n)) f.real_table ≡ none
        → scan_prefixes blank value_at name (suc n) ≡ scan_prefixes blank value_at name n
    unfolding scan_prefixes
    scan_prefixes_step n p h = rw (value_at-prefix (suc n) p, h, is_blank)

    -- Prefixes with no real entry have the blank value.
    scan_prefixes-skip :
        (from k n : ℕ)
        → n ≡ from + k
        → n ≤ length name
        → ((j : ℕ) → from < j → j ≤ n → get (prefix_hash name j) f.real_table ≡ none)
        → scan_prefixes blank value_at name n ≡ scan_prefixes blank value_at name from
    scan_prefixes-skip from zero n e p h = let same : n ≡ from = omega arith in rw same
    scan_prefixes-skip from (suc k) n e p h =
        let same : n ≡ suc (from + k) = omega arith in
        rw
          (
            same,
            scan_prefixes_step (from + k) (omega arith)
                (h (suc (from + k)) (omega arith) (omega arith)),
          )
          (scan_prefixes-skip from k (from + k) refl (omega arith) (λ j a b. h j a (omega arith)))

    -- What the search gives from the entry that it begins at.
    search : Option (RealEntry C) → A
    search none = of none
    search (some entry) = back_to (length entry.name)

    search-found :
        (e : RealEntry C)
        → FoundAt f.real_table (prefix_hash name) (length name) e
        → back_to (length e.name) ≡ scan_prefixes blank value_at name (length name)
    search-found e found =
        let named =
          entry_name codec InUse laws apart f valid name used found.index e found.bound
            found.here in
        let size : length e.name ≡ found.index =
          rw named (length-take_of_le found.index name found.bound) in
        rw size (
          back_to-scan found.index found.bound
          ∙ sym (
              scan_prefixes-skip found.index (length name - found.index) (length name)
                (omega (arith, found.bound)) (omega arith) found.above))

    search-missing :
        ((j : ℕ) → j ≤ length name → get (prefix_hash name j) f.real_table ≡ none)
        → scan_prefixes blank value_at name (length name) ≡ of none
    search-missing h =
        scan_prefixes-skip 0 (length name) (length name) (omega arith) (omega arith)
          (λ j a b. h j b)
        ∙ sym (back_to-scan 0 (omega arith))
        ∙ root
      where
        root : back_to 0 ≡ of none
        root = unfold back_to in rw (h 0 (omega arith))

    search-longest_prefix :
        search (find_longest_prefix_match codec f name) ≡ longest_prefix blank value_at name
    unfolding search
    search-longest_prefix =
        rw (find-scan codec InUse laws apart f valid name used, longest_prefix-scan)
          (elim (Option-cases (scan_real f.real_table (prefix_hash name) (length name))) [
            | inl miss ↦ rw miss (
                sym (
                  search-missing
                    (λ j p. scan_real-none f.real_table (prefix_hash name) (length name) j miss p)))
            | inr (e, hit) ↦ rw hit (
                search-found e
                  (scan_real_found f.real_table (prefix_hash name) (length name) e hit))
          ])

  back_to-hops :
      (n : ℕ)
      → back_to_hops f.real_table (prefix_hash name) n ≡ back_to no_hops hops_of refl no_hops_eq n
  unfolding back_to back_to_hops
  back_to-hops zero = refl
  back_to-hops (suc n) = rw (back_to-hops n)

  back_to-strategy :
      (n : ℕ)
      → back_to_strategy f.real_table (prefix_hash name) n
        ≡ back_to no_strategy strategy_of refl no_strategy_eq n
  unfolding back_to back_to_strategy
  back_to-strategy zero = refl
  back_to-strategy (suc n) = rw (back_to-strategy n)

  -- The hash table's search for next hops answers with those at the longest prefix of the name that
  -- has any, and with none if there is no such prefix.
  pub table_next_hops-longest_prefix :
      find_next_hops codec f name ≡ longest_prefix no_hops (hops_at codec f) name
  unfolding find_next_hops hops_at value_at
  table_next_hops-longest_prefix =
      go (find_longest_prefix_match codec f name)
      ∙ search-longest_prefix no_hops hops_of refl no_hops_eq
    where
      go :
          (o : Option (RealEntry C))
          → elim o [
            | none ↦ []
            | some e ↦ back_to_hops f.real_table (prefix_hash name) (length e.name)
          ]
            ≡ search no_hops hops_of refl no_hops_eq o
      go none = unfold search in refl
      go (some e) = unfold search in back_to-hops (length e.name)

  -- The hash table's search for the strategy answers with the one set at the longest prefix of the
  -- name where one is set.
  pub table_strategy-longest_prefix :
      find_strategy codec f name ≡ longest_prefix no_strategy (strategy_at codec f) name
  unfolding find_strategy strategy_at value_at
  table_strategy-longest_prefix =
      go (find_longest_prefix_match codec f name)
      ∙ search-longest_prefix no_strategy strategy_of refl no_strategy_eq
    where
      go :
          (o : Option (RealEntry C))
          → elim o [
            | none ↦ none
            | some e ↦ back_to_strategy f.real_table (prefix_hash name) (length e.name)
          ]
            ≡ search no_strategy strategy_of refl no_strategy_eq o
      go none = unfold search in refl
      go (some e) = unfold search in back_to-strategy (length e.name)
