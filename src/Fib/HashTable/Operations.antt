-- ===== src/Fib/HashTable/Operations.antt =====
-- The operations of the hash table, as changes of the values at exact names.
use native.Mathlib.Decide.{ℕ_discrete}
use ya_nfd.Prelude.{
  ℕ, ◌≡◌, refl, sym, ap, ◌∙◌, true, false, Option, none, some, List, [], ◌∷◌, if◌then◌else◌, arith,
  Option-cases, Bool-cases, inl, inr, ◌↔◌,
}
use ya_nfd.Prelude.Assoc.{get-put}
use ya_nfd.Name.{same_name, same_name→eq, same_name_self}
use ya_nfd.Fib.Hops.{NextHop, put_hop, has_hop, swap_erase_hop}
use ya_nfd.Fib.Spec.{no_hops_eq, no_strategy_eq}
use ya_nfd.Fib.HashTable.{
  NameCodec, IsCodec, RealEntry, FibHashTable, get, or_default, hops_of, strategy_of, write,
  insert_entry, prune_tables, hops_at, strategy_at, insert_next_hop, set_strategy, clear_next_hops,
  remove_next_hop, unset_strategy,
}
use ya_nfd.Fib.HashTable.Lookup.{NoCollision, IsValid}
use ya_nfd.Fib.HashTable.Entries.{
  prefix_hash-length, insert_entry-real, insert_entry-IsValid, write-IsValid,
}
use ya_nfd.Fib.HashTable.Prunes.{prune_tables-real, prune_tables-IsValid}

module _ {C : Type 0} (equal : Discrete C) (codec : NameCodec C) (InUse : List C → Type 0)
    (laws : IsCodec codec) (apart : NoCollision codec InUse) where
  open codec use {hash, prefix_hash}

  -- What an operation that sets the values at `name` to `hops` and `strat` of the old ones does, at
  -- the names in use.
  pub record Updates (f g : FibHashTable C) (name : List C) (hops : List NextHop → List NextHop)
      (strat : Option (List C) → Option (List C)) : Type 0 where
    pub valid : IsValid codec InUse g
    pub hops_after :
        (n : List C)
        → InUse n
        → hops_at codec g n
          ≡ (if same_name equal n name then hops (hops_at codec f n) else hops_at codec f n)
    pub strategy_after :
        (n : List C)
        → InUse n
        → strategy_at codec g n ≡ (
            if same_name equal n name then strat (strategy_at codec f n) else strategy_at codec f n)

  module _ (f : FibHashTable C) (v : IsValid codec InUse f) (name : List C)
      (used : InUse name) where
    same_hash : (n : List C) → InUse n → (hash name ≡ hash n) ↔ (same_name equal n name ≡ true)
    same_hash n u = (
      λ h. let same = apart.distinct name n used u h in rw same (same_name_self equal n),
      λ h. ap hash (sym (same_name→eq equal n name h)),
    )

    -- From the entry under the hash of the name, before and after.
    Updates-of_entry :
        (g : FibHashTable C) (hops : List NextHop → List NextHop)
        (strat : Option (List C) → Option (List C))
        → IsValid codec InUse g
        → hops_of (get (hash name) g.real_table) ≡ hops (hops_of (get (hash name) f.real_table))
        → strategy_of (get (hash name) g.real_table)
          ≡ strat (strategy_of (get (hash name) f.real_table))
        → ((h : ℕ) → (hash name ≡ h → ⊥) → get h g.real_table ≡ get h f.real_table)
        → Updates f g name hops strat
    unfolding hops_at strategy_at
    Updates-of_entry g hops strat valid p q other = record {
      valid = valid;
      hops_after = λ n u. elim (ℕ_discrete (hash name) (hash n)) [
        | yes e ↦ rw ((same_hash n u).0 e, ← e) p
        | no e ↦ ground (arith, (same_hash n u).1, other (hash n) e)
      ];
      strategy_after = λ n u. elim (ℕ_discrete (hash name) (hash n)) [
        | yes e ↦ rw ((same_hash n u).0 e, ← e) q
        | no e ↦ ground (arith, (same_hash n u).1, other (hash n) e)
      ];
    }

    -- A write to the entry that `insertEntryEnc` gives.
    entry_of : RealEntry C
    entry_of =
        or_default (record { name = name; nexthops = []; strategy = none })
          (get (hash name) f.real_table)

    entry_of-values :
        (entry_of.nexthops ≡ hops_of (get (hash name) f.real_table))
        × (entry_of.strategy ≡ strategy_of (get (hash name) f.real_table))
    unfolding entry_of
    entry_of-values = ground arith

    insert_entry-here : get (hash name) (insert_entry codec f name).real_table ≡ some entry_of
    unfolding entry_of
    insert_entry-here = ground (arith, insert_entry-real codec InUse laws apart f name (hash name))

    Updates-inserted :
        (e' : RealEntry C) (hops : List NextHop → List NextHop)
        (strat : Option (List C) → Option (List C))
        → e'.name ≡ entry_of.name
        → e'.nexthops ≡ hops entry_of.nexthops
        → e'.strategy ≡ strat entry_of.strategy
        → Updates f (write (insert_entry codec f name) (hash name) e') name hops strat
    Updates-inserted e' hops strat same p q =
        let g = insert_entry codec f name in
        let (blank_hops, blank_strategy) = entry_of-values in
        let at = λ (h : ℕ). get-put ℕ_discrete (hash name) h e' g.real_table in
        Updates-of_entry (write g (hash name) e') hops strat
          (write-IsValid codec InUse laws apart g (hash name) entry_of e'
            (insert_entry-IsValid codec InUse laws apart f name used v) insert_entry-here same)
          (rw (← blank_hops) (ground (arith, at (hash name), p)))
          (rw (← blank_strategy) (ground (arith, at (hash name), q)))
          (λ h other. ground (arith, at h, insert_entry-real codec InUse laws apart f name h))

    Updates-absent :
        (hops : List NextHop → List NextHop) (strat : Option (List C) → Option (List C))
        → get (hash name) f.real_table ≡ none
        → hops [] ≡ []
        → strat none ≡ none
        → Updates f f name hops strat
    Updates-absent hops strat absent p q =
        Updates-of_entry f hops strat v (rw absent (sym p)) (rw absent (sym q)) (λ h other. refl)

    -- A write to an entry that is there, and its pruning.
    Updates-pruned :
        (e e' : RealEntry C) (hops : List NextHop → List NextHop)
        (strat : Option (List C) → Option (List C))
        → get (hash name) f.real_table ≡ some e
        → e'.name ≡ e.name
        → e'.nexthops ≡ hops e.nexthops
        → e'.strategy ≡ strat e.strategy
        → Updates f (prune_tables codec (write f (hash name) e') e') name hops strat
    Updates-pruned e e' hops strat found same p q =
        let g = write f (hash name) e' in
        let valid = write-IsValid codec InUse laws apart f (hash name) e e' v found same in
        let (_, stored) = v.stored (hash name) e found in
        let key : hash e'.name ≡ hash name = ap hash same ∙ stored in
        let at = λ (h : ℕ). get-put ℕ_discrete (hash name) h e' f.real_table in
        let pruned = λ (h : ℕ). prune_tables-real codec InUse laws apart g e' h in
        Updates-of_entry (prune_tables codec g e') hops strat
          (prune_tables-IsValid codec InUse laws apart g e' valid)
          (rw found
            (ground (arith, pruned (hash name), at (hash name), key, p, no_hops_eq e'.nexthops)))
          (rw found (
            ground (arith, pruned (hash name), at (hash name), key, q, no_strategy_eq e'.strategy)))
          (λ h other. ground (arith, pruned h, at h, key))

    -- Inserting a next hop into valid tables puts it among those at the name, changes no strategy and
    -- no next hops of another name in use, and keeps the tables valid.
    pub table_insert-Updates :
        (face cost : ℕ)
        → Updates f (insert_next_hop codec f name face cost) name (put_hop face cost) (λ s. s)
    unfolding insert_next_hop
    table_insert-Updates face cost =
        let key = prefix_hash-length codec InUse laws apart f name in
        rw (key, insert_entry-here, insert_next_hop, key)
          (Updates-inserted (record entry_of { nexthops = put_hop face cost entry_of.nexthops })
            (put_hop face cost) (λ s. s) refl refl refl)

    pub table_set-Updates :
        (strat : Option (List C))
        → Updates f (set_strategy codec f name strat) name (λ h. h) (λ s. strat)
    unfolding set_strategy
    table_set-Updates strat =
        let key = prefix_hash-length codec InUse laws apart f name in
        rw (key, insert_entry-here, set_strategy, key)
          (Updates-inserted (record entry_of { strategy = strat }) (λ h. h) (λ s. strat) refl refl
            refl)

    pub table_clear-Updates : Updates f (clear_next_hops codec f name) name (λ h. []) (λ s. s)
    unfolding clear_next_hops
    table_clear-Updates = elim (Option-cases (get (hash name) f.real_table)) [
      | inl absent ↦
          rw (absent, clear_next_hops) (Updates-absent (λ h. []) (λ s. s) absent refl refl)
      | inr (e, found) ↦
          rw (found, clear_next_hops)
            (Updates-pruned e (record e { nexthops = [] }) (λ h. []) (λ s. s) found refl refl refl)
    ]

    pub table_unset-Updates : Updates f (unset_strategy codec f name) name (λ h. h) (λ s. none)
    unfolding unset_strategy
    table_unset-Updates = elim (Option-cases (get (hash name) f.real_table)) [
      | inl absent ↦
          rw (absent, unset_strategy) (Updates-absent (λ h. h) (λ s. none) absent refl refl)
      | inr (e, found) ↦
          rw (found, unset_strategy)
            (Updates-pruned e (record e { strategy = none }) (λ h. h) (λ s. none) found refl refl
              refl)
    ]

    swap_erase_absent :
        (face : ℕ) (hs : List NextHop) → has_hop face hs ≡ false → swap_erase_hop face hs ≡ hs
    unfolding has_hop swap_erase_hop
    swap_erase_absent face [] h = refl
    swap_erase_absent face (x ∷ hs) h = ground (arith, swap_erase_absent face hs)

    -- Removing a next hop from valid tables erases it at the name, the last one taking its place, changes
    -- nothing at any other name in use, and keeps the tables valid, the entry being pruned or not.
    pub table_remove-Updates :
        (face : ℕ)
        → Updates f (remove_next_hop codec f name face) name (swap_erase_hop face) (λ s. s)
    unfolding remove_next_hop swap_erase_hop
    table_remove-Updates face = elim (Option-cases (get (hash name) f.real_table)) [
      | inl absent ↦
          rw (absent, remove_next_hop)
            (Updates-absent (swap_erase_hop face) (λ s. s) absent refl refl)
      | inr (e, found) ↦ elim (Bool-cases (has_hop face e.nexthops)) [
        | inl there ↦
            rw (found, there, remove_next_hop)
              (Updates-pruned e (record e { nexthops = swap_erase_hop face e.nexthops })
                (swap_erase_hop face) (λ s. s) found refl refl refl)
        | inr none_there ↦
            rw (found, none_there, remove_next_hop)
              (Updates-of_entry f (swap_erase_hop face) (λ s. s) v
                (rw found (sym (swap_erase_absent face e.nexthops none_there))) refl
                (λ h other. refl))
      ]
    ]
