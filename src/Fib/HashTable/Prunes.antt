-- ===== src/Fib/HashTable/Prunes.antt =====
-- Pruning deletes blank real entries, and keeps the tables valid.
use native.Mathlib.Decide.{ℕ_discrete}
use mathlib.Core.Logic.{ite}
use ya_nfd.Prelude.{
  ℕ, ◌≤◌, ◌≡◌, ◌≢◌, refl, sym, ap, ◌∙◌, false, ◌&&◌, none, some, List, length, leb, if◌then◌else◌,
  arith, Bool-cases, inl, inr, ◌⊎◌,
}
use ya_nfd.Prelude.Assoc.{get-delete}
use ya_nfd.Fib.Spec.{no_hops, no_strategy}
use ya_nfd.Fib.HashTable.{
  NameCodec, IsCodec, RealEntry, FibHashTable, get, delete, prune_virtual, prune_tables,
}
use ya_nfd.Fib.HashTable.Lookup.{NoCollision, IsCovered, IsValid}
use ya_nfd.Fib.HashTable.Entries.{prefix_hash-length, real_table-IsCovered}
use ya_nfd.Fib.HashTable.Virtual.{prune_virtual_other}

module _ {C : Type 0} (codec : NameCodec C) (InUse : List C → Type 0) (laws : IsCodec codec)
    (apart : NoCollision codec InUse) (f : FibHashTable C) where
  open codec use {hash, prefix_hash}

  module _ (entry : RealEntry C) where
    prune_virtual-frame :
        (g : FibHashTable C) (key : ℕ)
        → ((prune_virtual codec g key entry.name).m ≡ g.m)
          × ((prune_virtual codec g key entry.name).real_table ≡ g.real_table)
    unfolding prune_virtual
    prune_virtual-frame g key = (refl, refl)

    -- Pruning deletes an entry that carries nothing, and else does nothing.
    pub prune_tables-real :
        (h : ℕ)
        → get h (prune_tables codec f entry).real_table ≡ (
            if no_hops entry.nexthops && no_strategy entry.strategy
            then ite (ℕ_discrete (hash entry.name) h) none (get h f.real_table)
            else get h f.real_table)
    unfolding prune_tables
    prune_tables-real h =
        let g = record f {
          real_table = delete (prefix_hash entry.name (length entry.name)) f.real_table;
        } in
        ground (
          arith,
          prefix_hash-length codec InUse laws apart f entry.name,
          get-delete ℕ_discrete (hash entry.name) h f.real_table,
          prune_virtual-frame g (prefix_hash entry.name f.m),
        )

    prune_tables-m : (prune_tables codec f entry).m ≡ f.m
    unfolding prune_tables
    prune_tables-m =
        let g = record f {
          real_table = delete (prefix_hash entry.name (length entry.name)) f.real_table;
        } in
        ground (arith, prune_virtual-frame g (prefix_hash entry.name f.m))

    prune_tables-IsCovered :
        (n : List C)
        → n ≢ entry.name ⊎ (no_hops entry.nexthops && no_strategy entry.strategy ≡ false)
        → IsCovered codec InUse f n
        → IsCovered codec InUse (prune_tables codec f entry) n
    unfolding prune_tables
    prune_tables-IsCovered n other c =
        let name = entry.name in
        let g = record f { real_table = delete (prefix_hash name (length name)) f.real_table } in
        let d = real_table-IsCovered codec InUse laws apart f g n refl refl refl c in
        elim (Bool-cases (no_hops entry.nexthops && no_strategy entry.strategy)) [
          | inr kept ↦ rw kept c
          | inl gone ↦ elim (Bool-cases (leb f.m (length name))) [
            | inr short ↦ rw (gone, short) d
            | inl long ↦
                rw (gone, long)
                  (prune_virtual_other codec InUse laws g name (prefix_hash name f.m) n
                    (ground arith) d)
          ]
        ]

    -- Pruning keeps the tables valid.
    pub prune_tables-IsValid :
        IsValid codec InUse f → IsValid codec InUse (prune_tables codec f entry)
    prune_tables-IsValid v = record {
      stored = λ h e p. v.stored h e (was h e p).0;
      covered = λ h e p q.
          let (there, other) = was h e p in
          let fits : f.m ≤ length e.name = omega (arith, prune_tables-m) in
          prune_tables-IsCovered e.name other (v.covered h e there fits);
    }
      where
        was :
            (h : ℕ) (e : RealEntry C)
            → get h (prune_tables codec f entry).real_table ≡ some e
            → (get h f.real_table ≡ some e)
              × (e.name ≢ entry.name
                  ⊎ (no_hops entry.nexthops && no_strategy entry.strategy ≡ false))
        was h e p = elim (Bool-cases (no_hops entry.nexthops && no_strategy entry.strategy)) [
          | inr kept ↦ (ground (arith, prune_tables-real h), inr kept)
          | inl gone ↦
              let there : get h f.real_table ≡ some e = ground (arith, prune_tables-real h) in
              let (_, key) = v.stored h e there in
              (
                there,
                inl (λ same.
                    let at_name : hash entry.name ≡ h = ap hash (sym same) ∙ key in
                    ground (arith, prune_tables-real h)),
              )
        ]
