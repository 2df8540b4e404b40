-- ===== src/Fib/HashTable/Entries.antt =====
-- Insertion, writes and pruning keep the tables valid, and what they do to the real entries.
use native.Mathlib.Decide.{ℕ_discrete}
use mathlib.Core.Logic.{ite}
use ya_nfd.Prelude.{
  lt→ltb, ℕ, ◌≤◌, ◌≡◌, refl, sym, ap, ◌∙◌, none, some, List, [], length, take, take-length, ltb,
  ◌==◌, arith, Bool-cases, inl, inr, ◌⊎◌,
}
use ya_nfd.Prelude.Assoc.{get-put}
use ya_nfd.Fib.HashTable.{
  NameCodec, IsCodec, RealEntry, FibHashTable, get, or_default, put, write, insert_virtual,
  insert_real, insert_entry,
}
use ya_nfd.Fib.HashTable.Lookup.{NoCollision, IsCovered, IsValid}
use ya_nfd.Fib.HashTable.Virtual.{insert_virtual_self, insert_virtual_other}

module _ {C : Type 0} (codec : NameCodec C) (InUse : List C → Type 0) (laws : IsCodec codec)
    (apart : NoCollision codec InUse) (f : FibHashTable C) where
  open codec use {hash, prefix_hash}

  pub prefix_hash-length : (name : List C) → prefix_hash name (length name) ≡ hash name
  prefix_hash-length name =
      laws.prefix_hash-hash name (length name) (omega arith) ∙ ap hash (take-length name)

  abbrev fresh : List C → RealEntry C
  fresh name = record { name = name; nexthops = []; strategy = none }

  -- Covering depends on the virtual tables alone.
  pub real_table-IsCovered :
      (g : FibHashTable C) (n : List C)
      → g.m ≡ f.m
      → g.virt_table ≡ f.virt_table
      → g.virt_table_names ≡ f.virt_table_names
      → IsCovered codec InUse f n
      → IsCovered codec InUse g n
  real_table-IsCovered g n p q r c = record { deep = rw (p, q) c.deep; listed = rw (p, r) c.listed }

  module _ (name : List C) where
    insert_real-real :
        (h : ℕ)
        → get h (insert_real codec f name).real_table
          ≡ ite
              (ℕ_discrete (hash name) h)
              (some (or_default (fresh name) (get (hash name) f.real_table)))
              (get h f.real_table)
    unfolding insert_real
    insert_real-real h =
        ground (
          arith,
          prefix_hash-length name,
          get-put ℕ_discrete (hash name) h (fresh name) f.real_table,
        )

    -- Only the real table changes.
    insert_real-frame :
        ((insert_real codec f name).m ≡ f.m)
        × ((insert_real codec f name).virt_table ≡ f.virt_table)
        × ((insert_real codec f name).virt_table_names ≡ f.virt_table_names)
    unfolding insert_real
    insert_real-frame = ground arith

    insert_virtual-frame :
        (g : FibHashTable C) (key : ℕ)
        → ((insert_virtual codec g key name).m ≡ g.m)
          × ((insert_virtual codec g key name).real_table ≡ g.real_table)
    unfolding insert_virtual
    insert_virtual-frame g key = (refl, refl)

    pub insert_entry-real :
        (h : ℕ)
        → get h (insert_entry codec f name).real_table
          ≡ ite
              (ℕ_discrete (hash name) h)
              (some (or_default (fresh name) (get (hash name) f.real_table)))
              (get h f.real_table)
    unfolding insert_entry
    insert_entry-real h =
        let g = insert_real codec f name in
        ground (
          arith,
          insert_real-real h,
          insert_virtual-frame g (prefix_hash name (length name)),
          insert_virtual-frame g (prefix_hash name f.m),
        )

    pub insert_entry-m : (insert_entry codec f name).m ≡ f.m
    unfolding insert_entry
    insert_entry-m =
        let g = insert_real codec f name in
        ground (
          arith,
          insert_real-frame,
          insert_virtual-frame g (prefix_hash name (length name)),
          insert_virtual-frame g (prefix_hash name f.m),
        )

    insert_entry-IsCovered :
        (n : List C)
        → IsCovered codec InUse f n
        → IsCovered codec InUse (insert_entry codec f name) n
    unfolding insert_entry
    insert_entry-IsCovered n c =
        let g = insert_real codec f name in
        let (p, q, r) = insert_real-frame in
        let d = real_table-IsCovered g n p q r c in
        elim (Bool-cases (length name == f.m)) [
          | inl same ↦
              rw same
                (insert_virtual_other codec InUse laws g name (prefix_hash name (length name)) n d)
          | inr other ↦ elim (Bool-cases (ltb f.m (length name))) [
            | inl long ↦
                rw (other, long)
                  (insert_virtual_other codec InUse laws g name (prefix_hash name f.m) n d)
            | inr short ↦ rw (other, short) d
          ]
        ]

    insert_entry-IsCovered_self :
        f.m ≤ length name → IsCovered codec InUse (insert_entry codec f name) name
    unfolding insert_entry
    insert_entry-IsCovered_self h =
        let g = insert_real codec f name in
        let (same_m, _, _) = insert_real-frame in
        let self = insert_virtual_self codec InUse laws g name in
        elim (Bool-cases (length name == f.m)) [
          | inl same ↦ rw same (
              self _ (
                laws.prefix_hash-hash name (length name) (omega arith)
                ∙ ap (λ i. hash (take i name)) (ground arith)))
          | inr other ↦
              rw (other, lt→ltb f.m (length name) (ground arith))
                (self _
                  (laws.prefix_hash-hash name f.m h ∙ ap (λ i. hash (take i name)) (sym same_m)))
        ]

    -- An entry after the insertion was there before, or is the new one.
    inserted :
        (h : ℕ) (e : RealEntry C)
        → get h (insert_entry codec f name).real_table ≡ some e
        → (get h f.real_table ≡ some e) ⊎ ((e.name ≡ name) × (h ≡ hash name))
    inserted h e p = ground (arith, insert_entry-real h)

    -- Insertion keeps the tables valid.
    pub insert_entry-IsValid :
        InUse name → IsValid codec InUse f → IsValid codec InUse (insert_entry codec f name)
    insert_entry-IsValid used v = record {
      stored = λ h e p. elim (inserted h e p) [
        | inl old ↦ v.stored h e old
        | inr (same, key) ↦ (rw same used, rw (same, key))
      ];
      covered = λ h e p q. elim (inserted h e p) [
        | inl old ↦
            insert_entry-IsCovered e.name (v.covered h e old (omega (arith, insert_entry-m)))
        | inr (same, key) ↦
            let size = ap (λ n. length n) same in
            rw same (insert_entry-IsCovered_self (omega (arith, insert_entry-m, size)))
      ];
    }

  -- A write that keeps the entry's name.
  pub write-IsValid :
      (h : ℕ) (e e' : RealEntry C)
      → IsValid codec InUse f
      → get h f.real_table ≡ some e
      → e'.name ≡ e.name
      → IsValid codec InUse (write f h e')
  write-IsValid h e e' v found same = record {
    stored = λ h' x p. elim (written h' x p) [
      | inl old ↦ v.stored h' x old
      | inr (kept, key) ↦ rw (kept, key) (v.stored h e found)
    ];
    covered = λ h' x p q.
        real_table-IsCovered (write f h e') x.name refl refl refl (elim (written h' x p) [
          | inl old ↦ v.covered h' x old q
          | inr (kept, key) ↦ rw kept (v.covered h e found (rw (← kept) q))
        ]);
  }
    where
      written :
          (h' : ℕ) (x : RealEntry C)
          → get h' (put h e' f.real_table) ≡ some x
          → (get h' f.real_table ≡ some x) ⊎ ((x.name ≡ e.name) × (h' ≡ h))
      written h' x p = ground (arith, get-put ℕ_discrete h h' e' f.real_table, same)
