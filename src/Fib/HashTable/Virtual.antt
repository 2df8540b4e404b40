-- ===== src/Fib/HashTable/Virtual.antt =====
-- The virtual tables cover the real names: what insertion and pruning do to the names covered.
use Prim.Native.Nat.{max}
use native.Mathlib.Decide.{ℕ_discrete}
use ya_nfd.Prelude.{
  ℕ, ◌≤◌, ◌≡◌, ◌≢◌, refl, sym, ap, false, Option, none, some, List, [], ◌∷◌, length, take, arith,
}
use ya_nfd.Prelude.Assoc
use ya_nfd.Prelude.Assoc.{get-put, get-delete}
use ya_nfd.Fib.HashTable.{
  NameCodec, IsCodec, FibHashTable, bytes_discrete, get, or_default, no_entries, max_length,
  insert_virtual, prune_names, prune_virtual,
}
use ya_nfd.Fib.HashTable.Lookup.{IsCovered}

le-max_length : (d : ℕ) (ns : List (List ℕ × ℕ)) → d ≤ max_length d ns
unfolding max_length
le-max_length d [] = omega arith
le-max_length d ((b, l) ∷ ns) = omega (arith, le-max_length (max d l) ns)

no_entries-get :
    (k : List ℕ) (ns : List (List ℕ × ℕ)) (l : ℕ)
    → Assoc.get bytes_discrete k ns ≡ some l
    → no_entries ns ≡ false
unfolding Assoc.get
no_entries-get k [] l h = cc
no_entries-get k (x ∷ ns) l h = refl

-- A set in which a name stands is there.
listed-present :
    (k : List ℕ) (o : Option (List (List ℕ × ℕ))) (l : ℕ)
    → Assoc.get bytes_discrete k (or_default [] o) ≡ some l
    → o ≢ none
unfolding Assoc.get
listed-present k none l h e = cc
listed-present k (some ns) l h e = cc

module _ {C : Type 0} (codec : NameCodec C) (InUse : List C → Type 0) (laws : IsCodec codec)
    (f : FibHashTable C) (name : List C) where
  open codec use {hash, bytes}

  -- A name that is inserted under its own key is covered afterwards, and one that was covered stays so.
  pub insert_virtual_self :
      (key : ℕ)
      → key ≡ hash (take f.m name)
      → IsCovered codec InUse (insert_virtual codec f key name) name
  unfolding insert_virtual
  insert_virtual_self key e =
      let depth = max (or_default (length name) (get key f.virt_table)) (length name) in
      let names =
        Assoc.put bytes_discrete (bytes name) (length name)
          (or_default [] (get key f.virt_table_names)) in
      record {
        deep = rw (← e, Assoc.get-put_self ℕ_discrete key depth f.virt_table) (omega arith);
        listed =
            rw (← e, Assoc.get-put_self ℕ_discrete key names f.virt_table_names)
              (Assoc.get-put_self bytes_discrete (bytes name) (length name) _);
      }

  pub insert_virtual_other :
      (key : ℕ) (n : List C)
      → IsCovered codec InUse f n
      → IsCovered codec InUse (insert_virtual codec f key name) n
  unfolding insert_virtual
  insert_virtual_other key n c =
      let k = hash (take f.m n) in
      let depth = max (or_default (length name) (get key f.virt_table)) (length name) in
      let old = or_default [] (get key f.virt_table_names) in
      let names = Assoc.put bytes_discrete (bytes name) (length name) old in
      let length_of : bytes name ≡ bytes n → length name ≡ length n =
        λ e. ap length (laws.bytes-injective name n e) in
      record {
        deep = ground (arith, get-put ℕ_discrete key k depth f.virt_table, c.deep);
        listed = ground (
          arith,
          get-put ℕ_discrete key k names f.virt_table_names,
          c.listed,
          get-put bytes_discrete (bytes name) (bytes n) (length name) old,
          length_of,
        );
      }

  -- Pruning a name keeps every other name in its set.
  prune_names_other :
      (key k : ℕ) (n : List C)
      → n ≢ name
      → Assoc.get bytes_discrete (bytes n) (or_default [] (get k f.virt_table_names))
        ≡ some (length n)
      → Assoc.get bytes_discrete (bytes n) (or_default [] (get k (prune_names codec f key name)))
        ≡ some (length n)
  unfolding prune_names
  prune_names_other key k n other listed =
      let old = or_default [] (get key f.virt_table_names) in
      let rest = Assoc.delete bytes_discrete (bytes name) old in
      let apart : bytes name ≢ bytes n = λ e. other (sym (laws.bytes-injective name n e)) in
      ground (
        arith,
        get-delete ℕ_discrete key k f.virt_table_names,
        get-put ℕ_discrete key k rest f.virt_table_names,
        get-delete bytes_discrete (bytes name) (bytes n) old,
        no_entries-get (bytes n) rest (length n),
        apart,
      )

  -- Pruning a name keeps every other name covered.
  pub prune_virtual_other :
      (key : ℕ) (n : List C)
      → n ≢ name
      → IsCovered codec InUse f n
      → IsCovered codec InUse (prune_virtual codec f key name) n
  unfolding prune_virtual
  prune_virtual_other key n other c =
      let k = hash (take f.m n) in
      let names = or_default [] (get key (prune_names codec f key name)) in
      let ns_deep = le-max_length (length name) names in
      record {
        deep = ground (
          arith,
          c.deep,
          ns_deep,
          listed-present (bytes n) (get k (prune_names codec f key name)) (length n)
              (prune_names_other key k n other c.listed),
          get-delete ℕ_discrete key k f.virt_table,
          get-put ℕ_discrete key k (max_length (length name) names) f.virt_table,
        );
        listed = prune_names_other key k n other c.listed;
      }
