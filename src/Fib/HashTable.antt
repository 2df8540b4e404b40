-- ===== src/Fib/HashTable.antt =====
-- table/fib-strategy-hashtable.go: the FIB-Strategy table as hash tables of real and virtual names.
pub mod Lookup
pub mod Search
pub mod Virtual
pub mod Entries
pub mod Prunes
pub mod Operations
use native.Mathlib.Decide.{ℕ_discrete}
use Prim.Native.Nat.{min, max}
use ya_nfd.Prelude.{
  ℕ, zero, suc, ◌+◌, ◌-◌, ◌≤◌, ◌≡◌, take, Bool, true, false, ◌&&◌, Option, none, some, List, [],
  ◌∷◌, length, ltb, leb, ◌==◌, if◌then◌else◌,
}
use ya_nfd.Prelude.Assoc
use ya_nfd.Fib.Hops.{NextHop, put_hop, has_hop, swap_erase_hop}
use ya_nfd.Fib.Spec.{no_hops, no_strategy}

-- What the table uses of the codec package's names: `Hash`, `PrefixHash` at an index, `Bytes`.
pub record NameCodec (C : Type 0) : Type 0 where
  pub hash : List C → ℕ
  pub prefix_hash : List C → ℕ → ℕ
  pub bytes : List C → List ℕ

-- `baseFibStrategyEntry`
pub record RealEntry (C : Type 0) : Type 0 where
  pub name : List C
  pub nexthops : List NextHop
  pub strategy : Option (List C)

-- `FibStrategyHashTable`
pub record FibHashTable (C : Type 0) : Type 0 where
  pub m : ℕ
  pub real_table : List (ℕ × RealEntry C)
  pub virt_table : List (ℕ × ℕ)
  pub virt_table_names : List (ℕ × List (List ℕ × ℕ))

unfoldable pub bytes_discrete : Discrete (List ℕ)
unfolding ℕ_discrete
bytes_discrete = hlevel ℕ_discrete

module _ {V : Type 0} where
  abbrev pub get : ℕ → List (ℕ × V) → Option V
  get = Assoc.get ℕ_discrete

  abbrev pub put : ℕ → V → List (ℕ × V) → List (ℕ × V)
  put = Assoc.put ℕ_discrete

  abbrev pub delete : ℕ → List (ℕ × V) → List (ℕ × V)
  delete = Assoc.delete ℕ_discrete

  abbrev pub or_else : Option V → Option V → Option V
  or_else none d = d
  or_else (some v) d = some v

  abbrev pub or_default : V → Option V → V
  or_default d none = d
  or_default d (some v) = v

  abbrev pub no_entries : List V → Bool
  no_entries [] = true
  no_entries (x ∷ xs) = false

-- The greatest of the lengths and `d`.
unfoldable pub max_length : ℕ → List (List ℕ × ℕ) → ℕ
max_length d [] = d
max_length d ((b, l) ∷ ns) = max_length (max d l) ns

module _ {C : Type 0} where
  -- `for pfx := n; pfx >= 0; pfx--` over the real table.
  unfoldable pub scan_real : List (ℕ × RealEntry C) → (ℕ → ℕ) → ℕ → Option (RealEntry C)
  scan_real table hash_at zero = get (hash_at 0) table
  scan_real table hash_at (suc n) =
      let below = scan_real table hash_at n in or_else (get (hash_at (suc n)) table) below

  -- `for ; pfx > m; pfx--` from `pfx = m + k`.
  unfoldable pub scan_above : List (ℕ × RealEntry C) → (ℕ → ℕ) → ℕ → ℕ → Option (RealEntry C)
  scan_above table hash_at m zero = none
  scan_above table hash_at m (suc k) =
      let below = scan_above table hash_at m k in or_else (get (hash_at (m + suc k)) table) below

  -- The loops that go back from the entry found to the first prefix with next hops, or a strategy.
  abbrev pub hops_of : Option (RealEntry C) → List NextHop
  hops_of none = []
  hops_of (some e) = e.nexthops

  abbrev pub strategy_of : Option (RealEntry C) → Option (List C)
  strategy_of none = none
  strategy_of (some e) = e.strategy

  unfoldable pub back_to_hops : List (ℕ × RealEntry C) → (ℕ → ℕ) → ℕ → List NextHop
  back_to_hops table hash_at zero = hops_of (get (hash_at 0) table)
  back_to_hops table hash_at (suc n) =
      let below = back_to_hops table hash_at n in
      let here = hops_of (get (hash_at (suc n)) table) in if no_hops here then below else here

  unfoldable pub back_to_strategy : List (ℕ × RealEntry C) → (ℕ → ℕ) → ℕ → Option (List C)
  back_to_strategy table hash_at zero = strategy_of (get (hash_at 0) table)
  back_to_strategy table hash_at (suc n) =
      let below = back_to_strategy table hash_at n in
      let here = strategy_of (get (hash_at (suc n)) table) in
      if no_strategy here then below else here

  -- A change to the entry that a pointer into the real table gives.
  abbrev pub write : FibHashTable C → ℕ → RealEntry C → FibHashTable C
  write f h e = record f { real_table = put h e f.real_table }

module _ {C : Type 0} (codec : NameCodec C) where
  open codec use {hash, prefix_hash, bytes}

  unfoldable pub find_longest_prefix_match : FibHashTable C → List C → Option (RealEntry C)
  unfolding scan_real scan_above
  find_longest_prefix_match f name =
      let table = f.real_table in
      let from_m = scan_real table (prefix_hash name) f.m in
      if leb (length name) f.m
      then scan_real table (prefix_hash name) (length name)
      else elim (get (prefix_hash name f.m) f.virt_table) [
        | none ↦ from_m
        | some md ↦
            or_else (scan_above table (prefix_hash name) f.m (min md (length name) - f.m)) from_m
      ]

  unfoldable pub find_next_hops : FibHashTable C → List C → List NextHop
  unfolding find_longest_prefix_match back_to_hops
  find_next_hops f name = elim (find_longest_prefix_match f name) [
    | none ↦ []
    | some entry ↦ back_to_hops f.real_table (prefix_hash name) (length entry.name)
  ]

  unfoldable pub find_strategy : FibHashTable C → List C → Option (List C)
  unfolding find_longest_prefix_match back_to_strategy
  find_strategy f name = elim (find_longest_prefix_match f name) [
    | none ↦ none
    | some entry ↦ back_to_strategy f.real_table (prefix_hash name) (length entry.name)
  ]

  -- The entry of `insertEntryEnc` in the virtual tables, under the hash `key` of the virtual name.
  unfoldable pub insert_virtual : FibHashTable C → ℕ → List C → FibHashTable C
  insert_virtual f key name = record f {
    virt_table =
        put key (max (or_default (length name) (get key f.virt_table)) (length name)) f.virt_table;
    virt_table_names =
        put key
          (Assoc.put bytes_discrete (bytes name) (length name)
            (or_default [] (get key f.virt_table_names)))
          f.virt_table_names;
  }

  -- The entry of `insertEntryEnc` in the real table.
  unfoldable pub insert_real : FibHashTable C → List C → FibHashTable C
  insert_real f name =
      let name_hash = prefix_hash name (length name) in
      let fresh : RealEntry C = record { name = name; nexthops = []; strategy = none } in
      elim (get name_hash f.real_table) [
        | none ↦ record f { real_table = put name_hash fresh f.real_table }
        | some e ↦ f
      ]

  unfoldable pub insert_entry : FibHashTable C → List C → FibHashTable C
  insert_entry f name =
      let f' = insert_real f name in
      if length name == f.m
      then insert_virtual f' (prefix_hash name (length name)) name
      else if ltb f.m (length name)
      then insert_virtual f' (prefix_hash name f.m) name
      else f'

  -- The rest of `pruneTables`, for a real name at least `m` long that has been deleted: its place
  -- among the names of its virtual name, then the virtual entry.
  unfoldable pub prune_names : FibHashTable C → ℕ → List C → List (ℕ × List (List ℕ × ℕ))
  prune_names f key name =
      let names = or_default [] (get key f.virt_table_names) in
      let rest = Assoc.delete bytes_discrete (bytes name) names in
      let kept =
        if no_entries rest
        then delete key f.virt_table_names
        else put key rest f.virt_table_names in
      elim (get key f.virt_table) [
        | none ↦ f.virt_table_names
        | some md ↦ elim (Assoc.get bytes_discrete (bytes name) names) [
          | none ↦ f.virt_table_names
          | some l ↦ kept
        ]
      ]

  unfoldable pub prune_virtual : FibHashTable C → ℕ → List C → FibHashTable C
  unfolding prune_names max_length
  prune_virtual f key name =
      let names = prune_names f key name in
      let table : List (ℕ × ℕ) = elim (get key f.virt_table) [
        | none ↦ f.virt_table
        | some md ↦
            let shrunk : List (ℕ × ℕ) = elim (get key names) [
              | none ↦ delete key f.virt_table
              | some ns ↦ put key (max_length md ns) f.virt_table
            ] in
            if length name == md then shrunk else f.virt_table
      ] in
      record f { virt_table = table; virt_table_names = names }

  unfoldable pub prune_tables : FibHashTable C → RealEntry C → FibHashTable C
  prune_tables f entry =
      let name = entry.name in
      let f' = record f { real_table = delete (prefix_hash name (length name)) f.real_table } in
      let gone =
        if leb f.m (length name) then prune_virtual f' (prefix_hash name f.m) name else f' in
      if no_hops entry.nexthops && no_strategy entry.strategy then gone else f

  -- After `insertEntryEnc` the entry is there: `none` would be a nil dereference.
  unfoldable pub insert_next_hop : FibHashTable C → List C → ℕ → ℕ → FibHashTable C
  insert_next_hop f name face cost =
      let f' = insert_entry f name in
      let h = prefix_hash name (length name) in
      elim (get h f'.real_table) [
        | none ↦ f'
        | some e ↦ write f' h (record e { nexthops = put_hop face cost e.nexthops })
      ]

  unfoldable pub set_strategy : FibHashTable C → List C → Option (List C) → FibHashTable C
  set_strategy f name strat =
      let f' = insert_entry f name in
      let h = prefix_hash name (length name) in
      elim (get h f'.real_table) [ none ↦ f' | some e ↦ write f' h (record e { strategy = strat }) ]

  unfoldable pub clear_next_hops : FibHashTable C → List C → FibHashTable C
  clear_next_hops f name = elim (get (hash name) f.real_table) [
    | none ↦ f
    | some e ↦
        let e' : RealEntry C = record e { nexthops = [] } in
        prune_tables (write f (hash name) e') e'
  ]

  -- Nothing is pruned where no next hop goes over the face.
  unfoldable pub remove_next_hop : FibHashTable C → List C → ℕ → FibHashTable C
  remove_next_hop f name face = elim (get (hash name) f.real_table) [
    | none ↦ f
    | some e ↦
        let e' : RealEntry C = record e { nexthops = swap_erase_hop face e.nexthops } in
        if has_hop face e.nexthops then prune_tables (write f (hash name) e') e' else f
  ]

  unfoldable pub unset_strategy : FibHashTable C → List C → FibHashTable C
  unset_strategy f name = elim (get (hash name) f.real_table) [
    | none ↦ f
    | some e ↦
        let e' : RealEntry C = record e { strategy = none } in
        prune_tables (write f (hash name) e') e'
  ]

  -- `newFibStrategyTableHashTable`: the root name, with the default strategy.
  unfoldable pub new_fib_hash_table : ℕ → List C → FibHashTable C
  new_fib_hash_table m default = record {
    m = m;
    real_table = put (hash []) (record { name = []; nexthops = []; strategy = some default }) [];
    virt_table = [];
    virt_table_names = [];
  }

  -- The next hops and the strategy of the real entry under the hash of this name.
  unfoldable pub hops_at : FibHashTable C → List C → List NextHop
  hops_at f name = hops_of (get (hash name) f.real_table)

  unfoldable pub strategy_at : FibHashTable C → List C → Option (List C)
  strategy_at f name = strategy_of (get (hash name) f.real_table)

-- What the codec package documents: `PrefixHash` lists the hashes of the prefixes, and the bytes of
-- a name determine it.
pub record IsCodec {C : Type 0} (codec : NameCodec C) : Type 0 where
  pub prefix_hash-hash :
      (name : List C) (i : ℕ)
      → i ≤ length name
      → codec.prefix_hash name i ≡ codec.hash (take i name)
  pub bytes-injective : (n n' : List C) → codec.bytes n ≡ codec.bytes n' → n ≡ n'
