-- ===== src/Fib/HashTable/Lookup.antt =====
-- The hash table's search for an entry finds what a scan of the real table over all prefixes of the
-- name finds, as long as no two of the names in use have the same hash.
use Prim.Native.Nat.{min}
use ya_nfd.Prelude.{
  ℕ, zero, suc, ◌+◌, ◌-◌, ◌≤◌, ◌<◌, ◌≡◌, refl, sym, ap, ◌∙◌, Option, none, some, List, [], length,
  take, length-take_of_le, leb, arith, le_suc-cases, take-take, Option-cases, Bool-cases, inl, inr,
  ◌⊎◌,
}
use ya_nfd.Prelude.Assoc
use ya_nfd.Fib.HashTable.{
  NameCodec, IsCodec, RealEntry, FibHashTable, bytes_discrete, get, or_else, or_default, scan_real,
  scan_above, find_longest_prefix_match,
}

-- A set of names that is closed under prefixes, in which the hash tells the names apart.
pub record NoCollision {C : Type 0} (codec : NameCodec C) (InUse : List C → Type 0) : Type 0 where
  pub prefixes : (n : List C) (i : ℕ) → InUse n → InUse (take i n)
  pub distinct : (n n' : List C) → InUse n → InUse n' → codec.hash n ≡ codec.hash n' → n ≡ n'

module _ {C : Type 0} (codec : NameCodec C) (InUse : List C → Type 0) where
  open codec use {hash, prefix_hash, bytes}

  -- The virtual entry of a real name at least `m` long is as deep as the name, and the name stands in
  -- its set of names.
  pub record IsCovered (f : FibHashTable C) (name : List C) : Type 0 where
    pub deep : length name ≤ or_default 0 (get (hash (take f.m name)) f.virt_table)
    pub listed :
        Assoc.get bytes_discrete
          (bytes name)
          (or_default [] (get (hash (take f.m name)) f.virt_table_names))
        ≡ some (length name)

  -- A real entry stands under the hash of its name, which is in use, and a long one is covered.
  pub record IsValid (f : FibHashTable C) : Type 0 where
    pub stored :
        (h : ℕ) (e : RealEntry C) → get h f.real_table ≡ some e → InUse e.name × (hash e.name ≡ h)
    pub covered :
        (h : ℕ) (e : RealEntry C)
        → get h f.real_table ≡ some e
        → f.m ≤ length e.name
        → IsCovered f e.name

or_else_assoc : {V : Type 0} (a b c : Option V) → or_else (or_else a b) c ≡ or_else a (or_else b c)
or_else_assoc none b c = refl
or_else_assoc (some a) b c = refl

module _ {C : Type 0} (table : List (ℕ × RealEntry C)) (hash_at : ℕ → ℕ) where
  -- Where a scan finds an entry, and that it finds none above it.
  pub record FoundAt (n : ℕ) (e : RealEntry C) : Type 0 where
    pub index : ℕ
    pub bound : index ≤ n
    pub here : get (hash_at index) table ≡ some e
    pub above : (j : ℕ) → index < j → j ≤ n → get (hash_at j) table ≡ none

  pub scan_real_found : (n : ℕ) (e : RealEntry C) → scan_real table hash_at n ≡ some e → FoundAt n e
  unfolding scan_real
  scan_real_found zero e h = record {
    index = 0;
    bound = omega arith;
    here = h;
    above = λ j p q. absurd (omega arith);
  }
  scan_real_found (suc n) e h = elim (Option-cases (get (hash_at (suc n)) table)) [
    | inl miss ↦
        let below = scan_real_found n e (ground arith) in
        record {
          index = below.index;
          bound = omega (arith, below.bound);
          here = below.here;
          above = λ j p q. elim (le_suc-cases j n q) [
            | inl r ↦ below.above j p r
            | inr same ↦ rw same miss
          ];
        }
    | inr (x, hit) ↦ record {
      index = suc n;
      bound = omega arith;
      here = ground arith;
      above = λ j p q. absurd (omega arith);
    }
  ]

  pub scan_real-none :
      (n j : ℕ) → scan_real table hash_at n ≡ none → j ≤ n → get (hash_at j) table ≡ none
  unfolding scan_real
  scan_real-none zero j h p = let e : j ≡ 0 = omega arith in rw e h
  scan_real-none (suc n) j h p = elim (le_suc-cases j n p) [
    | inl r ↦ scan_real-none n j (ground arith) r
    | inr same ↦ rw same (ground arith)
  ]

  scan_real_step :
      (n : ℕ)
      → scan_real table hash_at (suc n)
        ≡ or_else (get (hash_at (suc n)) table) (scan_real table hash_at n)
  unfolding scan_real
  scan_real_step n = refl

  -- Prefixes with no real entry may be left out of a scan.
  scan_real_skip :
      (m k n : ℕ)
      → n ≡ m + k
      → ((j : ℕ) → m < j → j ≤ n → get (hash_at j) table ≡ none)
      → scan_real table hash_at n ≡ scan_real table hash_at m
  scan_real_skip m zero n e h = let same : n ≡ m = omega arith in rw same
  scan_real_skip m (suc k) n e h =
      let same : n ≡ suc (m + k) = omega arith in
      rw (same, scan_real_step, h (suc (m + k)) (omega arith) (omega arith))
        (scan_real_skip m k (m + k) refl (λ j p q. h j p (omega arith)))

  scan_above-scan_real :
      (m k : ℕ)
      → or_else (scan_above table hash_at m k) (scan_real table hash_at m)
        ≡ scan_real table hash_at (m + k)
  unfolding scan_above
  scan_above-scan_real m zero = let same : m + 0 ≡ m = omega arith in rw same
  scan_above-scan_real m (suc k) =
      let same : m + suc k ≡ suc (m + k) = omega arith in
      rw (same, scan_real_step)
        (or_else_assoc _ (scan_above table hash_at m k) _
          ∙ ap (or_else (get (hash_at (suc (m + k))) table)) (scan_above-scan_real m k))

module _ {C : Type 0} (codec : NameCodec C) (InUse : List C → Type 0) (laws : IsCodec codec)
    (apart : NoCollision codec InUse) (f : FibHashTable C) (valid : IsValid codec InUse f)
    (name : List C) (used : InUse name) where
  open codec use {hash, prefix_hash, bytes}

  pub entry_name :
      (j : ℕ) (e : RealEntry C)
      → j ≤ length name
      → get (prefix_hash name j) f.real_table ≡ some e
      → e.name ≡ take j name
  entry_name j e p h =
      let (stored, same) = valid.stored (prefix_hash name j) e h in
      apart.distinct e.name (take j name) stored (apart.prefixes name j used)
        (same ∙ laws.prefix_hash-hash name j p)

  -- A real entry for a prefix at least `m` long shows in the virtual table.
  virtual_depth :
      (j : ℕ) (e : RealEntry C)
      → f.m ≤ j
      → j ≤ length name
      → get (prefix_hash name j) f.real_table ≡ some e
      → j ≤ or_default 0 (get (prefix_hash name f.m) f.virt_table)
  virtual_depth j e p q h =
      let named = entry_name j e q h in
      let size : length e.name ≡ j = rw named (length-take_of_le j name q) in
      let covered = valid.covered (prefix_hash name j) e h (omega arith) in
      let same : hash (take f.m e.name) ≡ prefix_hash name f.m =
        rw (named, take-take f.m j name p) (sym (laws.prefix_hash-hash name f.m (omega arith))) in
      rw (← same) (omega (arith, covered.deep))

  -- There is no real entry for a prefix longer than `m` and than the virtual entry says.
  none_beyond :
      (j : ℕ)
      → f.m ≤ j
      → j ≤ length name
      → or_default 0 (get (prefix_hash name f.m) f.virt_table) < j
      → get (prefix_hash name j) f.real_table ≡ none
  none_beyond j p q beyond = elim (Option-cases (get (prefix_hash name j) f.real_table)) [
    | inl miss ↦ miss
    | inr (e, hit) ↦ absurd (omega (arith, virtual_depth j e p q hit))
  ]

  skip_beyond :
      (from : ℕ)
      → f.m ≤ from
      → from ≤ length name
      → (or_default 0 (get (prefix_hash name f.m) f.virt_table) ≤ from) ⊎ (length name ≤ from)
      → scan_real f.real_table (prefix_hash name) (length name)
        ≡ scan_real f.real_table (prefix_hash name) from
  skip_beyond from p q deep =
      scan_real_skip f.real_table (prefix_hash name) from (length name - from) (length name)
        (omega arith) (λ j above below. none_beyond j (omega arith) below (omega arith))

  -- The search meets the scan of all prefixes: what it leaves out has no real entry.
  pub find-scan :
      find_longest_prefix_match codec f name
      ≡ scan_real f.real_table (prefix_hash name) (length name)
  unfolding find_longest_prefix_match
  find-scan = elim (Bool-cases (leb (length name) f.m)) [
    | inl short ↦ rw short
    | inr long ↦ elim (Option-cases (get (prefix_hash name f.m) f.virt_table)) [
      | inl miss ↦
          rw (long, miss)
            (sym (skip_beyond f.m (omega arith) (ground arith) (rw miss (omega arith))))
      | inr (md, hit) ↦
          let depth = min md (length name) - f.m in
          rw (long, hit)
            (scan_above-scan_real f.real_table (prefix_hash name) f.m depth
              ∙ sym (skip_beyond (f.m + depth) (omega arith) (ground arith) (rw hit (omega arith))))
    ]
  ]
