-- ===== src/Fw/Small.antt =====
-- Small instances of the thread's interfaces, for the runs.
use ya_nfd.Prelude.{
  ℕ, ◌≤◌, inl, inr, refl, Bool, true, false, none, List, [], ◌∷◌, All, leb, ◌==◌, if◌then◌else◌,
  arith, Bool-cases,
}
use ya_nfd.Pit.{PitEntry}
use ya_nfd.Fib.Hops.{NextHop}
use ya_nfd.Fw.Tables.{PitCsTable, IsPitCsTable, DeadNonceList, IsDeadNonceList, IsSorting, Sorted}

-- Entries by number, and a Content Store that is always empty.
abbrev pub Entries : Type 0
Entries = ℕ → PitEntry

abbrev pub write_entry : Entries → ℕ → PitEntry → Entries
write_entry s e p i = if e == i then p else s i

abbrev pub small_table : PitCsTable Entries
small_table = record {
  insert_interest = λ s p hint face. (s, (0, false));
  find_interest_prefix_match_by_data = λ s p token. 0 ∷ [];
  insert_data = λ s p. s;
  find_matching_data_from_cs = λ s p. (s, none);
  is_cs_admitting = λ s. true;
  is_cs_serving = λ s. true;
  update_pit_expiry = λ s e. s;
  entry = λ s e. s e;
  set_entry = write_entry;
}

pub small_table-IsPitCsTable : IsPitCsTable small_table
small_table-IsPitCsTable = record {
  entry-set_entry = λ s e p. ground arith;
  entry-update_pit_expiry = λ s e i. refl;
}

-- Nonces under any name.
abbrev pub has_nonce : ℕ → List ℕ → Bool
has_nonce k [] = false
has_nonce k (n ∷ ns) = if n == k then true else has_nonce k ns

abbrev pub small_nonces : DeadNonceList (List ℕ)
small_nonces = record { find = λ d n k. has_nonce k d; insert = λ d n k. k ∷ d }

pub small_nonces-IsDeadNonceList : IsDeadNonceList small_nonces
small_nonces-IsDeadNonceList = record {
  find-insert = λ d n k. ground arith;
  insert-keeps = λ d n m k l h. ground arith;
}

-- Insertion sort by cost.
abbrev pub insert_hop : NextHop → List NextHop → List NextHop
insert_hop h [] = h ∷ []
insert_hop h (x ∷ xs) =
    let rest = insert_hop h xs in if leb h.cost x.cost then h ∷ x ∷ xs else x ∷ rest

abbrev pub sort_by_cost : List NextHop → List NextHop
sort_by_cost [] = []
sort_by_cost (h ∷ hs) = insert_hop h (sort_by_cost hs)

insert_hop-All :
    (P : NextHop → Type 0) (h : NextHop) (hs : List NextHop)
    → P h
    → All P hs
    → All P (insert_hop h hs)
insert_hop-All P h [] p a = (p, tt)
insert_hop-All P h (x ∷ xs) p a = elim (Bool-cases (leb h.cost x.cost)) [
  | inl e ↦ rw e (p, a)
  | inr e ↦ rw e (a.0, insert_hop-All P h xs p a.1)
]

All-insert_hop :
    (P : NextHop → Type 0) (h : NextHop) (hs : List NextHop)
    → All P (insert_hop h hs)
    → P h × All P hs
All-insert_hop P h [] a = a
All-insert_hop P h (x ∷ xs) a = go (leb h.cost x.cost) (All-insert_hop P h xs) a
  where
    go :
        (b : Bool)
        → (All P (insert_hop h xs) → P h × All P xs)
        → All P (if b then h ∷ x ∷ xs else x ∷ insert_hop h xs)
        → P h × (P x × All P xs)
    go true r a = a
    go false r a = let (p, q) = r a.1 in (p, (a.0, q))

weaken : (c d : ℕ) (hs : List NextHop) → c ≤ d → All (λ x. d ≤ x.cost) hs → All (λ x. c ≤ x.cost) hs
weaken c d [] l a = tt
weaken c d (x ∷ xs) l a = (omega arith, weaken c d xs l a.1)

insert_hop-Sorted : (h : NextHop) (hs : List NextHop) → Sorted hs → Sorted (insert_hop h hs)
insert_hop-Sorted h [] s = (tt, tt)
insert_hop-Sorted h (x ∷ xs) s = elim (Bool-cases (leb h.cost x.cost)) [
  | inl e ↦ let l : h.cost ≤ x.cost = ground arith in rw e ((l, weaken h.cost x.cost xs l s.0), s)
  | inr e ↦
      let l : x.cost ≤ h.cost = ground arith in
      rw e (insert_hop-All (λ y. x.cost ≤ y.cost) h xs l s.0, insert_hop-Sorted h xs s.1)
]

sort-keeps : (P : NextHop → Type 0) (hs : List NextHop) → All P hs → All P (sort_by_cost hs)
sort-keeps P [] a = tt
sort-keeps P (h ∷ hs) a = insert_hop-All P h (sort_by_cost hs) a.0 (sort-keeps P hs a.1)

sort-kept : (P : NextHop → Type 0) (hs : List NextHop) → All P (sort_by_cost hs) → All P hs
sort-kept P [] a = tt
sort-kept P (h ∷ hs) a =
    let (p, q) = All-insert_hop P h (sort_by_cost hs) a in (p, sort-kept P hs q)

sort-sorts : (hs : List NextHop) → Sorted (sort_by_cost hs)
sort-sorts [] = tt
sort-sorts (h ∷ hs) = insert_hop-Sorted h (sort_by_cost hs) (sort-sorts hs)

pub sort_by_cost-IsSorting : IsSorting sort_by_cost
sort_by_cost-IsSorting = record { keeps = sort-keeps; kept = sort-kept; sorts = sort-sorts }
