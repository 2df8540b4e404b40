-- ===== src/CsLru.antt =====
-- table/cs-lru.go: the least recently used entries of the Content Store go first. An element of the
-- queue is the pointer that the code keeps in a map; here it is a number that is never used again.
pub mod Recency
pub mod Eviction
mod Tests
use native.Mathlib.Decide.{ℕ_discrete}
use ya_nfd.Prelude.{
  ℕ, suc, ◌≤◌, ◌≡◌, Bool, true, false, Option, none, some, List, [], ◌∷◌, ◌++◌, length, ltb, ◌==◌,
  if◌then◌else◌,
}
use ya_nfd.Prelude.Assoc

pub record CsLru : Type 0 where
  pub queue : List (ℕ × ℕ)
  pub locations : List (ℕ × ℕ)
  pub next_element : ℕ

unfoldable pub new_cs_lru : CsLru
new_cs_lru = record { queue = []; locations = []; next_element = 0 }

-- `queue.Remove`: nothing happens for an element that has left the queue.
unfoldable pub remove_element : ℕ → List (ℕ × ℕ) → List (ℕ × ℕ)
remove_element e [] = []
remove_element e ((d, i) ∷ q) =
    let rest = remove_element e q in if d == e then rest else (d, i) ∷ rest

-- `l.locations[index] = l.queue.PushBack(index)`
unfoldable pub push_back : ℕ → CsLru → CsLru
push_back index l = record {
  queue = l.queue ++ ((l.next_element, index) ∷ []);
  locations = Assoc.put ℕ_discrete index l.next_element l.locations;
  next_element = suc l.next_element;
}

unfoldable pub after_insert : ℕ → CsLru → CsLru
after_insert index l = push_back index l

-- `AfterRefresh` and `BeforeUse` have the same body.
unfoldable pub before_use : ℕ → CsLru → CsLru
before_use index l = elim (Assoc.get ℕ_discrete index l.locations) [
  | none ↦ push_back index l
  | some e ↦ push_back index (record l { queue = remove_element e l.queue })
]

unfoldable pub before_erase : ℕ → CsLru → CsLru
before_erase index l = elim (Assoc.get ℕ_discrete index l.locations) [
  | none ↦ l
  | some e ↦ record l {
    queue = remove_element e l.queue;
    locations = Assoc.delete ℕ_discrete index l.locations;
  }
]

-- The loop of `EvictEntries`, with what erases an entry of the table, and a capacity.
unfoldable pub evict_from : {S : Type 0} → (ℕ → S → S) → ℕ → List (ℕ × ℕ) → S → List (ℕ × ℕ) × S
evict_from erase capacity [] s = ([], s)
evict_from erase capacity ((e, i) ∷ q) s =
    let rest = evict_from erase capacity q (erase i s) in
    if ltb capacity (length ((e, i) ∷ q)) then rest else ((e, i) ∷ q, s)

unfoldable pub evict_entries : {S : Type 0} → (ℕ → S → S) → ℕ → CsLru → S → CsLru × S
evict_entries erase capacity l s =
    let (q, s') = evict_from erase capacity l.queue s in (record l { queue = q }, s')
