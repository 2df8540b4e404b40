-- ===== src/Fw/Tables.antt =====
-- What a forwarding thread uses of the tables: the interfaces `PitCsTable` of table/pit-cs.go and
-- `FibStrategy` of table/fib-strategy.go, the Dead Nonce List, dispatch/face.go and the clock.
use ya_nfd.Prelude.{ℕ, ◌≡◌, ◌≤◌, Bool, true, Option, List, [], ◌∷◌, All}
use ya_nfd.Packets.{Name, Interest, Data, PendingPacket, Face}
use ya_nfd.Pit.{PitEntry}
use ya_nfd.Fib.Hops.{NextHop}

-- `PitCsTable`. The pointer to an entry is a number, and the table holds what it points to.
pub record PitCsTable (S : Type 0) : Type 0 where
  pub insert_interest : S → PendingPacket Interest → Option Name → ℕ → S × (ℕ × Bool)
  pub find_interest_prefix_match_by_data : S → PendingPacket Data → Option ℕ → List ℕ
  pub insert_data : S → PendingPacket Data → S
  pub find_matching_data_from_cs : S → PendingPacket Interest → S × Option (PendingPacket Data)
  pub is_cs_admitting : S → Bool
  pub is_cs_serving : S → Bool
  pub update_pit_expiry : S → ℕ → S
  pub entry : S → ℕ → PitEntry
  pub set_entry : S → ℕ → PitEntry → S

-- An entry reads back what was written through its pointer, and the expiry queue is apart from it.
pub record IsPitCsTable {S : Type 0} (table : PitCsTable S) : Type 0 where
  pub entry-set_entry : (s : S) (e : ℕ) (p : PitEntry) → table.entry (table.set_entry s e p) e ≡ p
  pub entry-update_pit_expiry :
      (s : S) (e i : ℕ) → table.entry (table.update_pit_expiry s e) i ≡ table.entry s i

-- `DeadNonceList`
pub record DeadNonceList (D : Type 0) : Type 0 where
  pub find : D → Name → ℕ → Bool
  pub insert : D → Name → ℕ → D

-- What was inserted is found, and an insertion hides nothing.
pub record IsDeadNonceList {D : Type 0} (nonces : DeadNonceList D) : Type 0 where
  pub find-insert : (d : D) (n : Name) (k : ℕ) → nonces.find (nonces.insert d n k) n k ≡ true
  pub insert-keeps :
      (d : D) (n m : Name) (k l : ℕ)
      → nonces.find d n k ≡ true
      → nonces.find (nonces.insert d m l) n k ≡ true

pub data Strategy : Type 0 where
  best_route : Strategy
  multicast : Strategy

-- What a pipeline reads and does not change while it runs.
pub record Environment : Type 0 where
  pub thread_id : ℕ
  pub now : ℕ
  pub get_face : ℕ → Option Face
  pub find_next_hops : Name → List NextHop
  pub find_strategy : Name → Option Name
  pub hash : Option Name → ℕ
  pub strategies : List (ℕ × Strategy)
  pub is_producer : Name → Bool
  pub sort_hops : List NextHop → List NextHop

-- Costs that do not fall.
abbrev pub Sorted : List NextHop → Type 0
Sorted [] = Unit
Sorted (h ∷ hs) = All (λ x. h.cost ≤ x.cost) hs × Sorted hs

-- `sort.Slice` on the costs: the same hops in an order in which no cost falls.
pub record IsSorting (sort_hops : List NextHop → List NextHop) : Type 1 where
  pub keeps : (P : NextHop → Type 0) (hs : List NextHop) → All P hs → All P (sort_hops hs)
  pub kept : (P : NextHop → Type 0) (hs : List NextHop) → All P (sort_hops hs) → All P hs
  pub sorts : (hs : List NextHop) → Sorted (sort_hops hs)
