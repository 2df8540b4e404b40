-- ===== src/Heap.antt =====
-- utils/heap/heap.go over the slice of utils/priority_queue/priority-queue.go: a binary heap with
-- the least priority in front. An item's `index` is its place in the list, so it is no field here:
-- the functions return the place where an item comes to rest. The loops take the rounds that they
-- may still run: a place halves going up, and grows towards the length going down.
pub mod Arrays
pub mod Rounds
pub mod Order
pub mod Up
pub mod Down
pub mod Fix
use ya_nfd.Prelude.{
  ℕ, zero, suc, ◌+◌, ◌-◌, ◌*◌, ◌/◌, Bool, true, false, ◌||◌, ◌&&◌, not, Option, none, some, List,
  [], ◌∷◌, ◌++◌, length, get_elem?, set, take, ltb, leb, ◌==◌, if◌then◌else◌,
}

pub record Item (V : Type 0) : Type 0 where
  pub object : V
  pub priority : ℕ

abbrev pub parent : ℕ → ℕ
parent j = (j - 1) / 2

module _ {V : Type 0} where
  -- `h[i].priority`, read inside the slice only.
  unfoldable pub key : List (Item V) → ℕ → ℕ
  key h i = elim (get_elem? h i) [ none ↦ 0 | some x ↦ x.priority ]

  abbrev pub less : List (Item V) → ℕ → ℕ → Bool
  less h i j = ltb (key h i) (key h j)

  unfoldable pub swap : List (Item V) → ℕ → ℕ → List (Item V)
  swap h i j = elim (get_elem? h i) [
    | none ↦ h
    | some x ↦ elim (get_elem? h j) [ none ↦ h | some y ↦ set (set h i y) j x ]
  ]

  unfoldable pub up_loop : ℕ → List (Item V) → ℕ → List (Item V) × ℕ
  up_loop zero h j = (h, j)
  up_loop (suc k) h j =
      let rise = up_loop k (swap h (parent j) j) (parent j) in
      if (parent j == j) || not (less h j (parent j)) then (h, j) else rise

  -- A place has at most its own number of places above it.
  unfoldable pub up : List (Item V) → ℕ → List (Item V) × ℕ
  up h j = up_loop j h j

  -- The left child, or the right one if it is there and less.
  unfoldable pub smaller_child : ℕ → List (Item V) → ℕ → ℕ
  smaller_child n h i =
      let left = 2 * i + 1 in if ltb (left + 1) n && less h (left + 1) left then left + 1 else left

  unfoldable pub down_loop : ℕ → ℕ → List (Item V) → ℕ → List (Item V) × ℕ
  down_loop zero n h i = (h, i)
  down_loop (suc k) n h i =
      let child = smaller_child n h i in
      let sink = down_loop k n (swap h i child) child in
      let step = if less h child i then sink else (h, i) in
      if leb n (2 * i + 1) then (h, i) else step

  unfoldable pub down : List (Item V) → ℕ → ℕ → List (Item V) × ℕ
  down h i n = down_loop n n h i

  unfoldable pub push : List (Item V) → Item V → List (Item V) × ℕ
  push h x = up (h ++ (x ∷ [])) (length h)

  -- none is the panic at an empty slice.
  unfoldable pub pop : List (Item V) → Option (Item V × List (Item V))
  pop h =
      let n = length h - 1 in
      let h' = (down (swap h 0 n) 0 n).0 in
      elim (get_elem? h' n) [ none ↦ none | some x ↦ some (x, take n h') ]

  -- `down` has moved the item if it has come to rest elsewhere.
  unfoldable pub fix : List (Item V) → ℕ → List (Item V) × ℕ
  fix h i =
      let (h', j) = down h i (length h) in let rise = up h' i in if ltb i j then (h', j) else rise
