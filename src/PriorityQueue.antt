-- ===== src/PriorityQueue.antt =====
-- utils/priority_queue/priority-queue.go: the methods of `Queue` over a heap of items. A negative
-- place is left out: `update` is called with none.
pub mod Order
use ya_nfd.Prelude.{
  ℕ, Option, none, some, List, [], length, get_elem?, set, leb, ◌==◌, if◌then◌else◌,
}
use ya_nfd.Heap
use ya_nfd.Heap.{Item}

module _ {V : Type 0} where
  abbrev pub empty : List (Item V)
  empty = []

  -- `Push`: the place of the new item is returned.
  unfoldable pub push : List (Item V) → V → ℕ → List (Item V) × ℕ
  push q v p = Heap.push q (record { object = v; priority = p })

  -- none is the panic at an empty queue, also for the two that follow.
  unfoldable pub peek : List (Item V) → Option V
  peek q = elim (get_elem? q 0) [ none ↦ none | some x ↦ some x.object ]

  unfoldable pub peek_priority : List (Item V) → Option ℕ
  peek_priority q = elim (get_elem? q 0) [ none ↦ none | some x ↦ some x.priority ]

  unfoldable pub pop : List (Item V) → Option (V × List (Item V))
  pop q = elim (Heap.pop q) [ none ↦ none | some (x, r) ↦ some (x.object, r) ]

  -- none is the place -1 that is returned for a place out of range.
  unfoldable pub update : List (Item V) → ℕ → V → ℕ → List (Item V) × Option ℕ
  update q i v p =
      let (r, j) = Heap.fix (set q i (record { object = v; priority = p })) i in
      if leb (length q) i then (q, none) else (r, some j)
