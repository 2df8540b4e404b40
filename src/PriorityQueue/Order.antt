-- ===== src/PriorityQueue/Order.antt =====
-- The queue of utils/priority_queue/priority-queue.go serves a least item first, and keeps the others.
use ya_nfd.Prelude.{
  ℕ, suc, ◌+◌, ◌≤◌, ◌<◌, ◌≡◌, refl, ◌∙◌, Bool, none, some, List, [], ◌∷◌, ◌++◌, length, length-set,
  length-append, get_elem?, set, leb, arith, ◌⊎◌, inl, inr, Bool-cases,
}
use ya_nfd.Heap
use ya_nfd.Heap.{Item, key, fix, down, up}
use ya_nfd.Heap.Arrays.{get_elem?-append_last, get_elem?-set, count, one_if, count-set}
use ya_nfd.Heap.Order.{IsHeap}
use ya_nfd.Heap.Down.{down_moves}
use ya_nfd.Heap.Fix.{
  pop-IsPopped, push-IsHeap, count-push, length-push, set-Misplaced, fix-IsHeap, fix-SameItems,
  length-fix,
}
use ya_nfd.Heap.Rounds.{get_elem?-up, get_elem?-down}
use ya_nfd.PriorityQueue.{push, peek, peek_priority, pop, update}

module _ {V : Type 0} where
  abbrev pub IsOrdered : List (Item V) → Type 0
  IsOrdered q = IsHeap (length q) q

  -- The front item `x` of `q`, which a pop takes and leaves `r`.
  pub record IsServed (q : List (Item V)) (x : Item V) (r : List (Item V)) : Type 0 where
    pub popped : pop q ≡ some (x.object, r)
    pub peeked : peek q ≡ some x.object
    pub prioritized : peek_priority q ≡ some x.priority
    pub least : (c : ℕ) → c < length q → x.priority ≤ key q c
    pub ordered : IsOrdered r
    pub shorter : length q ≡ suc (length r)
    pub kept : (p : Item V → Bool) → count p r + one_if (p x) ≡ count p q

  -- In an ordered queue that is not empty, `peek` and `pop` name the same item, its priority is a
  -- least one, and the pop leaves the other items in an ordered queue.
  pub pop-IsServed :
      (q : List (Item V))
      → 0 < length q
      → IsOrdered q
      → (x : Item V) × (r : List (Item V)) × IsServed q x r
  unfolding pop peek peek_priority
  pop-IsServed q l v =
      let (x, r, s) = pop-IsPopped q l v in
      let popped = s.popped in
      let front = s.front in
      (
        x,
        r,
        record {
          popped = rw (pop, popped) refl;
          peeked = rw (peek, front) refl;
          prioritized = rw (peek_priority, front) refl;
          least = s.least;
          ordered = s.ordered;
          shorter = s.shorter;
          kept = s.kept;
        },
      )

  -- What adding `x` to `q` gives.
  pub record IsPushed (q : List (Item V)) (x : Item V) (r : List (Item V)) (j : ℕ) : Type 0 where
    pub ordered : IsOrdered r
    pub longer : length r ≡ suc (length q)
    pub placed : get_elem? r j ≡ some x
    pub kept : (p : Item V → Bool) → count p r ≡ count p q + one_if (p x)

  -- A push to an ordered queue keeps it ordered, adds the one item, and returns its place.
  pub push-IsPushed :
      (q : List (Item V)) (v : V) (p : ℕ)
      → IsOrdered q
      → IsPushed q (record { object = v; priority = p }) (push q v p).0 (push q v p).1
  unfolding push Heap.push
  push-IsPushed q v p o =
      let x : Item V = record { object = v; priority = p } in
      record {
        ordered = push-IsHeap q x o;
        longer = length-push q x;
        placed =
            get_elem?-up (q ++ (x ∷ [])) (length q) (omega (arith, length-append q (x ∷ [])))
            ∙ get_elem?-append_last q x;
        kept = λ t. count-push t q x;
      }

  -- What writing `x` at `i` gives.
  pub record IsUpdated (q : List (Item V)) (i : ℕ) (x : Item V) (r : List (Item V)) (j : ℕ)
      : Type 0 where
    pub ordered : IsOrdered r
    pub as_long : length r ≡ length q
    pub placed : get_elem? r j ≡ some x
    pub exchanged :
        (y : Item V)
        → get_elem? q i ≡ some y
        → (p : Item V → Bool) → count p r + one_if (p y) ≡ count p q + one_if (p x)

  get_elem?-fix :
      (q : List (Item V)) (i : ℕ) (x : Item V)
      → i < length q
      → IsOrdered q
      → get_elem? (fix (set q i x) i).0 (fix (set q i x) i).1 ≡ some x
  unfolding fix
  get_elem?-fix q i x l o =
      let n = length q in
      let a = set q i x in
      let a_long = length-set q i x in
      let here = get_elem?-set q i i x l in
      let sunk = get_elem?-down a i n (omega arith) (omega arith) in
      rw a_long (elim (down_moves a i n (omega arith) (set-Misplaced q i x l o)) [
        | inl (moved, order) ↦ ground arith
        | inr (stayed, same, low) ↦ ground (arith, get_elem?-up a i (omega arith))
      ])

  -- An update outside an ordered queue changes nothing and returns no place; one inside exchanges
  -- the item at that place for the new one, keeps the order, and returns the new item's place.
  pub update-IsUpdated :
      (q : List (Item V)) (i : ℕ) (v : V) (p : ℕ)
      → IsOrdered q
      → ((length q ≤ i) × (update q i v p ≡ (q, none)))
        ⊎ (r : List (Item V)) × (j : ℕ) × (update q i v p ≡ (r, some j))
          × IsUpdated q i (record { object = v; priority = p }) r j
  unfolding update
  update-IsUpdated q i v p o =
      let x : Item V = record { object = v; priority = p } in
      elim (Bool-cases (leb (length q) i)) [
        | inl out ↦ inl (ground arith, rw (update, out) refl)
        | inr inside ↦
            let l : i < length q = ground arith in
            let (r, j) = fix (set q i x) i in
            inr (
              r,
              j,
              rw (update, inside) refl,
              record {
                ordered = rw (length-fix (set q i x) i, length-set q i x) (fix-IsHeap q i x l o);
                as_long = length-fix (set q i x) i ∙ length-set q i x;
                placed = get_elem?-fix q i x l o;
                exchanged =
                    λ y e t. omega (arith, fix-SameItems (set q i x) i t, count-set t q i y x e);
              },
            )
      ]
