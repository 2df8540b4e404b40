-- ===== src/Heap/Down.antt =====
-- Going down restores the order, and exchanges items only.
use ya_nfd.Prelude.{
  ℕ, zero, suc, ◌+◌, ◌*◌, ◌≤◌, ◌<◌, ◌≡◌, ◌⊎◌, refl, ◌∙◌, List, length, get_elem?, leb, arith,
  Bool-cases, inl, inr,
}
use ya_nfd.Heap.{Item, key, less, swap, parent, smaller_child, down_loop, down}
use ya_nfd.Heap.Arrays.{key-swap, get_elem?-swap, length-swap, SameItems, swap-SameItems}
use ya_nfd.Heap.Order.{IsHeap, TooLow, TooHigh, Misplaced}

module _ {V : Type 0} where
  -- `m` is the least of the places below `i`.
  record IsLeast (n : ℕ) (h : List (Item V)) (i m : ℕ) : Type 0 where
    inside : m < n
    child : (m ≡ 2 * i + 1) ⊎ (m ≡ 2 * i + 2)
    least : (c : ℕ) → 0 < c → c < n → parent c ≡ i → key h m ≤ key h c

  smaller_child-IsLeast :
      (n : ℕ) (h : List (Item V)) (i : ℕ) → 2 * i + 1 < n → IsLeast n h i (smaller_child n h i)
  unfolding smaller_child
  smaller_child-IsLeast n h i p = record {
    inside = ground arith;
    child = ground arith;
    least = λ c q r e.
        let two : (c ≡ 2 * i + 1) ⊎ (c ≡ 2 * i + 1 + 1) = omega arith in
        elim two [ inl s ↦ rw s (ground arith) | inr s ↦ rw s (ground arith) ];
  }

  swap-TooHigh :
      (n : ℕ) (h : List (Item V)) (i m : ℕ)
      → n ≤ length h
      → IsLeast n h i m
      → key h m < key h i
      → Misplaced n h i
      → TooHigh n (swap h i m) m
  swap-TooHigh n h i m l s below v =
      let inside = s.inside in
      let child = s.child in
      let at = λ (c : ℕ). key-swap h i m c (omega arith) (omega arith) in
      record {
        edges = λ c p q r. ground (arith, at c, at (parent c), v.edges c, v.spanned m, s.least c);
        spanned = λ c p q r t. ground (arith, at c, at (parent m), v.edges c);
      }

  down_loop-IsHeap :
      (k n : ℕ) (h : List (Item V)) (i : ℕ)
      → n ≤ length h
      → n ≤ i + k
      → TooHigh n h i
      → IsHeap n (down_loop k n h i).0
  unfolding down_loop
  down_loop-IsHeap zero n h i l f v = λ c p q. v.edges c p q (omega arith)
  down_loop-IsHeap (suc k) n h i l f v = elim (Bool-cases (leb n (2 * i + 1))) [
    | inl stop ↦ rw (down_loop, stop) (λ c p q. v.edges c p q (ground arith))
    | inr more ↦
        let s = smaller_child-IsLeast n h i (ground arith) in
        let m = smaller_child n h i in
        let child = s.child in
        let inside = s.inside in
        elim (Bool-cases (less h m i)) [
          | inl below ↦
              rw (down_loop, more, below)
                (down_loop-IsHeap k n (swap h i m) m (omega (arith, length-swap h i m))
                  (omega arith)
                  (swap-TooHigh n h i m l s (ground arith)
                    (record { edges = λ c p q r t. v.edges c p q t; spanned = v.spanned })))
          | inr settled ↦
              rw (down_loop, more, settled) (λ c p q. ground (arith, v.edges c p q, s.least c p q))
        ]
  ]

  down_loop-le : (k n : ℕ) (h : List (Item V)) (i : ℕ) → i ≤ (down_loop k n h i).1
  unfolding down_loop
  down_loop-le zero n h i = omega arith
  down_loop-le (suc k) n h i = elim (Bool-cases (leb n (2 * i + 1))) [
    | inl stop ↦ rw (down_loop, stop) (omega arith)
    | inr more ↦
        let s = smaller_child-IsLeast n h i (ground arith) in
        let m = smaller_child n h i in
        let child = s.child in
        elim (Bool-cases (less h m i)) [
          | inl below ↦ rw (down_loop, more, below) (omega (arith, down_loop-le k n (swap h i m) m))
          | inr settled ↦ rw (down_loop, more, settled) (omega arith)
        ]
  ]

  -- Either the item has gone down and the heap is in order, or nothing has moved and it is not too great.
  down_loop_moves :
      (k n : ℕ) (h : List (Item V)) (i : ℕ)
      → n ≤ length h
      → n ≤ i + k
      → Misplaced n h i
      → ((i < (down_loop k n h i).1) × IsHeap n (down_loop k n h i).0)
        ⊎ (((down_loop k n h i).1 ≡ i) × ((down_loop k n h i).0 ≡ h) × TooLow n h i)
  unfolding down_loop
  down_loop_moves zero n h i l f v =
      inr (
        refl,
        refl,
        record { edges = λ c p q r. v.edges c p q r (omega arith); spanned = v.spanned },
      )
  down_loop_moves (suc k) n h i l f v = elim (Bool-cases (leb n (2 * i + 1))) [
    | inl stop ↦
        rw (down_loop, stop)
          (inr (
            refl,
            refl,
            record { edges = λ c p q r. v.edges c p q r (ground arith); spanned = v.spanned },
          ))
    | inr more ↦
        let s = smaller_child-IsLeast n h i (ground arith) in
        let m = smaller_child n h i in
        let child = s.child in
        let inside = s.inside in
        elim (Bool-cases (less h m i)) [
          | inl below ↦
              rw (down_loop, more, below)
                (inl (
                  omega (arith, down_loop-le k n (swap h i m) m),
                  down_loop-IsHeap k n (swap h i m) m (omega (arith, length-swap h i m))
                      (omega arith) (swap-TooHigh n h i m l s (ground arith) v),
                ))
          | inr settled ↦
              rw (down_loop, more, settled)
                (inr (
                  refl,
                  refl,
                  record {
                    edges = λ c p q r. ground (arith, v.edges c p q r, s.least c p q);
                    spanned = v.spanned;
                  },
                ))
        ]
  ]

  down_loop-SameItems : (k n : ℕ) (h : List (Item V)) (i : ℕ) → SameItems (down_loop k n h i).0 h
  unfolding down_loop
  down_loop-SameItems zero n h i t = refl
  down_loop-SameItems (suc k) n h i t =
      let m = smaller_child n h i in
      ground (arith, down_loop-SameItems k n (swap h i m) m t, swap-SameItems h i m t)

  length-down_loop : (k n : ℕ) (h : List (Item V)) (i : ℕ) → length (down_loop k n h i).0 ≡ length h
  unfolding down_loop
  length-down_loop zero n h i = refl
  length-down_loop (suc k) n h i =
      let m = smaller_child n h i in
      ground (arith, length-down_loop k n (swap h i m) m, length-swap h i m)

  -- Places from `n` on keep their items.
  down_loop-beyond :
      (k n : ℕ) (h : List (Item V)) (i c : ℕ)
      → n ≤ length h
      → n ≤ c
      → get_elem? (down_loop k n h i).0 c ≡ get_elem? h c
  unfolding down_loop
  down_loop-beyond zero n h i c l p = refl
  down_loop-beyond (suc k) n h i c l p = elim (Bool-cases (leb n (2 * i + 1))) [
    | inl stop ↦ rw (down_loop, stop) refl
    | inr more ↦
        let s = smaller_child-IsLeast n h i (ground arith) in
        let m = smaller_child n h i in
        let child = s.child in
        let inside = s.inside in
        elim (Bool-cases (less h m i)) [
          | inl below ↦
              let apart = get_elem?-swap h i m c (omega arith) (omega arith) in
              rw (down_loop, more, below)
                (down_loop-beyond k n (swap h i m) m c (omega (arith, length-swap h i m)) p
                  ∙ ground arith)
          | inr settled ↦ rw (down_loop, more, settled) refl
        ]
  ]

  module _ (h : List (Item V)) (i n : ℕ) where
    pub down-beyond : (c : ℕ) → n ≤ length h → n ≤ c → get_elem? (down h i n).0 c ≡ get_elem? h c
    unfolding down
    down-beyond c l p = down_loop-beyond n n h i c l p

    -- The heap is in order again when the item has gone down.
    pub down-IsHeap : n ≤ length h → TooHigh n h i → IsHeap n (down h i n).0
    unfolding down
    down-IsHeap l v = down_loop-IsHeap n n h i l (omega arith) v

    pub down_moves :
        n ≤ length h
        → Misplaced n h i
        → ((i < (down h i n).1) × IsHeap n (down h i n).0)
          ⊎ (((down h i n).1 ≡ i) × ((down h i n).0 ≡ h) × TooLow n h i)
    unfolding down
    down_moves l v = down_loop_moves n n h i l (omega arith) v

    pub down-SameItems : SameItems (down h i n).0 h
    unfolding down
    down-SameItems = down_loop-SameItems n n h i

    pub length-down : length (down h i n).0 ≡ length h
    unfolding down
    length-down = length-down_loop n n h i
