-- ===== src/Heap/Up.antt =====
-- Going up restores the order, and exchanges items only.
use ya_nfd.Prelude.{
  ℕ, zero, suc, ◌≤◌, ◌<◌, ◌≢◌, ◌≡◌, refl, ◌||◌, not, List, length, ◌==◌, arith, Bool-cases, inl,
  inr,
}
use ya_nfd.Heap.{Item, key, less, swap, parent, up_loop, up}
use ya_nfd.Heap.Arrays.{key-swap, length-swap, SameItems, swap-SameItems}
use ya_nfd.Heap.Order.{IsHeap, TooLow}

module _ {V : Type 0} where
  swap-TooLow :
      (n : ℕ) (h : List (Item V)) (j : ℕ)
      → n ≤ length h
      → j < n
      → parent j ≢ j
      → key h j < key h (parent j)
      → TooLow n h j
      → TooLow n (swap h (parent j) j) (parent j)
  swap-TooLow n h j l p d below v =
      let at = λ (c : ℕ). key-swap h (parent j) j c (omega arith) (omega arith) in
      record {
        edges = λ c q r s. ground (arith, at c, at (parent c), v.edges c, v.spanned c);
        spanned = λ c q r s t.
            ground (arith, at c, at (parent (parent j)), v.edges c, v.edges (parent j));
      }

  up_loop-IsHeap :
      (k n : ℕ) (h : List (Item V)) (j : ℕ)
      → n ≤ length h
      → j < n
      → j ≤ k
      → TooLow n h j
      → IsHeap n (up_loop k h j).0
  unfolding up_loop
  up_loop-IsHeap zero n h j l p f v = λ c q r. v.edges c q r (omega arith)
  up_loop-IsHeap (suc k) n h j l p f v =
      elim (Bool-cases ((parent j == j) || not (less h j (parent j)))) [
        | inl stop ↦ rw (up_loop, stop) (λ c q r. ground (arith, v.edges c q r))
        | inr rise ↦
            let d : parent j ≢ j = λ e. ground arith in
            let below : key h j < key h (parent j) = ground arith in
            rw (up_loop, rise)
              (up_loop-IsHeap k n (swap h (parent j) j) (parent j)
                (omega (arith, length-swap h (parent j) j)) (omega arith) (omega arith)
                (swap-TooLow n h j l p d below v))
      ]

  -- The heap is in order again when the item has gone up.
  pub up-IsHeap :
      (n : ℕ) (h : List (Item V)) (j : ℕ)
      → n ≤ length h
      → j < n
      → TooLow n h j
      → IsHeap n (up h j).0
  unfolding up
  up-IsHeap n h j l p v = up_loop-IsHeap j n h j l p (omega arith) v

  up_loop-SameItems : (k : ℕ) (h : List (Item V)) (j : ℕ) → SameItems (up_loop k h j).0 h
  unfolding up_loop
  up_loop-SameItems zero h j t = refl
  up_loop-SameItems (suc k) h j t = ground (
    arith,
    up_loop-SameItems k (swap h (parent j) j) (parent j) t,
    swap-SameItems h (parent j) j t,
  )

  pub up-SameItems : (h : List (Item V)) (j : ℕ) → SameItems (up h j).0 h
  unfolding up
  up-SameItems h j = up_loop-SameItems j h j

  length-up_loop : (k : ℕ) (h : List (Item V)) (j : ℕ) → length (up_loop k h j).0 ≡ length h
  unfolding up_loop
  length-up_loop zero h j = refl
  length-up_loop (suc k) h j =
      ground (arith, length-up_loop k (swap h (parent j) j) (parent j), length-swap h (parent j) j)

  pub length-up : (h : List (Item V)) (j : ℕ) → length (up h j).0 ≡ length h
  unfolding up
  length-up h j = length-up_loop j h j
