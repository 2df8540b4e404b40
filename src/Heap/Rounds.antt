-- ===== src/Heap/Rounds.antt =====
-- The rounds given to the loops of utils/heap/heap.go are enough: more of them change nothing.
use ya_nfd.Prelude.{
  ℕ, zero, suc, ◌+◌, ◌*◌, ◌≤◌, ◌<◌, ◌≡◌, refl, ◌∙◌, ◌||◌, not, List, length, get_elem?, leb, ◌==◌,
  arith, Bool-cases, inl, inr,
}
use ya_nfd.Heap.{Item, less, swap, parent, smaller_child, up_loop, down_loop, up, down}
use ya_nfd.Heap.Arrays.{length-swap, get_elem?-swap}

module _ {V : Type 0} where
  up_loop_enough :
      (k l : ℕ) (h : List (Item V)) (j : ℕ) → j ≤ k → j ≤ l → up_loop k h j ≡ up_loop l h j
  unfolding up_loop
  up_loop_enough zero zero h j p q = refl
  up_loop_enough zero (suc l) h j p q = ground arith
  up_loop_enough (suc k) zero h j p q = ground arith
  up_loop_enough (suc k) (suc l) h j p q =
      elim (Bool-cases ((parent j == j) || not (less h j (parent j)))) [
        | inl stop ↦ rw (up_loop, stop) refl
        | inr rise ↦
            rw (up_loop, rise)
              (up_loop_enough k l (swap h (parent j) j) (parent j) (ground arith) (ground arith))
      ]

  smaller_child-lt : (n : ℕ) (h : List (Item V)) (i : ℕ) → i < smaller_child n h i
  unfolding smaller_child
  smaller_child-lt n h i = ground arith

  smaller_child_inside :
      (n : ℕ) (h : List (Item V)) (i : ℕ) → 2 * i + 1 < n → smaller_child n h i < n
  unfolding smaller_child
  smaller_child_inside n h i p = ground arith

  down_loop_enough :
      (k l n : ℕ) (h : List (Item V)) (i : ℕ)
      → n ≤ i + k
      → n ≤ i + l
      → down_loop k n h i ≡ down_loop l n h i
  unfolding down_loop
  down_loop_enough zero zero n h i p q = refl
  down_loop_enough zero (suc l) n h i p q = ground arith
  down_loop_enough (suc k) zero n h i p q = ground arith
  down_loop_enough (suc k) (suc l) n h i p q =
      let m = smaller_child n h i in
      elim (Bool-cases (leb n (2 * i + 1))) [
        | inl stop ↦ rw (down_loop, stop) refl
        | inr more ↦ elim (Bool-cases (less h m i)) [
          | inl below ↦
              let low = smaller_child-lt n h i in
              rw (down_loop, more, below)
                (down_loop_enough k l n (swap h i m) m (omega arith) (omega arith))
          | inr settled ↦ rw (down_loop, more, settled) refl
        ]
      ]

  -- The loops of `up` and `down` end within the rounds given to them: with any greater number of
  -- rounds they do the same.
  pub up-down_enough :
      (k n : ℕ) (h : List (Item V)) (j : ℕ)
      → j ≤ k
      → n ≤ k
      → (up_loop k h j ≡ up h j) × (down_loop k n h j ≡ down h j n)
  unfolding up down
  up-down_enough k n h j p q = (
    up_loop_enough k j h j p (omega arith),
    down_loop_enough k n n h j (omega arith) (omega arith),
  )

  rises :
      (k : ℕ) (h : List (Item V)) (j : ℕ)
      → j < length h
      → get_elem? (up_loop k h j).0 (up_loop k h j).1 ≡ get_elem? h j
  unfolding up_loop
  rises zero h j p = refl
  rises (suc k) h j p = elim (Bool-cases ((parent j == j) || not (less h j (parent j)))) [
    | inl stop ↦ rw (up_loop, stop) refl
    | inr rise ↦
        let here = get_elem?-swap h (parent j) j (parent j) (omega arith) p in
        rw (up_loop, rise)
          (rises k (swap h (parent j) j) (parent j) (omega (arith, length-swap h (parent j) j))
            ∙ ground arith)
  ]

  -- The place that `up` returns is where the item has come to rest.
  pub get_elem?-up :
      (h : List (Item V)) (j : ℕ) → j < length h → get_elem? (up h j).0 (up h j).1 ≡ get_elem? h j
  unfolding up
  get_elem?-up h j p = rises j h j p

  sinks :
      (k n : ℕ) (h : List (Item V)) (i : ℕ)
      → n ≤ length h
      → i < length h
      → get_elem? (down_loop k n h i).0 (down_loop k n h i).1 ≡ get_elem? h i
  unfolding down_loop
  sinks zero n h i l p = refl
  sinks (suc k) n h i l p =
      let m = smaller_child n h i in
      elim (Bool-cases (leb n (2 * i + 1))) [
        | inl stop ↦ rw (down_loop, stop) refl
        | inr more ↦ elim (Bool-cases (less h m i)) [
          | inl below ↦
              let inside = smaller_child_inside n h i (ground arith) in
              let here = get_elem?-swap h i m m p (omega arith) in
              rw (down_loop, more, below)
                (sinks k n (swap h i m) m (omega (arith, length-swap h i m))
                    (omega (arith, length-swap h i m))
                  ∙ ground arith)
          | inr settled ↦ rw (down_loop, more, settled) refl
        ]
      ]

  pub get_elem?-down :
      (h : List (Item V)) (i n : ℕ)
      → n ≤ length h
      → i < length h
      → get_elem? (down h i n).0 (down h i n).1 ≡ get_elem? h i
  unfolding down
  get_elem?-down h i n l p = sinks n n h i l p
