-- ===== src/Heap/Order.antt =====
-- The order of the heap, within the first `n` places, and what may be wrong on the way to it.
use ya_nfd.Prelude.{ℕ, ◌<◌, ◌≤◌, ◌≢◌, ◌≡◌, List}
use ya_nfd.Heap.{Item, key, parent}

module _ {V : Type 0} where
  -- No item stands below a greater one.
  abbrev pub IsHeap : ℕ → List (Item V) → Type 0
  IsHeap n h = (c : ℕ) → 0 < c → c < n → key h (parent c) ≤ key h c

  -- Below the place above `i` there is nothing less, past `i`.
  abbrev pub IsSpanned : ℕ → List (Item V) → ℕ → Type 0
  IsSpanned n h i = (c : ℕ) → 0 < c → c < n → parent c ≡ i → 0 < i → key h (parent i) ≤ key h c

  -- The item at `i` may be too small for its place.
  pub record TooLow (n : ℕ) (h : List (Item V)) (i : ℕ) : Type 0 where
    pub edges : (c : ℕ) → 0 < c → c < n → c ≢ i → key h (parent c) ≤ key h c
    pub spanned : IsSpanned n h i

  -- It may be too great.
  pub record TooHigh (n : ℕ) (h : List (Item V)) (i : ℕ) : Type 0 where
    pub edges : (c : ℕ) → 0 < c → c < n → parent c ≢ i → key h (parent c) ≤ key h c
    pub spanned : IsSpanned n h i

  -- It may be either.
  pub record Misplaced (n : ℕ) (h : List (Item V)) (i : ℕ) : Type 0 where
    pub edges : (c : ℕ) → 0 < c → c < n → c ≢ i → parent c ≢ i → key h (parent c) ≤ key h c
    pub spanned : IsSpanned n h i
