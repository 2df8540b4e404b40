-- ===== src/Heap/Fix.antt =====
-- What the operations of utils/heap/heap.go do to a heap in order: they leave it in order, add or
-- remove one item, and take out a least one.
use ya_nfd.Prelude.{
  ℕ, zero, suc, ◌+◌, ◌-◌, ◌≤◌, ◌<◌, ◌≡◌, refl, ◌∙◌, Bool, some, List, [], ◌∷◌, ◌++◌, length,
  length-append, length-take_of_le, length-set, get_elem?, set, take, arith, inl, inr,
}
use ya_nfd.Heap.{Item, key, parent, swap, up, down, push, pop, fix}
use ya_nfd.Heap.Arrays.{
  get_elem?-some, get_elem?-set, get_elem?-append, get_elem?-take, count, one_if, count-append,
  count-take, SameItems, length-swap, key-swap, swap-SameItems, get_elem?-swap,
}
use ya_nfd.Heap.Order.{IsHeap, TooLow, TooHigh, Misplaced}
use ya_nfd.Heap.Up.{up-IsHeap, up-SameItems, length-up}
use ya_nfd.Heap.Down.{down-IsHeap, down-beyond, down-SameItems, down_moves, length-down}

module _ {V : Type 0} where
  -- The item in front is a least one.
  pub front-least :
      (h : List (Item V)) (n : ℕ) → IsHeap n h → (k c : ℕ) → c ≤ k → c < n → key h 0 ≤ key h c
  front-least h n v zero c p q = ground arith
  front-least h n v (suc k) zero p q = omega arith
  front-least h n v (suc k) (suc c) p q = omega (
    arith,
    front-least h n v k (parent (suc c)) (omega arith) (omega arith),
    v (suc c) (omega arith) q,
  )

  key-append :
      (h : List (Item V)) (x : Item V) (c : ℕ) → c < length h → key (h ++ (x ∷ [])) c ≡ key h c
  unfolding key
  key-append h x c p = ground (arith, get_elem?-append h x c p)

  append-TooLow :
      (h : List (Item V)) (x : Item V)
      → IsHeap (length h) h
      → TooLow (suc (length h)) (h ++ (x ∷ [])) (length h)
  append-TooLow h x v =
      let at = key-append h x in
      record {
        edges = λ c p q r.
            omega (arith, v c p (omega arith), at c (omega arith), at (parent c) (omega arith));
        spanned = λ c p q r s. absurd (omega arith);
      }

  -- A push keeps the order.
  pub push-IsHeap :
      (h : List (Item V)) (x : Item V)
      → IsHeap (length h) h
      → IsHeap (length (push h x).0) (push h x).0
  unfolding push
  push-IsHeap h x v =
      let grown = length-append h (x ∷ []) in
      let n : length (up (h ++ (x ∷ [])) (length h)).0 ≡ suc (length h) =
        omega (arith, length-up (h ++ (x ∷ [])) (length h), grown) in
      rw n (
        up-IsHeap (suc (length h)) (h ++ (x ∷ [])) (length h) (omega arith) (omega arith)
          (append-TooLow h x v))

  -- It adds the item and nothing else.
  pub count-push :
      (p : Item V → Bool) (h : List (Item V)) (x : Item V)
      → count p (push h x).0 ≡ count p h + one_if (p x)
  unfolding push
  count-push p h x = up-SameItems (h ++ (x ∷ [])) (length h) p ∙ count-append p h x

  -- What a pop of `x` that leaves `r` does to a heap.
  pub record IsPopped (h : List (Item V)) (x : Item V) (r : List (Item V)) : Type 0 where
    pub popped : pop h ≡ some (x, r)
    pub front : get_elem? h 0 ≡ some x
    pub least : (c : ℕ) → c < length h → x.priority ≤ key h c
    pub ordered : IsHeap (length r) r
    pub shorter : length h ≡ suc (length r)
    pub kept : (p : Item V → Bool) → count p r + one_if (p x) ≡ count p h

  swap-TooHigh_front :
      (h : List (Item V)) (n : ℕ)
      → length h ≡ suc n
      → IsHeap (length h) h
      → TooHigh n (swap h 0 n) 0
  swap-TooHigh_front h n l v =
      let at = λ (c : ℕ). key-swap h 0 n c (omega arith) (omega arith) in
      record {
        edges = λ c p q r. ground (arith, at c, at (parent c), v c);
        spanned = λ c p q r s. absurd (omega arith);
      }

  take-IsHeap :
      (n : ℕ) (h : List (Item V))
      → n ≤ length h
      → IsHeap n h
      → IsHeap (length (take n h)) (take n h)
  unfolding key
  take-IsHeap n h l v c p q =
      let n_long = length-take_of_le n h l in
      ground (arith, v c, get_elem?-take h n c, get_elem?-take h n (parent c))

  -- A pop of a heap in order that has an item takes out a least one, and leaves the others in order.
  pub pop-IsPopped :
      (h : List (Item V))
      → 0 < length h
      → IsHeap (length h) h
      → (x : Item V) × (r : List (Item V)) × IsPopped h x r
  unfolding pop key
  pop-IsPopped h l v =
      let n = length h - 1 in
      let a = swap h 0 n in
      let b = (down a 0 n).0 in
      let a_long : length a ≡ suc n = omega (arith, length-swap h 0 n) in
      let b_long : length b ≡ suc n = omega (arith, length-down a 0 n) in
      let (x, front) = get_elem?-some h 0 l in
      let last : get_elem? b n ≡ some x =
        down-beyond a 0 n n (omega arith) (omega arith)
        ∙ ground (arith, get_elem?-swap h 0 n n (omega arith) (omega arith)) in
      (
        x,
        take n b,
        record {
          popped = rw (pop, last) refl;
          front = front;
          least = λ c p. ground (arith, front-least h (length h) v c c);
          ordered =
              take-IsHeap n b (omega arith)
                (down-IsHeap a 0 n (omega arith) (swap-TooHigh_front h n (omega arith) v));
          shorter = omega (arith, length-take_of_le n b (omega arith));
          kept = λ p. omega (
            arith,
            count-take p b n x b_long last,
            down-SameItems a 0 n p,
            swap-SameItems h 0 n p,
          );
        },
      )

  -- An item written at `i` may be out of place, and only it.
  pub set-Misplaced :
      (h : List (Item V)) (i : ℕ) (x : Item V)
      → i < length h
      → IsHeap (length h) h
      → Misplaced (length h) (set h i x) i
  unfolding key
  set-Misplaced h i x l v =
      let at = λ (c : ℕ). get_elem?-set h i c x l in
      record {
        edges = λ c p q r s. ground (arith, at c, at (parent c), v c);
        spanned = λ c p q r s. ground (arith, at c, at (parent i), v c, v i);
      }

  -- Setting an item and fixing its place leaves a heap in order.
  pub fix-IsHeap :
      (h : List (Item V)) (i : ℕ) (x : Item V)
      → i < length h
      → IsHeap (length h) h
      → IsHeap (length h) (fix (set h i x) i).0
  unfolding fix
  fix-IsHeap h i x l v =
      let n = length h in
      let a = set h i x in
      let a_long = length-set h i x in
      rw a_long (elim (down_moves a i n (omega arith) (set-Misplaced h i x l v)) [
        | inl (moved, order) ↦ ground (arith, order)
        | inr (stayed, same, low) ↦ ground (arith, up-IsHeap n a i (omega arith) l low)
      ])

  -- It exchanges items only.
  pub fix-SameItems : (h : List (Item V)) (i : ℕ) → SameItems (fix h i).0 h
  unfolding fix
  fix-SameItems h i p =
      let n = length h in ground (arith, down-SameItems h i n p, up-SameItems (down h i n).0 i p)

  pub length-fix : (h : List (Item V)) (i : ℕ) → length (fix h i).0 ≡ length h
  unfolding fix
  length-fix h i = let n = length h in ground (arith, length-down h i n, length-up (down h i n).0 i)

  pub length-push : (h : List (Item V)) (x : Item V) → length (push h x).0 ≡ suc (length h)
  unfolding push
  length-push h x = omega (arith, length-up (h ++ (x ∷ [])) (length h), length-append h (x ∷ []))
