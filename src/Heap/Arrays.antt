-- ===== src/Heap/Arrays.antt =====
-- Exchanging two items of a list: what stands where, and that the items stay the same.
use ya_nfd.Prelude.{
  ℕ, zero, suc, ◌+◌, ◌<◌, ◌≡◌, refl, ◌∙◌, Bool, some, List, [], ◌∷◌, ◌++◌, length, length-set,
  get_elem?, set, take, ◌==◌, if◌then◌else◌, arith, inl, inr, Option-cases,
}
use ya_nfd.Heap.{Item, key, swap}

abbrev pub one_if : Bool → ℕ
one_if b = if b then 1 else 0

module _ {A : Type 0} where
  pub get_elem?-some : (h : List A) (i : ℕ) → i < length h → (x : A) × (get_elem? h i ≡ some x)
  get_elem?-some [] i p = absurd (omega arith)
  get_elem?-some (x ∷ h) zero p = (x, refl)
  get_elem?-some (x ∷ h) (suc i) p = get_elem?-some h i (omega arith)

  pub get_elem?-inside : (h : List A) (i : ℕ) (x : A) → get_elem? h i ≡ some x → i < length h
  get_elem?-inside [] i x e = ground arith
  get_elem?-inside (y ∷ h) zero x e = omega arith
  get_elem?-inside (y ∷ h) (suc i) x e = omega (arith, get_elem?-inside h i x e)

  pub get_elem?-set :
      (h : List A) (i c : ℕ) (v : A)
      → i < length h
      → get_elem? (set h i v) c ≡ (if c == i then some v else get_elem? h c)
  get_elem?-set [] i c v p = absurd (omega arith)
  get_elem?-set (x ∷ h) zero zero v p = ground arith
  get_elem?-set (x ∷ h) zero (suc c) v p = ground arith
  get_elem?-set (x ∷ h) (suc i) zero v p = ground arith
  get_elem?-set (x ∷ h) (suc i) (suc c) v p = ground (arith, get_elem?-set h i c v)

  pub get_elem?-append :
      (h : List A) (x : A) (c : ℕ) → c < length h → get_elem? (h ++ (x ∷ [])) c ≡ get_elem? h c
  get_elem?-append [] x c p = absurd (omega arith)
  get_elem?-append (y ∷ h) x zero p = refl
  get_elem?-append (y ∷ h) x (suc c) p = get_elem?-append h x c (omega arith)

  pub get_elem?-append_last : (h : List A) (x : A) → get_elem? (h ++ (x ∷ [])) (length h) ≡ some x
  get_elem?-append_last [] x = refl
  get_elem?-append_last (y ∷ h) x = get_elem?-append_last h x

  pub get_elem?-take : (h : List A) (n c : ℕ) → c < n → get_elem? (take n h) c ≡ get_elem? h c
  get_elem?-take h zero c p = absurd (omega arith)
  get_elem?-take [] (suc n) c p = refl
  get_elem?-take (x ∷ h) (suc n) zero p = refl
  get_elem?-take (x ∷ h) (suc n) (suc c) p = get_elem?-take h n c (omega arith)

  -- How many elements pass a test.
  unfoldable pub count : (A → Bool) → List A → ℕ
  count p [] = 0
  count p (x ∷ h) = (if p x then 1 else 0) + count p h

  pub count-set :
      (p : A → Bool) (h : List A) (i : ℕ) (x v : A)
      → get_elem? h i ≡ some x
      → count p (set h i v) + one_if (p x) ≡ count p h + one_if (p v)
  unfolding count
  count-set p [] i x v e = ground arith
  count-set p (y ∷ h) zero x v e = ground arith
  count-set p (y ∷ h) (suc i) x v e = omega (arith, count-set p h i x v e)

  pub count-append :
      (p : A → Bool) (h : List A) (x : A) → count p (h ++ (x ∷ [])) ≡ count p h + one_if (p x)
  unfolding count
  count-append p [] x = omega arith
  count-append p (y ∷ h) x = omega (arith, count-append p h x)

  pub count-take :
      (p : A → Bool) (h : List A) (n : ℕ) (x : A)
      → length h ≡ suc n
      → get_elem? h n ≡ some x
      → count p (take n h) + one_if (p x) ≡ count p h
  unfolding count
  count-take p [] n x l e = absurd (omega arith)
  count-take p (y ∷ []) zero x l e = ground arith
  count-take p (y ∷ z ∷ h) zero x l e = absurd (omega arith)
  count-take p (y ∷ h) (suc n) x l e = omega (arith, count-take p h n x (omega arith) e)

  -- The same items in some order.
  abbrev pub SameItems : List A → List A → Type 0
  SameItems h h' = (p : A → Bool) → count p h ≡ count p h'

module _ {V : Type 0} where
  pub length-swap : (h : List (Item V)) (i j : ℕ) → length (swap h i j) ≡ length h
  unfolding swap
  length-swap h i j = elim (Option-cases (get_elem? h i)) [
    | inl n ↦ rw (n, swap) refl
    | inr (x, e) ↦ elim (Option-cases (get_elem? h j)) [
      | inl n ↦ rw (e, swap, n) refl
      | inr (y, f) ↦ rw (e, swap, f) (length-set (set h i y) j x ∙ length-set h i y)
    ]
  ]

  pub get_elem?-swap :
      (h : List (Item V)) (i j c : ℕ)
      → i < length h
      → j < length h
      → get_elem? (swap h i j) c
        ≡ (if c == j then get_elem? h i else if c == i then get_elem? h j else get_elem? h c)
  unfolding swap
  get_elem?-swap h i j c p q =
      let (x, e) = get_elem?-some h i p in
      let (y, f) = get_elem?-some h j q in
      let first = get_elem?-set h i c y p in
      let second = get_elem?-set (set h i y) j c x (omega (arith, length-set h i y)) in ground arith

  pub key-swap :
      (h : List (Item V)) (i j c : ℕ)
      → i < length h
      → j < length h
      → key (swap h i j) c ≡ (if c == j then key h i else if c == i then key h j else key h c)
  unfolding key
  key-swap h i j c p q = ground (arith, get_elem?-swap h i j c p q)

  pub swap-SameItems : (h : List (Item V)) (i j : ℕ) → SameItems (swap h i j) h
  unfolding swap
  swap-SameItems h i j p = elim (Option-cases (get_elem? h i)) [
    | inl n ↦ rw (n, swap) refl
    | inr (x, e) ↦ elim (Option-cases (get_elem? h j)) [
      | inl n ↦ rw (e, swap, n) refl
      | inr (y, f) ↦
          let inside = get_elem?-inside h i x e in
          let at_j = get_elem?-set h i j y inside in
          let again : get_elem? (set h i y) j ≡ some y = ground arith in
          let first = count-set p h i x y e in
          let second = count-set p (set h i y) j y x again in rw (e, swap, f) (omega arith)
    ]
  ]

  pub length-swap_lt : (h : List (Item V)) (i j c : ℕ) → c < length h → c < length (swap h i j)
  length-swap_lt h i j c p = omega (arith, length-swap h i j)
