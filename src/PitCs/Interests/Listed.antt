-- ===== src/PitCs/Interests/Listed.antt =====
-- Removing an entry of a node's list, and counting the entries below a pointer.
use ya_nfd.Prelude.{
  ℕ, zero, suc, ◌+◌, ◌-◌, ◌<◌, ◌≡◌, ◌≢◌, refl, Bool, true, false, none, some, List, [], ◌∷◌, length,
  length-set, get_elem?, set, ltb, ◌==◌, arith, Bool-cases, Option-cases, inl, inr,
}
use ya_nfd.Heap.Arrays.{
  get_elem?-some, get_elem?-inside, get_elem?-set, count, one_if, count-set, count-take,
}
use ya_nfd.PitCs.Interests.{index_of, remove_at}
use ya_nfd.PitCs.Interests.Prefixes.{is}

pub index_of-some : (e : ℕ) (xs : List ℕ) (i : ℕ) → index_of e xs ≡ some i → get_elem? xs i ≡ some e
unfolding index_of
index_of-some e [] i h = ground arith
index_of-some e (x ∷ xs) zero h = elim (Option-cases (index_of e xs)) [
  | inl n ↦ ground arith
  | inr (j, f) ↦ ground arith
]
index_of-some e (x ∷ xs) (suc i) h = elim (Option-cases (index_of e xs)) [
  | inl n ↦ ground arith
  | inr (j, f) ↦ ground (arith, index_of-some e xs j)
]

pub index_of-none : (e : ℕ) (xs : List ℕ) → index_of e xs ≡ none → count (is e) xs ≡ 0
unfolding index_of count
index_of-none e [] h = refl
index_of-none e (x ∷ xs) h = ground (arith, index_of-none e xs)

-- The entry at the place goes and the others stay.
pub count-remove_at :
    (p : ℕ → Bool) (xs : List ℕ) (i x : ℕ)
    → get_elem? xs i ≡ some x
    → count p (remove_at i xs) + one_if (p x) ≡ count p xs
unfolding remove_at
count-remove_at p xs i x h =
    let inside = get_elem?-inside xs i x h in
    let last = length xs - 1 in
    let (l, e) = get_elem?-some xs last (omega arith) in
    elim (Bool-cases (ltb 1 (length xs))) [
      | inl more ↦
          let written = count-set p xs i x l h in
          let at_last = get_elem?-set xs i last l inside in
          let still : get_elem? (set xs i l) last ≡ some l = ground arith in
          let taken = count-take p (set xs i l) last l (omega (arith, length-set xs i l)) still in
          rw (e, more, remove_at) (omega arith)
      | inr one ↦
          let only : i ≡ last = ground arith in
          let taken = count-take p xs last l (ground arith) e in
          rw (e, one, remove_at) (ground arith)
    ]

-- How many pointers below a bound pass a test.
unfoldable pub number : (ℕ → Bool) → ℕ → ℕ
number f zero = 0
number f (suc k) = number f k + one_if (f k)

pub number-eq : (f g : ℕ → Bool) (k : ℕ) → ((e : ℕ) → e < k → f e ≡ g e) → number f k ≡ number g k
unfolding number
number-eq f g zero same = refl
number-eq f g (suc k) same =
    rw (number-eq f g k (λ e p. same e (omega arith)), same k (omega arith)) refl

-- One pointer that changes from false to true makes one more.
pub number-one :
    (f g : ℕ → Bool) (k e : ℕ)
    → e < k
    → f e ≡ false
    → g e ≡ true
    → ((x : ℕ) → x ≢ e → f x ≡ g x)
    → number g k ≡ suc (number f k)
unfolding number
number-one f g zero e p off on same = absurd (omega arith)
number-one f g (suc k) e p off on same = elim (Bool-cases (e == k)) [
  | inl here ↦
      let at : e ≡ k = ground arith in
      let others = number-eq f g k (λ x q. same x (λ r. omega arith)) in ground arith
  | inr above ↦
      let rest = number-one f g k e (ground arith) off on same in
      let top = same k (λ r. ground arith) in rw (rest, top) (omega arith)
]
