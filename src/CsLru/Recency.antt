-- ===== src/CsLru/Recency.antt =====
-- The queue lists the indices by their last use, each once.
use native.Mathlib.Decide.{ℕ_discrete}
use ya_nfd.Prelude.{
  ℕ, ◌<◌, ◌≡◌, ◌≢◌, ◌⊎◌, refl, sym, ap, ◌∙◌, Option, none, some, List, [], ◌∷◌, ◌++◌, map, All,
  ◌==◌, if◌then◌else◌, arith, Option-cases, Bool-cases, inl, inr,
}
use ya_nfd.Prelude.Assoc
use ya_nfd.Prelude.Assoc.{get-put, get-delete}
use ya_nfd.CsLru.{
  new_cs_lru, CsLru, remove_element, push_back, after_insert, before_use, before_erase,
}

-- The indices, the least recently used first.
abbrev pub recency : CsLru → List ℕ
recency l = map (λ x. x.1) l.queue

unfoldable pub erase : ℕ → List ℕ → List ℕ
erase i [] = []
erase i (j ∷ js) = let rest = erase i js in if j == i then rest else j ∷ rest

abbrev pub location : CsLru → ℕ → Option ℕ
location l i = Assoc.get ℕ_discrete i l.locations

-- Every element of the queue is the location of its index; a location whose element has left the queue
-- is left over from an eviction.
pub record IsValid (l : CsLru) : Type 0 where
  pub located : All (λ x. location l x.1 ≡ some x.0) l.queue
  pub faithful : (i e : ℕ) → location l i ≡ some e → All (λ x. x.0 ≡ e → x.1 ≡ i) l.queue
  pub below : All (λ x. x.0 < l.next_element) l.queue
  pub location_below : (i e : ℕ) → location l i ≡ some e → e < l.next_element

pub All-imp :
    {A : Type 0} (P Q : A → Type 0) → ((x : A) → P x → Q x) → (xs : List A) → All P xs → All Q xs
All-imp P Q f [] a = tt
All-imp P Q f (x ∷ xs) a = (f x a.0, All-imp P Q f xs a.1)

All-and :
    {A : Type 0} (P Q : A → Type 0) (xs : List A) → All P xs → All Q xs → All (λ x. P x × Q x) xs
All-and P Q [] a b = tt
All-and P Q (x ∷ xs) a b = ((a.0, b.0), All-and P Q xs a.1 b.1)

pub All-end :
    {A : Type 0} (P : A → Type 0) (xs : List A) (y : A) → All P xs → P y → All P (xs ++ (y ∷ []))
All-end P [] y a p = (p, tt)
All-end P (x ∷ xs) y a p = (a.0, All-end P xs y a.1 p)

remove_element-All :
    (P : ℕ × ℕ → Type 0) (e : ℕ) (q : List (ℕ × ℕ))
    → All P q
    → All (λ x. P x × (x.0 ≢ e)) (remove_element e q)
unfolding remove_element
remove_element-All P e [] a = tt
remove_element-All P e ((d, i) ∷ q) a = elim (Bool-cases (d == e)) [
  | inl b ↦ rw b (remove_element-All P e q a.1)
  | inr b ↦ rw b ((a.0, λ h. ground arith), remove_element-All P e q a.1)
]

-- To remove the element of an index is to erase the index.
remove_element-erase :
    (i e : ℕ) (q : List (ℕ × ℕ))
    → All (λ x. (x.0 ≡ e → x.1 ≡ i) × (x.1 ≡ i → x.0 ≡ e)) q
    → map (λ x. x.1) (remove_element e q) ≡ erase i (map (λ x. x.1) q)
unfolding remove_element erase
remove_element-erase i e [] a = refl
remove_element-erase i e ((d, j) ∷ q) a =
    let f = a.0.0 in let g = a.0.1 in ground (arith, remove_element-erase i e q a.1)

erase-absent : (i : ℕ) (js : List ℕ) → All (λ j. j ≢ i) js → erase i js ≡ js
unfolding erase
erase-absent i [] a = refl
erase-absent i (j ∷ js) a = let n = a.0 in ground (arith, erase-absent i js a.1)

map-end :
    (q : List (ℕ × ℕ)) (e i : ℕ)
    → map (λ x. x.1) (q ++ ((e, i) ∷ [])) ≡ map (λ x. x.1) q ++ (i ∷ [])
map-end [] e i = refl
map-end ((d, j) ∷ q) e i = ap (λ r. j ∷ r) (map-end q e i)

All-map : (P : ℕ → Type 0) (q : List (ℕ × ℕ)) → All (λ x. P x.1) q → All P (map (λ x. x.1) q)
All-map P [] a = tt
All-map P (x ∷ q) a = (a.0, All-map P q a.1)

pub new_cs_lru-IsValid : IsValid new_cs_lru
unfolding new_cs_lru Assoc.get
new_cs_lru-IsValid = record {
  located = tt;
  faithful = λ i e h. tt;
  below = tt;
  location_below = λ i e h. ground arith;
}

-- Nothing in the queue has an index.
abbrev pub Absent : ℕ → CsLru → Type 0
Absent i l = All (λ x. x.1 ≢ i) l.queue

location-push_back :
    (i j e : ℕ) (l : CsLru)
    → location (push_back i l) j ≡ some e
    → ((j ≡ i) × (e ≡ l.next_element)) ⊎ (location l j ≡ some e)
unfolding push_back
location-push_back i j e l h = ground (arith, get-put ℕ_discrete i j l.next_element l.locations)

pub push_back-IsValid : (i : ℕ) (l : CsLru) → IsValid l → Absent i l → IsValid (push_back i l)
unfolding push_back
push_back-IsValid i l v a = record {
  located =
      All-end _ l.queue (l.next_element, i)
        (All-imp (λ x. (location l x.1 ≡ some x.0) × (x.1 ≢ i)) _
          (λ x h.
            let e = h.0 in
            let n = h.1 in ground (arith, get-put ℕ_discrete i x.1 l.next_element l.locations))
          l.queue (All-and _ _ l.queue v.located a))
        (ground (arith, get-put ℕ_discrete i i l.next_element l.locations));
  faithful = λ j e h. elim (location-push_back i j e l h) [
    | inl (same, new) ↦
        All-end _ l.queue (l.next_element, i)
          (All-imp (λ x. x.0 < l.next_element) _ (λ x b k. absurd (omega arith)) l.queue v.below)
          (λ k. sym same)
    | inr m ↦
        All-end _ l.queue (l.next_element, i) (v.faithful j e m)
          (λ k. let b = v.location_below j e m in absurd (omega arith))
  ];
  below =
      All-end _ l.queue (l.next_element, i)
        (All-imp (λ x. x.0 < l.next_element) _ (λ x h. omega arith) l.queue v.below) (omega arith);
  location_below = λ j e h. elim (location-push_back i j e l h) [
    | inl (same, new) ↦ omega arith
    | inr m ↦ let b = v.location_below j e m in omega arith
  ];
}

pub not_located : (i : ℕ) (l : CsLru) → IsValid l → location l i ≡ none → Absent i l
not_located i l v n =
    All-imp (λ x. location l x.1 ≡ some x.0) _ (λ x h k. ground arith) l.queue v.located

-- The queue without the element of an index.
abbrev pub without : ℕ → CsLru → CsLru
without e l = record l { queue = remove_element e l.queue }

drop_right : (P Q : ℕ × ℕ → Type 0) (q : List (ℕ × ℕ)) → All (λ x. P x × Q x) q → All P q
drop_right P Q q a = All-imp (λ x. P x × Q x) P (λ x h. h.0) q a

pub remove_element_keeps :
    (P : ℕ × ℕ → Type 0) (e : ℕ) (q : List (ℕ × ℕ)) → All P q → All P (remove_element e q)
remove_element_keeps P e q a =
    drop_right P (λ x. x.0 ≢ e) (remove_element e q) (remove_element-All P e q a)

pub without-IsValid : (e : ℕ) (l : CsLru) → IsValid l → IsValid (without e l)
without-IsValid e l v = record {
  located = remove_element_keeps (λ x. location l x.1 ≡ some x.0) e l.queue v.located;
  faithful = λ j d h. remove_element_keeps (λ x. x.0 ≡ d → x.1 ≡ j) e l.queue (v.faithful j d h);
  below = remove_element_keeps (λ x. x.0 < l.next_element) e l.queue v.below;
  location_below = v.location_below;
}

pub without-Absent :
    (i e : ℕ) (l : CsLru) → IsValid l → location l i ≡ some e → Absent i (without e l)
without-Absent i e l v m =
    All-imp (λ x. (location l x.1 ≡ some x.0) × (x.0 ≢ e)) _
      (λ x h k. let f = h.0 in let g = h.1 in ground arith) (remove_element e l.queue)
      (remove_element-All (λ x. location l x.1 ≡ some x.0) e l.queue v.located)

recency-without :
    (i e : ℕ) (l : CsLru)
    → IsValid l
    → location l i ≡ some e
    → recency (without e l) ≡ erase i (recency l)
recency-without i e l v m = remove_element-erase i e l.queue (
    All-and _ _ l.queue (v.faithful i e m)
      (All-imp (λ x. location l x.1 ≡ some x.0) _ (λ x h k. ground arith) l.queue v.located))

-- A use of an entry, or its refresh, makes its index the most recent and keeps the order of the others; the queue
-- stays valid.
pub before_use-recency :
    (i : ℕ) (l : CsLru)
    → IsValid l
    → IsValid (before_use i l) × (recency (before_use i l) ≡ erase i (recency l) ++ (i ∷ []))
unfolding before_use push_back
before_use-recency i l v = elim (Option-cases (location l i)) [
  | inl n ↦
      let a = not_located i l v n in
      rw (n, before_use)
        (
          push_back-IsValid i l v a,
          map-end l.queue l.next_element i
              ∙ rw (erase-absent i (recency l) (All-map (λ j. j ≢ i) l.queue a)) refl,
        )
  | inr (e, m) ↦
      rw (m, before_use)
        (
          push_back-IsValid i (without e l) (without-IsValid e l v) (without-Absent i e l v m),
          map-end (remove_element e l.queue) l.next_element i ∙ rw (recency-without i e l v m) refl,
        )
]

-- An index that is not in the queue is inserted as the most recent; the queue stays valid.
pub after_insert-recency :
    (i : ℕ) (l : CsLru)
    → IsValid l
    → All (λ x. x.1 ≢ i) l.queue
    → IsValid (after_insert i l) × (recency (after_insert i l) ≡ recency l ++ (i ∷ []))
unfolding after_insert push_back
after_insert-recency i l v a = (push_back-IsValid i l v a, map-end l.queue l.next_element i)

-- An index that is erased leaves the queue, whose order is kept; the queue stays valid.
pub before_erase-recency :
    (i : ℕ) (l : CsLru)
    → IsValid l
    → IsValid (before_erase i l) × (recency (before_erase i l) ≡ erase i (recency l))
unfolding before_erase
before_erase-recency i l v = elim (Option-cases (location l i)) [
  | inl n ↦
      rw (n, before_erase)
        (v, sym (erase-absent i (recency l) (All-map (λ j. j ≢ i) l.queue (not_located i l v n))))
  | inr (e, m) ↦
      let w = without-IsValid e l v in
      let gone = without-Absent i e l v m in
      rw (m, before_erase)
        (
          record {
            located =
                All-imp (λ x. (location l x.1 ≡ some x.0) × (x.1 ≢ i)) _
                  (λ x h.
                    let f = h.0 in
                    let g = h.1 in ground (arith, get-delete ℕ_discrete i x.1 l.locations))
                  (remove_element e l.queue)
                  (All-and _ _ (remove_element e l.queue) w.located gone);
            faithful = λ j d h. w.faithful j d (kept j d h);
            below = w.below;
            location_below = λ j d h. w.location_below j d (kept j d h);
          },
          recency-without i e l v m,
        )
]
  where
    kept :
        (j d : ℕ)
        → Assoc.get ℕ_discrete j (Assoc.delete ℕ_discrete i l.locations) ≡ some d
        → location l j ≡ some d
    kept j d h = ground (arith, get-delete ℕ_discrete i j l.locations)
