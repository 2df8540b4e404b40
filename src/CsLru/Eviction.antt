-- ===== src/CsLru/Eviction.antt =====
-- What an eviction takes away.
use ya_nfd.Prelude.{
  ℕ, zero, suc, ◌≤◌, ◌<◌, ◌-◌, ◌≡◌, refl, ap, ◌∙◌, some, List, [], ◌∷◌, map, length, length-drop,
  drop, take, All, ltb, arith, Bool-cases, inl, inr,
}
use ya_nfd.CsLru.{CsLru, evict_from, evict_entries}
use ya_nfd.CsLru.Recency.{recency, location, IsValid}

-- Erase some indices from a table, in their order.
unfoldable pub erase_each : {S : Type 0} → (ℕ → S → S) → List ℕ → S → S
erase_each erase [] s = s
erase_each erase (i ∷ js) s = erase_each erase js (erase i s)

drop-All : (P : ℕ × ℕ → Type 0) (n : ℕ) (q : List (ℕ × ℕ)) → All P q → All P (drop n q)
drop-All P zero q a = a
drop-All P (suc n) [] a = tt
drop-All P (suc n) (x ∷ q) a = drop-All P n q a.1

map-drop : (n : ℕ) (q : List (ℕ × ℕ)) → map (λ x. x.1) (drop n q) ≡ drop n (map (λ x. x.1) q)
map-drop zero q = refl
map-drop (suc n) [] = refl
map-drop (suc n) (x ∷ q) = map-drop n q

length-map : (q : List (ℕ × ℕ)) → length (map (λ x. x.1) q) ≡ length q
length-map [] = refl
length-map (x ∷ q) = ap suc (length-map q)

drop-IsValid : (n : ℕ) (l : CsLru) → IsValid l → IsValid (record l { queue = drop n l.queue })
drop-IsValid n l v = record {
  located = drop-All (λ x. location l x.1 ≡ some x.0) n l.queue v.located;
  faithful = λ i e h. drop-All (λ x. x.0 ≡ e → x.1 ≡ i) n l.queue (v.faithful i e h);
  below = drop-All (λ x. x.0 < l.next_element) n l.queue v.below;
  location_below = v.location_below;
}

module _ {S : Type 0} (erase : ℕ → S → S) (capacity : ℕ) where
  evict_from-drop :
      (q : List (ℕ × ℕ)) (s : S)
      → ((evict_from erase capacity q s).0 ≡ drop (length q - capacity) q)
        × ((evict_from erase capacity q s).1
            ≡ erase_each erase (take (length q - capacity) (map (λ x. x.1) q)) s)
  unfolding evict_from erase_each
  evict_from-drop [] s = let z : 0 - capacity ≡ 0 = omega arith in rw z (refl, refl)
  evict_from-drop ((e, i) ∷ q) s =
      let rest = evict_from-drop q (erase i s) in
      elim (Bool-cases (ltb capacity (length ((e, i) ∷ q)))) [
        | inl b ↦
            let d : suc (length q) - capacity ≡ suc (length q - capacity) = ground arith in
            rw (b, d) rest
        | inr b ↦ let d : suc (length q) - capacity ≡ 0 = ground arith in rw (b, d) (refl, refl)
      ]

  -- An eviction leaves the most recently used indices, as many as the capacity, in their order, and
  -- erases from the table the others and nothing else, the least recently used first; the queue stays valid.
  pub evict_entries-recency :
      (l : CsLru) (s : S)
      → IsValid l
      → IsValid (evict_entries erase capacity l s).0
        × (recency (evict_entries erase capacity l s).0
            ≡ drop (length (recency l) - capacity) (recency l))
        × (length (recency (evict_entries erase capacity l s).0) ≤ capacity)
        × ((evict_entries erase capacity l s).1
            ≡ erase_each erase (take (length (recency l) - capacity) (recency l)) s)
  unfolding evict_entries
  evict_entries-recency l s v =
      let dropped = evict_from-drop l.queue s in
      let n = length l.queue - capacity in
      let order : recency (evict_entries erase capacity l s).0
          ≡ drop (length (recency l) - capacity) (recency l) =
        ap (map (λ x. x.1)) dropped.0 ∙ rw (length-map l.queue) (map-drop n l.queue) in
      (
        rw dropped.0 (drop-IsValid n l v),
        order,
        rw (order, length-drop) (omega arith),
        rw (length-map l.queue) dropped.1,
      )
