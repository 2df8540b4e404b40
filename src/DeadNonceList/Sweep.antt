-- ===== src/DeadNonceList/Sweep.antt =====
-- What `RemoveExpiredEntries` of table/dead-nonce-list.go removes and what it leaves.
use native.Mathlib.Decide.{ℕ_discrete}
use ya_nfd.Prelude.{
  ℕ, zero, suc, ◌+◌, ◌-◌, ◌≤◌, ◌<◌, ◌≡◌, refl, ◌∙◌, Bool, true, false, ◌&&◌, some, List, [], ◌∷◌,
  length, ltb, leb, arith, Bool-cases, Option-cases, inl, inr,
}
use ya_nfd.Prelude.Assoc.{get-delete}
use ya_nfd.Heap.{Item, key}
use ya_nfd.Heap.Arrays.{count, one_if}
use ya_nfd.PriorityQueue.{peek_priority}
use ya_nfd.PriorityQueue.Order.{pop-IsServed}
use ya_nfd.DeadNonceList.{
  DeadNonceList, has_hash, has_expired, remove_front, remove_expired_loop, remove_expired_entries,
}
use ya_nfd.DeadNonceList.Known.{of_hash, IsConsistent}

-- Items that expire before `t`.
abbrev pub expires_before : ℕ → Item ℕ → Bool
expires_before t x = ltb x.priority t

-- The item of a hash, if it expires at `t` or later.
abbrev pub lasts : ℕ → ℕ → Item ℕ → Bool
lasts t h x = of_hash h x && leb t x.priority

count-expires_before :
    (t : ℕ) (q : List (Item ℕ))
    → ((c : ℕ) → c < length q → t ≤ key q c)
    → count (expires_before t) q ≡ 0
unfolding count key
count-expires_before t [] late = refl
count-expires_before t (x ∷ q) late =
    let first : t ≤ x.priority = late 0 (omega arith) in
    ground (arith, count-expires_before t q (λ c p. late (suc c) (omega arith)))

count-lasts : (t h : ℕ) (q : List (Item ℕ)) → count (lasts t h) q ≤ count (of_hash h) q
unfolding count
count-lasts t h [] = omega arith
count-lasts t h (x ∷ q) = ground (arith, count-lasts t h q)

-- What one eviction does: `x` leaves, and it was a least one.
record IsEvicted (d d' : DeadNonceList) (x : Item ℕ) : Type 0 where
  least : (c : ℕ) → c < length d.expiration_queue → x.priority ≤ key d.expiration_queue c
  consistent : IsConsistent d'
  kept :
      (p : Item ℕ → Bool) → count p d'.expiration_queue + one_if (p x) ≡ count p d.expiration_queue
  first : peek_priority d.expiration_queue ≡ some x.priority

remove_front-IsEvicted :
    (d : DeadNonceList)
    → 0 < length d.expiration_queue
    → IsConsistent d
    → (x : Item ℕ) × IsEvicted d (remove_front d) x
unfolding remove_front has_hash
remove_front-IsEvicted d l v =
    let (x, r, s) = pop-IsServed d.expiration_queue l v.ordered in
    let popped = s.popped in
    (
      x,
      rw (remove_front, popped)
          (record {
            least = s.least;
            consistent = record {
              ordered = s.ordered;
              matching = λ h. ground (
                arith,
                s.kept (of_hash h),
                v.matching h,
                get-delete ℕ_discrete x.object h d.list,
              );
            };
            kept = s.kept;
            first = s.prioritized;
          }),
    )

has_expired-front :
    (q : List (Item ℕ)) (p now : ℕ) → peek_priority q ≡ some p → has_expired q now ≡ true → p < now
unfolding has_expired
has_expired-front q p now e = rw (has_expired, e) (λ h. ground arith)

has_expired-some : (q : List (Item ℕ)) (now : ℕ) → has_expired q now ≡ true → 0 < length q
unfolding has_expired
has_expired-some q now = elim (Option-cases (peek_priority q)) [
  | inl e ↦ rw (has_expired, e) (λ h. ground arith)
  | inr (p, e) ↦ rw (has_expired, e) (λ h. ground arith)
]

-- Where the loop stops, all are late enough.
stops-late :
    (d : DeadNonceList) (now c : ℕ)
    → IsConsistent d
    → has_expired d.expiration_queue now ≡ false
    → c < length d.expiration_queue
    → now ≤ key d.expiration_queue c
unfolding has_expired
stops-late d now c v h p =
    let (x, s) = remove_front-IsEvicted d (omega arith) v in
    let first = s.first in ground (arith, s.least c p)

-- The loop keeps the map and the queue in step.
loop-IsConsistent :
    (k : ℕ) (clock : ℕ → ℕ) (d : DeadNonceList)
    → IsConsistent d
    → IsConsistent (remove_expired_loop k clock d)
unfolding remove_expired_loop
loop-IsConsistent zero clock d v = v
loop-IsConsistent (suc k) clock d v = elim (Bool-cases (has_expired d.expiration_queue (clock k))) [
  | inl go ↦
      let (x, s) = remove_front-IsEvicted d (has_expired-some d.expiration_queue (clock k) go) v in
      rw (remove_expired_loop, go) (loop-IsConsistent k clock (remove_front d) s.consistent)
  | inr stop ↦ rw (remove_expired_loop, stop) v
]

-- What expires at a time that the clock does not pass stays.
loop-lasts :
    (k : ℕ) (clock : ℕ → ℕ) (d : DeadNonceList) (t h : ℕ)
    → IsConsistent d
    → ((j : ℕ) → j < k → clock j ≤ t)
    → count (lasts t h) (remove_expired_loop k clock d).expiration_queue
      ≡ count (lasts t h) d.expiration_queue
unfolding remove_expired_loop
loop-lasts zero clock d t h v early = refl
loop-lasts (suc k) clock d t h v early =
    elim (Bool-cases (has_expired d.expiration_queue (clock k))) [
      | inl go ↦
          let (x, s) =
            remove_front-IsEvicted d (has_expired-some d.expiration_queue (clock k) go) v in
          let expired = has_expired-front d.expiration_queue x.priority (clock k) s.first go in
          let reading = early k (omega arith) in
          rw (remove_expired_loop, go)
            (loop-lasts k clock (remove_front d) t h s.consistent (λ j p. early j (omega arith))
              ∙ ground (arith, s.kept (lasts t h)))
      | inr stop ↦ rw (remove_expired_loop, stop) refl
    ]

-- Nothing comes into the queue.
loop-count :
    (k : ℕ) (clock : ℕ → ℕ) (d : DeadNonceList) (p : Item ℕ → Bool)
    → IsConsistent d
    → count p (remove_expired_loop k clock d).expiration_queue ≤ count p d.expiration_queue
unfolding remove_expired_loop
loop-count zero clock d p v = omega arith
loop-count (suc k) clock d p v = elim (Bool-cases (has_expired d.expiration_queue (clock k))) [
  | inl go ↦
      let (x, s) = remove_front-IsEvicted d (has_expired-some d.expiration_queue (clock k) go) v in
      rw (remove_expired_loop, go)
        (omega (arith, loop-count k clock (remove_front d) p s.consistent, s.kept p))
  | inr stop ↦ rw (remove_expired_loop, stop) (omega arith)
]

-- The items of a hash expire before a time, or last.
count-of_hash :
    (t h : ℕ) (q : List (Item ℕ))
    → count (of_hash h) q ≤ count (lasts t h) q + count (expires_before t) q
unfolding count
count-of_hash t h [] = omega arith
count-of_hash t h (x ∷ q) = ground (arith, count-of_hash t h q)

-- What expires before all readings goes, as far as the evictions reach.
loop-expires_before :
    (k : ℕ) (clock : ℕ → ℕ) (d : DeadNonceList) (t : ℕ)
    → IsConsistent d
    → ((j : ℕ) → j < k → t ≤ clock j)
    → count (expires_before t) (remove_expired_loop k clock d).expiration_queue
      ≡ count (expires_before t) d.expiration_queue - k
unfolding remove_expired_loop
loop-expires_before zero clock d t v late = omega arith
loop-expires_before (suc k) clock d t v late =
    let reading = late k (omega arith) in
    elim (Bool-cases (has_expired d.expiration_queue (clock k))) [
      | inl go ↦
          let (x, s) =
            remove_front-IsEvicted d (has_expired-some d.expiration_queue (clock k) go) v in
          let rest =
            loop-expires_before k clock (remove_front d) t s.consistent
              (λ j p. late j (omega arith)) in
          let taken = s.kept (expires_before t) in
          rw (remove_expired_loop, go)
            (rest ∙ elim (Bool-cases (ltb x.priority t)) [
              | inl gone ↦ ground arith
              | inr late_front ↦
                  let none_left =
                    count-expires_before t d.expiration_queue
                      (λ c p. ground (arith, s.least c p)) in
                  ground arith
            ])
      | inr stop ↦
          let none_left =
            count-expires_before t d.expiration_queue
              (λ c p. omega (arith, stops-late d (clock k) c v stop p)) in
          rw (remove_expired_loop, stop) (omega arith)
    ]

-- Removing the expired entries keeps the map and the queue in step.
pub remove_expired_entries-IsConsistent :
    (clock : ℕ → ℕ) (d : DeadNonceList)
    → IsConsistent d
    → IsConsistent (remove_expired_entries clock d)
unfolding remove_expired_entries
remove_expired_entries-IsConsistent clock d v = loop-IsConsistent 100 clock d v

-- If the map and the queue are in step and the clock stays between `s` and `t` while the expired
-- entries are removed, then they stay in step; the entries that expire before `s` go, up to 100 of
-- them; a hash whose entry expires at `t` or later is still found; and unless more than 100 expired
-- before `s`, a hash is only found after it if it has an entry that expires at `s` or later.
pub remove_expired_entries_lem :
    (clock : ℕ → ℕ) (d : DeadNonceList) (s t h : ℕ)
    → IsConsistent d
    → ((j : ℕ) → j < 100 → (s ≤ clock j) × (clock j ≤ t))
    → IsConsistent (remove_expired_entries clock d)
      × (count (expires_before s) (remove_expired_entries clock d).expiration_queue
          ≡ count (expires_before s) d.expiration_queue - 100)
      × (count (lasts t h) d.expiration_queue
          ≤ one_if (has_hash (remove_expired_entries clock d) h))
      × (one_if (has_hash (remove_expired_entries clock d) h)
          ≤ count (lasts s h) d.expiration_queue
            + (count (expires_before s) d.expiration_queue - 100))
unfolding remove_expired_entries
remove_expired_entries_lem clock d s t h v bounds = (
  loop-IsConsistent 100 clock d v,
  loop-expires_before 100 clock d s v (λ j p. (bounds j p).0),
  let after = remove_expired_loop 100 clock d in
      let kept = loop-lasts 100 clock d t h v (λ j p. (bounds j p).1) in
      let v' = loop-IsConsistent 100 clock d v in
      omega (arith, count-lasts t h after.expiration_queue, v'.matching h),
  let after = remove_expired_loop 100 clock d in
      let v' = loop-IsConsistent 100 clock d v in
      omega (
        arith,
        v'.matching h,
        count-of_hash s h after.expiration_queue,
        loop-count 100 clock d (lasts s h) v,
        loop-expires_before 100 clock d s v (λ j p. (bounds j p).0),
      ),
)
