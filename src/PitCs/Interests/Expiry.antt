-- ===== src/PitCs/Interests/Expiry.antt =====
-- `Update` and `updatePitExpiry` of table/pit-cs-tree.go: what has expired leaves the table.
use ya_nfd.Prelude.{
  ℕ, zero, suc, ◌+◌, ◌≤◌, ◌<◌, ◌≡◌, refl, ap, sym, ◌∙◌, Bool, true, false, ◌||◌, none, some, List,
  [], ◌∷◌, length, ltb, ◌==◌, if◌then◌else◌, arith, Bool-cases, Option-cases, inl, inr,
}
use ya_nfd.Heap.{Item, key}
use ya_nfd.Heap.Arrays.{count, one_if}
use ya_nfd.PriorityQueue
use ya_nfd.PriorityQueue.{peek_priority}
use ya_nfd.PriorityQueue.Order.{IsOrdered, pop-IsServed, push-IsPushed, update-IsUpdated}
use ya_nfd.PitCs.{NameTreePitEntry, PitCsTree, pit_entry, put_pit_entry}
use ya_nfd.PitCs.Interests.{
  index_of, remove_interest, update_pit_expiry, is_due, expire_front, update_loop, update,
}
use ya_nfd.PitCs.Interests.Validity.{
  is_live, IsValid, IsSame, IsValid-IsSame, put_pit_entry-IsSame, pit_entry-put,
}
use ya_nfd.PitCs.Interests.Remove.{remove_interest-IsRemoved}
use ya_nfd.PitCs.Tree.Slots.{slot}

unfoldable pub has : ℕ → List ℕ → Bool
has x [] = false
has x (e ∷ es) = (e == x) || has x es

-- A queue put in the place of the other.
pub queue-IsSame :
    (s : PitCsTree) (q : List (Item ℕ)) → IsSame s (record s { pit_expiry_queue = q })
unfolding is_live pit_entry
queue-IsSame s q = record {
  lists = λ p e. refl;
  live = λ e. refl;
  nodes = λ e. refl;
  pointer = refl;
  number_kept = refl;
}

queue-remove_interest :
    (s : PitCsTree) (e : ℕ) → (remove_interest s e).0.pit_expiry_queue ≡ s.pit_expiry_queue
unfolding remove_interest
queue-remove_interest s e =
    elim (Option-cases (index_of e (slot s.root (pit_entry s e).node).pit_entries)) [
      | inl absent ↦ rw (remove_interest, absent) refl
      | inr (i, found) ↦ rw (remove_interest, found) refl
    ]

-- One round, on the front item `x`.
record IsFrontExpired (s s' : PitCsTree) (es : List ℕ) (x : Item ℕ) : Type 0 where
  valid : IsValid s'
  live : (y : ℕ) → is_live s' y ≡ (if x.object == y then false else is_live s y)
  expired : es ≡ x.object ∷ []
  ordered : IsOrdered s'.pit_expiry_queue
  shorter : length s.pit_expiry_queue ≡ suc (length s'.pit_expiry_queue)
  first : peek_priority s.pit_expiry_queue ≡ some x.priority
  kept :
      (p : Item ℕ → Bool) → count p s'.pit_expiry_queue + one_if (p x) ≡ count p s.pit_expiry_queue
  least : (c : ℕ) → c < length s.pit_expiry_queue → x.priority ≤ key s.pit_expiry_queue c

expire_front-IsFrontExpired :
    (s : PitCsTree)
    → 0 < length s.pit_expiry_queue
    → IsValid s
    → IsOrdered s.pit_expiry_queue
    → (x : Item ℕ) × IsFrontExpired s (expire_front s).0 (expire_front s).1 x
unfolding expire_front pit_entry
expire_front-IsFrontExpired s l v o =
    let (x, q, p) = pop-IsServed s.pit_expiry_queue l o in
    let popped = p.popped in
    let e = x.object in
    let left : NameTreePitEntry = record (pit_entry s e) { queue_index = none } in
    let shorter : PitCsTree = record s { pit_expiry_queue = q } in
    let s1 = put_pit_entry shorter e left in
    let same_queue = queue-IsSame s q in
    let same = put_pit_entry-IsSame shorter e left refl refl in
    let v1 = IsValid-IsSame shorter s1 same (IsValid-IsSame s shorter same_queue v) in
    let r = remove_interest-IsRemoved s1 e v1 in
    let queue = queue-remove_interest s1 e in
    (
      x,
      rw (expire_front, popped)
          (record {
            valid = r.valid;
            live = λ y. r.live y ∙ rw (same.live y, same_queue.live y) refl;
            expired = refl;
            ordered = rw queue p.ordered;
            shorter = p.shorter ∙ ap (λ (r : List (Item ℕ)). suc (length r)) (sym queue);
            first = p.prioritized;
            kept = rw queue p.kept;
            least = p.least;
          }),
    )

is_due-some : (q : List (Item ℕ)) (now : ℕ) → is_due q now ≡ true → 0 < length q
unfolding is_due
is_due-some q now = elim (Option-cases (peek_priority q)) [
  | inl e ↦ rw (is_due, e) (λ h. ground arith)
  | inr (p, e) ↦ rw (is_due, e) (λ h. ground arith)
]

is_due-front :
    (q : List (Item ℕ)) (p now : ℕ) → peek_priority q ≡ some p → is_due q now ≡ true → p ≤ now
unfolding is_due
is_due-front q p now e = rw (is_due, e) (λ h. ground arith)

-- Where the loop stops, nothing is due.
stops_early :
    (s : PitCsTree) (now c : ℕ)
    → IsOrdered s.pit_expiry_queue
    → is_due s.pit_expiry_queue now ≡ false
    → c < length s.pit_expiry_queue
    → now < key s.pit_expiry_queue c
unfolding is_due
stops_early s now c o h p =
    let (x, r, v) = pop-IsServed s.pit_expiry_queue (omega arith) o in
    let first = v.prioritized in ground (arith, v.least c p)

abbrev pub later : ℕ → Item ℕ → Bool
later u x = ltb u x.priority

-- What `Update` does while the clock reads `t` to `u`: `es` are the entries that have expired.
pub record IsSwept (s s' : PitCsTree) (es : List ℕ) (t u : ℕ) : Type 0 where
  pub valid : IsValid s'
  pub ordered : IsOrdered s'.pit_expiry_queue
  pub none_due : (c : ℕ) → c < length s'.pit_expiry_queue → t < key s'.pit_expiry_queue c
  pub kept : count (later u) s'.pit_expiry_queue ≡ count (later u) s.pit_expiry_queue
  pub live : (x : ℕ) → is_live s' x ≡ (if has x es then false else is_live s x)

update_loop-IsSwept :
    (k : ℕ) (clock : ℕ → ℕ) (t u : ℕ) (s : PitCsTree)
    → length s.pit_expiry_queue ≤ k
    → ((j : ℕ) → (t ≤ clock j) × (clock j ≤ u))
    → IsValid s
    → IsOrdered s.pit_expiry_queue
    → IsSwept s (update_loop k clock s).0 (update_loop k clock s).1 t u
unfolding update_loop has
update_loop-IsSwept zero clock t u s l late v o = record {
  valid = v;
  ordered = o;
  none_due = λ c p. absurd (omega arith);
  kept = refl;
  live = λ x. refl;
}
update_loop-IsSwept (suc k) clock t u s l late v o =
    let now = late k in
    elim (Bool-cases (is_due s.pit_expiry_queue (clock k))) [
      | inl due ↦
          let (x, f) =
            expire_front-IsFrontExpired s (is_due-some s.pit_expiry_queue (clock k) due) v o in
          let shorter = f.shorter in
          let expired = f.expired in
          let front : x.priority ≤ clock k =
            is_due-front s.pit_expiry_queue x.priority (clock k) f.first due in
          let bound = now.1 in
          let r =
            update_loop-IsSwept k clock t u (expire_front s).0 (omega arith) late f.valid
              f.ordered in
          rw (update_loop, due)
            (record {
              valid = r.valid;
              ordered = r.ordered;
              none_due = r.none_due;
              kept = r.kept ∙ ground (arith, f.kept (later u));
              live = λ y. rw expired (r.live y ∙ ground (arith, f.live y));
            })
      | inr idle ↦
          rw (update_loop, idle)
            (record {
              valid = v;
              ordered = o;
              none_due = λ c p. omega (arith, now.0, stops_early s (clock k) c o idle p);
              kept = refl;
              live = λ x. refl;
            })
    ]

-- From a table and a queue in order, while the clock reads `t` to `u`, `Update` leaves nothing in the
-- queue that expires at `t` or earlier, and all of it that expires after `u`; the entries that it
-- reports are no longer in the table, no other entry leaves it, and table and queue are in order.
pub update-IsSwept :
    (clock : ℕ → ℕ) (t u : ℕ) (s : PitCsTree)
    → ((j : ℕ) → (t ≤ clock j) × (clock j ≤ u))
    → IsValid s
    → IsOrdered s.pit_expiry_queue
    → IsSwept s (update clock s).0 (update clock s).1 t u
unfolding update
update-IsSwept clock t u s late v o =
    update_loop-IsSwept (length s.pit_expiry_queue) clock t u s (omega arith) late v o

-- `updatePitExpiry` leaves the entries and their places as they are.
pub update_pit_expiry-IsSame : (s : PitCsTree) (e : ℕ) → IsSame s (update_pit_expiry s e)
unfolding update_pit_expiry is_live pit_entry
update_pit_expiry-IsSame s e = elim (Option-cases (pit_entry s e).queue_index) [
  | inl none_yet ↦
      let x = pit_entry s e in
      let (q, i) = PriorityQueue.push s.pit_expiry_queue e x.entry.expiration_time in
      let queued : NameTreePitEntry = record x { queue_index = some i } in
      let shorter : PitCsTree = record s { pit_expiry_queue = q } in
      let same = put_pit_entry-IsSame shorter e queued refl refl in
      rw (update_pit_expiry, none_yet)
        (record {
          lists = same.lists;
          live = same.live;
          nodes = same.nodes;
          pointer = refl;
          number_kept = refl;
        })
  | inr (i, there) ↦
      rw (update_pit_expiry, there)
        (queue-IsSame s
          (PriorityQueue.update s.pit_expiry_queue i e (pit_entry s e).entry.expiration_time).0)
]

-- The queue stays in order.
pub update_pit_expiry-IsOrdered :
    (s : PitCsTree) (e : ℕ)
    → IsOrdered s.pit_expiry_queue
    → IsOrdered (update_pit_expiry s e).pit_expiry_queue
unfolding update_pit_expiry
update_pit_expiry-IsOrdered s e o =
    let time = (pit_entry s e).entry.expiration_time in
    elim (Option-cases (pit_entry s e).queue_index) [
      | inl none_yet ↦
          let p = push-IsPushed s.pit_expiry_queue e time o in
          rw (update_pit_expiry, none_yet) p.ordered
      | inr (i, there) ↦ elim (update-IsUpdated s.pit_expiry_queue i e time o) [
        | inl (out, same) ↦ rw (update_pit_expiry, there, same) o
        | inr (q, j, same, u) ↦
            let ordered = u.ordered in rw (update_pit_expiry, there, same) ordered
      ]
    ]

-- Its fields but the place in the queue stay.
pub entry-update_pit_expiry :
    (s : PitCsTree) (e i : ℕ) → (pit_entry (update_pit_expiry s e) i).entry ≡ (pit_entry s i).entry
unfolding update_pit_expiry pit_entry
entry-update_pit_expiry s e i = elim (Option-cases (pit_entry s e).queue_index) [
  | inl none_yet ↦
      let x = pit_entry s e in
      let (q, j) = PriorityQueue.push s.pit_expiry_queue e x.entry.expiration_time in
      let queued : NameTreePitEntry = record x { queue_index = some j } in
      let shorter : PitCsTree = record s { pit_expiry_queue = q } in
      let written = pit_entry-put shorter e i queued in
      rw (update_pit_expiry, none_yet)
        (ap (λ (y : NameTreePitEntry). y.entry) written ∙ elim (Bool-cases (e == i)) [
          | inl it ↦ let eq : e ≡ i = ground arith in rw (it, sym eq) refl
          | inr other ↦ rw other refl
        ])
  | inr (j, there) ↦ rw (update_pit_expiry, there) refl
]
