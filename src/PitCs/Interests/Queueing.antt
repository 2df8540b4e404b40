-- ===== src/PitCs/Interests/Queueing.antt =====
-- `updatePitExpiry` of table/pit-cs-tree.go: what it puts in the queue of expiry times.
use ya_nfd.Prelude.{
  ℕ, ◌+◌, ◌<◌, ◌≡◌, ◌⊎◌, refl, ap, sym, ◌∙◌, Bool, none, some, length, get_elem?, arith, inl, inr,
}
use ya_nfd.Heap.{Item}
use ya_nfd.Heap.Arrays.{count, one_if}
use ya_nfd.PriorityQueue
use ya_nfd.PriorityQueue.Order.{IsOrdered, push-IsPushed, update-IsUpdated}
use ya_nfd.PitCs.{NameTreePitEntry, PitCsTree, pit_entry, put_pit_entry}
use ya_nfd.PitCs.Interests.{update_pit_expiry}
use ya_nfd.PitCs.Interests.Validity.{pit_entry-put}
use ya_nfd.PitCs.Interests.Expiry.{entry-update_pit_expiry}

-- The item of an entry, by its expiration time.
abbrev pub item_of : PitCsTree → ℕ → Item ℕ
item_of s e = record { object = e; priority = (pit_entry s e).entry.expiration_time }

-- The item of `e` is in the queue of `s'`: a new one if `e` has noted no place, else instead of the item
-- at the place that it has noted. The other items are those of `s`.
pub record IsQueued (s s' : PitCsTree) (e : ℕ) : Type 0 where
  pub ordered : IsOrdered s'.pit_expiry_queue
  pub placed : (j : ℕ) × (get_elem? s'.pit_expiry_queue j ≡ some (item_of s e))
  pub noted :
      (pit_entry s e).queue_index ≡ none
      → (j : ℕ) × ((pit_entry s' e).queue_index ≡ some j)
        × (get_elem? s'.pit_expiry_queue j ≡ some (item_of s e))
  pub added :
      (p : Item ℕ → Bool)
      → (pit_entry s e).queue_index ≡ none
      → count p s'.pit_expiry_queue ≡ count p s.pit_expiry_queue + one_if (p (item_of s e))
  pub exchanged :
      (p : Item ℕ → Bool) (i : ℕ) (y : Item ℕ)
      → (pit_entry s e).queue_index ≡ some i
      → get_elem? s.pit_expiry_queue i ≡ some y
      → count p s'.pit_expiry_queue + one_if (p y)
        ≡ count p s.pit_expiry_queue + one_if (p (item_of s e))
  pub entries : (x : ℕ) → (pit_entry s' x).entry ≡ (pit_entry s x).entry

-- An entry that has noted no place in the queue, or one that is inside.
abbrev pub IsPlaced : PitCsTree → ℕ → Type 0
IsPlaced s e =
    ((pit_entry s e).queue_index ≡ none)
    ⊎ (i : ℕ) × ((pit_entry s e).queue_index ≡ some i) × (i < length s.pit_expiry_queue)

-- With an ordered queue, and no place noted or one inside it, `updatePitExpiry` leaves the entry in the
-- ordered queue with its expiration time as priority: as a new item, of which the entry then has the
-- place, or instead of the item at the noted place. It adds and takes no other item, and changes no
-- entry but for the place.
pub update_pit_expiry-IsQueued :
    (s : PitCsTree) (e : ℕ)
    → IsOrdered s.pit_expiry_queue
    → IsPlaced s e
    → IsQueued s (update_pit_expiry s e) e
unfolding update_pit_expiry pit_entry
update_pit_expiry-IsQueued s e o (inl none_yet) =
    let x = pit_entry s e in
    let (q, j) = PriorityQueue.push s.pit_expiry_queue e x.entry.expiration_time in
    let p = push-IsPushed s.pit_expiry_queue e x.entry.expiration_time o in
    let queued : NameTreePitEntry = record x { queue_index = some j } in
    let shorter : PitCsTree = record s { pit_expiry_queue = q } in
    let written = pit_entry-put shorter e e queued in
    let opened : update_pit_expiry s e ≡ put_pit_entry shorter e queued =
      rw (update_pit_expiry, none_yet) refl in
    let same = entry-update_pit_expiry s e in
    rw (update_pit_expiry, none_yet)
      (record {
        ordered = p.ordered;
        placed = (j, p.placed);
        noted =
            λ h. (j, ap (λ (y : NameTreePitEntry). y.queue_index) written ∙ ground arith, p.placed);
        added = λ t h. p.kept t;
        exchanged = λ t i y h. absurd (ground arith);
        entries = λ y. ap (λ (t : PitCsTree). (pit_entry t y).entry) (sym opened) ∙ same y;
      })
update_pit_expiry-IsQueued s e o (inr (i, there, inside)) =
    let time = (pit_entry s e).entry.expiration_time in
    elim (update-IsUpdated s.pit_expiry_queue i e time o) [
      | inl (out, same) ↦ absurd (omega arith)
      | inr (q, j, same, u) ↦
          rw (update_pit_expiry, there, same)
            (record {
              ordered = u.ordered;
              placed = (j, u.placed);
              noted = λ h. absurd (ground arith);
              added = λ t h. absurd (ground arith);
              exchanged = λ t k y h at. let eq : i ≡ k = ground arith in u.exchanged y (rw eq at) t;
              entries = λ x. refl;
            })
    ]
