-- ===== src/PitCs/Interests.antt =====
-- The PIT in table/pit-cs-tree.go: inserting, removing and finding the entries of Interests, and
-- their expiry.
pub mod Prefixes
pub mod Listed
pub mod Validity
pub mod Insert
pub mod Answers
pub mod Aggregation
pub mod Remove
pub mod Expiry
pub mod Queueing
use native.Mathlib.Decide.{ℕ_discrete}
use ya_nfd.Prelude.{
  ℕ, zero, suc, ◌+◌, ◌-◌, Bool, true, false, ◌&&◌, ◌||◌, not, Option, none, some, List, [], ◌∷◌,
  ◌++◌, length, get_elem?, set, take, ltb, leb, ◌==◌, if◌then◌else◌,
}
use ya_nfd.Prelude.Assoc
use ya_nfd.Name.{same_name}
use ya_nfd.Packets.{Component, Name, Interest, Data, PendingPacket}
use ya_nfd.Pit.{InRecord, PitEntry}
use ya_nfd.Heap.{Item}
use ya_nfd.PriorityQueue
use ya_nfd.PitCs.{NameTreePitEntry, PitCsTree, blank_pit_entry, pit_entry, put_pit_entry, path}
use ya_nfd.PitCs.Tree.{
  Slot, Node, slot_of, find_exact_match_entry, find_longest_prefix_entry, fill_tree_to_prefix,
  write_slot, prune_if_empty,
}
use ya_nfd.PitCs.Tree.Slots.{slot}

unfoldable pub same_bool : Bool → Bool → Bool
same_bool true b = b
same_bool false b = not b

abbrev pub is_none : {A : Type 0} → Option A → Bool
is_none none = true
is_none (some a) = false

-- A nil name as one without components.
abbrev pub or_empty : Option Name → Name
or_empty none = []
or_empty (some n) = n

module _ (equal : Discrete Component) where
  -- `(hint == nil && curHint == nil) || hint.Equal(curHint)`
  unfoldable pub same_hint : Option Name → Option Name → Bool
  same_hint hint cur =
      (is_none hint && is_none cur) || same_name equal (or_empty hint) (or_empty cur)

  unfoldable pub matches : PitEntry → Interest → Option Name → Bool
  matches e interest hint =
      same_bool e.can_be_prefix interest.can_be_prefix
      && (same_bool e.must_be_fresh interest.must_be_fresh && same_hint hint e.forwarding_hint)

-- The first of the entries that passes a test.
unfoldable pub find_first : (ℕ → Bool) → List ℕ → Option ℕ
find_first p [] = none
find_first p (e ∷ es) = let rest = find_first p es in if p e then some e else rest

-- `generateNewPitToken` on the numbers that are drawn one after the other; none if all are in use.
unfoldable pub generate_new_pit_token : List ℕ → List (ℕ × ℕ) → Option ℕ
generate_new_pit_token [] tokens = none
generate_new_pit_token (t ∷ draws) tokens = elim (Assoc.get ℕ_discrete t tokens) [
  | none ↦ some t
  | some e ↦ generate_new_pit_token draws tokens
]

-- Interests without a nonce are dropped before they reach the table.
abbrev pub is_nonce : Option ℕ → ℕ → Bool
is_nonce none m = false
is_nonce (some n) m = m == n

-- An in-record of another face with the same nonce.
unfoldable pub is_looping : Option ℕ → ℕ → List (ℕ × InRecord) → Bool
is_looping wanted in_face [] = false
is_looping wanted in_face ((face, r) ∷ rs) =
    (not (face == in_face) && is_nonce wanted r.latest_nonce) || is_looping wanted in_face rs

-- What `InsertInterest` does to the entry that it has found or made.
unfoldable pub settle : PitCsTree → ℕ → Option ℕ → ℕ → PitCsTree × (ℕ × Bool)
settle s e nonce in_face =
    let x = pit_entry s e in
    let entry : PitEntry = record x.entry { expiration_time = 0 } in
    let cancelled : NameTreePitEntry = record x { entry = entry } in
    if is_looping nonce in_face x.entry.in_records
    then (s, (e, true))
    else (put_pit_entry s e cancelled, (e, false))

unfoldable pub new_entry : Interest → Option Name → ℕ → List ℕ → NameTreePitEntry
new_entry interest hint token node = record {
  entry = record {
    name = interest.name;
    can_be_prefix = interest.can_be_prefix;
    must_be_fresh = interest.must_be_fresh;
    forwarding_hint = hint;
    in_records = [];
    out_records = [];
    expiration_time = 0;
    satisfied = false;
    token = token;
  };
  node = node;
  queue_index = none;
}

-- The new entry's turn in `InsertInterest`.
unfoldable pub add_entry : PitCsTree → Interest → Option Name → ℕ → List ℕ → PitCsTree
add_entry s interest hint token node = record s {
  n_pit_entries = suc s.n_pit_entries;
  pit_entries =
      Assoc.put ℕ_discrete s.next_pointer (new_entry interest hint token node) s.pit_entries;
  root =
      write_slot (λ (t : Slot). record t { pit_entries = t.pit_entries ++ (s.next_pointer ∷ []) })
        s.root node;
  pit_token_map = Assoc.put ℕ_discrete token s.next_pointer s.pit_token_map;
  next_pointer = suc s.next_pointer;
}

module _ (equal : Discrete Component) (component_hash : Component → ℕ) where
  -- `InsertInterest`: the entry, and whether the nonce is a duplicate. none means that every number
  -- drawn is the token of an entry.
  unfoldable pub insert_interest :
      List ℕ
      → PitCsTree
      → PendingPacket Interest
      → Option Name
      → ℕ
      → Option (PitCsTree × (ℕ × Bool))
  insert_interest draws s packet hint in_face =
      let interest = packet.packet in
      let node = path component_hash interest.name in
      let s' : PitCsTree = record s { root = fill_tree_to_prefix s.root node } in
      let present =
        find_first (λ e. matches equal (pit_entry s' e).entry interest hint)
          (slot s'.root node).pit_entries in
      elim present [
        | some e ↦ some (settle s' e interest.nonce in_face)
        | none ↦ elim (generate_new_pit_token draws s'.pit_token_map) [
          | none ↦ none
          | some token ↦ some (
              settle (add_entry s' interest hint token node) s'.next_pointer interest.nonce in_face)
        ]
      ]

unfoldable pub index_of : ℕ → List ℕ → Option ℕ
index_of e [] = none
index_of e (x ∷ xs) = elim (index_of e xs) [
  | none ↦ if x == e then some 0 else none
  | some i ↦ if x == e then some 0 else some (suc i)
]

-- The last entry takes the place of the one that goes.
unfoldable pub remove_at : ℕ → List ℕ → List ℕ
remove_at i es =
    let last = length es - 1 in
    elim (get_elem? es last) [
      | none ↦ es
      | some l ↦ take last (if ltb 1 (length es) then set es i l else es)
    ]

-- `RemoveInterest`
unfoldable pub remove_interest : PitCsTree → ℕ → PitCsTree × Bool
remove_interest s e =
    let x = pit_entry s e in
    let es = (slot s.root x.node).pit_entries in
    elim (index_of e es) [
      | none ↦ (s, false)
      | some i ↦
          let left = remove_at i es in
          let root = write_slot (λ (t : Slot). record t { pit_entries = left }) s.root x.node in
          (
            record s {
              root = if length left == 0 then prune_if_empty root x.node else root;
              n_pit_entries = s.n_pit_entries - 1;
              pit_token_map = Assoc.delete ℕ_discrete x.entry.token s.pit_token_map;
            },
            true,
          )
    ]

-- The entries of the nodes of a chain, `n` being the length of the name; the depth of a node is the
-- number of those above it.
unfoldable pub satisfied_by : PitCsTree → ℕ → ℕ → List ℕ → List ℕ
satisfied_by s n depth [] = []
satisfied_by s n depth (e ∷ es) =
    let rest = satisfied_by s n depth es in
    if (pit_entry s e).entry.can_be_prefix || (depth == n) then e ∷ rest else rest

unfoldable pub match_up : PitCsTree → ℕ → List Slot → List ℕ
match_up s n [] = []
match_up s n (t ∷ up) = satisfied_by s n (length up) t.pit_entries ++ match_up s n up

module _ (component_hash : Component → ℕ) where
  -- `FindInterestExactMatchEnc`
  unfoldable pub find_interest_exact_match : PitCsTree → PendingPacket Interest → Option ℕ
  find_interest_exact_match s packet =
      let interest = packet.packet in
      elim (find_exact_match_entry s.root (path component_hash interest.name)) [
        | none ↦ none
        | some n ↦
            find_first
              (λ e.
                same_bool (pit_entry s e).entry.can_be_prefix interest.can_be_prefix
                && same_bool (pit_entry s e).entry.must_be_fresh interest.must_be_fresh)
              (slot_of n).pit_entries
      ]

  -- `findInterestPrefixMatchByNameEnc`
  unfoldable pub find_interest_prefix_match_by_name : PitCsTree → Name → List ℕ
  find_interest_prefix_match_by_name s name =
      match_up s (length name) (find_longest_prefix_entry s.root (path component_hash name) [])

  -- `FindInterestPrefixMatchByDataEnc`
  unfoldable pub find_interest_prefix_match_by_data :
      PitCsTree → PendingPacket Data → Option ℕ → List ℕ
  find_interest_prefix_match_by_data s packet none =
      find_interest_prefix_match_by_name s packet.packet.name
  find_interest_prefix_match_by_data s packet (some t) =
      elim (Assoc.get ℕ_discrete t s.pit_token_map) [
        | none ↦ []
        | some e ↦ if (pit_entry s e).entry.token == t then e ∷ [] else []
      ]

-- `updatePitExpiry`
unfoldable pub update_pit_expiry : PitCsTree → ℕ → PitCsTree
update_pit_expiry s e =
    let x = pit_entry s e in
    let time = x.entry.expiration_time in
    elim x.queue_index [
      | none ↦
          let (q, i) = PriorityQueue.push s.pit_expiry_queue e time in
          let queued : NameTreePitEntry = record x { queue_index = some i } in
          put_pit_entry (record s { pit_expiry_queue = q }) e queued
      | some i ↦ record s {
        pit_expiry_queue = (PriorityQueue.update s.pit_expiry_queue i e time).0;
      }
    ]

-- The condition of the loop of `Update`.
unfoldable pub is_due : List (Item ℕ) → ℕ → Bool
is_due q now = elim (PriorityQueue.peek_priority q) [
  | none ↦ false
  | some p ↦ ltb 0 (length q) && leb p now
]

-- Its body, with the entry that `onExpiration` is called on.
unfoldable pub expire_front : PitCsTree → PitCsTree × List ℕ
expire_front s = elim (PriorityQueue.pop s.pit_expiry_queue) [
  | none ↦ (s, [])
  | some (e, q) ↦
      let x = pit_entry s e in
      let left : NameTreePitEntry = record x { queue_index = none } in
      ((remove_interest (put_pit_entry (record s { pit_expiry_queue = q }) e left) e).0, e ∷ [])
]

-- The loop, with `k` rounds and what the clock reads before each: the entries that have expired.
unfoldable pub update_loop : ℕ → (ℕ → ℕ) → PitCsTree → PitCsTree × List ℕ
update_loop zero clock s = (s, [])
update_loop (suc k) clock s =
    let (s', e) = expire_front s in
    let (s'', es) = update_loop k clock s' in
    if is_due s.pit_expiry_queue (clock k) then (s'', e ++ es) else (s, [])

-- `Update`, less the signal for the next one. A round takes an item from the queue.
unfoldable pub update : (ℕ → ℕ) → PitCsTree → PitCsTree × List ℕ
update clock s = update_loop (length s.pit_expiry_queue) clock s
