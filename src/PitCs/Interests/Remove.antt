-- ===== src/PitCs/Interests/Remove.antt =====
-- `RemoveInterest` of table/pit-cs-tree.go: the entry goes, and the others stay.
use native.Mathlib.Decide.{ℕ_discrete}
use ya_nfd.Prelude.{
  ℕ, ◌-◌, ◌<◌, ◌≡◌, refl, ap, sym, ◌∙◌, Bool, true, false, ◌&&◌, some, List, [], length, ◌==◌,
  if◌then◌else◌, arith, Bool-cases, Option-cases, inl, inr,
}
use ya_nfd.Prelude.Assoc
use ya_nfd.Name.{same_name→eq, same_name_self}
use ya_nfd.Heap.Arrays.{count, one_if}
use ya_nfd.PitCs.{PitCsTree, pit_entry}
use ya_nfd.PitCs.Tree.{Slot, write_slot, prune_if_empty}
use ya_nfd.PitCs.Tree.Slots.{
  slot, same_path, has_node, slot-write_slot, slot-prune_if_empty, slot-has_node,
}
use ya_nfd.PitCs.Interests.{index_of, remove_at, remove_interest}
use ya_nfd.PitCs.Interests.Prefixes.{is}
use ya_nfd.PitCs.Interests.Listed.{index_of-some, index_of-none, count-remove_at, number-one}
use ya_nfd.PitCs.Interests.Validity.{leads_to-delete, leads_to-one, is_live, IsValid}

-- What removing `e` from `s` gives, with the Boolean that is returned.
pub record IsRemoved (s : PitCsTree) (e : ℕ) (s' : PitCsTree) (removed : Bool) : Type 0 where
  pub valid : IsValid s'
  pub was_live : removed ≡ is_live s e
  pub live : (x : ℕ) → is_live s' x ≡ (if e == x then false else is_live s x)
  pub entries : (x : ℕ) → pit_entry s' x ≡ pit_entry s x

live_if_listed :
    (s : PitCsTree) (e i : ℕ)
    → IsValid s
    → index_of e (slot s.root (pit_entry s e).node).pit_entries ≡ some i
    → is_live s e ≡ true
live_if_listed s e i v h =
    let node = (pit_entry s e).node in
    let es = (slot s.root node).pit_entries in
    let counts = count-remove_at (is e) es i e (index_of-some e es i h) in
    let listed = v.listed node e in ground arith

has_node_if_listed :
    (s : PitCsTree) (e i : ℕ) (p : List ℕ)
    → index_of e (slot s.root p).pit_entries ≡ some i
    → has_node s.root p ≡ true
unfolding index_of
has_node_if_listed s e i p h = elim (Bool-cases (has_node s.root p)) [
  | inl there ↦ there
  | inr gone ↦
      let nothing : (slot s.root p).pit_entries ≡ [] =
        ap (λ (t : Slot). t.pit_entries) (slot-has_node s.root p gone) in
      ground arith
]

module _ (s : PitCsTree) (e i : ℕ) where
  abbrev node : List ℕ
  node = (pit_entry s e).node

  abbrev left : List ℕ
  left = remove_at i (slot s.root node).pit_entries

  -- The table that `remove_interest` returns when it has found the entry at `i`.
  removed : PitCsTree
  removed =
      let root = write_slot (λ (t : Slot). record t { pit_entries = left }) s.root node in
      record s {
        root = if length left == 0 then prune_if_empty root node else root;
        n_pit_entries = s.n_pit_entries - 1;
        pit_token_map = Assoc.delete ℕ_discrete (pit_entry s e).entry.token s.pit_token_map;
      }

  slot-removed :
      (p : List ℕ)
      → has_node s.root node ≡ true
      → (slot removed.root p).pit_entries
        ≡ (if same_path node p then left else (slot s.root p).pit_entries)
  unfolding removed
  slot-removed p h =
      let root = write_slot (λ (t : Slot). record t { pit_entries = left }) s.root node in
      let pruned = slot-prune_if_empty root node p in
      ground
        (arith, slot-write_slot (λ (t : Slot). record t { pit_entries = left }) s.root node p h)

  is_live-removed :
      (x : ℕ) → is_live s e ≡ true → is_live removed x ≡ (if e == x then false else is_live s x)
  unfolding removed is_live pit_entry
  is_live-removed x h =
      let gone =
        leads_to-delete s.pit_token_map (pit_entry s e).entry.token (pit_entry s x).entry.token x in
      let one = leads_to-one s.pit_token_map (pit_entry s e).entry.token e x h in ground arith

  kept_entries : (x : ℕ) → pit_entry removed x ≡ pit_entry s x
  unfolding removed pit_entry
  kept_entries x = refl

  removed-listed :
      (p : List ℕ) (x : ℕ)
      → IsValid s
      → index_of e (slot s.root node).pit_entries ≡ some i
      → count (is x) (slot removed.root p).pit_entries
        ≡ one_if ((if e == x then false else is_live s x) && same_path (pit_entry s x).node p)
  removed-listed p x v h =
      let es = (slot s.root node).pit_entries in
      let slots = slot-removed p (has_node_if_listed s e i node h) in
      let counts = count-remove_at (is x) es i e (index_of-some e es i h) in
      let there = v.listed node x in
      let old = v.listed p x in
      let self = same_name_self ℕ_discrete node in
      elim (Bool-cases (same_path node p)) [
        | inl here ↦
            let same : node ≡ p = same_name→eq ℕ_discrete node p here in
            rw (slots, here, sym same)
              (elim (Bool-cases (e == x)) [
                | inl it ↦ let eq : e ≡ x = ground arith in ground arith
                | inr other ↦ ground arith
              ])
        | inr apart ↦
            rw (slots, apart, old)
              (elim (Bool-cases (e == x)) [
                | inl it ↦ let eq : e ≡ x = ground arith in ground arith
                | inr other ↦ ground arith
              ])
      ]

  removed-IsValid : IsValid s → index_of e (slot s.root node).pit_entries ≡ some i → IsValid removed
  unfolding removed pit_entry
  removed-IsValid v h =
      let alive = live_if_listed s e i v h in
      let live = λ (x : ℕ). is_live-removed x alive in
      let inside : e < s.next_pointer = ground (arith, v.bounded e) in
      let more =
        number-one (is_live removed) (is_live s) s.next_pointer e inside (live e ∙ ground arith)
          alive (λ x d. live x ∙ ground arith) in
      let total = v.counted in
      record {
        listed = λ p x. removed-listed p x v h ∙ rw (live x) refl;
        bounded = λ x l. live x ∙ ground (arith, v.bounded x);
        counted = omega arith;
      }

-- In a table that is in order, `RemoveInterest` answers whether the entry is in the table; then the
-- entry is no longer in it, every other one still is, and the table is in order.
pub remove_interest-IsRemoved :
    (s : PitCsTree) (e : ℕ)
    → IsValid s
    → IsRemoved s e (remove_interest s e).0 (remove_interest s e).1
unfolding remove_interest removed
remove_interest-IsRemoved s e v =
    let p = (pit_entry s e).node in
    elim (Option-cases (index_of e (slot s.root p).pit_entries)) [
      | inl absent ↦
          let gone = index_of-none e (slot s.root p).pit_entries absent in
          let once = v.listed p e in
          let self = same_name_self ℕ_discrete p in
          let dead : is_live s e ≡ false = ground arith in
          rw (remove_interest, absent)
            (record {
              valid = v;
              was_live = sym dead;
              live = λ x. elim (Bool-cases (e == x)) [
                | inl it ↦ let eq : e ≡ x = ground arith in ground arith
                | inr other ↦ ground arith
              ];
              entries = λ x. refl;
            })
      | inr (i, found) ↦
          let alive = live_if_listed s e i v found in
          rw (remove_interest, found)
            (record {
              valid = removed-IsValid s e i v found;
              was_live = sym alive;
              live = λ x. is_live-removed s e i x alive;
              entries = λ x. kept_entries s e i x;
            })
    ]
