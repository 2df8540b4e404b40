-- ===== src/PitCs/Interests/Insert.antt =====
-- `InsertInterest` of table/pit-cs-tree.go: which entry it returns, and what it does to the table.
use native.Mathlib.Decide.{ℕ_discrete}
use ya_nfd.Prelude.{
  ℕ, suc, ◌<◌, ◌≡◌, refl, ap, sym, ◌∙◌, Bool, true, ◌&&◌, Option, none, some, List, [], ◌∷◌, ◌++◌,
  ◌==◌, if◌then◌else◌, arith, Bool-cases, Option-cases, inl, inr,
}
use ya_nfd.Prelude.Assoc
use ya_nfd.Prelude.Assoc.{get-put}
use ya_nfd.Name.{same_name→eq, same_name_self}
use ya_nfd.Heap.Arrays.{count, one_if, count-append}
use ya_nfd.Packets.{Name, Interest}
use ya_nfd.PitCs.{NameTreePitEntry, PitCsTree, pit_entry}
use ya_nfd.PitCs.Tree.{Slot}
use ya_nfd.PitCs.Tree.Slots.{slot, same_path, has_node, slot-write_slot}
use ya_nfd.PitCs.Interests.{find_first, generate_new_pit_token, new_entry, add_entry}
use ya_nfd.PitCs.Interests.Prefixes.{is}
use ya_nfd.PitCs.Interests.Listed.{number, number-one}
use ya_nfd.PitCs.Interests.Validity.{leads_to-put, leads_to-unused, is_live, IsValid}

-- A token that is drawn is not in use, and the drawing ends at the first such number.
pub generate_new_pit_token-fresh :
    (draws : List ℕ) (tokens : List (ℕ × ℕ)) (t : ℕ)
    → generate_new_pit_token draws tokens ≡ some t
    → Assoc.get ℕ_discrete t tokens ≡ none
unfolding generate_new_pit_token
generate_new_pit_token-fresh [] tokens t h = ground arith
generate_new_pit_token-fresh (d ∷ draws) tokens t h =
    elim (Option-cases (Assoc.get ℕ_discrete d tokens)) [
      | inl n ↦ ground arith
      | inr (e, used) ↦ ground (arith, generate_new_pit_token-fresh draws tokens t)
    ]

pub find_first-some : (p : ℕ → Bool) (es : List ℕ) (e : ℕ) → find_first p es ≡ some e → p e ≡ true
unfolding find_first
find_first-some p [] e h = ground arith
find_first-some p (x ∷ es) e h = elim (Bool-cases (p x)) [
  | inl yes_x ↦ ground arith
  | inr no_x ↦ ground (arith, find_first-some p es e)
]

pub find_first-listed :
    (p : ℕ → Bool) (es : List ℕ) (e : ℕ) → find_first p es ≡ some e → 0 < count (is e) es
unfolding find_first count
find_first-listed p [] e h = ground arith
find_first-listed p (x ∷ es) e h = elim (Bool-cases (p x)) [
  | inl yes_x ↦ ground arith
  | inr no_x ↦ ground (arith, find_first-listed p es e)
]

module _ (s : PitCsTree) (interest : Interest) (hint : Option Name) (token : ℕ)
    (node : List ℕ) where
  pub pit_entry-add_entry :
      (e : ℕ)
      → pit_entry (add_entry s interest hint token node) e
        ≡ (if s.next_pointer == e then new_entry interest hint token node else pit_entry s e)
  unfolding pit_entry add_entry
  pit_entry-add_entry e = ground (
    arith,
    get-put ℕ_discrete s.next_pointer e (new_entry interest hint token node) s.pit_entries,
  )

  pub is_live-add_entry :
      (e : ℕ)
      → IsValid s
      → Assoc.get ℕ_discrete token s.pit_token_map ≡ none
      → is_live (add_entry s interest hint token node) e
        ≡ (if s.next_pointer == e then true else is_live s e)
  unfolding is_live add_entry new_entry
  is_live-add_entry e v unused =
      let at = pit_entry-add_entry e in
      let u = (pit_entry (add_entry s interest hint token node) e).entry.token in
      let put = leads_to-put s.pit_token_map token u s.next_pointer e in
      let free = leads_to-unused s.pit_token_map token e unused in
      elim (Bool-cases (s.next_pointer == e)) [
        | inl new ↦
            let made : pit_entry (add_entry s interest hint token node) e
                ≡ new_entry interest hint token node =
              at ∙ rw new refl in
            let tokens : u ≡ token = ap (λ (y : NameTreePitEntry). y.entry.token) made in
            ground arith
        | inr old ↦
            let kept : pit_entry (add_entry s interest hint token node) e ≡ pit_entry s e =
              at ∙ rw old refl in
            let tokens : u ≡ (pit_entry s e).entry.token =
              ap (λ (y : NameTreePitEntry). y.entry.token) kept in
            ground arith
      ]

  slot-add_entry :
      (p : List ℕ)
      → has_node s.root node ≡ true
      → (slot (add_entry s interest hint token node).root p).pit_entries ≡ (
          if same_path node p
          then (slot s.root node).pit_entries ++ (s.next_pointer ∷ [])
          else (slot s.root p).pit_entries)
  unfolding add_entry
  slot-add_entry p h = ground (
    arith,
    slot-write_slot
        (λ (t : Slot). record t { pit_entries = t.pit_entries ++ (s.next_pointer ∷ []) }) s.root
        node p h,
  )

  pub node-add_entry :
      (e : ℕ)
      → (pit_entry (add_entry s interest hint token node) e).node
        ≡ (if s.next_pointer == e then node else (pit_entry s e).node)
  unfolding new_entry
  node-add_entry e =
      let at = pit_entry-add_entry e in
      elim (Bool-cases (s.next_pointer == e)) [
        | inl new ↦
            let made : pit_entry (add_entry s interest hint token node) e
                ≡ new_entry interest hint token node =
              at ∙ rw new refl in
            rw (made, new) refl
        | inr old ↦
            let kept : pit_entry (add_entry s interest hint token node) e ≡ pit_entry s e =
              at ∙ rw old refl in
            rw (kept, old) refl
      ]

  add_entry-listed :
      (p : List ℕ) (e : ℕ)
      → IsValid s
      → has_node s.root node ≡ true
      → Assoc.get ℕ_discrete token s.pit_token_map ≡ none
      → count (is e) (slot (add_entry s interest hint token node).root p).pit_entries
        ≡ one_if (
            is_live (add_entry s interest hint token node) e
            && same_path (pit_entry (add_entry s interest hint token node) e).node p)
  add_entry-listed p e v h unused =
      let live = is_live-add_entry e v unused in
      let nodes = node-add_entry e in
      let fresh = v.bounded s.next_pointer (omega arith) in
      let old = v.listed p e in
      let there = v.listed node e in
      let grown = count-append (is e) (slot s.root node).pit_entries s.next_pointer in
      elim (Bool-cases (same_path node p)) [
        | inl here ↦
            let same : node ≡ p = same_name→eq ℕ_discrete node p here in
            rw (slot-add_entry p h, here, live, nodes, grown, there, sym same)
              (ground (arith, same_name_self ℕ_discrete node))
        | inr other ↦ rw (slot-add_entry p h, other, live, nodes, old) (ground arith)
      ]

  pub add_entry-IsValid :
      IsValid s
      → has_node s.root node ≡ true
      → Assoc.get ℕ_discrete token s.pit_token_map ≡ none
      → IsValid (add_entry s interest hint token node)
  unfolding add_entry number
  add_entry-IsValid v h unused =
      let live = λ (e : ℕ). is_live-add_entry e v unused in
      let fresh = v.bounded s.next_pointer (omega arith) in
      record {
        listed = λ p e. add_entry-listed p e v h unused;
        bounded = λ e l. live e ∙ ground (arith, v.bounded e);
        counted =
            ap suc v.counted
            ∙ sym (
                number-one (is_live s) (is_live (add_entry s interest hint token node))
                  (suc s.next_pointer) s.next_pointer (omega arith) fresh
                  (live s.next_pointer ∙ ground arith) (λ x d. sym (live x ∙ ground arith))
                ∙ ground arith);
      }
