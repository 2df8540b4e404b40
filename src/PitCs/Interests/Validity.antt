-- ===== src/PitCs/Interests/Validity.antt =====
-- What holds of the PIT in table/pit-cs-tree.go between its operations.
use native.Mathlib.Decide.{ℕ_discrete}
use ya_nfd.Prelude.{
  ℕ, ◌≤◌, ◌≡◌, refl, sym, ◌∙◌, Bool, true, false, ◌&&◌, none, some, List, [], ◌∷◌, ◌==◌,
  if◌then◌else◌, arith, Option-cases, inl, inr,
}
use ya_nfd.Prelude.Assoc
use ya_nfd.Prelude.Assoc.{get-put, get-delete}
use ya_nfd.Heap.Arrays.{count, one_if}
use ya_nfd.PitCs.{NameTreePitEntry, PitCsTree, new_pit_cs, pit_entry, put_pit_entry}
use ya_nfd.PitCs.Tree.{new_node}
use ya_nfd.PitCs.Tree.Slots.{slot, same_path}
use ya_nfd.PitCs.Interests.Prefixes.{is}
use ya_nfd.PitCs.Interests.Listed.{number, number-eq}

-- An entry is in the table if its token leads to it.
unfoldable pub leads_to : List (ℕ × ℕ) → ℕ → ℕ → Bool
leads_to tokens t e = elim (Assoc.get ℕ_discrete t tokens) [ none ↦ false | some x ↦ x == e ]

unfoldable pub is_live : PitCsTree → ℕ → Bool
is_live s e = leads_to s.pit_token_map (pit_entry s e).entry.token e

pub leads_to-put :
    (tokens : List (ℕ × ℕ)) (t u x e : ℕ)
    → leads_to (Assoc.put ℕ_discrete t x tokens) u e
      ≡ (if t == u then x == e else leads_to tokens u e)
unfolding leads_to
leads_to-put tokens t u x e = ground (arith, get-put ℕ_discrete t u x tokens)

pub leads_to-delete :
    (tokens : List (ℕ × ℕ)) (t u e : ℕ)
    → leads_to (Assoc.delete ℕ_discrete t tokens) u e
      ≡ (if t == u then false else leads_to tokens u e)
unfolding leads_to
leads_to-delete tokens t u e = ground (arith, get-delete ℕ_discrete t u tokens)

pub leads_to-unused :
    (tokens : List (ℕ × ℕ)) (t e : ℕ)
    → Assoc.get ℕ_discrete t tokens ≡ none
    → leads_to tokens t e ≡ false
unfolding leads_to
leads_to-unused tokens t e h = rw (leads_to, h) refl

pub leads_to-one :
    (tokens : List (ℕ × ℕ)) (t x e : ℕ)
    → leads_to tokens t x ≡ true
    → leads_to tokens t e ≡ true
    → x ≡ e
unfolding leads_to
leads_to-one tokens t x e h k = elim (Option-cases (Assoc.get ℕ_discrete t tokens)) [
  | inl n ↦ ground arith
  | inr (y, f) ↦ ground arith
]

-- The node of an entry of the table lists it once, and no other node lists it; an entry that is not
-- in the table stands nowhere; pointers are new; and the counter counts the entries of the table.
pub record IsValid (s : PitCsTree) : Type 0 where
  pub listed :
      (p : List ℕ) (e : ℕ)
      → count (is e) (slot s.root p).pit_entries
        ≡ one_if (is_live s e && same_path (pit_entry s e).node p)
  pub bounded : (e : ℕ) → s.next_pointer ≤ e → is_live s e ≡ false
  pub counted : s.n_pit_entries ≡ number (is_live s) s.next_pointer

empty_lists : (p : List ℕ) (e : ℕ) → count (is e) (slot new_node p).pit_entries ≡ 0
unfolding count slot
empty_lists [] e = refl
empty_lists (c ∷ p) e = refl

pub new_pit_cs-IsValid : IsValid new_pit_cs
unfolding new_pit_cs is_live leads_to pit_entry Assoc.get count slot number
new_pit_cs-IsValid = record {
  listed = λ p e. empty_lists p e;
  bounded = λ e l. refl;
  counted = refl;
}

-- What does not touch the lists, the tokens and the nodes of the entries.
pub record IsSame (s s' : PitCsTree) : Type 0 where
  pub lists :
      (p : List ℕ) (e : ℕ)
      → count (is e) (slot s'.root p).pit_entries ≡ count (is e) (slot s.root p).pit_entries
  pub live : (e : ℕ) → is_live s' e ≡ is_live s e
  pub nodes : (e : ℕ) → (pit_entry s' e).node ≡ (pit_entry s e).node
  pub pointer : s'.next_pointer ≡ s.next_pointer
  pub number_kept : s'.n_pit_entries ≡ s.n_pit_entries

pub IsValid-IsSame : (s s' : PitCsTree) → IsSame s s' → IsValid s → IsValid s'
unfolding is_live pit_entry
IsValid-IsSame s s' same v = record {
  listed = λ p e. same.lists p e ∙ v.listed p e ∙ rw (same.live e, same.nodes e) refl;
  bounded = λ e l. same.live e ∙ v.bounded e (rw (sym same.pointer) l);
  counted =
      rw (same.number_kept, same.pointer)
        (v.counted ∙ number-eq (is_live s) (is_live s') s.next_pointer (λ e l. sym (same.live e)));
}

-- A write to an entry that keeps its token and its node.
pub put_pit_entry-IsSame :
    (s : PitCsTree) (e : ℕ) (x : NameTreePitEntry)
    → x.entry.token ≡ (pit_entry s e).entry.token
    → x.node ≡ (pit_entry s e).node
    → IsSame s (put_pit_entry s e x)
unfolding is_live pit_entry
put_pit_entry-IsSame s e x tokens nodes =
    let at = λ (i : ℕ). get-put ℕ_discrete e i x s.pit_entries in
    record {
      lists = λ p i. refl;
      live = λ i. ground (arith, at i);
      nodes = λ i. ground (arith, at i);
      pointer = refl;
      number_kept = refl;
    }

pub pit_entry-put :
    (s : PitCsTree) (e i : ℕ) (x : NameTreePitEntry)
    → pit_entry (put_pit_entry s e x) i ≡ (if e == i then x else pit_entry s i)
unfolding pit_entry
pit_entry-put s e i x = ground (arith, get-put ℕ_discrete e i x s.pit_entries)
