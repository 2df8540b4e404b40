-- ===== src/PitCs/Interests/Prefixes.antt =====
-- The prefix match of table/pit-cs-tree.go without the tree: the entries under each prefix of a
-- name, the longest first.
use ya_nfd.Prelude.{
  ℕ, suc, ◌+◌, ◌<◌, if◌then◌else◌, ◌≡◌, refl, ap, sym, ◌∙◌, Bool, List, [], ◌∷◌, ◌++◌, append_assoc,
  append-nil, length, ◌==◌, arith, Bool-cases, inl, inr,
}
use ya_nfd.Packets.{Component, Name}
use ya_nfd.PitCs.{PitCsTree, pit_entry, path}
use ya_nfd.PitCs.Tree.{
  Slot, no_slot, Node, node, Children, nil, cons, find_longest_prefix_entry, find_longest_in,
}
use ya_nfd.PitCs.Tree.Slots.{slot, slot_in}
use ya_nfd.PitCs.Interests.{satisfied_by, match_up, find_interest_prefix_match_by_name}

abbrev pub is : ℕ → ℕ → Bool
is e x = x == e

module _ (s : PitCsTree) where
  -- Those of the entries that can be a prefix.
  unfoldable pub prefixed : List ℕ → List ℕ
  prefixed [] = []
  prefixed (e ∷ es) =
      let rest = prefixed es in if (pit_entry s e).entry.can_be_prefix then e ∷ rest else rest

  -- What stands under a path, and what can be a prefix under the prefixes of it, the longest first.
  unfoldable pub below : (List ℕ → Slot) → List ℕ → List ℕ
  below at [] = (at []).pit_entries
  below at (c ∷ rest) = below (λ q. at (c ∷ q)) rest ++ prefixed (at []).pit_entries

  below-eq :
      (at at' : List ℕ → Slot) (rest : List ℕ)
      → ((q : List ℕ) → at q ≡ at' q)
      → below at rest ≡ below at' rest
  unfolding below
  below-eq at at' [] same = ap (λ (t : Slot). t.pit_entries) (same [])
  below-eq at at' (c ∷ rest) same =
      rw (same [], below-eq (λ q. at (c ∷ q)) (λ q. at' (c ∷ q)) rest (λ q. same (c ∷ q))) refl

  below-no_slot : (rest : List ℕ) → below (λ q. no_slot) rest ≡ []
  unfolding below prefixed
  below-no_slot [] = refl
  below-no_slot (c ∷ rest) = rw (below-no_slot rest) refl

  satisfied_by-whole : (n : ℕ) (es : List ℕ) → satisfied_by s n n es ≡ es
  unfolding satisfied_by
  satisfied_by-whole n [] = refl
  satisfied_by-whole n (e ∷ es) = ground (arith, satisfied_by-whole n es)

  satisfied_by-prefixed :
      (n depth : ℕ) (es : List ℕ) → depth < n → satisfied_by s n depth es ≡ prefixed es
  unfolding satisfied_by prefixed
  satisfied_by-prefixed n depth [] h = refl
  satisfied_by-prefixed n depth (e ∷ es) h = ground (arith, satisfied_by-prefixed n depth es h)

  module _ (n : ℕ) where
    mutual
      unfolding below slot find_longest_prefix_entry match_up

      chain :
          (t : Node) (rest : List ℕ) (up : List Slot)
          → length up + length rest ≡ n
          → match_up s n (find_longest_prefix_entry t rest up)
            ≡ below (slot t) rest ++ match_up s n up
      chain (node t cs) [] up h =
          let whole : length up ≡ n = omega arith in
          rw whole (ap (λ l. l ++ match_up s n up) (satisfied_by-whole n t.pit_entries))
      chain (node t cs) (c ∷ rest) up h =
          chain_in cs (t ∷ up) c rest (omega arith)
          ∙ rw (satisfied_by-prefixed n (length up) t.pit_entries (omega arith)) (
              sym (
                append_assoc (below (slot_in cs c) rest) (prefixed t.pit_entries)
                  (match_up s n up)))

      chain_in :
          (cs : Children) (up : List Slot) (c : ℕ) (rest : List ℕ)
          → length up + length rest ≡ n
          → match_up s n (find_longest_in cs up c rest)
            ≡ below (slot_in cs c) rest ++ match_up s n up
      chain_in nil up c rest h = rw (below-no_slot rest) refl
      chain_in (cons d t cs) up c rest h = elim (Bool-cases (d == c)) [
        | inl same ↦
            rw (find_longest_in, same)
              (chain t rest up h
                ∙ ap (λ l. l ++ match_up s n up)
                    (below-eq (slot t) (slot_in (cons d t cs) c) rest (λ q. ground arith)))
        | inr other ↦
            rw (find_longest_in, other)
              (chain_in cs up c rest h
                ∙ ap (λ l. l ++ match_up s n up)
                    (below-eq (slot_in cs c) (slot_in (cons d t cs) c) rest (λ q. ground arith)))
      ]

length-path : (f : Component → ℕ) (n : Name) → length (path f n) ≡ length n
length-path f [] = refl
length-path f (c ∷ n) = ap suc (length-path f n)

-- The entries that Data of a name may satisfy are those under the prefixes of the name, the longest
-- prefix first: under the whole name all of them, and under each shorter prefix those that can be a
-- prefix.
pub find_interest_prefix_match_by_name-below :
    (component_hash : Component → ℕ) (s : PitCsTree) (name : Name)
    → find_interest_prefix_match_by_name component_hash s name
      ≡ below s (slot s.root) (path component_hash name)
unfolding find_interest_prefix_match_by_name match_up
find_interest_prefix_match_by_name-below component_hash s name =
    chain s (length name) s.root (path component_hash name) []
      (omega (arith, length-path component_hash name))
    ∙ append-nil (below s (slot s.root) (path component_hash name))
