-- ===== src/PitCs/Tree/Slots.antt =====
-- The tree of table/pit-cs-tree.go as a function from paths to what the nodes hold.
use native.Mathlib.Decide.{ℕ_discrete}
use ya_nfd.Prelude.{
  ℕ, ◌≡◌, refl, Bool, true, false, Option, none, some, List, [], ◌∷◌, ◌==◌, if◌then◌else◌, arith,
  Bool-cases, inl, inr,
}
use ya_nfd.Name.{same_name}
use ya_nfd.PitCs.Tree.{
  Slot, no_slot, Node, node, Children, nil, cons, slot_of, find_exact_match_entry, find_exact_in,
  new_path, fill_tree_to_prefix, fill_in, write_slot, write_in, holds_nothing, is_empty,
  delete_child, prune_if_empty, prune_in,
}

abbrev pub same_path : List ℕ → List ℕ → Bool
same_path = same_name ℕ_discrete

-- What stands under a path, nothing where there is no node.
unfoldable mutual
  pub slot : Node → List ℕ → Slot
  slot (node s cs) [] = s
  slot (node s cs) (c ∷ rest) = slot_in cs c rest

  pub slot_in : Children → ℕ → List ℕ → Slot
  slot_in nil c rest = no_slot
  slot_in (cons d n cs) c rest =
      let found = slot n rest in let others = slot_in cs c rest in if d == c then found else others

unfoldable mutual
  pub has_node : Node → List ℕ → Bool
  has_node n [] = true
  has_node (node s cs) (c ∷ rest) = has_child cs c rest

  pub has_child : Children → ℕ → List ℕ → Bool
  has_child nil c rest = false
  has_child (cons d n cs) c rest =
      let found = has_node n rest in
      let others = has_child cs c rest in if d == c then found else others

slot-new_path : (p q : List ℕ) → slot (new_path p) q ≡ no_slot
unfolding slot new_path
slot-new_path [] [] = refl
slot-new_path [] (c ∷ q) = refl
slot-new_path (c ∷ p) [] = refl
slot-new_path (c ∷ p) (d ∷ q) = ground (arith, slot-new_path p q)

has_node-new_path : (p : List ℕ) → has_node (new_path p) p ≡ true
unfolding has_node new_path
has_node-new_path [] = refl
has_node-new_path (c ∷ p) = ground (arith, has_node-new_path p)

mutual
  unfolding slot fill_tree_to_prefix

  -- Filling up to a path changes nothing that stands in the tree.
  pub slot-fill_tree_to_prefix :
      (n : Node) (p q : List ℕ) → slot (fill_tree_to_prefix n p) q ≡ slot n q
  slot-fill_tree_to_prefix (node s cs) [] q = refl
  slot-fill_tree_to_prefix (node s cs) (c ∷ p) [] = refl
  slot-fill_tree_to_prefix (node s cs) (c ∷ p) (d ∷ q) = slot-fill_in cs c p d q

  slot-fill_in :
      (cs : Children) (c : ℕ) (p : List ℕ) (d : ℕ) (q : List ℕ)
      → slot_in (fill_in cs c p) d q ≡ slot_in cs d q
  slot-fill_in nil c p d q = ground (arith, slot-new_path p q)
  slot-fill_in (cons b n cs) c p d q =
      ground (arith, slot-fill_tree_to_prefix n p q, slot-fill_in cs c p d q)

mutual
  unfolding has_node fill_tree_to_prefix

  -- The path is there after it.
  pub has_node-fill_tree_to_prefix :
      (n : Node) (p : List ℕ) → has_node (fill_tree_to_prefix n p) p ≡ true
  has_node-fill_tree_to_prefix (node s cs) [] = refl
  has_node-fill_tree_to_prefix (node s cs) (c ∷ p) = has_child-fill_in cs c p

  has_child-fill_in : (cs : Children) (c : ℕ) (p : List ℕ) → has_child (fill_in cs c p) c p ≡ true
  has_child-fill_in nil c p = ground (arith, has_node-new_path p)
  has_child-fill_in (cons b n cs) c p =
      ground (arith, has_node-fill_tree_to_prefix n p, has_child-fill_in cs c p)

mutual
  unfolding slot has_node write_slot same_name

  -- A write reaches the node under its path and no other.
  pub slot-write_slot :
      (k : Slot → Slot) (n : Node) (p q : List ℕ)
      → has_node n p ≡ true
      → slot (write_slot k n p) q ≡ (if same_path p q then k (slot n p) else slot n q)
  slot-write_slot k (node s cs) [] [] h = refl
  slot-write_slot k (node s cs) [] (d ∷ q) h = refl
  slot-write_slot k (node s cs) (c ∷ p) [] h = refl
  slot-write_slot k (node s cs) (c ∷ p) (d ∷ q) h = slot-write_in k cs c p d q h

  slot-write_in :
      (k : Slot → Slot) (cs : Children) (c : ℕ) (p : List ℕ) (d : ℕ) (q : List ℕ)
      → has_child cs c p ≡ true
      → slot_in (write_in k cs c p) d q
        ≡ (if same_path (c ∷ p) (d ∷ q) then k (slot_in cs c p) else slot_in cs d q)
  slot-write_in k nil c p d q h = ground arith
  slot-write_in k (cons b n cs) c p d q h =
      ground (arith, slot-write_slot k n p q, slot-write_in k cs c p d q)

mutual
  unfolding has_node write_slot

  pub has_node-write_slot :
      (k : Slot → Slot) (n : Node) (p q : List ℕ) → has_node (write_slot k n p) q ≡ has_node n q
  has_node-write_slot k (node s cs) [] [] = refl
  has_node-write_slot k (node s cs) [] (d ∷ q) = refl
  has_node-write_slot k (node s cs) (c ∷ p) [] = refl
  has_node-write_slot k (node s cs) (c ∷ p) (d ∷ q) = has_child-write_in k cs c p d q

  has_child-write_in :
      (k : Slot → Slot) (cs : Children) (c : ℕ) (p : List ℕ) (d : ℕ) (q : List ℕ)
      → has_child (write_in k cs c p) d q ≡ has_child cs d q
  has_child-write_in k nil c p d q = refl
  has_child-write_in k (cons b n cs) c p d q =
      ground (arith, has_node-write_slot k n p q, has_child-write_in k cs c p d q)

holds_nothing_eq :
    (es : List ℕ) (d : Option ℕ)
    → holds_nothing es d ≡ true
    → Path Slot (record { pit_entries = es; cs_entry = d }) no_slot
unfolding holds_nothing
holds_nothing_eq [] none h = refl
holds_nothing_eq [] (some d) h = ground arith
holds_nothing_eq (e ∷ es) d h = ground arith

-- An empty node holds nothing under any path.
slot-is_empty : (n : Node) (q : List ℕ) → is_empty n ≡ true → slot n q ≡ no_slot
unfolding slot is_empty
slot-is_empty (node s nil) [] h = holds_nothing_eq s.pit_entries s.cs_entry h
slot-is_empty (node s nil) (c ∷ q) h = refl
slot-is_empty (node s (cons d n cs)) q h = ground arith

slot_in-delete_child :
    (c d : ℕ) (cs : Children) (q : List ℕ)
    → slot_in (delete_child c cs) d q ≡ (if d == c then no_slot else slot_in cs d q)
unfolding slot delete_child
slot_in-delete_child c d nil q = ground arith
slot_in-delete_child c d (cons b n cs) q = ground (arith, slot_in-delete_child c d cs q)

mutual
  unfolding slot prune_if_empty

  -- Pruning changes nothing that stands in the tree.
  pub slot-prune_if_empty : (n : Node) (p q : List ℕ) → slot (prune_if_empty n p) q ≡ slot n q
  slot-prune_if_empty (node s cs) [] q = refl
  slot-prune_if_empty (node s cs) (c ∷ p) [] = refl
  slot-prune_if_empty (node s cs) (c ∷ p) (d ∷ q) = slot-prune_in cs c p d q

  slot-prune_in :
      (cs : Children) (c : ℕ) (p : List ℕ) (d : ℕ) (q : List ℕ)
      → slot_in (prune_in cs c p) d q ≡ slot_in cs d q
  slot-prune_in nil c p d q = refl
  slot-prune_in (cons b n cs) c p d q =
      let same = slot-prune_if_empty n p q in
      let nothing = slot-is_empty (prune_if_empty n p) q in
      ground (arith, slot-prune_in cs c p d q, slot_in-delete_child c d cs q)

mutual
  unfolding slot has_node

  -- Where there is no node, nothing stands.
  pub slot-has_node : (n : Node) (p : List ℕ) → has_node n p ≡ false → slot n p ≡ no_slot
  slot-has_node n [] h = ground arith
  slot-has_node (node s cs) (c ∷ p) h = slot-has_child cs c p h

  slot-has_child :
      (cs : Children) (c : ℕ) (p : List ℕ) → has_child cs c p ≡ false → slot_in cs c p ≡ no_slot
  slot-has_child nil c p h = refl
  slot-has_child (cons b n cs) c p h = ground (arith, slot-has_node n p, slot-has_child cs c p)

mutual
  unfolding slot has_node find_exact_match_entry

  -- `findExactMatchEntryEnc` returns the node under the path.
  pub find_exact_match_entry-slot :
      (n : Node) (p : List ℕ)
      → has_node n p ≡ true
      → (m : Node) × (find_exact_match_entry n p ≡ some m) × (slot_of m ≡ slot n p)
  find_exact_match_entry-slot (node s cs) [] h = (node s cs, refl, refl)
  find_exact_match_entry-slot (node s cs) (c ∷ p) h = find_exact_in-slot cs c p h

  find_exact_in-slot :
      (cs : Children) (c : ℕ) (p : List ℕ)
      → has_child cs c p ≡ true
      → (m : Node) × (find_exact_in cs c p ≡ some m) × (slot_of m ≡ slot_in cs c p)
  find_exact_in-slot nil c p h = absurd (ground arith)
  find_exact_in-slot (cons b n cs) c p h = elim (Bool-cases (b == c)) [
    | inl here ↦ rw (find_exact_in, here) (find_exact_match_entry-slot n p (ground arith))
    | inr other ↦ rw (find_exact_in, other) (find_exact_in-slot cs c p (ground arith))
  ]
