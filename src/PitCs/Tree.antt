-- ===== src/PitCs/Tree.antt =====
-- The nodes of table/pit-cs-tree.go. A node is a value: its `depth` is its distance from the root, a
-- child stands under the hash of its component, and a search is handed the hashes of the name's
-- components from the node's depth on. PIT and CS entries are pointers, hence numbers.
pub mod Slots
use ya_nfd.Prelude.{
  ℕ, Bool, true, false, ◌&&◌, Option, none, some, List, [], ◌∷◌, ◌==◌, if◌then◌else◌,
}

-- What a node holds: `pitEntries` and `csEntry`.
pub record Slot : Type 0 where
  pub pit_entries : List ℕ
  pub cs_entry : Option ℕ

abbrev pub no_slot : Slot
no_slot = record { pit_entries = []; cs_entry = none }

mutual
  pub data Node : Type 0 where
    node : Slot → Children → Node

  pub data Children : Type 0 where
    nil : Children
    cons : ℕ → Node → Children → Children

abbrev pub slot_of : Node → Slot
slot_of (node s cs) = s

abbrev pub new_node : Node
new_node = node no_slot nil

unfoldable mutual
  pub find_exact_match_entry : Node → List ℕ → Option Node
  find_exact_match_entry n [] = some n
  find_exact_match_entry (node s cs) (c ∷ rest) = find_exact_in cs c rest

  pub find_exact_in : Children → ℕ → List ℕ → Option Node
  find_exact_in nil c rest = none
  find_exact_in (cons d n cs) c rest =
      let found = find_exact_match_entry n rest in
      let others = find_exact_in cs c rest in if d == c then found else others

-- The node found and its chain of parents, the node first.
unfoldable mutual
  pub find_longest_prefix_entry : Node → List ℕ → List Slot → List Slot
  find_longest_prefix_entry (node s cs) [] up = s ∷ up
  find_longest_prefix_entry (node s cs) (c ∷ rest) up = find_longest_in cs (s ∷ up) c rest

  pub find_longest_in : Children → List Slot → ℕ → List ℕ → List Slot
  find_longest_in nil up c rest = up
  find_longest_in (cons d n cs) up c rest =
      let found = find_longest_prefix_entry n rest up in
      let others = find_longest_in cs up c rest in if d == c then found else others

-- The nodes that the loop of `fillTreeToPrefixEnc` makes.
unfoldable pub new_path : List ℕ → Node
new_path [] = new_node
new_path (c ∷ rest) = node no_slot (cons c (new_path rest) nil)

unfoldable mutual
  pub fill_tree_to_prefix : Node → List ℕ → Node
  fill_tree_to_prefix n [] = n
  fill_tree_to_prefix (node s cs) (c ∷ rest) = node s (fill_in cs c rest)

  pub fill_in : Children → ℕ → List ℕ → Children
  fill_in nil c rest = cons c (new_path rest) nil
  fill_in (cons d n cs) c rest =
      let filled = fill_tree_to_prefix n rest in
      let others = fill_in cs c rest in if d == c then cons d filled cs else cons d n others

-- A write through a pointer to the node under a name.
unfoldable mutual
  pub write_slot : (Slot → Slot) → Node → List ℕ → Node
  write_slot k (node s cs) [] = node (k s) cs
  write_slot k (node s cs) (c ∷ rest) = node s (write_in k cs c rest)

  pub write_in : (Slot → Slot) → Children → ℕ → List ℕ → Children
  write_in k nil c rest = nil
  write_in k (cons d n cs) c rest =
      let written = write_slot k n rest in
      let others = write_in k cs c rest in if d == c then cons d written cs else cons d n others

unfoldable pub holds_nothing : List ℕ → Option ℕ → Bool
holds_nothing [] none = true
holds_nothing [] (some d) = false
holds_nothing (e ∷ es) d = false

-- A node without children, PIT entries and CS entry.
unfoldable pub is_empty : Node → Bool
is_empty (node s nil) = holds_nothing s.pit_entries s.cs_entry
is_empty (node s (cons d n cs)) = false

-- `delete(curNode.parent.children, …)`
unfoldable pub delete_child : ℕ → Children → Children
delete_child c nil = nil
delete_child c (cons d n cs) =
    let others = delete_child c cs in if d == c then others else cons d n others

-- `pruneIfEmpty` at the node under a name: below the root, a node that is empty goes, and then the
-- one above it if that is empty without it.
unfoldable mutual
  pub prune_if_empty : Node → List ℕ → Node
  prune_if_empty n [] = n
  prune_if_empty (node s cs) (c ∷ rest) = node s (prune_in cs c rest)

  pub prune_in : Children → ℕ → List ℕ → Children
  prune_in nil c rest = nil
  prune_in (cons d n cs) c rest =
      let pruned = prune_if_empty n rest in
      let others = prune_in cs c rest in
      let kept = if is_empty pruned then delete_child c cs else cons d pruned cs in
      if d == c then kept else cons d n others
