-- ===== src/Rib/Slots.antt =====
-- The tree of table/rib.go as a function from names to what the entries hold.
use mathlib.Core.Logic.{ite, if_pos, if_neg}
use ya_nfd.Prelude.{
  ◌≡◌, refl, Bool, true, false, none, some, List, [], ◌∷◌, if◌then◌else◌, arith, ◌⊎◌, inl, inr,
}
use ya_nfd.Name.{same_name}
use ya_nfd.Rib.{
  Route, Slot, no_slot, RibEntry, node, Children, nil, cons, slot_of, no_routes, is_empty, new_path,
  find_exact_match_entry, find_exact_in, fill_tree_to_prefix, fill_in, write_slot, write_in,
  delete_child, prune_if_empty, prune_in, slot, slot_in,
}

no_routes_eq : (rs : List Route) → no_routes rs ≡ true → rs ≡ []
unfolding no_routes
no_routes_eq [] h = refl
no_routes_eq (r ∷ rs) h = ground arith

module _ {C : Type 0} (equal : Discrete C) where
  -- The routes under a name.
  abbrev pub routes_at : RibEntry C → List C → List Route
  routes_at e n = (slot equal e n).routes

  unfoldable mutual
    pub has_node : RibEntry C → List C → Bool
    has_node e [] = true
    has_node (node t cs) (c ∷ rest) = has_child cs c rest

    pub has_child : Children C → C → List C → Bool
    has_child nil c rest = false
    has_child (cons d e cs) c rest = ite (equal c d) (has_node e rest) (has_child cs c rest)

  slot-new_path : (p q : List C) → slot equal (new_path p) q ≡ no_slot
  unfolding slot new_path
  slot-new_path [] [] = refl
  slot-new_path [] (c ∷ q) = refl
  slot-new_path (c ∷ p) [] = refl
  slot-new_path (c ∷ p) (d ∷ q) = ground (arith, slot-new_path p q)

  has_node-new_path : (p : List C) → has_node (new_path p) p ≡ true
  unfolding has_node new_path
  has_node-new_path [] = refl
  has_node-new_path (c ∷ p) = ground (arith, has_node-new_path p)

  mutual
    unfolding slot fill_tree_to_prefix

    -- Filling up to a name changes nothing that stands in the tree.
    pub slot-fill_tree_to_prefix :
        (e : RibEntry C) (p q : List C)
        → slot equal (fill_tree_to_prefix equal e p) q ≡ slot equal e q
    slot-fill_tree_to_prefix (node t cs) [] q = refl
    slot-fill_tree_to_prefix (node t cs) (c ∷ p) [] = refl
    slot-fill_tree_to_prefix (node t cs) (c ∷ p) (d ∷ q) = slot-fill_in cs c p d q

    slot-fill_in :
        (cs : Children C) (c : C) (p : List C) (d : C) (q : List C)
        → slot_in equal (fill_in equal cs c p) d q ≡ slot_in equal cs d q
    slot-fill_in nil c p d q = ground (arith, slot-new_path p q)
    slot-fill_in (cons b e cs) c p d q =
        ground (arith, slot-fill_tree_to_prefix e p q, slot-fill_in cs c p d q)

  mutual
    unfolding has_node fill_tree_to_prefix

    pub has_node-fill_tree_to_prefix :
        (e : RibEntry C) (p : List C) → has_node (fill_tree_to_prefix equal e p) p ≡ true
    has_node-fill_tree_to_prefix (node t cs) [] = refl
    has_node-fill_tree_to_prefix (node t cs) (c ∷ p) = has_child-fill_in cs c p

    has_child-fill_in :
        (cs : Children C) (c : C) (p : List C) → has_child (fill_in equal cs c p) c p ≡ true
    has_child-fill_in nil c p = ground (arith, has_node-new_path p)
    has_child-fill_in (cons b e cs) c p =
        ground (arith, has_node-fill_tree_to_prefix e p, has_child-fill_in cs c p)

  mutual
    unfolding slot has_node write_slot same_name

    -- A write reaches the entry under its name and no other.
    pub slot-write_slot :
        (k : Slot C → Slot C) (e : RibEntry C) (p q : List C)
        → has_node e p ≡ true
        → slot equal (write_slot equal k e p) q
          ≡ (if same_name equal p q then k (slot equal e p) else slot equal e q)
    slot-write_slot k (node t cs) [] [] h = refl
    slot-write_slot k (node t cs) [] (d ∷ q) h = refl
    slot-write_slot k (node t cs) (c ∷ p) [] h = refl
    slot-write_slot k (node t cs) (c ∷ p) (d ∷ q) h = slot-write_in k cs c p d q h

    slot-write_in :
        (k : Slot C → Slot C) (cs : Children C) (c : C) (p : List C) (d : C) (q : List C)
        → has_child cs c p ≡ true
        → slot_in equal (write_in equal k cs c p) d q ≡ (
            if same_name equal (c ∷ p) (d ∷ q)
            then k (slot_in equal cs c p)
            else slot_in equal cs d q)
    slot-write_in k nil c p d q h = ground arith
    slot-write_in k (cons b e cs) c p d q h =
        ground (arith, slot-write_slot k e p q, slot-write_in k cs c p d q)

  -- An empty entry holds no routes under any name.
  routes-is_empty : (e : RibEntry C) (q : List C) → is_empty e ≡ true → routes_at e q ≡ []
  unfolding slot is_empty no_routes
  routes-is_empty (node t nil) [] h = no_routes_eq t.routes h
  routes-is_empty (node t nil) (c ∷ q) h = refl
  routes-is_empty (node t (cons d e cs)) q h = ground arith

  slot_in-delete_child :
      (c d : C) (cs : Children C) (q : List C)
      → slot_in equal (delete_child equal c cs) d q ≡ ite (equal d c) no_slot (slot_in equal cs d q)
  unfolding slot delete_child
  slot_in-delete_child c d nil q = ground arith
  slot_in-delete_child c d (cons b e cs) q = ground (arith, slot_in-delete_child c d cs q)

  mutual
    unfolding slot prune_if_empty

    -- Pruning changes no routes.
    pub routes-prune_if_empty :
        (e : RibEntry C) (p q : List C) → routes_at (prune_if_empty equal e p) q ≡ routes_at e q
    routes-prune_if_empty (node t cs) [] q = refl
    routes-prune_if_empty (node t cs) (c ∷ p) [] = refl
    routes-prune_if_empty (node t cs) (c ∷ p) (d ∷ q) = routes-prune_in cs c p d q

    routes-prune_in :
        (cs : Children C) (c : C) (p : List C) (d : C) (q : List C)
        → (slot_in equal (prune_in equal cs c p) d q).routes ≡ (slot_in equal cs d q).routes
    routes-prune_in nil c p d q = refl
    routes-prune_in (cons b e cs) c p d q =
        let same = routes-prune_if_empty e p q in
        let nothing = routes-is_empty (prune_if_empty equal e p) q in
        ground (arith, routes-prune_in cs c p d q, slot_in-delete_child c d cs q)

  mutual
    unfolding slot has_node find_exact_match_entry

    -- `findExactMatchEntryEnc` answers with the entry under the name, if there is one.
    pub find_exact_match_entry-slot :
        (e : RibEntry C) (p : List C)
        → ((find_exact_match_entry equal e p ≡ none) × (slot equal e p ≡ no_slot))
          ⊎ ((m : RibEntry C) × (find_exact_match_entry equal e p ≡ some m)
              × (slot_of m ≡ slot equal e p)
              × (has_node e p ≡ true))
    find_exact_match_entry-slot (node t cs) [] = inr (node t cs, refl, refl, refl)
    find_exact_match_entry-slot (node t cs) (c ∷ p) = find_exact_in-slot cs c p

    find_exact_in-slot :
        (cs : Children C) (c : C) (p : List C)
        → ((find_exact_in equal cs c p ≡ none) × (slot_in equal cs c p ≡ no_slot))
          ⊎ ((m : RibEntry C) × (find_exact_in equal cs c p ≡ some m)
              × (slot_of m ≡ slot_in equal cs c p)
              × (has_child cs c p ≡ true))
    find_exact_in-slot nil c p = inl (refl, refl)
    find_exact_in-slot (cons b e cs) c p = elim (equal c b) [
      | yes h ↦
          rw (find_exact_in, slot_in, has_child, if_pos _ h, if_pos _ h, if_pos _ h)
            (find_exact_match_entry-slot e p)
      | no h ↦ rw (if_neg _ h, if_neg _ h, if_neg _ h) (find_exact_in-slot cs c p)
    ]
