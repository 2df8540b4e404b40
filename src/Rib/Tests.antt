-- ===== src/Rib/Tests.antt =====
-- Runs of the RIB with the tree implementation of the FIB, and its theorems at them.
use native.Mathlib.Decide.{ℕ_discrete}
use ya_nfd.Prelude.{ℕ, ◌≡◌, refl, none, some, List, [], ◌∷◌}
use ya_nfd.Prelude.Assoc
use ya_nfd.Fib.Hops.{cost_of, put_hop, has_hop}
use ya_nfd.Fib.Tree
use ya_nfd.Fib.Tree.{FibTree, new_fib_tree, hops_at}
use ya_nfd.Fib.Tree.Prune.{IsTree, has_child}
use ya_nfd.Rib.{
  Route, RibEntry, new_rib, put_route, erase_first, min_cost_routes, insert_next_hops,
  update_next_hops, is_empty, no_routes, new_path, find_exact_match_entry, fill_tree_to_prefix,
  write_slot, delete_child, prune_if_empty, slot, add_route, remove_route, clean_slot,
  clean_up_face,
}
use ya_nfd.Rib.Slots.{routes_at}
use ya_nfd.Rib.Costs.{IsFib}
use ya_nfd.Rib.Routes.{IsWith, IsWithout}
use ya_nfd.Rib.Operations.{
  IsRouted, add_route-IsRouted, remove_route-IsRouted, tree_fib, tree_cost, tree_fib-IsFib,
}

abbrev name_hash : List ℕ → ℕ
name_hash [] = 0
name_hash (c ∷ n) = c

abbrev route : ℕ → ℕ → ℕ → Route
route face origin cost = record {
  face_id = face;
  origin = origin;
  cost = cost;
  flags = 1;
  expiration_period = none;
}

abbrev short : List ℕ
short = 3 ∷ []

-- Two routes over face 7 and one over face 8, under one name.
abbrev three_routes : RibEntry ℕ × FibTree ℕ
three_routes =
    add_route ℕ_discrete (tree_fib ℕ_discrete name_hash)
      (add_route ℕ_discrete (tree_fib ℕ_discrete name_hash)
        (add_route ℕ_discrete (tree_fib ℕ_discrete name_hash) (new_rib, new_fib_tree (9 ∷ [])) short
          (route 7 0 20))
        short (route 8 0 30))
      short (route 7 128 10)

program : Unit {0}
unfolding ℕ_discrete Assoc.get Assoc.put put_route erase_first min_cost_routes insert_next_hops
    update_next_hops is_empty no_routes new_path find_exact_match_entry fill_tree_to_prefix
    write_slot delete_child prune_if_empty slot add_route remove_route clean_slot clean_up_face
    tree_fib tree_cost cost_of put_hop has_hop hops_at new_fib_tree Tree.clear_next_hops
    Tree.insert_next_hop Tree.update_exact Tree.fill_tree_to_prefix Tree.new_path
    Tree.find_exact_match_entry
program = tt

lowest_kept : tree_cost ℕ_discrete three_routes.1 short 7 ≡ some 10
unfolding program
lowest_kept = refl

one_removed :
    tree_cost ℕ_discrete
      (remove_route ℕ_discrete (tree_fib ℕ_discrete name_hash) three_routes short 7 128).1
      short
      7
    ≡ some 20
unfolding program
one_removed = refl

-- A face with two routes under a name keeps the second one.
one_left :
    tree_cost ℕ_discrete
      (clean_up_face (tree_fib ℕ_discrete name_hash) 7 three_routes.0 three_routes.1).1
      short
      7
    ≡ some 10
unfolding program
one_left = refl

tree_fib-IsFib_example :
    IsFib ℕ_discrete
      (tree_fib ℕ_discrete name_hash)
      (tree_cost ℕ_discrete)
      (λ f. IsTree ℕ_discrete f.root)
tree_fib-IsFib_example = tree_fib-IsFib ℕ_discrete name_hash

no_children : IsTree ℕ_discrete (new_fib_tree (9 ∷ [])).root
unfolding IsTree new_fib_tree
no_children = tt

add_route-IsRouted_example :
    (rs : List Route) × IsWith (route 7 0 20) (routes_at ℕ_discrete new_rib short) rs
    × IsRouted ℕ_discrete
        (tree_cost ℕ_discrete)
        (λ f. IsTree ℕ_discrete f.root)
        new_rib
        (new_fib_tree (9 ∷ []))
        (add_route ℕ_discrete
          (tree_fib ℕ_discrete name_hash)
          (new_rib, new_fib_tree (9 ∷ []))
          short
          (route 7 0 20)).0
        (add_route ℕ_discrete
          (tree_fib ℕ_discrete name_hash)
          (new_rib, new_fib_tree (9 ∷ []))
          short
          (route 7 0 20)).1
        short
        rs
unfolding program
add_route-IsRouted_example =
    add_route-IsRouted ℕ_discrete (tree_cost ℕ_discrete) (λ f. IsTree ℕ_discrete f.root)
      (tree_fib ℕ_discrete name_hash) (tree_fib-IsFib ℕ_discrete name_hash) new_rib
      (new_fib_tree (9 ∷ [])) short (route 7 0 20) refl no_children

add_route_named : (slot ℕ_discrete three_routes.0 short).name ≡ some short
unfolding program
add_route_named = refl

three_routes-IsTree : IsTree ℕ_discrete three_routes.1.root
unfolding program IsTree has_child
three_routes-IsTree = (refl, tt, tt)

remove_route-IsRouted_example :
    (rs : List Route) × IsWithout 7 128 (routes_at ℕ_discrete three_routes.0 short) rs
    × IsRouted ℕ_discrete
        (tree_cost ℕ_discrete)
        (λ f. IsTree ℕ_discrete f.root)
        three_routes.0
        three_routes.1
        (remove_route ℕ_discrete (tree_fib ℕ_discrete name_hash) three_routes short 7 128).0
        (remove_route ℕ_discrete (tree_fib ℕ_discrete name_hash) three_routes short 7 128).1
        short
        rs
remove_route-IsRouted_example =
    remove_route-IsRouted ℕ_discrete (tree_cost ℕ_discrete) (λ f. IsTree ℕ_discrete f.root)
      (tree_fib ℕ_discrete name_hash) (tree_fib-IsFib ℕ_discrete name_hash) three_routes.0
      three_routes.1 short 7 128 add_route_named three_routes-IsTree
