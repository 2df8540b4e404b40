-- ===== src/Rib/Operations.antt =====
-- `AddEncRoute` and `RemoveRouteEnc` of table/rib.go: the routes under a name, and the next hops that the
-- FIB then has. table/fib-strategy-tree.go is such a FIB.
use ya_nfd.Prelude.{
  ℕ, ◌≡◌, refl, ap, ◌∙◌, Option, none, some, List, [], if◌then◌else◌, arith, Bool-cases, inl, inr,
}
use ya_nfd.Name.{same_name, same_name_self}
use ya_nfd.Fib.Hops.{cost_of, cost_of-put_hop}
use ya_nfd.Fib.Tree
use ya_nfd.Fib.Tree.{FibTree, hops_at}
use ya_nfd.Fib.Tree.Operations.{tree_insert-Updates, tree_clear-Updates}
use ya_nfd.Fib.Tree.Prune.{IsTree}
use ya_nfd.Rib.{
  Route, Slot, RibEntry, slot_of, Fib, name_or, add_to_slot, put_route, erase_first, is_route,
  fill_tree_to_prefix, write_slot, slot, add_route, remove_route,
}
use ya_nfd.Rib.Slots.{
  routes_at, slot-fill_tree_to_prefix, has_node-fill_tree_to_prefix, slot-write_slot,
  routes-prune_if_empty, find_exact_match_entry-slot,
}
use ya_nfd.Rib.Costs.{lowest, IsFib, update_next_hops-cost, update_next_hops-Valid}
use ya_nfd.Rib.Routes.{IsWith, IsWithout, put_route-IsWith, erase_first-IsWithout}

module _ {C F : Type 0} (equal : Discrete C) (cost : F → List C → ℕ → Option ℕ)
    (Valid : F → Type 0) where
  -- The name now has just these routes, and the FIB the next hops that they give, over each face the
  -- lowest cost; other names keep their routes and next hops.
  pub record IsRouted (root : RibEntry C) (f : F) (root' : RibEntry C) (f' : F) (name : List C)
      (rs : List Route) : Type 0 where
    pub routes :
        (q : List C)
        → routes_at equal root' q ≡ (if same_name equal name q then rs else routes_at equal root q)
    pub costs :
        (q : List C) (face : ℕ)
        → cost f' q face ≡ (if same_name equal q name then lowest face rs else cost f q face)
    pub valid : Valid f'

  module _ (ops : Fib C F) (fib : IsFib equal ops cost Valid) where
    -- Adding a route under a name, whose entry has no other name, to a FIB in order: the name then has
    -- the route, instead of the first one of the same face and origin or as one more, and its
    -- other routes as they were; the FIB has, over each face, the lowest cost of the name's
    -- routes; other names keep routes and next hops.
    pub add_route-IsRouted :
        (root : RibEntry C) (f : F) (name : List C) (r : Route)
        → name_or name (slot equal root name).name ≡ some name
        → Valid f
        → (rs : List Route) × IsWith r (routes_at equal root name) rs
          × IsRouted root f
              (add_route equal ops (root, f) name r).0
              (add_route equal ops (root, f) name r).1
              name
              rs
    unfolding add_route
    add_route-IsRouted root f name r named v =
        let k = add_to_slot name r in
        let filled = fill_tree_to_prefix equal root name in
        let same = slot-fill_tree_to_prefix equal root name in
        let at = λ (q : List C).
          slot-write_slot equal k filled name q (has_node-fill_tree_to_prefix equal root name) in
        let t = slot equal (write_slot equal k filled name) name in
        let here : t ≡ k (slot equal root name) =
          at name ∙ rw (same_name_self equal name) (ap k (same name)) in
        let t_named : t.name ≡ some name = ap (λ (u : Slot C). u.name) here ∙ named in
        let t_routes : t.routes ≡ put_route r (routes_at equal root name) =
          ap (λ (u : Slot C). u.routes) here in
        (
          put_route r (routes_at equal root name),
          put_route-IsWith r (routes_at equal root name),
          record {
            routes = λ q.
                ap (λ (u : Slot C). u.routes) (at q) ∙ elim (Bool-cases (same_name equal name q)) [
                  | inl it ↦ rw (it, same name) refl
                  | inr other ↦ rw (other, same q) refl
                ];
            costs = λ q face.
                update_next_hops-cost equal ops cost Valid fib f t name q face t_named v
                ∙ rw t_routes refl;
            valid = update_next_hops-Valid equal ops cost Valid fib f t name t_named v;
          },
        )

    -- Removing a route of a name whose entry has the name, with a FIB in order: the name then has one
    -- route less of the face and origin, if it had one, and its other routes as they were; the FIB
    -- has, over each face, the lowest cost of the routes that are left; other names keep routes and
    -- next hops.
    pub remove_route-IsRouted :
        (root : RibEntry C) (f : F) (name : List C) (face origin : ℕ)
        → (slot equal root name).name ≡ some name
        → Valid f
        → (rs : List Route) × IsWithout face origin (routes_at equal root name) rs
          × IsRouted root f
              (remove_route equal ops (root, f) name face origin).0
              (remove_route equal ops (root, f) name face origin).1
              name
              rs
    unfolding remove_route
    remove_route-IsRouted root f name face origin named v =
        elim (find_exact_match_entry-slot equal root name) [
          | inl (absent, blank) ↦
              let nothing : (slot equal root name).name ≡ none =
                ap (λ (u : Slot C). u.name) blank in
              absurd (ground arith)
          | inr (e, found, at, there) ↦
              let t = slot_of e in
              let erased : Slot C = record t {
                routes = erase_first (is_route face origin) t.routes;
              } in
              let written =
                λ (q : List C). slot-write_slot equal (λ (u : Slot C). erased) root name q there in
              let pruned =
                routes-prune_if_empty equal (write_slot equal (λ (u : Slot C). erased) root name)
                  name in
              let t_named : erased.name ≡ some name = ap (λ (u : Slot C). u.name) at ∙ named in
              let t_routes : erased.routes
                  ≡ erase_first (is_route face origin) (routes_at equal root name) =
                ap (λ (u : Slot C). erase_first (is_route face origin) u.routes) at in
              (
                erase_first (is_route face origin) (routes_at equal root name),
                erase_first-IsWithout face origin (routes_at equal root name),
                rw (remove_route, found)
                    (record {
                      routes = λ q.
                          pruned q
                          ∙ ap (λ (u : Slot C). u.routes) (written q)
                          ∙ elim (Bool-cases (same_name equal name q)) [
                            | inl it ↦ rw it t_routes
                            | inr other ↦ rw other refl
                          ];
                      costs = λ q g.
                          update_next_hops-cost equal ops cost Valid fib f erased name q g t_named v
                          ∙ rw t_routes refl;
                      valid =
                          update_next_hops-Valid equal ops cost Valid fib f erased name t_named v;
                    }),
              )
        ]

abbrev pub or_empty : {C : Type 0} → Option (List C) → List C
or_empty none = []
or_empty (some n) = n

module _ {C : Type 0} (equal : Discrete C) where
  -- The cost over a face of the next hops under exactly a name.
  unfoldable pub tree_cost : FibTree C → List C → ℕ → Option ℕ
  tree_cost f n face = cost_of face (hops_at equal f.root n)

module _ {C : Type 0} (equal : Discrete C) (name_hash : List C → ℕ) where
  -- The tree implementation of the FIB.
  unfoldable pub tree_fib : Fib C (FibTree C)
  tree_fib = record {
    clear_next_hops = Tree.clear_next_hops equal name_hash;
    insert_next_hop =
        λ f name face cost. Tree.insert_next_hop equal name_hash f (or_empty name) face cost;
  }

  -- The tree does with next hops what the RIB relies on.
  pub tree_fib-IsFib : IsFib equal tree_fib (tree_cost equal) (λ f. IsTree equal f.root)
  unfolding tree_fib tree_cost cost_of
  tree_fib-IsFib = record {
    cleared = λ f n m face v.
        let u = tree_clear-Updates equal name_hash f v n in
        ap (cost_of face) (u.hops_after m) ∙ ground arith;
    inserted = λ f n m over face c v.
        let u = tree_insert-Updates equal name_hash f v n over c in
        ap (cost_of face) (u.hops_after m)
        ∙ ground (arith, cost_of-put_hop face over c (hops_at equal f.root m));
    clear-Valid = λ f n v. let u = tree_clear-Updates equal name_hash f v n in u.shape;
    insert-Valid =
        λ f n over c v. let u = tree_insert-Updates equal name_hash f v n over c in u.shape;
  }
