-- ===== src/Rib.antt =====
-- table/rib.go: the routes under each name, and the next hops that they give the FIB. A node is a
-- value, and the field `depth` is its distance from the root; a child stands with its component. The
-- global `FibStrategyTable` is passed from call to call, and what is called of it is a record.
pub mod Slots
pub mod Costs
pub mod Routes
pub mod Operations
mod Tests
use native.Mathlib.Decide.{ℕ_discrete}
use mathlib.Core.Logic.{ite}
use ya_nfd.Prelude.{
  ℕ, Bool, true, false, ◌&&◌, ◌||◌, Option, none, some, List, [], ◌∷◌, ltb, ◌==◌, if◌then◌else◌,
}
use ya_nfd.Prelude.Assoc

pub record Route : Type 0 where
  pub face_id : ℕ
  pub origin : ℕ
  pub cost : ℕ
  pub flags : ℕ
  pub expiration_period : Option ℕ

-- What an entry holds: `Name` and `routes`.
pub record Slot (C : Type 0) : Type 0 where
  pub name : Option (List C)
  pub routes : List Route

mutual
  pub data RibEntry (C : Type 0) : Type 0 where
    node : Slot C → Children C → RibEntry C

  pub data Children (C : Type 0) : Type 0 where
    nil : Children C
    cons : C → RibEntry C → Children C → Children C

-- What `updateNexthopsEnc` calls of `FibStrategyTable`.
pub record Fib (C F : Type 0) : Type 0 where
  pub clear_next_hops : F → Option (List C) → F
  pub insert_next_hop : F → Option (List C) → ℕ → ℕ → F

-- The loop of `AddEncRoute`: the route is changed, or a new one appended.
unfoldable pub put_route : Route → List Route → List Route
put_route r [] = r ∷ []
put_route r (x ∷ xs) =
    let rest = put_route r xs in
    let changed : Route = record x {
      cost = r.cost;
      flags = r.flags;
      expiration_period = r.expiration_period;
    } in
    if (x.face_id == r.face_id) && (x.origin == r.origin) then changed ∷ xs else x ∷ rest

-- The loops that remove the first route that passes a test.
unfoldable pub erase_first : (Route → Bool) → List Route → List Route
erase_first p [] = []
erase_first p (x ∷ xs) = let rest = erase_first p xs in if p x then xs else x ∷ rest

abbrev pub is_route : ℕ → ℕ → Route → Bool
is_route face origin r = (r.face_id == face) && (r.origin == origin)

abbrev pub is_over : ℕ → Route → Bool
is_over face r = r.face_id == face

-- The first loop of `updateNexthopsEnc`, on the map of the costs found so far.
unfoldable pub min_cost_routes : List (ℕ × ℕ) → List Route → List (ℕ × ℕ)
min_cost_routes m [] = m
min_cost_routes m (r ∷ rs) =
    let put = Assoc.put ℕ_discrete r.face_id r.cost m in
    let next : List (ℕ × ℕ) = elim (Assoc.get ℕ_discrete r.face_id m) [
      | none ↦ put
      | some c ↦ if ltb r.cost c then put else m
    ] in
    min_cost_routes next rs

module _ {C F : Type 0} (ops : Fib C F) where
  -- The second loop.
  unfoldable pub insert_next_hops : F → Option (List C) → List (ℕ × ℕ) → F
  insert_next_hops f name [] = f
  insert_next_hops f name ((face, cost) ∷ m) =
      insert_next_hops (ops.insert_next_hop f name face cost) name m

  unfoldable pub update_next_hops : F → Slot C → F
  update_next_hops f t =
      insert_next_hops (ops.clear_next_hops f t.name) t.name (min_cost_routes [] t.routes)

unfoldable pub no_routes : List Route → Bool
no_routes [] = true
no_routes (r ∷ rs) = false

module _ {C : Type 0} where
  abbrev pub no_slot : Slot C
  no_slot = record { name = none; routes = [] }

  abbrev pub slot_of : RibEntry C → Slot C
  slot_of (node t cs) = t

  abbrev pub new_node : RibEntry C
  new_node = node no_slot nil

  -- `Rib`
  abbrev pub new_rib : RibEntry C
  new_rib = new_node

  unfoldable pub is_empty : RibEntry C → Bool
  is_empty (node t nil) = no_routes t.routes
  is_empty (node t (cons d e cs)) = false

  -- The entries that the loop of `fillTreeToPrefixEnc` makes.
  unfoldable pub new_path : List C → RibEntry C
  new_path [] = new_node
  new_path (c ∷ rest) = node no_slot (cons c (new_path rest) nil)

  -- `if node.Name == nil { node.Name = name }`
  abbrev pub name_or : List C → Option (List C) → Option (List C)
  name_or name none = some name
  name_or name (some n) = some n

  -- What `AddEncRoute` does to the entry.
  abbrev pub add_to_slot : List C → Route → Slot C → Slot C
  add_to_slot name r t = record { name = name_or name t.name; routes = put_route r t.routes }

module _ {C : Type 0} (equal : Discrete C) where
  unfoldable mutual
    pub find_exact_match_entry : RibEntry C → List C → Option (RibEntry C)
    find_exact_match_entry e [] = some e
    find_exact_match_entry (node t cs) (c ∷ rest) = find_exact_in cs c rest

    pub find_exact_in : Children C → C → List C → Option (RibEntry C)
    find_exact_in nil c rest = none
    find_exact_in (cons d e cs) c rest =
        ite (equal c d) (find_exact_match_entry e rest) (find_exact_in cs c rest)

  unfoldable mutual
    pub fill_tree_to_prefix : RibEntry C → List C → RibEntry C
    fill_tree_to_prefix e [] = e
    fill_tree_to_prefix (node t cs) (c ∷ rest) = node t (fill_in cs c rest)

    pub fill_in : Children C → C → List C → Children C
    fill_in nil c rest = cons c (new_path rest) nil
    fill_in (cons d e cs) c rest =
        ite (equal c d) (cons d (fill_tree_to_prefix e rest) cs) (cons d e (fill_in cs c rest))

  -- A write through a pointer to the entry under a name.
  unfoldable mutual
    pub write_slot : (Slot C → Slot C) → RibEntry C → List C → RibEntry C
    write_slot k (node t cs) [] = node (k t) cs
    write_slot k (node t cs) (c ∷ rest) = node t (write_in k cs c rest)

    pub write_in : (Slot C → Slot C) → Children C → C → List C → Children C
    write_in k nil c rest = nil
    write_in k (cons d e cs) c rest =
        ite (equal c d) (cons d (write_slot k e rest) cs) (cons d e (write_in k cs c rest))

  -- `delete(entry.parent.children, entry)`
  unfoldable pub delete_child : C → Children C → Children C
  delete_child c nil = nil
  delete_child c (cons d e cs) = ite (equal c d) (delete_child c cs) (cons d e (delete_child c cs))

  -- `pruneIfEmpty` at the entry under a name: below the root, an entry that is empty goes, and then
  -- the one above it if that is empty without it.
  unfoldable mutual
    pub prune_if_empty : RibEntry C → List C → RibEntry C
    prune_if_empty e [] = e
    prune_if_empty (node t cs) (c ∷ rest) = node t (prune_in cs c rest)

    pub prune_in : Children C → C → List C → Children C
    prune_in nil c rest = nil
    prune_in (cons d e cs) c rest =
        let pruned = prune_if_empty e rest in
        let kept = if is_empty pruned then delete_child c cs else cons d pruned cs in
        ite (equal c d) kept (cons d e (prune_in cs c rest))

  -- What stands under a name, nothing where there is no entry.
  unfoldable mutual
    pub slot : RibEntry C → List C → Slot C
    slot (node t cs) [] = t
    slot (node t cs) (c ∷ rest) = slot_in cs c rest

    pub slot_in : Children C → C → List C → Slot C
    slot_in nil c rest = no_slot
    slot_in (cons d e cs) c rest = ite (equal c d) (slot e rest) (slot_in cs c rest)

  module _ {F : Type 0} (ops : Fib C F) where
    unfoldable pub add_route : RibEntry C × F → List C → Route → RibEntry C × F
    add_route (root, f) name r =
        let root' = write_slot (add_to_slot name r) (fill_tree_to_prefix root name) name in
        (root', update_next_hops ops f (slot root' name))

    unfoldable pub remove_route : RibEntry C × F → List C → ℕ → ℕ → RibEntry C × F
    remove_route (root, f) name face origin = elim (find_exact_match_entry root name) [
      | none ↦ (root, f)
      | some e ↦
          let t = slot_of e in
          let erased : Slot C = record t { routes = erase_first (is_route face origin) t.routes } in
          (
            prune_if_empty (write_slot (λ (t : Slot C). erased) root name) name,
            update_next_hops ops f erased,
          )
    ]

module _ {C F : Type 0} (ops : Fib C F) where
  -- What `CleanUpFace` does to an entry when its children are done: nothing if it has no name.
  unfoldable pub clean_slot : ℕ → Slot C → F → Slot C × F
  clean_slot face t f =
      let cleaned : Slot C = record t { routes = erase_first (is_over face) t.routes } in
      elim t.name [ none ↦ (t, f) | some n ↦ (cleaned, update_next_hops ops f cleaned) ]

  abbrev pub is_named : Slot C → Bool
  is_named t = elim t.name [ none ↦ false | some n ↦ true ]

  -- The Boolean says that the loop of `pruneIfEmpty` comes to the entry: it began there, or at a
  -- child that has gone.
  unfoldable mutual
    pub clean_up_face : ℕ → RibEntry C → F → RibEntry C × F × Bool
    clean_up_face face (node t cs) f =
        let (cs', f', gone) = clean_up_children face cs f in
        let (t', f'') = clean_slot face t f' in (node t' cs', f'', gone || is_named t)

    pub clean_up_children : ℕ → Children C → F → Children C × F × Bool
    clean_up_children face nil f = (nil, f, false)
    clean_up_children face (cons d e cs) f =
        let (e', f', go) = clean_up_face face e f in
        let (cs', f'', gone) = clean_up_children face cs f' in
        if go && is_empty e' then (cs', f'', true) else (cons d e' cs', f'', gone)
