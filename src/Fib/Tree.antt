-- ===== src/Fib/Tree.antt =====
-- table/fib-strategy-tree.go. A node is a value, and the field `depth` is its distance from the
-- root: a search is handed the components of the name from the node's depth on.
pub mod Lookup
pub mod Update
pub mod Prune
pub mod Operations
pub mod Shape
use mathlib.Core.Logic.{ite}
use native.Mathlib.Decide.{ℕ_discrete}
use ya_nfd.Prelude.{ℕ, Bool, true, false, ◌&&◌, Option, none, some, List, [], ◌∷◌, if◌then◌else◌}
use ya_nfd.Prelude.Assoc
use ya_nfd.Fib.Hops.{NextHop, put_hop, has_hop, erase_hop}
use ya_nfd.Fib.Spec.{no_hops, no_strategy}

-- `fibStrategyTreeEntry`: name, next hops, strategy, children. The component of a child stands
-- beside it; the root's is never read.
mutual
  pub data Entry (C : Type 0) : Type 0 where
    node : Option (List C) → List NextHop → Option (List C) → Children C → Entry C

  pub data Children (C : Type 0) : Type 0 where
    nil : Children C
    cons : C → Entry C → Children C → Children C

module _ {C : Type 0} where
  abbrev pub entry_name : Entry C → Option (List C)
  entry_name (node n h s cs) = n

  abbrev pub nexthops : Entry C → List NextHop
  nexthops (node n h s cs) = h

  abbrev pub strategy : Entry C → Option (List C)
  strategy (node n h s cs) = s

  abbrev pub new_node : Entry C
  new_node = node none [] none nil

  -- `if entry.name == nil { entry.name = name }`
  abbrev pub name_or : List C → Option (List C) → Option (List C)
  name_or name none = some name
  name_or name (some n) = some n

  unfoldable pub is_empty : Entry C → Bool
  is_empty (node n h s nil) = no_hops h && no_strategy s
  is_empty (node n h s (cons d e cs)) = false

  -- The nodes that the loop of `fillTreeToPrefixEnc` makes; `k` is done to the last one.
  unfoldable pub new_path : (Entry C → Entry C) → List C → Entry C
  new_path k [] = k new_node
  new_path k (c ∷ rest) = node none [] none (cons c (new_path k rest) nil)

  -- The inner loop of `pruneIfEmpty`, at the child `e` that is empty: it is the node that the loop
  -- began at if no component is left.
  unfoldable pub prune_child : C → Entry C → Children C → List C → Children C
  prune_child d e cs [] = cs
  prune_child d e cs (c ∷ rest) = cons d e cs

  -- What an operation does to a node: its name, next hops and strategy change.
  abbrev pub modify :
      (Option (List C) → Option (List C))
      → (List NextHop → List NextHop)
      → (Option (List C) → Option (List C))
      → Entry C
      → Entry C
  modify nm hops strat (node n h s cs) = node (nm n) (hops h) (strat s) cs

  -- The loops that step up by `parent` from the first node of the list.
  unfoldable pub first_hops : List (Entry C) → List NextHop
  first_hops [] = []
  first_hops (e ∷ up) =
      let above = first_hops up in if no_hops (nexthops e) then above else nexthops e

  unfoldable pub first_strategy : List (Entry C) → Option (List C)
  first_strategy [] = none
  first_strategy (e ∷ up) =
      let above = first_strategy up in if no_strategy (strategy e) then above else strategy e

-- `Component.Equal` decides equality.
module _ {C : Type 0} (equal : Discrete C) where
  unfoldable mutual
    pub find_exact_match_entry : Entry C → List C → Option (Entry C)
    find_exact_match_entry e [] = some e
    find_exact_match_entry (node n h s cs) (c ∷ rest) = find_exact_in cs c rest

    pub find_exact_in : Children C → C → List C → Option (Entry C)
    find_exact_in nil c rest = none
    find_exact_in (cons d e cs) c rest =
        ite (equal c d) (find_exact_match_entry e rest) (find_exact_in cs c rest)

  -- The node found and its chain of parents, the node first.
  unfoldable mutual
    pub find_longest_prefix_entry : Entry C → List C → List (Entry C) → List (Entry C)
    find_longest_prefix_entry e [] up = e ∷ up
    find_longest_prefix_entry (node n h s cs) (c ∷ rest) up =
        find_longest_in cs (node n h s cs ∷ up) c rest

    pub find_longest_in : Children C → List (Entry C) → C → List C → List (Entry C)
    find_longest_in nil up c rest = up
    find_longest_in (cons d e cs) up c rest =
        ite (equal c d) (find_longest_prefix_entry e rest up) (find_longest_in cs up c rest)

  -- `k` is done to the node that `fillTreeToPrefixEnc` returns.
  unfoldable mutual
    pub fill_tree_to_prefix : (Entry C → Entry C) → Entry C → List C → Entry C
    fill_tree_to_prefix k (node n h s cs) [] = k (node n h s cs)
    fill_tree_to_prefix k (node n h s cs) (c ∷ rest) = node n h s (fill_in k cs c rest)

    pub fill_in : (Entry C → Entry C) → Children C → C → List C → Children C
    fill_in k nil c rest = cons c (new_path k rest) nil
    fill_in k (cons d e cs) c rest =
        ite (equal c d) (cons d (fill_tree_to_prefix k e rest) cs) (cons d e (fill_in k cs c rest))

  -- `k` is done to the node that `findExactMatchEntryEnc` returns, if there is one.
  unfoldable mutual
    pub update_exact : (Entry C → Entry C) → Entry C → List C → Entry C
    update_exact k (node n h s cs) [] = k (node n h s cs)
    update_exact k (node n h s cs) (c ∷ rest) = node n h s (update_exact_in k cs c rest)

    pub update_exact_in : (Entry C → Entry C) → Children C → C → List C → Children C
    update_exact_in k nil c rest = nil
    update_exact_in k (cons d e cs) c rest =
        ite (equal c d) (cons d (update_exact k e rest) cs) (cons d e (update_exact_in k cs c rest))

  -- `pruneIfEmpty` on the node at the name. The loop climbs while nodes are empty, but removes a
  -- child only where it is the node that the loop began at: where no component is left. The Boolean
  -- says that the loop reaches the node, that is, has found all below it empty.
  unfoldable mutual
    pub prune_if_empty : Entry C → List C → Entry C × Bool
    prune_if_empty (node n h s cs) [] = (node n h s cs, true)
    prune_if_empty (node n h s cs) (c ∷ rest) =
        let (cs', go) = prune_in cs c rest in (node n h s cs', go)

    pub prune_in : Children C → C → List C → Children C × Bool
    prune_in nil c rest = (nil, false)
    prune_in (cons d e cs) c rest =
        let (e', go) = prune_if_empty e rest in
        let (cs', go') = prune_in cs c rest in
        ite (equal c d)
          (if go && is_empty e' then (prune_child d e' cs rest, true) else (cons d e' cs, false))
          (cons d e cs', go')

-- `FibStrategyTree`. `fibPrefixes` maps a name's hash to the node, here to its name.
pub record FibTree (C : Type 0) : Type 0 where
  pub root : Entry C
  pub fib_prefixes : List (ℕ × List C)

module _ {C : Type 0} where
  abbrev pub hops_of : Option (Entry C) → List NextHop
  hops_of none = []
  hops_of (some e) = nexthops e

  abbrev pub strategy_of : Option (Entry C) → Option (List C)
  strategy_of none = none
  strategy_of (some e) = strategy e

module _ {C : Type 0} (equal : Discrete C) where
  -- The next hops and the strategy of the node at exactly this name.
  unfoldable pub hops_at : Entry C → List C → List NextHop
  hops_at e name = hops_of (find_exact_match_entry equal e name)

  unfoldable pub strategy_at : Entry C → List C → Option (List C)
  strategy_at e name = strategy_of (find_exact_match_entry equal e name)

  unfoldable pub find_next_hops : FibTree C → List C → List NextHop
  find_next_hops f name = first_hops (find_longest_prefix_entry equal f.root name [])

  unfoldable pub find_strategy : FibTree C → List C → Option (List C)
  find_strategy f name = first_strategy (find_longest_prefix_entry equal f.root name [])

module _ {C : Type 0} (equal : Discrete C) (name_hash : List C → ℕ) where
  -- A hop that is updated returns before `fibPrefixes` is written.
  unfoldable pub insert_next_hop : FibTree C → List C → ℕ → ℕ → FibTree C
  insert_next_hop f name face cost = record f {
    root =
        fill_tree_to_prefix equal (modify (name_or name) (put_hop face cost) (λ s. s)) f.root name;
    fib_prefixes =
        if has_hop face (hops_at equal f.root name)
        then f.fib_prefixes
        else Assoc.put ℕ_discrete (name_hash name) name f.fib_prefixes;
  }

  -- A nil name is left alone.
  unfoldable pub clear_next_hops : FibTree C → Option (List C) → FibTree C
  clear_next_hops f none = f
  clear_next_hops f (some name) = record f {
    root = update_exact equal (modify (λ n. n) (λ h. []) (λ s. s)) f.root name;
  }

  unfoldable pub remove_next_hop : FibTree C → List C → ℕ → FibTree C
  remove_next_hop f name face = elim (find_exact_match_entry equal f.root name) [
    | none ↦ f
    | some e ↦ record f {
      root =
          (prune_if_empty equal
            (update_exact equal (modify (λ n. n) (erase_hop face) (λ s. s)) f.root name) name).0;
      fib_prefixes =
          if no_hops (erase_hop face (nexthops e))
          then Assoc.delete ℕ_discrete (name_hash name) f.fib_prefixes
          else f.fib_prefixes;
    }
  ]

  unfoldable pub set_strategy : FibTree C → List C → Option (List C) → FibTree C
  set_strategy f name strat = record f {
    root = fill_tree_to_prefix equal (modify (name_or name) (λ h. h) (λ s. strat)) f.root name;
  }

  unfoldable pub unset_strategy : FibTree C → List C → FibTree C
  unset_strategy f name = elim (find_exact_match_entry equal f.root name) [
    | none ↦ f
    | some e ↦ record f {
      root =
          (prune_if_empty equal
            (update_exact equal (modify (λ n. n) (λ h. h) (λ s. none)) f.root name) name).0;
    }
  ]

-- `newFibStrategyTableTree`: the root alone, with the default strategy.
unfoldable pub new_fib_tree : {C : Type 0} → List C → FibTree C
new_fib_tree default = record { root = node (some []) [] (some default) nil; fib_prefixes = [] }
