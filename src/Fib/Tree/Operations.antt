-- ===== src/Fib/Tree/Operations.antt =====
-- The operations of the tree, as changes of the values at exact names.
use ya_nfd.Prelude.{
  ℕ, ◌≡◌, refl, ◌∙◌, true, Option, none, some, List, [], if◌then◌else◌, arith, Option-cases, inl,
  inr,
}
use ya_nfd.Name.{same_name, same_name→eq}
use ya_nfd.Fib.Hops.{NextHop, put_hop, erase_hop, Distinct}
use ya_nfd.Fib.Tree.{
  Entry, node, modify, name_or, find_exact_match_entry, update_exact, prune_if_empty, FibTree,
  hops_of, strategy_of, hops_at, strategy_at, insert_next_hop, clear_next_hops, remove_next_hop,
  set_strategy, unset_strategy,
}
use ya_nfd.Fib.Tree.Update.{Info, info_of, fill-view, update-view}
use ya_nfd.Fib.Tree.Prune.{IsTree, prune-view}
use ya_nfd.Fib.Tree.Shape.{fill-IsTree, update-IsTree, prune-IsTree}

info_of-hops : {C : Type 0} (o : Option (Entry C)) → hops_of o ≡ (info_of o).0
unfolding info_of
info_of-hops none = refl
info_of-hops (some (node n h s cs)) = refl

info_of-strategy : {C : Type 0} (o : Option (Entry C)) → strategy_of o ≡ (info_of o).1
unfolding info_of
info_of-strategy none = refl
info_of-strategy (some (node n h s cs)) = refl

module _ {C : Type 0} (equal : Discrete C) where
  info_at : Entry C → List C → Info C
  info_at e n = info_of (find_exact_match_entry equal e n)

  hops_at-info : (e : Entry C) (n : List C) → hops_at equal e n ≡ (info_at e n).0
  unfolding hops_at info_at
  hops_at-info e n = info_of-hops (find_exact_match_entry equal e n)

  strategy_at-info : (e : Entry C) (n : List C) → strategy_at equal e n ≡ (info_at e n).1
  unfolding strategy_at info_at
  strategy_at-info e n = info_of-strategy (find_exact_match_entry equal e n)

  -- No siblings with the same component, and at every name no face with two next hops.
  pub record IsValid (f : FibTree C) : Type 0 where
    pub shape : IsTree equal f.root
    pub distinct : (n : List C) → Distinct (hops_at equal f.root n)

  -- What an operation that sets the values at `name` to `hops` and `strat` of the old ones does.
  pub record Updates (f g : FibTree C) (name : List C) (hops : List NextHop → List NextHop)
      (strat : Option (List C) → Option (List C)) : Type 0 where
    pub shape : IsTree equal g.root
    pub hops_after :
        (n : List C)
        → hops_at equal g.root n ≡ (
            if same_name equal n name
            then hops (hops_at equal f.root n)
            else hops_at equal f.root n)
    pub strategy_after :
        (n : List C)
        → strategy_at equal g.root n ≡ (
            if same_name equal n name
            then strat (strategy_at equal f.root n)
            else strategy_at equal f.root n)

  -- Both values at once.
  Updates-of_info :
      (f g : FibTree C) (name : List C) (hops : List NextHop → List NextHop)
      (strat : Option (List C) → Option (List C))
      → IsTree equal g.root
      → ((n : List C)
          → info_at g.root n ≡ (
              if same_name equal n name
              then (hops (info_at f.root n).0, strat (info_at f.root n).1)
              else info_at f.root n))
      → Updates f g name hops strat
  Updates-of_info f g name hops strat t h = record {
    shape = t;
    hops_after = λ n. ground (arith, h n, hops_at-info f.root n, hops_at-info g.root n);
    strategy_after = λ n. ground (arith, h n, strategy_at-info f.root n, strategy_at-info g.root n);
  }

  absent-blank :
      (e : Entry C) (name n : List C)
      → find_exact_match_entry equal e name ≡ none
      → same_name equal n name ≡ true
      → (hops_at equal e n ≡ []) × (strategy_at equal e n ≡ none)
  unfolding hops_at strategy_at
  absent-blank e name n absent h = rw (same_name→eq equal n name h, absent) (refl, refl)

  -- A change at a node that is not there changes nothing, where it leaves the blank value blank.
  Updates-absent :
      (f : FibTree C) (name : List C) (hops : List NextHop → List NextHop)
      (strat : Option (List C) → Option (List C))
      → IsTree equal f.root
      → find_exact_match_entry equal f.root name ≡ none
      → hops [] ≡ []
      → strat none ≡ none
      → Updates f f name hops strat
  Updates-absent f name hops strat t absent p q = record {
    shape = t;
    hops_after = λ n. ground (arith, absent-blank f.root name n absent);
    strategy_after = λ n. ground (arith, absent-blank f.root name n absent);
  }

  -- Changing a node and pruning it.
  Updates-prune :
      (f g : FibTree C) (name : List C) (hops : List NextHop → List NextHop)
      (strat : Option (List C) → Option (List C))
      → IsTree equal f.root
      → hops [] ≡ []
      → strat none ≡ none
      → g.root
        ≡ (prune_if_empty equal
            (update_exact equal (modify (λ n. n) hops strat) f.root name)
            name).0
      → Updates f g name hops strat
  unfolding info_at
  Updates-prune f g name hops strat t p q e =
      let kept = update-IsTree equal (λ n. n) hops strat f.root name t in
      Updates-of_info f g name hops strat (rw e (prune-IsTree equal _ name kept)) (λ n.
        rw e (
          prune-view equal _ name n kept ∙ update-view equal (λ n. n) hops strat f.root name n p q))

  module _ (name_hash : List C → ℕ) (f : FibTree C) (t : IsTree equal f.root) (name : List C) where
    -- Inserting a next hop puts it among those at the name, changes no strategy and no other name's
    -- next hops, and keeps the components of siblings different, which it needs.
    pub tree_insert-Updates :
        (face cost : ℕ)
        → Updates f
            (insert_next_hop equal name_hash f name face cost)
            name
            (put_hop face cost)
            (λ s. s)
    unfolding insert_next_hop info_at
    tree_insert-Updates face cost =
        Updates-of_info f _ name (put_hop face cost) (λ s. s)
          (fill-IsTree equal (name_or name) (put_hop face cost) (λ s. s) f.root name t)
          (fill-view equal (name_or name) (put_hop face cost) (λ s. s) f.root name)

    pub tree_set-Updates :
        (strat : Option (List C))
        → Updates f (set_strategy equal name_hash f name strat) name (λ h. h) (λ s. strat)
    unfolding set_strategy info_at
    tree_set-Updates strat =
        Updates-of_info f _ name (λ h. h) (λ s. strat)
          (fill-IsTree equal (name_or name) (λ h. h) (λ s. strat) f.root name t)
          (fill-view equal (name_or name) (λ h. h) (λ s. strat) f.root name)

    pub tree_clear-Updates :
        Updates f (clear_next_hops equal name_hash f (some name)) name (λ h. []) (λ s. s)
    unfolding clear_next_hops info_at
    tree_clear-Updates =
        Updates-of_info f _ name (λ h. []) (λ s. s)
          (update-IsTree equal (λ n. n) (λ h. []) (λ s. s) f.root name t)
          (λ n. update-view equal (λ n. n) (λ h. []) (λ s. s) f.root name n refl refl)

    -- Removing a next hop erases it at the name and changes nothing at any name else, the node being
    -- pruned or not, and keeps the components of siblings different, which it needs.
    pub tree_remove-Updates :
        (face : ℕ)
        → Updates f (remove_next_hop equal name_hash f name face) name (erase_hop face) (λ s. s)
    unfolding remove_next_hop erase_hop
    tree_remove-Updates face = elim (Option-cases (find_exact_match_entry equal f.root name)) [
      | inl absent ↦
          rw (absent, remove_next_hop)
            (Updates-absent f name (erase_hop face) (λ s. s) t absent refl refl)
      | inr (e, found) ↦
          rw (found, remove_next_hop)
            (Updates-prune f _ name (erase_hop face) (λ s. s) t refl refl refl)
    ]

    -- Unsetting a strategy erases it at the name and changes nothing at any name else, the node being
    -- pruned or not, and keeps the components of siblings different, which it needs.
    pub tree_unset-Updates :
        Updates f (unset_strategy equal name_hash f name) name (λ h. h) (λ s. none)
    unfolding unset_strategy
    tree_unset-Updates = elim (Option-cases (find_exact_match_entry equal f.root name)) [
      | inl absent ↦
          rw (absent, unset_strategy)
            (Updates-absent f name (λ h. h) (λ s. none) t absent refl refl)
      | inr (e, found) ↦
          rw (found, unset_strategy) (Updates-prune f _ name (λ h. h) (λ s. none) t refl refl refl)
    ]
