-- ===== src/Fib/Tree/Lookup.antt =====
-- The tree's lookups are longest-prefix matches over the values at exact names.
use mathlib.Core.Logic.{if_pos, if_neg}
use mathlib.Core.Path.{fun_ext}
use ya_nfd.Prelude.{
  ◌≡◌, ◌≢◌, refl, ap, ◌∙◌, Bool, true, Option, none, some, List, [], ◌∷◌, if◌then◌else◌, arith,
}
use ya_nfd.Fib.Spec.{longest_prefix, no_hops, no_strategy, no_hops_eq, no_strategy_eq}
use ya_nfd.Fib.Tree.{
  Entry, node, Children, nil, cons, nexthops, strategy, first_hops, first_strategy,
  find_exact_match_entry, find_longest_prefix_entry, hops_at, strategy_at, hops_of, strategy_of,
  FibTree, find_next_hops, find_strategy, find_exact_in, find_longest_in,
}

module _ {C : Type 0} (equal : Discrete C) (c d : C) (e : Entry C) (cs : Children C)
    (p : List C) where
  pub find_exact_in_here :
      c ≡ d → find_exact_in equal (cons d e cs) c p ≡ find_exact_match_entry equal e p
  unfolding find_exact_match_entry
  find_exact_in_here h = if_pos (equal c d) h _ _

  pub find_exact_in_later :
      c ≢ d → find_exact_in equal (cons d e cs) c p ≡ find_exact_in equal cs c p
  unfolding find_exact_match_entry
  find_exact_in_later h = if_neg (equal c d) h _ _

-- A value that every node carries, with a blank one where there is no node, and the step up to the
-- first node where it is not blank.
module _ {A C : Type 0} (equal : Discrete C) (blank : A → Bool) (none_here : A)
    (is_blank : blank none_here ≡ true) (blank_eq : (a : A) → blank a ≡ true → a ≡ none_here)
    (value : Entry C → A) where
  or_none : Option (Entry C) → A
  or_none none = none_here
  or_none (some x) = value x

  value_at : Entry C → List C → A
  unfolding or_none
  value_at e name = or_none (find_exact_match_entry equal e name)

  value_in : Children C → C → List C → A
  unfolding or_none
  value_in cs c rest = or_none (find_exact_in equal cs c rest)

  first_value : List (Entry C) → A
  first_value [] = none_here
  first_value (e ∷ up) = let above = first_value up in if blank (value e) then above else value e

  longest_prefix-none : (rest : List C) → longest_prefix blank (λ p. none_here) rest ≡ none_here
  unfolding longest_prefix
  longest_prefix-none [] = refl
  longest_prefix-none (c ∷ rest) = ground (arith, longest_prefix-none rest)

  value_in_here :
      (c d : C) (e : Entry C) (cs : Children C) → c ≡ d → value_in (cons d e cs) c ≡ value_at e
  unfolding value_in value_at
  value_in_here c d e cs h = fun_ext (λ p. ap or_none (find_exact_in_here equal c d e cs p h))

  value_in_later :
      (c d : C) (e : Entry C) (cs : Children C) → c ≢ d → value_in (cons d e cs) c ≡ value_in cs c
  unfolding value_in
  value_in_later c d e cs h = fun_ext (λ p. ap or_none (find_exact_in_later equal c d e cs p h))

  -- The value at a node, between what is found below it and above it.
  join_step :
      (below here above : A)
      → (if blank below then (if blank here then above else here) else below) ≡ (
          if blank (if blank below then here else below)
          then above
          else (if blank below then here else below))
  join_step below here above = ground arith

  mutual
    unfolding find_longest_prefix_entry find_exact_match_entry value_at value_in first_value
        longest_prefix

    lookup_chain :
        (e : Entry C) (name : List C) (up : List (Entry C))
        → first_value (find_longest_prefix_entry equal e name up) ≡ (
            if blank (longest_prefix blank (value_at e) name)
            then first_value up
            else longest_prefix blank (value_at e) name)
    lookup_chain (node n h s cs) [] up = refl
    lookup_chain (node n h s cs) (c ∷ rest) up =
        lookup_in cs (node n h s cs ∷ up) c rest
        ∙ join_step (longest_prefix blank (value_in cs c) rest) (value (node n h s cs))
            (first_value up)

    lookup_in :
        (cs : Children C) (up : List (Entry C)) (c : C) (rest : List C)
        → first_value (find_longest_in equal cs up c rest) ≡ (
            if blank (longest_prefix blank (value_in cs c) rest)
            then first_value up
            else longest_prefix blank (value_in cs c) rest)
    lookup_in nil up c rest = ground (arith, longest_prefix-none rest)
    lookup_in (cons d e cs) up c rest = elim (equal c d) [
      | yes p ↦ rw (value_in_here c d e cs p, if_pos (equal c d) p) (lookup_chain e rest up)
      | no p ↦ rw (value_in_later c d e cs p, if_neg (equal c d) p) (lookup_in cs up c rest)
    ]

  unblank : (r : A) → (if blank r then none_here else r) ≡ r
  unblank r = ground (arith, blank_eq r)

  lookup :
      (e : Entry C) (name : List C)
      → first_value (find_longest_prefix_entry equal e name [])
        ≡ longest_prefix blank (value_at e) name
  unfolding first_value
  lookup e name = lookup_chain e name [] ∙ unblank (longest_prefix blank (value_at e) name)

module _ {C : Type 0} (equal : Discrete C) where
  first_hops-value :
      (up : List (Entry C))
      → first_hops up ≡ first_value equal no_hops [] refl no_hops_eq nexthops up
  unfolding first_hops first_value
  first_hops-value [] = refl
  first_hops-value (e ∷ up) = rw (first_hops-value up)

  first_strategy-value :
      (up : List (Entry C))
      → first_strategy up ≡ first_value equal no_strategy none refl no_strategy_eq strategy up
  unfolding first_strategy first_value
  first_strategy-value [] = refl
  first_strategy-value (e ∷ up) = rw (first_strategy-value up)

module _ {C : Type 0} (equal : Discrete C) where
  hops_at-value :
      (e : Entry C) (name : List C)
      → value_at equal no_hops [] refl no_hops_eq nexthops e name ≡ hops_at equal e name
  unfolding hops_at value_at
  hops_at-value e name = go (find_exact_match_entry equal e name)
    where
      go : (o : Option (Entry C)) → or_none equal no_hops [] refl no_hops_eq nexthops o ≡ hops_of o
      go none = unfold or_none in refl
      go (some x) = unfold or_none in refl

  strategy_at-value :
      (e : Entry C) (name : List C)
      → value_at equal no_strategy none refl no_strategy_eq strategy e name
        ≡ strategy_at equal e name
  unfolding strategy_at value_at
  strategy_at-value e name = go (find_exact_match_entry equal e name)
    where
      go :
          (o : Option (Entry C))
          → or_none equal no_strategy none refl no_strategy_eq strategy o ≡ strategy_of o
      go none = unfold or_none in refl
      go (some x) = unfold or_none in refl

  -- The tree's search for next hops answers with those at the longest prefix of the name that has
  -- any, and with none if there is no such prefix.
  pub tree_next_hops-longest_prefix :
      (f : FibTree C) (name : List C)
      → find_next_hops equal f name ≡ longest_prefix no_hops (hops_at equal f.root) name
  unfolding find_next_hops
  tree_next_hops-longest_prefix f name =
      first_hops-value equal (find_longest_prefix_entry equal f.root name [])
      ∙ lookup equal no_hops [] refl no_hops_eq nexthops f.root name
      ∙ ap (λ g. longest_prefix no_hops g name) (fun_ext (hops_at-value f.root))

  -- The tree's search for the strategy answers with the one set at the longest prefix of the name
  -- where one is set.
  pub tree_strategy-longest_prefix :
      (f : FibTree C) (name : List C)
      → find_strategy equal f name ≡ longest_prefix no_strategy (strategy_at equal f.root) name
  unfolding find_strategy
  tree_strategy-longest_prefix f name =
      first_strategy-value equal (find_longest_prefix_entry equal f.root name [])
      ∙ lookup equal no_strategy none refl no_strategy_eq strategy f.root name
      ∙ ap (λ g. longest_prefix no_strategy g name) (fun_ext (strategy_at-value f.root))
