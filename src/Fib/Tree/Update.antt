-- ===== src/Fib/Tree/Update.antt =====
-- What the tree's updates do to the values at exact names.
use ya_nfd.Prelude.{◌≡◌, refl, Option, none, some, List, [], ◌∷◌, if◌then◌else◌, arith}
use ya_nfd.Name.{same_name}
use ya_nfd.Fib.Hops.{NextHop}
use ya_nfd.Fib.Tree.{
  Entry, node, Children, nil, cons, new_path, modify, find_exact_match_entry, find_exact_in,
  fill_tree_to_prefix, fill_in, update_exact, update_exact_in,
}

-- What lookups read of a node: its next hops and its strategy.
abbrev pub Info : Type 0 → Type 0
Info C = List NextHop × Option (List C)

module _ {C : Type 0} where
  unfoldable pub info_of : Option (Entry C) → Info C
  info_of none = ([], none)
  info_of (some (node n h s cs)) = (h, s)

module _ {C : Type 0} (equal : Discrete C) (nm : Option (List C) → Option (List C))
    (hops : List NextHop → List NextHop) (strat : Option (List C) → Option (List C)) where
  abbrev pub change : Info C → Info C
  change (h, s) = (hops h, strat s)

  new_path-view :
      (rest n : List C)
      → info_of (find_exact_match_entry equal (new_path (modify nm hops strat) rest) n)
        ≡ (if same_name equal n rest then change ([], none) else ([], none))
  unfolding new_path find_exact_match_entry same_name info_of
  new_path-view [] [] = refl
  new_path-view [] (x ∷ xs) = refl
  new_path-view (c ∷ rest) [] = refl
  new_path-view (c ∷ rest) (x ∷ xs) = ground (arith, new_path-view rest xs)

  mutual
    unfolding fill_tree_to_prefix find_exact_match_entry same_name info_of

    -- Filling down to a name and changing the node there changes the value at that name alone.
    pub fill-view :
        (e : Entry C) (name n : List C)
        → info_of (
            find_exact_match_entry equal
              (fill_tree_to_prefix equal (modify nm hops strat) e name)
              n)
          ≡ (if same_name equal n name
              then change (info_of (find_exact_match_entry equal e n))
              else info_of (find_exact_match_entry equal e n))
    fill-view (node m h s cs) [] [] = refl
    fill-view (node m h s cs) [] (x ∷ xs) = refl
    fill-view (node m h s cs) (c ∷ rest) [] = refl
    fill-view (node m h s cs) (c ∷ rest) (x ∷ xs) = fill_in-view cs c rest x xs

    fill_in-view :
        (cs : Children C) (c : C) (rest : List C) (x : C) (xs : List C)
        → info_of (find_exact_in equal (fill_in equal (modify nm hops strat) cs c rest) x xs) ≡ (
            if same_name equal (x ∷ xs) (c ∷ rest)
            then change (info_of (find_exact_in equal cs x xs))
            else info_of (find_exact_in equal cs x xs))
    fill_in-view nil c rest x xs = ground (arith, new_path-view rest xs)
    fill_in-view (cons d e cs) c rest x xs =
        ground (arith, fill-view e rest xs, fill_in-view cs c rest x xs)

  -- Changing the node at a name, where there is one. A change that leaves the blank value blank is
  -- thereby made at every name that equals this one.
  mutual
    unfolding update_exact find_exact_match_entry same_name info_of

    pub update-view :
        (e : Entry C) (name n : List C)
        → hops [] ≡ []
        → strat none ≡ none
        → info_of
            (find_exact_match_entry equal (update_exact equal (modify nm hops strat) e name) n)
          ≡ (if same_name equal n name
              then change (info_of (find_exact_match_entry equal e n))
              else info_of (find_exact_match_entry equal e n))
    update-view (node m h s cs) [] [] p q = refl
    update-view (node m h s cs) [] (x ∷ xs) p q = refl
    update-view (node m h s cs) (c ∷ rest) [] p q = refl
    update-view (node m h s cs) (c ∷ rest) (x ∷ xs) p q = update_in-view cs c rest x xs p q

    update_in-view :
        (cs : Children C) (c : C) (rest : List C) (x : C) (xs : List C)
        → hops [] ≡ []
        → strat none ≡ none
        → info_of
            (find_exact_in equal (update_exact_in equal (modify nm hops strat) cs c rest) x xs)
          ≡ (if same_name equal (x ∷ xs) (c ∷ rest)
              then change (info_of (find_exact_in equal cs x xs))
              else info_of (find_exact_in equal cs x xs))
    update_in-view nil c rest x xs p q = ground arith
    update_in-view (cons d e cs) c rest x xs p q =
        ground (arith, update-view e rest xs, update_in-view cs c rest x xs)
