-- ===== src/Fib/Tree/Shape.antt =====
-- Every update keeps the components of siblings different.
use mathlib.Core.Logic.{ite}
use ya_nfd.Prelude.{◌≡◌, refl, true, false, Option, List, [], ◌∷◌, arith}
use ya_nfd.Fib.Hops.{NextHop}
use ya_nfd.Fib.Tree.{
  Entry, node, Children, nil, cons, new_path, modify, fill_tree_to_prefix, fill_in, update_exact,
  update_exact_in, prune_if_empty, prune_in, prune_child,
}
use ya_nfd.Fib.Tree.Prune.{has_child, IsTree, IsForest}

module _ {C : Type 0} (equal : Discrete C) (nm : Option (List C) → Option (List C))
    (hops : List NextHop → List NextHop) (strat : Option (List C) → Option (List C)) where
  has_child-fill_in :
      (x c : C) (cs : Children C) (rest : List C)
      → has_child equal x (fill_in equal (modify nm hops strat) cs c rest)
        ≡ ite (equal x c) true (has_child equal x cs)
  unfolding has_child fill_tree_to_prefix
  has_child-fill_in x c nil rest = refl
  has_child-fill_in x c (cons d e cs) rest = ground (arith, has_child-fill_in x c cs rest)

  new_path-IsTree : (rest : List C) → IsTree equal (new_path (modify nm hops strat) rest)
  unfolding IsTree new_path has_child
  new_path-IsTree [] = tt
  new_path-IsTree (c ∷ rest) = (refl, new_path-IsTree rest, tt)

  mutual
    unfolding IsTree fill_tree_to_prefix has_child

    pub fill-IsTree :
        (e : Entry C) (name : List C)
        → IsTree equal e
        → IsTree equal (fill_tree_to_prefix equal (modify nm hops strat) e name)
    fill-IsTree (node m h s cs) [] t = t
    fill-IsTree (node m h s cs) (c ∷ rest) t = fill_in-IsForest cs c rest t

    fill_in-IsForest :
        (cs : Children C) (c : C) (rest : List C)
        → IsForest equal cs
        → IsForest equal (fill_in equal (modify nm hops strat) cs c rest)
    fill_in-IsForest nil c rest t = (refl, new_path-IsTree rest, tt)
    fill_in-IsForest (cons d e cs) c rest t = ground (
      arith,
      fill-IsTree e rest t.1,
      fill_in-IsForest cs c rest t.2,
      has_child-fill_in d c cs rest,
    )

  has_child-update_in :
      (x c : C) (cs : Children C) (rest : List C)
      → has_child equal x (update_exact_in equal (modify nm hops strat) cs c rest)
        ≡ has_child equal x cs
  unfolding has_child update_exact
  has_child-update_in x c nil rest = refl
  has_child-update_in x c (cons d e cs) rest = ground (arith, has_child-update_in x c cs rest)

  mutual
    unfolding IsTree update_exact has_child

    pub update-IsTree :
        (e : Entry C) (name : List C)
        → IsTree equal e
        → IsTree equal (update_exact equal (modify nm hops strat) e name)
    update-IsTree (node m h s cs) [] t = t
    update-IsTree (node m h s cs) (c ∷ rest) t = update_in-IsForest cs c rest t

    update_in-IsForest :
        (cs : Children C) (c : C) (rest : List C)
        → IsForest equal cs
        → IsForest equal (update_exact_in equal (modify nm hops strat) cs c rest)
    update_in-IsForest nil c rest t = tt
    update_in-IsForest (cons d e cs) c rest t = ground (
      arith,
      update-IsTree e rest t.1,
      update_in-IsForest cs c rest t.2,
      has_child-update_in d c cs rest,
    )

module _ {C : Type 0} (equal : Discrete C) where
  has_child-prune_in :
      (x c : C) (cs : Children C) (rest : List C)
      → has_child equal x cs ≡ false
      → has_child equal x (prune_in equal cs c rest).0 ≡ false
  unfolding has_child prune_if_empty prune_child
  has_child-prune_in x c nil rest h = refl
  has_child-prune_in x c (cons d e cs) [] h = ground (arith, has_child-prune_in x c cs [])
  has_child-prune_in x c (cons d e cs) (y ∷ rest) h =
      ground (arith, has_child-prune_in x c cs (y ∷ rest))

  mutual
    unfolding IsTree prune_if_empty prune_child has_child

    pub prune-IsTree :
        (e : Entry C) (name : List C)
        → IsTree equal e
        → IsTree equal (prune_if_empty equal e name).0
    prune-IsTree (node m h s cs) [] t = t
    prune-IsTree (node m h s cs) (c ∷ rest) t = prune_in-IsForest cs c rest t

    prune_in-IsForest :
        (cs : Children C) (c : C) (rest : List C)
        → IsForest equal cs
        → IsForest equal (prune_in equal cs c rest).0
    prune_in-IsForest nil c rest t = tt
    prune_in-IsForest (cons d e cs) c [] t =
        ground (
          arith,
          prune-IsTree e [] t.1,
          prune_in-IsForest cs c [] t.2,
          has_child-prune_in d c cs [],
        )
    prune_in-IsForest (cons d e cs) c (y ∷ rest) t = ground (
      arith,
      prune-IsTree e (y ∷ rest) t.1,
      prune_in-IsForest cs c (y ∷ rest) t.2,
      has_child-prune_in d c cs (y ∷ rest),
    )
