-- ===== src/Fib/Tree/Prune.antt =====
-- Pruning changes no value, and the siblings of a tree keep different components.
use mathlib.Core.Logic.{ite}
use ya_nfd.Prelude.{◌≡◌, refl, Bool, true, false, none, List, [], ◌∷◌, arith}
use ya_nfd.Fib.Tree.{
  Entry, node, Children, nil, cons, is_empty, find_exact_match_entry, find_exact_in, prune_if_empty,
  prune_in, prune_child,
}
use ya_nfd.Fib.Tree.Update.{info_of}

module _ {C : Type 0} (equal : Discrete C) where
  unfoldable pub has_child : C → Children C → Bool
  has_child c nil = false
  has_child c (cons d e cs) = ite (equal c d) true (has_child c cs)

  unfoldable mutual
    -- No two siblings have the same component.
    pub IsTree : Entry C → Type 0
    IsTree (node n h s cs) = IsForest cs

    pub IsForest : Children C → Type 0
    IsForest nil = Unit
    IsForest (cons d e cs) = (has_child d cs ≡ false) × IsTree e × IsForest cs

  find_exact_in_absent :
      (cs : Children C) (c : C) (n : List C)
      → has_child c cs ≡ false
      → find_exact_in equal cs c n ≡ none
  unfolding has_child find_exact_match_entry
  find_exact_in_absent nil c n h = refl
  find_exact_in_absent (cons d e cs) c n h = ground (arith, find_exact_in_absent cs c n)

  -- An empty node and all names below it carry nothing.
  empty-view :
      (e : Entry C) (n : List C)
      → is_empty e ≡ true
      → info_of (find_exact_match_entry equal e n) ≡ ([], none)
  unfolding is_empty find_exact_match_entry info_of
  empty-view (node m h s nil) [] p = ground arith
  empty-view (node m h s nil) (x ∷ xs) p = refl
  empty-view (node m h s (cons d e cs)) n p = cc

  mutual
    unfolding prune_if_empty prune_child find_exact_match_entry IsTree info_of

    pub prune-view :
        (e : Entry C) (name n : List C)
        → IsTree e
        → info_of (find_exact_match_entry equal (prune_if_empty equal e name).0 n)
          ≡ info_of (find_exact_match_entry equal e n)
    prune-view (node m h s cs) [] n t = refl
    prune-view (node m h s cs) (c ∷ rest) [] t = refl
    prune-view (node m h s cs) (c ∷ rest) (x ∷ xs) t = prune_in-view cs c rest x xs t

    prune_in-view :
        (cs : Children C) (c : C) (rest : List C) (x : C) (xs : List C)
        → IsForest cs
        → info_of (find_exact_in equal (prune_in equal cs c rest).0 x xs)
          ≡ info_of (find_exact_in equal cs x xs)
    prune_in-view nil c rest x xs t = refl
    prune_in-view (cons d e cs) c [] x xs t = ground (
      arith,
      prune-view e [] xs,
      prune_in-view cs c [] x xs,
      empty-view e xs,
      find_exact_in_absent cs d xs,
    )
    prune_in-view (cons d e cs) c (y ∷ rest) x xs t =
        ground (arith, prune-view e (y ∷ rest) xs, prune_in-view cs c (y ∷ rest) x xs)
