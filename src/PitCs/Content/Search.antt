-- ===== src/PitCs/Content/Search.antt =====
-- The search below a node of table/pit-cs-tree.go without the tree: the first acceptable one among
-- the entries of the nodes below it.
use ya_nfd.Prelude.{
  ℕ, suc, ◌≤◌, ◌≡◌, refl, true, Option, none, some, List, [], ◌∷◌, ◌++◌, length, leb, arith,
}
use ya_nfd.Packets.{Interest}
use ya_nfd.PitCs.{NameTreeCsEntry, PitCsTree}
use ya_nfd.PitCs.Tree.{Slot, Node, node, Children, nil, cons}
use ya_nfd.PitCs.Content.{acceptable, find_matching_data_cs_prefix, find_matching_in}

-- The nodes below a node, itself first, then those below each child.
unfoldable mutual
  pub subtree : Node → List Slot
  subtree (node t cs) = t ∷ subtrees cs

  pub subtrees : Children → List Slot
  subtrees nil = []
  subtrees (cons c n cs) = subtree n ++ subtrees cs

module _ (s : PitCsTree) (now : ℕ) (interest : Interest) where
  unfoldable pub first_acceptable : List Slot → Option NameTreeCsEntry
  first_acceptable [] = none
  first_acceptable (t ∷ ts) = elim (acceptable s now interest t.cs_entry) [
    | some x ↦ some x
    | none ↦ first_acceptable ts
  ]

  first_acceptable-append :
      (ts us : List Slot)
      → first_acceptable (ts ++ us)
        ≡ elim (first_acceptable ts) [ some x ↦ some x | none ↦ first_acceptable us ]
  unfolding first_acceptable
  first_acceptable-append [] us = refl
  first_acceptable-append (t ∷ ts) us = ground (arith, first_acceptable-append ts us)

  mutual
    unfolding subtree first_acceptable find_matching_data_cs_prefix

    search :
        (depth : ℕ) (n : Node)
        → length interest.name ≤ depth
        → find_matching_data_cs_prefix s now interest depth n ≡ first_acceptable (subtree n)
    search depth (node t cs) l =
        let deep : leb (length interest.name) depth ≡ true = ground arith in
        ground (arith, search_in (suc depth) cs)

    search_in :
        (depth : ℕ) (cs : Children)
        → length interest.name ≤ depth
        → find_matching_in s now interest depth cs ≡ first_acceptable (subtrees cs)
    search_in depth nil l = refl
    search_in depth (cons c n cs) l = ground (
      arith,
      search depth n l,
      search_in depth cs l,
      first_acceptable-append (subtree n) (subtrees cs),
    )

-- At a node no shallower than the Interest's name is long, the search finds the first acceptable
-- entry of the nodes below it, and nothing only if there is none.
pub find_matching_data_cs_prefix-first_acceptable :
    (s : PitCsTree) (now : ℕ) (interest : Interest) (depth : ℕ) (n : Node)
    → length interest.name ≤ depth
    → find_matching_data_cs_prefix s now interest depth n
      ≡ first_acceptable s now interest (subtree n)
find_matching_data_cs_prefix-first_acceptable s now interest depth n l =
    search s now interest depth n l
