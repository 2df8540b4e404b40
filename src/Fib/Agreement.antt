-- ===== src/Fib/Agreement.antt =====
-- The same operations on the tree and on the hash table, and the agreement that they keep.
use ya_nfd.Prelude.{ℕ, ◌≡◌, refl, Option, none, some, List, [], ◌∷◌, All, arith}
use ya_nfd.Fib.Hops.{
  NextHop, put_hop, erase_hop, swap_erase_hop, Distinct, SameHops, cost_of-put_hop,
  cost_of-erase_hop, put_hop-Distinct, erase_hop-Distinct,
}
use ya_nfd.Fib.Rotate.{cost_of-swap_erase_hop, swap_erase_hop-Distinct}
use ya_nfd.Fib.Tree
use ya_nfd.Fib.Tree.{FibTree}
use ya_nfd.Fib.Tree.Prune.{IsTree}
use ya_nfd.Fib.Tree.Operations.{
  tree_insert-Updates as insert_tree, tree_clear-Updates as clear_tree,
  tree_remove-Updates as remove_tree, tree_set-Updates as set_tree,
  tree_unset-Updates as unset_tree,
}
use ya_nfd.Fib.HashTable
use ya_nfd.Fib.HashTable.{FibHashTable, NameCodec, IsCodec}
use ya_nfd.Fib.HashTable.Operations.{
  table_insert-Updates as insert_table, table_clear-Updates as clear_table,
  table_remove-Updates as remove_table, table_set-Updates as set_table,
  table_unset-Updates as unset_table,
}
use ya_nfd.Fib.HashTable.Lookup.{NoCollision, IsValid}

-- The operations of the interface `FibStrategy` that change a table.
pub data Command (C : Type 0) : Type 0 where
  insert_next_hop : List C → ℕ → ℕ → Command C
  clear_next_hops : List C → Command C
  remove_next_hop : List C → ℕ → Command C
  set_strategy : List C → List C → Command C
  unset_strategy : List C → Command C

module _ {C : Type 0} where
  abbrev pub command_name : Command C → List C
  command_name (insert_next_hop n face cost) = n
  command_name (clear_next_hops n) = n
  command_name (remove_next_hop n face) = n
  command_name (set_strategy n s) = n
  command_name (unset_strategy n) = n

module _ {C : Type 0} (equal : Discrete C) (codec : NameCodec C) where
  unfoldable pub step_tree : FibTree C → Command C → FibTree C
  step_tree f (insert_next_hop n face cost) = Tree.insert_next_hop equal codec.hash f n face cost
  step_tree f (clear_next_hops n) = Tree.clear_next_hops equal codec.hash f (some n)
  step_tree f (remove_next_hop n face) = Tree.remove_next_hop equal codec.hash f n face
  step_tree f (set_strategy n s) = Tree.set_strategy equal codec.hash f n (some s)
  step_tree f (unset_strategy n) = Tree.unset_strategy equal codec.hash f n

  unfoldable pub step_table : FibHashTable C → Command C → FibHashTable C
  step_table f (insert_next_hop n face cost) = HashTable.insert_next_hop codec f n face cost
  step_table f (clear_next_hops n) = HashTable.clear_next_hops codec f n
  step_table f (remove_next_hop n face) = HashTable.remove_next_hop codec f n face
  step_table f (set_strategy n s) = HashTable.set_strategy codec f n (some s)
  step_table f (unset_strategy n) = HashTable.unset_strategy codec f n

  unfoldable pub run_tree : FibTree C → List (Command C) → FibTree C
  run_tree f [] = f
  run_tree f (c ∷ cs) = run_tree (step_tree f c) cs

  unfoldable pub run_table : FibHashTable C → List (Command C) → FibHashTable C
  run_table f [] = f
  run_table f (c ∷ cs) = run_table (step_table f c) cs

  module _ (InUse : List C → Type 0) (laws : IsCodec codec) (apart : NoCollision codec InUse) where
    -- Both are well formed, and hold the same at every name in use.
    pub record Agree (t : FibTree C) (h : FibHashTable C) : Type 0 where
      pub shape : IsTree equal t.root
      pub valid : IsValid codec InUse h
      pub distinct_tree : (n : List C) → InUse n → Distinct (Tree.hops_at equal t.root n)
      pub distinct_table : (n : List C) → InUse n → Distinct (HashTable.hops_at codec h n)
      pub same_hops :
          (n : List C)
          → InUse n
          → SameHops (Tree.hops_at equal t.root n) (HashTable.hops_at codec h n)
      pub same_strategy :
          (n : List C) → InUse n → Tree.strategy_at equal t.root n ≡ HashTable.strategy_at codec h n

    -- Updates that agree in what they do to the values keep the agreement.
    update-Agree :
        (t t' : FibTree C) (h h' : FibHashTable C) (name : List C)
        (hops hops' : List NextHop → List NextHop) (strat : Option (List C) → Option (List C))
        → Agree t h
        → Tree.Operations.Updates equal t t' name hops strat
        → HashTable.Operations.Updates equal codec InUse laws apart h h' name hops' strat
        → ((l : List NextHop) → Distinct l → Distinct (hops l))
        → ((l : List NextHop) → Distinct l → Distinct (hops' l))
        → ((l l' : List NextHop)
            → Distinct l
            → Distinct l'
            → SameHops l l'
            → SameHops (hops l) (hops' l'))
        → Agree t' h'
    update-Agree t t' h h' name hops hops' strat a u u' keep keep' same = record {
      shape = u.shape;
      valid = u'.valid;
      distinct_tree = λ n w.
          ground (arith, u.hops_after n, keep (Tree.hops_at equal t.root n), a.distinct_tree n w);
      distinct_table = λ n w.
          ground
            (arith, u'.hops_after n, keep' (HashTable.hops_at codec h n), a.distinct_table n w);
      same_hops = λ n w face. ground (
        arith,
        u.hops_after n,
        u'.hops_after n w,
        a.same_hops n w face,
        same (Tree.hops_at equal t.root n) (HashTable.hops_at codec h n) (a.distinct_tree n w)
            (a.distinct_table n w) (a.same_hops n w) face,
      );
      same_strategy =
          λ n w. ground (arith, u.strategy_after n, u'.strategy_after n w, a.same_strategy n w);
    }

    step-Agree :
        (t : FibTree C) (h : FibHashTable C) (c : Command C)
        → Agree t h
        → InUse (command_name c)
        → Agree (step_tree t c) (step_table h c)
    unfolding step_tree step_table
    step-Agree t h (insert_next_hop n face cost) a u =
        update-Agree t _ h _ n (put_hop face cost) (put_hop face cost) (λ s. s) a
          (insert_tree equal codec.hash t a.shape n face cost)
          (insert_table equal codec InUse laws apart h a.valid n u face cost)
          (put_hop-Distinct face cost) (put_hop-Distinct face cost)
          (λ l l' d d' same f.
            ground (arith, cost_of-put_hop f face cost l, cost_of-put_hop f face cost l', same f))
    step-Agree t h (clear_next_hops n) a u =
        update-Agree t _ h _ n (λ l. []) (λ l. []) (λ s. s) a
          (clear_tree equal codec.hash t a.shape n)
          (clear_table equal codec InUse laws apart h a.valid n u) (λ l d. tt) (λ l d. tt)
          (λ l l' d d' same f. refl)
    step-Agree t h (remove_next_hop n face) a u =
        update-Agree t _ h _ n (erase_hop face) (swap_erase_hop face) (λ s. s) a
          (remove_tree equal codec.hash t a.shape n face)
          (remove_table equal codec InUse laws apart h a.valid n u face) (erase_hop-Distinct face)
          (swap_erase_hop-Distinct face)
          (λ l l' d d' same f.
            ground
              (arith, cost_of-erase_hop f face l d, cost_of-swap_erase_hop f face l' d', same f))
    step-Agree t h (set_strategy n s) a u =
        update-Agree t _ h _ n (λ l. l) (λ l. l) (λ _. some s) a
          (set_tree equal codec.hash t a.shape n (some s))
          (set_table equal codec InUse laws apart h a.valid n u (some s)) (λ l d. d) (λ l d. d)
          (λ l l' d d' same. same)
    step-Agree t h (unset_strategy n) a u =
        update-Agree t _ h _ n (λ l. l) (λ l. l) (λ _. none) a
          (unset_tree equal codec.hash t a.shape n)
          (unset_table equal codec InUse laws apart h a.valid n u) (λ l d. d) (λ l d. d)
          (λ l l' d d' same. same)

    pub run-Agree :
        (cs : List (Command C)) (t : FibTree C) (h : FibHashTable C)
        → Agree t h
        → All (λ c. InUse (command_name c)) cs
        → Agree (run_tree t cs) (run_table h cs)
    unfolding run_tree run_table
    run-Agree [] t h a u = a
    run-Agree (c ∷ cs) t h a (u, us) =
        run-Agree cs (step_tree t c) (step_table h c) (step-Agree t h c a u) us
