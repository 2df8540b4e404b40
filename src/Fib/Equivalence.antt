-- ===== src/Fib/Equivalence.antt =====
-- The tree and the hash table answer alike.
use native.Mathlib.Decide.{ℕ_discrete}
use ya_nfd.Prelude.{
  ℕ, suc, ◌<◌, ◌≡◌, refl, sym, ap, ◌∙◌, Option, none, some, List, [], ◌∷◌, length, take, All, arith,
}
use ya_nfd.Fib.Hops.{NextHop, cost_of, SameHops}
use ya_nfd.Fib.Spec.{longest_prefix, no_hops, no_strategy}
use ya_nfd.Fib.Tree
use ya_nfd.Fib.Tree.Lookup.{
  tree_next_hops-longest_prefix as tree_hops, tree_strategy-longest_prefix as tree_strategy,
}
use ya_nfd.Fib.Tree.Prune.{IsTree}
use ya_nfd.Fib.HashTable
use ya_nfd.Fib.HashTable.{NameCodec, IsCodec}
use ya_nfd.Fib.HashTable.Lookup.{NoCollision, IsValid}
use ya_nfd.Fib.HashTable.Search.{
  table_next_hops-longest_prefix as table_hops, table_strategy-longest_prefix as table_strategy,
}
use ya_nfd.Prelude.Assoc
use ya_nfd.Fib.Agreement.{Command, command_name, run_tree, run_table, Agree, run-Agree}

SameHops-no_hops : (l l' : List NextHop) → SameHops l l' → no_hops l ≡ no_hops l'
unfolding cost_of
SameHops-no_hops [] [] s = refl
SameHops-no_hops [] (h ∷ l') s = ground (arith, s h.nexthop)
SameHops-no_hops (h ∷ l) [] s = ground (arith, s h.nexthop)
SameHops-no_hops (h ∷ l) (h' ∷ l') s = refl

module _ {C : Type 0} where
  longest_prefix-SameHops :
      (f g : List C → List NextHop) (name : List C)
      → ((i : ℕ) → SameHops (f (take i name)) (g (take i name)))
      → SameHops (longest_prefix no_hops f name) (longest_prefix no_hops g name)
  unfolding longest_prefix
  longest_prefix-SameHops f g [] s face = s 0 face
  longest_prefix-SameHops f g (c ∷ rest) s face =
      let below = longest_prefix-SameHops (λ p. f (c ∷ p)) (λ p. g (c ∷ p)) rest (λ i. s (suc i)) in
      ground (
        arith,
        s 0 face,
        below face,
        SameHops-no_hops (longest_prefix no_hops (λ p. f (c ∷ p)) rest)
            (longest_prefix no_hops (λ p. g (c ∷ p)) rest) below,
      )

  longest_prefix-cong :
      (f g : List C → Option (List C)) (name : List C)
      → ((i : ℕ) → f (take i name) ≡ g (take i name))
      → longest_prefix no_strategy f name ≡ longest_prefix no_strategy g name
  unfolding longest_prefix
  longest_prefix-cong f g [] s = s 0
  longest_prefix-cong f g (c ∷ rest) s =
      ground
        (arith, s 0, longest_prefix-cong (λ p. f (c ∷ p)) (λ p. g (c ∷ p)) rest (λ i. s (suc i)))

module _ {C : Type 0} (equal : Discrete C) (codec : NameCodec C) (InUse : List C → Type 0)
    (laws : IsCodec codec) (apart : NoCollision codec InUse) where
  new_tree-values :
      (default n : List C)
      → (Tree.hops_at equal (Tree.new_fib_tree default).root n ≡ [])
        × (Tree.strategy_at equal (Tree.new_fib_tree default).root n
            ≡ elim n [ [] ↦ some default | c ∷ r ↦ none ])
  unfolding Tree.new_fib_tree Tree.hops_at Tree.strategy_at Tree.find_exact_match_entry
  new_tree-values default [] = (refl, refl)
  new_tree-values default (c ∷ r) = (refl, refl)

  new_table-values :
      (m : ℕ) (default n : List C)
      → InUse []
      → InUse n
      → (HashTable.hops_at codec (HashTable.new_fib_hash_table codec m default) n ≡ [])
        × (HashTable.strategy_at codec (HashTable.new_fib_hash_table codec m default) n
            ≡ elim n [ [] ↦ some default | c ∷ r ↦ none ])
  unfolding HashTable.new_fib_hash_table HashTable.hops_at HashTable.strategy_at Assoc.get Assoc.put
  new_table-values m default [] root u = ground arith
  new_table-values m default (c ∷ r) root u = ground (arith, other)
    where
      other : codec.hash [] ≡ codec.hash (c ∷ r) → ⊥
      other e = let same : [] ≡ c ∷ r = apart.distinct [] (c ∷ r) root u e in cc

  pub new_table-IsValid :
      (m : ℕ) (default : List C)
      → 0 < m
      → InUse []
      → IsValid codec InUse (HashTable.new_fib_hash_table codec m default)
  unfolding HashTable.new_fib_hash_table Assoc.get Assoc.put
  new_table-IsValid m default pos root = record {
    stored = λ h e p. let (named, key) = only h e p in (rw named root, rw (named, key));
    covered = λ h e p q. absurd (omega (arith, ap (λ n. length n) (only h e p).0));
  }
    where
      only :
          (h : ℕ) (e : HashTable.RealEntry C)
          → Assoc.get ℕ_discrete h (HashTable.new_fib_hash_table codec m default).real_table
            ≡ some e
          → (e.name ≡ []) × (codec.hash [] ≡ h)
      only h e p = ground arith

  new-Agree :
      (m : ℕ) (default : List C)
      → 0 < m
      → InUse []
      → Agree equal codec InUse laws apart
          (Tree.new_fib_tree default)
          (HashTable.new_fib_hash_table codec m default)
  new-Agree m default pos root = record {
    shape = shape;
    valid = new_table-IsValid m default pos root;
    distinct_tree = λ n w. rw (new_tree-values default n).0 tt;
    distinct_table = λ n w. rw (new_table-values m default n root w).0 tt;
    same_hops =
        λ n w f. rw ((new_tree-values default n).0, (new_table-values m default n root w).0);
    same_strategy =
        λ n w. (new_tree-values default n).1 ∙ sym (new_table-values m default n root w).1;
  }
    where
      shape : IsTree equal (Tree.new_fib_tree default).root
      shape = unfold IsTree Tree.new_fib_tree in tt

  -- After the same operations on a new tree and a new hash table, over names in use that the hash
  -- tells apart and with a positive `m`, a lookup of a name in use gives the same cost over every
  -- face, and the same strategy.
  pub lookups-agree :
      (m : ℕ) (default : List C) (cs : List (Command C)) (name : List C)
      → 0 < m
      → InUse []
      → All (λ c. InUse (command_name c)) cs
      → InUse name
      → SameHops
          (Tree.find_next_hops equal (run_tree equal codec (Tree.new_fib_tree default) cs) name)
          (HashTable.find_next_hops codec
            (run_table equal codec (HashTable.new_fib_hash_table codec m default) cs)
            name)
        × (Tree.find_strategy equal (run_tree equal codec (Tree.new_fib_tree default) cs) name
            ≡ HashTable.find_strategy codec
                (run_table equal codec (HashTable.new_fib_hash_table codec m default) cs)
                name)
  lookups-agree m default cs name pos root used here =
      let a = run-Agree equal codec InUse laws apart cs _ _ (new-Agree m default pos root) used in
      let at = λ (i : ℕ). apart.prefixes name i here in
      (
        λ face.
            rw (tree_hops, table_hops codec InUse laws apart _ a.valid name here)
              (longest_prefix-SameHops _ _ name (λ i. a.same_hops (take i name) (at i)) face),
        rw (tree_strategy, table_strategy codec InUse laws apart _ a.valid name here)
            (longest_prefix-cong _ _ name (λ i. a.same_strategy (take i name) (at i))),
      )
