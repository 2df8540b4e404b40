-- ===== src/Fib/Tests.antt =====
-- Concrete tables over names of at most one component, which a small hash tells apart.
use native.Mathlib.Decide.{ℕ_discrete}
use ya_nfd.Prelude.{ℕ, zero, suc, ◌≤◌, ◌≡◌, refl, List, [], ◌∷◌, length, take, arith}
use ya_nfd.Prelude.Assoc
use ya_nfd.Fib.Hops.{put_hop, has_hop, erase_hop, swap_erase_hop, SameHops}
use ya_nfd.Fib.Spec.{longest_prefix, no_hops}
use ya_nfd.Fib.Tree
use ya_nfd.Fib.Tree.{FibTree}
use ya_nfd.Fib.Tree.Lookup.{tree_next_hops-longest_prefix}
use ya_nfd.Fib.Tree.Prune.{IsTree}
use ya_nfd.Fib.HashTable
use ya_nfd.Fib.HashTable.{FibHashTable, NameCodec, IsCodec}
use ya_nfd.Fib.HashTable.Lookup.{NoCollision, IsValid}
use ya_nfd.Fib.HashTable.Search.{table_next_hops-longest_prefix}
use ya_nfd.Fib.HashTable.Operations.{table_insert-Updates}
use ya_nfd.Fib.Agreement.{Command, run_tree, run_table, step_tree, step_table}
use ya_nfd.Fib.Equivalence.{lookups-agree, new_table-IsValid}

abbrev small_hash : List ℕ → ℕ
small_hash [] = 0
small_hash (c ∷ r) = suc c

abbrev small_codec : NameCodec ℕ
small_codec = record {
  hash = small_hash;
  prefix_hash = λ n i. small_hash (take i n);
  bytes = λ n. n;
}

abbrev Short : List ℕ → Type 0
Short n = length n ≤ 1

small_codec-IsCodec : IsCodec small_codec
small_codec-IsCodec = record { prefix_hash-hash = λ name i h. refl; bytes-injective = λ n n' e. e }

take-Short : (n : List ℕ) (i : ℕ) → Short n → Short (take i n)
take-Short n zero h = omega arith
take-Short [] (suc i) h = omega arith
take-Short (c ∷ []) (suc zero) h = omega arith
take-Short (c ∷ []) (suc (suc i)) h = omega arith
take-Short (c ∷ d ∷ r) (suc i) h = absurd (omega arith)

small_hash-distinct : (n n' : List ℕ) → Short n → Short n' → small_hash n ≡ small_hash n' → n ≡ n'
small_hash-distinct [] [] u w e = refl
small_hash-distinct [] (c ∷ r) u w e = absurd (omega arith)
small_hash-distinct (c ∷ r) [] u w e = absurd (omega arith)
small_hash-distinct (c ∷ []) (d ∷ []) u w e = ground arith
small_hash-distinct (c ∷ []) (d ∷ x ∷ r) u w e = absurd (omega arith)
small_hash-distinct (c ∷ x ∷ r) (d ∷ s) u w e = absurd (omega arith)

small_codec-NoCollision : NoCollision small_codec Short
small_codec-NoCollision = record { prefixes = take-Short; distinct = small_hash-distinct }

abbrev commands : List (Command ℕ)
commands =
    Command.insert_next_hop (3 ∷ []) 7 20
    ∷ Command.insert_next_hop (3 ∷ []) 8 10
    ∷ Command.set_strategy (4 ∷ []) (5 ∷ [])
    ∷ Command.remove_next_hop (3 ∷ []) 7
    ∷ []

-- What is unfolded to run the tree, and the hash table.
tree_program : Unit {0}
unfolding step_tree run_tree Tree.new_fib_tree Tree.insert_next_hop Tree.remove_next_hop
    Tree.set_strategy Tree.fill_tree_to_prefix Tree.find_exact_match_entry Tree.new_path
    Tree.update_exact Tree.prune_if_empty Tree.prune_child Tree.is_empty Tree.find_next_hops
    Tree.find_longest_prefix_entry Tree.first_hops put_hop has_hop erase_hop Tree.hops_at Assoc.put
    Assoc.delete ℕ_discrete
tree_program = tt

table_program : Unit {0}
unfolding step_table run_table HashTable.new_fib_hash_table HashTable.insert_next_hop
    HashTable.insert_entry HashTable.insert_real HashTable.insert_virtual HashTable.remove_next_hop
    HashTable.set_strategy HashTable.prune_tables HashTable.prune_virtual HashTable.prune_names
    HashTable.find_next_hops HashTable.bytes_discrete put_hop has_hop swap_erase_hop Assoc.get
    Assoc.put Assoc.delete ℕ_discrete
table_program = tt

abbrev default_strategy : List ℕ
default_strategy = 9 ∷ []

tree_run :
    Tree.find_next_hops ℕ_discrete
      (run_tree ℕ_discrete small_codec (Tree.new_fib_tree default_strategy) commands)
      (3 ∷ [])
    ≡ record { nexthop = 8; cost = 10 } ∷ []
unfolding tree_program
tree_run = refl

table_run :
    HashTable.find_next_hops small_codec
      (run_table ℕ_discrete small_codec
        (HashTable.new_fib_hash_table small_codec 1 default_strategy)
        commands)
      (3 ∷ [])
    ≡ record { nexthop = 8; cost = 10 } ∷ []
unfolding table_program
table_run = refl

abbrev empty_fib : FibTree ℕ
empty_fib = Tree.new_fib_tree default_strategy

abbrev empty_table : FibHashTable ℕ
empty_table = HashTable.new_fib_hash_table small_codec 1 default_strategy

abbrev tree_after : FibTree ℕ
tree_after = run_tree ℕ_discrete small_codec empty_fib commands

abbrev table_after : FibHashTable ℕ
table_after = run_table ℕ_discrete small_codec empty_table commands

lookups-agree_example :
    SameHops
      (Tree.find_next_hops ℕ_discrete tree_after (3 ∷ []))
      (HashTable.find_next_hops small_codec table_after (3 ∷ []))
    × (Tree.find_strategy ℕ_discrete tree_after (3 ∷ [])
        ≡ HashTable.find_strategy small_codec table_after (3 ∷ []))
lookups-agree_example =
    lookups-agree ℕ_discrete small_codec Short small_codec-IsCodec small_codec-NoCollision 1
      default_strategy commands (3 ∷ []) (omega arith) (omega arith) (omega arith) (omega arith)

tree_next_hops-longest_prefix_example :
    Tree.find_next_hops ℕ_discrete tree_after (3 ∷ 4 ∷ [])
    ≡ longest_prefix no_hops (Tree.hops_at ℕ_discrete tree_after.root) (3 ∷ 4 ∷ [])
tree_next_hops-longest_prefix_example =
    tree_next_hops-longest_prefix ℕ_discrete tree_after (3 ∷ 4 ∷ [])

empty_fib-IsTree : IsTree ℕ_discrete empty_fib.root
unfolding IsTree Tree.new_fib_tree
empty_fib-IsTree = tt

empty_table-IsValid : IsValid small_codec Short empty_table
empty_table-IsValid =
    new_table-IsValid ℕ_discrete small_codec Short small_codec-IsCodec small_codec-NoCollision 1
      default_strategy (omega arith) (omega arith)

abbrev table_with_hop : FibHashTable ℕ
table_with_hop = HashTable.insert_next_hop small_codec empty_table (3 ∷ []) 7 20

table_with_hop-IsValid : IsValid small_codec Short table_with_hop
table_with_hop-IsValid =
    (table_insert-Updates ℕ_discrete small_codec Short small_codec-IsCodec small_codec-NoCollision
      empty_table empty_table-IsValid (3 ∷ []) (omega arith) 7 20).valid

table_next_hops-longest_prefix_example :
    HashTable.find_next_hops small_codec table_with_hop (3 ∷ [])
    ≡ longest_prefix no_hops (HashTable.hops_at small_codec table_with_hop) (3 ∷ [])
table_next_hops-longest_prefix_example =
    table_next_hops-longest_prefix small_codec Short small_codec-IsCodec small_codec-NoCollision
      table_with_hop table_with_hop-IsValid (3 ∷ []) (omega arith)
