-- ===== src/DeadNonceList/Tests.antt =====
-- Runs of the Dead Nonce List, and its theorems at them.
use native.Mathlib.Decide.{ℕ_discrete}
use ya_nfd.Prelude.{
  ℕ, zero, suc, ◌+◌, ◌-◌, ◌^◌, ◌≤◌, ◌≡◌, refl, true, none, some, List, [], ◌∷◌, length, ◌==◌,
  if◌then◌else◌, ◌⊎◌, arith,
}
use ya_nfd.Prelude.Assoc
use ya_nfd.Heap
use ya_nfd.Heap.{Item, key, up, up_loop, down, down_loop, less, swap, smaller_child, fix}
use ya_nfd.Heap.Arrays.{count, one_if}
use ya_nfd.PriorityQueue
use ya_nfd.PriorityQueue.Order.{
  IsOrdered, IsServed, pop-IsServed, IsPushed, push-IsPushed, IsUpdated, update-IsUpdated,
}
use ya_nfd.Packets.{Name}
use ya_nfd.Fw.Tables.{IsDeadNonceList}
use ya_nfd.DeadNonceList.{
  DeadNonceList, new_dead_nonce_list, has_hash, nonce_hash, find, insert, has_expired, remove_front,
  remove_expired_loop, remove_expired_entries, nonce_table,
}
use ya_nfd.DeadNonceList.Known.{
  IsConsistent, new_dead_nonce_list-IsConsistent, has_hash-insert, insert-IsConsistent,
  nonce_table-IsDeadNonceList,
}
use ya_nfd.DeadNonceList.Sweep.{
  expires_before, lasts, remove_expired_entries-IsConsistent, remove_expired_entries_lem,
}

program : Unit {0}
unfolding new_dead_nonce_list has_hash nonce_hash find insert has_expired remove_front
    remove_expired_loop remove_expired_entries PriorityQueue.push PriorityQueue.pop
    PriorityQueue.peek PriorityQueue.peek_priority PriorityQueue.update Heap.push Heap.pop key up
    up_loop down down_loop swap smaller_child fix Assoc.get Assoc.put Assoc.delete ℕ_discrete
program = tt

abbrev item : ℕ → ℕ → Item ℕ
item v p = record { object = v; priority = p }

abbrev three : List (Item ℕ)
three = item 10 1 ∷ item 20 4 ∷ item 30 2 ∷ []

three-IsOrdered : IsOrdered three
unfolding key
three-IsOrdered zero p q = absurd (omega arith)
three-IsOrdered (suc zero) p q = omega arith
three-IsOrdered (suc (suc zero)) p q = omega arith
three-IsOrdered (suc (suc (suc c))) p q = absurd (omega arith)

three_popped : PriorityQueue.pop three ≡ some (10, item 30 2 ∷ item 20 4 ∷ [])
unfolding program
three_popped = refl

three_pushed :
    PriorityQueue.push three 40 0 ≡ (item 40 0 ∷ item 10 1 ∷ item 30 2 ∷ item 20 4 ∷ [], 0)
unfolding program
three_pushed = refl

three_updated : PriorityQueue.update three 0 11 3 ≡ (item 30 2 ∷ item 20 4 ∷ item 11 3 ∷ [], some 2)
unfolding program
three_updated = refl

pop-IsServed_example : (x : Item ℕ) × (r : List (Item ℕ)) × IsServed three x r
pop-IsServed_example = pop-IsServed three (omega arith) three-IsOrdered

push-IsPushed_example :
    IsPushed three (item 40 0) (PriorityQueue.push three 40 0).0 (PriorityQueue.push three 40 0).1
push-IsPushed_example = push-IsPushed three 40 0 three-IsOrdered

update-IsUpdated_example :
    ((3 ≤ 0) × (PriorityQueue.update three 0 11 3 ≡ (three, none)))
    ⊎ (r : List (Item ℕ)) × (j : ℕ) × (PriorityQueue.update three 0 11 3 ≡ (r, some j))
      × IsUpdated three 0 (item 11 3) r j
update-IsUpdated_example = update-IsUpdated three 0 11 3 three-IsOrdered

-- A hash that tells names by their length.
abbrev name_hash : Name → ℕ
name_hash n = 2 ^ 64 - 1 + length n

abbrev lifetime : ℕ
lifetime = 6_000

-- Two insertions, at 100 and at 200, whose hashes are 6 and 7.
abbrev two_nonces : DeadNonceList
two_nonces =
    (insert name_hash lifetime 200 (insert name_hash lifetime 100 new_dead_nonce_list [] 7).0 []
      8).0

two_nonces-IsConsistent : IsConsistent two_nonces
two_nonces-IsConsistent =
    insert-IsConsistent name_hash lifetime 200
      (insert name_hash lifetime 100 new_dead_nonce_list [] 7).0 [] 8
      (insert-IsConsistent name_hash lifetime 100 new_dead_nonce_list [] 7
        new_dead_nonce_list-IsConsistent)

two_nonces_swept :
    remove_expired_entries (λ j. 6_150) two_nonces
    ≡ record { list = (7, true) ∷ []; expiration_queue = item 7 6_200 ∷ [] }
unfolding program
two_nonces_swept = refl

has_hash-insert_example :
    has_hash (insert name_hash lifetime 300 two_nonces [] 9).0 6
    ≡ (if 6 == nonce_hash name_hash [] 9 then true else has_hash two_nonces 6)
has_hash-insert_example = has_hash-insert name_hash lifetime 300 two_nonces [] 9 6

insert-IsConsistent_example : IsConsistent (insert name_hash lifetime 300 two_nonces [] 9).0
insert-IsConsistent_example =
    insert-IsConsistent name_hash lifetime 300 two_nonces [] 9 two_nonces-IsConsistent

nonce_table-IsDeadNonceList_example : IsDeadNonceList (nonce_table name_hash lifetime 300)
nonce_table-IsDeadNonceList_example = nonce_table-IsDeadNonceList name_hash lifetime 300

remove_expired_entries-IsConsistent_example :
    IsConsistent (remove_expired_entries (λ j. 6_150) two_nonces)
remove_expired_entries-IsConsistent_example =
    remove_expired_entries-IsConsistent (λ j. 6_150) two_nonces two_nonces-IsConsistent

remove_expired_entries_lem_example :
    IsConsistent (remove_expired_entries (λ j. 6_150) two_nonces)
    × (count
          (expires_before 6_150)
          (remove_expired_entries (λ j. 6_150) two_nonces).expiration_queue
        ≡ count (expires_before 6_150) two_nonces.expiration_queue - 100)
    × (count (lasts 6_160 7) two_nonces.expiration_queue
        ≤ one_if (has_hash (remove_expired_entries (λ j. 6_150) two_nonces) 7))
    × (one_if (has_hash (remove_expired_entries (λ j. 6_150) two_nonces) 7)
        ≤ count (lasts 6_150 7) two_nonces.expiration_queue
          + (count (expires_before 6_150) two_nonces.expiration_queue - 100))
remove_expired_entries_lem_example =
    remove_expired_entries_lem (λ j. 6_150) two_nonces 6_150 6_160 7 two_nonces-IsConsistent
      (λ j p. (omega arith, omega arith))
