-- ===== src/DeadNonceList.antt =====
-- table/dead-nonce-list.go: a map of hashes, and a queue of them by the time at which they expire.
-- `Name.Hash` of the codec package, the clock and `deadNonceListLifetime` are parameters.
pub mod Sweep
pub mod Known
mod Tests
use native.Mathlib.Decide.{ℕ_discrete}
use ya_nfd.Prelude.{
  ℕ, zero, suc, ◌+◌, ◌%◌, ◌^◌, Bool, true, false, ◌&&◌, Option, none, some, List, [], length, ltb,
  if◌then◌else◌,
}
use ya_nfd.Prelude.Assoc
use ya_nfd.Packets.{Name}
use ya_nfd.Heap.{Item}
use ya_nfd.PriorityQueue
use ya_nfd.Fw.Tables

pub record DeadNonceList : Type 0 where
  pub list : List (ℕ × Bool)
  pub expiration_queue : List (Item ℕ)

unfoldable pub new_dead_nonce_list : DeadNonceList
new_dead_nonce_list = record { list = []; expiration_queue = PriorityQueue.empty }

-- `_, ok := d.list[hash]`
unfoldable pub has_hash : DeadNonceList → ℕ → Bool
has_hash d h = elim (Assoc.get ℕ_discrete h d.list) [ none ↦ false | some b ↦ true ]

module _ (hash : Name → ℕ) where
  -- The sum is one of 64-bit numbers.
  unfoldable pub nonce_hash : Name → ℕ → ℕ
  nonce_hash name nonce = (hash name + nonce) % 2 ^ 64

  unfoldable pub find : DeadNonceList → Name → ℕ → Bool
  find d name nonce = has_hash d (nonce_hash name nonce)

  -- `now` is the reading of the clock, and the result says whether the hash was there.
  unfoldable pub insert : ℕ → ℕ → DeadNonceList → Name → ℕ → DeadNonceList × Bool
  insert lifetime now d name nonce =
      let h = nonce_hash name nonce in
      let exists = has_hash d h in
      let grown : DeadNonceList = record {
        list = Assoc.put ℕ_discrete h true d.list;
        expiration_queue = (PriorityQueue.push d.expiration_queue h (now + lifetime)).0;
      } in
      (if exists then d else grown, exists)

-- The condition of the loop of `RemoveExpiredEntries`.
unfoldable pub has_expired : List (Item ℕ) → ℕ → Bool
has_expired q now = elim (PriorityQueue.peek_priority q) [
  | none ↦ false
  | some p ↦ ltb 0 (length q) && ltb p now
]

-- Its body: the pop, and the deletion.
unfoldable pub remove_front : DeadNonceList → DeadNonceList
remove_front d = elim (PriorityQueue.pop d.expiration_queue) [
  | none ↦ d
  | some (h, q) ↦ record { list = Assoc.delete ℕ_discrete h d.list; expiration_queue = q }
]

-- The loop, with `k` evictions left to it and what the clock reads before each.
unfoldable pub remove_expired_loop : ℕ → (ℕ → ℕ) → DeadNonceList → DeadNonceList
remove_expired_loop zero clock d = d
remove_expired_loop (suc k) clock d =
    let rest = remove_expired_loop k clock (remove_front d) in
    if has_expired d.expiration_queue (clock k) then rest else d

unfoldable pub remove_expired_entries : (ℕ → ℕ) → DeadNonceList → DeadNonceList
remove_expired_entries clock d = remove_expired_loop 100 clock d

-- What the forwarding threads see of the list.
abbrev pub nonce_table : (Name → ℕ) → ℕ → ℕ → Tables.DeadNonceList DeadNonceList
nonce_table hash lifetime now = record {
  find = find hash;
  insert = λ d name nonce. (insert hash lifetime now d name nonce).0;
}
