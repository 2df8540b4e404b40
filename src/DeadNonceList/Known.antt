-- ===== src/DeadNonceList/Known.antt =====
-- A nonce that was inserted is found, and the map and the queue hold the same hashes.
use native.Mathlib.Decide.{ℕ_discrete}
use ya_nfd.Prelude.{ℕ, ◌+◌, ◌≡◌, refl, Bool, true, ◌==◌, if◌then◌else◌, arith, Bool-cases, inl, inr}
use ya_nfd.Prelude.Assoc
use ya_nfd.Prelude.Assoc.{get-put, get-delete}
use ya_nfd.Packets.{Name}
use ya_nfd.Heap.{Item}
use ya_nfd.Heap.Arrays.{count, one_if}
use ya_nfd.PriorityQueue.Order.{IsOrdered, push-IsPushed}
use ya_nfd.Fw.Tables.{IsDeadNonceList}
use ya_nfd.DeadNonceList.{
  DeadNonceList, new_dead_nonce_list, has_hash, nonce_hash, find, insert, nonce_table,
}

abbrev pub of_hash : ℕ → Item ℕ → Bool
of_hash h x = x.object == h

-- The queue is in order, and has one item for each hash of the map and none for another.
pub record IsConsistent (d : DeadNonceList) : Type 0 where
  pub ordered : IsOrdered d.expiration_queue
  pub matching : (h : ℕ) → count (of_hash h) d.expiration_queue ≡ one_if (has_hash d h)

pub new_dead_nonce_list-IsConsistent : IsConsistent new_dead_nonce_list
unfolding new_dead_nonce_list has_hash count Assoc.get
new_dead_nonce_list-IsConsistent = record {
  ordered = λ c p q. absurd (omega arith);
  matching = λ h. refl;
}

module _ (hash : Name → ℕ) (lifetime now : ℕ) (d : DeadNonceList) (name : Name) (nonce : ℕ) where
  -- After an insertion its own hash is there, and each other one if it was before.
  pub has_hash-insert :
      (h : ℕ)
      → has_hash (insert hash lifetime now d name nonce).0 h
        ≡ (if h == nonce_hash hash name nonce then true else has_hash d h)
  unfolding insert has_hash
  has_hash-insert h = ground (arith, get-put ℕ_discrete (nonce_hash hash name nonce) h true d.list)

  -- An insertion keeps the map and the queue in step.
  pub insert-IsConsistent : IsConsistent d → IsConsistent (insert hash lifetime now d name nonce).0
  unfolding insert
  insert-IsConsistent v =
      let h = nonce_hash hash name nonce in
      elim (Bool-cases (has_hash d h)) [
        | inl there ↦ rw (there, insert) v
        | inr absent ↦
            let s = push-IsPushed d.expiration_queue h (now + lifetime) v.ordered in
            rw (absent, insert)
              (record {
                ordered = s.ordered;
                matching = λ j. ground (arith, s.kept (of_hash j), v.matching j, has_hash-insert j);
              })
      ]

-- The map gives the forwarding threads what they ask of a Dead Nonce List.
pub nonce_table-IsDeadNonceList :
    (hash : Name → ℕ) (lifetime now : ℕ) → IsDeadNonceList (nonce_table hash lifetime now)
unfolding find
nonce_table-IsDeadNonceList hash lifetime now = record {
  find-insert =
      λ d n k. ground (arith, has_hash-insert hash lifetime now d n k (nonce_hash hash n k));
  insert-keeps =
      λ d n m k l f. ground (arith, has_hash-insert hash lifetime now d m l (nonce_hash hash n k));
}
