-- ===== src/Fw/Dispatch.antt =====
-- Which forwarding threads receive a packet: fw/thread.go, HashNameToFwThread and
-- HashNameToAllPrefixFwThreads, dispatch/fw.go and the Data case of face/link-service.go. There are
-- `n` threads, numbered from 0; the codec package hashes names.
mod Tests
use ya_nfd.Prelude.{
  ℕ, zero, suc, ◌+◌, ◌-◌, ◌%◌, ◌^◌, ◌*◌, ◌≤◌, ◌<◌, ◌≡◌, ◌≢◌, ◌⊎◌, ◌↔◌, refl, Bool, true, false,
  ◌&&◌, Option, none, some, List, [], ◌∷◌, ◌++◌, length, take, ltb, ◌==◌, if◌then◌else◌, arith,
  IsU32, inl, inr, Bool-cases,
}
use ya_nfd.Tlv.VarNum.{from_bytes, put_uint16, put_uint32}
use ya_nfd.Packets.{Component, Name, Interest, Data, PendingPacket, Scope, is_localhost}
use ya_nfd.Fib.HashTable.{NameCodec, IsCodec}
use ya_nfd.Fw.Thread.{stamp}
use ya_nfd.Fw.Incoming.{entry_token}

unfoldable pub is_local : Scope → Bool
is_local Scope.unknown = false
is_local Scope.non_local = false
is_local Scope.local = true

-- The thread with a number, of `n`: the outer none is the panic of an index out of range.
unfoldable pub get_fw_thread : ℕ → ℕ → Option (Option ℕ)
get_fw_thread n id = if ltb n id then some none else if id == n then none else some (some id)

module _ (codec : NameCodec Component) (n : ℕ) where
  open codec use {hash, prefix_hash}

  unfoldable pub hash_name_to_fw_thread : Name → ℕ
  hash_name_to_fw_thread name = if is_localhost name then 0 else hash name % n

  -- The loop over the hashes of the prefixes of `k` lengths from `i` on.
  unfoldable pub prefix_threads : Name → ℕ → ℕ → List ℕ
  prefix_threads name i zero = []
  prefix_threads name i (suc k) = (prefix_hash name i % n) ∷ prefix_threads name (suc i) k

  unfoldable pub hash_name_to_all_prefix_fw_threads : Name → List ℕ
  hash_name_to_all_prefix_fw_threads name =
      if is_localhost name then 0 ∷ [] else prefix_threads name 1 (length name)

  -- The threads that queue a Data packet from a face of a scope, and the packet's token then. A
  -- prefix's thread is always there; the number in a token may be any.
  unfoldable pub dispatch_data : PendingPacket Data → Scope → Option (List ℕ × List ℕ)
  dispatch_data p scope =
      let thread = from_bytes 0 (take 2 p.pit_token) in
      if length p.pit_token == 6
      then elim (get_fw_thread n thread) [
        | none ↦ none
        | some none ↦ some ([], p.pit_token)
        | some (some k) ↦ some (k ∷ [], p.pit_token)
      ]
      else if is_local scope
      then some (hash_name_to_all_prefix_fw_threads p.packet.name, [])
      else some ([], p.pit_token)

abbrev pub has_thread : ℕ → List ℕ → Bool
has_thread j [] = false
has_thread j (k ∷ ks) = if k == j then true else has_thread j ks

module _ (codec : NameCodec Component)
    (prefix_hash-hash : (name : Name) (i : ℕ)
      → i ≤ length name
      → codec.prefix_hash name i ≡ codec.hash (take i name))
    (n : ℕ) where
  open codec use {hash, prefix_hash}

  prefix_threads-has :
      (name : Name) (i k d : ℕ)
      → d < k
      → has_thread (prefix_hash name (i + d) % n) (prefix_threads codec n name i k) ≡ true
  unfolding prefix_threads
  prefix_threads-has name i zero d h = absurd (omega arith)
  prefix_threads-has name i (suc k) zero h = ground arith
  prefix_threads-has name i (suc k) (suc d) h = ground (arith, prefix_threads-has name (suc i) k d)

  localhost-take : (name : Name) (d : ℕ) → is_localhost (take (suc d) name) ≡ is_localhost name
  unfolding is_localhost
  localhost-take [] d = refl
  localhost-take (c ∷ cs) d = refl

  -- Data from a local face without a token reaches the thread of every Interest whose name is a
  -- prefix of its name, but for the empty prefix.
  pub dispatch_data-prefixes :
      (p : PendingPacket Data) (d : ℕ)
      → p.pit_token ≡ []
      → suc d ≤ length p.packet.name
      → (threads : List ℕ) × (dispatch_data codec n p Scope.local ≡ some (threads, []))
        × (has_thread (hash_name_to_fw_thread codec n (take (suc d) p.packet.name)) threads ≡ true)
  unfolding dispatch_data hash_name_to_fw_thread hash_name_to_all_prefix_fw_threads is_local
  dispatch_data-prefixes p d h l =
      let name = p.packet.name in
      let reached = prefix_threads-has name 1 (length name) d l in
      let same = prefix_hash-hash name (suc d) l in
      (
        hash_name_to_all_prefix_fw_threads codec n name,
        rw h refl,
        elim (Bool-cases (is_localhost name)) [
          | inl e ↦ ground (arith, localhost-take name d)
          | inr e ↦ ground (arith, localhost-take name d)
        ],
      )

module _ (codec : NameCodec Component) (n : ℕ) where
  -- Data that carries the token which a thread gave an Interest is dispatched to that thread alone,
  -- whose pipeline reads back the token of the PIT entry, with 32 threads at most.
  pub dispatch_data-stamp :
      (p : PendingPacket Data) (q : PendingPacket Interest) (scope : Scope)
      (thread token in_face : ℕ)
      → p.pit_token ≡ (stamp thread token in_face q).pit_token
      → thread < n
      → n ≤ 32
      → IsU32 token
      → (dispatch_data codec n p scope ≡ some (thread ∷ [], p.pit_token))
        × (entry_token p.pit_token ≡ some (some token))
  unfolding dispatch_data stamp entry_token get_fw_thread put_uint16 put_uint32 from_bytes
  dispatch_data-stamp p q scope thread token in_face e h k u = rw e (ground arith, ground arith)

  -- Dispatching Data panics exactly when its token has six bytes and names a thread one past the last.
  pub dispatch_data-panics :
      (p : PendingPacket Data) (scope : Scope)
      → (dispatch_data codec n p scope ≡ none)
        ↔ ((length p.pit_token ≡ 6) × (from_bytes 0 (take 2 p.pit_token) ≡ n))
  unfolding dispatch_data get_fw_thread
  dispatch_data-panics p scope = ground arith
