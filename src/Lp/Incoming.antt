-- ===== src/Lp/Incoming.antt =====
-- Receiving a frame in face/ndnlp-link-service.go: processIncomingFrame and reassemblePacket.
use native.Mathlib.Decide.{ℕ_discrete}
use ya_nfd.Prelude.{
  ℕ, ◌+◌, ◌-◌, ◌%◌, ◌^◌, Bool, true, false, ◌&&◌, ◌||◌, Option, none, some, List, [], ◌∷◌, ◌++◌,
  length, set, replicate, leb, ◌==◌, if◌then◌else◌,
}
use ya_nfd.Prelude.Assoc
use ya_nfd.Lp.Frames.{has_token, Options, LpPacket, NetPacket, has_value}

-- What comes of a frame.
pub data Receipt : Type 0 where
  dropped : Receipt
  panic : Receipt
  -- A fragment was put away.
  partial : Receipt
  -- A network-layer packet, to be read by the codec and dispatched.
  whole : NetPacket → Receipt

abbrev pub Store : Type 0
Store = List (ℕ × List (List ℕ))

abbrev pub stored : ℕ → Store → Option (List (List ℕ))
stored = Assoc.get ℕ_discrete

abbrev pub is_missing : List ℕ → Bool
is_missing [] = true
is_missing (b ∷ bs) = false

unfoldable pub received_count : List (List ℕ) → ℕ
received_count [] = 0
received_count (f ∷ fs) = (if is_missing f then 0 else 1) + received_count fs

unfoldable pub join : List (List ℕ) → List ℕ
join [] = []
join (f ∷ fs) = f ++ join fs

-- What `reassemblePacket` answers with: a panic at an index out of range, nothing yet, or the bytes.
pub data Reassembled : Type 0 where
  out_of_range : Reassembled
  not_yet : Reassembled
  complete : List ℕ → Reassembled

-- The entry of a packet, made if there is none.
unfoldable pub known_fragments : Store → ℕ → ℕ → List (List ℕ)
known_fragments store base count = elim (stored base store) [
  | none ↦ replicate count []
  | some fs ↦ fs
]

unfoldable pub reassemble_packet : Store → List ℕ → ℕ → ℕ → ℕ → Store × Reassembled
reassemble_packet store fragment base index count =
    let known = known_fragments store base count in
    let filled = set known index fragment in
    if leb (length known) index
    then (Assoc.put ℕ_discrete base known store, Reassembled.out_of_range)
    else if received_count filled == length filled
    then (Assoc.delete ℕ_discrete base store, Reassembled.complete (join filled))
    else (Assoc.put ℕ_discrete base filled store, Reassembled.not_yet)

abbrev pub or_else : Option ℕ → ℕ → ℕ
or_else none d = d
or_else (some n) d = n

-- The packet that a frame carries, with the fields that the options let through.
unfoldable pub net_packet : Options → ℕ → LpPacket → List ℕ → NetPacket
net_packet o face lp bytes = record {
  raw_bytes = bytes;
  pit_token = if has_token lp.pit_token then some lp.pit_token else none;
  congestion_mark = lp.congestion_mark;
  incoming_face_id = some face;
  next_hop_face_id =
      if o.is_consumer_controlled_forwarding_enabled then lp.next_hop_face_id else none;
  cache_policy = if o.is_local_cache_policy_enabled then lp.cache_policy else none;
}

-- `processIncomingFrame` on a frame that the codec reads as an `LpPacket`, up to the reading of what it
-- carries. The sequence number of the first fragment is a difference of 64-bit numbers.
unfoldable pub process_lp_packet : Options → ℕ → Store → LpPacket → Store × Receipt
process_lp_packet o face store lp =
    let index = or_else lp.frag_index 0 in
    let count = or_else lp.frag_count 1 in
    let whole = Receipt.whole (net_packet o face lp lp.fragment) in
    let reassembled = λ (sequence : ℕ).
      let base = (sequence + 2 ^ 64 - index) % 2 ^ 64 in
      let (store', r) = reassemble_packet store lp.fragment base index count in
      let receipt : Receipt = elim r [
        | out_of_range ↦ Receipt.panic
        | not_yet ↦ Receipt.partial
        | complete bytes ↦ Receipt.whole (net_packet o face lp bytes)
      ] in
      if (index == 0) && (count == 1) then (store, whole) else (store', receipt) in
    let in_order : Store × Receipt = elim lp.sequence [
      | none ↦ (store, Receipt.dropped)
      | some n ↦ reassembled n
    ] in
    if is_missing lp.fragment
    then (store, Receipt.dropped)
    else if o.is_reassembly_enabled
    then in_order
    else if has_value lp.frag_count || has_value lp.frag_index
    then (store, Receipt.dropped)
    else (store, whole)
