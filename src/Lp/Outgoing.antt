-- ===== src/Lp/Outgoing.antt =====
-- Sending a packet in face/ndnlp-link-service.go: sendPacket. The frames kept for retransmission are not
-- modelled, since storing one panics.
use ya_nfd.Prelude.{
  ℕ, zero, suc, ◌+◌, ◌-◌, ◌*◌, ◌/◌, ◌%◌, ◌^◌, Bool, true, false, ◌&&◌, ◌||◌, not, none, some, List,
  [], ◌∷◌, length, take, drop, ltb, ◌==◌, if◌then◌else◌,
}
use ya_nfd.Lp.Frames.{
  Options, LpPacket, NetPacket, pit_token_overhead, congestion_mark_overhead, some_if,
  compute_header_overhead, has_token, is_token, token_bytes, has_value,
}

-- What the header of a frame takes of the MTU.
unfoldable pub header_size : Options → NetPacket → ℕ
header_size o p =
    compute_header_overhead o
    + some_if (is_token p.pit_token) pit_token_overhead
    + some_if (has_value p.congestion_mark) congestion_mark_overhead

abbrev pub bare : List ℕ → LpPacket
bare bytes = record {
  fragment = bytes;
  sequence = none;
  frag_index = none;
  frag_count = none;
  pit_token = [];
  incoming_face_id = none;
  next_hop_face_id = none;
  cache_policy = none;
  congestion_mark = none;
}

-- The loop that reads `k` fragments off a wire, the last of a length of its own.
unfoldable pub split : ℕ → ℕ → ℕ → List ℕ → List (List ℕ)
split zero mtu last wire = []
split (suc zero) mtu last wire = take last wire ∷ []
split (suc (suc k)) mtu last wire = take mtu wire ∷ split (suc k) mtu last (drop mtu wire)

unfoldable pub n_fragments : ℕ → ℕ → ℕ
n_fragments len mtu = (len + mtu - 1) / mtu

-- The fragments of a wire, for a positive MTU.
unfoldable pub fragments : ℕ → List ℕ → List (List ℕ)
fragments mtu wire =
    let n = n_fragments (length wire) mtu in
    let cut = split n mtu (length wire - mtu * (n - 1)) wire in
    if ltb mtu (length wire) then cut else wire ∷ []

-- The same when the header takes `d` more than the MTU: a number below 0 is taken for one of 64 bits.
unfoldable pub fragments_below : ℕ → List ℕ → List (List ℕ)
fragments_below d wire =
    let divisor = 2 ^ 64 - d in
    let n = ((length wire + divisor - 1) % 2 ^ 64) / divisor in split n 0 (length wire) wire

unfoldable pub pieces : Options → ℕ → NetPacket → List (List ℕ)
pieces o mtu p =
    let header = header_size o p in
    let below = fragments_below (header - mtu) p.raw_bytes in
    let above = fragments (mtu - header) p.raw_bytes in if ltb mtu header then below else above

unfoldable pub bare_frames : List (List ℕ) → List LpPacket
bare_frames [] = []
bare_frames (f ∷ fs) = bare f ∷ bare_frames fs

-- `l.nextSequence++` is one of 64-bit numbers.
unfoldable pub number_frames : ℕ → List LpPacket → List LpPacket × ℕ
number_frames next [] = ([], next)
number_frames next (f ∷ fs) =
    let (gs, after) = number_frames ((next + 1) % 2 ^ 64) fs in
    let numbered : LpPacket = record f { sequence = some next } in (numbered ∷ gs, after)

abbrev indicates_face : Options → NetPacket → Bool
indicates_face o p = o.is_incoming_face_indication_enabled && has_value p.incoming_face_id

-- Whether any field is set on the first frame, where without a frame the code panics.
unfoldable pub sets_first : Options → NetPacket → Bool → Bool
sets_first o p congested =
    congested
    || has_token (token_bytes p.pit_token)
    || indicates_face o p
    || has_value p.congestion_mark

-- The fields that go on the first frame; a mark of the packet takes the place of one of the link.
unfoldable pub mark_first : Options → NetPacket → Bool → List LpPacket → List LpPacket
mark_first o p congested [] = []
mark_first o p congested (f ∷ fs) =
    let marked : LpPacket = record f {
      pit_token =
          if has_token (token_bytes p.pit_token) then token_bytes p.pit_token else f.pit_token;
      incoming_face_id = if indicates_face o p then p.incoming_face_id else f.incoming_face_id;
      congestion_mark =
          if has_value p.congestion_mark
          then p.congestion_mark
          else if congested
          then some 1
          else f.congestion_mark;
    } in
    marked ∷ fs

pub record Link : Type 0 where
  pub next_sequence : ℕ
  pub last_time_congestion_marked : ℕ

-- `congestionMarking`, the send queue's size and the clock when a packet is sent.
pub record Conditions : Type 0 where
  pub congestion_marking : Bool
  pub send_queue_size : ℕ
  pub now : ℕ

unfoldable pub is_congested : Options → Link → Conditions → Bool
is_congested o l c =
    c.congestion_marking
    && (ltb o.default_congestion_threshold_bytes c.send_queue_size
        && ltb (l.last_time_congestion_marked + o.base_congestion_marking_interval) c.now)

abbrev pub is_empty : {A : Type 0} → List A → Bool
is_empty [] = true
is_empty (x ∷ xs) = false

-- The number of frames, as far as the code asks for it.
abbrev pub many : {A : Type 0} → List A → Bool
many [] = false
many (x ∷ []) = false
many (x ∷ y ∷ xs) = true

-- What becomes of a packet that is sent on a face that is up.
pub data Sending : Type 0 where
  dropped : Sending
  panic : Sending
  -- The frames that are made ready for the transport.
  ready : List LpPacket → Link → Sending

-- More bytes than one frame has room for.
unfoldable pub is_over : Options → ℕ → NetPacket → Bool
is_over o mtu p = ltb mtu (header_size o p + length p.raw_bytes)

-- `sendPacket` up to its last loop. It panics with reliability, at a nil map; when it divides by an MTU
-- without any room; and when it sets a field of the first frame where there is none.
unfoldable pub prepare_frames : Options → ℕ → Conditions → Link → NetPacket → Sending
prepare_frames o mtu c l p =
    let frames = bare_frames (pieces o mtu p) in
    let (numbered, next) = number_frames l.next_sequence frames in
    let congested = is_congested o l c in
    let time = if congested then c.now else l.last_time_congestion_marked in
    let after : Link = record { next_sequence = next; last_time_congestion_marked = time } in
    let unnumbered : Link = record l { last_time_congestion_marked = time } in
    let alone = Sending.ready (mark_first o p congested frames) unnumbered in
    let several = Sending.ready (mark_first o p congested numbered) after in
    let divides_by_zero = is_over o mtu p && (mtu == header_size o p) in
    let sets_none = is_empty frames && sets_first o p congested in
    if is_over o mtu p && not o.is_fragmentation_enabled
    then Sending.dropped
    else if divides_by_zero || o.is_reliability_enabled || sets_none
    then Sending.panic
    else if many frames
    then several
    else alone

-- The last loop of `sendPacket`, with what the transport gets: the mutex that a turn takes is given back
-- when the function returns, so a second turn waits for ever, which the Boolean says.
unfoldable pub send_frames : List LpPacket → List LpPacket × Bool
send_frames [] = ([], false)
send_frames (f ∷ fs) = elim fs [ [] ↦ (f ∷ [], false) | g ∷ gs ↦ (f ∷ [], true) ]
