-- ===== src/Lp/Tests.antt =====
-- Runs of the link service of face/ndnlp-link-service.go.
use ya_nfd.Prelude.{
  ℕ, ◌≡◌, refl, Bool, true, false, Option, none, some, List, [], ◌∷◌, length, replicate, All,
  if◌then◌else◌, ◌==◌, arith,
}
use ya_nfd.Lp.Frames.{Options, flags, LpPacket, NetPacket, compute_header_overhead}
use ya_nfd.Lp.Outgoing.{
  Link, Conditions, header_size, is_over, sets_first, pieces, fragments_below, bare, split,
  n_fragments, fragments, bare_frames, number_frames, mark_first, is_congested, prepare_frames,
  send_frames,
}
use ya_nfd.Lp.Incoming.{
  Receipt, Store, complete, known_fragments, reassemble_packet, join, stored, process_lp_packet,
}
use ya_nfd.Lp.Fragments.{Fits, fragments-Fits}
use ya_nfd.Lp.Reassembly.{received, all_marked, reassemble_packet_lem}
use ya_nfd.Lp.Bypass.{IsAlone, frames_of, prepare_frames-IsAlone}

abbrev options : Options
options = record {
  is_fragmentation_enabled = true;
  is_reassembly_enabled = true;
  is_reliability_enabled = false;
  reserved_ack_space = 0;
  is_consumer_controlled_forwarding_enabled = false;
  is_incoming_face_indication_enabled = true;
  is_local_cache_policy_enabled = false;
  is_congestion_marking_enabled = false;
  base_congestion_marking_interval = 100;
  default_congestion_threshold_bytes = 65536;
}

abbrev packet : NetPacket
packet = record {
  raw_bytes = 1 ∷ 2 ∷ 3 ∷ 4 ∷ 5 ∷ [];
  pit_token = none;
  congestion_mark = some 1;
  incoming_face_id = some 7;
  next_hop_face_id = none;
  cache_policy = none;
}

abbrev quiet : Conditions
quiet = record { congestion_marking = false; send_queue_size = 0; now = 0 }

abbrev fresh : Link
fresh = record { next_sequence = 10; last_time_congestion_marked = 0 }

-- 4 bytes of the packet itself, 10 of a number, 8 of an index and a count, 12 of a face, 12 of a mark.
overhead : header_size options packet ≡ 46
unfolding header_size compute_header_overhead
overhead = refl

three_fragments :
    fragments 2 (1 ∷ 2 ∷ 3 ∷ 4 ∷ 5 ∷ []) ≡ ((1 ∷ 2 ∷ []) ∷ (3 ∷ 4 ∷ []) ∷ (5 ∷ []) ∷ [])
unfolding fragments n_fragments split
three_fragments = refl

-- An MTU that the header alone passes by 10: a packet of 5 bytes is sent whole, one of 11 not at all.
below_short : fragments_below 10 (1 ∷ 2 ∷ 3 ∷ 4 ∷ 5 ∷ []) ≡ ((1 ∷ 2 ∷ 3 ∷ 4 ∷ 5 ∷ []) ∷ [])
unfolding fragments_below split
below_short = refl

below_long : fragments_below 10 (replicate 11 1) ≡ []
unfolding fragments_below split
below_long = refl

no_flags : flags options ≡ 0
unfolding flags
no_flags = refl

-- The numbers of the frames of a packet, of which only the first is sent.
numbers : List LpPacket → List (Option ℕ)
numbers [] = []
numbers (f ∷ fs) = f.sequence ∷ numbers fs

three_frames :
    numbers (frames_of (prepare_frames options 48 quiet fresh packet))
    ≡ (some 10 ∷ some 11 ∷ some 12 ∷ [])
unfolding numbers prepare_frames frames_of header_size is_over sets_first pieces
    compute_header_overhead fragments n_fragments split bare_frames number_frames mark_first
    is_congested
three_frames = refl

one_sent : send_frames (bare_frames ((1 ∷ []) ∷ (2 ∷ []) ∷ [])) ≡ (bare (1 ∷ []) ∷ [], true)
unfolding send_frames bare_frames
one_sent = refl

-- An index past the count that comes with it.
abbrev hostile : LpPacket
hostile = record {
  fragment = 1 ∷ [];
  sequence = some 10;
  frag_index = some 9;
  frag_count = some 2;
  pit_token = [];
  incoming_face_id = none;
  next_hop_face_id = none;
  cache_policy = none;
  congestion_mark = none;
}

hostile_panics : (process_lp_packet options 7 [] hostile).1 ≡ Receipt.panic
unfolding process_lp_packet reassemble_packet known_fragments ya_nfd.Prelude.Assoc.get
hostile_panics = refl

fragments-Fits_example :
    (join (fragments 2 packet.raw_bytes) ≡ packet.raw_bytes)
    × All (Fits 2) (fragments 2 packet.raw_bytes)
fragments-Fits_example = fragments-Fits 2 packet.raw_bytes (omega arith) (omega arith)

-- The second of two fragments, after the first.
abbrev both : List (List ℕ)
both = (1 ∷ 2 ∷ []) ∷ (3 ∷ []) ∷ []

abbrev half : Store
half = (10, (1 ∷ 2 ∷ []) ∷ [] ∷ []) ∷ []

known_half : known_fragments half 10 (length both) ≡ received (true ∷ false ∷ []) both
unfolding known_fragments received ya_nfd.Prelude.Assoc.get native.Mathlib.Decide.ℕ_discrete
known_half = refl

reassemble_packet_lem_example :
    ((reassemble_packet half (3 ∷ []) 10 1 2).1 ≡ complete (1 ∷ 2 ∷ 3 ∷ []))
    × ((b : ℕ)
        → stored b (reassemble_packet half (3 ∷ []) 10 1 2).0
          ≡ (if 10 == b then none else stored b half))
unfolding all_marked received join
reassemble_packet_lem_example =
    reassemble_packet_lem half 10 1 (3 ∷ []) (true ∷ false ∷ []) both refl (refl, (refl, tt)) refl
      known_half

prepare_frames-IsAlone_example :
    All (IsAlone options 7 []) (frames_of (prepare_frames options 48 quiet fresh packet))
prepare_frames-IsAlone_example = prepare_frames-IsAlone options options 48 quiet fresh packet 7 []
