-- ===== src/Lp/Frames.antt =====
-- The options of face/ndnlp-link-service.go, NDNLPv2 frames and network-layer packets. A wire is its bytes.
use ya_nfd.Prelude.{
  ℕ, ◌+◌, ◌*◌, Bool, true, false, ◌||◌, Option, none, some, List, [], ◌∷◌, if◌then◌else◌,
}

pub record Options : Type 0 where
  pub is_fragmentation_enabled : Bool
  pub is_reassembly_enabled : Bool
  pub is_reliability_enabled : Bool
  pub reserved_ack_space : ℕ
  pub is_consumer_controlled_forwarding_enabled : Bool
  pub is_incoming_face_indication_enabled : Bool
  pub is_local_cache_policy_enabled : Bool
  pub is_congestion_marking_enabled : Bool
  pub base_congestion_marking_interval : ℕ
  pub default_congestion_threshold_bytes : ℕ

-- The fields of the codec package's `LpPacket` that the link service uses.
pub record LpPacket : Type 0 where
  pub fragment : List ℕ
  pub sequence : Option ℕ
  pub frag_index : Option ℕ
  pub frag_count : Option ℕ
  pub pit_token : List ℕ
  pub incoming_face_id : Option ℕ
  pub next_hop_face_id : Option ℕ
  pub cache_policy : Option ℕ
  pub congestion_mark : Option ℕ

-- What the service reads and sets of a `PendingPacket`.
pub record NetPacket : Type 0 where
  pub raw_bytes : List ℕ
  pub pit_token : Option (List ℕ)
  pub congestion_mark : Option ℕ
  pub incoming_face_id : Option ℕ
  pub next_hop_face_id : Option ℕ
  pub cache_policy : Option ℕ

abbrev pub lp_packet_overhead : ℕ
lp_packet_overhead = 1 + 3

abbrev pub pit_token_overhead : ℕ
pit_token_overhead = 1 + 1 + 6

abbrev pub congestion_mark_overhead : ℕ
congestion_mark_overhead = 3 + 1 + 8

abbrev pub some_if : Bool → ℕ → ℕ
some_if b n = if b then n else 0

-- The bits of the flags are 1, 2 and 4.
unfoldable pub flags : Options → ℕ
flags o =
    some_if o.is_consumer_controlled_forwarding_enabled 1
    + some_if o.is_reliability_enabled 2
    + some_if o.is_congestion_marking_enabled 4

unfoldable pub compute_header_overhead : Options → ℕ
compute_header_overhead o =
    lp_packet_overhead
    + some_if (o.is_fragmentation_enabled || o.is_reliability_enabled) (1 + 1 + 8)
    + some_if o.is_fragmentation_enabled (1 + 1 + 2 + 1 + 1 + 2)
    + some_if o.is_reliability_enabled (3 + 1 + 8 + (3 + 1 + 8) * o.reserved_ack_space)
    + some_if o.is_incoming_face_indication_enabled (3 + 1 + 8)

-- The bytes of a token, none of a nil one.
abbrev pub token_bytes : Option (List ℕ) → List ℕ
token_bytes none = []
token_bytes (some bytes) = bytes

-- Whether a token is not nil; it may be empty all the same.
abbrev pub is_token : Option (List ℕ) → Bool
is_token none = false
is_token (some bytes) = true

-- Whether there are bytes of a token.
abbrev pub has_token : List ℕ → Bool
has_token [] = false
has_token (b ∷ bs) = true

abbrev pub has_value : Option ℕ → Bool
has_value none = false
has_value (some n) = true
