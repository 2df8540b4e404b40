-- ===== src/Fw/Dispatch/Tests.antt =====
-- Four threads, and a hash that is the length of a name.
use ya_nfd.Prelude.{ℕ, ◌≡◌, ◌↔◌, refl, true, false, none, some, List, [], ◌∷◌, length, take, arith}
use ya_nfd.Tlv.VarNum.{from_bytes}
use ya_nfd.Packets.{Component, Name, Interest, Data, PendingPacket, Scope}
use ya_nfd.Fib.HashTable.{NameCodec}
use ya_nfd.Fw.Thread.{stamp}
use ya_nfd.Fw.Incoming.{entry_token}
use ya_nfd.Fw.Dispatch.{
  has_thread, hash_name_to_fw_thread, dispatch_data, dispatch_data-prefixes, dispatch_data-stamp,
  dispatch_data-panics,
}

abbrev length_codec : NameCodec Component
length_codec = record {
  hash = λ n. length n;
  prefix_hash = λ n i. length (take i n);
  bytes = λ n. [];
}

abbrev two_components : Name
two_components = record { typ = 8; val = 0x61 ∷ [] } ∷ record { typ = 8; val = 0x62 ∷ [] } ∷ []

abbrev with_token : List ℕ → PendingPacket Data
with_token token = record {
  pit_token = token;
  incoming_face_id = some 1;
  next_hop_face_id = none;
  name_cache = 0x2F ∷ [];
  packet = record { name = two_components; freshness_period = none };
}

abbrev interest : PendingPacket Interest
interest = record {
  pit_token = [];
  incoming_face_id = some 1;
  next_hop_face_id = none;
  name_cache = 0x2F ∷ [];
  packet = record {
    name = two_components;
    can_be_prefix = false;
    must_be_fresh = false;
    nonce = some 77;
    hop_limit = none;
    forwarding_hint = none;
  };
}

dispatch_data-prefixes_example :
    (threads : List ℕ) × (dispatch_data length_codec 4 (with_token []) Scope.local
      ≡ some (threads, []))
    × (has_thread (hash_name_to_fw_thread length_codec 4 (take 1 two_components)) threads ≡ true)
dispatch_data-prefixes_example =
    dispatch_data-prefixes length_codec (λ name i h. refl) 4 (with_token []) 0 refl (omega arith)

dispatch_data-stamp_example :
    (dispatch_data length_codec 4 (with_token (stamp 3 99 1 interest).pit_token) Scope.non_local
      ≡ some (3 ∷ [], (stamp 3 99 1 interest).pit_token))
    × (entry_token (stamp 3 99 1 interest).pit_token ≡ some (some 99))
dispatch_data-stamp_example =
    dispatch_data-stamp length_codec 4 (with_token (stamp 3 99 1 interest).pit_token) interest
      Scope.non_local 3 99 1 refl (omega arith) (omega arith) (omega arith)

abbrev foreign_token : List ℕ
foreign_token = 0 ∷ 4 ∷ 0 ∷ 0 ∷ 0 ∷ 0 ∷ []

dispatch_data-panics_example :
    (dispatch_data length_codec 4 (with_token foreign_token) Scope.non_local ≡ none)
    ↔ ((length foreign_token ≡ 6) × (from_bytes 0 (take 2 foreign_token) ≡ 4))
dispatch_data-panics_example =
    dispatch_data-panics length_codec 4 (with_token foreign_token) Scope.non_local
