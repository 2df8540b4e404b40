-- ===== src/Packets.antt =====
-- ndn/pending-packet.go, and what the forwarding threads read of the codec package's packets;
-- ndn/scope.go, ndn/link-type.go and dispatch/face.go: faces.
use native.Mathlib.Decide.{ℕ_discrete}
use ya_nfd.Prelude.{ℕ, Bool, true, false, ◌&&◌, Option, List, [], ◌∷◌}
use ya_nfd.Name.{same_name}

-- A name component: its type and its bytes.
pub record Component : Type 0 where
  pub typ : ℕ
  pub val : List ℕ

abbrev pub Name : Type 0
Name = List Component

-- The fields of the codec package's Interest and Data that the forwarding threads use.
pub record Interest : Type 0 where
  pub name : Name
  pub can_be_prefix : Bool
  pub must_be_fresh : Bool
  pub nonce : Option ℕ
  pub hop_limit : Option ℕ
  pub forwarding_hint : Option (List Name)

-- `freshness_period` is that of the packet's `MetaInfo`, if it has both.
pub record Data : Type 0 where
  pub name : Name
  pub freshness_period : Option ℕ

-- `PendingPacket`, with its packet of one of the two kinds. `name_cache` is the string of the name.
pub record PendingPacket (A : Type 0) : Type 0 where
  pub pit_token : List ℕ
  pub incoming_face_id : Option ℕ
  pub next_hop_face_id : Option ℕ
  pub name_cache : List ℕ
  pub packet : A

pub data Scope : Type 0 where
  unknown : Scope
  non_local : Scope
  local : Scope

unfoldable pub is_non_local : Scope → Bool
is_non_local Scope.unknown = false
is_non_local Scope.non_local = true
is_non_local Scope.local = false

pub data LinkType : Type 0 where
  point_to_point : LinkType
  multi_access : LinkType
  ad_hoc : LinkType

unfoldable pub is_ad_hoc : LinkType → Bool
is_ad_hoc LinkType.point_to_point = false
is_ad_hoc LinkType.multi_access = false
is_ad_hoc LinkType.ad_hoc = true

pub record Face : Type 0 where
  pub face_id : ℕ
  pub scope : Scope
  pub link_type : LinkType

-- `LOCALHOST`
abbrev pub localhost : List ℕ
localhost = 0x6C ∷ 0x6F ∷ 0x63 ∷ 0x61 ∷ 0x6C ∷ 0x68 ∷ 0x6F ∷ 0x73 ∷ 0x74 ∷ []

-- `len(name) > 0 && bytes.Equal(name[0].Val, LOCALHOST)`
unfoldable pub is_localhost : Name → Bool
unfolding same_name
is_localhost [] = false
is_localhost (c ∷ cs) = same_name ℕ_discrete c.val localhost

-- A packet that may not pass a face: a name under /localhost and a face that is not local.
unfoldable pub violates_scope : Name → Face → Bool
violates_scope name face = is_non_local face.scope && is_localhost name
