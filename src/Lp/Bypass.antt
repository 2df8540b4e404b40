-- ===== src/Lp/Bypass.antt =====
-- What the receiver of face/ndnlp-link-service.go makes of the frames of its sender.
use ya_nfd.Prelude.{
  ℕ, ◌+◌, ◌%◌, ◌^◌, ◌≡◌, ◌⊎◌, refl, Bool, ◌&&◌, ◌||◌, not, none, List, [], ◌∷◌, All, ◌==◌,
  Bool-cases, Option-cases, inl, inr,
}
use ya_nfd.Lp.Frames.{Options, LpPacket, NetPacket}
use ya_nfd.Lp.Outgoing.{
  Link, Conditions, Sending, header_size, is_over, sets_first, is_empty, pieces, bare_frames,
  number_frames, mark_first, is_congested, many, prepare_frames,
}
use ya_nfd.Lp.Incoming.{Receipt, Store, is_missing, net_packet, process_lp_packet}

-- No index and no count.
abbrev pub Unindexed : LpPacket → Type 0
Unindexed f = (f.frag_index ≡ none) × (f.frag_count ≡ none)

bare_frames-Unindexed : (fs : List (List ℕ)) → All Unindexed (bare_frames fs)
unfolding bare_frames
bare_frames-Unindexed [] = tt
bare_frames-Unindexed (f ∷ fs) = ((refl, refl), bare_frames-Unindexed fs)

number_frames-Unindexed :
    (next : ℕ) (fs : List LpPacket) → All Unindexed fs → All Unindexed (number_frames next fs).0
unfolding number_frames
number_frames-Unindexed next [] u = tt
number_frames-Unindexed next (f ∷ fs) u =
    (u.0, number_frames-Unindexed ((next + 1) % 2 ^ 64) fs u.1)

mark_first-Unindexed :
    (o : Options) (p : NetPacket) (congested : Bool) (fs : List LpPacket)
    → All Unindexed fs
    → All Unindexed (mark_first o p congested fs)
unfolding mark_first
mark_first-Unindexed o p congested [] u = tt
mark_first-Unindexed o p congested (f ∷ fs) u = (u.0, u.1)

unfoldable pub frames_of : Sending → List LpPacket
frames_of Sending.dropped = []
frames_of Sending.panic = []
frames_of (Sending.ready fs l) = fs

prepare_frames-Unindexed :
    (o : Options) (mtu : ℕ) (c : Conditions) (l : Link) (p : NetPacket)
    → All Unindexed (frames_of (prepare_frames o mtu c l p))
unfolding prepare_frames frames_of
prepare_frames-Unindexed o mtu c l p =
    let frames = bare_frames (pieces o mtu p) in
    let u = bare_frames-Unindexed (pieces o mtu p) in
    let congested = is_congested o l c in
    let divides_by_zero = is_over o mtu p && (mtu == header_size o p) in
    let sets_none = is_empty frames && sets_first o p congested in
    elim (Bool-cases (is_over o mtu p && not o.is_fragmentation_enabled)) [
      | inl cut ↦ rw cut tt
      | inr uncut ↦ elim (Bool-cases (divides_by_zero || o.is_reliability_enabled || sets_none)) [
        | inl crash ↦ rw (uncut, crash) tt
        | inr fine ↦ elim (Bool-cases (many frames)) [
          | inl several ↦
              rw (uncut, fine, several)
                (mark_first-Unindexed o p congested (number_frames l.next_sequence frames).0
                  (number_frames-Unindexed l.next_sequence frames u))
          | inr alone ↦ rw (uncut, fine, alone) (mark_first-Unindexed o p congested frames u)
        ]
      ]
    ]

-- A frame that is not taken for a part of a packet: it is dropped, or taken for a whole one.
abbrev pub IsAlone : Options → ℕ → Store → LpPacket → Type 0
IsAlone o face store f =
    (process_lp_packet o face store f ≡ (store, Receipt.dropped))
    ⊎ (process_lp_packet o face store f ≡ (store, Receipt.whole (net_packet o face f f.fragment)))

Unindexed-IsAlone :
    (o : Options) (face : ℕ) (store : Store) (f : LpPacket) → Unindexed f → IsAlone o face store f
unfolding process_lp_packet net_packet
Unindexed-IsAlone o face store f u =
    let index = u.0 in
    let count = u.1 in
    elim (Bool-cases (is_missing f.fragment)) [
      | inl missing ↦ inl (rw (process_lp_packet, missing) refl)
      | inr there ↦ elim (Bool-cases o.is_reassembly_enabled) [
        | inl enabled ↦ elim (Option-cases f.sequence) [
          | inl unnumbered ↦ inl (rw (process_lp_packet, there, enabled, unnumbered) refl)
          | inr (n, numbered) ↦
              inr (rw (process_lp_packet, there, enabled, numbered, index, count) refl)
        ]
        | inr disabled ↦ inr (rw (process_lp_packet, there, disabled, count, index) refl)
      ]
    ]

all-IsAlone :
    (o : Options) (face : ℕ) (store : Store) (fs : List LpPacket)
    → All Unindexed fs
    → All (IsAlone o face store) fs
all-IsAlone o face store [] u = tt
all-IsAlone o face store (f ∷ fs) u =
    (Unindexed-IsAlone o face store f u.0, all-IsAlone o face store fs u.1)

-- No frame that a link service makes ready is put together with others by one that receives it, with
-- or without reassembly: the receiver drops it, or takes its fragment for a whole packet.
pub prepare_frames-IsAlone :
    (sender receiver : Options) (mtu : ℕ) (c : Conditions) (l : Link) (p : NetPacket) (face : ℕ)
    (store : Store)
    → All (IsAlone receiver face store) (frames_of (prepare_frames sender mtu c l p))
prepare_frames-IsAlone sender receiver mtu c l p face store =
    all-IsAlone receiver face store (frames_of (prepare_frames sender mtu c l p))
      (prepare_frames-Unindexed sender mtu c l p)
