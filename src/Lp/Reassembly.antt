-- ===== src/Lp/Reassembly.antt =====
-- `reassemblePacket` of face/ndnlp-link-service.go: the fragments of a packet may come in any order and
-- more than once, and the packet is complete with the last of them.
use native.Mathlib.Decide.{ℕ_discrete}
use ya_nfd.Prelude.{
  ℕ, zero, suc, ◌≤◌, ◌<◌, ◌≡◌, refl, ap, ◌∙◌, Bool, true, false, none, some, List, [], ◌∷◌, length,
  length-set, get_elem?, set, replicate, All, leb, ◌==◌, if◌then◌else◌, arith, Bool-cases, inl, inr,
}
use ya_nfd.Prelude.Assoc.{get-put, get-delete}
use ya_nfd.Lp.Incoming.{
  Store, stored, is_missing, received_count, join, not_yet, complete, known_fragments,
  reassemble_packet,
}

-- The fragments of which the places are marked, and nothing at the others.
unfoldable pub received : List Bool → List (List ℕ) → List (List ℕ)
received [] fs = []
received (b ∷ bs) [] = []
received (b ∷ bs) (f ∷ fs) = (if b then f else []) ∷ received bs fs

unfoldable pub all_marked : List Bool → Bool
all_marked [] = true
all_marked (b ∷ bs) = if b then all_marked bs else false

-- None is empty.
abbrev pub NoneEmpty : List (List ℕ) → Type 0
NoneEmpty = All (λ f. is_missing f ≡ false)

length-received :
    (bs : List Bool) (fs : List (List ℕ))
    → length bs ≡ length fs
    → length (received bs fs) ≡ length fs
unfolding received
length-received [] [] h = refl
length-received [] (f ∷ fs) h = absurd (omega arith)
length-received (b ∷ bs) [] h = absurd (omega arith)
length-received (b ∷ bs) (f ∷ fs) h = omega (arith, length-received bs fs (omega arith))

received_count_le :
    (bs : List Bool) (fs : List (List ℕ))
    → received_count (received bs fs) ≤ length (received bs fs)
unfolding received received_count
received_count_le [] fs = omega arith
received_count_le (b ∷ bs) [] = omega arith
received_count_le (b ∷ bs) (f ∷ fs) = ground (arith, received_count_le bs fs)

-- The counts agree just if every place is marked.
received_count-all_marked :
    (bs : List Bool) (fs : List (List ℕ))
    → length bs ≡ length fs
    → NoneEmpty fs
    → (received_count (received bs fs) == length (received bs fs)) ≡ all_marked bs
unfolding received received_count all_marked
received_count-all_marked [] [] h e = refl
received_count-all_marked [] (f ∷ fs) h e = absurd (omega arith)
received_count-all_marked (b ∷ bs) [] h e = absurd (omega arith)
received_count-all_marked (true ∷ bs) (f ∷ fs) h e =
    let rest = received_count-all_marked bs fs (omega arith) e.1 in
    let first = e.0 in ground (arith, received_count_le bs fs)
received_count-all_marked (false ∷ bs) (f ∷ fs) h e = ground (arith, received_count_le bs fs)

received-all_marked :
    (bs : List Bool) (fs : List (List ℕ))
    → length bs ≡ length fs
    → all_marked bs ≡ true
    → received bs fs ≡ fs
unfolding received all_marked
received-all_marked [] [] h a = refl
received-all_marked [] (f ∷ fs) h a = absurd (omega arith)
received-all_marked (b ∷ bs) [] h a = absurd (omega arith)
received-all_marked (true ∷ bs) (f ∷ fs) h a =
    ap (◌∷◌ f) (received-all_marked bs fs (omega arith) a)
received-all_marked (false ∷ bs) (f ∷ fs) h a = ground arith

set-received :
    (bs : List Bool) (fs : List (List ℕ)) (i : ℕ) (f : List ℕ)
    → length bs ≡ length fs
    → get_elem? fs i ≡ some f
    → set (received bs fs) i f ≡ received (set bs i true) fs
unfolding received
set-received [] [] i f h e = refl
set-received [] (g ∷ fs) i f h e = absurd (omega arith)
set-received (b ∷ bs) [] i f h e = absurd (omega arith)
set-received (b ∷ bs) (g ∷ fs) zero f h e = ground arith
set-received (b ∷ bs) (g ∷ fs) (suc i) f h e =
    ap (◌∷◌ (if b then g else [])) (set-received bs fs i f (omega arith) e)

received_none :
    (n : ℕ) (fs : List (List ℕ)) → n ≡ length fs → received (replicate n false) fs ≡ replicate n []
unfolding received
received_none zero fs h = refl
received_none (suc n) [] h = absurd (omega arith)
received_none (suc n) (f ∷ fs) h = ap (◌∷◌ []) (received_none n fs (omega arith))

get_elem?-lt : (fs : List (List ℕ)) (i : ℕ) (f : List ℕ) → get_elem? fs i ≡ some f → i < length fs
get_elem?-lt [] i f h = ground arith
get_elem?-lt (g ∷ fs) zero f h = omega arith
get_elem?-lt (g ∷ fs) (suc i) f h = omega (arith, get_elem?-lt fs i f h)

-- A fragment of a packet comes, when those that are marked have come: if it is the last one missing,
-- the packet is complete with all its fragments in their order and its entry leaves the store,
-- else the store has it beside the others; other packets are left alone.
pub reassemble_packet_lem :
    (store : Store) (base i : ℕ) (f : List ℕ) (bs : List Bool) (fs : List (List ℕ))
    → length bs ≡ length fs
    → NoneEmpty fs
    → get_elem? fs i ≡ some f
    → known_fragments store base (length fs) ≡ received bs fs
    → ((reassemble_packet store f base i (length fs)).1
        ≡ (if all_marked (set bs i true) then complete (join fs) else not_yet))
      × ((b : ℕ)
          → stored b (reassemble_packet store f base i (length fs)).0 ≡ (
              if base == b
              then if all_marked (set bs i true) then none else some (received (set bs i true) fs)
              else stored b store))
unfolding reassemble_packet
reassemble_packet_lem store base i f bs fs h e at known =
    let marked = set bs i true in
    let filled = set-received bs fs i f h at in
    let inside = get_elem?-lt fs i f at in
    let n = length-received bs fs h in
    let in_range : leb (length (received bs fs)) i ≡ false = ground arith in
    let counts = received_count-all_marked marked fs (length-set bs i true ∙ h) e in
    rw (reassemble_packet, known, in_range, filled, counts)
      (elim (Bool-cases (all_marked marked)) [
        | inl all ↦
            let whole = received-all_marked marked fs (length-set bs i true ∙ h) all in
            rw (all, whole) (refl, λ b. ground (arith, get-delete ℕ_discrete base b store))
        | inr more ↦
            rw more
              (refl, λ b. ground (arith, get-put ℕ_discrete base b (received marked fs) store))
      ])
