-- ===== src/Lp/Fragments.antt =====
-- The fragments of `sendPacket` in face/ndnlp-link-service.go: together they are the wire, and each
-- fits the MTU.
use native.Mathlib.Nat.{mul-suc, mul-zero, div-add-mod, mod-lt}
use ya_nfd.Prelude.{
  ℕ, zero, suc, ◌+◌, ◌-◌, ◌*◌, ◌/◌, ◌%◌, ◌≤◌, ◌<◌, ◌≡◌, refl, List, append-nil, length, drop,
  take-length, take-append-drop, length-drop, length-take_of_le, All, ltb, arith, Bool-cases, inl,
  inr,
}
use ya_nfd.Lp.Outgoing.{split, n_fragments, fragments}
use ya_nfd.Lp.Incoming.{join}

join-split :
    (k mtu last : ℕ) (w : List ℕ) → length w ≡ mtu * k + last → join (split (suc k) mtu last w) ≡ w
unfolding join split
join-split zero mtu last w h =
    let all : last ≡ length w = omega (arith, mul-zero mtu) in
    rw (all, take-length w) (append-nil w)
join-split (suc k) mtu last w h =
    let rest =
      join-split k mtu last (drop mtu w) (omega (arith, length-drop mtu w, mul-suc mtu k)) in
    rw rest (take-append-drop mtu w)

-- A length that the MTU allows.
abbrev pub Fits : ℕ → List ℕ → Type 0
Fits mtu f = (0 < length f) × (length f ≤ mtu)

split-Fits :
    (k mtu last : ℕ) (w : List ℕ)
    → length w ≡ mtu * k + last
    → 0 < mtu
    → 0 < last
    → last ≤ mtu
    → All (Fits mtu) (split (suc k) mtu last w)
unfolding split
split-Fits zero mtu last w h p q r =
    let n = length-take_of_le last w (omega (arith, mul-zero mtu)) in
    ((omega arith, omega arith), tt)
split-Fits (suc k) mtu last w h p q r =
    let product = mul-suc mtu k in
    let n = length-take_of_le mtu w (omega arith) in
    (
      (omega arith, omega arith),
      split-Fits k mtu last (drop mtu w) (omega (arith, length-drop mtu w)) p q r,
    )

-- A number of fragments is one more than some `k`, and the last fragment has the rest.
record IsCut (len mtu k : ℕ) : Type 0 where
  number : n_fragments len mtu ≡ suc k
  total : len ≡ mtu * k + (len - mtu * k)
  some_left : 0 < len - mtu * k
  fitting : len - mtu * k ≤ mtu

IsCut-of_number :
    (len mtu n r : ℕ)
    → n_fragments len mtu ≡ n
    → mtu * n + r ≡ len + mtu - 1
    → r < mtu
    → mtu < len
    → (k : ℕ) × IsCut len mtu k
IsCut-of_number len mtu zero r e h p q = let none_left = mul-zero mtu in absurd (omega arith)
IsCut-of_number len mtu (suc k) r e h p q =
    let product = mul-suc mtu k in
    (k, record { number = e; total = omega arith; some_left = omega arith; fitting = omega arith })

n_fragments-IsCut : (len mtu : ℕ) → 0 < mtu → mtu < len → (k : ℕ) × IsCut len mtu k
unfolding n_fragments
n_fragments-IsCut len mtu p q =
    IsCut-of_number len mtu ((len + mtu - 1) / mtu) ((len + mtu - 1) % mtu) refl
      (div-add-mod (len + mtu - 1) mtu) (mod-lt (len + mtu - 1) p) q

-- With room in the MTU, the fragments of a wire that is not empty are together the wire, none is
-- empty, and each fits the room.
pub fragments-Fits :
    (mtu : ℕ) (w : List ℕ)
    → 0 < mtu
    → 0 < length w
    → (join (fragments mtu w) ≡ w) × All (Fits mtu) (fragments mtu w)
unfolding fragments join
fragments-Fits mtu w p l = elim (Bool-cases (ltb mtu (length w))) [
  | inl longer ↦
      let (k, c) = n_fragments-IsCut (length w) mtu p (ground arith) in
      let number = c.number in
      let before : suc k - 1 ≡ k = omega arith in
      rw (fragments, longer, number, before)
        (
          join-split k mtu (length w - mtu * k) w c.total,
          split-Fits k mtu (length w - mtu * k) w c.total p c.some_left c.fitting,
        )
  | inr short ↦ rw (fragments, short) (append-nil w, ((l, ground arith), tt))
]
