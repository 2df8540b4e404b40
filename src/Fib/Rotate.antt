-- ===== src/Fib/Rotate.antt =====
-- The hash table's way to remove a hop keeps the costs of the other hops, and no face twice.
use ya_nfd.Prelude.{ℕ, ◌≡◌, refl, false, none, List, [], ◌∷◌, ◌==◌, if◌then◌else◌, arith}
use ya_nfd.Fib.Hops.{
  NextHop, has_hop, rotate_last, swap_erase_hop, cost_of, Distinct, cost_of_absent,
}

rotate_last-cons :
    (h : NextHop) (hs : List NextHop)
    → (l : NextHop) × (rest : List NextHop) × (rotate_last h hs ≡ l ∷ rest)
unfolding rotate_last
rotate_last-cons h [] = (h, [], refl)
rotate_last-cons h (x ∷ xs) = let (l, rest, e) = rotate_last-cons x xs in (l, h ∷ rest, rw e)

has_hop-rotate_last :
    (f : ℕ) (h : NextHop) (hs : List NextHop) → has_hop f (rotate_last h hs) ≡ has_hop f (h ∷ hs)
unfolding rotate_last has_hop
has_hop-rotate_last f h [] = refl
has_hop-rotate_last f h (x ∷ xs) =
    let (l, rest, e) = rotate_last-cons x xs in ground (arith, has_hop-rotate_last f x xs, e)

cost_of-rotate_last :
    (f : ℕ) (h : NextHop) (hs : List NextHop)
    → Distinct (h ∷ hs)
    → cost_of f (rotate_last h hs) ≡ cost_of f (h ∷ hs)
unfolding rotate_last has_hop cost_of
cost_of-rotate_last f h [] d = refl
cost_of-rotate_last f h (x ∷ xs) d =
    let (l, rest, e) = rotate_last-cons x xs in
    ground (arith, cost_of-rotate_last f x xs, has_hop-rotate_last h.nexthop x xs, e, d)

rotate_last-Distinct :
    (h : NextHop) (hs : List NextHop) → Distinct (h ∷ hs) → Distinct (rotate_last h hs)
unfolding rotate_last has_hop
rotate_last-Distinct h [] d = d
rotate_last-Distinct h (x ∷ xs) d =
    let (l, rest, e) = rotate_last-cons x xs in
    ground (arith, rotate_last-Distinct x xs, has_hop-rotate_last h.nexthop x xs, e, d)

pub cost_of-swap_erase_hop :
    (f face : ℕ) (hs : List NextHop)
    → Distinct hs
    → cost_of f (swap_erase_hop face hs) ≡ (if face == f then none else cost_of f hs)
unfolding cost_of swap_erase_hop
cost_of-swap_erase_hop f face [] d = ground arith
cost_of-swap_erase_hop f face (h ∷ []) d = ground arith
cost_of-swap_erase_hop f face (h ∷ x ∷ xs) d = ground (
  arith,
  cost_of-swap_erase_hop f face (x ∷ xs),
  cost_of-rotate_last f x xs,
  cost_of_absent h.nexthop (x ∷ xs),
  d,
)

has_hop-swap_erase_hop :
    (f face : ℕ) (hs : List NextHop)
    → has_hop f hs ≡ false
    → has_hop f (swap_erase_hop face hs) ≡ false
unfolding has_hop swap_erase_hop
has_hop-swap_erase_hop f face [] h = refl
has_hop-swap_erase_hop f face (x ∷ []) h = ground arith
has_hop-swap_erase_hop f face (x ∷ y ∷ ys) h =
    ground (arith, has_hop-swap_erase_hop f face (y ∷ ys), has_hop-rotate_last f y ys)

pub swap_erase_hop-Distinct :
    (face : ℕ) (hs : List NextHop) → Distinct hs → Distinct (swap_erase_hop face hs)
unfolding swap_erase_hop has_hop
swap_erase_hop-Distinct face [] d = tt
swap_erase_hop-Distinct face (h ∷ []) d = ground arith
swap_erase_hop-Distinct face (h ∷ x ∷ xs) d = ground (
  arith,
  swap_erase_hop-Distinct face (x ∷ xs),
  rotate_last-Distinct x xs,
  has_hop-swap_erase_hop h.nexthop face (x ∷ xs),
  d,
)
