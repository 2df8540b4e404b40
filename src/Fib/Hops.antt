-- ===== src/Fib/Hops.antt =====
-- table/fib-strategy.go: next hops, and the loops over a list of them in both implementations.
use ya_nfd.Prelude.{
  ℕ, ◌≡◌, refl, Bool, true, false, Option, none, some, List, [], ◌∷◌, ◌==◌, if◌then◌else◌, arith,
}

pub record NextHop : Type 0 where
  pub nexthop : ℕ
  pub cost : ℕ

-- The loop of `InsertNextHopEnc`: the cost is replaced, or a new hop appended.
unfoldable pub put_hop : ℕ → ℕ → List NextHop → List NextHop
put_hop face cost [] = (record { nexthop = face; cost = cost }) ∷ []
put_hop face cost (h ∷ hs) =
    if h.nexthop == face then (record h { cost = cost }) ∷ hs else h ∷ put_hop face cost hs

unfoldable pub has_hop : ℕ → List NextHop → Bool
has_hop face [] = false
has_hop face (h ∷ hs) = if h.nexthop == face then true else has_hop face hs

-- The loop of the tree's `RemoveNextHopEnc`: the first hop over the face goes, the later ones move up.
unfoldable pub erase_hop : ℕ → List NextHop → List NextHop
erase_hop face [] = []
erase_hop face (h ∷ hs) = if h.nexthop == face then hs else h ∷ erase_hop face hs

-- The last element of `h ∷ hs` in front, and the elements of `hs` but the last behind it.
unfoldable pub rotate_last : NextHop → List NextHop → List NextHop
rotate_last h [] = h ∷ []
rotate_last h (x ∷ xs) = elim (rotate_last x xs) [ [] ↦ [] | l ∷ rest ↦ l ∷ h ∷ rest ]

-- The hash table's loop: the last hop takes the place of the removed one.
unfoldable pub swap_erase_hop : ℕ → List NextHop → List NextHop
unfolding rotate_last
swap_erase_hop face [] = []
swap_erase_hop face (h ∷ hs) =
    let moved : List NextHop = elim hs [ [] ↦ [] | x ∷ xs ↦ rotate_last x xs ] in
    if h.nexthop == face then moved else h ∷ swap_erase_hop face hs

-- The cost over a face: what a list of next hops means.
unfoldable pub cost_of : ℕ → List NextHop → Option ℕ
cost_of face [] = none
cost_of face (h ∷ hs) = if h.nexthop == face then some h.cost else cost_of face hs

-- No face stands twice.
abbrev pub Distinct : List NextHop → Type 0
Distinct [] = Unit
Distinct (h ∷ hs) = (has_hop h.nexthop hs ≡ false) × Distinct hs

-- Two lists give the same cost over every face.
abbrev pub SameHops : List NextHop → List NextHop → Type 0
SameHops hs hs' = (face : ℕ) → cost_of face hs ≡ cost_of face hs'

pub has_hop-put_hop :
    (f face cost : ℕ) (hs : List NextHop)
    → has_hop f (put_hop face cost hs) ≡ (if face == f then true else has_hop f hs)
unfolding has_hop put_hop
has_hop-put_hop f face cost [] = refl
has_hop-put_hop f face cost (h ∷ hs) = ground (arith, has_hop-put_hop f face cost hs)

pub cost_of-put_hop :
    (f face cost : ℕ) (hs : List NextHop)
    → cost_of f (put_hop face cost hs) ≡ (if face == f then some cost else cost_of f hs)
unfolding cost_of put_hop
cost_of-put_hop f face cost [] = refl
cost_of-put_hop f face cost (h ∷ hs) = ground (arith, cost_of-put_hop f face cost hs)

pub put_hop-Distinct :
    (face cost : ℕ) (hs : List NextHop) → Distinct hs → Distinct (put_hop face cost hs)
unfolding put_hop has_hop
put_hop-Distinct face cost [] d = (refl, tt)
put_hop-Distinct face cost (h ∷ hs) d =
    ground (arith, put_hop-Distinct face cost hs, has_hop-put_hop h.nexthop face cost hs)

pub cost_of_absent : (f : ℕ) (hs : List NextHop) → has_hop f hs ≡ false → cost_of f hs ≡ none
unfolding cost_of has_hop
cost_of_absent f [] h = refl
cost_of_absent f (x ∷ hs) h = ground (arith, cost_of_absent f hs)

pub cost_of-erase_hop :
    (f face : ℕ) (hs : List NextHop)
    → Distinct hs
    → cost_of f (erase_hop face hs) ≡ (if face == f then none else cost_of f hs)
unfolding cost_of erase_hop
cost_of-erase_hop f face [] d = ground arith
cost_of-erase_hop f face (h ∷ hs) d =
    ground (arith, cost_of-erase_hop f face hs, cost_of_absent h.nexthop hs)

has_hop-erase_hop :
    (f face : ℕ) (hs : List NextHop) → has_hop f hs ≡ false → has_hop f (erase_hop face hs) ≡ false
unfolding has_hop erase_hop
has_hop-erase_hop f face [] h = refl
has_hop-erase_hop f face (x ∷ hs) h = ground (arith, has_hop-erase_hop f face hs)

pub erase_hop-Distinct : (face : ℕ) (hs : List NextHop) → Distinct hs → Distinct (erase_hop face hs)
unfolding erase_hop
erase_hop-Distinct face [] d = tt
erase_hop-Distinct face (h ∷ hs) d =
    ground (arith, erase_hop-Distinct face hs, has_hop-erase_hop h.nexthop face hs)
