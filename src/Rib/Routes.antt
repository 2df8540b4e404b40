-- ===== src/Rib/Routes.antt =====
-- What the loops of table/rib.go do to the routes of an entry.
use ya_nfd.Prelude.{
  ℕ, suc, ◌-◌, ◌<◌, ◌≡◌, ◌==◌, ◌&&◌, ◌∷◌, length, Option-cases, refl, ap, Option, none, some, List,
  [], if◌then◌else◌, arith, Bool-cases, inl, inr,
}
use ya_nfd.Rib.{Route, put_route, erase_first, is_route}

-- The first route of a face and an origin, and the routes of others.
unfoldable pub route_of : ℕ → ℕ → List Route → Option Route
route_of face origin [] = none
route_of face origin (x ∷ xs) =
    let rest = route_of face origin xs in
    if (x.face_id == face) && (x.origin == origin) then some x else rest

unfoldable pub other_routes : ℕ → ℕ → List Route → List Route
other_routes face origin [] = []
other_routes face origin (x ∷ xs) =
    let rest = other_routes face origin xs in
    if (x.face_id == face) && (x.origin == origin) then rest else x ∷ rest

-- The routes `rs'` are `rs` with the route `r`, instead of the first one of its face and origin, or
-- as one more if there was none; the others are the same, in their order.
pub record IsWith (r : Route) (rs rs' : List Route) : Type 0 where
  pub there : route_of r.face_id r.origin rs' ≡ some r
  pub others : other_routes r.face_id r.origin rs' ≡ other_routes r.face_id r.origin rs
  pub number :
      length rs'
      ≡ (elim (route_of r.face_id r.origin rs) [ none ↦ suc (length rs) | some x ↦ length rs ])

-- The routes `rs'` are `rs` with one less of the face and origin, if there was one; the others are the
-- same, in their order.
pub record IsWithout (face origin : ℕ) (rs rs' : List Route) : Type 0 where
  pub left : other_routes face origin rs' ≡ other_routes face origin rs
  pub fewer :
      length rs' ≡ (elim (route_of face origin rs) [ none ↦ length rs | some x ↦ length rs - 1 ])

pub put_route-IsWith : (r : Route) (rs : List Route) → IsWith r rs (put_route r rs)
unfolding put_route route_of other_routes
put_route-IsWith r [] = record { there = ground arith; others = ground arith; number = refl }
put_route-IsWith r (x ∷ xs) =
    let rest = put_route-IsWith r xs in
    let there = rest.there in
    let same = rest.others in
    let number = rest.number in
    elim (Bool-cases ((x.face_id == r.face_id) && (x.origin == r.origin))) [
      | inl it ↦
          let face : x.face_id ≡ r.face_id = ground arith in
          let origin : x.origin ≡ r.origin = ground arith in
          rw (put_route, it)
            (record {
              there = rw it (rw (face, origin) refl);
              others = rw it refl;
              number = rw it refl;
            })
      | inr other ↦
          rw (put_route, other)
            (record {
              there = rw other there;
              others = rw other (ap (◌∷◌ x) same);
              number =
                  rw (other, number)
                    (elim (Option-cases (route_of r.face_id r.origin xs)) [
                      | inl n ↦ rw n refl
                      | inr (y, f) ↦ rw f refl
                    ]);
            })
    ]

length-route_of :
    (face origin : ℕ) (rs : List Route) (x : Route)
    → route_of face origin rs ≡ some x
    → 0 < length rs
unfolding route_of
length-route_of face origin [] x h = ground arith
length-route_of face origin (y ∷ rs) x h = omega arith

pub erase_first-IsWithout :
    (face origin : ℕ) (rs : List Route)
    → IsWithout face origin rs (erase_first (is_route face origin) rs)
unfolding erase_first route_of other_routes
erase_first-IsWithout face origin [] = record { left = refl; fewer = refl }
erase_first-IsWithout face origin (x ∷ xs) =
    let rest = erase_first-IsWithout face origin xs in
    let left = rest.left in
    let fewer = rest.fewer in
    elim (Bool-cases ((x.face_id == face) && (x.origin == origin))) [
      | inl it ↦ rw (erase_first, it) (record { left = rw it refl; fewer = rw it (omega arith) })
      | inr other ↦
          rw (erase_first, other)
            (record {
              left = rw other (ap (◌∷◌ x) left);
              fewer =
                  rw (other, fewer)
                    (elim (Option-cases (route_of face origin xs)) [
                      | inl n ↦ rw n refl
                      | inr (y, f) ↦ rw f (omega (arith, length-route_of face origin xs y f))
                    ]);
            })
    ]
