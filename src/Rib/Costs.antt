-- ===== src/Rib/Costs.antt =====
-- The next hops that `updateNexthopsEnc` of table/rib.go gives the FIB: over each face the lowest cost
-- of its routes.
use native.Mathlib.Decide.{ℕ_discrete}
use ya_nfd.Prelude.{
  ℕ, ◌≡◌, refl, sym, ◌∙◌, true, false, ◌&&◌, Option, none, some, List, [], ◌∷◌, ltb, ◌==◌,
  if◌then◌else◌, arith, Bool-cases, Option-cases, inl, inr,
}
use ya_nfd.Prelude.Assoc
use ya_nfd.Prelude.Assoc.{get-put}
use ya_nfd.Name.{same_name}
use ya_nfd.Rib.{Route, Slot, Fib, min_cost_routes, insert_next_hops, update_next_hops}

-- The lower of a cost and one that there may be.
unfoldable pub lower : ℕ → Option ℕ → Option ℕ
lower c none = some c
lower c (some d) = some (if ltb d c then d else c)

-- The lowest cost of the routes over a face.
unfoldable pub lowest : ℕ → List Route → Option ℕ
lowest face [] = none
lowest face (r ∷ rs) =
    let rest = lowest face rs in if r.face_id == face then lower r.cost rest else rest

abbrev pub with_found : Option ℕ → Option ℕ → Option ℕ
with_found none o = o
with_found (some c) o = lower c o

lower-less : (c d : ℕ) (o : Option ℕ) → ltb d c ≡ true → lower c (lower d o) ≡ lower d o
unfolding lower
lower-less c d none h = ground arith
lower-less c d (some e) h = ground arith

lower-more : (c d : ℕ) (o : Option ℕ) → ltb d c ≡ false → lower c (lower d o) ≡ lower c o
unfolding lower
lower-more c d none h = ground arith
lower-more c d (some e) h = ground arith

get-min_cost_routes :
    (face : ℕ) (m : List (ℕ × ℕ)) (rs : List Route)
    → Assoc.get ℕ_discrete face (min_cost_routes m rs)
      ≡ with_found (Assoc.get ℕ_discrete face m) (lowest face rs)
unfolding min_cost_routes lowest lower
get-min_cost_routes face m [] = ground arith
get-min_cost_routes face m (r ∷ rs) =
    let put = Assoc.put ℕ_discrete r.face_id r.cost m in
    let written = get-put ℕ_discrete r.face_id face r.cost m in
    let with_put = get-min_cost_routes face put rs in
    let without = get-min_cost_routes face m rs in
    let rest = lowest face rs in
    elim (Option-cases (Assoc.get ℕ_discrete r.face_id m)) [
      | inl new ↦
          rw (min_cost_routes, new)
            (with_put ∙ elim (Bool-cases (r.face_id == face)) [
              | inl it ↦
                  let same : r.face_id ≡ face = ground arith in
                  let found : Assoc.get ℕ_discrete face put ≡ some r.cost =
                    written ∙ ground arith in
                  let missing : Assoc.get ℕ_discrete face m ≡ none = ground arith in
                  rw (found, missing, it) refl
              | inr other ↦
                  let kept : Assoc.get ℕ_discrete face put ≡ Assoc.get ℕ_discrete face m =
                    written ∙ ground arith in
                  rw (kept, other) refl
            ])
      | inr (c, known) ↦ elim (Bool-cases (ltb r.cost c)) [
        | inl less ↦
            rw (min_cost_routes, known, less)
              (with_put ∙ elim (Bool-cases (r.face_id == face)) [
                | inl it ↦
                    let same : r.face_id ≡ face = ground arith in
                    let found : Assoc.get ℕ_discrete face put ≡ some r.cost =
                      written ∙ ground arith in
                    let old : Assoc.get ℕ_discrete face m ≡ some c = ground arith in
                    rw (found, old, it) (sym (lower-less c r.cost rest less))
                | inr other ↦
                    let kept : Assoc.get ℕ_discrete face put ≡ Assoc.get ℕ_discrete face m =
                      written ∙ ground arith in
                    rw (kept, other) refl
              ])
        | inr more ↦
            rw (min_cost_routes, known, more)
              (without ∙ elim (Bool-cases (r.face_id == face)) [
                | inl it ↦
                    let same : r.face_id ≡ face = ground arith in
                    let old : Assoc.get ℕ_discrete face m ≡ some c = ground arith in
                    rw (old, it) (sym (lower-more c r.cost rest more))
                | inr other ↦ rw other refl
              ])
      ]
    ]

-- Each key once.
abbrev pub Unique : List (ℕ × ℕ) → Type 0
Unique [] = Unit
Unique ((k, v) ∷ m) = (Assoc.get ℕ_discrete k m ≡ none) × Unique m

put-Unique : (k v : ℕ) (m : List (ℕ × ℕ)) → Unique m → Unique (Assoc.put ℕ_discrete k v m)
unfolding Assoc.put Assoc.get
put-Unique k v [] u = (refl, tt)
put-Unique k v ((j, w) ∷ m) u = ground (arith, put-Unique k v m, get-put ℕ_discrete k j v m)

min_cost_routes-Unique :
    (m : List (ℕ × ℕ)) (rs : List Route) → Unique m → Unique (min_cost_routes m rs)
unfolding min_cost_routes
min_cost_routes-Unique m [] u = u
min_cost_routes-Unique m (r ∷ rs) u =
    let put = Assoc.put ℕ_discrete r.face_id r.cost m in
    let grown = put-Unique r.face_id r.cost m u in
    elim (Option-cases (Assoc.get ℕ_discrete r.face_id m)) [
      | inl new ↦ rw (min_cost_routes, new) (min_cost_routes-Unique put rs grown)
      | inr (c, known) ↦ elim (Bool-cases (ltb r.cost c)) [
        | inl less ↦ rw (min_cost_routes, known, less) (min_cost_routes-Unique put rs grown)
        | inr more ↦ rw (min_cost_routes, known, more) (min_cost_routes-Unique m rs u)
      ]
    ]

-- What the RIB relies on: the costs over the faces under each name, and when the table is in order.
pub record IsFib {C F : Type 0} (equal : Discrete C) (ops : Fib C F)
    (cost : F → List C → ℕ → Option ℕ) (Valid : F → Type 0) : Type 0 where
  pub cleared :
      (f : F) (n m : List C) (face : ℕ)
      → Valid f
      → cost (ops.clear_next_hops f (some n)) m face
        ≡ (if same_name equal m n then none else cost f m face)
  pub inserted :
      (f : F) (n m : List C) (over face c : ℕ)
      → Valid f
      → cost (ops.insert_next_hop f (some n) over c) m face
        ≡ (if same_name equal m n && (over == face) then some c else cost f m face)
  pub clear-Valid : (f : F) (n : List C) → Valid f → Valid (ops.clear_next_hops f (some n))
  pub insert-Valid :
      (f : F) (n : List C) (over c : ℕ) → Valid f → Valid (ops.insert_next_hop f (some n) over c)

module _ {C F : Type 0} (equal : Discrete C) (ops : Fib C F) (cost : F → List C → ℕ → Option ℕ)
    (Valid : F → Type 0) (fib : IsFib equal ops cost Valid) where
  insert_next_hops-cost :
      (f : F) (n x : List C) (m : List (ℕ × ℕ)) (face : ℕ)
      → Valid f
      → Unique m
      → cost (insert_next_hops ops f (some n) m) x face ≡ (
          if same_name equal x n
          then elim (Assoc.get ℕ_discrete face m) [ none ↦ cost f x face | some c ↦ some c ]
          else cost f x face)
  unfolding insert_next_hops Assoc.get
  insert_next_hops-cost f n x [] face v u = ground arith
  insert_next_hops-cost f n x ((over, c) ∷ m) face v u =
      let rest =
        insert_next_hops-cost (ops.insert_next_hop f (some n) over c) n x m face
          (fib.insert-Valid f n over c v) u.1 in
      let here = fib.inserted f n x over face c v in
      let once = u.0 in
      rest ∙ elim (Bool-cases (over == face)) [
        | inl it ↦ let same : over ≡ face = ground arith in ground arith
        | inr other ↦ ground arith
      ]

  insert_next_hops-Valid :
      (f : F) (n : List C) (m : List (ℕ × ℕ)) → Valid f → Valid (insert_next_hops ops f (some n) m)
  unfolding insert_next_hops
  insert_next_hops-Valid f n [] v = v
  insert_next_hops-Valid f n ((over, c) ∷ m) v =
      insert_next_hops-Valid (ops.insert_next_hop f (some n) over c) n m
        (fib.insert-Valid f n over c v)

  -- The entry's name gets, over each face, the lowest cost of the entry's routes, and no next hop over
  -- a face without one; other names keep theirs.
  pub update_next_hops-cost :
      (f : F) (t : Slot C) (n x : List C) (face : ℕ)
      → t.name ≡ some n
      → Valid f
      → cost (update_next_hops ops f t) x face
        ≡ (if same_name equal x n then lowest face t.routes else cost f x face)
  unfolding update_next_hops Assoc.get
  update_next_hops-cost f t n x face named v =
      let least = get-min_cost_routes face [] t.routes in
      let clear = fib.cleared f n x face v in
      rw (update_next_hops, named)
        (insert_next_hops-cost (ops.clear_next_hops f (some n)) n x (min_cost_routes [] t.routes)
            face (fib.clear-Valid f n v) (min_cost_routes-Unique [] t.routes tt)
          ∙ ground arith)

  pub update_next_hops-Valid :
      (f : F) (t : Slot C) (n : List C)
      → t.name ≡ some n
      → Valid f
      → Valid (update_next_hops ops f t)
  unfolding update_next_hops
  update_next_hops-Valid f t n named v =
      rw (update_next_hops, named)
        (insert_next_hops-Valid (ops.clear_next_hops f (some n)) n (min_cost_routes [] t.routes)
          (fib.clear-Valid f n v))
