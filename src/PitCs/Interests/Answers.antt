-- ===== src/PitCs/Interests/Answers.antt =====
-- Which entries of table/pit-cs-tree.go are for an Interest, and which in-records have its nonce.
use ya_nfd.Prelude.{
  ℕ, zero, suc, ◌<◌, ◌≢◌, [], ◌∷◌, ◌==◌, ◌&&◌, not, get_elem?, ◌≡◌, refl, ap, sym, Bool, true,
  false, Option, none, some, List, arith, Bool-cases, inl, inr,
}
use ya_nfd.Name.{same_name→eq, same_name_self}
use ya_nfd.Heap.Arrays.{count}
use ya_nfd.Packets.{Component, Name, Interest}
use ya_nfd.Pit.{InRecord, PitEntry}
use ya_nfd.PitCs.Interests.{
  or_empty, is_nonce, same_bool, same_hint, matches, find_first, is_looping,
}
use ya_nfd.PitCs.Interests.Prefixes.{is}

-- An entry has the selectors and the hint of an Interest; a hint without names is as none.
pub record IsFor (e : PitEntry) (interest : Interest) (hint : Option Name) : Type 0 where
  pub prefix : e.can_be_prefix ≡ interest.can_be_prefix
  pub fresh : e.must_be_fresh ≡ interest.must_be_fresh
  pub hinted : or_empty hint ≡ or_empty e.forwarding_hint

-- The record at a place is of another face than `in_face` and has the wanted nonce.
pub record IsRepeated (wanted : Option ℕ) (in_face : ℕ) (rs : List (ℕ × InRecord)) (i face : ℕ)
    (r : InRecord) : Type 0 where
  pub recorded : get_elem? rs i ≡ some (face, r)
  pub elsewhere : face ≢ in_face
  pub same_nonce : wanted ≡ some r.latest_nonce

is_nonce-eq : (wanted : Option ℕ) (m : ℕ) → is_nonce wanted m ≡ true → wanted ≡ some m
is_nonce-eq none m h = ground arith
is_nonce-eq (some n) m h = let same : n ≡ m = ground arith in ap some (same)

pub is_looping-IsRepeated :
    (wanted : Option ℕ) (in_face : ℕ) (rs : List (ℕ × InRecord))
    → is_looping wanted in_face rs ≡ true
    → (i : ℕ) × (face : ℕ) × (r : InRecord) × IsRepeated wanted in_face rs i face r
unfolding is_looping
is_looping-IsRepeated wanted in_face [] h = absurd (ground arith)
is_looping-IsRepeated wanted in_face ((face, r) ∷ rs) h =
    elim (Bool-cases (not (face == in_face) && is_nonce wanted r.latest_nonce)) [
      | inl here ↦ (
        0,
        face,
        r,
        record {
          recorded = refl;
          elsewhere = λ e. ground arith;
          same_nonce = is_nonce-eq wanted r.latest_nonce (ground arith);
        },
      )
      | inr later ↦
          let (i, g, q, x) = is_looping-IsRepeated wanted in_face rs (ground arith) in
          (
            suc i,
            g,
            q,
            record { recorded = x.recorded; elsewhere = x.elsewhere; same_nonce = x.same_nonce },
          )
    ]

pub is_looping-at :
    (wanted : Option ℕ) (in_face : ℕ) (rs : List (ℕ × InRecord)) (i face : ℕ) (r : InRecord)
    → IsRepeated wanted in_face rs i face r
    → is_looping wanted in_face rs ≡ true
unfolding is_looping
is_looping-at wanted in_face [] i face r x = let at = x.recorded in absurd (ground arith)
is_looping-at wanted in_face ((f, q) ∷ rs) zero face r x =
    let at = x.recorded in
    let apart = x.elsewhere in
    let nonce = x.same_nonce in
    let face_eq : f ≡ face = ground arith in
    let record_eq : q ≡ r = ground arith in
    let away : (f == in_face) ≡ false = ground arith in rw (away, record_eq, nonce) (ground arith)
is_looping-at wanted in_face ((f, q) ∷ rs) (suc i) face r x =
    let y : IsRepeated wanted in_face rs i face r = record {
      recorded = x.recorded;
      elsewhere = x.elsewhere;
      same_nonce = x.same_nonce;
    } in
    ground (arith, is_looping-at wanted in_face rs i face r y)

pub find_first-none :
    (p : ℕ → Bool) (es : List ℕ) (x : ℕ)
    → find_first p es ≡ none
    → 0 < count (is x) es
    → p x ≡ false
unfolding find_first count
find_first-none p [] x h c = absurd (omega arith)
find_first-none p (e ∷ es) x h c = elim (Bool-cases (p e)) [
  | inl it ↦ absurd (ground arith)
  | inr other ↦
      let rest = find_first-none p es x in
      elim (Bool-cases (e == x)) [
        | inl here ↦ let same : e ≡ x = ground arith in rw (sym same) other
        | inr away ↦ rest (ground arith) (ground arith)
      ]
]

module _ (equal : Discrete Component) where
  same_bool-eq : (a b : Bool) → same_bool a b ≡ true → a ≡ b
  unfolding same_bool
  same_bool-eq true b h = sym h
  same_bool-eq false b h = ground arith

  same_hint-eq :
      (hint cur : Option Name) → same_hint equal hint cur ≡ true → or_empty hint ≡ or_empty cur
  unfolding same_hint
  same_hint-eq none none h = refl
  same_hint-eq none (some m) h = same_name→eq equal [] m h
  same_hint-eq (some n) none h = same_name→eq equal n [] h
  same_hint-eq (some n) (some m) h = same_name→eq equal n m h

  pub matches-IsFor :
      (e : PitEntry) (interest : Interest) (hint : Option Name)
      → matches equal e interest hint ≡ true
      → IsFor e interest hint
  unfolding matches
  matches-IsFor e interest hint h = record {
    prefix = same_bool-eq e.can_be_prefix interest.can_be_prefix (ground arith);
    fresh = same_bool-eq e.must_be_fresh interest.must_be_fresh (ground arith);
    hinted = same_hint-eq hint e.forwarding_hint (ground arith);
  }

  or_empty-same_hint :
      (hint cur : Option Name) → or_empty hint ≡ or_empty cur → same_hint equal hint cur ≡ true
  unfolding same_hint
  or_empty-same_hint none none h = refl
  or_empty-same_hint none (some m) h = rw (sym h) (same_name_self equal [])
  or_empty-same_hint (some n) none h = rw h (same_name_self equal [])
  or_empty-same_hint (some n) (some m) h = rw h (same_name_self equal m)

  pub IsFor-matches :
      (e : PitEntry) (interest : Interest) (hint : Option Name)
      → IsFor e interest hint
      → matches equal e interest hint ≡ true
  unfolding matches same_bool
  IsFor-matches e interest hint x =
      let hints = or_empty-same_hint hint e.forwarding_hint x.hinted in
      let prefix = x.prefix in let fresh = x.fresh in ground arith
