-- ===== src/Pit/Records.antt =====
-- What the entries' operations do to their records and to the expiration time.
use ya_nfd.Prelude.{ℕ, ◌≤◌, ◌≡◌, some, List, [], ◌∷◌, ltb, if◌then◌else◌, arith}
use ya_nfd.Prelude.Assoc
use ya_nfd.Prelude.Assoc.{get-put}
use ya_nfd.Pit.{InRecord, OutRecord, PitEntry, find, latest_in, latest_out, update_expiration_time}

latest_in_le : (t : ℕ) (rs : List (ℕ × InRecord)) → t ≤ latest_in t rs
unfolding latest_in
latest_in_le t [] = omega arith
latest_in_le t ((f, r) ∷ rs) =
    ground (arith, latest_in_le (if ltb t r.expiration_time then r.expiration_time else t) rs)

latest_out_le : (t : ℕ) (rs : List (ℕ × OutRecord)) → t ≤ latest_out t rs
unfolding latest_out
latest_out_le t [] = omega arith
latest_out_le t ((f, r) ∷ rs) =
    ground (arith, latest_out_le (if ltb t r.expiration_time then r.expiration_time else t) rs)

latest_in_ge :
    (t k : ℕ) (rs : List (ℕ × InRecord)) (r : InRecord)
    → find k rs ≡ some r
    → r.expiration_time ≤ latest_in t rs
unfolding latest_in Assoc.get
latest_in_ge t k [] r e = ground arith
latest_in_ge t k ((f, q) ∷ rs) r e =
    let next : ℕ = if ltb t q.expiration_time then q.expiration_time else t in
    ground (arith, latest_in_ge next k rs r, latest_in_le next rs, e)

latest_out_ge :
    (t k : ℕ) (rs : List (ℕ × OutRecord)) (r : OutRecord)
    → find k rs ≡ some r
    → r.expiration_time ≤ latest_out t rs
unfolding latest_out Assoc.get
latest_out_ge t k [] r e = ground arith
latest_out_ge t k ((f, q) ∷ rs) r e =
    let next : ℕ = if ltb t q.expiration_time then q.expiration_time else t in
    ground (arith, latest_out_ge next k rs r, latest_out_le next rs, e)

-- After its timer is updated, an entry expires neither before now nor before any of its in- and out-records.
pub update_expiration_time-latest :
    (entry : PitEntry) (now k : ℕ)
    → (now ≤ (update_expiration_time entry now).expiration_time)
      × ((r : InRecord)
          → find k entry.in_records ≡ some r
          → r.expiration_time ≤ (update_expiration_time entry now).expiration_time)
      × ((r : OutRecord)
          → find k entry.out_records ≡ some r
          → r.expiration_time ≤ (update_expiration_time entry now).expiration_time)
unfolding update_expiration_time
update_expiration_time-latest entry now k =
    let first = latest_in_le now entry.in_records in
    let second = latest_out_le (latest_in now entry.in_records) entry.out_records in
    (
      omega arith,
      (λ r e. let h = latest_in_ge now k entry.in_records r e in omega arith),
      (λ r e. latest_out_ge (latest_in now entry.in_records) k entry.out_records r e),
    )
