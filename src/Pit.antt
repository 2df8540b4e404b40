-- ===== src/Pit.antt =====
-- table/pit-cs.go: entries of the Pending Interest Table with their in- and out-records. A nonce is
-- a pointer that the pipeline reads before an entry exists, so the operations take its number.
pub mod Records
use native.Mathlib.Decide.{ℕ_discrete}
use ya_nfd.Prelude.{
  ℕ, ◌+◌, Bool, true, false, Option, none, some, List, [], ◌∷◌, ltb, if◌then◌else◌,
}
use ya_nfd.Prelude.Assoc
use ya_nfd.Packets.{Name, Interest, PendingPacket}

-- The map from face numbers to records, in the order in which a loop meets them.
abbrev pub find : {V : Type 0} → ℕ → List (ℕ × V) → Option V
find = Assoc.get ℕ_discrete

pub record InRecord : Type 0 where
  pub face : ℕ
  pub latest_timestamp : ℕ
  pub latest_interest : PendingPacket Interest
  pub latest_nonce : ℕ
  pub expiration_time : ℕ
  pub pit_token : List ℕ

pub record OutRecord : Type 0 where
  pub face : ℕ
  pub latest_timestamp : ℕ
  pub latest_interest : PendingPacket Interest
  pub latest_nonce : ℕ
  pub expiration_time : ℕ

pub record PitEntry : Type 0 where
  pub name : Name
  pub can_be_prefix : Bool
  pub must_be_fresh : Bool
  pub forwarding_hint : Option Name
  pub in_records : List (ℕ × InRecord)
  pub out_records : List (ℕ × OutRecord)
  pub expiration_time : ℕ
  pub satisfied : Bool
  pub token : ℕ

-- 4,000 milliseconds in nanoseconds.
abbrev pub record_lifetime : ℕ
record_lifetime = 4_000_000_000

unfoldable pub insert_in_record :
    PitEntry → ℕ → PendingPacket Interest → ℕ → ℕ → List ℕ → PitEntry × Bool
insert_in_record entry now interest nonce face token = elim (find face entry.in_records) [
  | none ↦ (
    record entry {
      in_records =
          Assoc.put ℕ_discrete face
            (record {
              face = face;
              latest_timestamp = now;
              latest_interest = interest;
              latest_nonce = nonce;
              expiration_time = now + record_lifetime;
              pit_token = token;
            })
            entry.in_records;
    },
    false,
  )
  | some r ↦ (
    record entry {
      in_records =
          Assoc.put ℕ_discrete face
            (record r {
              latest_timestamp = now;
              latest_interest = interest;
              latest_nonce = nonce;
              expiration_time = now + record_lifetime;
            })
            entry.in_records;
    },
    true,
  )
]

-- A new record and an updated one have the same fields.
unfoldable pub insert_out_record : PitEntry → ℕ → PendingPacket Interest → ℕ → ℕ → PitEntry
insert_out_record entry now interest nonce face = record entry {
  out_records =
      Assoc.put ℕ_discrete face
        (record {
          face = face;
          latest_timestamp = now;
          latest_interest = interest;
          latest_nonce = nonce;
          expiration_time = now + record_lifetime;
        })
        entry.out_records;
}

-- The loops of `UpdateExpirationTimer`: the latest of a time and those of the records.
unfoldable pub latest_in : ℕ → List (ℕ × InRecord) → ℕ
latest_in t [] = t
latest_in t ((f, r) ∷ rs) = latest_in (if ltb t r.expiration_time then r.expiration_time else t) rs

unfoldable pub latest_out : ℕ → List (ℕ × OutRecord) → ℕ
latest_out t [] = t
latest_out t ((f, r) ∷ rs) =
    latest_out (if ltb t r.expiration_time then r.expiration_time else t) rs

-- `UpdateExpirationTimer`, less the note to the table that the time changed.
unfoldable pub update_expiration_time : PitEntry → ℕ → PitEntry
update_expiration_time entry now = record entry {
  expiration_time = latest_out (latest_in now entry.in_records) entry.out_records;
}

unfoldable pub clear_in_records : PitEntry → PitEntry
clear_in_records entry = record entry { in_records = [] }

unfoldable pub clear_out_records : PitEntry → PitEntry
clear_out_records entry = record entry { out_records = [] }
