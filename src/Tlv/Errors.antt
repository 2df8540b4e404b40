-- ===== src/Tlv/Errors.antt =====
-- Go's (value, error) pairs of ndn/tlv, the errors of ndn/tlv/errors.go and ndn/util/errors.go
-- that the codec returns, and the run-time panic of a slice expression out of range.

pub data Error : Type 0 where
  non_existent too_short too_long out_of_range : Error
  buffer_too_short missing_length type_out_of_range : Error

pub data Result {ℓ} (A : Type ℓ) : Type ℓ where
  ok : A → Result A
  err : Error → Result A
  panic : Result A

infixl 5 ◌>>=◌
abbrev pub ◌>>=◌ {ℓ κ} : {A : Type ℓ} {B : Type κ} → Result A → (A → Result B) → Result B
ok a >>= f = f a
err e >>= f = err e
panic >>= f = panic
