-- ===== src/Tlv/VarNum/RoundTrip.antt =====
-- What is encoded is decoded again.
use ya_nfd.Prelude.{
  ℕ, ◌+◌, ◌%◌, ◌^◌, ◌≡◌, refl, false, List, ◌++◌, length, drop, ltb, IsU32, IsU64, arith,
}
use ya_nfd.Tlv.Errors.{ok}
use ya_nfd.Tlv.VarNum.{encode_var_num, decode_var_num, encode_nni, decode_nni, decode_type_length}

-- Decoding reads back the number that was encoded and its size, whatever bytes follow.
pub decode_var_num-encode_var_num :
    (v : ℕ) (rest : List ℕ)
    → IsU64 v
    → decode_var_num (encode_var_num v ++ rest) ≡ ok (v, length (encode_var_num v))
unfolding encode_var_num decode_var_num
decode_var_num-encode_var_num v rest h = ground arith

-- Decoding a non-negative integer reads back the number that was encoded.
pub decode_nni-encode_nni : (v : ℕ) → IsU64 v → decode_nni (encode_nni v) ≡ ok v
unfolding encode_nni decode_nni
decode_nni-encode_nni v h = ground arith

pub take_size :
    (v : ℕ) (rest : List ℕ) → drop (length (encode_var_num v)) (encode_var_num v ++ rest) ≡ rest
unfolding encode_var_num
take_size v rest = ground arith

-- The head of a block that was written with a 32-bit type and a 64-bit length is read back, with the
-- size of the whole block modulo 2^64, whatever bytes follow.
pub decode_type_length-encode_var_num :
    (t l : ℕ) (rest : List ℕ)
    → IsU32 t
    → IsU64 l
    → decode_type_length (encode_var_num t ++ (encode_var_num l ++ rest))
      ≡ ok (t, l, (length (encode_var_num t) + length (encode_var_num l) + l) % 2 ^ 64)
unfolding decode_type_length
decode_type_length-encode_var_num t l rest h k =
    let wide : IsU64 t = omega arith in
    let small : ltb 0xFFFF_FFFF t ≡ false = ground arith in
    rw
      (
        decode_var_num-encode_var_num t (encode_var_num l ++ rest) wide,
        take_size t (encode_var_num l ++ rest),
        decode_var_num-encode_var_num l rest k,
        small,
      )
      refl
