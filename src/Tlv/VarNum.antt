-- ===== src/Tlv/VarNum.antt =====
-- ndn/tlv/helpers.go: variable-size numbers and non-negative integers. A byte slice is a list of
-- numbers.
pub mod RoundTrip
use ya_nfd.Prelude.{
  ℕ, ◌+◌, ◌-◌, ◌*◌, ◌/◌, ◌%◌, ◌^◌, List, [], ◌∷◌, ◌++◌, length, take, drop, replicate, leb, ltb,
  ◌==◌, if◌then◌else◌,
}
use ya_nfd.Tlv.Errors.{Result, ok, err, ◌>>=◌, too_short, too_long, type_out_of_range}

-- `binary.BigEndian.PutUint16`, `PutUint32` and `PutUint64`.
unfoldable pub put_uint16 : ℕ → List ℕ
put_uint16 v = (v / 2 ^ 8 % 256) ∷ (v % 256) ∷ []

unfoldable pub put_uint32 : ℕ → List ℕ
put_uint32 v = (v / 2 ^ 24 % 256) ∷ (v / 2 ^ 16 % 256) ∷ (v / 2 ^ 8 % 256) ∷ (v % 256) ∷ []

unfoldable pub put_uint64 : ℕ → List ℕ
unfolding put_uint32
put_uint64 v = put_uint32 (v / 2 ^ 32) ++ put_uint32 (v % 2 ^ 32)

-- `binary.BigEndian.Uint16`, `Uint32` and `Uint64`: the bytes, most significant first.
unfoldable pub from_bytes : ℕ → List ℕ → ℕ
from_bytes acc [] = acc
from_bytes acc (b ∷ bs) = from_bytes (acc * 256 + b) bs

unfoldable pub big_endian : List ℕ → ℕ
unfolding from_bytes
big_endian = from_bytes 0

unfoldable pub encode_var_num : ℕ → List ℕ
unfolding put_uint16 put_uint32 put_uint64
encode_var_num n =
    if leb n 0xFC
    then (n % 256) ∷ []
    else if leb n 0xFFFF
    then 0xFD ∷ put_uint16 (n % 2 ^ 16)
    else if leb n 0xFFFF_FFFF
    then 0xFE ∷ put_uint32 (n % 2 ^ 32)
    else 0xFF ∷ put_uint64 n

-- The number after a first byte that announces `n` more bytes; `n + 1` is the size that is returned.
unfoldable pub decode_wide : ℕ → List ℕ → Result (ℕ × ℕ)
unfolding big_endian
decode_wide n bytes =
    if ltb (length bytes) (n + 1)
    then err too_short
    else ok (big_endian (take n (drop 1 bytes)), n + 1)

unfoldable pub decode_var_num : List ℕ → Result (ℕ × ℕ)
unfolding decode_wide
decode_var_num [] = err too_short
decode_var_num (b ∷ bs) =
    if leb b 0xFC
    then ok (b, 1)
    else if b == 0xFD
    then decode_wide 2 (b ∷ bs)
    else if b == 0xFE
    then decode_wide 4 (b ∷ bs)
    else decode_wide 8 (b ∷ bs)

-- `value[7:]`, `value[6:]`, `value[4:]` or `value`.
unfoldable pub encode_nni : ℕ → List ℕ
unfolding put_uint64
encode_nni v =
    let value = put_uint64 v in
    if leb v 0xFF
    then drop 7 value
    else if leb v 0xFFFF
    then drop 6 value
    else if leb v 0xFFFF_FFFF
    then drop 4 value
    else value

-- `copy(buf[8-len(value):], value)` into eight zeros, then `Uint64`.
unfoldable pub decode_nni : List ℕ → Result ℕ
unfolding big_endian
decode_nni value =
    if ltb 8 (length value)
    then err too_long
    else if length value == 0
    then err too_short
    else ok (big_endian (replicate (8 - length value) 0 ++ value))

unfoldable pub get_nni_block_size : ℕ → ℕ → ℕ
unfolding encode_var_num
get_nni_block_size t v =
    let type_len = length (encode_var_num t) in
    if leb v 0xFF
    then type_len + 1
    else if leb v 0xFFFF
    then type_len + 2
    else if leb v 0xFFFF_FFFF
    then type_len + 4
    else type_len + 8

-- The type, and the two `int`s as their 64-bit patterns: the length and the size of the block.
unfoldable pub decode_type_length : List ℕ → Result (ℕ × ℕ × ℕ)
unfolding decode_var_num
decode_type_length bytes = do
  (tlv_type, type_size) ← decode_var_num bytes
  let rest : Result (ℕ × ℕ × ℕ) = do
    (tlv_length, length_size) ← decode_var_num (drop type_size bytes)
    ok (tlv_type, tlv_length, (type_size + length_size + tlv_length) % 2 ^ 64)
  if ltb 0xFFFF_FFFF tlv_type then err type_out_of_range else rest
