-- ===== src/Tlv/Block.antt =====
-- ndn/tlv/block.go: blocks without parsed subelements, their wire and DecodeBlock.
pub mod Wire
use ya_nfd.Prelude.{
  ℕ, ◌+◌, ◌%◌, ◌^◌, Bool, true, false, List, [], ◌∷◌, ◌++◌, length, take, drop, ltb, ◌==◌,
  if◌then◌else◌,
}
use native.Mathlib.Decide.{ℕ_discrete}
use ya_nfd.Name.{same_name}
use ya_nfd.Tlv.Errors.{
  Result, ok, err, panic, out_of_range, missing_length, buffer_too_short, ◌>>=◌,
}
use ya_nfd.Tlv.VarNum.{encode_var_num, decode_var_num}

pub record Block : Type 0 where
  pub tlv_type : ℕ
  pub value : List ℕ
  pub wire : List ℕ

-- `NewBlock`
unfoldable pub new_block : ℕ → List ℕ → Block
new_block t value = record { tlv_type = t; value = value; wire = [] }

unfoldable pub new_empty_block : ℕ → Block
new_empty_block t = record { tlv_type = t; value = []; wire = [] }

-- `SetValue`: a new value empties the wire.
unfoldable pub set_value : Block → List ℕ → Block
set_value b value =
    if same_name ℕ_discrete b.value value then b else record b { value = value; wire = [] }

-- `Wire`: a wire that is there is kept.
unfoldable pub encode_wire : Block → Block
encode_wire b =
    if length b.wire == 0
    then record b {
      wire = encode_var_num b.tlv_type ++ (encode_var_num (length b.value) ++ b.value);
    }
    else b

-- The value of the block whose head has `head` bytes, with a declared length: the size wraps around,
-- and a slice whose end is before its start panics.
unfoldable pub decode_value : ℕ → ℕ → ℕ → List ℕ → Result (Block × ℕ)
decode_value t head declared wire =
    let size = (head + declared) % 2 ^ 64 in
    if ltb (length wire) size
    then err buffer_too_short
    else if ltb size head
    then panic
    else ok
        (record { tlv_type = t; value = drop head (take size wire); wire = take size wire }, size)

unfoldable pub decode_block : List ℕ → Result (Block × ℕ)
decode_block wire = do
  (t, type_size) ← decode_var_num wire
  let rest : Result (Block × ℕ) = do
    (declared, length_size) ← decode_var_num (drop type_size wire)
    decode_value t (type_size + length_size) declared wire
  (if ltb 0xFFFF_FFFF t
      then err out_of_range
      else if type_size == length wire
      then err missing_length
      else rest)
