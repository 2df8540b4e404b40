-- ===== src/Tlv/NniBlock.antt =====
-- ndn/tlv/helpers.go: blocks that hold a non-negative integer.
use ya_nfd.Prelude.{
  ℕ, ◌-◌, ◌≤◌, ◌≡◌, Option, none, some, List, [], ◌++◌, length, drop, replicate, ltb, leb,
  if◌then◌else◌, IsU32, IsU64, arith,
}
use ya_nfd.Tlv.Errors.{Result, ok, err, non_existent, buffer_too_short, too_long}
use ya_nfd.Tlv.VarNum.{put_uint32, put_uint64, from_bytes, big_endian}
use ya_nfd.Tlv.Block.{Block, new_block, encode_wire, decode_block}
use ya_nfd.Tlv.Block.Wire.{decode_block-encode_wire, wire_length}

unfoldable pub encode_nni_block : ℕ → ℕ → Block
encode_nni_block t v =
    let value = put_uint64 v in
    if leb v 0xFF
    then new_block t (drop 7 value)
    else if leb v 0xFFFF
    then new_block t (drop 6 value)
    else if leb v 0xFFFF_FFFF
    then new_block t (drop 4 value)
    else new_block t value

-- `copy(buf[8-len(value):], value)` into eight zeros, then `Uint64`; none is a nil block.
unfoldable pub decode_nni_block : Option Block → Result ℕ
decode_nni_block none = err non_existent
decode_nni_block (some b) =
    if ltb (length b.value) 1
    then err buffer_too_short
    else if ltb 8 (length b.value)
    then err too_long
    else ok (big_endian (replicate (8 - length b.value) 0 ++ b.value))

value_bound : (t v : ℕ) → length (encode_nni_block t v).value ≤ 8
unfolding encode_nni_block new_block put_uint64 put_uint32
value_bound t v = ground arith

unwired : (t v : ℕ) → encode_nni_block t v ≡ new_block t (encode_nni_block t v).value
unfolding encode_nni_block new_block
unwired t v = ground arith

value-decode :
    (t v : ℕ) (wire : List ℕ)
    → IsU64 v
    → decode_nni_block (some (record (encode_nni_block t v) { wire = wire })) ≡ ok v
unfolding decode_nni_block encode_nni_block new_block put_uint64 put_uint32 big_endian from_bytes
value-decode t v wire h = ground arith

-- A number in a block of a 32-bit type is read back from the block's wire, whatever bytes follow.
pub decode_nni_block-encode_nni_block :
    (t v : ℕ) (rest : List ℕ)
    → IsU32 t
    → IsU64 v
    → (b : Block) × (decode_block ((encode_wire (encode_nni_block t v)).wire ++ rest)
        ≡ ok (b, length b.wire))
      × (decode_nni_block (some b) ≡ ok v)
unfolding new_block encode_nni_block
decode_nni_block-encode_nni_block t v rest h k =
    let value = (encode_nni_block t v).value in
    let written = encode_wire (new_block t value) in
    let bound = value_bound t v in
    let size = wire_length t value in
    (written, rw (unwired t v) (decode_block-encode_wire t value rest h (omega arith)), number)
  where
    number : decode_nni_block (some (encode_wire (new_block t (encode_nni_block t v).value))) ≡ ok v
    number = unfold encode_wire new_block decode_nni_block in value-decode t v [] k
