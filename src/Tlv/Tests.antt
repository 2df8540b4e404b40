-- ===== src/Tlv/Tests.antt =====
-- The codec on concrete numbers.
use ya_nfd.Prelude.{refl, some, ◌+◌, ◌^◌, ◌≡◌, ◌≤◌, ◌↔◌, IsU64, refl, [], ◌∷◌, ◌++◌, length, arith}
use ya_nfd.Tlv.Errors.{ok, panic}
use ya_nfd.Tlv.NniBlock.{encode_nni_block, decode_nni_block, decode_nni_block-encode_nni_block}
use ya_nfd.Tlv.Block.{Block, new_block, encode_wire, decode_block}
use ya_nfd.Tlv.Block.Wire.{decode_block-encode_wire, decode_block-panics}
use ya_nfd.Tlv.VarNum.{put_uint16, encode_var_num}

encode_run : encode_var_num 300 ≡ 0xFD ∷ 1 ∷ 44 ∷ []
unfolding encode_var_num put_uint16
encode_run = refl

decode_block-encode_wire_example :
    decode_block ((encode_wire (new_block 7 (1 ∷ 2 ∷ []))).wire ++ (9 ∷ []))
    ≡ ok (
      encode_wire (new_block 7 (1 ∷ 2 ∷ [])),
      length (encode_wire (new_block 7 (1 ∷ 2 ∷ []))).wire,
    )
decode_block-encode_wire_example =
    decode_block-encode_wire 7 (1 ∷ 2 ∷ []) (9 ∷ []) (omega arith) short
  where
    short : IsU64 (length (encode_wire (new_block 7 (1 ∷ 2 ∷ []))).wire)
    short = unfold encode_wire new_block encode_var_num in omega arith

decode_block-panics_example :
    (decode_block (encode_var_num 7 ++ (encode_var_num 0xFFFF_FFFF_FFFF_FFFF ++ [])) ≡ panic) ↔ (
      2 ^ 64
      ≤ length (encode_var_num 7)
        + length (encode_var_num 0xFFFF_FFFF_FFFF_FFFF)
        + 0xFFFF_FFFF_FFFF_FFFF)
decode_block-panics_example =
    decode_block-panics 7 0xFFFF_FFFF_FFFF_FFFF [] (omega arith) (omega arith)

decode_nni_block-encode_nni_block_example :
    (b : Block) × (decode_block ((encode_wire (encode_nni_block 5 70000)).wire ++ (9 ∷ []))
      ≡ ok (b, length b.wire))
    × (decode_nni_block (some b) ≡ ok 70000)
decode_nni_block-encode_nni_block_example =
    decode_nni_block-encode_nni_block 5 70000 (9 ∷ []) (omega arith) (omega arith)
