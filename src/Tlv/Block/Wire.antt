-- ===== src/Tlv/Block/Wire.antt =====
-- A block is read back from its wire, and when DecodeBlock panics.
use ya_nfd.Prelude.{
  ◌∙◌, ap, [], inl, inr, Bool-cases, length, ◌==◌, ℕ, ◌+◌, ◌%◌, ◌^◌, ◌≤◌, ◌≡◌, ◌↔◌, ◌⊎◌, refl,
  false, List, ◌++◌, append_assoc, length, length-append, drop, take-append, drop-append, ltb, ◌==◌,
  IsU32, IsU64, arith,
}
use native.Mathlib.Decide.{ℕ_discrete}
use ya_nfd.Name.{same_name, same_name→eq}
use ya_nfd.Tlv.Errors.{ok, panic}
use ya_nfd.Tlv.VarNum.{put_uint64, encode_var_num}
use ya_nfd.Tlv.VarNum.RoundTrip.{decode_var_num-encode_var_num, take_size}
use ya_nfd.Tlv.Block.{Block, new_block, set_value, encode_wire, decode_value, decode_block}

size_pos : (v : ℕ) → 1 ≤ length (encode_var_num v)
unfolding encode_var_num
size_pos v = ground arith

decode_head :
    (t declared : ℕ) (rest : List ℕ)
    → IsU32 t
    → IsU64 declared
    → decode_block (encode_var_num t ++ (encode_var_num declared ++ rest))
      ≡ decode_value t
          (length (encode_var_num t) + length (encode_var_num declared))
          declared
          (encode_var_num t ++ (encode_var_num declared ++ rest))
unfolding decode_block
decode_head t declared rest h k =
    let wide : IsU64 t = omega arith in
    let small : ltb 0xFFFF_FFFF t ≡ false = ground arith in
    rw
      (
        decode_var_num-encode_var_num t (encode_var_num declared ++ rest) wide,
        take_size t (encode_var_num declared ++ rest),
        decode_var_num-encode_var_num declared rest k,
        small,
        more,
      )
      refl
  where
    more :
        (length (encode_var_num t)
          == length (encode_var_num t ++ (encode_var_num declared ++ rest)))
        ≡ false
    more = ground (
      arith,
      length-append (encode_var_num t) (encode_var_num declared ++ rest),
      length-append (encode_var_num declared) rest,
      size_pos declared,
    )

size_bound : (v : ℕ) → length (encode_var_num v) ≤ 9
unfolding encode_var_num put_uint64
size_bound v = ground arith

-- A value that is there in full.
decode_value_fits :
    (t head declared : ℕ) (w rest : List ℕ)
    → length w ≡ head + declared
    → IsU64 (length w)
    → decode_value t head declared (w ++ rest)
      ≡ ok (record { tlv_type = t; value = drop head w; wire = w }, length w)
unfolding decode_value
decode_value_fits t head declared w rest h k =
    let size : (head + declared) % 2 ^ 64 ≡ length w = omega arith in
    let long : ltb (length (w ++ rest)) (length w) ≡ false = ground (arith, length-append w rest) in
    let tidy : ltb (length w) head ≡ false = ground arith in
    rw (size, long, tidy, take-append (length w) w rest refl) refl

-- A new block is read back from its wire with the wire's size, whatever bytes follow, if the wire is shorter than 2^64.
pub decode_block-encode_wire :
    (t : ℕ) (value rest : List ℕ)
    → IsU32 t
    → IsU64 (length (encode_wire (new_block t value)).wire)
    → decode_block ((encode_wire (new_block t value)).wire ++ rest)
      ≡ ok (encode_wire (new_block t value), length (encode_wire (new_block t value)).wire)
unfolding encode_wire new_block
decode_block-encode_wire t value rest h k =
    let type = encode_var_num t in
    let size = encode_var_num (length value) in
    let lengths = length-append type (size ++ value) in
    let lengths' = length-append size value in
    let split : (type ++ (size ++ value)) ++ rest ≡ type ++ (size ++ (value ++ rest)) =
      rw (append_assoc, append_assoc) refl in
    let body : drop (length type + length size) (type ++ (size ++ value)) ≡ value =
      rw⁻¹ (append_assoc type size value)
        (drop-append (length type + length size) (type ++ size) value (length-append type size)) in
    let fits =
      decode_value_fits t (length type + length size) (length value) (type ++ (size ++ value)) rest
        (omega arith) k in
    rw (split, decode_head t (length value) (value ++ rest) h (omega arith))
      (rw⁻¹ split (rw (fits, body) refl))

-- With a 32-bit type, decoding a head and what follows panics exactly when the size of the whole block is 2^64 or more.
pub decode_block-panics :
    (t declared : ℕ) (rest : List ℕ)
    → IsU32 t
    → IsU64 declared
    → (decode_block (encode_var_num t ++ (encode_var_num declared ++ rest)) ≡ panic)
      ↔ (2 ^ 64 ≤ length (encode_var_num t) + length (encode_var_num declared) + declared)
unfolding decode_value
decode_block-panics t declared rest h k =
    let lengths = length-append (encode_var_num t) (encode_var_num declared ++ rest) in
    let lengths' = length-append (encode_var_num declared) rest in
    let short = size_bound t in
    let short' = size_bound declared in rw (decode_head t declared rest h k) (ground arith)

pub wire_length :
    (t : ℕ) (value : List ℕ) → length (encode_wire (new_block t value)).wire ≤ 18 + length value
unfolding encode_wire new_block
wire_length t value =
    let size = encode_var_num (length value) in
    let lengths = length-append (encode_var_num t) (size ++ value) in
    let lengths' = length-append size value in
    let short = size_bound t in let short' = size_bound (length value) in omega arith

encode_wire_fresh :
    (b : Block)
    → (b.wire ≡ []) ⊎ (b.wire ≡ (encode_wire (new_block b.tlv_type b.value)).wire)
    → (encode_wire b).wire ≡ (encode_wire (new_block b.tlv_type b.value)).wire
unfolding encode_wire new_block
encode_wire_fresh b (inl e) = ground arith
encode_wire_fresh b (inr e) = elim (Bool-cases (length b.wire == 0)) [
  | inl z ↦ rw (encode_wire, z) refl
  | inr z ↦ rw (encode_wire, z) e
]

-- A block whose wire is empty or its own has the wire of its new value after SetValue and Wire.
pub encode_wire-set_value :
    (b : Block) (value : List ℕ)
    → (b.wire ≡ []) ⊎ (b.wire ≡ (encode_wire (new_block b.tlv_type b.value)).wire)
    → (encode_wire (set_value b value)).wire ≡ (encode_wire (new_block b.tlv_type value)).wire
unfolding set_value
encode_wire-set_value b value h = elim (Bool-cases (same_name ℕ_discrete b.value value)) [
  | inl s ↦
      let same = same_name→eq ℕ_discrete b.value value s in
      rw (set_value, s)
        (encode_wire_fresh b h ∙ ap (λ v. (encode_wire (new_block b.tlv_type v)).wire) same)
  | inr s ↦ rw (set_value, s) (encode_wire_fresh (record b { value = value; wire = [] }) (inl refl))
]
