-- ===== src/Nanopb/Encode.antt =====
-- The encoders of single values in CardPang/Pods/nanopb/pb_encode.c. `src` is the memory from the
-- pointer on, as bytes; a pointer that may be NULL is an `Option`.
pub mod Varint
pub mod Writes
pub mod Settled
use card_pang.Common.{
  ℕ, zero, suc, ◌+◌, ◌-◌, ◌*◌, ◌/◌, ◌%◌, ◌^◌, ◌<◌, Bool, true, false, ◌&&◌, not, Option, none, some,
  List, [], ◌∷◌, length, drop, ltb, leb, ◌==◌, if◌then◌else◌, arith, lt_wf,
}
use card_pang.Nanopb.Types.{
  invalid_field_type, invalid_data_size, bytes_size_exceeded, M, ◌>>◌, ◌>>=◌, return, u64, u32, u8,
  WireType, varint, bits64, string, bits32, wire_code, PbField, pb_ltype, pb_atype, ltype_bool,
  ltype_varint, ltype_uvarint, ltype_svarint, ltype_fixed32, ltype_fixed64, ltype_bytes,
  ltype_string, ltype_submessage, ltype_fixed_length_bytes, atype_static, atype_pointer, load,
  sign_extend,
}
use card_pang.Nanopb.Output.{OStream, fail, pb_write}
use Prim.Native.Nat.{bit_and, bit_or}
use mathlib.Core.Logic.{dite}
use mathlib.Core.WellFounded.{Acc, WellFounded}
use native.Mathlib.Decide.{dec_lt}

pub shift_lt : (value : ℕ) → 0 < value → value / 128 < value
shift_lt value h = omega arith

-- `while (value) { buffer[i] = (pb_byte_t)((value & 0x7F) | 0x80); value >>= 7; i++; }`
fill_buffer : (value : ℕ) → Acc ◌<◌ value → List ℕ
fill_buffer value (Acc.intro _ smaller) =
    dite (dec_lt 0 value)
      (λ h.
        u8 (bit_or (bit_and value 0x7f) 0x80)
        ∷ fill_buffer (value / 128) (smaller (value / 128) (shift_lt value h)))
      (λ _. [])

-- `buffer[i-1] &= 0x7F;`
clear_last : List ℕ → List ℕ
clear_last [] = []
clear_last (b ∷ []) = bit_and b 0x7f ∷ []
clear_last (b ∷ c ∷ bs) = b ∷ clear_last (c ∷ bs)

-- The bytes that `pb_encode_varint` hands to `pb_write`.
unfoldable pub varint_buffer : ℕ → List ℕ
unfolding fill_buffer clear_last lt_wf dec_lt
varint_buffer value =
    if leb value 0x7f then u8 value ∷ [] else clear_last (fill_buffer value (lt_wf.apply value))

-- The `switch` on the data type of the field; `none` is its default.
unfoldable pub wire_type_for : ℕ → Option WireType
wire_type_for ltype =
    if leb ltype ltype_svarint
    then some varint
    else (if ltype == ltype_fixed32
        then some bits32
        else (if ltype == ltype_fixed64
            then some bits64
            else (if ltype == ltype_bytes
                then some string
                else (if ltype == ltype_string
                    then some string
                    else (if ltype == ltype_submessage
                        then some string
                        else (if ltype == ltype_fixed_length_bytes then some string else none))))))

-- `sizeof(bool)` is 1: the byte at the pointer is not 0.
unfoldable pub safe_read_bool : List ℕ → Bool
safe_read_bool [] = false
safe_read_bool (b ∷ bs) = not (b == 0)

-- A signed or unsigned integer of `data_size` bytes at `src`, as the 64-bit value it is cast to.
unfoldable pub read_signed : ℕ → List ℕ → Option ℕ
read_signed data_size src =
    if data_size == 1
    then some (sign_extend 1 (load 1 src))
    else (if data_size == 2
        then some (sign_extend 2 (load 2 src))
        else (if data_size == 4
            then some (sign_extend 4 (load 4 src))
            else (if data_size == 8 then some (load 8 src) else none)))

unfoldable pub read_unsigned : ℕ → List ℕ → Option ℕ
read_unsigned data_size src =
    if data_size == 1
    then some (load 1 src)
    else (if data_size == 2
        then some (load 2 src)
        else (if data_size == 4
            then some (load 4 src)
            else (if data_size == 8 then some (load 8 src) else none)))

-- `while (size < max_size && *p != '\0') { size++; p++; }`
unfoldable pub string_size : ℕ → List ℕ → ℕ
string_size zero p = 0
string_size (suc max_size) [] = 0
string_size (suc max_size) (c ∷ p) = if c == 0 then 0 else suc (string_size max_size p)

module _ {S : Type 0} where
  unfoldable pub pb_encode_varint : ℕ → M (OStream S) (Unit {0})
  pb_encode_varint value = pb_write (varint_buffer value) (length (varint_buffer value))

  -- `int64_t` is its bit pattern: `value < 0` is its top bit, and `~x` is `2^64 - 1 - x`.
  unfoldable pub pb_encode_svarint : ℕ → M (OStream S) (Unit {0})
  pb_encode_svarint value =
      let zigzagged =
        if leb (2 ^ 63) value then 2 ^ 64 - 1 - u64 (value * 2) else u64 (value * 2) in
      pb_encode_varint zigzagged

  unfoldable pub pb_encode_fixed32 : List ℕ → M (OStream S) (Unit {0})
  pb_encode_fixed32 value =
      let val = load 4 value in
      let bytes =
        u8 (bit_and val 0xff)
        ∷ u8 (bit_and (val / 2 ^ 8) 0xff)
        ∷ u8 (bit_and (val / 2 ^ 16) 0xff)
        ∷ u8 (bit_and (val / 2 ^ 24) 0xff)
        ∷ [] in
      pb_write bytes 4

  unfoldable pub pb_encode_fixed64 : List ℕ → M (OStream S) (Unit {0})
  pb_encode_fixed64 value =
      let val = load 8 value in
      let bytes =
        u8 (bit_and val 0xff)
        ∷ u8 (bit_and (val / 2 ^ 8) 0xff)
        ∷ u8 (bit_and (val / 2 ^ 16) 0xff)
        ∷ u8 (bit_and (val / 2 ^ 24) 0xff)
        ∷ u8 (bit_and (val / 2 ^ 32) 0xff)
        ∷ u8 (bit_and (val / 2 ^ 40) 0xff)
        ∷ u8 (bit_and (val / 2 ^ 48) 0xff)
        ∷ u8 (bit_and (val / 2 ^ 56) 0xff)
        ∷ [] in
      pb_write bytes 8

  unfoldable pub pb_encode_tag : WireType → ℕ → M (OStream S) (Unit {0})
  pb_encode_tag wiretype field_number =
      pb_encode_varint (bit_or (u64 (field_number * 8)) (wire_code wiretype))

  tag_for : PbField → Option WireType → M (OStream S) (Unit {0})
  tag_for field none = fail invalid_field_type
  tag_for field (some wiretype) = pb_encode_tag wiretype field.tag

  unfoldable pub pb_encode_tag_for_field : PbField → M (OStream S) (Unit {0})
  unfolding tag_for
  pb_encode_tag_for_field field = tag_for field (wire_type_for (pb_ltype field.type_bits))

  unfoldable pub pb_encode_string : List ℕ → ℕ → M (OStream S) (Unit {0})
  pb_encode_string buffer size = do pb_encode_varint (u64 size); pb_write buffer size

  unfoldable pub pb_enc_bool : List ℕ → M (OStream S) (Unit {0})
  unfolding safe_read_bool
  pb_enc_bool src = pb_encode_varint (if safe_read_bool src then 1 else 0)

  -- `*(const int_least8_t*)src` and the like, by `data_size`; `none` is "invalid data_size".
  encode_int : (ℕ → M (OStream S) (Unit {0})) → Option ℕ → M (OStream S) (Unit {0})
  encode_int write none = fail invalid_data_size
  encode_int write (some value) = write value

  unfoldable pub pb_enc_varint : PbField → List ℕ → M (OStream S) (Unit {0})
  unfolding encode_int
  pb_enc_varint field src = encode_int pb_encode_varint (read_signed field.data_size src)

  unfoldable pub pb_enc_uvarint : PbField → List ℕ → M (OStream S) (Unit {0})
  unfolding encode_int
  pb_enc_uvarint field src = encode_int pb_encode_varint (read_unsigned field.data_size src)

  unfoldable pub pb_enc_svarint : PbField → List ℕ → M (OStream S) (Unit {0})
  unfolding encode_int
  pb_enc_svarint field src = encode_int pb_encode_svarint (read_signed field.data_size src)

  unfoldable pub pb_enc_fixed64 : List ℕ → M (OStream S) (Unit {0})
  pb_enc_fixed64 src = pb_encode_fixed64 src

  unfoldable pub pb_enc_fixed32 : List ℕ → M (OStream S) (Unit {0})
  pb_enc_fixed32 src = pb_encode_fixed32 src

  -- `pb_bytes_array_t` is four bytes of size and then the bytes.
  unfoldable pub pb_enc_bytes : PbField → Option (List ℕ) → M (OStream S) (Unit {0})
  pb_enc_bytes field none = pb_encode_string [] 0
  pb_enc_bytes field (some src) =
      let size = load 4 src in
      if pb_atype field.type_bits == atype_static && ltb field.data_size (u64 (size + 4))
      then fail bytes_size_exceeded
      else pb_encode_string (drop 4 src) size

  unfoldable pub pb_enc_string : PbField → Option (List ℕ) → M (OStream S) (Unit {0})
  unfolding string_size
  pb_enc_string field none = pb_encode_string [] 0
  pb_enc_string field (some src) =
      let max_size =
        if pb_atype field.type_bits == atype_pointer then 2 ^ 64 - 1 else field.data_size in
      pb_encode_string src (string_size max_size src)

  unfoldable pub pb_enc_fixed_length_bytes : PbField → List ℕ → M (OStream S) (Unit {0})
  pb_enc_fixed_length_bytes field src = pb_encode_string src field.data_size
