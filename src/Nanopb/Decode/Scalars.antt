-- ===== src/Nanopb/Decode/Scalars.antt =====
-- The decoders of signed integers and of the fixed formats in CardPang/Pods/nanopb/pb_decode.c.
pub mod Laws
use card_pang.Common.{
  ℕ, zero, suc, ◌+◌, ◌-◌, ◌*◌, ◌/◌, ◌%◌, ◌^◌, Bool, true, false, ◌&&◌, ◌||◌, not, Option, none,
  some, List, [], ◌∷◌, ◌++◌, length, drop, set, ltb, leb, ◌==◌, if◌then◌else◌, get_elem?,
}
use card_pang.Nanopb.Types.{
  ErrorMessage, invalid_data_size, integer_too_large, bytes_overflow, size_too_large,
  string_overflow, invalid_size, realloc_failed, incorrect_fixed_length_bytes_size, pb_set_error, M,
  ◌>>=◌, ◌>>◌, return, u64, u32, PbField, pb_atype, atype_pointer, pb_size_max, store, sign_extend,
}
use card_pang.Nanopb.Input.{IStream, pb_read}
use card_pang.Nanopb.Output.{copy}
use card_pang.Nanopb.Decode.{pb_decode_varint, pb_decode_varint32}
use Prim.Native.Nat.{bit_and, bit_or}

-- `bytes[i]`
abbrev at : List ℕ → ℕ → ℕ
at [] i = 0
at (b ∷ bs) zero = b
at (b ∷ bs) (suc i) = at bs i

-- `bytes[0] << 0 | bytes[1] << 8 | bytes[2] << 16 | bytes[3] << 24`, and so on for eight bytes.
unfoldable pub word32 : List ℕ → ℕ
word32 bytes =
    bit_or
      (bit_or (bit_or (u32 (at bytes 0 * 2 ^ 0)) (u32 (at bytes 1 * 2 ^ 8)))
        (u32 (at bytes 2 * 2 ^ 16)))
      (u32 (at bytes 3 * 2 ^ 24))

unfoldable pub word64 : List ℕ → ℕ
word64 bytes =
    bit_or
      (bit_or
        (bit_or
          (bit_or
            (bit_or
              (bit_or (bit_or (u64 (at bytes 0 * 2 ^ 0)) (u64 (at bytes 1 * 2 ^ 8)))
                (u64 (at bytes 2 * 2 ^ 16)))
              (u64 (at bytes 3 * 2 ^ 24)))
            (u64 (at bytes 4 * 2 ^ 32)))
          (u64 (at bytes 5 * 2 ^ 40)))
        (u64 (at bytes 6 * 2 ^ 48)))
      (u64 (at bytes 7 * 2 ^ 56))

module _ {S : Type 0} where
  -- `int64_t` as its bit pattern: `~x` is `2^64 - 1 - x`.
  unfoldable pub pb_decode_svarint : M (IStream S) ℕ
  pb_decode_svarint = do
    value ← pb_decode_varint
    return (if bit_and value 1 == 0 then value / 2 else 2 ^ 64 - 1 - value / 2)

  unfoldable pub pb_decode_fixed32 : M (IStream S) ℕ
  pb_decode_fixed32 = do bytes ← pb_read 4; return (word32 bytes)

  unfoldable pub pb_decode_fixed64 : M (IStream S) ℕ
  pb_decode_fixed64 = do bytes ← pb_read 8; return (word64 bytes)
