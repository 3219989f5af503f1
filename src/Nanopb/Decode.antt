-- ===== src/Nanopb/Decode.antt =====
-- The decoders of single values in CardPang/Pods/nanopb/pb_decode.c. What C stores through an
-- output pointer is the result; a field decoder returns the bytes that it stores at `dest`.
pub mod Varint
pub mod Skip
pub mod Scalars
pub mod Inside
pub mod Reported
use card_pang.Common.{
  ℕ, zero, suc, ◌+◌, ◌-◌, ◌*◌, ◌/◌, ◌%◌, ◌^◌, Bool, true, false, ◌&&◌, ◌||◌, not, Option, none,
  some, List, [], ◌∷◌, ◌++◌, length, ltb, leb, ◌==◌, if◌then◌else◌,
}
use card_pang.Nanopb.Types.{
  varint_overflow, invalid_wire_type, parent_stream_too_short, M, ◌>>=◌, ◌>>◌, return, u64, u32, u8,
  WireType, varint, bits64, string, bits32, other, to_wire_type,
}
use card_pang.Nanopb.Input.{IStream, fail, first, pb_read, pb_read_null, pb_readbyte}
use Prim.Native.Nat.{bit_and, bit_or}

-- `uint_fast8_t` has 8 bits on the platforms of the app.
abbrev pub next_bitpos : ℕ → ℕ
next_bitpos bitpos = u8 (bitpos + 7)

-- One round of the loop of `pb_decode_varint32_eof` after its read: the new result, or overflow.
abbrev round32 : ℕ → ℕ → ℕ → Option ℕ
round32 result bitpos byte =
    if leb 32 bitpos
    then (let sign_extension = if ltb bitpos 63 then 0xff else 0x01 in
        if not (bit_and byte 0x7f == 0) && (result / 2 ^ 31 == 0 || not (byte == sign_extension))
        then none
        else some result)
    else some (bit_or result (u32 (bit_and byte 0x7f * 2 ^ bitpos)))

-- `byte & 0x80`
abbrev pub continues : ℕ → Bool
continues byte = not (bit_and byte 0x80 == 0)

module _ {S : Type 0} where
  -- The end of the loop of `pb_decode_varint32_eof`, and what follows it.
  turn32 : (ℕ → ℕ → M (IStream S) ℕ) → Option ℕ → ℕ → ℕ → M (IStream S) ℕ
  turn32 again none bitpos byte = fail varint_overflow
  turn32 again (some result) bitpos byte =
      if continues byte
      then again result bitpos
      else (if bitpos == 35 && not (bit_and byte 0x70 == 0)
          then fail varint_overflow
          else return result)

  -- Each round reads a byte, so that fuel above `bytes_left` is enough when the callback leaves that to
  -- `pb_read`.
  unfoldable pub loop32 : ℕ → ℕ → ℕ → M (IStream S) ℕ
  unfolding turn32
  loop32 zero result bitpos s = (none, s)
  loop32 (suc fuel) result bitpos s =
      (pb_readbyte >>= λ byte.
      turn32 (loop32 fuel) (round32 result bitpos byte) (next_bitpos bitpos) byte)
        s

  rest32 : ℕ → M (IStream S) ℕ
  unfolding loop32
  rest32 byte s =
      if continues byte then loop32 (suc s.bytes_left) (bit_and byte 0x7f) 7 s else (some byte, s)

  -- The value, and whether `*eof` is set.
  eof32 : Option ℕ × IStream S → Option ℕ × Bool × IStream S
  unfolding rest32
  eof32 (none, s) = (none, s.bytes_left == 0, s)
  eof32 (some byte, s) = let (r, t) = rest32 byte s in (r, false, t)

  unfoldable pub pb_decode_varint32_eof : IStream S → Option ℕ × Bool × IStream S
  unfolding eof32
  pb_decode_varint32_eof s = eof32 (pb_readbyte s)

  unfoldable pub pb_decode_varint32 : M (IStream S) ℕ
  unfolding pb_decode_varint32_eof
  pb_decode_varint32 s = let (r, eof, t) = pb_decode_varint32_eof s in (r, t)

  -- `bitpos` is 0, 7, ... 63 and the loop stops at 70, so that 11 rounds are enough.
  unfoldable pub loop64 : ℕ → ℕ → ℕ → M (IStream S) ℕ
  loop64 zero result bitpos s = (none, s)
  loop64 (suc fuel) result bitpos s =
      if leb 64 bitpos
      then fail varint_overflow s
      else (pb_readbyte >>= λ byte.
            let result' = bit_or result (u64 (bit_and byte 0x7f * 2 ^ bitpos)) in
            let again = loop64 fuel result' (next_bitpos bitpos) in
            if continues byte then again else return result')
          s

  unfoldable pub pb_decode_varint : M (IStream S) ℕ
  unfolding loop64
  pb_decode_varint = loop64 11 0 0

  unfoldable pub tag_of : Option ℕ × Bool × IStream S → Option (WireType × ℕ) × Bool × IStream S
  tag_of (none, eof, s) = (none, eof, s)
  tag_of (some temp, eof, s) =
      if temp == 0
      then (none, true, s)
      else (some (to_wire_type (bit_and temp 7), temp / 8), eof, s)

  -- The wire type and the tag, which are 0 on failure, and `*eof`.
  unfoldable pub pb_decode_tag : IStream S → Option (WireType × ℕ) × Bool × IStream S
  unfolding tag_of
  pb_decode_tag s = tag_of (pb_decode_varint32_eof s)

  -- `do { if (!pb_read(stream, &byte, 1)) return false; } while (byte & 0x80);`
  unfoldable pub skip_varint_rounds : ℕ → M (IStream S) (Unit {0})
  skip_varint_rounds zero s = (none, s)
  skip_varint_rounds (suc fuel) s =
      (pb_read 1 >>= λ bytes.
      let again = skip_varint_rounds fuel in if continues (first bytes) then again else return tt)
        s

  unfoldable pub pb_skip_varint : M (IStream S) (Unit {0})
  unfolding skip_varint_rounds
  pb_skip_varint s = skip_varint_rounds (suc s.bytes_left) s

  unfoldable pub pb_skip_string : M (IStream S) (Unit {0})
  pb_skip_string = do length ← pb_decode_varint32; pb_read_null length

  unfoldable pub pb_skip_field : WireType → M (IStream S) (Unit {0})
  pb_skip_field varint = pb_skip_varint
  pb_skip_field bits64 = pb_read_null 8
  pb_skip_field string = pb_skip_string
  pb_skip_field bits32 = pb_read_null 4
  pb_skip_field (other n) = fail invalid_wire_type

  -- The rounds that the buffer of `read_raw_value` has room for.
  unfoldable pub raw_varint : ℕ → M (IStream S) (List ℕ)
  raw_varint zero s = (none, s)
  raw_varint (suc room) s =
      (pb_read 1 >>= λ bytes.
      let again = raw_varint room >>= λ rest. return (first bytes ∷ rest) in
      if continues (first bytes) then again else return (first bytes ∷ []))
        s

  -- The bytes put into `buf`, whose number is `*size` on return; `max_size` is `*size` on call.
  unfoldable pub read_raw_value : WireType → ℕ → M (IStream S) (List ℕ)
  unfolding raw_varint
  read_raw_value varint max_size = raw_varint max_size
  read_raw_value bits64 max_size = pb_read 8
  read_raw_value bits32 max_size = pb_read 4
  read_raw_value string max_size = fail invalid_wire_type
  read_raw_value (other n) max_size = fail invalid_wire_type

  unfoldable pub split_stream : ℕ → M (IStream S) (IStream S)
  split_stream size s =
      if ltb s.bytes_left size
      then fail parent_stream_too_short s
      else (some (record s { bytes_left = size }), record s { bytes_left = s.bytes_left - size })

  -- The substream.
  unfoldable pub pb_make_string_substream : M (IStream S) (IStream S)
  unfolding split_stream
  pb_make_string_substream = do size ← pb_decode_varint32; split_stream size

  -- `stream->state = substream->state; stream->errmsg = substream->errmsg;`
  unfoldable pub rejoin : IStream S → Option (Unit {0}) × IStream S → Option (Unit {0}) × IStream S
  rejoin s (none, sub) = (none, s)
  rejoin s (some _, sub) = (some tt, record s { state = sub.state; errmsg = sub.errmsg })

  unfoldable pub pb_close_string_substream : IStream S → M (IStream S) (Unit {0})
  unfolding rejoin
  pb_close_string_substream sub s =
      rejoin s (if sub.bytes_left == 0 then (some tt, sub) else pb_read_null sub.bytes_left sub)
