-- ===== src/Nanopb/Decode/Inside.antt =====
-- The decoders of CardPang/Pods/nanopb/pb_decode.c on a buffer that may hold anything.
use card_pang.Common.{
  ℕ, zero, suc, ◌*◌, ◌^◌, Bool, Option, none, some, List, ◌==◌, Bool-cases, inl, inr, if◌then◌else◌,
  not, ◌&&◌, leb,
}
use card_pang.Nanopb.Types.{
  M, ◌>>=◌, return, u64, WireType, varint, bits64, string, bits32, other, varint_overflow,
  invalid_wire_type,
}
use card_pang.Nanopb.Input.{IStream, first, fail, pb_read, pb_read_null, pb_readbyte}
use card_pang.Nanopb.Input.Bounds.{
  IsInput, Advances, Advances-IsInput, Advances-refl, Advances-trans, StaysInside, fail-StaysInside,
  return-StaysInside, >>=-StaysInside, if-StaysInside, choose-StaysInside, pb_read-StaysInside,
  pb_readbyte-StaysInside, pb_read_null-StaysInside,
}
use card_pang.Nanopb.Decode.{
  next_bitpos, continues, round32, turn32, loop32, eof32, pb_decode_varint32,
  pb_decode_varint32_eof, loop64, pb_decode_varint, skip_varint_rounds, pb_skip_varint,
  pb_skip_string, pb_skip_field, tag_of, pb_decode_tag,
}
use Prim.Native.Nat.{bit_and, bit_or}

turn32-StaysInside :
    (again : ℕ → ℕ → M (IStream (List ℕ)) ℕ) (r : Option ℕ) (bitpos byte : ℕ)
    → ((a b : ℕ) → StaysInside (again a b))
    → StaysInside (turn32 again r bitpos byte)
unfolding turn32
turn32-StaysInside again none bitpos byte h = fail-StaysInside ℕ varint_overflow
turn32-StaysInside again (some result) bitpos byte h =
    choose-StaysInside (continues byte) (again result bitpos) _ (h result bitpos) (
      choose-StaysInside (bitpos == 35 && not (bit_and byte 0x70 == 0)) (fail varint_overflow)
        (return result) (fail-StaysInside ℕ varint_overflow) (return-StaysInside result))

loop32-StaysInside : (f result bitpos : ℕ) → StaysInside (loop32 f result bitpos)
unfolding loop32
loop32-StaysInside zero result bitpos s v = Advances-refl s
loop32-StaysInside (suc f) result bitpos s v =
    >>=-StaysInside pb_readbyte
      (λ byte. turn32 (loop32 f) (round32 result bitpos byte) (next_bitpos bitpos) byte)
      pb_readbyte-StaysInside
      (λ byte.
        turn32-StaysInside (loop32 f) (round32 result bitpos byte) (next_bitpos bitpos) byte
          (loop32-StaysInside f))
      s v

eof32-Advances :
    (s : IStream (List ℕ)) (r : Option ℕ × IStream (List ℕ))
    → IsInput s
    → Advances s r.1
    → Advances s (eof32 r).2
unfolding eof32
eof32-Advances s (none, t) v a = a
eof32-Advances s (some byte, t) v a = elim (Bool-cases (continues byte)) [
  | inl go_on ↦ rw go_on (
      Advances-trans a
        (loop32-StaysInside (suc t.bytes_left) (bit_and byte 0x7f) 7 t (Advances-IsInput a v)))
  | inr stop ↦ rw stop a
]

pub pb_decode_varint32_eof-Advances :
    (s : IStream (List ℕ)) → IsInput s → Advances s (pb_decode_varint32_eof s).2
unfolding pb_decode_varint32_eof
pb_decode_varint32_eof-Advances s v =
    eof32-Advances s (pb_readbyte s) v (pb_readbyte-StaysInside s v)

pub pb_decode_varint32-StaysInside : StaysInside pb_decode_varint32
unfolding pb_decode_varint32
pb_decode_varint32-StaysInside s v = pb_decode_varint32_eof-Advances s v

loop64-StaysInside : (f result bitpos : ℕ) → StaysInside (loop64 f result bitpos)
unfolding loop64
loop64-StaysInside zero result bitpos s v = Advances-refl s
loop64-StaysInside (suc f) result bitpos s v =
    if-StaysInside (leb 64 bitpos) (fail varint_overflow) (pb_readbyte >>= turn)
      (fail-StaysInside ℕ varint_overflow)
      (>>=-StaysInside pb_readbyte turn pb_readbyte-StaysInside (λ byte.
        choose-StaysInside (continues byte) (loop64 f (added byte) (next_bitpos bitpos))
          (return (added byte)) (loop64-StaysInside f (added byte) (next_bitpos bitpos))
          (return-StaysInside (added byte))))
      s v
  where
    added : ℕ → ℕ
    added byte = bit_or result (u64 (bit_and byte 0x7f * 2 ^ bitpos))

    turn : ℕ → M (IStream (List ℕ)) ℕ
    turn byte =
        if continues byte then loop64 f (added byte) (next_bitpos bitpos) else return (added byte)

pub pb_decode_varint-StaysInside : StaysInside pb_decode_varint
unfolding pb_decode_varint
pb_decode_varint-StaysInside = loop64-StaysInside 11 0 0

tag_of-Advances :
    (s : IStream (List ℕ)) (r : Option ℕ × Bool × IStream (List ℕ))
    → Advances s r.2
    → Advances s (tag_of r).2
unfolding tag_of
tag_of-Advances s (none, eof, t) a = a
tag_of-Advances s (some temp, eof, t) a = elim (Bool-cases (temp == 0)) [
  | inl e ↦ rw e a
  | inr e ↦ rw e a
]

-- Whatever a buffer holds, `pb_decode_tag` takes only bytes that are left in it.
pub pb_decode_tag-Advances : (s : IStream (List ℕ)) → IsInput s → Advances s (pb_decode_tag s).2
unfolding pb_decode_tag
pb_decode_tag-Advances s v =
    tag_of-Advances s (pb_decode_varint32_eof s) (pb_decode_varint32_eof-Advances s v)

skip_varint_rounds-StaysInside : (f : ℕ) → StaysInside (skip_varint_rounds f)
unfolding skip_varint_rounds
skip_varint_rounds-StaysInside zero s v = Advances-refl s
skip_varint_rounds-StaysInside (suc f) s v =
    >>=-StaysInside (pb_read 1)
      (λ bytes. if continues (first bytes) then skip_varint_rounds f else return tt)
      (pb_read-StaysInside 1)
      (λ bytes.
        choose-StaysInside (continues (first bytes)) (skip_varint_rounds f) (return tt)
          (skip_varint_rounds-StaysInside f) (return-StaysInside tt))
      s v

pub pb_skip_field-StaysInside : (w : WireType) → StaysInside (pb_skip_field w)
unfolding pb_skip_field pb_skip_varint pb_skip_string
pb_skip_field-StaysInside varint s v = skip_varint_rounds-StaysInside (suc s.bytes_left) s v
pb_skip_field-StaysInside bits64 s v = pb_read_null-StaysInside 8 s v
pb_skip_field-StaysInside bits32 s v = pb_read_null-StaysInside 4 s v
pb_skip_field-StaysInside string s v =
    >>=-StaysInside pb_decode_varint32 pb_read_null pb_decode_varint32-StaysInside
      pb_read_null-StaysInside s v
pb_skip_field-StaysInside (other n) s v = fail-StaysInside (Unit {0}) invalid_wire_type s v

-- Whatever a buffer holds, `pb_decode_varint` takes only bytes that are left in it.
pub pb_decode_varint-Advances :
    (s : IStream (List ℕ)) → IsInput s → Advances s (pb_decode_varint s).1
pb_decode_varint-Advances s v = pb_decode_varint-StaysInside s v

-- Whatever a buffer holds, and for every wire type, `pb_skip_field` takes only bytes that are left in
-- it.
pub pb_skip_field-Advances :
    (w : WireType) (s : IStream (List ℕ)) → IsInput s → Advances s (pb_skip_field w s).1
pb_skip_field-Advances w s v = pb_skip_field-StaysInside w s v
