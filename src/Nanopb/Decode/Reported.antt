-- ===== src/Nanopb/Decode/Reported.antt =====
-- How the decoders of CardPang/Pods/nanopb/pb_decode.c end. Running out of fuel
-- would be a failure without a message.
use card_pang.Common.{
  ℕ, zero, suc, ◌+◌, ◌*◌, ◌^◌, ◌≤◌, ◌<◌, ◌≡◌, refl, subst, ◌&&◌, not, Option, none, some, inl, inr,
  arith, leb, ◌==◌, Bool-cases, if◌then◌else◌,
}
use card_pang.Nanopb.Types.{
  M, return, u64, WireType, varint, bits64, string, bits32, other, varint_overflow,
  invalid_wire_type,
}
use card_pang.Nanopb.Input.{IStream, first, pb_read, pb_read_null, pb_readbyte}
use card_pang.Nanopb.Input.Reported.{
  IsReported, IsSteady, Consumes, fail-IsReported, after-IsReported, after-Consumes,
  pb_read-Consumes, pb_readbyte-Consumes, pb_readbyte-IsReported, pb_read_null-IsReported,
}
use card_pang.Nanopb.Decode.{
  next_bitpos, continues, round32, turn32, loop32, rest32, eof32, pb_decode_varint32,
  pb_decode_varint32_eof, loop64, pb_decode_varint, skip_varint_rounds, pb_skip_varint,
  pb_skip_string, pb_skip_field,
}
use Prim.Native.Nat.{bit_and, bit_or}

module _ {S : Type 0} where
  turn32-IsReported :
      (again : ℕ → ℕ → M (IStream S) ℕ) (r : Option ℕ) (bitpos byte : ℕ) (s : IStream S)
      → ((a b : ℕ) → IsReported (again a b s))
      → IsReported (turn32 again r bitpos byte s)
  unfolding turn32
  turn32-IsReported again none bitpos byte s h = fail-IsReported ℕ varint_overflow s
  turn32-IsReported again (some result) bitpos byte s h = elim (Bool-cases (continues byte)) [
    | inl go_on ↦ rw go_on (h result bitpos)
    | inr stop ↦ rw stop (elim (Bool-cases (bitpos == 35 && not (bit_and byte 0x70 == 0))) [
      | inl too_long ↦ rw too_long (fail-IsReported ℕ varint_overflow s)
      | inr fits ↦ rw fits tt
    ])
  ]

  -- Fuel above the bytes that are left is enough.
  loop32-IsReported :
      (fuel result bitpos : ℕ) (s : IStream S)
      → IsSteady s
      → s.bytes_left < fuel
      → IsReported (loop32 fuel result bitpos s)
  unfolding loop32
  loop32-IsReported zero result bitpos s steady h = absurd (omega arith)
  loop32-IsReported (suc fuel) result bitpos s steady h =
      after-Consumes s (pb_readbyte s)
        (λ byte. turn32 (loop32 fuel) (round32 result bitpos byte) (next_bitpos bitpos) byte)
        (pb_readbyte-Consumes s steady)
        (λ byte t (less, kept).
          turn32-IsReported (loop32 fuel) (round32 result bitpos byte) (next_bitpos bitpos) byte t
            (λ a b. loop32-IsReported fuel a b t kept (omega arith)))

  eof32-IsReported :
      (s : IStream S) (r : Option ℕ × IStream S)
      → Consumes s r
      → IsReported ((eof32 r).0, (eof32 r).2)
  unfolding eof32 rest32
  eof32-IsReported s (none, t) h = h
  eof32-IsReported s (some byte, t) h = elim (Bool-cases (continues byte)) [
    | inl go_on ↦
        rw go_on (loop32-IsReported (suc t.bytes_left) (bit_and byte 0x7f) 7 t h.1 (omega arith))
    | inr stop ↦ rw stop tt
  ]

  -- On every stream whose callback leaves `bytes_left` to `pb_read`, whatever else it does,
  -- `pb_decode_varint32` ends: it succeeds, or it fails and the stream has an error message.
  pub pb_decode_varint32-IsReported :
      (s : IStream S) → IsSteady s → IsReported (pb_decode_varint32 s)
  unfolding pb_decode_varint32 pb_decode_varint32_eof
  pb_decode_varint32-IsReported s steady =
      eof32-IsReported s (pb_readbyte s) (pb_readbyte-Consumes s steady)

  -- After k rounds the bit position is 7 * k.
  turn64-IsReported :
      (fuel k result byte : ℕ) (t : IStream S)
      → k ≤ 9
      → ((r : ℕ) → IsReported (loop64 fuel r (7 * suc k) t))
      → IsReported
          ((if continues byte then loop64 fuel result (next_bitpos (7 * k)) else return result) t)
  turn64-IsReported fuel k result byte t low again = elim (Bool-cases (continues byte)) [
    | inl go_on ↦
        rw go_on (subst (λ b. IsReported (loop64 fuel result b t)) (omega arith) (again result))
    | inr stop ↦ rw stop tt
  ]

  loop64-IsReported :
      (fuel k result : ℕ) (s : IStream S)
      → fuel + k ≡ 11
      → k ≤ 10
      → IsReported (loop64 fuel result (7 * k) s)
  unfolding loop64
  loop64-IsReported zero k result s e h = absurd (omega arith)
  loop64-IsReported (suc fuel) k result s e h = elim (Bool-cases (leb 64 (7 * k))) [
    | inl over ↦ rw over (fail-IsReported ℕ varint_overflow s)
    | inr fits ↦
        let low : k ≤ 9 = ground (arith, fits) in
        rw fits (
          after-IsReported (pb_readbyte s) _ (pb_readbyte-IsReported s) (λ byte t.
            turn64-IsReported fuel k (bit_or result (u64 (bit_and byte 0x7f * 2 ^ (7 * k)))) byte t
              low (λ r. loop64-IsReported fuel (suc k) r t (omega arith) (omega arith))))
  ]

  -- On every stream, whatever its callback does, `pb_decode_varint` ends: it succeeds, or it fails
  -- and the stream has an error message.
  pub pb_decode_varint-IsReported : (s : IStream S) → IsReported (pb_decode_varint s)
  unfolding pb_decode_varint
  pb_decode_varint-IsReported s = loop64-IsReported 11 0 0 s refl (omega arith)

  skip_varint_rounds-IsReported :
      (fuel : ℕ) (s : IStream S)
      → IsSteady s
      → s.bytes_left < fuel
      → IsReported (skip_varint_rounds fuel s)
  unfolding skip_varint_rounds
  skip_varint_rounds-IsReported zero s steady h = absurd (omega arith)
  skip_varint_rounds-IsReported (suc fuel) s steady h =
      after-Consumes s (pb_read 1 s)
        (λ bytes. if continues (first bytes) then skip_varint_rounds fuel else return tt)
        (pb_read-Consumes s steady)
        (λ bytes t (less, kept). elim (Bool-cases (continues (first bytes))) [
          | inl go_on ↦ rw go_on (skip_varint_rounds-IsReported fuel t kept (omega arith))
          | inr stop ↦ rw stop tt
        ])

  -- On every stream whose callback leaves `bytes_left` to `pb_read`, whatever else it does, and for every
  -- wire type, named or not, `pb_skip_field` ends: it succeeds, or it fails and the stream has an error
  -- message.
  pub pb_skip_field-IsReported :
      (w : WireType) (s : IStream S) → IsSteady s → IsReported (pb_skip_field w s)
  unfolding pb_skip_field pb_skip_varint pb_skip_string
  pb_skip_field-IsReported varint s steady =
      skip_varint_rounds-IsReported (suc s.bytes_left) s steady (omega arith)
  pb_skip_field-IsReported bits64 s steady = pb_read_null-IsReported 8 s
  pb_skip_field-IsReported bits32 s steady = pb_read_null-IsReported 4 s
  pb_skip_field-IsReported string s steady =
      after-IsReported (pb_decode_varint32 s) pb_read_null (pb_decode_varint32-IsReported s steady)
        pb_read_null-IsReported
  pb_skip_field-IsReported (other n) s steady = fail-IsReported (Unit {0}) invalid_wire_type s
