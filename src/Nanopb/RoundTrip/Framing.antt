-- ===== src/Nanopb/RoundTrip/Framing.antt =====
-- Tags and strings (CardPang/Pods/nanopb).
use card_pang.Common.{
  ℕ, ◌+◌, ◌-◌, ◌*◌, ◌^◌, ◌≤◌, ◌<◌, ◌≡◌, refl, ap, ◌∙◌, Option, false, some, List, ◌++◌, length,
  arith,
}
use card_pang.Common.Bits.{bit_and-7}
use card_pang.Nanopb.Types.{
  ErrorMessage, WireType, wire_code, varint, bits64, string, bits32, other, to_wire_type,
}
use card_pang.Nanopb.Output.{OStream, Buffer}
use card_pang.Nanopb.Output.Bounds.{IsBuffer, written}
use card_pang.Nanopb.Encode.{varint_buffer, pb_encode_tag, pb_encode_string}
use card_pang.Nanopb.Encode.Varint.{varint_buffer-IsVarint}
use card_pang.Nanopb.Encode.Writes.{pb_encode_tag-Appends, pb_encode_string-Appends}
use card_pang.Nanopb.Input.{IStream}
use card_pang.Nanopb.Input.Bounds.{reading}
use card_pang.Nanopb.Decode.{tag_of, pb_decode_tag, pb_skip_field, pb_make_string_substream}
use card_pang.Nanopb.Decode.Varint.{pb_decode_varint32_eof-IsVarint}
use card_pang.Nanopb.Decode.Skip.{pb_skip_string-prefix, pb_make_string_substream-prefix}
use card_pang.Nanopb.RoundTrip.{appended}

-- A wire type that the format names.
abbrev pub IsNamed : WireType → Type 0
IsNamed (other n) = ⊥
IsNamed _ = Unit

wire_code-lt : (w : WireType) → IsNamed w → wire_code w < 8
wire_code-lt (other n) h = absurd h
wire_code-lt varint h = omega arith
wire_code-lt bits64 h = omega arith
wire_code-lt string h = omega arith
wire_code-lt bits32 h = omega arith

to_wire_type-wire_code : (w : WireType) → IsNamed w → to_wire_type (wire_code w) ≡ w
unfolding to_wire_type
to_wire_type-wire_code (other n) h = absurd h
to_wire_type-wire_code varint h = refl
to_wire_type-wire_code bits64 h = refl
to_wire_type-wire_code string h = refl
to_wire_type-wire_code bits32 h = refl

pub tag_of-tag :
    (w : WireType) (n : ℕ) (s : IStream (List ℕ))
    → IsNamed w
    → 0 < n
    → tag_of (some (n * 8 + wire_code w), false, s) ≡ (some (w, n), false, s)
unfolding tag_of
tag_of-tag w n s hw hn =
    ground (arith, bit_and-7 (n * 8 + wire_code w), wire_code-lt w hw, to_wire_type-wire_code w hw)

module _ (s : OStream Buffer) (v : IsBuffer s) (n : ℕ) (rest : List ℕ)
    (e : Option ErrorMessage) where
  -- A tag with a field number from 1 to 2^29 - 1 is read back as it was, and `*eof` stays false.
  pub pb_decode_tag-pb_encode_tag :
      (w : WireType) (field_number : ℕ)
      → IsNamed w
      → 0 < field_number
      → field_number < 2 ^ 29
      → let bs = varint_buffer (field_number * 8 + wire_code w) in
        s.bytes_written + length bs ≤ s.max_size
        → length bs ≤ n
        → ((pb_encode_tag w field_number s).0 ≡ some tt)
          × (written (pb_encode_tag w field_number s).1 ≡ written s ++ bs)
          × (pb_decode_tag (reading (bs ++ rest) n e)
              ≡ (some (w, field_number), false, reading rest (n - length bs) e))
  unfolding pb_decode_tag
  pb_decode_tag-pb_encode_tag w k hw pos hk room hn =
      let done =
        appended (pb_encode_tag w k) (varint_buffer (k * 8 + wire_code w)) s
          (pb_encode_tag-Appends w k (wire_code-lt w hw) (omega arith) s v room) v room in
      (done.0, done.1, decoded)
    where
      decoded :
          pb_decode_tag (reading (varint_buffer (k * 8 + wire_code w) ++ rest) n e)
          ≡ (some (w, k), false, reading rest (n - length (varint_buffer (k * 8 + wire_code w))) e)
      decoded =
          ap tag_of (
            pb_decode_varint32_eof-IsVarint n rest e (varint_buffer-IsVarint (k * 8 + wire_code w))
              (omega (arith, wire_code-lt w hw)) hn)
          ∙ tag_of-tag w k _ hw pos

  -- A string of less than 2^32 bytes is written behind its length. Its substream holds those bytes
  -- and no more, and `pb_skip_field` passes over it.
  pub pb_make_string_substream-pb_encode_string :
      (bs : List ℕ)
      → length bs < 2 ^ 32
      → let hs = varint_buffer (length bs) in
        s.bytes_written + length (hs ++ bs) ≤ s.max_size
        → length hs + length bs ≤ n
        → ((pb_encode_string bs (length bs) s).0 ≡ some tt)
          × (written (pb_encode_string bs (length bs) s).1 ≡ written s ++ (hs ++ bs))
          × (pb_make_string_substream (reading (hs ++ (bs ++ rest)) n e) ≡ (
            some (reading (bs ++ rest) (length bs) e),
            reading (bs ++ rest) (n - length hs - length bs) e,
          ))
          × (pb_skip_field string (reading (hs ++ (bs ++ rest)) n e)
              ≡ (some tt, reading rest (n - length hs - length bs) e))
  pb_make_string_substream-pb_encode_string bs hb room hn =
      let hs = varint_buffer (length bs) in
      let w = varint_buffer-IsVarint (length bs) in
      let done =
        appended (pb_encode_string bs (length bs)) (hs ++ bs) s
          (pb_encode_string-Appends bs (omega arith) s v room) v room in
      (
        done.0,
        done.1,
        pb_make_string_substream-prefix bs rest n e w hb hn,
        pb_skip_string-prefix bs rest n e w hb hn,
      )
