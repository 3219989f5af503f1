-- ===== src/Nanopb/RoundTrip.antt =====
-- The encoders of CardPang/Pods/nanopb/pb_encode.c against the decoders of pb_decode.c.
pub mod Numbers
pub mod Framing
use card_pang.Common.{
  ℕ, ◌+◌, ◌-◌, ◌*◌, ◌^◌, ◌≤◌, ◌<◌, ◌≡◌, refl, ap, sym, subst, ◌∙◌, Option, false, none, some, List,
  ◌++◌, length, length-append, arith,
}
use card_pang.Common.Bits.{bit_and-7}
use card_pang.Nanopb.Types.{
  ErrorMessage, M, WireType, wire_code, varint, bits64, string, bits32, other, to_wire_type, load,
  store,
}
use card_pang.Nanopb.Output.{OStream, Buffer, pb_write}
use card_pang.Nanopb.Output.Bounds.{
  IsBuffer, written, behind, emit, refuse, pb_write-emit, pb_write-refuse, written-emit,
  behind-emit, emit-IsBuffer,
}
use card_pang.Nanopb.Encode.{
  varint_buffer, pb_encode_varint, pb_encode_svarint, pb_encode_fixed32, pb_encode_fixed64,
  pb_encode_tag, pb_encode_string,
}
use card_pang.Nanopb.Encode.Varint.{varint_buffer-IsVarint}
use card_pang.Nanopb.Encode.Writes.{
  Appends, zigzag, pb_encode_varint-Appends, pb_encode_svarint-Appends, pb_encode_tag-Appends,
  pb_encode_string-Appends, pb_encode_fixed32-Appends, pb_encode_fixed64-Appends,
}
use card_pang.Nanopb.Input.{IStream}
use card_pang.Nanopb.Input.Bounds.{reading, IsInput, Advances}
use card_pang.Nanopb.Decode.{
  pb_decode_varint, pb_decode_varint32_eof, tag_of, pb_decode_tag, pb_skip_field,
  pb_make_string_substream,
}
use card_pang.Nanopb.Decode.Varint.{pb_decode_varint-IsVarint, pb_decode_varint32_eof-IsVarint}
use card_pang.Nanopb.Decode.Skip.{
  pb_skip_varint-IsVarint, pb_skip_string-prefix, pb_make_string_substream-prefix,
}
use card_pang.Nanopb.Decode.Scalars.{pb_decode_svarint, pb_decode_fixed32, pb_decode_fixed64}
use card_pang.Nanopb.Decode.Scalars.Laws.{
  pb_decode_svarint-zigzag, pb_decode_fixed32-store, pb_decode_fixed64-store,
}

-- The stream after a computation that appends `bs`.
pub appended :
    (m : M (OStream Buffer) (Unit {0})) (bs : List ℕ) (s : OStream Buffer)
    → m s ≡ (some tt, emit s bs)
    → IsBuffer s
    → s.bytes_written + length bs ≤ s.max_size
    → ((m s).0 ≡ some tt) × (written (m s).1 ≡ written s ++ bs) × IsBuffer (m s).1
appended m bs s e v h =
    subst (λ r. (r.0 ≡ some tt) × (written r.1 ≡ written s ++ bs) × IsBuffer r.1) (sym e)
      (refl, written-emit s bs v h, emit-IsBuffer s bs v h)
