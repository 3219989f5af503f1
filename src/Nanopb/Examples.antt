-- ===== src/Nanopb/Examples.antt =====
-- Runs of the encoders and decoders, and instances of the theorems about them.
mod Messages
use card_pang.Common.{
  ℕ, zero, suc, ◌≢◌, inl, take, ◌==◌, ◌+◌, ◌-◌, ◌*◌, ◌^◌, ◌≤◌, ◌<◌, ◌≡◌, refl, false, none, some,
  List, [], ◌∷◌, ◌++◌, length, length-append, arith,
}
use card_pang.Nanopb.Types.{
  stream_full, pb_set_error, wire_code, PbField, return, u64, pb_ltype, ltype_extension, varint,
  string, other, load, store,
}
use card_pang.Nanopb.Output.{OStream, Buffer, pb_write, pb_ostream_from_buffer}
use card_pang.Nanopb.Output.Bounds.{IsBuffer, written, behind}
use card_pang.Nanopb.Output.Write.{pb_write_room, pb_write_full}
use card_pang.Nanopb.Encode.{
  varint_buffer, pb_encode_varint, pb_encode_svarint, pb_encode_fixed32, pb_encode_fixed64,
  pb_encode_tag, pb_encode_string,
}
use card_pang.Nanopb.Encode.Varint.{length-varint_buffer, IsVarint-length, varint_buffer-IsVarint}
use card_pang.Nanopb.Encode.Writes.{zigzag}
use card_pang.Nanopb.Input.{IStream, pb_istream_from_buffer}
use card_pang.Nanopb.Input.Bounds.{reading, IsInput, Advances}
use card_pang.Nanopb.Input.Reported.{IsReported}
use card_pang.Nanopb.Decode.{
  pb_decode_varint, pb_decode_varint32, pb_decode_tag, pb_skip_field, pb_make_string_substream,
}
use card_pang.Nanopb.Decode.Inside.{pb_skip_field-Advances}
use card_pang.Nanopb.Decode.Reported.{
  pb_decode_varint-IsReported, pb_decode_varint32-IsReported, pb_skip_field-IsReported,
}
use card_pang.Nanopb.Decode.Scalars.{pb_decode_svarint, pb_decode_fixed32, pb_decode_fixed64}
use card_pang.Nanopb.RoundTrip.Numbers.{
  pb_decode_varint-pb_encode_varint, pb_decode_svarint-pb_encode_svarint,
  pb_decode_fixed32-pb_encode_fixed32, pb_decode_fixed64-pb_encode_fixed64,
}
use card_pang.Nanopb.RoundTrip.Framing.{
  pb_decode_tag-pb_encode_tag, pb_make_string_substream-pb_encode_string,
}

abbrev blank_memory : List ℕ
blank_memory = 0 ∷ 0 ∷ 0 ∷ 0 ∷ 0 ∷ 0 ∷ 0 ∷ 0 ∷ 0 ∷ 0 ∷ []

abbrev empty_stream : OStream Buffer
empty_stream = pb_ostream_from_buffer blank_memory 10

empty_stream-IsBuffer : IsBuffer empty_stream
unfolding pb_ostream_from_buffer
empty_stream-IsBuffer = record {
  calls_buf_write = refl;
  within = omega arith;
  backed = omega arith;
  sized = omega arith;
}

empty_stream_fresh : empty_stream.errmsg ≡ none
unfolding pb_ostream_from_buffer
empty_stream_fresh = refl

room : (n : ℕ) → n ≤ 10 → empty_stream.bytes_written + n ≤ empty_stream.max_size
unfolding pb_ostream_from_buffer
room n h = omega arith

abbrev input : IStream (List ℕ)
input = pb_istream_from_buffer (0xac ∷ 2 ∷ 7 ∷ []) 3

input-IsInput : IsInput input
unfolding pb_istream_from_buffer
input-IsInput = record { calls_buf_read = refl; reads_buffer = refl; backed = omega arith }

short : (v : ℕ) → v < 2 ^ 64 → length (varint_buffer v) ≤ 10
short v h = (length-varint_buffer v h).1

pb_write_room_example :
    ((pb_write (1 ∷ 2 ∷ 3 ∷ []) 3 empty_stream).0 ≡ some tt)
    × (written (pb_write (1 ∷ 2 ∷ 3 ∷ []) 3 empty_stream).1
        ≡ written empty_stream ++ (1 ∷ 2 ∷ 3 ∷ []))
    × (behind (pb_write (1 ∷ 2 ∷ 3 ∷ []) 3 empty_stream).1 0 ≡ behind empty_stream 3)
    × IsBuffer (pb_write (1 ∷ 2 ∷ 3 ∷ []) 3 empty_stream).1
pb_write_room_example =
    pb_write_room empty_stream (1 ∷ 2 ∷ 3 ∷ []) empty_stream-IsBuffer (room 3 (omega arith))

abbrev small_stream : OStream Buffer
small_stream = pb_ostream_from_buffer blank_memory 2

small_stream-IsBuffer : IsBuffer small_stream
unfolding pb_ostream_from_buffer
small_stream-IsBuffer = record {
  calls_buf_write = refl;
  within = omega arith;
  backed = omega arith;
  sized = omega arith;
}

small_stream-short : small_stream.max_size < small_stream.bytes_written + 3
unfolding pb_ostream_from_buffer
small_stream-short = omega arith

small_stream-narrow : small_stream.max_size + 3 < 2 ^ 64
unfolding pb_ostream_from_buffer
small_stream-narrow = omega arith

pb_write_full_example :
    pb_write (1 ∷ 2 ∷ 3 ∷ []) 3 small_stream
    ≡ (none, record small_stream { errmsg = pb_set_error small_stream.errmsg stream_full })
pb_write_full_example =
    pb_write_full small_stream (1 ∷ 2 ∷ 3 ∷ []) small_stream-IsBuffer small_stream-short
      small_stream-narrow

length-varint_buffer_example :
    (1 ≤ length (varint_buffer (2 ^ 64 - 1))) × (length (varint_buffer (2 ^ 64 - 1)) ≤ 10)
length-varint_buffer_example = length-varint_buffer (2 ^ 64 - 1) (omega arith)

pb_decode_varint-pb_encode_varint_example :
    ((pb_encode_varint 300 empty_stream).0 ≡ some tt)
    × (written (pb_encode_varint 300 empty_stream).1 ≡ written empty_stream ++ varint_buffer 300)
    × (pb_decode_varint (reading (varint_buffer 300 ++ 7 ∷ []) 10 none)
        ≡ (some 300, reading (7 ∷ []) (10 - length (varint_buffer 300)) none))
pb_decode_varint-pb_encode_varint_example =
    pb_decode_varint-pb_encode_varint empty_stream empty_stream-IsBuffer 10 (7 ∷ []) none 300
      (omega arith) (room (length (varint_buffer 300)) (short 300 (omega arith)))
      (short 300 (omega arith))

-- -1 is written as 1.
zigzag-lt_example : zigzag (2 ^ 64 - 1) < 2 ^ 64
zigzag-lt_example = omega arith

pb_decode_svarint-pb_encode_svarint_example :
    ((pb_encode_svarint (2 ^ 64 - 1) empty_stream).0 ≡ some tt)
    × (written (pb_encode_svarint (2 ^ 64 - 1) empty_stream).1
        ≡ written empty_stream ++ varint_buffer (zigzag (2 ^ 64 - 1)))
    × (pb_decode_svarint (reading (varint_buffer (zigzag (2 ^ 64 - 1)) ++ 7 ∷ []) 10 none) ≡ (
      some (2 ^ 64 - 1),
      reading (7 ∷ []) (10 - length (varint_buffer (zigzag (2 ^ 64 - 1)))) none,
    ))
pb_decode_svarint-pb_encode_svarint_example =
    pb_decode_svarint-pb_encode_svarint empty_stream empty_stream-IsBuffer 10 (7 ∷ []) none
      (2 ^ 64 - 1) (omega arith)
      (room (length (varint_buffer (zigzag (2 ^ 64 - 1))))
        (short (zigzag (2 ^ 64 - 1)) zigzag-lt_example))
      (short (zigzag (2 ^ 64 - 1)) zigzag-lt_example)

abbrev eight_bytes : List ℕ
eight_bytes = 1 ∷ 2 ∷ 3 ∷ 4 ∷ 5 ∷ 6 ∷ 7 ∷ 200 ∷ []

load-lt_4 : load 4 eight_bytes < 2 ^ 32
unfolding load
load-lt_4 = omega arith

load-lt_8 : load 8 eight_bytes < 2 ^ 64
unfolding load
load-lt_8 = omega arith

pb_decode_fixed32-pb_encode_fixed32_example :
    ((pb_encode_fixed32 eight_bytes empty_stream).0 ≡ some tt)
    × (written (pb_encode_fixed32 eight_bytes empty_stream).1
        ≡ written empty_stream ++ store 4 (load 4 eight_bytes))
    × (pb_decode_fixed32 (reading (store 4 (load 4 eight_bytes) ++ 7 ∷ []) 10 none)
        ≡ (some (load 4 eight_bytes), reading (7 ∷ []) (10 - 4) none))
pb_decode_fixed32-pb_encode_fixed32_example =
    pb_decode_fixed32-pb_encode_fixed32 empty_stream empty_stream-IsBuffer 10 (7 ∷ []) none
      eight_bytes load-lt_4 (room 4 (omega arith)) (omega arith)

pb_decode_fixed64-pb_encode_fixed64_example :
    ((pb_encode_fixed64 eight_bytes empty_stream).0 ≡ some tt)
    × (written (pb_encode_fixed64 eight_bytes empty_stream).1
        ≡ written empty_stream ++ store 8 (load 8 eight_bytes))
    × (pb_decode_fixed64 (reading (store 8 (load 8 eight_bytes) ++ 7 ∷ []) 10 none)
        ≡ (some (load 8 eight_bytes), reading (7 ∷ []) (10 - 8) none))
pb_decode_fixed64-pb_encode_fixed64_example =
    pb_decode_fixed64-pb_encode_fixed64 empty_stream empty_stream-IsBuffer 10 (7 ∷ []) none
      eight_bytes load-lt_8 (room 8 (omega arith)) (omega arith)

pb_decode_tag-pb_encode_tag_example :
    ((pb_encode_tag string 5 empty_stream).0 ≡ some tt)
    × (written (pb_encode_tag string 5 empty_stream).1
        ≡ written empty_stream ++ varint_buffer (5 * 8 + wire_code string))
    × (pb_decode_tag (reading (varint_buffer (5 * 8 + wire_code string) ++ 7 ∷ []) 10 none) ≡ (
      some (string, 5),
      false,
      reading (7 ∷ []) (10 - length (varint_buffer (5 * 8 + wire_code string))) none,
    ))
pb_decode_tag-pb_encode_tag_example =
    pb_decode_tag-pb_encode_tag empty_stream empty_stream-IsBuffer 10 (7 ∷ []) none string 5 tt
      (omega arith) (omega arith) (room (length (varint_buffer 42)) (short 42 (omega arith)))
      (short 42 (omega arith))

abbrev hello : List ℕ
hello = 104 ∷ 105 ∷ []

length-2 : length (varint_buffer 2) ≤ 5
length-2 = IsVarint-length 4 (varint_buffer-IsVarint 2) (omega arith)

pb_make_string_substream-pb_encode_string_example :
    ((pb_encode_string hello 2 empty_stream).0 ≡ some tt)
    × (written (pb_encode_string hello 2 empty_stream).1
        ≡ written empty_stream ++ (varint_buffer 2 ++ hello))
    × (pb_make_string_substream (reading (varint_buffer 2 ++ (hello ++ 7 ∷ [])) 10 none) ≡ (
      some (reading (hello ++ 7 ∷ []) 2 none),
      reading (hello ++ 7 ∷ []) (10 - length (varint_buffer 2) - 2) none,
    ))
    × (pb_skip_field string (reading (varint_buffer 2 ++ (hello ++ 7 ∷ [])) 10 none)
        ≡ (some tt, reading (7 ∷ []) (10 - length (varint_buffer 2) - 2) none))
pb_make_string_substream-pb_encode_string_example =
    pb_make_string_substream-pb_encode_string empty_stream empty_stream-IsBuffer 10 (7 ∷ []) none
      hello (omega arith)
      (room (length (varint_buffer 2 ++ hello))
        (omega (arith, length-append (varint_buffer 2) hello, length-2)))
      (omega (arith, length-2))

pb_skip_field-Advances_example : Advances input (pb_skip_field (other 3) input).1
pb_skip_field-Advances_example = pb_skip_field-Advances (other 3) input input-IsInput

-- A stream whose callback always has another byte of a varint.
abbrev endless : IStream (Unit {0})
endless = record {
  callback = λ c count. (some (0x80 ∷ []), c);
  is_buf_read = false;
  state = tt;
  bytes_left = 20;
  errmsg = none;
}

pb_decode_varint32-IsReported_example : IsReported (pb_decode_varint32 endless)
pb_decode_varint32-IsReported_example = pb_decode_varint32-IsReported endless (λ c count. refl)

pb_decode_varint-IsReported_example : IsReported (pb_decode_varint endless)
pb_decode_varint-IsReported_example = pb_decode_varint-IsReported endless

pb_skip_field-IsReported_example : IsReported (pb_skip_field varint endless)
pb_skip_field-IsReported_example = pb_skip_field-IsReported varint endless (λ c count. refl)
