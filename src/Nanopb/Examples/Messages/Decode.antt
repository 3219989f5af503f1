-- ===== src/Nanopb/Examples/Messages/Decode.antt =====
-- A decoded message, and instances of the theorems about decoding.
use card_pang.Common.{
  some, suc, zero, ◌≡◌, ◌≤◌, ◌<◌, ◌↔◌, All, ℕ, true, refl, none, false, List, [], ◌∷◌, arith,
}
use card_pang.Nanopb.Types.{return, ◌>>=◌, pb_ltype, pb_atype, pb_htype, load, store, to_wire_type}
use card_pang.Nanopb.Input.{buf_read, pb_readbyte, pb_read}
use card_pang.Nanopb.Input.Bounds.{IsInput, pb_readbyte-StaysInside}
use card_pang.Nanopb.Message.Machine.{
  Machine, D, on_stream, change, pb_dec_uvarint, clamp_unsigned, pb_dec_string, store_checked,
}
use card_pang.Nanopb.Message.Machine.Safe.{Within, Safe, >>=-Safe, return-Safe, on_stream-Safe}
use card_pang.Nanopb.Message.Decode.{Setup, pb_decode, pb_decode_noinit}
use card_pang.Nanopb.Message.Seen.{all_seen}
use card_pang.Nanopb.Message.Decode.Safe.{IsCareful}
use card_pang.Nanopb.Message.Decode.Inside.{pb_decode-Within}
use card_pang.Nanopb.Message.Seen.Required.{elem, sees, all_seen-sees}
use card_pang.Nanopb.Defaults.{
  pb_message_set_to_defaults, each_default, iter_from_extension, message_defaults,
  pb_field_set_to_default, set_to_default,
}
use card_pang.Nanopb.Fields.{
  pb_field_iter_begin, pb_field_iter_next, pb_field_iter_find, find_rounds,
}
use card_pang.Nanopb.Decode.{
  pb_decode_tag, pb_decode_varint32_eof, pb_decode_varint, loop32, loop64, pb_decode_varint32,
  tag_of,
}
use card_pang.Nanopb.Message.Callbacks.{decode_field, pb_release_union_field}
use card_pang.Nanopb.Output.{copy, fetch}
use card_pang.Nanopb.Examples.Messages.{two_fields}

-- Its functions read a byte; the variable `fixed_count_size` stands at the address 16.
abbrev byte_reader : D (Unit {0})
byte_reader = on_stream pb_readbyte >>= λ _. return tt

abbrev two_field_setup : Setup
two_field_setup = record {
  runtime = record {
    call_decode = λ _ _ _. byte_reader;
    pb_realloc = λ p size mem. (0, mem);
    pb_free = λ p mem. mem;
  };
  table = λ _. two_fields;
  constant = λ _. [];
  arg = λ _. 0;
  decode_function = λ _. 0;
  call_extension = λ _ _ _ _. byte_reader;
  fixed_count_size = λ _. 16;
}

byte_reader-Safe : Safe byte_reader
byte_reader-Safe =
    >>=-Safe (on_stream pb_readbyte) (λ _. return tt)
      (on_stream-Safe pb_readbyte pb_readbyte-StaysInside) (λ _. return-Safe tt)

two_field_setup-IsCareful : IsCareful two_field_setup
two_field_setup-IsCareful = record {
  reads = λ _ _ _. byte_reader-Safe;
  extensions = λ _ _ _ _. byte_reader-Safe;
}

abbrev encoded : List ℕ
encoded = 8 ∷ 0xac ∷ 2 ∷ 0x12 ∷ 2 ∷ 0x68 ∷ 0x69 ∷ []

abbrev before : Machine
before = record {
  stream = record {
    callback = buf_read;
    is_buf_read = true;
    state = encoded;
    bytes_left = 7;
    errmsg = none;
  };
  memory = 0 ∷ 0 ∷ 0 ∷ 0 ∷ 0 ∷ 0 ∷ 0 ∷ 0 ∷ 7 ∷ 7 ∷ 7 ∷ 7 ∷ 7 ∷ 7 ∷ 7 ∷ 7 ∷ 0 ∷ 0 ∷ 0 ∷ 0 ∷ [];
  out_of_fuel = false;
}

before-IsInput : IsInput before.stream
before-IsInput = record { calls_buf_read = refl; reads_buffer = refl; backed = omega arith }

pb_decode-Within_example : Within before.stream (pb_decode two_field_setup 1 1 8 before).1.stream
pb_decode-Within_example =
    pb_decode-Within two_field_setup two_field_setup-IsCareful 1 1 8 before before-IsInput

-- The indices below a number.
abbrev indices : ℕ → List ℕ
indices zero = []
indices (suc n) = n ∷ indices n

indices_below : (count n : ℕ) → n ≤ count → All (λ i. i < count) (indices n)
indices_below count zero h = tt
indices_below count (suc n) h = (omega (arith, h), indices_below count n (omega (arith, h)))

all_seen-sees_example :
    (all_seen 33 (sees (indices 33)) ≡ true) ↔ ((i : ℕ) → i < 33 → elem i (indices 33) ≡ true)
all_seen-sees_example =
    all_seen-sees 33 (indices 33) (omega arith) (indices_below 33 33 (omega arith))

pb_decode-run : pb_decode two_field_setup 1 1 8 before ≡ (
  some tt,
  record before {
    stream = record before.stream { state = []; bytes_left = 0 };
    memory =
        0 ∷ 0 ∷ 0 ∷ 0 ∷ 0 ∷ 0 ∷ 0 ∷ 0 ∷ 0x2c ∷ 1 ∷ 0 ∷ 0 ∷ 0x68 ∷ 0x69 ∷ 0 ∷ 0 ∷ 0 ∷ 0 ∷ 0 ∷ 0 ∷ [];
  },
)
unfolding change pb_message_set_to_defaults pb_field_iter_begin pb_ltype pb_atype pb_htype
    pb_field_iter_next pb_decode_tag pb_decode_varint32_eof pb_readbyte buf_read pb_field_iter_find
    decode_field pb_dec_uvarint pb_decode_varint clamp_unsigned pb_dec_string loop32 loop64
    pb_decode_varint32 tag_of each_default iter_from_extension message_defaults
    pb_field_set_to_default set_to_default find_rounds pb_release_union_field pb_decode_noinit
    on_stream store_checked copy fetch load store to_wire_type pb_decode pb_read
pb_decode-run = refl
