-- ===== src/Nanopb/Examples/Messages.antt =====
-- An encoded message, a walk over its table, and instances of the theorems about both.
mod Defaults
mod Decode
use card_pang.Common.{
  ℕ, zero, suc, ◌<◌, ◌≡◌, ◌≢◌, refl, inl, some, List, [], ◌∷◌, length, take, not, ◌&&◌, ◌==◌, arith,
  lt_wf,
}
use card_pang.Nanopb.Types.{
  PbField, return, u64, pb_ltype, pb_htype, pb_atype, ltype_extension, ltype_submessage, load,
}
use card_pang.Nanopb.Output.{
  pb_ostream_sizing, pb_ostream_from_buffer, buf_write, pb_write, copy, fetch, Buffer,
}
use card_pang.Nanopb.Encode.{
  varint_buffer, pb_encode_varint, pb_encode_tag, pb_encode_tag_for_field, wire_type_for,
  pb_encode_string, read_unsigned, pb_enc_uvarint, pb_enc_string, string_size,
}
use card_pang.Nanopb.Fields.{
  FieldIter, field_at, last_field, is_wanted, pb_field_iter_find, find_extension_field,
  pb_field_iter_begin, pb_field_iter_next,
}
use card_pang.Nanopb.Fields.Find.{
  IsTable, FindOutcome, pb_field_iter_find-FindOutcome, find_extension_field-FindOutcome,
}
use card_pang.Nanopb.Message.{Program, each_field}
use card_pang.Nanopb.Message.Measure.{return-Encodes}
use card_pang.Nanopb.Message.Encode.{
  encode_fields, encode_field, encode_basic_field, func, pb_encode, pb_get_encoded_size,
}
use card_pang.Nanopb.Message.Encode.Settled.{IsPure}
use card_pang.Nanopb.Message.Encode.Sizes.{Outcome, pb_encode-pb_get_encoded_size}
use card_pang.Nanopb.Examples.{empty_stream, empty_stream-IsBuffer, empty_stream_fresh}

-- A message of a number and a string, at the address 8.
abbrev number_field : PbField
number_field = record {
  tag = 1;
  type_bits = 0x02;
  data_offset = 0;
  size_offset = 0;
  data_size = 4;
  array_size = 0;
  ptr = 0;
}

abbrev text_field : PbField
text_field = record {
  tag = 2;
  type_bits = 0x07;
  data_offset = 0;
  size_offset = 0;
  data_size = 4;
  array_size = 0;
  ptr = 0;
}

abbrev two_fields : List PbField
two_fields = number_field ∷ text_field ∷ last_field ∷ []

abbrev message_memory : List ℕ
message_memory = 0 ∷ 0 ∷ 0 ∷ 0 ∷ 0 ∷ 0 ∷ 0 ∷ 0 ∷ 0x2c ∷ 1 ∷ 0 ∷ 0 ∷ 0x68 ∷ 0x69 ∷ 0 ∷ 0 ∷ []

abbrev two_field_program : Program Buffer
two_field_program = record {
  table = λ _. two_fields;
  extension_type = λ _. record { encode = 0; arg = 0 };
  call_encode = λ _ _ _. return tt;
  call_extension = λ _ _. return tt;
}

two_field_program-IsPure : IsPure two_field_program
two_field_program-IsPure = record {
  encoder = λ _ _ _. inl ([], return-Encodes);
  extension = λ _ _. inl ([], return-Encodes);
}

abbrev null : Buffer
null = record { memory = []; position = 0 }

pb_get_encoded_size-seven : pb_get_encoded_size null two_field_program message_memory 1 1 8 ≡ some 7
unfolding pb_ltype pb_htype pb_atype load pb_ostream_sizing pb_ostream_from_buffer buf_write
    pb_write copy fetch varint_buffer pb_encode_varint pb_encode_tag pb_encode_tag_for_field
    wire_type_for pb_encode_string read_unsigned pb_enc_uvarint pb_enc_string string_size
    pb_field_iter_begin pb_field_iter_next each_field encode_fields encode_field encode_basic_field
    func pb_encode pb_get_encoded_size lt_wf
pb_get_encoded_size-seven = refl

pb_encode-bytes :
    take 7 (pb_encode null two_field_program message_memory 1 1 8 empty_stream).1.state.memory
    ≡ 8 ∷ 0xac ∷ 2 ∷ 0x12 ∷ 2 ∷ 0x68 ∷ 0x69 ∷ []
unfolding pb_ltype pb_htype pb_atype load pb_ostream_sizing pb_ostream_from_buffer buf_write
    pb_write copy fetch varint_buffer pb_encode_varint pb_encode_tag pb_encode_tag_for_field
    wire_type_for pb_encode_string read_unsigned pb_enc_uvarint pb_enc_string string_size
    pb_field_iter_begin pb_field_iter_next each_field encode_fields encode_field encode_basic_field
    func pb_encode pb_get_encoded_size lt_wf
pb_encode-bytes = refl

pb_encode-pb_get_encoded_size_example :
    (bs : List ℕ) × (7 ≡ u64 (length bs))
    × Outcome empty_stream bs (pb_encode null two_field_program message_memory 1 1 8 empty_stream)
pb_encode-pb_get_encoded_size_example =
    pb_encode-pb_get_encoded_size null two_field_program message_memory two_field_program-IsPure 1 1
      8 7 empty_stream pb_get_encoded_size-seven empty_stream-IsBuffer empty_stream_fresh

-- A walk over its table.
abbrev at_second : FieldIter
at_second = record {
  start = two_fields;
  pos = 1;
  required_field_index = 0;
  dest_struct = 8;
  p_data = 12;
  p_size = 12;
}

two_fields-IsTable : IsTable two_fields 2
two_fields-IsTable = record { some_field = omega arith; present = present; terminated = refl }
  where
    present : (i : ℕ) → i < 2 → (field_at two_fields i).tag ≢ 0
    present zero h = λ e. omega (arith, e)
    present (suc zero) h = λ e. omega (arith, e)
    present (suc (suc i)) h = absurd (omega (arith, h))

pb_field_iter_find-FindOutcome_example :
    FindOutcome
      (λ field. field.tag == 1 && not (pb_ltype field.type_bits == ltype_extension))
      2
      two_fields
      1
      (pb_field_iter_find 1 at_second)
pb_field_iter_find-FindOutcome_example =
    pb_field_iter_find-FindOutcome 1 2 at_second two_fields-IsTable (omega arith)

find_extension_field-FindOutcome_example :
    FindOutcome
      (λ field. pb_ltype field.type_bits == ltype_extension)
      2
      two_fields
      1
      (find_extension_field at_second)
find_extension_field-FindOutcome_example =
    find_extension_field-FindOutcome 2 at_second two_fields-IsTable (omega arith)

-- A message with that message inside.
abbrev outer_field : PbField
outer_field = record {
  tag = 3;
  type_bits = 0x08;
  data_offset = 0;
  size_offset = 0;
  data_size = 8;
  array_size = 0;
  ptr = 2;
}

abbrev tables : ℕ → List PbField
tables zero = two_fields
tables (suc zero) = outer_field ∷ last_field ∷ []
tables (suc (suc n)) = two_fields

abbrev rank : ℕ → ℕ
rank zero = 0
rank (suc zero) = 1
rank (suc (suc n)) = 0

no_submessage : (i : ℕ) → pb_ltype (field_at two_fields i).type_bits ≢ ltype_submessage
unfolding pb_ltype
no_submessage zero = λ e. omega (arith, e)
no_submessage (suc zero) = λ e. omega (arith, e)
no_submessage (suc (suc zero)) = λ e. omega (arith, e)
no_submessage (suc (suc (suc i))) = λ e. omega (arith, e)

nested_submessages :
    (fields i : ℕ)
    → pb_ltype (field_at (tables fields) i).type_bits ≡ ltype_submessage
    → rank (field_at (tables fields) i).ptr < rank fields
unfolding pb_ltype
nested_submessages zero i = λ e. absurd (no_submessage i e)
nested_submessages (suc zero) zero = λ e. omega arith
nested_submessages (suc zero) (suc zero) = λ e. omega arith
nested_submessages (suc zero) (suc (suc i)) = λ e. omega arith
nested_submessages (suc (suc n)) i = λ e. absurd (no_submessage i e)
