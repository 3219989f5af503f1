-- ===== src/Nanopb/Message/Encode/Settled.antt =====
-- `pb_encode` of CardPang/Pods/nanopb/pb_encode.c on sizing streams and buffers, whatever the message
-- holds, when the user's functions write the same bytes whenever they are called.
use card_pang.Common.{
  ℕ, zero, suc, inl, Bool, ◌&&◌, ◌||◌, not, Option, none, some, List, [], length, ltb, leb, ◌==◌,
}
use card_pang.Nanopb.Types.{
  M, PbField, string, load, pb_ltype, pb_htype, pb_atype, ltype_extension, ltype_last_packable,
  htype_required, htype_optional, htype_repeated, atype_static, atype_pointer, atype_callback,
  array_max_size_exceeded, missing_required_field, callback_error, invalid_field_type,
}
use card_pang.Nanopb.Output.{OStream, Buffer}
use card_pang.Nanopb.Encode.{safe_read_bool}
use card_pang.Nanopb.Encode.Settled.{pb_encode_tag-Settled, pb_encode_tag_for_field-Settled}
use card_pang.Nanopb.Fields.{FieldIter, field_at, current, pb_field_iter_begin, pb_field_iter_next}
use card_pang.Nanopb.Message.{Program, pointer_at, each_field}
use card_pang.Nanopb.Message.Default.{pb_check_proto3_default_value}
use card_pang.Nanopb.Message.Measure.{
  Settled, fail-Settled, starve-Settled, return-Encodes, >>-Settled, choose-Settled,
  or_error-Settled, each_item-Settled,
}
use card_pang.Nanopb.Message.Encode.{
  packed_array, unpacked_item, encode_array, tagged, by_htype, with_has, encode_basic_field,
  encode_callback_field, encode_field, default_extension_encoder, one_extension, extension_rounds,
  encode_extension_field, one_field, encode_fields, pb_encode,
}
use card_pang.Nanopb.Message.Encode.Packed.{func-Settled, packed_data-Settled}

return-Settled : Settled (λ s. (some tt, s))
return-Settled = inl ([], return-Encodes)

-- The user's functions write the same bytes to any stream.
pub record IsPure (program : Program Buffer) : Type 0 where
  pub encoder :
      (function : ℕ) (field : PbField) (arg : ℕ) → Settled (program.call_encode function field arg)
  pub extension : (function extension : ℕ) → Settled (program.call_extension function extension)

each_field-Settled :
    (body : FieldIter → M (OStream Buffer) (Unit {0})) (rounds : ℕ) (iter : FieldIter)
    → ((i : FieldIter) → Settled (body i))
    → Settled (each_field body rounds iter)
unfolding each_field
each_field-Settled body zero iter h = starve-Settled
each_field-Settled body (suc rounds) iter h = >>-Settled (h iter) (
    choose-Settled (pb_field_iter_next iter).0
      (each_field-Settled body rounds (pb_field_iter_next iter).1 h) return-Settled)

module _ (null : Buffer) (program : Program Buffer) (mem : List ℕ) (pure : IsPure program) where
  module _ (encode : ℕ → ℕ → M (OStream Buffer) (Unit {0})) (check : PbField → ℕ → Option Bool)
      (hs : (fields src : ℕ) → Settled (encode fields src)) where
    encode_array-Settled :
        (field : PbField) (p_data count : ℕ)
        → Settled (encode_array null program mem encode check field p_data count)
    unfolding encode_array packed_array unpacked_item
    encode_array-Settled field p_data count = choose-Settled (count == 0) return-Settled (
        choose-Settled
          (not (pb_atype field.type_bits == atype_pointer) && ltb field.array_size count)
          (fail-Settled array_max_size_exceeded)
          (choose-Settled (leb (pb_ltype field.type_bits) ltype_last_packable)
            (>>-Settled (pb_encode_tag-Settled string field.tag)
              (packed_data-Settled null program mem encode check hs field p_data count))
            (each_item-Settled _ field.data_size
              (λ p.
                >>-Settled (pb_encode_tag_for_field-Settled field)
                  (func-Settled null program mem encode check hs field _))
              count p_data)))

    tagged-Settled :
        (field : PbField) (src : ℕ) → Settled (tagged null program mem encode check field src)
    unfolding tagged
    tagged-Settled field src =
        >>-Settled (pb_encode_tag_for_field-Settled field)
          (func-Settled null program mem encode check hs field src)

    by_htype-Settled :
        (field : PbField) (p_data : ℕ) (p_size : List ℕ)
        → Settled (by_htype null program mem encode check field p_data p_size)
    unfolding by_htype
    by_htype-Settled field p_data p_size =
        let htype = pb_htype field.type_bits in
        choose-Settled (htype == htype_required)
          (choose-Settled (p_data == 0) (fail-Settled missing_required_field)
            (tagged-Settled field p_data))
          (choose-Settled (htype == htype_optional)
            (choose-Settled (safe_read_bool p_size) (tagged-Settled field p_data) return-Settled)
            (choose-Settled (htype == htype_repeated) (encode_array-Settled field p_data _) (
              choose-Settled (load 4 p_size == field.tag) (tagged-Settled field p_data)
                return-Settled)))

    with_has-Settled :
        (field : PbField) (p_data : ℕ) (has : Option Bool)
        → Settled (with_has null program mem encode check field p_data has)
    unfolding with_has
    with_has-Settled field p_data none = starve-Settled
    with_has-Settled field p_data (some has) = by_htype-Settled field _ _

    encode_callback_field-Settled :
        (field : PbField) (p_data : ℕ)
        → Settled (encode_callback_field null program mem encode check field p_data)
    unfolding encode_callback_field
    encode_callback_field-Settled field p_data =
        choose-Settled (pointer_at mem p_data == 0) return-Settled
          (or_error-Settled callback_error _ (pure.encoder _ field _))

    encode_field-Settled :
        (field : PbField) (p_data : ℕ)
        → Settled (encode_field null program mem encode check field p_data)
    unfolding encode_field encode_basic_field
    encode_field-Settled field p_data =
        choose-Settled
          (pb_atype field.type_bits == atype_static || pb_atype field.type_bits == atype_pointer)
          (with_has-Settled field p_data _)
          (choose-Settled (pb_atype field.type_bits == atype_callback)
            (encode_callback_field-Settled field p_data) (fail-Settled invalid_field_type))

    one_extension-Settled :
        (extension : ℕ) → Settled (one_extension null program mem encode check extension)
    unfolding one_extension default_extension_encoder
    one_extension-Settled extension =
        choose-Settled ((program.extension_type (pointer_at mem extension)).encode == 0)
          (choose-Settled
            (pb_atype
                (field_at (program.table (program.extension_type (pointer_at mem extension)).arg)
                  0).type_bits
              == atype_pointer)
            (encode_field-Settled _ _) (encode_field-Settled _ _))
          (pure.extension _ extension)

    extension_rounds-Settled :
        (rounds extension : ℕ)
        → Settled (extension_rounds null program mem encode check rounds extension)
    unfolding extension_rounds
    extension_rounds-Settled zero extension = starve-Settled
    extension_rounds-Settled (suc rounds) extension =
        choose-Settled (extension == 0) return-Settled
          (>>-Settled (one_extension-Settled extension) (extension_rounds-Settled rounds _))

    one_field-Settled : (iter : FieldIter) → Settled (one_field null program mem encode check iter)
    unfolding one_field encode_extension_field
    one_field-Settled iter =
        choose-Settled (pb_ltype (current iter).type_bits == ltype_extension)
          (extension_rounds-Settled (suc (length mem)) _)
          (encode_field-Settled (current iter) iter.p_data)

    encode_fields-Settled :
        (fields src : ℕ) → Settled (encode_fields null program mem encode check fields src)
    unfolding encode_fields
    encode_fields-Settled fields src =
        choose-Settled (pb_field_iter_begin (program.table fields) src).0
          (each_field-Settled _ _ _ one_field-Settled) return-Settled

  pub pb_encode-Settled :
      (depth fields src : ℕ) → Settled (pb_encode null program mem depth fields src)
  unfolding pb_encode
  pb_encode-Settled zero fields src = starve-Settled
  pb_encode-Settled (suc depth) fields src =
      encode_fields-Settled (pb_encode null program mem depth)
        (pb_check_proto3_default_value program.table mem (suc depth)) (pb_encode-Settled depth)
        fields src
