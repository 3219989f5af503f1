-- ===== src/Nanopb/Message/Encode.antt =====
-- `encode_array`, `encode_basic_field`, `encode_field`, `pb_encode` and `pb_encode_submessage` of
-- CardPang/Pods/nanopb/pb_encode.c.
pub mod Submessage
pub mod Packed
pub mod Settled
pub mod Sizes
use card_pang.Common.{
  ℕ, zero, suc, ◌+◌, ◌*◌, ◌^◌, Bool, true, false, ◌&&◌, ◌||◌, not, Option, none, some, List, [],
  ◌∷◌, length, drop, ltb, leb, ◌==◌, if◌then◌else◌,
}
use card_pang.Nanopb.Types.{
  M, ◌>>=◌, ◌>>◌, return, u64, PbField, ErrorMessage, pb_set_error, string, load, pb_ltype,
  pb_htype, pb_atype, ltype_bool, ltype_varint, ltype_uvarint, ltype_svarint, ltype_fixed32,
  ltype_fixed64, ltype_bytes, ltype_string, ltype_submessage, ltype_extension,
  ltype_fixed_length_bytes, ltype_last_packable, htype_required, htype_optional, htype_repeated,
  htype_oneof, atype_static, atype_pointer, atype_callback, array_max_size_exceeded,
  missing_required_field, callback_error, submsg_size_changed, invalid_field_descriptor,
  invalid_field_type, stream_full,
}
use card_pang.Nanopb.Output.{OStream, fail, pb_write, pb_ostream_sizing}
use card_pang.Nanopb.Encode.{
  safe_read_bool, pb_encode_varint, pb_encode_tag, pb_encode_tag_for_field, pb_enc_bool,
  pb_enc_varint, pb_enc_uvarint, pb_enc_svarint, pb_enc_fixed32, pb_enc_fixed64, pb_enc_bytes,
  pb_enc_string, pb_enc_fixed_length_bytes,
}
use card_pang.Nanopb.Fields.{FieldIter, field_at, current, pb_field_iter_begin, pb_field_iter_next}
use card_pang.Nanopb.Message.{
  ExtensionType, Program, pointer_at, pointed, bool_byte, give_up, starve, each_item, each_field,
  counted_size, is_sizing, unless_sizing, or_error,
}
use card_pang.Nanopb.Message.Default.{pb_check_proto3_default_value}

module _ {S : Type 0} where
  -- `pb_encode_submessage`, given what encodes the fields: first its pass over a sizing stream, and
  -- then the substream, which may take no more than that.
  close_submessage : ℕ → OStream S → Option (Unit {0}) × OStream S → Option (Unit {0}) × OStream S
  close_submessage size s (status, sub) =
      let s' = record s {
        bytes_written = u64 (s.bytes_written + sub.bytes_written);
        state = sub.state;
        errmsg = sub.errmsg;
      } in
      if sub.bytes_written == size then (status, s') else fail submsg_size_changed s'

  write_submessage : M (OStream S) (Unit {0}) → ℕ → M (OStream S) (Unit {0})
  unfolding close_submessage
  write_submessage fields size s =
      if ltb s.max_size (u64 (s.bytes_written + size))
      then fail stream_full s
      else close_submessage size s
          (fields (record s { max_size = size; bytes_written = 0; errmsg = none }))

  sized_submessage :
      M (OStream S) (Unit {0}) → Option (Unit {0}) × OStream S → M (OStream S) (Unit {0})
  unfolding write_submessage
  sized_submessage fields (none, sub) = λ s. (none, record s { errmsg = sub.errmsg })
  sized_submessage fields (some _, sub) =
      pb_encode_varint sub.bytes_written
      >> unless_sizing sub.bytes_written (write_submessage fields sub.bytes_written)

  unfoldable pub submessage : S → M (OStream S) (Unit {0}) → M (OStream S) (Unit {0})
  unfolding sized_submessage
  submessage null fields = sized_submessage fields (fields (pb_ostream_sizing null))

module _ {S : Type 0} (null : S) (program : Program S) (mem : List ℕ) where
  -- The functions below call `pb_encode` for a table and a structure, one level down, and
  -- `pb_check_proto3_default_value`.
  module _ (encode : ℕ → ℕ → M (OStream S) (Unit {0})) (check : PbField → ℕ → Option Bool) where
    unfoldable pub pb_enc_submessage : PbField → ℕ → M (OStream S) (Unit {0})
    unfolding submessage
    pb_enc_submessage field src =
        if field.ptr == 0
        then fail invalid_field_descriptor
        else submessage null (encode field.ptr src)

    -- `PB_ENCODERS[PB_LTYPE(field->type)](stream, field, src)`. The entry for extensions is NULL, and
    -- the table ends with the eleventh: a call of what is not there, which C does not define, fails.
    unfoldable pub func : PbField → ℕ → M (OStream S) (Unit {0})
    unfolding pb_enc_submessage
    func field src =
        let ltype = pb_ltype field.type_bits in
        let p = drop src mem in
        if ltype == ltype_bool
        then pb_enc_bool p
        else (if ltype == ltype_varint
            then pb_enc_varint field p
            else (if ltype == ltype_uvarint
                then pb_enc_uvarint field p
                else (if ltype == ltype_svarint
                    then pb_enc_svarint field p
                    else (if ltype == ltype_fixed32
                        then pb_enc_fixed32 p
                        else (if ltype == ltype_fixed64
                            then pb_enc_fixed64 p
                            else (if ltype == ltype_bytes
                                then pb_enc_bytes field (pointed mem src)
                                else (if ltype == ltype_string
                                    then pb_enc_string field (pointed mem src)
                                    else (if ltype == ltype_submessage
                                        then pb_enc_submessage field src
                                        else (if ltype == ltype_fixed_length_bytes
                                            then pb_enc_fixed_length_bytes field p
                                            else fail invalid_field_type)))))))))

    -- The size of a packed array.
    unfoldable pub packed_size : PbField → ℕ → ℕ → Option ℕ
    unfolding each_item
    packed_size field p_data count =
        let ltype = pb_ltype field.type_bits in
        if ltype == ltype_fixed32
        then some (u64 (4 * count))
        else (if ltype == ltype_fixed64
            then some (u64 (8 * count))
            else counted_size
                (each_item (func field) field.data_size count p_data (pb_ostream_sizing null)))

    unfoldable pub packed_data : PbField → ℕ → ℕ → Option ℕ → M (OStream S) (Unit {0})
    unfolding each_item
    packed_data field p_data count none = give_up
    packed_data field p_data count (some size) =
        pb_encode_varint size
        >> unless_sizing size (each_item (func field) field.data_size count p_data)

    packed_array : PbField → ℕ → ℕ → M (OStream S) (Unit {0})
    unfolding packed_data packed_size
    packed_array field p_data count =
        pb_encode_tag string field.tag
        >> packed_data field p_data count (packed_size field p_data count)

    -- The entries of a pointer field of strings or bytes are pointers themselves.
    unpacked_item : PbField → ℕ → M (OStream S) (Unit {0})
    unfolding func
    unpacked_item field p =
        let ltype = pb_ltype field.type_bits in
        let twice =
          pb_atype field.type_bits == atype_pointer
          && (ltype == ltype_string || ltype == ltype_bytes) in
        pb_encode_tag_for_field field >> func field (if twice then pointer_at mem p else p)

    unfoldable pub encode_array : PbField → ℕ → ℕ → M (OStream S) (Unit {0})
    unfolding packed_array unpacked_item each_item
    encode_array field p_data count =
        if count == 0
        then return tt
        else (if not (pb_atype field.type_bits == atype_pointer) && ltb field.array_size count
            then fail array_max_size_exceeded
            else (if leb (pb_ltype field.type_bits) ltype_last_packable
                then packed_array field p_data count
                else each_item (unpacked_item field) field.data_size count p_data))

    -- A field with its tag.
    tagged : PbField → ℕ → M (OStream S) (Unit {0})
    unfolding func
    tagged field src = pb_encode_tag_for_field field >> func field src

    -- The `switch` on the repetition rule; `p_size` is the memory from `pSize` on.
    by_htype : PbField → ℕ → List ℕ → M (OStream S) (Unit {0})
    unfolding tagged encode_array
    by_htype field p_data p_size =
        let htype = pb_htype field.type_bits in
        let count = if not (field.size_offset == 0) then load 4 p_size else field.array_size in
        if htype == htype_required
        then (if p_data == 0 then fail missing_required_field else tagged field p_data)
        else (if htype == htype_optional
            then (if safe_read_bool p_size then tagged field p_data else return tt)
            else (if htype == htype_repeated
                then encode_array field p_data count
                else (if load 4 p_size == field.tag then tagged field p_data else return tt)))

    -- `pSize` points to `implicit_has` when the field has no offset of a size.
    with_has : PbField → ℕ → Option Bool → M (OStream S) (Unit {0})
    unfolding by_htype
    with_has field p_data none = starve
    with_has field p_data (some implicit_has) =
        let is_pointer = pb_atype field.type_bits == atype_pointer in
        let target = if is_pointer then pointer_at mem p_data else p_data in
        let has = if is_pointer then not (target == 0) else implicit_has in
        let p_size =
          if field.size_offset == 0
          then bool_byte has ∷ []
          else drop (u64 (p_data + field.size_offset)) mem in
        by_htype field target p_size

    unfoldable pub encode_basic_field : PbField → ℕ → M (OStream S) (Unit {0})
    unfolding with_has
    encode_basic_field field p_data =
        let is_implicit = field.size_offset == 0 && pb_htype field.type_bits == htype_optional in
        with_has field p_data (
          if is_implicit
          then elim (check field p_data) [ none ↦ none | some zeroed ↦ some (not zeroed) ]
          else some true)

    unfoldable pub encode_callback_field : PbField → ℕ → M (OStream S) (Unit {0})
    encode_callback_field field p_data =
        let encoder = pointer_at mem p_data in
        if encoder == 0
        then return tt
        else (λ s. or_error callback_error (program.call_encode encoder field (u64 (p_data + 8)) s))

    unfoldable pub encode_field : PbField → ℕ → M (OStream S) (Unit {0})
    unfolding encode_basic_field encode_callback_field
    encode_field field p_data =
        let atype = pb_atype field.type_bits in
        if atype == atype_static || atype == atype_pointer
        then encode_basic_field field p_data
        else (if atype == atype_callback
            then encode_callback_field field p_data
            else fail invalid_field_type)

    -- `&extension->dest` is eight bytes into the structure.
    unfoldable pub default_extension_encoder : ℕ → M (OStream S) (Unit {0})
    unfolding encode_field
    default_extension_encoder extension =
        let type = program.extension_type (pointer_at mem extension) in
        let field = field_at (program.table type.arg) 0 in
        let dest = u64 (extension + 8) in
        if pb_atype field.type_bits == atype_pointer
        then encode_field field dest
        else encode_field field (pointer_at mem dest)

    one_extension : ℕ → M (OStream S) (Unit {0})
    unfolding default_extension_encoder
    one_extension extension =
        let type = program.extension_type (pointer_at mem extension) in
        if type.encode == 0
        then default_extension_encoder extension
        else program.call_extension type.encode extension

    -- `while (extension)`: a list that ends has no more entries than the memory has bytes.
    unfoldable pub extension_rounds : ℕ → ℕ → M (OStream S) (Unit {0})
    unfolding one_extension
    extension_rounds zero extension = starve
    extension_rounds (suc rounds) extension =
        let rest = extension_rounds rounds (pointer_at mem (u64 (extension + 16))) in
        if extension == 0 then return tt else one_extension extension >> rest

    unfoldable pub encode_extension_field : PbField → ℕ → M (OStream S) (Unit {0})
    unfolding extension_rounds
    encode_extension_field field p_data =
        extension_rounds (suc (length mem)) (pointer_at mem p_data)

    -- The body of the loop of `pb_encode`.
    one_field : FieldIter → M (OStream S) (Unit {0})
    unfolding encode_extension_field encode_field
    one_field iter =
        if pb_ltype (current iter).type_bits == ltype_extension
        then encode_extension_field (current iter) iter.p_data
        else encode_field (current iter) iter.p_data

    unfoldable pub encode_fields : ℕ → ℕ → M (OStream S) (Unit {0})
    unfolding one_field each_field
    encode_fields fields src_struct =
        let table = program.table fields in
        let (some_field, iter) = pb_field_iter_begin table src_struct in
        if some_field then each_field one_field (length table) iter else return tt

  -- The fuel is the depth of submessages.
  unfoldable pub pb_encode : ℕ → ℕ → ℕ → M (OStream S) (Unit {0})
  unfolding encode_fields
  pb_encode zero fields src_struct = starve
  pb_encode (suc depth) fields src_struct =
      encode_fields (pb_encode depth) (pb_check_proto3_default_value program.table mem (suc depth))
        fields src_struct

  unfoldable pub pb_encode_submessage : ℕ → ℕ → ℕ → M (OStream S) (Unit {0})
  unfolding submessage pb_encode
  pb_encode_submessage depth fields src_struct = submessage null (pb_encode depth fields src_struct)

  unfoldable pub pb_encode_delimited : ℕ → ℕ → ℕ → M (OStream S) (Unit {0})
  unfolding pb_encode_submessage
  pb_encode_delimited depth fields src_struct = pb_encode_submessage depth fields src_struct

  unfoldable pub pb_encode_nullterminated : ℕ → ℕ → ℕ → M (OStream S) (Unit {0})
  unfolding pb_encode
  pb_encode_nullterminated depth fields src_struct = do
    pb_encode depth fields src_struct
    pb_write (0 ∷ []) 1

  unfoldable pub pb_get_encoded_size : ℕ → ℕ → ℕ → Option ℕ
  unfolding pb_encode
  pb_get_encoded_size depth fields src_struct =
      counted_size (pb_encode depth fields src_struct (pb_ostream_sizing null))
