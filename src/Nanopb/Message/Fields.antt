-- ===== src/Nanopb/Message/Fields.antt =====
-- Fields of a message in CardPang/Pods/nanopb/pb_decode.c: the decoders of `PB_DECODERS`, and
-- `decode_static_field`.
pub mod Split
pub mod Safe
pub mod Static
use card_pang.Common.{
  ℕ, zero, suc, ◌+◌, ◌-◌, ◌*◌, ◌/◌, ◌^◌, Bool, true, false, not, ◌&&◌, ◌||◌, Option, none, some,
  List, [], ◌∷◌, length, ltb, leb, ◌==◌, if◌then◌else◌,
}
use card_pang.Nanopb.Types.{
  M, ◌>>=◌, ◌>>◌, return, u64, u32, PbField, ErrorMessage, WireType, string, varint, bits64, bits32,
  other, store, pb_ltype, pb_htype, pb_atype, ltype_bool, ltype_varint, ltype_uvarint,
  ltype_svarint, ltype_fixed32, ltype_fixed64, ltype_bytes, ltype_string, ltype_submessage,
  ltype_fixed_length_bytes, ltype_last_packable, htype_required, htype_optional, htype_repeated,
  htype_oneof, atype_static, atype_pointer, atype_callback, pb_size_max, array_overflow,
  too_many_array_entries, callback_failed, invalid_union_tag, iterator_error,
  invalid_field_descriptor, invalid_field_type,
}
use card_pang.Nanopb.Input.{IStream, pb_istream_from_buffer}
use card_pang.Nanopb.Decode.{
  pb_skip_field, read_raw_value, pb_make_string_substream, pb_close_string_substream,
}
use card_pang.Nanopb.Output.{fetch}
use card_pang.Nanopb.Fields.{FieldIter, current, pb_field_iter_find}
use card_pang.Nanopb.Defaults.{clear}
use card_pang.Nanopb.Message.{pointer_at}
use card_pang.Nanopb.Message.Machine.{
  Machine, D, on_stream, put, fail, starve, change, number_at, pb_dec_bool, pb_dec_varint,
  pb_dec_uvarint, pb_dec_svarint, pb_dec_fixed32, pb_dec_fixed64, pb_dec_fixed_length_bytes,
  allocate_field, pb_dec_bytes, pb_dec_string,
}

abbrev pub is_string : WireType → Bool
is_string string = true
is_string varint = false
is_string bits64 = false
is_string bits32 = false
is_string (other n) = false

-- The end of what worked on a substream: it is closed, and the status is returned.
unfoldable pub close_sub : {A : Type 0} → IStream (List ℕ) → Option A × Machine → Option A × Machine
close_sub parent (status, t) =
    let (closed, s) = pb_close_string_substream t.stream parent in
    elim closed [
      | none ↦ (none, record t { stream = s })
      | some _ ↦ (status, record t { stream = s })
    ]

-- `*size` counts one more.
unfoldable pub count_up : ℕ → D (Unit {0})
count_up p_size t = put p_size (store 4 (u32 (number_at t.memory p_size + 1))) t

-- `base + field->data_size * (*size)`; the product has 32 bits.
abbrev pub item_at : ℕ → PbField → ℕ → ℕ
item_at base field size = u64 (base + u32 (field.data_size * size))

-- The two functions for substreams run `body` on one, and then close it.
pub in_substream : D (Unit {0}) → IStream (List ℕ) → D (Unit {0})
unfolding close_sub
in_substream body sub t = close_sub t.stream (body (record t { stream = sub }))

-- What the user's program gives: the functions of callbacks, called with the address of their `arg`,
-- and the memory's allocation.
pub record Runtime : Type 0 where
  pub call_decode : ℕ → PbField → ℕ → D (Unit {0})
  pub pb_realloc : ℕ → ℕ → List ℕ → ℕ × List ℕ
  pub pb_free : ℕ → List ℕ → List ℕ

module _ (runtime : Runtime) where
  -- `decode` and `noinit` are `pb_decode` and `pb_decode_noinit` one level down, `defaults` sets a
  -- message to its default values, and `release` releases a field.
  module _ (decode noinit : ℕ → ℕ → D (Unit {0})) (defaults : ℕ → ℕ → List ℕ → Option (List ℕ))
      (release : FieldIter → List ℕ → Option (List ℕ)) where
    pub submessage_in : PbField → ℕ → IStream (List ℕ) → D (Unit {0})
    unfolding in_substream
    submessage_in field dest sub =
        if field.ptr == 0
        then fail invalid_field_descriptor
        else in_substream
            (if pb_htype field.type_bits == htype_repeated
              then decode field.ptr dest
              else noinit field.ptr dest)
            sub

    unfoldable pub pb_dec_submessage : PbField → ℕ → D (Unit {0})
    unfolding submessage_in
    pb_dec_submessage field dest = on_stream pb_make_string_substream >>= submessage_in field dest

    -- `PB_DECODERS[PB_LTYPE(type)]`. The entry for extensions is NULL, and the table ends with the
    -- eleventh: a call of what is not there, which C does not define, fails.
    unfoldable pub func : PbField → ℕ → D (Unit {0})
    unfolding pb_dec_submessage
    func field dest =
        let ltype = pb_ltype field.type_bits in
        if ltype == ltype_bool
        then pb_dec_bool dest
        else (if ltype == ltype_varint
            then pb_dec_varint field dest
            else (if ltype == ltype_uvarint
                then pb_dec_uvarint field dest
                else (if ltype == ltype_svarint
                    then pb_dec_svarint field dest
                    else (if ltype == ltype_fixed32
                        then pb_dec_fixed32 dest
                        else (if ltype == ltype_fixed64
                            then pb_dec_fixed64 dest
                            else (if ltype == ltype_bytes
                                then pb_dec_bytes runtime.pb_realloc field dest
                                else (if ltype == ltype_string
                                    then pb_dec_string runtime.pb_realloc field dest
                                    else (if ltype == ltype_submessage
                                        then pb_dec_submessage field dest
                                        else (if ltype == ltype_fixed_length_bytes
                                            then pb_dec_fixed_length_bytes field dest
                                            else fail invalid_field_type)))))))))

    -- Each round takes a byte of the substream, so that fuel above the bytes left is enough.
    pub packed_items : ℕ → FieldIter → D (Unit {0})
    unfolding func count_up
    packed_items zero iter = starve
    packed_items (suc rounds) iter =
        let field = current iter in
        let rest = packed_items rounds iter in
        λ t.
          let size = number_at t.memory iter.p_size in
          if ltb 0 t.stream.bytes_left && ltb size field.array_size
          then (func field (item_at iter.p_data field size) >> (count_up iter.p_size >> rest)) t
          else (some tt, t)

    pub close_packed : IStream (List ℕ) → Option (Unit {0}) × Machine → Option (Unit {0}) × Machine
    unfolding close_sub
    close_packed parent (status, t) =
        if not (t.stream.bytes_left == 0)
        then fail array_overflow (record t { stream = parent })
        else close_sub parent (status, t)

    pub packed_static : FieldIter → IStream (List ℕ) → D (Unit {0})
    unfolding packed_items close_packed
    packed_static iter sub t =
        close_packed t.stream (packed_items (suc sub.bytes_left) iter (record t { stream = sub }))

    pub unpacked_static : FieldIter → D (Unit {0})
    unfolding func count_up
    unpacked_static iter t =
        let field = current iter in
        let size = number_at t.memory iter.p_size in
        (count_up iter.p_size
            >> (if leb field.array_size size
                then fail array_overflow
                else func field (item_at iter.p_data field size)))
          t

    unfoldable pub is_packed : WireType → PbField → Bool
    is_packed wire_type field =
        is_string wire_type && leb (pb_ltype field.type_bits) ltype_last_packable

    unfoldable pub decode_static_field : WireType → FieldIter → D (Unit {0})
    unfolding func packed_static unpacked_static is_packed
    decode_static_field wire_type iter =
        let field = current iter in
        let htype = pb_htype field.type_bits in
        if htype == htype_required
        then func field iter.p_data
        else (if htype == htype_optional
            then (if iter.p_size == iter.p_data then return tt else put iter.p_size (1 ∷ []))
              >> func field iter.p_data
            else (if htype == htype_repeated
                then (if is_packed wire_type field
                    then on_stream pb_make_string_substream >>= packed_static iter
                    else unpacked_static iter)
                else put iter.p_size (store 4 field.tag)
                  >> ((if pb_ltype field.type_bits == ltype_submessage
                        then change (λ mem.
                          defaults field.ptr iter.p_data (clear field.data_size iter.p_data mem))
                        else return tt)
                      >> func field iter.p_data)))
