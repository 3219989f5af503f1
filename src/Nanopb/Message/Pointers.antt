-- ===== src/Nanopb/Message/Pointers.antt =====
-- `decode_pointer_field` of CardPang/Pods/nanopb/pb_decode.c, and what it calls.
pub mod Safe
use card_pang.Common.{
  ℕ, zero, suc, ◌+◌, ◌-◌, ◌*◌, ◌/◌, ◌^◌, Bool, true, false, not, ◌&&◌, ◌||◌, Option, none, some,
  List, [], ◌∷◌, length, ltb, leb, ◌==◌, if◌then◌else◌,
}
use card_pang.Nanopb.Types.{
  M, ◌>>=◌, ◌>>◌, return, u64, u32, PbField, ErrorMessage, WireType, string, varint, bits64, bits32,
  other, store, pb_ltype, pb_htype, pb_atype, ltype_bool, ltype_varint, ltype_uvarint,
  ltype_svarint, ltype_fixed32, ltype_fixed64, ltype_bytes, ltype_string, ltype_submessage,
  ltype_fixed_length_bytes, ltype_last_packable, htype_required, htype_optional, htype_repeated,
  htype_oneof, atype_static, atype_pointer, atype_callback, pb_size_max, array_overflow,
  too_many_array_entries, callback_failed, invalid_union_tag, iterator_error,
  invalid_field_descriptor, invalid_field_type,
}
use card_pang.Nanopb.Input.{IStream, pb_istream_from_buffer}
use card_pang.Nanopb.Decode.{
  pb_skip_field, read_raw_value, pb_make_string_substream, pb_close_string_substream,
}
use card_pang.Nanopb.Output.{fetch}
use card_pang.Nanopb.Fields.{FieldIter, current, pb_field_iter_find}
use card_pang.Nanopb.Defaults.{clear}
use card_pang.Nanopb.Message.{pointer_at}
use card_pang.Nanopb.Message.Machine.{
  Machine, D, on_stream, put, fail, starve, change, number_at, pb_dec_bool, pb_dec_varint,
  pb_dec_uvarint, pb_dec_svarint, pb_dec_fixed32, pb_dec_fixed64, pb_dec_fixed_length_bytes,
  allocate_field, pb_dec_bytes, pb_dec_string,
}
use card_pang.Nanopb.Message.Fields.{
  is_string, close_sub, count_up, item_at, Runtime, func, is_packed,
}

module _ (runtime : Runtime) where
  module _ (decode noinit : ℕ → ℕ → D (Unit {0})) (defaults : ℕ → ℕ → List ℕ → Option (List ℕ))
      (release : FieldIter → List ℕ → Option (List ℕ)) where
    unfoldable pub initialize_pointer_field : PbField → ℕ → D (Unit {0})
    initialize_pointer_field field item =
        let ltype = pb_ltype field.type_bits in
        if ltype == ltype_string || ltype == ltype_bytes
        then put item (fetch 8 [])
        else (if ltype == ltype_submessage
            then change (λ mem. defaults field.ptr item (clear field.data_size item mem))
            else return tt)

    -- An entry of an array at an address that has room for it.
    pub pointer_item : PbField → ℕ → D (Unit {0})
    unfolding initialize_pointer_field func
    pointer_item field item =
        initialize_pointer_field field item
        >> func runtime decode noinit defaults release field item

    -- The number of entries that are allocated when there are too few.
    pub grown : PbField → ℕ → ℕ → ℕ
    grown field bytes_left allocated_size =
        let remain = (bytes_left - 1) / field.data_size + 1 in
        if ltb remain (u64 (2 ^ 64 + pb_size_max - allocated_size))
        then u64 (allocated_size + remain)
        else u64 (allocated_size + 1)

    -- The result `false` is for too many entries.
    pub pointer_items : ℕ → FieldIter → ℕ → D Bool
    unfolding pointer_item count_up grown
    pointer_items zero iter allocated_size t = starve t
    pointer_items (suc rounds) iter allocated_size t =
        let field = current iter in
        let size = number_at t.memory iter.p_size in
        let is_short = ltb allocated_size (size + 1) in
        let new_size =
          if is_short then grown field t.stream.bytes_left allocated_size else allocated_size in
        let rest = pointer_items rounds iter new_size in
        if t.stream.bytes_left == 0
        then (some true, t)
        else (if size == pb_size_max
            then (some false, t)
            else ((if is_short
                    then allocate_field runtime.pb_realloc iter.p_data field.data_size new_size
                    else return tt)
                  >> ((λ u.
                        pointer_item field (item_at (pointer_at u.memory iter.p_data) field size) u)
                      >> (count_up iter.p_size >> rest)))
                t)

    -- With too many entries the parent gets the message, and the status is `false`.
    pub close_pointer : IStream (List ℕ) → Option Bool × Machine → Option (Unit {0}) × Machine
    unfolding close_sub
    close_pointer parent (none, t) = close_sub parent (none, t)
    close_pointer parent (some true, t) = close_sub parent (some tt, t)
    close_pointer parent (some false, t) =
        close_sub (record parent { errmsg = some too_many_array_entries }) (none, t)

    pub packed_pointer : FieldIter → ℕ → IStream (List ℕ) → D (Unit {0})
    unfolding pointer_items close_pointer
    packed_pointer iter allocated_size sub t =
        close_pointer t.stream
          (pointer_items (suc sub.bytes_left) iter allocated_size (record t { stream = sub }))

    pub unpacked_pointer : FieldIter → D (Unit {0})
    unfolding pointer_item count_up
    unpacked_pointer iter t =
        let field = current iter in
        let size = number_at t.memory iter.p_size in
        (if size == pb_size_max
            then fail too_many_array_entries
            else allocate_field runtime.pb_realloc iter.p_data field.data_size (u32 (size + 1))
              >> (λ u.
                  let item = item_at (pointer_at u.memory iter.p_data) field size in
                  (count_up iter.p_size >> pointer_item field item) u))
          t

    pub single_pointer : FieldIter → D (Unit {0})
    unfolding func initialize_pointer_field
    single_pointer iter =
        let field = current iter in
        let ltype = pb_ltype field.type_bits in
        if ltype == ltype_string || ltype == ltype_bytes
        then func runtime decode noinit defaults release field iter.p_data
        else allocate_field runtime.pb_realloc iter.p_data field.data_size 1
          >> ((λ t. initialize_pointer_field field (pointer_at t.memory iter.p_data) t) >> (λ t.
              func runtime decode noinit defaults release field (pointer_at t.memory iter.p_data)
                t))

    -- A submessage that is there already is released first.
    pub release_duplicate : FieldIter → D (Unit {0})
    release_duplicate iter t =
        (if pb_ltype (current iter).type_bits == ltype_submessage
              && not (pointer_at t.memory iter.p_data == 0)
            then change (release iter)
            else return tt)
          t

    unfoldable pub decode_pointer_field : WireType → FieldIter → D (Unit {0})
    unfolding single_pointer packed_pointer unpacked_pointer release_duplicate is_packed
    decode_pointer_field wire_type iter =
        let field = current iter in
        let htype = pb_htype field.type_bits in
        if htype == htype_repeated
        then (if is_packed runtime decode noinit defaults release wire_type field
            then (λ t.
                (on_stream pb_make_string_substream
                    >>= packed_pointer iter (number_at t.memory iter.p_size))
                  t)
            else unpacked_pointer iter)
        else release_duplicate iter
          >> ((if htype == htype_oneof then put iter.p_size (store 4 field.tag) else return tt)
              >> single_pointer iter)
