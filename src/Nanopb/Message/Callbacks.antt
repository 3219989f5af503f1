-- ===== src/Nanopb/Message/Callbacks.antt =====
-- `decode_callback_field`, `pb_release_union_field` and `decode_field` of
-- CardPang/Pods/nanopb/pb_decode.c.
pub mod Safe
use card_pang.Common.{
  ℕ, zero, suc, ◌+◌, ◌-◌, ◌*◌, ◌/◌, ◌^◌, Bool, true, false, not, ◌&&◌, ◌||◌, Option, none, some,
  List, [], ◌∷◌, length, ltb, leb, ◌==◌, if◌then◌else◌,
}
use card_pang.Nanopb.Types.{
  M, ◌>>=◌, ◌>>◌, return, u64, u32, PbField, ErrorMessage, WireType, string, varint, bits64, bits32,
  other, store, pb_ltype, pb_htype, pb_atype, ltype_bool, ltype_varint, ltype_uvarint,
  ltype_svarint, ltype_fixed32, ltype_fixed64, ltype_bytes, ltype_string, ltype_submessage,
  ltype_fixed_length_bytes, ltype_last_packable, htype_required, htype_optional, htype_repeated,
  htype_oneof, atype_static, atype_pointer, atype_callback, pb_size_max, array_overflow,
  too_many_array_entries, callback_failed, invalid_union_tag, iterator_error,
  invalid_field_descriptor, invalid_field_type,
}
use card_pang.Nanopb.Input.{IStream, pb_istream_from_buffer}
use card_pang.Nanopb.Decode.{
  pb_skip_field, read_raw_value, pb_make_string_substream, pb_close_string_substream,
}
use card_pang.Nanopb.Output.{fetch}
use card_pang.Nanopb.Fields.{FieldIter, current, pb_field_iter_find}
use card_pang.Nanopb.Defaults.{clear}
use card_pang.Nanopb.Message.{pointer_at}
use card_pang.Nanopb.Message.Machine.{
  Machine, D, on_stream, put, fail, starve, change, number_at, pb_dec_bool, pb_dec_varint,
  pb_dec_uvarint, pb_dec_svarint, pb_dec_fixed32, pb_dec_fixed64, pb_dec_fixed_length_bytes,
  allocate_field, pb_dec_bytes, pb_dec_string,
}
use card_pang.Nanopb.Message.Fields.{is_string, close_sub, Runtime, decode_static_field}
use card_pang.Nanopb.Message.Pointers.{decode_pointer_field}

module _ (runtime : Runtime) where
  module _ (decode noinit : ℕ → ℕ → D (Unit {0})) (defaults : ℕ → ℕ → List ℕ → Option (List ℕ))
      (release : FieldIter → List ℕ → Option (List ℕ)) where
    -- `do … while (substream.bytes_left)`: fuel above the bytes left is enough when each call takes one.
    pub callback_rounds : ℕ → FieldIter → D (Unit {0})
    callback_rounds zero iter = starve
    callback_rounds (suc rounds) iter =
        let rest = callback_rounds rounds iter in
        (λ t.
          runtime.call_decode (pointer_at t.memory iter.p_data) (current iter)
            (u64 (iter.p_data + 8)) t)
        >> (λ t. if t.stream.bytes_left == 0 then (some tt, t) else rest t)

    pub close_callback :
        IStream (List ℕ) → Option (Unit {0}) × Machine → Option (Unit {0}) × Machine
    unfolding close_sub
    close_callback parent (none, t) = fail callback_failed (record t { stream = parent })
    close_callback parent (some _, t) = close_sub parent (some tt, t)

    pub string_callback : FieldIter → IStream (List ℕ) → D (Unit {0})
    unfolding callback_rounds close_callback
    string_callback iter sub t =
        close_callback t.stream
          (callback_rounds (suc sub.bytes_left) iter (record t { stream = sub }))

    -- The single value is a stream of its own.
    pub scalar_callback : FieldIter → List ℕ → D (Unit {0})
    scalar_callback iter buffer t =
        let (status, u) =
          runtime.call_decode (pointer_at t.memory iter.p_data) (current iter)
            (u64 (iter.p_data + 8))
            (record t { stream = pb_istream_from_buffer buffer (length buffer) }) in
        (status, record u { stream = t.stream })

    unfoldable pub decode_callback_field : WireType → FieldIter → D (Unit {0})
    unfolding string_callback scalar_callback
    decode_callback_field wire_type iter t =
        (if iter.p_data == 0 || pointer_at t.memory iter.p_data == 0
            then on_stream (pb_skip_field wire_type)
            else (if is_string wire_type
                then on_stream pb_make_string_substream >>= string_callback iter
                else on_stream (read_raw_value wire_type 10) >>= scalar_callback iter))
          t

    -- The second half of `pb_release_union_field`.
    pub back_to : ℕ → FieldIter → D FieldIter
    back_to new_tag iter =
        let (found, back) = pb_field_iter_find new_tag iter in
        if found then return back else fail iterator_error

    -- The iterator is returned, as it may have moved.
    unfoldable pub pb_release_union_field : FieldIter → D FieldIter
    unfolding back_to
    pb_release_union_field iter t =
        let old_tag = number_at t.memory iter.p_size in
        let new_tag = (current iter).tag in
        let (found, old) = pb_field_iter_find old_tag iter in
        (if old_tag == 0 || old_tag == new_tag
            then return iter
            else (if not found
                then fail invalid_union_tag
                else change (release old) >> back_to new_tag old))
          t

    pub decode_by_atype : WireType → FieldIter → D (Unit {0})
    unfolding decode_static_field decode_pointer_field decode_callback_field
    decode_by_atype wire_type iter =
        let atype = pb_atype (current iter).type_bits in
        if atype == atype_static
        then decode_static_field runtime decode noinit defaults release wire_type iter
        else (if atype == atype_pointer
            then decode_pointer_field runtime decode noinit defaults release wire_type iter
            else (if atype == atype_callback
                then decode_callback_field wire_type iter
                else fail invalid_field_type))

    unfoldable pub decode_field : WireType → FieldIter → D FieldIter
    unfolding pb_release_union_field decode_by_atype
    decode_field wire_type iter = do
      there ←
          if pb_htype (current iter).type_bits == htype_oneof
          then pb_release_union_field iter
          else return iter
      decode_by_atype wire_type there
      return there
