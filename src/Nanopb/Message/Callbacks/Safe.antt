-- ===== src/Nanopb/Message/Callbacks/Safe.antt =====
-- `decode_callback_field`, `pb_release_union_field` and `decode_field` of
-- CardPang/Pods/nanopb/pb_decode.c take only bytes that are left.
use card_pang.Common.{
  ℕ, zero, suc, ◌+◌, not, ◌||◌, Option, none, some, List, [], ◌∷◌, ◌==◌, if◌then◌else◌, Bool-cases,
  inl, inr,
}
use card_pang.Nanopb.Types.{
  M, ◌>>=◌, ◌>>◌, return, u64, WireType, string, varint, bits64, bits32, other, pb_htype, pb_atype,
  htype_oneof, atype_static, atype_pointer, atype_callback, callback_failed, invalid_union_tag,
  iterator_error, invalid_field_type, invalid_wire_type,
}
use card_pang.Nanopb.Input.{IStream, pb_read, first}
use card_pang.Nanopb.Input.Bounds.{
  IsInput, StaysInside, fail-StaysInside, return-StaysInside, >>=-StaysInside, choose-StaysInside,
  pb_read-StaysInside, Advances-refl,
}
use card_pang.Nanopb.Decode.{
  pb_skip_field, read_raw_value, raw_varint, continues, pb_make_string_substream,
}
use card_pang.Nanopb.Decode.Inside.{pb_skip_field-StaysInside}
use card_pang.Nanopb.Fields.{FieldIter, current, pb_field_iter_find}
use card_pang.Nanopb.Message.{pointer_at}
use card_pang.Nanopb.Message.Machine.{Machine, D, on_stream, fail, change, number_at}
use card_pang.Nanopb.Message.Machine.Safe.{
  Within, Within-refl, Safe, failed-Within, fail-Safe, return-Safe, starve-Safe, >>=-Safe,
  choose-Safe, on_stream-Safe, change-Safe,
}
use card_pang.Nanopb.Message.Fields.{is_string, Runtime}
use card_pang.Nanopb.Message.Callbacks.{
  callback_rounds, close_callback, string_callback, scalar_callback, decode_callback_field, back_to,
  pb_release_union_field, decode_by_atype, decode_field,
}
use card_pang.Nanopb.Message.Fields.Split.{
  Split, Split-IsInput, Split-Within, close_sub-Within, substream-Safe,
}
use card_pang.Nanopb.Message.Fields.Safe.{ReadsInside, then-Safe}
use card_pang.Nanopb.Message.Fields.Static.{decode_static_field-Safe}
use card_pang.Nanopb.Message.Pointers.Safe.{decode_pointer_field-Safe}

raw_varint-StaysInside : (room : ℕ) → StaysInside (raw_varint {S = List ℕ} room)
unfolding raw_varint
raw_varint-StaysInside zero s v = Advances-refl s
raw_varint-StaysInside (suc room) s v =
    >>=-StaysInside (pb_read 1)
      (λ bytes. if continues (first bytes) then again bytes else stop bytes) (pb_read-StaysInside 1)
      (λ bytes.
        choose-StaysInside (continues (first bytes)) (again bytes) (stop bytes)
          (>>=-StaysInside (raw_varint room) (λ rest. return (first bytes ∷ rest))
            (raw_varint-StaysInside room) (λ rest. return-StaysInside (first bytes ∷ rest)))
          (return-StaysInside (first bytes ∷ [])))
      s v
  where
    again : List ℕ → M (IStream (List ℕ)) (List ℕ)
    again bytes = raw_varint room >>= λ rest. return (first bytes ∷ rest)

    stop : List ℕ → M (IStream (List ℕ)) (List ℕ)
    stop bytes = return (first bytes ∷ [])

read_raw_value-StaysInside :
    (wire_type : WireType) (max_size : ℕ)
    → StaysInside (read_raw_value {S = List ℕ} wire_type max_size)
unfolding read_raw_value
read_raw_value-StaysInside varint max_size = raw_varint-StaysInside max_size
read_raw_value-StaysInside bits64 max_size = pb_read-StaysInside 8
read_raw_value-StaysInside bits32 max_size = pb_read-StaysInside 4
read_raw_value-StaysInside string max_size = fail-StaysInside (List ℕ) invalid_wire_type
read_raw_value-StaysInside (other n) max_size = fail-StaysInside (List ℕ) invalid_wire_type

module _ (runtime : Runtime) (reads : ReadsInside runtime) (decode noinit : ℕ → ℕ → D (Unit {0}))
    (defaults : ℕ → ℕ → List ℕ → Option (List ℕ)) (release : FieldIter → List ℕ → Option (List ℕ))
    (decodes : (fields dest : ℕ) → Safe (decode fields dest))
    (noinits : (fields dest : ℕ) → Safe (noinit fields dest)) where
  callback_rounds-Safe :
      (rounds : ℕ) (iter : FieldIter)
      → Safe (callback_rounds runtime decode noinit defaults release rounds iter)
  unfolding callback_rounds
  callback_rounds-Safe zero iter t v = starve-Safe (Unit {0}) t v
  callback_rounds-Safe (suc rounds) iter t v =
      let rest = callback_rounds runtime decode noinit defaults release rounds iter in
      let call : D (Unit {0}) = (λ u.
        runtime.call_decode (pointer_at u.memory iter.p_data) (current iter) (u64 (iter.p_data + 8))
          u) in
      let again : D (Unit {0}) = (λ u. if u.stream.bytes_left == 0 then (some tt, u) else rest u) in
      then-Safe call again
        (λ u. reads (pointer_at u.memory iter.p_data) (current iter) (u64 (iter.p_data + 8)) u)
        (λ u w. elim (Bool-cases (u.stream.bytes_left == 0)) [
          | inl e ↦ rw e (Within-refl u.stream)
          | inr e ↦ rw e (callback_rounds-Safe rounds iter u w)
        ])
        t v

  close_callback-Within :
      {s p sub : IStream (List ℕ)} (r : Option (Unit {0}) × Machine)
      → IsInput s
      → Split s p sub
      → Within sub r.1.stream
      → Within s (close_callback runtime decode noinit defaults release p r).1.stream
  unfolding close_callback
  close_callback-Within {s} {p} {sub} (none, t) v a b =
      failed-Within (Unit {0}) callback_failed (record t { stream = p }) (Split-Within a)
  close_callback-Within (some _, t) v a b = close_sub-Within (some tt) t v a b

  string_callback-Safe :
      (iter : FieldIter)
      → Safe (
          on_stream pb_make_string_substream
          >>= string_callback runtime decode noinit defaults release iter)
  unfolding string_callback
  string_callback-Safe iter =
      substream-Safe (string_callback runtime decode noinit defaults release iter) (λ s sub t v a.
        let body =
          callback_rounds runtime decode noinit defaults release (suc sub.bytes_left) iter in
        close_callback-Within (body (record t { stream = sub })) v a (
          callback_rounds-Safe (suc sub.bytes_left) iter (record t { stream = sub })
            (Split-IsInput a v)))

  scalar_callback-Safe :
      (iter : FieldIter) (buffer : List ℕ)
      → Safe (scalar_callback runtime decode noinit defaults release iter buffer)
  unfolding scalar_callback
  scalar_callback-Safe iter buffer t v = Within-refl t.stream

  decode_callback_field-Safe :
      (wire_type : WireType) (iter : FieldIter)
      → Safe (decode_callback_field runtime decode noinit defaults release wire_type iter)
  unfolding decode_callback_field
  decode_callback_field-Safe wire_type iter t v =
      choose-Safe (iter.p_data == 0 || pointer_at t.memory iter.p_data == 0)
        (on_stream (pb_skip_field wire_type)) _
        (on_stream-Safe (pb_skip_field wire_type) (pb_skip_field-StaysInside wire_type))
        (choose-Safe (is_string wire_type)
          (on_stream pb_make_string_substream
            >>= string_callback runtime decode noinit defaults release iter)
          (on_stream (read_raw_value wire_type 10)
            >>= scalar_callback runtime decode noinit defaults release iter)
          (string_callback-Safe iter)
          (>>=-Safe (on_stream (read_raw_value wire_type 10))
            (scalar_callback runtime decode noinit defaults release iter)
            (on_stream-Safe (read_raw_value wire_type 10) (read_raw_value-StaysInside wire_type 10))
            (scalar_callback-Safe iter)))
        t v

  back_to-Safe :
      (new_tag : ℕ) (iter : FieldIter)
      → Safe (back_to runtime decode noinit defaults release new_tag iter)
  unfolding back_to
  back_to-Safe new_tag iter =
      let r = pb_field_iter_find new_tag iter in
      choose-Safe r.0 (return r.1) (fail iterator_error) (return-Safe r.1)
        (fail-Safe FieldIter iterator_error)

  pb_release_union_field-Safe :
      (iter : FieldIter) → Safe (pb_release_union_field runtime decode noinit defaults release iter)
  unfolding pb_release_union_field
  pb_release_union_field-Safe iter t v =
      let old_tag = number_at t.memory iter.p_size in
      let new_tag = (current iter).tag in
      let r = pb_field_iter_find old_tag iter in
      let again = back_to runtime decode noinit defaults release new_tag r.1 in
      choose-Safe (old_tag == 0 || old_tag == new_tag) (return iter) _ (return-Safe iter)
        (choose-Safe (not r.0) (fail invalid_union_tag) (change (release r.1) >> again)
          (fail-Safe FieldIter invalid_union_tag)
          (then-Safe (change (release r.1)) again (change-Safe (release r.1))
            (back_to-Safe new_tag r.1)))
        t v

  decode_by_atype-Safe :
      (wire_type : WireType) (iter : FieldIter)
      → Safe (decode_by_atype runtime decode noinit defaults release wire_type iter)
  unfolding decode_by_atype
  decode_by_atype-Safe wire_type iter =
      let atype = pb_atype (current iter).type_bits in
      choose-Safe (atype == atype_static) _ _
        (decode_static_field-Safe runtime reads decode noinit defaults release decodes noinits
          wire_type iter)
        (choose-Safe (atype == atype_pointer) _ _
          (decode_pointer_field-Safe runtime reads decode noinit defaults release decodes noinits
            wire_type iter)
          (choose-Safe (atype == atype_callback) _ (fail invalid_field_type)
            (decode_callback_field-Safe wire_type iter) (fail-Safe (Unit {0}) invalid_field_type)))

  pub decode_field-Safe :
      (wire_type : WireType) (iter : FieldIter)
      → Safe (decode_field runtime decode noinit defaults release wire_type iter)
  unfolding decode_field
  decode_field-Safe wire_type iter =
      let release_union = pb_release_union_field runtime decode noinit defaults release iter in
      let is_oneof = pb_htype (current iter).type_bits == htype_oneof in
      >>=-Safe (if is_oneof then release_union else return iter)
        (λ there.
          decode_by_atype runtime decode noinit defaults release wire_type there >> return there)
        (choose-Safe is_oneof release_union (return iter) (pb_release_union_field-Safe iter)
          (return-Safe iter))
        (λ there.
          then-Safe (decode_by_atype runtime decode noinit defaults release wire_type there)
            (return there) (decode_by_atype-Safe wire_type there) (return-Safe there))
