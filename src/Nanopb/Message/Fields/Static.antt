-- ===== src/Nanopb/Message/Fields/Static.antt =====
-- `decode_static_field` of CardPang/Pods/nanopb/pb_decode.c takes only bytes that are left.
use card_pang.Common.{
  ℕ, zero, suc, ◌&&◌, Option, List, [], ◌∷◌, ltb, leb, ◌==◌, if◌then◌else◌, Bool-cases, inl, inr,
}
use card_pang.Nanopb.Types.{
  ◌>>=◌, ◌>>◌, return, WireType, store, pb_ltype, pb_htype, ltype_submessage, htype_required,
  htype_optional, htype_repeated, array_overflow,
}
use card_pang.Nanopb.Input.{IStream}
use card_pang.Nanopb.Input.Bounds.{IsInput}
use card_pang.Nanopb.Decode.{pb_make_string_substream}
use card_pang.Nanopb.Fields.{FieldIter, current}
use card_pang.Nanopb.Defaults.{clear}
use card_pang.Nanopb.Message.Machine.{Machine, D, on_stream, put, fail, change, number_at}
use card_pang.Nanopb.Message.Machine.Safe.{
  Within, Within-refl, Safe, failed-Within, fail-Safe, return-Safe, starve-Safe, put-Safe,
  choose-Safe, change-Safe,
}
use card_pang.Nanopb.Message.Fields.{
  count_up, item_at, Runtime, func, packed_items, close_packed, packed_static, unpacked_static,
  is_packed, decode_static_field,
}
use card_pang.Nanopb.Message.Fields.Split.{
  Split, Split-IsInput, Split-Within, close_sub-Within, substream-Safe,
}
use card_pang.Nanopb.Message.Fields.Safe.{ReadsInside, count_up-Safe, then-Safe, func-Safe}

module _ (runtime : Runtime) (reads : ReadsInside runtime) (decode noinit : ℕ → ℕ → D (Unit {0}))
    (defaults : ℕ → ℕ → List ℕ → Option (List ℕ)) (release : FieldIter → List ℕ → Option (List ℕ))
    (decodes : (fields dest : ℕ) → Safe (decode fields dest))
    (noinits : (fields dest : ℕ) → Safe (noinit fields dest)) where
  packed_items-Safe :
      (rounds : ℕ) (iter : FieldIter)
      → Safe (packed_items runtime decode noinit defaults release rounds iter)
  unfolding packed_items
  packed_items-Safe zero iter t v = starve-Safe (Unit {0}) t v
  packed_items-Safe (suc rounds) iter t v =
      let size = number_at t.memory iter.p_size in
      elim (Bool-cases (ltb 0 t.stream.bytes_left && ltb size (current iter).array_size)) [
        | inl e ↦ rw e (
            then-Safe
              (func runtime decode noinit defaults release (current iter)
                (item_at iter.p_data (current iter) size))
              (count_up iter.p_size
                >> packed_items runtime decode noinit defaults release rounds iter)
              (func-Safe runtime reads decode noinit defaults release decodes noinits (current iter)
                (item_at iter.p_data (current iter) size))
              (then-Safe (count_up iter.p_size)
                (packed_items runtime decode noinit defaults release rounds iter)
                (count_up-Safe iter.p_size) (packed_items-Safe rounds iter))
              t v)
        | inr e ↦ rw e (Within-refl t.stream)
      ]

  close_packed-Within :
      {s p sub : IStream (List ℕ)} (r : Option (Unit {0}) × Machine)
      → IsInput s
      → Split s p sub
      → Within sub r.1.stream
      → Within s (close_packed runtime decode noinit defaults release p r).1.stream
  unfolding close_packed
  close_packed-Within {s} {p} {sub} (status, t) v a b =
      elim (Bool-cases (t.stream.bytes_left == 0)) [
        | inl e ↦ rw e (close_sub-Within status t v a b)
        | inr e ↦
            rw e
              (failed-Within (Unit {0}) array_overflow (record t { stream = p }) (Split-Within a))
      ]

  packed_static-Safe :
      (iter : FieldIter)
      → Safe (
          on_stream pb_make_string_substream
          >>= packed_static runtime decode noinit defaults release iter)
  unfolding packed_static
  packed_static-Safe iter =
      substream-Safe (packed_static runtime decode noinit defaults release iter) (λ s sub t v a.
        let body = packed_items runtime decode noinit defaults release (suc sub.bytes_left) iter in
        close_packed-Within (body (record t { stream = sub })) v a (
          packed_items-Safe (suc sub.bytes_left) iter (record t { stream = sub })
            (Split-IsInput a v)))

  unpacked_static-Safe :
      (iter : FieldIter) → Safe (unpacked_static runtime decode noinit defaults release iter)
  unfolding unpacked_static
  unpacked_static-Safe iter t v =
      let size = number_at t.memory iter.p_size in
      let item = item_at iter.p_data (current iter) size in
      let call = func runtime decode noinit defaults release (current iter) item in
      then-Safe (count_up iter.p_size)
        (if leb (current iter).array_size size then fail array_overflow else call)
        (count_up-Safe iter.p_size)
        (choose-Safe (leb (current iter).array_size size) (fail array_overflow) call
          (fail-Safe (Unit {0}) array_overflow)
          (func-Safe runtime reads decode noinit defaults release decodes noinits (current iter)
            item))
        t v

  pub decode_static_field-Safe :
      (wire_type : WireType) (iter : FieldIter)
      → Safe (decode_static_field runtime decode noinit defaults release wire_type iter)
  unfolding decode_static_field
  decode_static_field-Safe wire_type iter =
      let field = current iter in
      let htype = pb_htype field.type_bits in
      let call = func runtime decode noinit defaults release field iter.p_data in
      let set =
        change (λ mem. defaults field.ptr iter.p_data (clear field.data_size iter.p_data mem)) in
      let there = if pb_ltype field.type_bits == ltype_submessage then set else return tt in
      choose-Safe (htype == htype_required) call _
        (func-Safe runtime reads decode noinit defaults release decodes noinits field iter.p_data)
        (choose-Safe (htype == htype_optional) _ _
          (then-Safe (if iter.p_size == iter.p_data then return tt else put iter.p_size (1 ∷ []))
            call
            (choose-Safe (iter.p_size == iter.p_data) (return tt) (put iter.p_size (1 ∷ []))
              (return-Safe tt) (put-Safe iter.p_size (1 ∷ [])))
            (func-Safe runtime reads decode noinit defaults release decodes noinits field
              iter.p_data))
          (choose-Safe (htype == htype_repeated) _ _
            (choose-Safe (is_packed runtime decode noinit defaults release wire_type field) _ _
              (packed_static-Safe iter) (unpacked_static-Safe iter))
            (then-Safe (put iter.p_size (store 4 field.tag)) (there >> call)
              (put-Safe iter.p_size (store 4 field.tag))
              (then-Safe there call
                (choose-Safe (pb_ltype field.type_bits == ltype_submessage) set (return tt)
                  (change-Safe
                    (λ mem. defaults field.ptr iter.p_data (clear field.data_size iter.p_data mem)))
                  (return-Safe tt))
                (func-Safe runtime reads decode noinit defaults release decodes noinits field
                  iter.p_data)))))
