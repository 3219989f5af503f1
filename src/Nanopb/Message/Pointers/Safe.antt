-- ===== src/Nanopb/Message/Pointers/Safe.antt =====
-- `decode_pointer_field` of CardPang/Pods/nanopb/pb_decode.c takes only bytes that are left.
use card_pang.Common.{
  ℕ, zero, suc, ◌+◌, Bool, true, false, not, ◌&&◌, ◌||◌, Option, none, some, List, [], ltb, ◌==◌,
  if◌then◌else◌, Bool-cases, inl, inr,
}
use card_pang.Nanopb.Types.{
  ◌>>=◌, ◌>>◌, return, u32, PbField, WireType, store, pb_ltype, pb_htype, ltype_bytes, ltype_string,
  ltype_submessage, htype_repeated, htype_oneof, pb_size_max, too_many_array_entries,
}
use card_pang.Nanopb.Input.{IStream}
use card_pang.Nanopb.Input.Bounds.{IsInput}
use card_pang.Nanopb.Decode.{pb_make_string_substream}
use card_pang.Nanopb.Output.{fetch}
use card_pang.Nanopb.Fields.{FieldIter, current}
use card_pang.Nanopb.Defaults.{clear}
use card_pang.Nanopb.Message.{pointer_at}
use card_pang.Nanopb.Message.Machine.{
  Machine, D, on_stream, put, fail, change, number_at, allocate_field,
}
use card_pang.Nanopb.Message.Machine.Safe.{
  Within, Within-refl, Safe, fail-Safe, return-Safe, starve-Safe, put-Safe, choose-Safe,
  change-Safe,
}
use card_pang.Nanopb.Message.Machine.Values.{allocate_field-Safe}
use card_pang.Nanopb.Message.Fields.{count_up, item_at, Runtime, func, is_packed}
use card_pang.Nanopb.Message.Pointers.{
  initialize_pointer_field, pointer_item, grown, pointer_items, close_pointer, packed_pointer,
  unpacked_pointer, single_pointer, release_duplicate, decode_pointer_field,
}
use card_pang.Nanopb.Message.Fields.Split.{Split, Split-IsInput, close_sub-Within, substream-Safe}
use card_pang.Nanopb.Message.Fields.Safe.{ReadsInside, count_up-Safe, then-Safe, func-Safe}

module _ (runtime : Runtime) (reads : ReadsInside runtime) (decode noinit : ℕ → ℕ → D (Unit {0}))
    (defaults : ℕ → ℕ → List ℕ → Option (List ℕ)) (release : FieldIter → List ℕ → Option (List ℕ))
    (decodes : (fields dest : ℕ) → Safe (decode fields dest))
    (noinits : (fields dest : ℕ) → Safe (noinit fields dest)) where
  initialize_pointer_field-Safe :
      (field : PbField) (item : ℕ)
      → Safe (initialize_pointer_field runtime decode noinit defaults release field item)
  unfolding initialize_pointer_field
  initialize_pointer_field-Safe field item =
      let ltype = pb_ltype field.type_bits in
      choose-Safe (ltype == ltype_string || ltype == ltype_bytes) (put item (fetch 8 [])) _
        (put-Safe item (fetch 8 []))
        (choose-Safe (ltype == ltype_submessage)
          (change (λ mem. defaults field.ptr item (clear field.data_size item mem))) (return tt)
          (change-Safe (λ mem. defaults field.ptr item (clear field.data_size item mem)))
          (return-Safe tt))

  pointer_item-Safe :
      (field : PbField) (item : ℕ)
      → Safe (pointer_item runtime decode noinit defaults release field item)
  unfolding pointer_item
  pointer_item-Safe field item =
      then-Safe (initialize_pointer_field runtime decode noinit defaults release field item)
        (func runtime decode noinit defaults release field item)
        (initialize_pointer_field-Safe field item)
        (func-Safe runtime reads decode noinit defaults release decodes noinits field item)

  -- What follows the tests of a round: room, an entry, and the other rounds.
  item_round-Safe :
      (is_short : Bool) (new_size size : ℕ) (iter : FieldIter) (rest : D Bool)
      → Safe rest
      → Safe (
          (if is_short
            then allocate_field runtime.pb_realloc iter.p_data (current iter).data_size new_size
            else return tt)
          >> ((λ u.
                pointer_item runtime decode noinit defaults release
                  (current iter)
                  (item_at (pointer_at u.memory iter.p_data) (current iter) size)
                  u)
              >> (count_up iter.p_size >> rest)))
  item_round-Safe is_short new_size size iter rest h =
      let field = current iter in
      let item : D (Unit {0}) = (λ u.
        pointer_item runtime decode noinit defaults release field
          (item_at (pointer_at u.memory iter.p_data) field size) u) in
      then-Safe
        (if is_short
          then allocate_field runtime.pb_realloc iter.p_data field.data_size new_size
          else return tt)
        (item >> (count_up iter.p_size >> rest))
        (choose-Safe is_short
          (allocate_field runtime.pb_realloc iter.p_data field.data_size new_size) (return tt)
          (allocate_field-Safe runtime.pb_realloc iter.p_data field.data_size new_size)
          (return-Safe tt))
        (then-Safe item (count_up iter.p_size >> rest)
          (λ u. pointer_item-Safe field (item_at (pointer_at u.memory iter.p_data) field size) u)
          (then-Safe (count_up iter.p_size) rest (count_up-Safe iter.p_size) h))

  pointer_items-Safe :
      (rounds : ℕ) (iter : FieldIter) (allocated_size : ℕ)
      → Safe (pointer_items runtime decode noinit defaults release rounds iter allocated_size)
  unfolding pointer_items
  pointer_items-Safe zero iter allocated_size t v = starve-Safe Bool t v
  pointer_items-Safe (suc rounds) iter allocated_size t v =
      let size = number_at t.memory iter.p_size in
      let is_short = ltb allocated_size (size + 1) in
      let new_size =
        if is_short
        then grown runtime decode noinit defaults release (current iter) t.stream.bytes_left
            allocated_size
        else allocated_size in
      elim (Bool-cases (t.stream.bytes_left == 0)) [
        | inl e ↦ rw e (Within-refl t.stream)
        | inr e ↦ elim (Bool-cases (size == pb_size_max)) [
          | inl full ↦ rw (e, full) (Within-refl t.stream)
          | inr room ↦
              rw (e, room)
                (item_round-Safe is_short new_size size iter
                  (pointer_items runtime decode noinit defaults release rounds iter new_size)
                  (pointer_items-Safe rounds iter new_size) t v)
        ]
      ]

  close_pointer-Within :
      {s p sub : IStream (List ℕ)} (r : Option Bool × Machine)
      → IsInput s
      → Split s p sub
      → Within sub r.1.stream
      → Within s (close_pointer runtime decode noinit defaults release p r).1.stream
  unfolding close_pointer
  close_pointer-Within (none, t) v a b = close_sub-Within {A = Unit {0}} none t v a b
  close_pointer-Within (some true, t) v a b = close_sub-Within (some tt) t v a b
  close_pointer-Within {s} {p} {sub} (some false, t) v a b =
      close_sub-Within {A = Unit {0}} none t v
        (record {
          count = a.count;
          taken = a.taken;
          shared = a.shared;
          bounded = a.bounded;
          parent_callback = a.parent_callback;
          parent_reader = a.parent_reader;
          same_callback = a.same_callback;
          same_reader = a.same_reader;
        })
        b

  packed_pointer-Safe :
      (iter : FieldIter) (allocated_size : ℕ)
      → Safe (
          on_stream pb_make_string_substream
          >>= packed_pointer runtime decode noinit defaults release iter allocated_size)
  unfolding packed_pointer
  packed_pointer-Safe iter allocated_size =
      substream-Safe (packed_pointer runtime decode noinit defaults release iter allocated_size)
        (λ s sub t v a.
          let body =
            pointer_items runtime decode noinit defaults release (suc sub.bytes_left) iter
              allocated_size in
          close_pointer-Within (body (record t { stream = sub })) v a (
            pointer_items-Safe (suc sub.bytes_left) iter allocated_size (record t { stream = sub })
              (Split-IsInput a v)))

  unpacked_pointer-Safe :
      (iter : FieldIter) → Safe (unpacked_pointer runtime decode noinit defaults release iter)
  unfolding unpacked_pointer
  unpacked_pointer-Safe iter t v =
      let field = current iter in
      let size = number_at t.memory iter.p_size in
      let room = allocate_field runtime.pb_realloc iter.p_data field.data_size (u32 (size + 1)) in
      let item : D (Unit {0}) = (λ u.
        (count_up iter.p_size
            >> pointer_item runtime decode noinit defaults release field
                (item_at (pointer_at u.memory iter.p_data) field size))
          u) in
      choose-Safe (size == pb_size_max) (fail too_many_array_entries) (room >> item)
        (fail-Safe (Unit {0}) too_many_array_entries)
        (then-Safe room item
          (allocate_field-Safe runtime.pb_realloc iter.p_data field.data_size (u32 (size + 1)))
          (λ u.
            let at = item_at (pointer_at u.memory iter.p_data) field size in
            then-Safe (count_up iter.p_size)
              (pointer_item runtime decode noinit defaults release field at)
              (count_up-Safe iter.p_size) (pointer_item-Safe field at) u))
        t v

  single_pointer-Safe :
      (iter : FieldIter) → Safe (single_pointer runtime decode noinit defaults release iter)
  unfolding single_pointer
  single_pointer-Safe iter =
      let field = current iter in
      let ltype = pb_ltype field.type_bits in
      let room = allocate_field runtime.pb_realloc iter.p_data field.data_size 1 in
      let start : D (Unit {0}) = (λ t.
        initialize_pointer_field runtime decode noinit defaults release field
          (pointer_at t.memory iter.p_data) t) in
      let call : D (Unit {0}) = (λ t.
        func runtime decode noinit defaults release field (pointer_at t.memory iter.p_data) t) in
      choose-Safe (ltype == ltype_string || ltype == ltype_bytes)
        (func runtime decode noinit defaults release field iter.p_data) (room >> (start >> call))
        (func-Safe runtime reads decode noinit defaults release decodes noinits field iter.p_data)
        (then-Safe room (start >> call)
          (allocate_field-Safe runtime.pb_realloc iter.p_data field.data_size 1)
          (then-Safe start call
            (λ t. initialize_pointer_field-Safe field (pointer_at t.memory iter.p_data) t)
            (λ t.
              func-Safe runtime reads decode noinit defaults release decodes noinits field
                (pointer_at t.memory iter.p_data) t)))

  release_duplicate-Safe :
      (iter : FieldIter) → Safe (release_duplicate runtime decode noinit defaults release iter)
  unfolding release_duplicate
  release_duplicate-Safe iter t v =
      choose-Safe
        (pb_ltype (current iter).type_bits == ltype_submessage
          && not (pointer_at t.memory iter.p_data == 0))
        (change (release iter)) (return tt) (change-Safe (release iter)) (return-Safe tt) t v

  pub decode_pointer_field-Safe :
      (wire_type : WireType) (iter : FieldIter)
      → Safe (decode_pointer_field runtime decode noinit defaults release wire_type iter)
  unfolding decode_pointer_field
  decode_pointer_field-Safe wire_type iter =
      let field = current iter in
      let htype = pb_htype field.type_bits in
      let single = single_pointer runtime decode noinit defaults release iter in
      let tag = if htype == htype_oneof then put iter.p_size (store 4 field.tag) else return tt in
      choose-Safe (htype == htype_repeated) _ _
        (choose-Safe (is_packed runtime decode noinit defaults release wire_type field) _ _
          (λ t. packed_pointer-Safe iter (number_at t.memory iter.p_size) t)
          (unpacked_pointer-Safe iter))
        (then-Safe (release_duplicate runtime decode noinit defaults release iter) (tag >> single)
          (release_duplicate-Safe iter)
          (then-Safe tag single
            (choose-Safe (htype == htype_oneof) (put iter.p_size (store 4 field.tag)) (return tt)
              (put-Safe iter.p_size (store 4 field.tag)) (return-Safe tt))
            (single_pointer-Safe iter)))
