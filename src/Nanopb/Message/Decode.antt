-- ===== src/Nanopb/Message/Decode.antt =====
-- `pb_decode_noinit` and `pb_decode` of CardPang/Pods/nanopb/pb_decode.c, with extensions.
pub mod Safe
pub mod Inside
use card_pang.Common.{
  ℕ, zero, suc, ◌+◌, ◌-◌, ◌*◌, ◌/◌, ◌%◌, ◌^◌, Bool, true, false, not, ◌&&◌, ◌||◌, Option, none,
  some, List, [], ◌∷◌, length, ltb, leb, ◌==◌, if◌then◌else◌,
}
use card_pang.Nanopb.Types.{
  M, ◌>>=◌, ◌>>◌, return, u64, u32, PbField, WireType, store, pb_htype, htype_required,
  htype_repeated, wrong_size_for_fixed_count_field, missing_required_field,
}
use card_pang.Nanopb.Input.{IStream}
use card_pang.Nanopb.Decode.{pb_decode_tag, pb_skip_field, pb_make_string_substream}
use card_pang.Nanopb.Fields.{
  FieldIter, field_at, current, pb_field_iter_begin, pb_field_iter_next, pb_field_iter_find,
  find_extension_field,
}
use card_pang.Nanopb.Defaults.{iter_from_extension, pb_message_set_to_defaults}
use card_pang.Nanopb.Message.{pointer_at}
use card_pang.Nanopb.Message.Machine.{Machine, D, on_stream, put, fail, starve, change, number_at}
use card_pang.Nanopb.Message.Release.{pb_release_single_field, pb_release}
use card_pang.Nanopb.Message.Fields.{Runtime, in_substream}
use card_pang.Nanopb.Message.Callbacks.{decode_field}
use Prim.Native.Nat.{bit_or}
use card_pang.Nanopb.Message.Seen.{see, all_seen, required_count}

-- The constant tables and default values, the fields `arg` and `decode` of an extension's type, the
-- user's functions for extensions, and the address of the variable `fixed_count_size` of the call at a
-- depth.
pub record Setup : Type 0 where
  pub runtime : Runtime
  pub table : ℕ → List PbField
  pub constant : ℕ → List ℕ
  pub arg : ℕ → ℕ
  pub decode_function : ℕ → ℕ
  pub call_extension : ℕ → ℕ → ℕ → WireType → D (Unit {0})
  pub fixed_count_size : ℕ → ℕ

-- The other variables of `pb_decode_noinit`. `fixed_count_field` is a place in the table.
pub record Progress : Type 0 where
  pub iter : FieldIter
  pub fields_seen : ℕ × ℕ
  pub extension_range_start : ℕ
  pub fixed_count_field : Option ℕ

abbrev pub first_progress : FieldIter → Progress
first_progress iter = record {
  iter = iter;
  fields_seen = (0, 0);
  extension_range_start = 0;
  fixed_count_field = none;
}

module _ (setup : Setup) where
  -- The calls one level down, at a depth: `noinit` is `pb_decode_noinit` there.
  module _ (depth : ℕ) (noinit : ℕ → ℕ → D (Unit {0})) where
    -- With a status of `false` the message is released.
    pub release_failed : ℕ → ℕ → Option (Unit {0}) × Machine → Option (Unit {0}) × Machine
    release_failed fields dest_struct (some _, t) = (some tt, t)
    release_failed fields dest_struct (none, t) = (
      none,
      (change (pb_release setup.table setup.arg setup.runtime.pb_free depth fields dest_struct)
          t).1,
    )

    pub decode_message : ℕ → ℕ → D (Unit {0})
    unfolding release_failed
    decode_message fields dest_struct =
        change
          (pb_message_set_to_defaults setup.table setup.constant setup.arg depth fields dest_struct)
        >> (λ t. release_failed fields dest_struct (noinit fields dest_struct t))

    pub field_here : WireType → FieldIter → D FieldIter
    unfolding decode_message
    field_here =
        decode_field setup.runtime decode_message noinit
          (pb_message_set_to_defaults setup.table setup.constant setup.arg depth)
          (pb_release_single_field setup.table setup.arg setup.runtime.pb_free (suc depth))

    unfoldable pub default_extension_decoder : ℕ → ℕ → WireType → D (Unit {0})
    unfolding field_here
    default_extension_decoder extension tag wire_type t =
        let field = field_at (setup.table (setup.arg (pointer_at t.memory extension))) 0 in
        let iter = iter_from_extension setup.table setup.constant setup.arg extension t.memory in
        (if not (field.tag == tag)
            then return tt
            else put (u64 (extension + 24)) (1 ∷ [])
              >> (field_here wire_type iter >>= λ _. return tt))
          t

    pub one_extension : ℕ → ℕ → WireType → D (Unit {0})
    unfolding default_extension_decoder
    one_extension extension tag wire_type t =
        let function = setup.decode_function (pointer_at t.memory extension) in
        (if function == 0
            then default_extension_decoder extension tag wire_type
            else setup.call_extension function extension tag wire_type)
          t

    -- A list that ends has no more entries than the memory has bytes.
    pub extension_rounds : ℕ → ℕ → ℕ → ℕ → WireType → D (Unit {0})
    unfolding one_extension
    extension_rounds zero pos extension tag wire_type t = starve t
    extension_rounds (suc rounds) pos extension tag wire_type t =
        if not (extension == 0) && pos == t.stream.bytes_left
        then (one_extension extension tag wire_type >> (λ u.
              extension_rounds rounds pos (pointer_at u.memory (u64 (extension + 16))) tag wire_type
                u))
            t
        else (some tt, t)

    unfoldable pub decode_extension : ℕ → WireType → FieldIter → D (Unit {0})
    unfolding extension_rounds
    decode_extension tag wire_type iter t =
        extension_rounds (suc (length t.memory)) t.stream.bytes_left
          (pointer_at t.memory iter.p_data) tag wire_type t

    pub skipped : WireType → Progress → D Progress
    skipped wire_type p = on_stream (pb_skip_field wire_type) >> return p

    -- A tag that no field has.
    pub unknown_field : WireType → ℕ → Progress → D Progress
    unfolding skipped decode_extension
    unknown_field wire_type tag p =
        let (there, iter) = find_extension_field p.iter in
        let p' = record p {
          iter = iter;
          extension_range_start = if there then (current iter).tag else 2 ^ 32 - 1;
        } in
        if ltb tag p.extension_range_start
        then skipped wire_type p
        else (if ltb tag p'.extension_range_start then skipped wire_type p' else (λ t.
            (decode_extension tag wire_type iter >> (λ u.
                if u.stream.bytes_left == t.stream.bytes_left
                then skipped wire_type p' u
                else (some p', u)))
              t))

    -- `fixed_count_field != NULL && fixed_count_size != fixed_count_field->array_size`
    pub is_short : ℕ → Progress → Machine → Bool
    is_short here p t = elim p.fixed_count_field [
      | none ↦ false
      | some pos ↦ not (number_at t.memory here == (field_at p.iter.start pos).array_size)
    ]

    abbrev pub is_at : Option ℕ → ℕ → Bool
    is_at none pos = false
    is_at (some old) pos = old == pos

    -- A repeated field with no counter in the structure counts in `fixed_count_size`.
    pub count_fixed : ℕ → Progress → D Progress
    unfolding is_short
    count_fixed here p t =
        let field = current p.iter in
        let p' = record p {
          iter = record p.iter { p_size = here };
          fixed_count_field = some p.iter.pos;
        } in
        (if not (pb_htype field.type_bits == htype_repeated && p.iter.p_size == p.iter.p_data)
            then return p
            else (if is_at p.fixed_count_field p.iter.pos
                then return p'
                else (if is_short here p t
                    then fail wrong_size_for_fixed_count_field
                    else put here (store 4 0) >> return p')))
          t

    pub see_required : Progress → Progress
    see_required p = record p {
      fields_seen =
          if pb_htype (current p.iter).type_bits == htype_required
            && ltb p.iter.required_field_index 64
          then see p.iter.required_field_index p.fields_seen
          else p.fields_seen;
    }

    pub known_field : ℕ → WireType → Progress → D Progress
    unfolding count_fixed see_required field_here
    known_field here wire_type p = do
      counted ← count_fixed here p
      iter ← field_here wire_type (see_required counted).iter
      return (record (see_required counted) { iter = iter })

    pub one_tag : ℕ → WireType × ℕ → Progress → D Progress
    unfolding known_field unknown_field
    one_tag here (wire_type, tag) p =
        let (found, iter) = pb_field_iter_find tag p.iter in
        if found
        then known_field here wire_type (record p { iter = iter })
        else unknown_field wire_type tag (record p { iter = iter })

    -- What follows `pb_decode_tag`: the end of the loop, an error, or a field and the rest.
    pub after_tag :
        (Progress → D Progress)
        → ℕ
        → Progress
        → Machine
        → Option (WireType × ℕ) × Bool × IStream (List ℕ)
        → Option Progress × Machine
    unfolding one_tag
    after_tag rest here p t (none, eof, s) = (if eof then some p else none, record t { stream = s })
    after_tag rest here p t (some tag, eof, s) =
        (one_tag here tag p >>= rest) (record t { stream = s })

    -- Each round takes a byte of the stream, so that fuel above the bytes left is enough.
    pub field_rounds : ℕ → ℕ → Progress → D Progress
    unfolding after_tag
    field_rounds zero here p t = starve t
    field_rounds (suc rounds) here p t =
        let rest = field_rounds rounds here in
        if t.stream.bytes_left == 0
        then (some p, t)
        else after_tag rest here p t (pb_decode_tag t.stream)

    -- The checks at the end.
    pub finish : ℕ → Progress → D (Unit {0})
    unfolding is_short all_seen required_count
    finish here p t =
        (if is_short here p t
            then fail wrong_size_for_fixed_count_field
            else (if all_seen (required_count p.iter) p.fields_seen
                then return tt
                else fail missing_required_field))
          t

    pub all_fields : ℕ → ℕ → ℕ → D (Unit {0})
    unfolding field_rounds finish
    all_fields here fields dest_struct =
        let start = first_progress (pb_field_iter_begin (setup.table fields) dest_struct).1 in
        put here (store 4 0)
        >> ((λ t. field_rounds (suc t.stream.bytes_left) here start t) >>= finish here)

  -- The fuel is the depth of submessages and extensions.
  unfoldable pub pb_decode_noinit : ℕ → ℕ → ℕ → D (Unit {0})
  unfolding all_fields
  pb_decode_noinit zero fields dest_struct = starve
  pb_decode_noinit (suc depth) fields dest_struct =
      all_fields depth (pb_decode_noinit depth) (setup.fixed_count_size (suc depth)) fields
        dest_struct

  unfoldable pub pb_decode : ℕ → ℕ → ℕ → D (Unit {0})
  unfolding decode_message pb_decode_noinit
  pb_decode depth fields dest_struct =
      decode_message depth (pb_decode_noinit depth) fields dest_struct

  unfoldable pub pb_decode_delimited_noinit : ℕ → ℕ → ℕ → D (Unit {0})
  unfolding pb_decode_noinit
  pb_decode_delimited_noinit depth fields dest_struct =
      on_stream pb_make_string_substream
      >>= in_substream (pb_decode_noinit depth fields dest_struct)

  unfoldable pub pb_decode_delimited : ℕ → ℕ → ℕ → D (Unit {0})
  unfolding pb_decode
  pb_decode_delimited depth fields dest_struct =
      on_stream pb_make_string_substream >>= in_substream (pb_decode depth fields dest_struct)

  unfoldable pub pb_decode_nullterminated : ℕ → ℕ → ℕ → D (Unit {0})
  unfolding pb_decode
  pb_decode_nullterminated depth fields dest_struct = pb_decode depth fields dest_struct
