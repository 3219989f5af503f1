-- ===== src/Nanopb/Fields.antt =====
-- The field iterator of CardPang/Pods/nanopb/pb_common.c. A table of fields is the list of its
-- entries with the terminator; `pos` is an index into it. `dest_struct`, `pData` and `pSize` are
-- addresses, on which C adds modulo 2^64.
pub mod Find
use card_pang.Common.{
  ℕ, zero, suc, ◌+◌, ◌*◌, Bool, true, false, ◌&&◌, not, List, [], ◌∷◌, length, ◌==◌, if◌then◌else◌,
}
use card_pang.Nanopb.Types.{
  PbField, u64, u32, pb_ltype, pb_htype, pb_atype, ltype_extension, htype_required, htype_repeated,
  htype_oneof, atype_static, atype_pointer, pb_size_max,
}

-- `PB_LAST_FIELD`
abbrev pub last_field : PbField
last_field = record {
  tag = 0;
  type_bits = 0;
  data_offset = 0;
  size_offset = 0;
  data_size = 0;
  array_size = 0;
  ptr = 0;
}

-- What lies past a table reads as its terminator.
abbrev pub field_at : List PbField → ℕ → PbField
field_at [] i = last_field
field_at (field ∷ fields) zero = field
field_at (field ∷ fields) (suc i) = field_at fields i

-- `pb_field_iter_t`
pub record FieldIter : Type 0 where
  pub start : List PbField
  pub pos : ℕ
  pub required_field_index : ℕ
  pub dest_struct : ℕ
  pub p_data : ℕ
  pub p_size : ℕ

-- `*iter->pos`
abbrev pub current : FieldIter → PbField
current iter = field_at iter.start iter.pos

unfoldable pub pb_field_iter_begin : List PbField → ℕ → Bool × FieldIter
pb_field_iter_begin fields dest_struct =
    let field = field_at fields 0 in
    let p_data = u64 (dest_struct + field.data_offset) in
    (
      not (field.tag == 0),
      record {
        start = fields;
        pos = 0;
        required_field_index = 0;
        dest_struct = dest_struct;
        p_data = p_data;
        p_size = u64 (p_data + field.size_offset);
      },
    )

-- The size by which the data pointer moves past a field.
abbrev pub field_size : PbField → ℕ
field_size prev =
    if pb_atype prev.type_bits == atype_static && pb_htype prev.type_bits == htype_repeated
    then u64 (prev.data_size * prev.array_size)
    else (if pb_atype prev.type_bits == atype_pointer then 8 else prev.data_size)

-- The next field is another member of the same union.
abbrev pub in_union : PbField → PbField → Bool
in_union prev next =
    pb_htype prev.type_bits == htype_oneof
    && pb_htype next.type_bits == htype_oneof
    && next.data_offset == pb_size_max

-- The pointers after a step from a field to the next one.
abbrev pub move_pointers : PbField → PbField → FieldIter → FieldIter
move_pointers prev next iter =
    if in_union prev next
    then iter
    else (let p_data = u64 (iter.p_data + field_size prev + next.data_offset) in
        record iter {
          required_field_index =
              if pb_htype prev.type_bits == htype_required
              then u32 (iter.required_field_index + 1)
              else iter.required_field_index;
          p_data = p_data;
          p_size = u64 (p_data + next.size_offset);
        })

-- `false` means that the iterator has wrapped to the first field, or that the table is empty.
unfoldable pub pb_field_iter_next : FieldIter → Bool × FieldIter
unfolding pb_field_iter_begin
pb_field_iter_next iter =
    let prev = current iter in
    let moved = record iter { pos = suc iter.pos } in
    if prev.tag == 0
    then (false, iter)
    else (if (current moved).tag == 0
        then (false, (pb_field_iter_begin iter.start iter.dest_struct).1)
        else (true, move_pointers prev (current moved) moved))

abbrev pub is_wanted : ℕ → PbField → Bool
is_wanted tag field = field.tag == tag && not (pb_ltype field.type_bits == ltype_extension)

-- `do … while (iter->pos != start)`: each round goes to the next field of the table, so that as many
-- rounds as the table has entries are enough.
unfoldable pub find_rounds : (PbField → Bool) → ℕ → ℕ → FieldIter → Bool × FieldIter
find_rounds wanted zero start iter = (false, iter)
find_rounds wanted (suc rounds) start iter =
    let next = (pb_field_iter_next iter).1 in
    let rest = find_rounds wanted rounds start next in
    if wanted (current iter)
    then (true, iter)
    else (if next.pos == start then (false, next) else rest)

unfoldable pub pb_field_iter_find : ℕ → FieldIter → Bool × FieldIter
unfolding find_rounds
pb_field_iter_find tag iter = find_rounds (is_wanted tag) (length iter.start) iter.pos iter

-- `find_extension_field` of pb_decode.c: the same loop.
unfoldable pub find_extension_field : FieldIter → Bool × FieldIter
unfolding find_rounds
find_extension_field iter =
    find_rounds (λ field. pb_ltype field.type_bits == ltype_extension) (length iter.start) iter.pos
      iter
