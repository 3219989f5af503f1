-- ===== src/Nanopb/Message/Release.antt =====
-- `pb_release` and `pb_release_single_field` of CardPang/Pods/nanopb/pb_decode.c. `pb_free` is a
-- parameter, as are the constant tables and the field `arg` of an extension's type. `none` is the end
-- of fuel.
pub mod Ends
use card_pang.Common.{
  ℕ, zero, suc, ◌+◌, not, ◌&&◌, ◌||◌, Option, none, some, List, [], length, ltb, ◌==◌,
  if◌then◌else◌,
}
use card_pang.Nanopb.Types.{
  PbField, u64, pb_ltype, pb_htype, pb_atype, ltype_extension, ltype_submessage, ltype_string,
  ltype_bytes, htype_repeated, htype_oneof, atype_static, atype_pointer, atype_callback,
}
use card_pang.Nanopb.Fields.{FieldIter, current}
use card_pang.Nanopb.Defaults.{clear, message_defaults, iter_from_extension}
use card_pang.Nanopb.Message.{pointer_at}
use card_pang.Nanopb.Message.Machine.{number_at}

abbrev pub and_then : Option (List ℕ) → (List ℕ → Option (List ℕ)) → Option (List ℕ)
and_then none f = none
and_then (some mem) f = f mem

module _ (pb_free : ℕ → List ℕ → List ℕ) where
  -- The entries of an array of strings or bytes.
  pub free_entries : ℕ → ℕ → List ℕ → List ℕ
  free_entries zero p mem = mem
  free_entries (suc count) p mem =
      free_entries count (u64 (p + 8)) (clear 8 p (pb_free (pointer_at mem p) mem))

  -- The part for fields with pointer allocation.
  pub release_pointer : FieldIter → List ℕ → List ℕ
  unfolding free_entries
  release_pointer iter mem =
      let type = (current iter).type_bits in
      let ltype = pb_ltype type in
      let is_repeated = pb_htype type == htype_repeated in
      let freed =
        if is_repeated && (ltype == ltype_string || ltype == ltype_bytes)
        then free_entries (number_at mem iter.p_size) (pointer_at mem iter.p_data) mem
        else mem in
      let counted = if is_repeated then clear 4 iter.p_size freed else freed in
      if pb_atype type == atype_pointer
      then clear 8 iter.p_data (pb_free (pointer_at counted iter.p_data) counted)
      else mem

-- The number of submessages in a field.
pub release_count : FieldIter → List ℕ → ℕ
release_count iter mem =
    let field = current iter in
    let is_static = pb_atype field.type_bits == atype_static in
    let count =
      if is_static && iter.p_size == iter.p_data
      then field.array_size
      else number_at mem iter.p_size in
    if pb_htype field.type_bits == htype_repeated
    then (if is_static && ltb field.array_size count then field.array_size else count)
    else 1

-- `while (count--) { pb_release(fields, pItem); pItem += size; }`
pub release_items : (ℕ → List ℕ → Option (List ℕ)) → ℕ → ℕ → ℕ → List ℕ → Option (List ℕ)
release_items release size zero item mem = some mem
release_items release size (suc count) item mem =
    and_then (release item mem) (release_items release size count (u64 (item + size)))

module _ (table : ℕ → List PbField) (arg : ℕ → ℕ) (pb_free : ℕ → List ℕ → List ℕ) where
  -- `pb_release`, given what releases a field.
  pub release_message : (FieldIter → List ℕ → Option (List ℕ)) → ℕ → ℕ → List ℕ → Option (List ℕ)
  release_message single fields dest_struct mem =
      if dest_struct == 0
      then some mem
      else message_defaults table (λ _. []) arg single fields dest_struct mem

  -- `single` releases a field one level down.
  module _ (single : FieldIter → List ℕ → Option (List ℕ)) where
    -- `while (ext != NULL)`: a list that ends has no more entries than the memory has bytes.
    pub release_extensions : ℕ → ℕ → List ℕ → Option (List ℕ)
    release_extensions zero extension mem = none
    release_extensions (suc rounds) extension mem =
        if extension == 0
        then some mem
        else and_then (single (iter_from_extension table (λ _. []) arg extension mem) mem)
            (λ released.
              release_extensions rounds (pointer_at released (u64 (extension + 16))) released)

    pub release_inside : FieldIter → List ℕ → Option (List ℕ)
    unfolding release_extensions release_items release_count release_message
    release_inside iter mem =
        let field = current iter in
        let ltype = pb_ltype field.type_bits in
        let atype = pb_atype field.type_bits in
        let item = if atype == atype_pointer then pointer_at mem iter.p_data else iter.p_data in
        if ltype == ltype_extension
        then release_extensions (suc (length mem)) (pointer_at mem iter.p_data) mem
        else (if ltype == ltype_submessage && not (atype == atype_callback)
            then (if item == 0
                then some mem
                else release_items (release_message single field.ptr) field.data_size
                    (release_count iter mem) item mem)
            else some mem)

    pub release_field : FieldIter → List ℕ → Option (List ℕ)
    unfolding release_inside release_pointer
    release_field iter mem =
        let field = current iter in
        if pb_htype field.type_bits == htype_oneof && not (number_at mem iter.p_size == field.tag)
        then some mem
        else and_then (release_inside iter mem)
            (λ released. some (release_pointer pb_free iter released))

  -- The fuel is the depth of submessages and extensions.
  unfoldable pub pb_release_single_field : ℕ → FieldIter → List ℕ → Option (List ℕ)
  unfolding release_field
  pb_release_single_field zero iter mem = none
  pb_release_single_field (suc depth) iter mem =
      release_field (pb_release_single_field depth) iter mem

  unfoldable pub pb_release : ℕ → ℕ → ℕ → List ℕ → Option (List ℕ)
  unfolding release_message pb_release_single_field
  pb_release depth fields dest_struct mem =
      release_message (pb_release_single_field depth) fields dest_struct mem
