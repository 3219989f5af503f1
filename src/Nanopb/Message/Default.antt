-- ===== src/Nanopb/Message/Default.antt =====
-- `pb_check_proto3_default_value` of CardPang/Pods/nanopb/pb_encode.c: a field that is not written.
use card_pang.Common.{
  ℕ, zero, suc, ◌+◌, Bool, true, false, ◌&&◌, not, Option, none, some, List, [], ◌∷◌, length, drop,
  ◌==◌, if◌then◌else◌,
}
use card_pang.Nanopb.Types.{
  u64, PbField, load, pb_ltype, pb_htype, pb_atype, ltype_bytes, ltype_string, ltype_submessage,
  ltype_fixed_length_bytes, htype_required, htype_optional, htype_repeated, htype_oneof,
  atype_static,
}
use card_pang.Nanopb.Encode.{safe_read_bool}
use card_pang.Nanopb.Fields.{FieldIter, current, pb_field_iter_begin, pb_field_iter_next}

-- `for (i = 0; i < data_size; i++) if (p[i] != 0) return false;`
abbrev pub all_zero : ℕ → List ℕ → Bool
all_zero zero p = true
all_zero (suc n) [] = true
all_zero (suc n) (b ∷ p) = if b == 0 then all_zero n p else false

-- `if (!check) return false;` and then the rest.
unfoldable pub also : Option Bool → Option Bool → Option Bool
also none rest = none
also (some false) rest = some false
also (some true) rest = rest

-- `do … while (pb_field_iter_next(&iter))` of a test of each field.
unfoldable pub all_fields : (PbField → ℕ → Option Bool) → ℕ → FieldIter → Option Bool
unfolding also
all_fields check zero iter = none
all_fields check (suc rounds) iter =
    let (more, next) = pb_field_iter_next iter in
    let rest = all_fields check rounds next in
    also (check (current iter) iter.p_data) (if more then rest else some true)

module _ (table : ℕ → List PbField) (mem : List ℕ) where
  abbrev pub default_submessage : (PbField → ℕ → Option Bool) → PbField → ℕ → Option Bool
  default_submessage check field p_data =
      let fields = table field.ptr in
      let (some_field, iter) = pb_field_iter_begin fields p_data in
      if some_field then all_fields check (length fields) iter else some true

  -- The proto3 singular fields.
  abbrev pub default_singular : (PbField → ℕ → Option Bool) → PbField → ℕ → Option Bool
  default_singular check field p_data =
      let p = drop p_data mem in
      let ltype = pb_ltype field.type_bits in
      let zeroed = all_zero field.data_size p in
      if pb_atype field.type_bits == atype_static
      then (if ltype == ltype_bytes
          then some (load 4 p == 0)
          else (if ltype == ltype_string
              then some (load 1 p == 0)
              else (if ltype == ltype_fixed_length_bytes
                  then some (field.data_size == 0)
                  else (if ltype == ltype_submessage
                      then default_submessage check field p_data
                      else some zeroed))))
      else some zeroed

  -- The fuel is the depth of submessages, and `none` means that it was too small.
  unfoldable pub pb_check_proto3_default_value : ℕ → PbField → ℕ → Option Bool
  unfolding all_fields
  pb_check_proto3_default_value zero field p_data = none
  pb_check_proto3_default_value (suc depth) field p_data =
      let htype = pb_htype field.type_bits in
      let p_size = drop (u64 (p_data + field.size_offset)) mem in
      let singular = default_singular (pb_check_proto3_default_value depth) field p_data in
      if htype == htype_required
      then some false
      else (if htype == htype_repeated
          then (if not (field.size_offset == 0)
              then some (load 4 p_size == 0)
              else (if pb_atype field.type_bits == atype_static then some false else singular))
          else (if htype == htype_oneof
              then some (load 4 p_size == 0)
              else (if htype == htype_optional && not (field.size_offset == 0)
                  then some (not (safe_read_bool p_size))
                  else singular)))
