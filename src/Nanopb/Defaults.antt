-- ===== src/Nanopb/Defaults.antt =====
-- `pb_message_set_to_defaults` and `pb_field_set_to_default` of CardPang/Pods/nanopb/pb_decode.c. Memory
-- is a list of bytes, and an address its index. `table` is the constant tables, `constant` the default
-- values, `arg` the field of an extension's type, each at an address. `none` is the end of fuel.
pub mod Ends
use card_pang.Common.{
  ℕ, zero, suc, ◌+◌, Bool, true, false, not, ◌&&◌, ◌||◌, Option, none, some, List, [], ◌∷◌, length,
  ◌==◌, if◌then◌else◌,
}
use card_pang.Nanopb.Types.{
  PbField, u64, pb_ltype, pb_htype, pb_atype, ltype_extension, ltype_submessage, htype_optional,
  htype_repeated, htype_oneof, atype_static, atype_pointer,
}
use card_pang.Nanopb.Output.{copy, fetch}
use card_pang.Nanopb.Fields.{FieldIter, current, pb_field_iter_begin, pb_field_iter_next}
use card_pang.Nanopb.Message.{pointer_at}

-- `memset(p, 0, n)`
abbrev pub clear : ℕ → ℕ → List ℕ → List ℕ
clear n p mem = copy mem p (fetch n [])

-- The loop of `pb_message_set_to_defaults` over the fields.
unfoldable pub each_default :
    (FieldIter → List ℕ → Option (List ℕ)) → ℕ → FieldIter → List ℕ → Option (List ℕ)
each_default field zero iter mem = none
each_default field (suc rounds) iter mem = elim (field iter mem) [
  | none ↦ none
  | some set ↦
      if (pb_field_iter_next iter).0
      then each_default field rounds (pb_field_iter_next iter).1 set
      else some set
]

module _ (table : ℕ → List PbField) (constant : ℕ → List ℕ) (arg : ℕ → ℕ) where
  unfoldable pub message_defaults :
      (FieldIter → List ℕ → Option (List ℕ)) → ℕ → ℕ → List ℕ → Option (List ℕ)
  unfolding each_default
  message_defaults field fields dest_struct mem =
      let (some_field, iter) = pb_field_iter_begin (table fields) dest_struct in
      if some_field then each_default field (length (table fields)) iter mem else some mem

  -- An extension has its type, its destination, the next one and `found`, in this order.
  unfoldable pub iter_from_extension : ℕ → List ℕ → FieldIter
  iter_from_extension extension mem =
      let dest = pointer_at mem (u64 (extension + 8)) in
      let iter = (pb_field_iter_begin (table (arg (pointer_at mem extension))) dest).1 in
      let is_pointer = pb_atype (current iter).type_bits == atype_pointer in
      record iter {
        p_data = if is_pointer then u64 (extension + 8) else dest;
        p_size = u64 (extension + 24);
      }

  -- `field` sets a field to its default, one level down.
  module _ (field : FieldIter → List ℕ → Option (List ℕ)) where
    init_data : FieldIter → List ℕ → Option (List ℕ)
    unfolding message_defaults
    init_data iter mem =
        let f = current iter in
        if pb_ltype f.type_bits == ltype_submessage
        then message_defaults field f.ptr iter.p_data mem
        else (if not (f.ptr == 0)
            then some (copy mem iter.p_data (fetch f.data_size (constant f.ptr)))
            else some (clear f.data_size iter.p_data mem))

    static_default : FieldIter → List ℕ → Option (List ℕ)
    unfolding init_data
    static_default iter mem =
        let htype = pb_htype (current iter).type_bits in
        if htype == htype_optional && not (iter.p_size == iter.p_data)
        then init_data iter (clear 1 iter.p_size mem)
        else (if htype == htype_repeated || htype == htype_oneof
            then some (clear 4 iter.p_size mem)
            else init_data iter mem)

    pointer_default : FieldIter → List ℕ → List ℕ
    pointer_default iter mem =
        let htype = pb_htype (current iter).type_bits in
        let nulled = clear 8 iter.p_data mem in
        if htype == htype_repeated || htype == htype_oneof
        then clear 4 iter.p_size nulled
        else nulled

    -- `while (ext != NULL)`: a list that ends has no more entries than the memory has bytes.
    extension_defaults : ℕ → ℕ → List ℕ → Option (List ℕ)
    unfolding iter_from_extension
    extension_defaults zero extension mem = none
    extension_defaults (suc rounds) extension mem =
        let cleared = clear 1 (u64 (extension + 24)) mem in
        if extension == 0
        then some mem
        else elim (field (iter_from_extension extension cleared) cleared) [
          | none ↦ none
          | some set ↦ extension_defaults rounds (pointer_at set (u64 (extension + 16))) set
        ]

    unfoldable pub set_to_default : FieldIter → List ℕ → Option (List ℕ)
    unfolding extension_defaults static_default pointer_default
    set_to_default iter mem =
        let type = (current iter).type_bits in
        if pb_ltype type == ltype_extension
        then extension_defaults (suc (length mem)) (pointer_at mem iter.p_data) mem
        else (if pb_atype type == atype_static
            then static_default iter mem
            else (if pb_atype type == atype_pointer
                then some (pointer_default iter mem)
                else some mem))

  -- The fuel is the depth of submessages and extensions.
  unfoldable pub pb_field_set_to_default : ℕ → FieldIter → List ℕ → Option (List ℕ)
  unfolding set_to_default
  pb_field_set_to_default zero iter mem = none
  pb_field_set_to_default (suc depth) iter mem =
      set_to_default (pb_field_set_to_default depth) iter mem

  unfoldable pub pb_message_set_to_defaults : ℕ → ℕ → ℕ → List ℕ → Option (List ℕ)
  unfolding message_defaults pb_field_set_to_default
  pb_message_set_to_defaults depth fields dest_struct mem =
      message_defaults (pb_field_set_to_default depth) fields dest_struct mem
