-- ===== src/Nanopb/Message.antt =====
-- Encoding a message (CardPang/Pods/nanopb/pb_encode.c, from `encode_array` to
-- `pb_encode_submessage`). Memory is a list of bytes, and an address its index; a pointer has eight
-- bytes. `Program` is what the C takes from the compiled program: the constant tables at an address,
-- and the user's functions. The NULL that a sizing stream has for its state is `null`.
pub mod Default
pub mod Encode
pub mod Measure
pub mod Machine
pub mod Release
pub mod Fields
pub mod Pointers
pub mod Callbacks
pub mod Seen
pub mod Decode
use card_pang.Common.{
  ℕ, zero, suc, ◌+◌, ◌*◌, ◌^◌, Bool, true, false, ◌&&◌, ◌||◌, not, Option, none, some, List, [],
  ◌∷◌, length, drop, ltb, leb, ◌==◌, if◌then◌else◌,
}
use card_pang.Nanopb.Types.{
  M, ◌>>=◌, ◌>>◌, return, u64, PbField, ErrorMessage, pb_set_error, string, load, pb_ltype,
  pb_htype, pb_atype, ltype_bool, ltype_varint, ltype_uvarint, ltype_svarint, ltype_fixed32,
  ltype_fixed64, ltype_bytes, ltype_string, ltype_submessage, ltype_extension,
  ltype_fixed_length_bytes, ltype_last_packable, htype_required, htype_optional, htype_repeated,
  htype_oneof, atype_static, atype_pointer, atype_callback, array_max_size_exceeded,
  missing_required_field, callback_error, no_fuel, submsg_size_changed, invalid_field_descriptor,
  invalid_field_type, stream_full,
}
use card_pang.Nanopb.Output.{OStream, fail, pb_write, pb_ostream_sizing}
use card_pang.Nanopb.Encode.{
  safe_read_bool, pb_encode_varint, pb_encode_tag, pb_encode_tag_for_field, pb_enc_bool,
  pb_enc_varint, pb_enc_uvarint, pb_enc_svarint, pb_enc_fixed32, pb_enc_fixed64, pb_enc_bytes,
  pb_enc_string, pb_enc_fixed_length_bytes,
}
use card_pang.Nanopb.Fields.{FieldIter, field_at, current, pb_field_iter_begin, pb_field_iter_next}

-- `pb_extension_type_t`, as far as the encoder reads it: the function, 0 for NULL, and `arg`.
pub record ExtensionType : Type 0 where
  pub encode : ℕ
  pub arg : ℕ

-- `call_encode` is the user's function of a `pb_callback_t`, called with the address of its `arg`.
pub record Program (S : Type 0) : Type 0 where
  pub table : ℕ → List PbField
  pub extension_type : ℕ → ExtensionType
  pub call_encode : ℕ → PbField → ℕ → M (OStream S) (Unit {0})
  pub call_extension : ℕ → ℕ → M (OStream S) (Unit {0})

-- `*(void**)p` and `*(pb_size_t*)p`, and a pointer that may be NULL.
abbrev pub pointer_at : List ℕ → ℕ → ℕ
pointer_at mem a = load 8 (drop a mem)

abbrev pub pointed : List ℕ → ℕ → Option (List ℕ)
pointed mem a = if a == 0 then none else some (drop a mem)

abbrev pub bool_byte : Bool → ℕ
bool_byte b = if b then 1 else 0

module _ {S : Type 0} where
  -- `return false;` with no message.
  abbrev pub give_up : M (OStream S) (Unit {0})
  give_up s = (none, s)

  -- The end of fuel.
  abbrev pub starve : M (OStream S) (Unit {0})
  starve s = (none, record s { errmsg = some no_fuel })

  -- `for (i = 0; i < count; i++) { if (!func(p)) return false; p += size; }`
  unfoldable pub each_item : (ℕ → M (OStream S) (Unit {0})) → ℕ → ℕ → ℕ → M (OStream S) (Unit {0})
  each_item func size zero p = return tt
  each_item func size (suc count) p = func p >> each_item func size count (u64 (p + size))

  -- The loop of `pb_encode` over the fields.
  unfoldable pub each_field :
      (FieldIter → M (OStream S) (Unit {0})) → ℕ → FieldIter → M (OStream S) (Unit {0})
  each_field func zero iter = starve
  each_field func (suc rounds) iter =
      let (more, next) = pb_field_iter_next iter in
      let rest = each_field func rounds next in func iter >> (if more then rest else return tt)

  -- What a pass over a sizing stream has counted.
  abbrev pub counted_size : Option (Unit {0}) × OStream S → Option ℕ
  counted_size (none, s) = none
  counted_size (some _, s) = some s.bytes_written

  abbrev pub is_sizing : OStream S → Bool
  is_sizing s = elim s.callback [ none ↦ true | some _ ↦ false ]

  -- `if (stream->callback == NULL) return pb_write(stream, NULL, size);`, or what follows it.
  abbrev pub unless_sizing : ℕ → M (OStream S) (Unit {0}) → M (OStream S) (Unit {0})
  unless_sizing size m s = if is_sizing s then pb_write [] size s else m s

  -- `if (!call) PB_RETURN_ERROR(stream, msg);`
  abbrev pub or_error : ErrorMessage → Option (Unit {0}) × OStream S → Option (Unit {0}) × OStream S
  or_error msg (none, s) = fail msg s
  or_error msg (some _, s) = (some tt, s)
