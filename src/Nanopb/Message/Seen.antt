-- ===== src/Nanopb/Message/Seen.antt =====
-- The required fields that `pb_decode_noinit` of CardPang/Pods/nanopb/pb_decode.c has seen. Bit i of
-- `fields_seen` tells whether the required field with index i was seen; it is two words of 32 bits.
pub mod Bits
pub mod Required
use card_pang.Common.{
  ℕ, zero, suc, ◌+◌, ◌-◌, ◌*◌, ◌/◌, ◌%◌, ◌^◌, Bool, true, false, not, ◌&&◌, ◌||◌, Option, none,
  some, List, [], ◌∷◌, length, ltb, leb, ◌==◌, if◌then◌else◌,
}
use card_pang.Nanopb.Types.{
  M, ◌>>=◌, ◌>>◌, return, u64, u32, PbField, WireType, store, pb_htype, htype_required,
  htype_repeated, wrong_size_for_fixed_count_field, missing_required_field,
}
use card_pang.Nanopb.Input.{IStream}
use card_pang.Nanopb.Decode.{pb_decode_tag, pb_skip_field, pb_make_string_substream}
use card_pang.Nanopb.Fields.{
  FieldIter, field_at, current, pb_field_iter_begin, pb_field_iter_next, pb_field_iter_find,
  find_extension_field,
}
use card_pang.Nanopb.Defaults.{iter_from_extension, pb_message_set_to_defaults}
use card_pang.Nanopb.Message.{pointer_at}
use card_pang.Nanopb.Message.Machine.{Machine, D, on_stream, put, fail, starve, change, number_at}
use card_pang.Nanopb.Message.Release.{pb_release_single_field, pb_release}
use card_pang.Nanopb.Message.Fields.{Runtime, in_substream}
use card_pang.Nanopb.Message.Callbacks.{decode_field}
use Prim.Native.Nat.{bit_or}

-- `fields_seen[i >> 5] |= 1 << (i & 31)` for i below 64.
abbrev pub see : ℕ → ℕ × ℕ → ℕ × ℕ
see i (low, high) =
    if i / 32 == 0 then (bit_or low (2 ^ (i % 32)), high) else (low, bit_or high (2 ^ (i % 32)))

abbrev pub word : ℕ → ℕ × ℕ → ℕ
word i (low, high) = if i == 0 then low else high

-- The check of the whole words, and of the bits of the next one.
pub all_whole : ℕ → ℕ × ℕ → Bool
all_whole zero seen = true
all_whole (suc i) seen = all_whole i seen && word i seen == 2 ^ 32 - 1

unfoldable pub all_seen : ℕ → ℕ × ℕ → Bool
unfolding all_whole
all_seen count seen =
    all_whole (count / 32) seen
    && (count % 32 == 0 || word (count / 32) seen == (2 ^ 32 - 1) / 2 ^ (32 - count % 32))

-- `do … while (pb_field_iter_next(&iter))` up to the end of the table: the index of the required field
-- there, its type, and the iterator behind it. Each round goes on in the table.
pub to_last : ℕ → FieldIter → ℕ × ℕ × FieldIter
to_last zero iter = (iter.required_field_index, (current iter).type_bits, iter)
to_last (suc rounds) iter =
    let (more, next) = pb_field_iter_next iter in
    let rest = to_last rounds next in
    if more then rest else (iter.required_field_index, (current iter).type_bits, next)

-- `req_field_count`, at most PB_MAX_REQUIRED_FIELDS.
unfoldable pub required_count : FieldIter → ℕ
unfolding to_last
required_count iter =
    let (index, last_type, back) = to_last (length iter.start) iter in
    let count =
      if pb_htype last_type == htype_required && not ((current back).tag == 0)
      then u32 (index + 1)
      else index in
    if ltb 64 count then 64 else count
