-- ===== src/Nanopb/Message/Machine.antt =====
-- The field decoders of single values in CardPang/Pods/nanopb/pb_decode.c. They work on a stream, whose
-- state is a list of bytes, and on memory. `pb_realloc` and `pb_free` are parameters: they are given a
-- block's address, 0 for NULL, and the memory.
pub mod Safe
pub mod Values
use card_pang.Common.{
  ℕ, zero, suc, ◌+◌, ◌-◌, ◌*◌, ◌/◌, ◌%◌, ◌^◌, Bool, true, false, ◌&&◌, ◌||◌, not, Option, none,
  some, List, [], ◌∷◌, length, drop, ltb, leb, ◌==◌, if◌then◌else◌,
}
use card_pang.Nanopb.Types.{
  ErrorMessage, invalid_data_size, integer_too_large, bytes_overflow, size_too_large,
  string_overflow, invalid_size, realloc_failed, incorrect_fixed_length_bytes_size, pb_set_error, M,
  ◌>>=◌, ◌>>◌, return, u64, u32, PbField, pb_atype, atype_pointer, pb_size_max, load, store,
  sign_extend,
}
use card_pang.Nanopb.Input.{IStream, pb_read}
use card_pang.Nanopb.Output.{copy, fetch}
use card_pang.Nanopb.Decode.{pb_decode_varint, pb_decode_varint32}
use card_pang.Nanopb.Decode.Scalars.{pb_decode_svarint, pb_decode_fixed32, pb_decode_fixed64}
use card_pang.Nanopb.Message.{pointer_at}

-- `out_of_fuel` tells a loop or a recursion that had too little fuel from `return false`.
pub record Machine : Type 0 where
  pub stream : IStream (List ℕ)
  pub memory : List ℕ
  pub out_of_fuel : Bool

abbrev pub D : Type 0 → Type 0
D A = M Machine A

unfoldable pub on_stream : {A : Type 0} → M (IStream (List ℕ)) A → D A
on_stream m t = let (r, s) = m t.stream in (r, record t { stream = s })

-- Bytes stored at an address.
abbrev pub put : ℕ → List ℕ → D (Unit {0})
put address bytes t = (some tt, record t { memory = copy t.memory address bytes })

-- `PB_RETURN_ERROR`
abbrev pub fail : {A : Type 0} → ErrorMessage → D A
fail msg t =
    (none, record t { stream = record t.stream { errmsg = pb_set_error t.stream.errmsg msg } })

abbrev pub starve : {A : Type 0} → D A
starve t = (none, record t { out_of_fuel = true })

-- A change of the memory alone, which has no result when its fuel has run out.
unfoldable pub change : (List ℕ → Option (List ℕ)) → D (Unit {0})
change f t = elim (f t.memory) [
  | none ↦ starve t
  | some memory ↦ (some tt, record t { memory = memory })
]

-- `*(pb_size_t*)p`
abbrev pub number_at : List ℕ → ℕ → ℕ
number_at mem p = load 4 (drop p mem)

-- The value that is left after the cast to `data_size` bytes; `none` is "invalid data_size".
unfoldable pub clamp_signed : ℕ → ℕ → Option ℕ
clamp_signed data_size value =
    if data_size == 8
    then some value
    else (if data_size == 4
        then some (sign_extend 4 value)
        else (if data_size == 2
            then some (sign_extend 2 value)
            else (if data_size == 1 then some (sign_extend 1 value) else none)))

unfoldable pub clamp_unsigned : ℕ → ℕ → Option ℕ
clamp_unsigned data_size value =
    if data_size == 8
    then some value
    else (if data_size == 4
        then some (value % 2 ^ 32)
        else (if data_size == 2
            then some (value % 2 ^ 16)
            else (if data_size == 1 then some (value % 2 ^ 8) else none)))

-- The clamped value is stored before it is compared.
unfoldable pub store_checked : PbField → ℕ → ℕ → Option ℕ → D (Unit {0})
store_checked field dest value none = fail invalid_data_size
store_checked field dest value (some clamped) =
    put dest (store field.data_size value)
    >> (if clamped == value then return tt else fail integer_too_large)

unfoldable pub pb_dec_bool : ℕ → D (Unit {0})
unfolding on_stream
pb_dec_bool dest = do
  value ← on_stream pb_decode_varint32
  put dest (store 1 (if value == 0 then 0 else 1))

-- A value of less than 64 bits is first cast to `int32_t`.
unfoldable pub pb_dec_varint : PbField → ℕ → D (Unit {0})
unfolding on_stream store_checked
pb_dec_varint field dest = do
  value ← on_stream pb_decode_varint
  let svalue = if field.data_size == 8 then value else sign_extend 4 value
  store_checked field dest svalue (clamp_signed field.data_size svalue)

unfoldable pub pb_dec_uvarint : PbField → ℕ → D (Unit {0})
unfolding on_stream store_checked
pb_dec_uvarint field dest = do
  value ← on_stream pb_decode_varint
  store_checked field dest value (clamp_unsigned field.data_size value)

unfoldable pub pb_dec_svarint : PbField → ℕ → D (Unit {0})
unfolding on_stream store_checked
pb_dec_svarint field dest = do
  value ← on_stream pb_decode_svarint
  store_checked field dest value (clamp_signed field.data_size value)

unfoldable pub pb_dec_fixed32 : ℕ → D (Unit {0})
unfolding on_stream
pb_dec_fixed32 dest = do value ← on_stream pb_decode_fixed32; put dest (store 4 value)

unfoldable pub pb_dec_fixed64 : ℕ → D (Unit {0})
unfolding on_stream
pb_dec_fixed64 dest = do value ← on_stream pb_decode_fixed64; put dest (store 8 value)

-- A size that was read, for which there is no error before the bytes.
pub fixed_length_bytes : PbField → ℕ → ℕ → D (Unit {0})
unfolding on_stream
fixed_length_bytes field dest size =
    if ltb pb_size_max size
    then fail bytes_overflow
    else (if size == 0
        then put dest (fetch field.data_size [])
        else (if not (size == field.data_size)
            then fail incorrect_fixed_length_bytes_size
            else (on_stream (pb_read field.data_size) >>= put dest)))

unfoldable pub pb_dec_fixed_length_bytes : PbField → ℕ → D (Unit {0})
unfolding on_stream fixed_length_bytes
pb_dec_fixed_length_bytes field dest =
    on_stream pb_decode_varint32 >>= fixed_length_bytes field dest

module _ (pb_realloc : ℕ → ℕ → List ℕ → ℕ × List ℕ) where
  pub allocated : ℕ → ℕ × List ℕ → D (Unit {0})
  allocated p_data (ptr, mem) t =
      if ptr == 0
      then fail realloc_failed (record t { memory = mem })
      else (some tt, record t { memory = copy mem p_data (store 8 ptr) })

  unfoldable pub allocate_field : ℕ → ℕ → ℕ → D (Unit {0})
  unfolding allocated
  allocate_field p_data data_size array_size =
      let check_limit : ℕ = 2 ^ 32 in
      if data_size == 0 || array_size == 0
      then fail invalid_size
      else (if (leb check_limit data_size || leb check_limit array_size)
            && ltb ((2 ^ 64 - 1) / array_size) data_size
          then fail size_too_large
          else (λ t.
              allocated p_data
                (pb_realloc (pointer_at t.memory p_data) (u64 (array_size * data_size)) t.memory)
                t))

  -- The size and the bytes at `bdest`: four bytes of size, and then the bytes.
  pub read_bytes : ℕ → ℕ → D (Unit {0})
  unfolding on_stream
  read_bytes size bdest =
      put bdest (store 4 size) >> (on_stream (pb_read size) >>= put (u64 (bdest + 4)))

  pub bytes_of : PbField → ℕ → ℕ → D (Unit {0})
  unfolding allocate_field read_bytes
  bytes_of field dest size =
      let alloc_size = u64 (size + 4) in
      if ltb pb_size_max size
      then fail bytes_overflow
      else (if ltb alloc_size size
          then fail size_too_large
          else (if pb_atype field.type_bits == atype_pointer
              then allocate_field dest alloc_size 1
                >> (λ t. read_bytes size (pointer_at t.memory dest) t)
              else (if ltb field.data_size alloc_size
                  then fail bytes_overflow
                  else read_bytes size dest)))

  unfoldable pub pb_dec_bytes : PbField → ℕ → D (Unit {0})
  unfolding on_stream bytes_of
  pb_dec_bytes field dest = on_stream pb_decode_varint32 >>= bytes_of field dest

  -- The terminator is stored also when the read has failed.
  pub terminated : ℕ → ℕ → Option (List ℕ) × Machine → Option (Unit {0}) × Machine
  terminated size dest (none, t) = (none, (put (u64 (dest + size)) (0 ∷ []) t).1)
  terminated size dest (some bytes, t) = (put dest bytes >> put (u64 (dest + size)) (0 ∷ [])) t

  pub read_string : ℕ → ℕ → D (Unit {0})
  unfolding on_stream terminated
  read_string size dest t = terminated size dest (on_stream (pb_read size) t)

  -- `size + 1` is computed in 32 bits, so that it may be 0.
  pub string_of : PbField → ℕ → ℕ → D (Unit {0})
  unfolding allocate_field read_string
  string_of field dest size =
      let alloc_size = u32 (size + 1) in
      if ltb alloc_size size
      then fail size_too_large
      else (if pb_atype field.type_bits == atype_pointer
          then allocate_field dest alloc_size 1
            >> (λ t. read_string size (pointer_at t.memory dest) t)
          else (if ltb field.data_size alloc_size
              then fail string_overflow
              else read_string size dest))

  unfoldable pub pb_dec_string : PbField → ℕ → D (Unit {0})
  unfolding on_stream string_of
  pb_dec_string field dest = on_stream pb_decode_varint32 >>= string_of field dest
