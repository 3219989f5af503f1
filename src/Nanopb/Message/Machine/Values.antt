-- ===== src/Nanopb/Message/Machine/Values.antt =====
-- The field decoders of single values in CardPang/Pods/nanopb/pb_decode.c take only bytes that are
-- left.
use card_pang.Common.{
  ℕ, ◌+◌, ◌-◌, ◌*◌, ◌/◌, ◌||◌, ◌^◌, Option, none, some, List, [], Bool-cases, inl, inr,
  if◌then◌else◌, ltb, ◌==◌, not,
}
use card_pang.Nanopb.Types.{
  M, ◌>>=◌, ◌>>◌, return, u64, u32, PbField, pb_atype, atype_pointer, pb_size_max, store,
  sign_extend, bytes_overflow, incorrect_fixed_length_bytes_size, invalid_data_size,
  integer_too_large, invalid_size, size_too_large, realloc_failed, string_overflow,
}
use card_pang.Nanopb.Input.{IStream, pb_read}
use card_pang.Nanopb.Input.Bounds.{
  >>=-StaysInside, return-StaysInside, StaysInside, pb_read-StaysInside,
}
use card_pang.Nanopb.Output.{fetch}
use card_pang.Nanopb.Decode.{pb_decode_varint, pb_decode_varint32}
use card_pang.Nanopb.Decode.Inside.{pb_decode_varint32-StaysInside, pb_decode_varint-Advances}
use card_pang.Nanopb.Decode.Scalars.{
  pb_decode_svarint, pb_decode_fixed32, pb_decode_fixed64, word32, word64,
}
use Prim.Native.Nat.{bit_and}
use card_pang.Nanopb.Message.{pointer_at}
use card_pang.Nanopb.Message.Machine.{
  Machine, D, on_stream, put, fail, clamp_signed, clamp_unsigned, store_checked, pb_dec_bool,
  pb_dec_varint, pb_dec_uvarint, pb_dec_svarint, pb_dec_fixed32, pb_dec_fixed64, fixed_length_bytes,
  pb_dec_fixed_length_bytes, allocated, allocate_field, read_bytes, bytes_of, pb_dec_bytes,
  terminated, read_string, string_of, pb_dec_string,
}
use card_pang.Nanopb.Message.Machine.Safe.{
  Within, Within-refl, Safe, fail-Safe, return-Safe, put-Safe, >>=-Safe, choose-Safe,
  on_stream-Safe,
}

pb_decode_svarint-StaysInside : StaysInside (pb_decode_svarint {S = List ℕ})
unfolding pb_decode_svarint
pb_decode_svarint-StaysInside =
    >>=-StaysInside pb_decode_varint
      (λ value. return (if bit_and value 1 == 0 then value / 2 else 2 ^ 64 - 1 - value / 2))
      pb_decode_varint-Advances
      (λ value.
        return-StaysInside (if bit_and value 1 == 0 then value / 2 else 2 ^ 64 - 1 - value / 2))

pb_decode_fixed32-StaysInside : StaysInside (pb_decode_fixed32 {S = List ℕ})
unfolding pb_decode_fixed32
pb_decode_fixed32-StaysInside =
    >>=-StaysInside (pb_read 4) (λ bytes. return (word32 bytes)) (pb_read-StaysInside 4)
      (λ bytes. return-StaysInside (word32 bytes))

pb_decode_fixed64-StaysInside : StaysInside (pb_decode_fixed64 {S = List ℕ})
unfolding pb_decode_fixed64
pb_decode_fixed64-StaysInside =
    >>=-StaysInside (pb_read 8) (λ bytes. return (word64 bytes)) (pb_read-StaysInside 8)
      (λ bytes. return-StaysInside (word64 bytes))

-- What is read is stored.
stored-Safe :
    {A : Type 0} (m : M (IStream (List ℕ)) A) (dest : ℕ) (f : A → List ℕ)
    → StaysInside m
    → Safe (on_stream m >>= λ a. put dest (f a))
stored-Safe m dest f h =
    >>=-Safe (on_stream m) (λ a. put dest (f a)) (on_stream-Safe m h) (λ a. put-Safe dest (f a))

store_checked-Safe :
    (field : PbField) (dest value : ℕ) (r : Option ℕ) → Safe (store_checked field dest value r)
unfolding store_checked
store_checked-Safe field dest value none = fail-Safe (Unit {0}) invalid_data_size
store_checked-Safe field dest value (some clamped) =
    >>=-Safe (put dest (store field.data_size value))
      (λ _. if clamped == value then return tt else fail integer_too_large)
      (put-Safe dest (store field.data_size value))
      (λ _.
        choose-Safe (clamped == value) (return tt) (fail integer_too_large) (return-Safe tt)
          (fail-Safe (Unit {0}) integer_too_large))

pub pb_dec_bool-Safe : (dest : ℕ) → Safe (pb_dec_bool dest)
unfolding pb_dec_bool
pb_dec_bool-Safe dest =
    stored-Safe pb_decode_varint32 dest (λ value. store 1 (if value == 0 then 0 else 1))
      pb_decode_varint32-StaysInside

pub pb_dec_varint-Safe : (field : PbField) (dest : ℕ) → Safe (pb_dec_varint field dest)
unfolding pb_dec_varint
pb_dec_varint-Safe field dest =
    >>=-Safe (on_stream pb_decode_varint)
      (λ value.
        let svalue = if field.data_size == 8 then value else sign_extend 4 value in
        store_checked field dest svalue (clamp_signed field.data_size svalue))
      (on_stream-Safe pb_decode_varint pb_decode_varint-Advances)
      (λ value.
        let svalue = if field.data_size == 8 then value else sign_extend 4 value in
        store_checked-Safe field dest svalue (clamp_signed field.data_size svalue))

pub pb_dec_uvarint-Safe : (field : PbField) (dest : ℕ) → Safe (pb_dec_uvarint field dest)
unfolding pb_dec_uvarint
pb_dec_uvarint-Safe field dest =
    >>=-Safe (on_stream pb_decode_varint)
      (λ value. store_checked field dest value (clamp_unsigned field.data_size value))
      (on_stream-Safe pb_decode_varint pb_decode_varint-Advances)
      (λ value. store_checked-Safe field dest value (clamp_unsigned field.data_size value))

pub pb_dec_svarint-Safe : (field : PbField) (dest : ℕ) → Safe (pb_dec_svarint field dest)
unfolding pb_dec_svarint
pb_dec_svarint-Safe field dest =
    >>=-Safe (on_stream pb_decode_svarint)
      (λ value. store_checked field dest value (clamp_signed field.data_size value))
      (on_stream-Safe pb_decode_svarint pb_decode_svarint-StaysInside)
      (λ value. store_checked-Safe field dest value (clamp_signed field.data_size value))

pub pb_dec_fixed32-Safe : (dest : ℕ) → Safe (pb_dec_fixed32 dest)
unfolding pb_dec_fixed32
pb_dec_fixed32-Safe dest =
    stored-Safe pb_decode_fixed32 dest (store 4) pb_decode_fixed32-StaysInside

pub pb_dec_fixed64-Safe : (dest : ℕ) → Safe (pb_dec_fixed64 dest)
unfolding pb_dec_fixed64
pb_dec_fixed64-Safe dest =
    stored-Safe pb_decode_fixed64 dest (store 8) pb_decode_fixed64-StaysInside

fixed_length_bytes-Safe :
    (field : PbField) (dest size : ℕ) → Safe (fixed_length_bytes field dest size)
unfolding fixed_length_bytes
fixed_length_bytes-Safe field dest size =
    choose-Safe (ltb pb_size_max size) (fail bytes_overflow) _ (fail-Safe (Unit {0}) bytes_overflow)
      (choose-Safe (size == 0) (put dest (fetch field.data_size [])) _
        (put-Safe dest (fetch field.data_size []))
        (choose-Safe (not (size == field.data_size)) (fail incorrect_fixed_length_bytes_size)
          (on_stream (pb_read field.data_size) >>= put dest)
          (fail-Safe (Unit {0}) incorrect_fixed_length_bytes_size)
          (stored-Safe (pb_read field.data_size) dest (λ bytes. bytes)
            (pb_read-StaysInside field.data_size))))

-- What follows a size that was read.
sized-Safe :
    (f : ℕ → D (Unit {0}))
    → ((size : ℕ) → Safe (f size))
    → Safe (on_stream pb_decode_varint32 >>= f)
sized-Safe f h =
    >>=-Safe (on_stream pb_decode_varint32) f
      (on_stream-Safe pb_decode_varint32 pb_decode_varint32-StaysInside) h

pub pb_dec_fixed_length_bytes-Safe :
    (field : PbField) (dest : ℕ) → Safe (pb_dec_fixed_length_bytes field dest)
unfolding pb_dec_fixed_length_bytes
pb_dec_fixed_length_bytes-Safe field dest =
    sized-Safe (fixed_length_bytes field dest) (fixed_length_bytes-Safe field dest)

module _ (pb_realloc : ℕ → ℕ → List ℕ → ℕ × List ℕ) where
  allocated-Safe : (p_data : ℕ) (r : ℕ × List ℕ) → Safe (λ t. allocated pb_realloc p_data r t)
  unfolding allocated
  allocated-Safe p_data (ptr, mem) t v = elim (Bool-cases (ptr == 0)) [
    | inl e ↦ rw e (fail-Safe (Unit {0}) realloc_failed (record t { memory = mem }) v)
    | inr e ↦ rw e (Within-refl t.stream)
  ]

  pub allocate_field-Safe :
      (p_data data_size array_size : ℕ)
      → Safe (allocate_field pb_realloc p_data data_size array_size)
  unfolding allocate_field
  allocate_field-Safe p_data data_size array_size =
      let call : D (Unit {0}) = (λ t.
        allocated pb_realloc p_data
          (pb_realloc (pointer_at t.memory p_data) (u64 (array_size * data_size)) t.memory) t) in
      choose-Safe (data_size == 0 || array_size == 0) (fail invalid_size) _
        (fail-Safe (Unit {0}) invalid_size)
        (choose-Safe _ (fail size_too_large) call (fail-Safe (Unit {0}) size_too_large) (λ t.
          allocated-Safe p_data
            (pb_realloc (pointer_at t.memory p_data) (u64 (array_size * data_size)) t.memory) t))

  read_bytes-Safe : (size bdest : ℕ) → Safe (read_bytes pb_realloc size bdest)
  unfolding read_bytes
  read_bytes-Safe size bdest =
      >>=-Safe (put bdest (store 4 size)) (λ _. on_stream (pb_read size) >>= put (u64 (bdest + 4)))
        (put-Safe bdest (store 4 size))
        (λ _.
          stored-Safe (pb_read size) (u64 (bdest + 4)) (λ bytes. bytes) (pb_read-StaysInside size))

  -- An allocation, and what works at the address it has given.
  in_allocated-Safe :
      (dest size : ℕ) (f : ℕ → D (Unit {0}))
      → ((p : ℕ) → Safe (f p))
      → Safe (allocate_field pb_realloc dest size 1 >> (λ t. f (pointer_at t.memory dest) t))
  in_allocated-Safe dest size f h =
      >>=-Safe (allocate_field pb_realloc dest size 1) (λ _. λ t. f (pointer_at t.memory dest) t)
        (allocate_field-Safe dest size 1) (λ _. λ t. h (pointer_at t.memory dest) t)

  bytes_of-Safe : (field : PbField) (dest size : ℕ) → Safe (bytes_of pb_realloc field dest size)
  unfolding bytes_of
  bytes_of-Safe field dest size =
      let alloc_size = u64 (size + 4) in
      choose-Safe (ltb pb_size_max size) (fail bytes_overflow) _
        (fail-Safe (Unit {0}) bytes_overflow)
        (choose-Safe (ltb alloc_size size) (fail size_too_large) _
          (fail-Safe (Unit {0}) size_too_large)
          (choose-Safe (pb_atype field.type_bits == atype_pointer) _ _
            (in_allocated-Safe dest alloc_size (read_bytes pb_realloc size) (read_bytes-Safe size))
            (choose-Safe (ltb field.data_size alloc_size) (fail bytes_overflow)
              (read_bytes pb_realloc size dest) (fail-Safe (Unit {0}) bytes_overflow)
              (read_bytes-Safe size dest))))

  pub pb_dec_bytes-Safe : (field : PbField) (dest : ℕ) → Safe (pb_dec_bytes pb_realloc field dest)
  unfolding pb_dec_bytes
  pb_dec_bytes-Safe field dest =
      sized-Safe (bytes_of pb_realloc field dest) (bytes_of-Safe field dest)

  terminated-Within :
      (size dest : ℕ) (s : IStream (List ℕ)) (r : Option (List ℕ) × Machine)
      → Within s r.1.stream
      → Within s (terminated pb_realloc size dest r).1.stream
  unfolding terminated
  terminated-Within size dest s (none, t) h = h
  terminated-Within size dest s (some bytes, t) h = h

  read_string-Safe : (size dest : ℕ) → Safe (read_string pb_realloc size dest)
  unfolding read_string
  read_string-Safe size dest t v =
      terminated-Within size dest t.stream (on_stream (pb_read size) t)
        (on_stream-Safe (pb_read size) (pb_read-StaysInside size) t v)

  string_of-Safe : (field : PbField) (dest size : ℕ) → Safe (string_of pb_realloc field dest size)
  unfolding string_of
  string_of-Safe field dest size =
      let alloc_size = u32 (size + 1) in
      choose-Safe (ltb alloc_size size) (fail size_too_large) _
        (fail-Safe (Unit {0}) size_too_large)
        (choose-Safe (pb_atype field.type_bits == atype_pointer) _ _
          (in_allocated-Safe dest alloc_size (read_string pb_realloc size) (read_string-Safe size))
          (choose-Safe (ltb field.data_size alloc_size) (fail string_overflow)
            (read_string pb_realloc size dest) (fail-Safe (Unit {0}) string_overflow)
            (read_string-Safe size dest)))

  pub pb_dec_string-Safe : (field : PbField) (dest : ℕ) → Safe (pb_dec_string pb_realloc field dest)
  unfolding pb_dec_string
  pb_dec_string-Safe field dest =
      sized-Safe (string_of pb_realloc field dest) (string_of-Safe field dest)
