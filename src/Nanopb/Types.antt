-- ===== src/Nanopb/Types.antt =====
-- pb.h: field types, wire types, field descriptors, error messages, and memory as bytes.
-- Functions that C ends with `return true` or `return false` over a stream are computations of
-- `M`: `none` is `false`, and the stream is changed either way.
use card_pang.Common.{
  ℕ, zero, suc, ◌+◌, ◌-◌, ◌*◌, ◌/◌, ◌%◌, ◌^◌, Option, none, some, List, [], ◌∷◌, ltb, ◌==◌,
  if◌then◌else◌,
}
use Prim.Native.Nat.{bit_and}

-- The messages of the program. `no_fuel` is none of them: with it the encoder says that its fuel has
-- run out.
pub data ErrorMessage : Type 0 where
  stream_full io_error end_of_stream varint_overflow invalid_wire_type : ErrorMessage
  parent_stream_too_short invalid_field_type invalid_data_size integer_too_large : ErrorMessage
  bytes_size_exceeded bytes_overflow string_overflow size_too_large : ErrorMessage
  incorrect_fixed_length_bytes_size invalid_size realloc_failed : ErrorMessage
  array_max_size_exceeded missing_required_field callback_error : ErrorMessage
  submsg_size_changed invalid_field_descriptor : ErrorMessage
  array_overflow too_many_array_entries callback_failed : ErrorMessage
  wrong_size_for_fixed_count_field invalid_union_tag iterator_error no_fuel : ErrorMessage

-- `stream->errmsg = stream->errmsg ? stream->errmsg : msg`: the first message stays.
abbrev pub pb_set_error : Option ErrorMessage → ErrorMessage → Option ErrorMessage
pb_set_error none msg = some msg
pb_set_error (some old) msg = some old

abbrev pub M : Type 0 → Type 0 → Type 0
M S A = S → Option A × S

abbrev pub after : {S A B : Type 0} → Option A × S → (A → M S B) → Option B × S
after (none, s) f = (none, s)
after (some a, s) f = f a s

-- `if (!m) return false;` and then the rest.
infixl 5 ◌>>=◌ ◌>>◌
abbrev pub ◌>>=◌ : {S A B : Type 0} → M S A → (A → M S B) → M S B
◌>>=◌ m f s = after (m s) f

abbrev pub ◌>>◌ : {S B : Type 0} → M S (Unit {0}) → M S B → M S B
m >> k = m >>= λ _. k

abbrev pub return : {S A : Type 0} → A → M S A
return a s = (some a, s)

-- `size_t` and `uint64_t`; `uint32_t` and `pb_size_t`; `pb_byte_t`.
abbrev pub u64 : ℕ → ℕ
u64 n = n % 2 ^ 64

abbrev pub u32 : ℕ → ℕ
u32 n = n % 2 ^ 32

abbrev pub u8 : ℕ → ℕ
u8 n = n % 256

pub data WireType : Type 0 where
  varint bits64 string bits32 : WireType
  -- A value of the C enum that has no name: 3, 4, 6 or 7.
  other : ℕ → WireType

abbrev pub wire_code : WireType → ℕ
wire_code varint = 0
wire_code bits64 = 1
wire_code string = 2
wire_code bits32 = 5
wire_code (other n) = n

-- `(pb_wire_type_t)n`
unfoldable pub to_wire_type : ℕ → WireType
to_wire_type n =
    if n == 0
    then varint
    else (if n == 1
        then bits64
        else (if n == 2 then string else (if n == 5 then bits32 else other n)))

-- `PB_LTYPE`, `PB_HTYPE` and `PB_ATYPE` of a `pb_type_t`.
unfoldable pub pb_ltype : ℕ → ℕ
pb_ltype x = bit_and x 0x0f

unfoldable pub pb_htype : ℕ → ℕ
pb_htype x = bit_and x 0x30

unfoldable pub pb_atype : ℕ → ℕ
pb_atype x = bit_and x 0xc0

abbrev pub ltype_bool : ℕ
ltype_bool = 0x00

abbrev pub ltype_varint : ℕ
ltype_varint = 0x01

abbrev pub ltype_uvarint : ℕ
ltype_uvarint = 0x02

abbrev pub ltype_svarint : ℕ
ltype_svarint = 0x03

abbrev pub ltype_fixed32 : ℕ
ltype_fixed32 = 0x04

abbrev pub ltype_fixed64 : ℕ
ltype_fixed64 = 0x05

abbrev pub ltype_bytes : ℕ
ltype_bytes = 0x06

abbrev pub ltype_string : ℕ
ltype_string = 0x07

abbrev pub ltype_submessage : ℕ
ltype_submessage = 0x08

abbrev pub ltype_extension : ℕ
ltype_extension = 0x09

abbrev pub ltype_fixed_length_bytes : ℕ
ltype_fixed_length_bytes = 0x0a

abbrev pub ltype_last_packable : ℕ
ltype_last_packable = 0x05

abbrev pub htype_required : ℕ
htype_required = 0x00

abbrev pub htype_optional : ℕ
htype_optional = 0x10

abbrev pub htype_repeated : ℕ
htype_repeated = 0x20

abbrev pub htype_oneof : ℕ
htype_oneof = 0x30

abbrev pub atype_static : ℕ
atype_static = 0x00

abbrev pub atype_callback : ℕ
atype_callback = 0x40

abbrev pub atype_pointer : ℕ
atype_pointer = 0x80

-- `PB_SIZE_MAX`: `pb_size_t` has 32 bits.
abbrev pub pb_size_max : ℕ
pb_size_max = 2 ^ 32 - 1

-- `pb_field_t`. `size_offset` is signed in C: it is kept as its 64-bit pattern, so that adding it to
-- a pointer is addition modulo 2^64. `ptr` is the address that the C pointer holds, 0 for NULL.
pub record PbField : Type 0 where
  pub tag : ℕ
  pub type_bits : ℕ
  pub data_offset : ℕ
  pub size_offset : ℕ
  pub data_size : ℕ
  pub array_size : ℕ
  pub ptr : ℕ

-- The value of `n` little-endian bytes of memory; what lies past the list reads as 0.
unfoldable pub load : ℕ → List ℕ → ℕ
load zero bs = 0
load (suc n) [] = 0
load (suc n) (b ∷ bs) = b + 256 * load n bs

-- The `n` bytes that hold the low bits of a value.
unfoldable pub store : ℕ → ℕ → List ℕ
store zero v = []
store (suc n) v = (v % 256) ∷ store n (v / 256)

-- The 64-bit pattern of the signed integer that the `8 * n` low bits stand for.
abbrev pub sign_extend : ℕ → ℕ → ℕ
sign_extend n v =
    let w = v % 2 ^ (8 * n) in if ltb w (2 ^ (8 * n - 1)) then w else w + (2 ^ 64 - 2 ^ (8 * n))
