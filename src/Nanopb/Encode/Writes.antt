-- ===== src/Nanopb/Encode/Writes.antt =====
-- The bytes that each encoder of CardPang/Pods/nanopb/pb_encode.c appends to a buffer with room.
use card_pang.Common.{
  ℕ, ◌+◌, ◌-◌, ◌*◌, ◌/◌, ◌%◌, ◌^◌, ◌≤◌, ◌<◌, ◌≡◌, ap, sym, subst, ◌∙◌, some, List, [], ◌∷◌, ◌++◌,
  length, length-append, arith, leb, if◌then◌else◌,
}
use card_pang.Common.Bits.{bit_or-tag, bit_and-0xff}
use card_pang.Nanopb.Types.{M, after, ◌>>◌, u64, u8, WireType, wire_code, load, store}
use card_pang.Nanopb.Output.{OStream, Buffer, pb_write}
use card_pang.Nanopb.Output.Bounds.{
  IsBuffer, emit, pb_write-emit, emit-IsBuffer, emit-append, length-emit,
}
use card_pang.Nanopb.Encode.{
  varint_buffer, pb_encode_varint, pb_encode_svarint, pb_encode_fixed32, pb_encode_fixed64,
  pb_encode_tag, pb_encode_string,
}
use native.Mathlib.Nat.{mod-eq_of_lt}
use Prim.Native.Nat.{bit_and, bit_or}

-- On a buffer with room for `bs` the computation succeeds and appends `bs`.
abbrev pub Appends : M (OStream Buffer) (Unit {0}) → List ℕ → Type 0
Appends m bs =
    (s : OStream Buffer)
    → IsBuffer s
    → s.bytes_written + length bs ≤ s.max_size
    → m s ≡ (some tt, emit s bs)

pub pb_write-Appends : (bs : List ℕ) → Appends (pb_write bs (length bs)) bs
pb_write-Appends bs s v h = pb_write-emit s bs v h

pub >>-Appends :
    (m k : M (OStream Buffer) (Unit {0})) (xs ys : List ℕ)
    → Appends m xs
    → Appends k ys
    → Appends (m >> k) (xs ++ ys)
>>-Appends m k xs ys hm hk s v h =
    ap (λ r. after r (λ _. k)) (hm s v room_xs)
    ∙ hk (emit s xs) (emit-IsBuffer s xs v room_xs) room_ys
    ∙ ap (λ t. (some tt, t)) (emit-append s xs ys)
  where
    room_xs : s.bytes_written + length xs ≤ s.max_size
    room_xs = omega (arith, length-append xs ys)

    room_ys : (emit s xs).bytes_written + length ys ≤ (emit s xs).max_size
    room_ys = omega (arith, length-emit s xs, length-append xs ys)

pub pb_encode_varint-Appends : (v : ℕ) → Appends (pb_encode_varint v) (varint_buffer v)
unfolding pb_encode_varint
pb_encode_varint-Appends v = pb_write-Appends (varint_buffer v)

-- `int64_t` to `uint64_t`: 0, -1, 1, -2, ... become 0, 1, 2, 3, ...
abbrev pub zigzag : ℕ → ℕ
zigzag value = if leb (2 ^ 63) value then 2 ^ 64 - 1 - u64 (value * 2) else u64 (value * 2)

pub pb_encode_svarint-Appends : (v : ℕ) → Appends (pb_encode_svarint v) (varint_buffer (zigzag v))
unfolding pb_encode_svarint
pb_encode_svarint-Appends v = pb_encode_varint-Appends (zigzag v)

-- The tag holds the field number above the wire type.
pub pb_encode_tag-Appends :
    (w : WireType) (n : ℕ)
    → wire_code w < 8
    → n < 2 ^ 32
    → Appends (pb_encode_tag w n) (varint_buffer (n * 8 + wire_code w))
unfolding pb_encode_tag
pb_encode_tag-Appends w n hw hn =
    subst (λ t. Appends (pb_encode_varint t) (varint_buffer (n * 8 + wire_code w))) (sym tag_value)
      (pb_encode_varint-Appends (n * 8 + wire_code w))
  where
    tag_value : bit_or (u64 (n * 8)) (wire_code w) ≡ n * 8 + wire_code w
    tag_value =
        ap (λ t. bit_or t (wire_code w)) (mod-eq_of_lt (omega arith))
        ∙ bit_or-tag n (wire_code w) hw

pub pb_encode_string-Appends :
    (bs : List ℕ)
    → length bs < 2 ^ 64
    → Appends (pb_encode_string bs (length bs)) (varint_buffer (length bs) ++ bs)
unfolding pb_encode_string
pb_encode_string-Appends bs h =
    >>-Appends (pb_encode_varint (u64 (length bs))) (pb_write bs (length bs))
      (varint_buffer (length bs)) bs
      (subst (λ t. Appends (pb_encode_varint t) (varint_buffer (length bs))) (sym (mod-eq_of_lt h))
        (pb_encode_varint-Appends (length bs)))
      (pb_write-Appends bs)

-- The fixed formats are the low bytes of the value, lowest first.
low_byte : (v : ℕ) → u8 (bit_and v 0xff) ≡ v % 256
low_byte v = ap u8 (bit_and-0xff v) ∙ omega arith

bytes_of_four :
    (v : ℕ)
    → u8 (bit_and v 0xff)
        ∷ u8 (bit_and (v / 2 ^ 8) 0xff)
        ∷ u8 (bit_and (v / 2 ^ 16) 0xff)
        ∷ u8 (bit_and (v / 2 ^ 24) 0xff)
        ∷ []
      ≡ store 4 v
unfolding store
bytes_of_four v =
    let b0 : u8 (bit_and v 0xff) ≡ v % 256 = omega (arith, low_byte v) in
    let b1 : u8 (bit_and (v / 2 ^ 8) 0xff) ≡ v / 256 % 256 = omega (arith, low_byte (v / 2 ^ 8)) in
    let b2 : u8 (bit_and (v / 2 ^ 16) 0xff) ≡ v / 256 / 256 % 256 =
      omega (arith, low_byte (v / 2 ^ 16)) in
    let b3 : u8 (bit_and (v / 2 ^ 24) 0xff) ≡ v / 256 / 256 / 256 % 256 =
      omega (arith, low_byte (v / 2 ^ 24)) in
    λ i. b0 i ∷ b1 i ∷ b2 i ∷ b3 i ∷ []

bytes_of_eight :
    (v : ℕ)
    → u8 (bit_and v 0xff)
        ∷ u8 (bit_and (v / 2 ^ 8) 0xff)
        ∷ u8 (bit_and (v / 2 ^ 16) 0xff)
        ∷ u8 (bit_and (v / 2 ^ 24) 0xff)
        ∷ u8 (bit_and (v / 2 ^ 32) 0xff)
        ∷ u8 (bit_and (v / 2 ^ 40) 0xff)
        ∷ u8 (bit_and (v / 2 ^ 48) 0xff)
        ∷ u8 (bit_and (v / 2 ^ 56) 0xff)
        ∷ []
      ≡ store 8 v
unfolding store
bytes_of_eight v =
    let b0 : u8 (bit_and v 0xff) ≡ v % 256 = omega (arith, low_byte v) in
    let b1 : u8 (bit_and (v / 2 ^ 8) 0xff) ≡ v / 256 % 256 = omega (arith, low_byte (v / 2 ^ 8)) in
    let b2 : u8 (bit_and (v / 2 ^ 16) 0xff) ≡ v / 256 / 256 % 256 =
      omega (arith, low_byte (v / 2 ^ 16)) in
    let b3 : u8 (bit_and (v / 2 ^ 24) 0xff) ≡ v / 256 / 256 / 256 % 256 =
      omega (arith, low_byte (v / 2 ^ 24)) in
    let b4 : u8 (bit_and (v / 2 ^ 32) 0xff) ≡ v / 256 / 256 / 256 / 256 % 256 =
      omega (arith, low_byte (v / 2 ^ 32)) in
    let b5 : u8 (bit_and (v / 2 ^ 40) 0xff) ≡ v / 256 / 256 / 256 / 256 / 256 % 256 =
      omega (arith, low_byte (v / 2 ^ 40)) in
    let b6 : u8 (bit_and (v / 2 ^ 48) 0xff) ≡ v / 256 / 256 / 256 / 256 / 256 / 256 % 256 =
      omega (arith, low_byte (v / 2 ^ 48)) in
    let b7 : u8 (bit_and (v / 2 ^ 56) 0xff) ≡ v / 256 / 256 / 256 / 256 / 256 / 256 / 256 % 256 =
      omega (arith, low_byte (v / 2 ^ 56)) in
    λ i. b0 i ∷ b1 i ∷ b2 i ∷ b3 i ∷ b4 i ∷ b5 i ∷ b6 i ∷ b7 i ∷ []

pub pb_encode_fixed32-Appends :
    (value : List ℕ) → Appends (pb_encode_fixed32 value) (store 4 (load 4 value))
unfolding pb_encode_fixed32 store
pb_encode_fixed32-Appends value =
    subst (λ bs. Appends (pb_write bs 4) (store 4 (load 4 value)))
      (sym (bytes_of_four (load 4 value))) (pb_write-Appends (store 4 (load 4 value)))

pub pb_encode_fixed64-Appends :
    (value : List ℕ) → Appends (pb_encode_fixed64 value) (store 8 (load 8 value))
unfolding pb_encode_fixed64 store
pb_encode_fixed64-Appends value =
    subst (λ bs. Appends (pb_write bs 8) (store 8 (load 8 value)))
      (sym (bytes_of_eight (load 8 value))) (pb_write-Appends (store 8 (load 8 value)))
