-- ===== src/Nanopb/Decode/Scalars/Laws.antt =====
-- Reading back the fixed formats and the signed integers, and the range checks of the integer field
-- decoders (CardPang/Pods/nanopb/pb_decode.c).
use card_pang.Common.{
  ℕ, ◌+◌, ◌-◌, ◌*◌, ◌/◌, ◌%◌, ◌^◌, ◌≤◌, ◌<◌, ◌≡◌, ap, ◌∙◌, Option, some, List, ◌++◌, length, arith,
  ◌==◌, if◌then◌else◌,
}
use card_pang.Common.Bits.{bit_and-1, bit_or-shifted}
use card_pang.Nanopb.Types.{ErrorMessage, after, return, store}
use card_pang.Nanopb.Encode.Varint.{IsVarint}
use card_pang.Nanopb.Encode.Writes.{zigzag}
use card_pang.Nanopb.Input.Bounds.{reading, pb_read-prefix}
use card_pang.Nanopb.Decode.Varint.{pb_decode_varint-IsVarint}
use card_pang.Nanopb.Decode.Scalars.{
  word32, word64, pb_decode_svarint, pb_decode_fixed32, pb_decode_fixed64,
}
use native.Mathlib.Nat.{mod-eq_of_lt}
use Prim.Native.Nat.{bit_and, bit_or}

-- A byte that lands above the bits that are there adds its value.
or_step :
    (m acc b s : ℕ) → acc < 2 ^ s → b * 2 ^ s < m → bit_or acc ((b * 2 ^ s) % m) ≡ acc + b * 2 ^ s
or_step m acc b s h fits = ap (bit_or acc) (mod-eq_of_lt fits) ∙ bit_or-shifted s acc b h

or_bytes_4 :
    (b0 b1 b2 b3 : ℕ)
    → b0 < 256
    → b1 < 256
    → b2 < 256
    → b3 < 256
    → bit_or
        (bit_or (bit_or ((b0 * 2 ^ 0) % 2 ^ 32) ((b1 * 2 ^ 8) % 2 ^ 32)) ((b2 * 2 ^ 16) % 2 ^ 32))
        ((b3 * 2 ^ 24) % 2 ^ 32)
      ≡ b0 * 2 ^ 0 + b1 * 2 ^ 8 + b2 * 2 ^ 16 + b3 * 2 ^ 24
or_bytes_4 b0 b1 b2 b3 h0 h1 h2 h3 =
    let p0 : (b0 * 2 ^ 0) % 2 ^ 32 ≡ b0 * 2 ^ 0 = omega arith in
    let p1 : bit_or ((b0 * 2 ^ 0) % 2 ^ 32) ((b1 * 2 ^ 8) % 2 ^ 32) ≡ b0 * 2 ^ 0 + b1 * 2 ^ 8 =
      ap (λ t. bit_or t ((b1 * 2 ^ 8) % 2 ^ 32)) p0
      ∙ or_step (2 ^ 32) (b0 * 2 ^ 0) b1 8 (omega arith) (omega arith) in
    let p2 : bit_or (bit_or ((b0 * 2 ^ 0) % 2 ^ 32) ((b1 * 2 ^ 8) % 2 ^ 32))
          ((b2 * 2 ^ 16) % 2 ^ 32)
        ≡ b0 * 2 ^ 0 + b1 * 2 ^ 8 + b2 * 2 ^ 16 =
      ap (λ t. bit_or t ((b2 * 2 ^ 16) % 2 ^ 32)) p1
      ∙ or_step (2 ^ 32) (b0 * 2 ^ 0 + b1 * 2 ^ 8) b2 16 (omega arith) (omega arith) in
    let p3 : bit_or
          (bit_or (bit_or ((b0 * 2 ^ 0) % 2 ^ 32) ((b1 * 2 ^ 8) % 2 ^ 32)) ((b2 * 2 ^ 16) % 2 ^ 32))
          ((b3 * 2 ^ 24) % 2 ^ 32)
        ≡ b0 * 2 ^ 0 + b1 * 2 ^ 8 + b2 * 2 ^ 16 + b3 * 2 ^ 24 =
      ap (λ t. bit_or t ((b3 * 2 ^ 24) % 2 ^ 32)) p2
      ∙ or_step (2 ^ 32) (b0 * 2 ^ 0 + b1 * 2 ^ 8 + b2 * 2 ^ 16) b3 24 (omega arith)
          (omega arith) in
    p3

or_bytes_8 :
    (b0 b1 b2 b3 b4 b5 b6 b7 : ℕ)
    → b0 < 256
    → b1 < 256
    → b2 < 256
    → b3 < 256
    → b4 < 256
    → b5 < 256
    → b6 < 256
    → b7 < 256
    → bit_or
        (bit_or
          (bit_or
            (bit_or
              (bit_or
                (bit_or
                  (bit_or ((b0 * 2 ^ 0) % 2 ^ 64) ((b1 * 2 ^ 8) % 2 ^ 64))
                  ((b2 * 2 ^ 16) % 2 ^ 64))
                ((b3 * 2 ^ 24) % 2 ^ 64))
              ((b4 * 2 ^ 32) % 2 ^ 64))
            ((b5 * 2 ^ 40) % 2 ^ 64))
          ((b6 * 2 ^ 48) % 2 ^ 64))
        ((b7 * 2 ^ 56) % 2 ^ 64)
      ≡ b0 * 2 ^ 0
        + b1 * 2 ^ 8
        + b2 * 2 ^ 16
        + b3 * 2 ^ 24
        + b4 * 2 ^ 32
        + b5 * 2 ^ 40
        + b6 * 2 ^ 48
        + b7 * 2 ^ 56
or_bytes_8 b0 b1 b2 b3 b4 b5 b6 b7 h0 h1 h2 h3 h4 h5 h6 h7 =
    let p0 : (b0 * 2 ^ 0) % 2 ^ 64 ≡ b0 * 2 ^ 0 = omega arith in
    let p1 : bit_or ((b0 * 2 ^ 0) % 2 ^ 64) ((b1 * 2 ^ 8) % 2 ^ 64) ≡ b0 * 2 ^ 0 + b1 * 2 ^ 8 =
      ap (λ t. bit_or t ((b1 * 2 ^ 8) % 2 ^ 64)) p0
      ∙ or_step (2 ^ 64) (b0 * 2 ^ 0) b1 8 (omega arith) (omega arith) in
    let p2 : bit_or (bit_or ((b0 * 2 ^ 0) % 2 ^ 64) ((b1 * 2 ^ 8) % 2 ^ 64))
          ((b2 * 2 ^ 16) % 2 ^ 64)
        ≡ b0 * 2 ^ 0 + b1 * 2 ^ 8 + b2 * 2 ^ 16 =
      ap (λ t. bit_or t ((b2 * 2 ^ 16) % 2 ^ 64)) p1
      ∙ or_step (2 ^ 64) (b0 * 2 ^ 0 + b1 * 2 ^ 8) b2 16 (omega arith) (omega arith) in
    let p3 : bit_or
          (bit_or (bit_or ((b0 * 2 ^ 0) % 2 ^ 64) ((b1 * 2 ^ 8) % 2 ^ 64)) ((b2 * 2 ^ 16) % 2 ^ 64))
          ((b3 * 2 ^ 24) % 2 ^ 64)
        ≡ b0 * 2 ^ 0 + b1 * 2 ^ 8 + b2 * 2 ^ 16 + b3 * 2 ^ 24 =
      ap (λ t. bit_or t ((b3 * 2 ^ 24) % 2 ^ 64)) p2
      ∙ or_step (2 ^ 64) (b0 * 2 ^ 0 + b1 * 2 ^ 8 + b2 * 2 ^ 16) b3 24 (omega arith)
          (omega arith) in
    let p4 : bit_or
          (bit_or
            (bit_or (bit_or ((b0 * 2 ^ 0) % 2 ^ 64) ((b1 * 2 ^ 8) % 2 ^ 64))
              ((b2 * 2 ^ 16) % 2 ^ 64))
            ((b3 * 2 ^ 24) % 2 ^ 64))
          ((b4 * 2 ^ 32) % 2 ^ 64)
        ≡ b0 * 2 ^ 0 + b1 * 2 ^ 8 + b2 * 2 ^ 16 + b3 * 2 ^ 24 + b4 * 2 ^ 32 =
      ap (λ t. bit_or t ((b4 * 2 ^ 32) % 2 ^ 64)) p3
      ∙ or_step (2 ^ 64) (b0 * 2 ^ 0 + b1 * 2 ^ 8 + b2 * 2 ^ 16 + b3 * 2 ^ 24) b4 32 (omega arith)
          (omega arith) in
    let p5 : bit_or
          (bit_or
            (bit_or
              (bit_or (bit_or ((b0 * 2 ^ 0) % 2 ^ 64) ((b1 * 2 ^ 8) % 2 ^ 64))
                ((b2 * 2 ^ 16) % 2 ^ 64))
              ((b3 * 2 ^ 24) % 2 ^ 64))
            ((b4 * 2 ^ 32) % 2 ^ 64))
          ((b5 * 2 ^ 40) % 2 ^ 64)
        ≡ b0 * 2 ^ 0 + b1 * 2 ^ 8 + b2 * 2 ^ 16 + b3 * 2 ^ 24 + b4 * 2 ^ 32 + b5 * 2 ^ 40 =
      ap (λ t. bit_or t ((b5 * 2 ^ 40) % 2 ^ 64)) p4
      ∙ or_step (2 ^ 64) (b0 * 2 ^ 0 + b1 * 2 ^ 8 + b2 * 2 ^ 16 + b3 * 2 ^ 24 + b4 * 2 ^ 32) b5 40
          (omega arith) (omega arith) in
    let p6 : bit_or
          (bit_or
            (bit_or
              (bit_or
                (bit_or (bit_or ((b0 * 2 ^ 0) % 2 ^ 64) ((b1 * 2 ^ 8) % 2 ^ 64))
                  ((b2 * 2 ^ 16) % 2 ^ 64))
                ((b3 * 2 ^ 24) % 2 ^ 64))
              ((b4 * 2 ^ 32) % 2 ^ 64))
            ((b5 * 2 ^ 40) % 2 ^ 64))
          ((b6 * 2 ^ 48) % 2 ^ 64)
        ≡ b0 * 2 ^ 0
          + b1 * 2 ^ 8
          + b2 * 2 ^ 16
          + b3 * 2 ^ 24
          + b4 * 2 ^ 32
          + b5 * 2 ^ 40
          + b6 * 2 ^ 48 =
      ap (λ t. bit_or t ((b6 * 2 ^ 48) % 2 ^ 64)) p5
      ∙ or_step (2 ^ 64)
          (b0 * 2 ^ 0 + b1 * 2 ^ 8 + b2 * 2 ^ 16 + b3 * 2 ^ 24 + b4 * 2 ^ 32 + b5 * 2 ^ 40) b6 48
          (omega arith) (omega arith) in
    let p7 : bit_or
          (bit_or
            (bit_or
              (bit_or
                (bit_or
                  (bit_or (bit_or ((b0 * 2 ^ 0) % 2 ^ 64) ((b1 * 2 ^ 8) % 2 ^ 64))
                    ((b2 * 2 ^ 16) % 2 ^ 64))
                  ((b3 * 2 ^ 24) % 2 ^ 64))
                ((b4 * 2 ^ 32) % 2 ^ 64))
              ((b5 * 2 ^ 40) % 2 ^ 64))
            ((b6 * 2 ^ 48) % 2 ^ 64))
          ((b7 * 2 ^ 56) % 2 ^ 64)
        ≡ b0 * 2 ^ 0
          + b1 * 2 ^ 8
          + b2 * 2 ^ 16
          + b3 * 2 ^ 24
          + b4 * 2 ^ 32
          + b5 * 2 ^ 40
          + b6 * 2 ^ 48
          + b7 * 2 ^ 56 =
      ap (λ t. bit_or t ((b7 * 2 ^ 56) % 2 ^ 64)) p6
      ∙ or_step (2 ^ 64)
          (b0 * 2 ^ 0
            + b1 * 2 ^ 8
            + b2 * 2 ^ 16
            + b3 * 2 ^ 24
            + b4 * 2 ^ 32
            + b5 * 2 ^ 40
            + b6 * 2 ^ 48)
          b7 56 (omega arith) (omega arith) in
    p7

word32-store : (v : ℕ) → v < 2 ^ 32 → word32 (store 4 v) ≡ v
unfolding word32 store
word32-store v h =
    or_bytes_4 (v % 256) (v / 256 % 256) (v / 256 / 256 % 256) (v / 256 / 256 / 256 % 256)
      (omega arith) (omega arith) (omega arith) (omega arith)
    ∙ omega arith

pub pb_decode_fixed32-store :
    (v n : ℕ) (rest : List ℕ) (e : Option ErrorMessage)
    → v < 2 ^ 32
    → 4 ≤ n
    → pb_decode_fixed32 (reading (store 4 v ++ rest) n e) ≡ (some v, reading rest (n - 4) e)
unfolding pb_decode_fixed32 store
pb_decode_fixed32-store v n rest e hv hn =
    ap (λ r. after r (λ bytes. return (word32 bytes))) (pb_read-prefix (store 4 v) rest n e hn)
    ∙ ap (λ (t : ℕ). (some t, reading rest (n - 4) e)) (word32-store v hv)

word64-store : (v : ℕ) → v < 2 ^ 64 → word64 (store 8 v) ≡ v
unfolding word64 store
word64-store v h =
    or_bytes_8 (v % 256) (v / 256 % 256) (v / 256 / 256 % 256) (v / 256 / 256 / 256 % 256)
      (v / 256 / 256 / 256 / 256 % 256) (v / 256 / 256 / 256 / 256 / 256 % 256)
      (v / 256 / 256 / 256 / 256 / 256 / 256 % 256)
      (v / 256 / 256 / 256 / 256 / 256 / 256 / 256 % 256) (omega arith) (omega arith) (omega arith)
      (omega arith) (omega arith) (omega arith) (omega arith) (omega arith)
    ∙ omega arith

pub pb_decode_fixed64-store :
    (v n : ℕ) (rest : List ℕ) (e : Option ErrorMessage)
    → v < 2 ^ 64
    → 8 ≤ n
    → pb_decode_fixed64 (reading (store 8 v ++ rest) n e) ≡ (some v, reading rest (n - 8) e)
unfolding pb_decode_fixed64 store
pb_decode_fixed64-store v n rest e hv hn =
    ap (λ r. after r (λ bytes. return (word64 bytes))) (pb_read-prefix (store 8 v) rest n e hn)
    ∙ ap (λ (t : ℕ). (some t, reading rest (n - 8) e)) (word64-store v hv)

-- Zigzag is undone: every `int64_t` pattern is read back.
unzigzag :
    (v : ℕ)
    → v < 2 ^ 64
    → (if bit_and (zigzag v) 1 == 0 then zigzag v / 2 else 2 ^ 64 - 1 - zigzag v / 2) ≡ v
unzigzag v h = ground (arith, bit_and-1 (zigzag v))

pub zigzag-lt : (v : ℕ) → v < 2 ^ 64 → zigzag v < 2 ^ 64
zigzag-lt v h = ground arith

pub pb_decode_svarint-zigzag :
    {v : ℕ} {bs : List ℕ} (n : ℕ) (rest : List ℕ) (e : Option ErrorMessage)
    → IsVarint (zigzag v) bs
    → v < 2 ^ 64
    → length bs ≤ n
    → pb_decode_svarint (reading (bs ++ rest) n e) ≡ (some v, reading rest (n - length bs) e)
unfolding pb_decode_svarint
pb_decode_svarint-zigzag {v} {bs} n rest e w hv hn =
    ap
      (λ r.
        after r
          (λ value. return (if bit_and value 1 == 0 then value / 2 else 2 ^ 64 - 1 - value / 2)))
      (pb_decode_varint-IsVarint n rest e w (zigzag-lt v hv) hn)
    ∙ ap (λ (t : ℕ). (some t, reading rest (n - length bs) e)) (unzigzag v hv)
