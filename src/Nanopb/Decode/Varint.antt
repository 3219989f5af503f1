-- ===== src/Nanopb/Decode/Varint.antt =====
-- Reading a varint back: `pb_decode_varint` and `pb_decode_varint32` of
-- CardPang/Pods/nanopb/pb_decode.c on the varint of a value.
use card_pang.Common.{
  ℕ, zero, suc, ◌+◌, ◌-◌, ◌*◌, ◌/◌, ◌%◌, ◌^◌, ◌≤◌, ◌<◌, ◌≡◌, ap, subst, ◌∙◌, true, false, Option,
  some, List, ◌∷◌, ◌++◌, length, arith, leb, leb→le, Bool-cases, inl, inr,
}
use card_pang.Common.Bits.{bit_and-0x70, bit_and-0x7f, bit_and-0x80, bit_or-shifted}
use card_pang.Nanopb.Types.{ErrorMessage}
use card_pang.Nanopb.Encode.Varint.{IsVarint, last, more}
use card_pang.Nanopb.Input.Bounds.{reading, pb_readbyte-cons}
use card_pang.Nanopb.Decode.{
  next_bitpos, continues, loop32, pb_decode_varint32, pb_decode_varint32_eof, loop64,
  pb_decode_varint,
}
use Prim.Native.Nat.{bit_and, bit_or}
use native.Mathlib.Nat.{pow-le-pow_right, mod-eq_of_lt, div-add-mod}
use native.Mathlib.Numerals.{towards_suc}

pub continues_last : (b : ℕ) → b < 128 → continues b ≡ false
continues_last b h = ground (arith, bit_and-0x80 b)

pub continues_more : (g : ℕ) → g < 128 → continues (g + 128) ≡ true
continues_more g h = ground (arith, bit_and-0x80 (g + 128))

-- The seven bits of a byte land above those that have been read.
group-bit_or :
    (m acc b bitpos : ℕ)
    → acc < 2 ^ bitpos
    → acc + b % 128 * 2 ^ bitpos < m
    → bit_or acc ((bit_and b 0x7f * 2 ^ bitpos) % m) ≡ acc + b % 128 * 2 ^ bitpos
group-bit_or m acc b bitpos h fits =
    ap (λ g. bit_or acc (g * 2 ^ bitpos % m)) (bit_and-0x7f b)
    ∙ ap (bit_or acc) (mod-eq_of_lt fits')
    ∙ bit_or-shifted bitpos acc (b % 128) h
  where
    fits' : b % 128 * 2 ^ bitpos < m
    fits' = omega arith

group_more :
    (m acc g bitpos : ℕ)
    → g < 128
    → acc < 2 ^ bitpos
    → acc + g * 2 ^ bitpos < m
    → bit_or acc ((bit_and (g + 128) 0x7f * 2 ^ bitpos) % m) ≡ acc + g * 2 ^ bitpos
group_more m acc g bitpos hg h fits =
    let low_bits : (g + 128) % 128 ≡ g = omega arith in
    subst
      (λ t.
        acc + t * 2 ^ bitpos < m
        → bit_or acc ((bit_and (g + 128) 0x7f * 2 ^ bitpos) % m) ≡ acc + t * 2 ^ bitpos)
      low_bits (group-bit_or m acc (g + 128) bitpos h) fits

pow_seven : (s : ℕ) → 2 ^ (s + 7) ≡ 128 * 2 ^ s
pow_seven s = simp towards_suc (omega arith)

-- The lowest group and the others, both from bit `s` on.
split_groups : (v s : ℕ) → v * 2 ^ s ≡ v % 128 * 2 ^ s + v / 128 * 2 ^ (s + 7)
split_groups v s = omega (
  arith,
  ap (λ (t : ℕ). t * 2 ^ s) (div-add-mod v 128),
  ap (λ (t : ℕ). v / 128 * t) (pow_seven s),
)

-- A positive value that starts at bit `s` and fits leaves `s` below the width.
bitpos-lt : (w s v : ℕ) → 0 < v → v * 2 ^ s < 2 ^ w → s < w
bitpos-lt w s v h fits = elim (Bool-cases (leb w s)) [
  | inl big ↦
      let pow_le : 2 ^ w ≤ 2 ^ s = pow-le-pow_right {n = 2} (omega arith) (leb→le w s big) in
      let pos_le : 1 * 2 ^ s ≤ v * 2 ^ s = grind arith in absurd (omega arith)
  | inr small ↦ ground arith
]

room_above : (acc g s : ℕ) → g < 128 → acc < 2 ^ s → acc + g * 2 ^ s < 2 ^ (s + 7)
room_above acc g s hg ha =
    let group_le : g * 2 ^ s ≤ 127 * 2 ^ s = grind arith in omega (arith, pow_seven s)

-- One round of `pb_decode_varint` on a last byte and on a byte with more to come.
loop64-last :
    (f acc bitpos g n : ℕ) (rest : List ℕ) (e : Option ErrorMessage)
    → g < 128
    → bitpos < 64
    → acc < 2 ^ bitpos
    → acc + g * 2 ^ bitpos < 2 ^ 64
    → 0 < n
    → loop64 (suc f) acc bitpos (reading (g ∷ rest) n e)
      ≡ (some (acc + g * 2 ^ bitpos), reading rest (n - 1) e)
unfolding loop64
loop64-last f acc bitpos g n rest e hg hs ha fits hn = ground (
  arith,
  pb_readbyte-cons g rest n e,
  continues_last g,
  group-bit_or (2 ^ 64) acc g bitpos ha,
  mod-eq_of_lt hg,
)

no_wrap : (bitpos : ℕ) → bitpos < 64 → next_bitpos bitpos ≡ bitpos + 7
no_wrap bitpos h = omega arith

loop64-more :
    (f acc bitpos g n : ℕ) (rest : List ℕ) (e : Option ErrorMessage)
    → g < 128
    → bitpos < 64
    → acc < 2 ^ bitpos
    → acc + g * 2 ^ bitpos < 2 ^ 64
    → 0 < n
    → loop64 (suc f) acc bitpos (reading ((g + 128) ∷ rest) n e)
      ≡ loop64 f (acc + g * 2 ^ bitpos) (bitpos + 7) (reading rest (n - 1) e)
unfolding loop64
loop64-more f acc bitpos g n rest e hg hs ha fits hn = ground (
  arith,
  pb_readbyte-cons (g + 128) rest n e,
  continues_more g,
  group_more (2 ^ 64) acc g bitpos hg ha fits,
  no_wrap bitpos hs,
)

-- Reading on from bit `bitpos`, the varint of `v` adds `v` there and leaves what follows it.
loop64-IsVarint :
    (f : ℕ) {v : ℕ} {bs : List ℕ} (acc bitpos n : ℕ) (rest : List ℕ) (e : Option ErrorMessage)
    → IsVarint v bs
    → bitpos < 64
    → 64 < bitpos + 7 * f
    → acc < 2 ^ bitpos
    → acc + v * 2 ^ bitpos < 2 ^ 64
    → length bs ≤ n
    → loop64 f acc bitpos (reading (bs ++ rest) n e)
      ≡ (some (acc + v * 2 ^ bitpos), reading rest (n - length bs) e)
loop64-IsVarint zero acc bitpos n rest e w hs hf ha fits hn = absurd (omega arith)
loop64-IsVarint (suc f) acc bitpos n rest e (last {v} h) hs hf ha fits hn =
    loop64-last f acc bitpos v n rest e h hs ha fits hn
loop64-IsVarint (suc f) acc bitpos n rest e (more {v} {bs} h w) hs hf ha fits hn =
    let fits_group : acc + v % 128 * 2 ^ bitpos < 2 ^ 64 = omega (arith, split_groups v bitpos) in
    let fits_rest : acc + v % 128 * 2 ^ bitpos + v / 128 * 2 ^ (bitpos + 7) < 2 ^ 64 =
      omega (arith, split_groups v bitpos) in
    let below : bitpos + 7 < 64 = bitpos-lt 64 (bitpos + 7) (v / 128) (omega arith) (omega arith) in
    let room : acc + v % 128 * 2 ^ bitpos < 2 ^ (bitpos + 7) =
      room_above acc (v % 128) bitpos (omega arith) ha in
    loop64-more f acc bitpos (v % 128) n (bs ++ rest) e (omega arith) hs ha fits_group (omega arith)
    ∙ loop64-IsVarint f (acc + v % 128 * 2 ^ bitpos) (bitpos + 7) (n - 1) rest e w below
        (omega arith) room fits_rest (omega arith)
    ∙ ap (λ (t : ℕ). (some t, reading rest (n - 1 - length bs) e))
        (omega (arith, split_groups v bitpos))
    ∙ ap (λ (m : ℕ). (some (acc + v * 2 ^ bitpos), reading rest m e)) (omega arith)

-- `pb_decode_varint` reads back every `uint64_t`.
pub pb_decode_varint-IsVarint :
    {v : ℕ} {bs : List ℕ} (n : ℕ) (rest : List ℕ) (e : Option ErrorMessage)
    → IsVarint v bs
    → v < 2 ^ 64
    → length bs ≤ n
    → pb_decode_varint (reading (bs ++ rest) n e) ≡ (some v, reading rest (n - length bs) e)
unfolding pb_decode_varint
pb_decode_varint-IsVarint {v} {bs} n rest e w h hn =
    loop64-IsVarint 11 0 0 n rest e w (omega arith) (omega arith) (omega arith) (omega arith) hn
    ∙ ap (λ (t : ℕ). (some t, reading rest (n - length bs) e)) (omega arith)

-- One round of `pb_decode_varint32_eof`, on a last byte and on another.
loop32-last :
    (f acc bitpos g n : ℕ) (rest : List ℕ) (e : Option ErrorMessage)
    → g < 128
    → bitpos < 32
    → acc < 2 ^ bitpos
    → acc + g * 2 ^ bitpos < 2 ^ 32
    → 0 < n
    → loop32 (suc f) acc bitpos (reading (g ∷ rest) n e)
      ≡ (some (acc + g * 2 ^ bitpos), reading rest (n - 1) e)
unfolding loop32
loop32-last f acc bitpos g n rest e hg hs ha fits hn = ground (
  arith,
  pb_readbyte-cons g rest n e,
  continues_last g,
  group-bit_or (2 ^ 32) acc g bitpos ha,
  mod-eq_of_lt hg,
  no_wrap bitpos,
  top_bits bitpos g,
)
  where
    top_bits : (s b : ℕ) → b * 2 ^ s < 2 ^ 32 → s ≡ 28 → bit_and b 0x70 ≡ 0
    top_bits s b q eq = bit_and-0x70 b (small (subst (λ t. b * 2 ^ t < 2 ^ 32) eq q))
      where
        small : b * 2 ^ 28 < 2 ^ 32 → b < 16
        small k = omega arith

loop32-more :
    (f acc bitpos g n : ℕ) (rest : List ℕ) (e : Option ErrorMessage)
    → g < 128
    → bitpos < 32
    → acc < 2 ^ bitpos
    → acc + g * 2 ^ bitpos < 2 ^ 32
    → 0 < n
    → loop32 (suc f) acc bitpos (reading ((g + 128) ∷ rest) n e)
      ≡ loop32 f (acc + g * 2 ^ bitpos) (bitpos + 7) (reading rest (n - 1) e)
unfolding loop32
loop32-more f acc bitpos g n rest e hg hs ha fits hn = ground (
  arith,
  pb_readbyte-cons (g + 128) rest n e,
  continues_more g,
  group_more (2 ^ 32) acc g bitpos hg ha fits,
  no_wrap bitpos,
)

loop32-IsVarint :
    (f : ℕ) {v : ℕ} {bs : List ℕ} (acc bitpos n : ℕ) (rest : List ℕ) (e : Option ErrorMessage)
    → IsVarint v bs
    → bitpos < 32
    → acc < 2 ^ bitpos
    → acc + v * 2 ^ bitpos < 2 ^ 32
    → length bs ≤ f
    → length bs ≤ n
    → loop32 f acc bitpos (reading (bs ++ rest) n e)
      ≡ (some (acc + v * 2 ^ bitpos), reading rest (n - length bs) e)
loop32-IsVarint zero acc bitpos n rest e (last h) hs ha fits hf hn = absurd (omega arith)
loop32-IsVarint zero acc bitpos n rest e (more h w) hs ha fits hf hn = absurd (omega arith)
loop32-IsVarint (suc f) acc bitpos n rest e (last {v} h) hs ha fits hf hn =
    loop32-last f acc bitpos v n rest e h hs ha fits hn
loop32-IsVarint (suc f) acc bitpos n rest e (more {v} {bs} h w) hs ha fits hf hn =
    let fits_group : acc + v % 128 * 2 ^ bitpos < 2 ^ 32 = omega (arith, split_groups v bitpos) in
    let fits_rest : acc + v % 128 * 2 ^ bitpos + v / 128 * 2 ^ (bitpos + 7) < 2 ^ 32 =
      omega (arith, split_groups v bitpos) in
    let below : bitpos + 7 < 32 = bitpos-lt 32 (bitpos + 7) (v / 128) (omega arith) (omega arith) in
    let room : acc + v % 128 * 2 ^ bitpos < 2 ^ (bitpos + 7) =
      room_above acc (v % 128) bitpos (omega arith) ha in
    loop32-more f acc bitpos (v % 128) n (bs ++ rest) e (omega arith) hs ha fits_group (omega arith)
    ∙ loop32-IsVarint f (acc + v % 128 * 2 ^ bitpos) (bitpos + 7) (n - 1) rest e w below room
        fits_rest (omega arith) (omega arith)
    ∙ ap (λ (t : ℕ). (some t, reading rest (n - 1 - length bs) e))
        (omega (arith, split_groups v bitpos))
    ∙ ap (λ (m : ℕ). (some (acc + v * 2 ^ bitpos), reading rest m e)) (omega arith)

-- `pb_decode_varint32_eof` reads back every `uint32_t`, and does not set `*eof`.
pub pb_decode_varint32_eof-IsVarint :
    {v : ℕ} {bs : List ℕ} (n : ℕ) (rest : List ℕ) (e : Option ErrorMessage)
    → IsVarint v bs
    → v < 2 ^ 32
    → length bs ≤ n
    → pb_decode_varint32_eof (reading (bs ++ rest) n e)
      ≡ (some v, false, reading rest (n - length bs) e)
unfolding pb_decode_varint32_eof
pb_decode_varint32_eof-IsVarint n rest e (last {v} h) hv hn =
    ground (arith, pb_readbyte-cons v rest n e, continues_last v)
pb_decode_varint32_eof-IsVarint n rest e (more {v} {bs} h w) hv hn = ground (
  arith,
  pb_readbyte-cons (v % 128 + 128) (bs ++ rest) n e,
  continues_more (v % 128),
  bit_and-0x7f (v % 128 + 128),
  loop32-IsVarint (suc (n - 1)) (v % 128) 7 (n - 1) rest e w,
)

pub pb_decode_varint32-IsVarint :
    {v : ℕ} {bs : List ℕ} (n : ℕ) (rest : List ℕ) (e : Option ErrorMessage)
    → IsVarint v bs
    → v < 2 ^ 32
    → length bs ≤ n
    → pb_decode_varint32 (reading (bs ++ rest) n e) ≡ (some v, reading rest (n - length bs) e)
unfolding pb_decode_varint32
pb_decode_varint32-IsVarint n rest e w hv hn = rw (pb_decode_varint32_eof-IsVarint n rest e w hv hn)
