-- ===== src/Nanopb/Encode/Varint.antt =====
-- The varint format, and what `pb_encode_varint` of CardPang/Pods/nanopb/pb_encode.c writes.
use card_pang.Common.{
  ℕ, zero, suc, ◌+◌, ◌/◌, ◌%◌, ◌^◌, ◌≤◌, ◌<◌, ◌≡◌, refl, ap, sym, ◌∙◌, List, [], ◌∷◌, inl, inr,
  length, All, leb, leb→le, arith, lt_wf, Bool-cases,
}
use card_pang.Common.Bits.{bit_and-0x7f, bit_or-0x80}
use card_pang.Nanopb.Types.{u8}
use card_pang.Nanopb.Encode.{shift_lt, fill_buffer, clear_last, varint_buffer}
use Prim.Native.Nat.{bit_and, bit_or}
use mathlib.Core.Logic.{dif_pos}
use mathlib.Core.WellFounded.{Acc}
use native.Mathlib.Bridge.{le_prop}
use native.Mathlib.Nat.{mod-eq_of_lt, pow-suc}
use mathlib.Core.Path.{subst}
use native.Mathlib.Decide.{dec_lt}

-- Seven bits a byte, lowest first, and the top bit on every byte but the last.
pub data IsVarint : ℕ → List ℕ → Type 0 where
  last : {v : ℕ} → v < 128 → IsVarint v (v ∷ [])
  more : {v : ℕ} {bs : List ℕ} → 128 ≤ v → IsVarint (v / 128) bs → IsVarint v ((v % 128 + 128) ∷ bs)

group_byte : (v : ℕ) → u8 (bit_or (bit_and v 0x7f) 0x80) ≡ v % 128 + 128
group_byte v =
    omega
      (arith, ap (λ (g : ℕ). bit_or g 0x80) (bit_and-0x7f v), bit_or-0x80 (v % 128) (omega arith))

fill_buffer-pos :
    (v : ℕ) (smaller : (m : ℕ) → m < v → Acc ◌<◌ m) (h : 0 < v)
    → fill_buffer v (Acc.intro v smaller)
      ≡ (v % 128 + 128) ∷ fill_buffer (v / 128) (smaller (v / 128) (shift_lt v h))
unfolding fill_buffer
fill_buffer-pos v smaller h =
    dif_pos (dec_lt 0 v) le_prop h _ _
    ∙ ap (λ (g : ℕ). g ∷ fill_buffer (v / 128) (smaller (v / 128) (shift_lt v h))) (group_byte v)

fill_buffer-zero : (v : ℕ) (w : Acc ◌<◌ v) → v ≡ 0 → fill_buffer v w ≡ []
unfolding fill_buffer
fill_buffer-zero v (Acc.intro _ smaller) e = ground arith

-- What is kept of a buffer whose first byte stands for the group `g`.
clear_last-single : (g : ℕ) (bs : List ℕ) → g < 128 → bs ≡ [] → clear_last ((g + 128) ∷ bs) ≡ g ∷ []
unfolding clear_last
clear_last-single g [] h e = ap (λ (b : ℕ). b ∷ []) (omega (arith, bit_and-0x7f (g + 128)))
clear_last-single g (b ∷ bs) h e = cc

clear_last-cons :
    (b : ℕ) (bs : List ℕ) {v : ℕ}
    → IsVarint v (clear_last bs)
    → clear_last (b ∷ bs) ≡ b ∷ clear_last bs
unfolding clear_last
clear_last-cons b [] h = absurd (no_bytes h)
  where
    no_bytes : {u : ℕ} → IsVarint u [] → ⊥
    no_bytes h = elim h [ ]
clear_last-cons b (c ∷ bs) h = refl

last_group : (v : ℕ) → v < 128 → IsVarint v ((v % 128) ∷ [])
last_group v h = subst (λ g. IsVarint v (g ∷ [])) (sym (mod-eq_of_lt h)) (last h)

fill_buffer-IsVarint : (v : ℕ) (w : Acc ◌<◌ v) → 0 < v → IsVarint v (clear_last (fill_buffer v w))
fill_buffer-IsVarint v (Acc.intro _ smaller) h = elim (dec_lt 0 (v / 128)) [
  | yes p ↦
      let rest = fill_buffer-IsVarint (v / 128) (smaller (v / 128) (shift_lt v h)) p in
      rw (fill_buffer-pos v smaller h, clear_last-cons (v % 128 + 128) _ rest)
        (more (omega arith) rest)
  | no p ↦
      rw
        (
          fill_buffer-pos v smaller h,
          clear_last-single (v % 128) _ (omega arith)
              (fill_buffer-zero (v / 128) (smaller (v / 128) (shift_lt v h)) (omega arith)),
        )
        (last_group v (omega arith))
]

-- `pb_encode_varint` writes the varint of every value.
pub varint_buffer-IsVarint : (v : ℕ) → IsVarint v (varint_buffer v)
unfolding varint_buffer
varint_buffer-IsVarint v = elim (Bool-cases (leb v 0x7f)) [
  | inl small ↦ rw small (small_byte (leb→le v 0x7f small))
  | inr large ↦ rw large (fill_buffer-IsVarint v (lt_wf.apply v) (ground arith))
]
  where
    small_byte : v ≤ 0x7f → IsVarint v (u8 v ∷ [])
    small_byte h = subst (λ g. IsVarint v (g ∷ [])) (omega arith) (last (omega arith))

-- A value below 128^k takes at most k bytes.
pub IsVarint-length :
    {v : ℕ} {bs : List ℕ} (k : ℕ) → IsVarint v bs → v < 128 ^ suc k → length bs ≤ suc k
IsVarint-length k (last h) b = omega arith
IsVarint-length zero (more h r) b = absurd (omega arith)
IsVarint-length {v} (suc k) (more h r) b =
    omega (arith, IsVarint-length k r (omega (arith, pow-suc 128 (suc k))))

-- The buffer of ten bytes holds the varint of every `uint64_t`.
pub length-varint_buffer :
    (v : ℕ) → v < 2 ^ 64 → (1 ≤ length (varint_buffer v)) × (length (varint_buffer v) ≤ 10)
length-varint_buffer v h = (
  some_byte (varint_buffer-IsVarint v),
  IsVarint-length 9 (varint_buffer-IsVarint v) (omega arith),
)
  where
    some_byte : {bs : List ℕ} → IsVarint v bs → 1 ≤ length bs
    some_byte (last q) = omega arith
    some_byte (more q r) = omega arith

pub IsVarint-bytes : {v : ℕ} {bs : List ℕ} → IsVarint v bs → All (λ b. b < 256) bs
IsVarint-bytes (last h) = (omega arith, tt)
IsVarint-bytes (more h r) = (omega arith, IsVarint-bytes r)
