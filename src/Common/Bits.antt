-- ===== src/Common/Bits.antt =====
-- Laws of the bit operations on native numbers, from the digit recursion that they stand for.
use Prim.Native.Nat.{
  ℕ, zero, suc, ◌+◌, ◌*◌, ◌/◌, ◌%◌, ◌^◌, ◌≤◌, ◌<◌, min, max, bit_and, bit_or, digits,
  bit_and-bitwise, bit_or-bitwise,
}
use mathlib.Core.Path.{◌≡◌, refl, ap, ◌∙◌}
use native.Mathlib.Nat.{pow-suc, div-div-eq-div-mul}
use native.Mathlib.Omega.{arith}

module _ (z : ℕ → ℕ) (f : ℕ → ℕ → ℕ) where
  -- The rounds of the digit recursion, once there are enough for the number, do not matter.
  enough_rounds : (x y m n : ℕ) → x ≤ m → x ≤ n → digits z f m x y ≡ digits z f n x y
  enough_rounds zero y zero zero hm hn = refl
  enough_rounds zero y zero (suc n) hm hn = refl
  enough_rounds zero y (suc m) zero hm hn = refl
  enough_rounds zero y (suc m) (suc n) hm hn = refl
  enough_rounds (suc x) y zero n hm hn = absurd (omega arith)
  enough_rounds (suc x) y (suc m) zero hm hn = absurd (omega arith)
  enough_rounds (suc x) y (suc m) (suc n) hm hn =
      let half = suc x / 2 in
      omega (arith, enough_rounds half (y / 2) m n (omega arith) (omega arith))

  lowest_digit :
      (x y : ℕ)
      → digits z f (suc x) (suc x) y
        ≡ f (suc x % 2) (y % 2) + 2 * digits z f (suc x / 2) (suc x / 2) (y / 2)
  lowest_digit x y =
      let half = suc x / 2 in
      omega (arith, enough_rounds half (y / 2) x half (omega arith) (omega arith))

pub zero-bit_or : (y : ℕ) → bit_or 0 y ≡ y
zero-bit_or y = bit_or-bitwise 0 y

zero-bit_and : (y : ℕ) → bit_and 0 y ≡ 0
zero-bit_and y = bit_and-bitwise 0 y

-- The lowest digit and the rest.
pub bit_or-half : (x y : ℕ) → bit_or x y ≡ max (x % 2) (y % 2) + 2 * bit_or (x / 2) (y / 2)
bit_or-half zero y = omega (arith, zero-bit_or (y / 2), zero-bit_or y)
bit_or-half (suc x) y =
    let whole = bit_or-bitwise (suc x) y in
    let half = bit_or-bitwise (suc x / 2) (y / 2) in
    omega (arith, lowest_digit (λ c. c) max x y, half, whole)

bit_and-half : (x y : ℕ) → bit_and x y ≡ min (x % 2) (y % 2) + 2 * bit_and (x / 2) (y / 2)
bit_and-half zero y = omega (arith, zero-bit_and (y / 2), zero-bit_and y)
bit_and-half (suc x) y =
    let whole = bit_and-bitwise (suc x) y in
    let half = bit_and-bitwise (suc x / 2) (y / 2) in
    omega (arith, lowest_digit (λ _. zero) min x y, half, whole)

no_bits : (m x : ℕ) → x ≤ m → bit_and x 0 ≡ 0
no_bits m zero hm = zero-bit_and 0
no_bits (suc m) (suc x) hm =
    let rest = no_bits m (suc x / 2) (omega arith) in omega (arith, rest, bit_and-half (suc x) 0)
no_bits zero (suc x) hm = absurd (omega arith)

bit_or_comm_fuel : (n a b : ℕ) → a + b ≤ n → bit_or a b ≡ bit_or b a
bit_or_comm_fuel zero a b h = ground (arith, zero-bit_or 0)
bit_or_comm_fuel (suc n) a b h =
    ground (arith, bit_or-half a b, bit_or-half b a, bit_or_comm_fuel n (a / 2) (b / 2))

pub bit_or_comm : (a b : ℕ) → bit_or a b ≡ bit_or b a
bit_or_comm a b = bit_or_comm_fuel (a + b) a b (omega arith)

-- The mask of `k` ones, and the number that it keeps.
abbrev ones : ℕ → ℕ
ones zero = 0
ones (suc k) = ones k * 2 + 1

abbrev low : ℕ → ℕ → ℕ
low zero a = 0
low (suc k) a = low k (a / 2) * 2 + a % 2

half_odd : (b : ℕ) → (b * 2 + 1) / 2 ≡ b
half_odd b = omega arith

half_even : (b : ℕ) → b * 2 / 2 ≡ b
half_even b = omega arith

bit_and-ones : (k a : ℕ) → bit_and a (ones k) ≡ low k a
bit_and-ones zero a = no_bits a a (omega arith)
bit_and-ones (suc k) a = omega (
  arith,
  bit_and-half a (ones k * 2 + 1),
  ap (bit_and (a / 2)) (half_odd (ones k)),
  bit_and-ones k (a / 2),
)

-- `x & 1`, `x & 7`, `x & 0x7F` and `x & 0xFF`.
pub bit_and-1 : (a : ℕ) → bit_and a 1 ≡ a % 2
bit_and-1 a = omega (arith, bit_and-ones 1 a)

pub bit_and-7 : (a : ℕ) → bit_and a 7 ≡ a % 8
bit_and-7 a = omega (arith, bit_and-ones 3 a)

pub bit_and-0x7f : (a : ℕ) → bit_and a 0x7f ≡ a % 128
bit_and-0x7f a = omega (arith, bit_and-ones 7 a)

pub bit_and-0xff : (a : ℕ) → bit_and a 0xff ≡ a % 256
bit_and-0xff a = omega (arith, bit_and-ones 8 a)

-- A mask that is even reads the half of the number.
bit_and-even : (x m : ℕ) → bit_and x (m * 2) ≡ 2 * bit_and (x / 2) m
bit_and-even x m = omega (arith, bit_and-half x (m * 2), ap (bit_and (x / 2)) (half_even m))

abbrev shifted : ℕ → ℕ → ℕ
shifted zero m = m
shifted (suc k) m = shifted k m * 2

bit_and-shifted : (k x m : ℕ) → bit_and x (shifted k m) ≡ bit_and (x / 2 ^ k) m * 2 ^ k
bit_and-shifted zero x m = omega (arith, ap (λ t. bit_and t m) (whole x))
  where
    whole : (t : ℕ) → t ≡ t / 2 ^ 0
    whole t = omega arith
bit_and-shifted (suc k) x m = omega (
  arith,
  bit_and-even x (shifted k m),
  bit_and-shifted k (x / 2) m,
  ap (λ t. bit_and t m * 2 ^ k) (div-div-eq-div-mul x 2 (2 ^ k)),
  ap (λ t. bit_and (x / t) m * 2 ^ k) (twice (2 ^ k) (2 ^ suc k) (pow-suc 2 k)),
  ap (λ t. bit_and (x / 2 ^ suc k) m * t) (pow-suc 2 k),
)
  where
    twice : (a b : ℕ) → b ≡ a * 2 → 2 * a ≡ b
    twice a b e = omega arith

-- `x & 0x80` on a byte.
pub bit_and-0x80 : (b : ℕ) → b < 256 → bit_and b 0x80 ≡ b / 128 * 128
bit_and-0x80 b h =
    let kept : b / 128 % 2 ≡ b / 128 = omega arith in
    bit_and-shifted 7 b 1 ∙ ap (λ t. t * 128) (bit_and-1 (b / 128) ∙ kept)

-- `x & 0x70` where only the four low bits are set.
pub bit_and-0x70 : (b : ℕ) → b < 16 → bit_and b 0x70 ≡ 0
bit_and-0x70 b h =
    let gone : b / 16 % 8 ≡ 0 = omega arith in
    bit_and-shifted 4 b 7 ∙ ap (λ t. t * 16) (bit_and-7 (b / 16) ∙ gone)

-- Bits that do not overlap add up.
pub bit_or-shifted : (s a g : ℕ) → a < 2 ^ s → bit_or a (g * 2 ^ s) ≡ a + g * 2 ^ s
bit_or-shifted zero a g h =
    omega (arith, zero-bit_or (g * 2 ^ 0), ap (λ (c : ℕ). bit_or c (g * 2 ^ 0)) (zero_of_lt a h))
  where
    zero_of_lt : (c : ℕ) → c < 2 ^ 0 → c ≡ 0
    zero_of_lt c q = omega arith
bit_or-shifted (suc s) a g h = omega (
  arith,
  bit_or-half a (g * 2 ^ suc s),
  ap (bit_or (a / 2)) (half_shifted),
  bit_or-shifted s (a / 2) g (omega (arith, pow-suc 2 s)),
  even_shifted,
  twice,
)
  where
    twice : g * 2 ^ suc s ≡ g * 2 ^ s * 2
    twice = omega (arith, ap (λ (t : ℕ). g * t) (pow-suc 2 s))

    half_shifted : g * 2 ^ suc s / 2 ≡ g * 2 ^ s
    half_shifted = omega (arith, twice)

    even_shifted : g * 2 ^ suc s % 2 ≡ 0
    even_shifted = omega (arith, twice)

-- `n << 3 | w` for three bits `w`.
pub bit_or-tag : (n w : ℕ) → w < 8 → bit_or (n * 8) w ≡ n * 8 + w
bit_or-tag n w h = omega (arith, bit_or_comm (n * 8) w, bit_or-shifted 3 w n h)

-- `x | 0x80` on seven bits.
pub bit_or-0x80 : (a : ℕ) → a < 128 → bit_or a 0x80 ≡ a + 128
bit_or-0x80 a h = omega (arith, bit_or-shifted 7 a 1 h)
