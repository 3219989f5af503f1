-- ===== src/Nanopb/Message/Seen/Bits.antt =====
-- The bits of the words of `fields_seen` in CardPang/Pods/nanopb/pb_decode.c.
use card_pang.Common.{
  ℕ, zero, suc, ◌+◌, ◌-◌, ◌/◌, ◌%◌, ◌^◌, ◌<◌, ◌≤◌, ◌≡◌, refl, ap, ◌∙◌, ◌↔◌, Bool, true, false, ◌&&◌,
  ◌||◌, ◌==◌, ==_iff, suc-==-zero, if◌then◌else◌, Bool-cases, inl, inr, arith,
}
use card_pang.Common.Bits.{zero-bit_or, bit_or_comm, bit_or-half}
use Prim.Native.Nat.{bit_or}

pub bit : ℕ → ℕ → ℕ
bit x zero = x % 2
bit x (suc i) = bit (x / 2) i

bit_or-zero : (x : ℕ) → bit_or x 0 ≡ x
bit_or-zero x = bit_or_comm x 0 ∙ zero-bit_or x

bit_or_div : (x y : ℕ) → bit_or x y / 2 ≡ bit_or (x / 2) (y / 2)
bit_or_div x y = omega (arith, bit_or-half x y)

pow_half : (n : ℕ) → 2 ^ suc n / 2 ≡ 2 ^ n
pow_half n = omega arith

pub set-bit : (x i j : ℕ) → bit (bit_or x (2 ^ i)) j ≡ (if i == j then 1 else bit x j)
unfolding bit
set-bit x zero zero = ground (arith, bit_or-half x 1)
set-bit x zero (suc j) =
    let half = ap (λ y. bit y j) (bit_or_div x 1 ∙ bit_or-zero (x / 2)) in ground (arith, half)
set-bit x (suc i) zero = ground (arith, bit_or-half x (2 ^ suc i))
set-bit x (suc i) (suc j) =
    let half = ap (λ y. bit y j) (bit_or_div x (2 ^ suc i) ∙ ap (bit_or (x / 2)) (pow_half i)) in
    let rest = set-bit (x / 2) i j in ground (arith, half, rest)

zero_bits : (n x : ℕ) → x ≤ n → ((i : ℕ) → bit x i ≡ 0) → x ≡ 0
unfolding bit
zero_bits zero x h e = omega (arith, h)
zero_bits (suc n) zero h e = refl
zero_bits (suc n) (suc x) h e =
    omega (arith, e 0, zero_bits n (suc x / 2) (omega (arith, h)) (λ i. e (suc i)))

-- The bits below `r` are set, and no other.
pub full_word :
    (r x : ℕ) → ((i : ℕ) → i < r → bit x i ≡ 1) → ((i : ℕ) → r ≤ i → bit x i ≡ 0) → x + 1 ≡ 2 ^ r
unfolding bit
full_word zero x ones zeros =
    omega (arith, zero_bits x x (omega arith) (λ i. zeros i (omega arith)))
full_word (suc r) x ones zeros = omega (
  arith,
  ones 0 (omega arith),
  full_word r (x / 2) (λ i h. ones (suc i) (omega (arith, h)))
      (λ i h. zeros (suc i) (omega (arith, h))),
)

pub ones_of : (r x i : ℕ) → x + 1 ≡ 2 ^ r → i < r → bit x i ≡ 1
unfolding bit
ones_of zero x i e h = absurd (omega (arith, h))
ones_of (suc r) x zero e h = omega (arith, e)
ones_of (suc r) x (suc i) e h = ones_of r (x / 2) i (omega (arith, e)) (omega (arith, h))

pub bit-zero : (j : ℕ) → bit 0 j ≡ 0
unfolding bit
bit-zero zero = refl
bit-zero (suc j) = bit-zero j

pub both : (a b : Bool) → ((a && b) ≡ true) ↔ ((a ≡ true) × (b ≡ true))
both true true = ((λ _. (refl, refl)), (λ _. refl))
both true false = ((λ h. (refl, h)), (λ h. h.1))
both false b = ((λ h. absurd (ground (arith, h))), (λ h. h.0))

-- A test of every number below a bound.
each_below : ℕ → (ℕ → Bool) → Bool
each_below zero p = true
each_below (suc n) p = p n && each_below n p

each_below-at : (n : ℕ) (p : ℕ → Bool) (i : ℕ) → each_below n p ≡ true → i < n → p i ≡ true
unfolding each_below
each_below-at zero p i e h = absurd (omega (arith, h))
each_below-at (suc n) p i e h =
    let (here, below) = (both (p n) (each_below n p)).0 e in
    elim (Bool-cases (i == n)) [
      | inl same ↦ ap p ((==_iff i n).0 same) ∙ here
      | inr other ↦ each_below-at n p i below (ground (arith, other, h))
    ]

-- `allbits >> (32 - r)`
low_bits : (r : ℕ) → r < 32 → (2 ^ 32 - 1) / 2 ^ (32 - r) + 1 ≡ 2 ^ r
unfolding each_below
low_bits r h =
    (==_iff _ _).0 (each_below-at 32 (λ n. (2 ^ 32 - 1) / 2 ^ (32 - n) + 1 == 2 ^ n) r refl h)

pub part_iff :
    (r x : ℕ)
    → r < 32
    → (0 < r → (i : ℕ) → r ≤ i → bit x i ≡ 0)
    → ((r == 0 || x == (2 ^ 32 - 1) / 2 ^ (32 - r)) ≡ true) ↔ ((i : ℕ) → i < r → bit x i ≡ 1)
part_iff zero x h zeros = ((λ _ i below. absurd (omega (arith, below))), (λ _. refl))
part_iff (suc r) x h zeros =
    let mask = low_bits (suc r) h in
    rw (suc-==-zero r) (
      (λ e i below.
          let same = (==_iff x ((2 ^ 32 - 1) / 2 ^ (32 - suc r))).0 e in
          ones_of (suc r) x i (ap (λ n. n + 1) same ∙ mask) below),
      (λ ones.
          let full = full_word (suc r) x ones (zeros (omega arith)) in
          (==_iff x ((2 ^ 32 - 1) / 2 ^ (32 - suc r))).1 (omega (arith, full, mask))),
    )
