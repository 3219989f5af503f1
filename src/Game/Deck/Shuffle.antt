-- ===== src/Game/Deck/Shuffle.antt =====
-- What the `for` loop of CardModel.swift keeps: how many cards satisfy a test.
use card_pang.Common.{
  ℕ, zero, suc, ◌+◌, ◌≤◌, ◌<◌, ◌≡◌, refl, ap, ◌∙◌, Bool, true, false, some, List, [], ◌∷◌, ◌++◌,
  inl, inr, ◌==◌, length, get_elem?, get_elem?-lt, set, arith, if◌then◌else◌, Option-cases,
}
use mathlib.Core.Option.{some-injective}
use card_pang.Game.Deck.{Card, swap, shuffle_rounds}

abbrev pub bit : Bool → ℕ
bit true = 1
bit false = 0

module _ {ℓ} {A : Type ℓ} (p : A → Bool) where
  -- How many elements satisfy the test.
  abbrev pub count_if : List A → ℕ
  count_if [] = 0
  count_if (x ∷ xs) = bit (p x) + count_if xs

  pub count_if-append : (xs ys : List A) → count_if (xs ++ ys) ≡ count_if xs + count_if ys
  count_if-append [] ys = omega arith
  count_if-append (x ∷ xs) ys = omega (arith, count_if-append xs ys)

  count_if-set :
      (xs : List A) (i : ℕ) (v w : A)
      → get_elem? xs i ≡ some w
      → count_if (set xs i v) + bit (p w) ≡ count_if xs + bit (p v)
  count_if-set [] i v w e = cc
  count_if-set (x ∷ xs) zero v w e = omega (arith, ap bit (ap p (some-injective x w e)))
  count_if-set (x ∷ xs) (suc i) v w e = omega (arith, count_if-set xs i v w e)

  count_if-le : (xs : List A) → count_if xs ≤ length xs
  count_if-le [] = omega arith
  count_if-le (x ∷ xs) = ground (arith, count_if-le xs)

module _ {ℓ} {A : Type ℓ} where
  -- Reading a list after a write inside it.
  pub get_elem?-set :
      (xs : List A) (i j : ℕ) (v : A)
      → i < length xs
      → get_elem? (set xs i v) j ≡ (if i == j then some v else get_elem? xs j)
  get_elem?-set [] i j v h = elim h [ ]
  get_elem?-set (x ∷ xs) zero zero v h = refl
  get_elem?-set (x ∷ xs) zero (suc j) v h = ground arith
  get_elem?-set (x ∷ xs) (suc i) zero v h = ground arith
  get_elem?-set (x ∷ xs) (suc i) (suc j) v h = ground (arith, get_elem?-set xs i j v)

count_if-swap :
    (p : Card → Bool) (cards : List Card) (i j : ℕ) → count_if p (swap cards i j) ≡ count_if p cards
unfolding swap
count_if-swap p cards i j = elim (Option-cases (get_elem? cards i)) [
  | inl e ↦ rw e
  | inr (a, e) ↦ elim (Option-cases (get_elem? cards j)) [
    | inl f ↦ rw (e, f)
    | inr (b, f) ↦ rw (e, f) (both a b e f)
  ]
]
  where
    both :
        (a b : Card)
        → get_elem? cards i ≡ some a
        → get_elem? cards j ≡ some b
        → count_if p (set (set cards i b) j a) ≡ count_if p cards
    both a b e f =
        let there : get_elem? (set cards i b) j ≡ some b =
          ground (arith, get_elem?-set cards i j b (get_elem?-lt cards i e)) in
        omega (arith, count_if-set p cards i b a e, count_if-set p (set cards i b) j a b there)

-- `shuffle_rounds` keeps every count, whatever is drawn.
pub count_if-shuffle_rounds :
    (draw : ℕ → ℕ → ℕ) (p : Card → Bool) (left i drawn : ℕ) (cards : List Card)
    → count_if p (shuffle_rounds draw left i drawn cards) ≡ count_if p cards
unfolding shuffle_rounds
count_if-shuffle_rounds draw p zero i drawn cards = refl
count_if-shuffle_rounds draw p (suc left) i drawn cards =
    count_if-shuffle_rounds draw p left (suc i) (drawn + 1)
      (swap cards i (draw drawn (length cards)))
    ∙ count_if-swap p cards i (draw drawn (length cards))
