-- ===== src/Game/Deck.antt =====
-- Card.swift and CardModel.swift: dealing and shuffling a deck of pairs. `arc4random_uniform` is a
-- parameter: `draw k n` is what its k-th call returns for the bound `n`.
pub mod Shuffle
pub mod Deal
pub mod Pairs
pub mod Ends
use card_pang.Common.{
  ℕ, zero, suc, ◌+◌, ◌-◌, ◌*◌, Bool, true, false, not, ◌&&◌, ◌||◌, Option, none, some, List, [],
  ◌∷◌, ◌++◌, length, get_elem?, set, ltb, ◌==◌, if◌then◌else◌,
}

-- `imageName`: `""`, or `"card\(n)"`. Interpolation writes different numbers differently, so that
-- names are compared as these values.
pub data ImageName : Type 0 where
  blank : ImageName
  card : ℕ → ImageName

abbrev pub same_image : ImageName → ImageName → Bool
same_image blank blank = true
same_image (card m) (card n) = m == n
same_image _ _ = false

pub record Card : Type 0 where
  pub image_name : ImageName
  pub is_flipped : Bool
  pub is_matched : Bool

-- `Card()` with its `imageName` set.
abbrev pub new_card : ℕ → Card
new_card n = record { image_name = card n; is_flipped = false; is_matched = false }

abbrev pub contains : List ℕ → ℕ → Bool
contains [] n = false
contains (x ∷ xs) n = x == n || contains xs n

-- The local variables of `getEasyCards()`, and the number of random numbers that have been drawn.
pub record Dealing : Type 0 where
  pub generated_numbers : List ℕ
  pub generated_cards : List Card
  pub drawn : ℕ

abbrev pub swap_with : List Card → ℕ → ℕ → Option Card → Option Card → List Card
swap_with cards i j (some a) (some b) = set (set cards i b) j a
swap_with cards i j none _ = cards
swap_with cards i j (some a) none = cards

-- `let t = a[i]; a[i] = a[j]; a[j] = t`. An index out of range, which traps, does not occur.
unfoldable pub swap : List Card → ℕ → ℕ → List Card
swap cards i j = swap_with cards i j (get_elem? cards i) (get_elem? cards j)

abbrev pub no_cards : Dealing
no_cards = record { generated_numbers = []; generated_cards = []; drawn = 0 }

module _ (draw : ℕ → ℕ → ℕ) where
  -- The body of `while generatedNumbersArray.count < pairs`.
  unfoldable pub deal_round : Dealing → Dealing
  deal_round d =
      let random_number = draw d.drawn 13 + 1 in
      if not (contains d.generated_numbers random_number)
      then record {
        generated_numbers = d.generated_numbers ++ random_number ∷ [];
        generated_cards =
            d.generated_cards ++ (new_card random_number ∷ new_card random_number ∷ []);
        drawn = d.drawn + 1;
      }
      else record d { drawn = d.drawn + 1 }

  -- The loop ends when enough numbers have been drawn; `none` means that it has not within the
  -- given number of rounds.
  unfoldable pub deal_rounds : ℕ → ℕ → Dealing → Option Dealing
  deal_rounds zero pairs d = if ltb (length d.generated_numbers) pairs then none else some d
  deal_rounds (suc rounds) pairs d =
      let rest = deal_rounds rounds pairs (deal_round d) in
      if ltb (length d.generated_numbers) pairs then rest else some d

  -- `for i in 0...count - 1`: `left` is the number of rounds to go, and `i` the index.
  unfoldable pub shuffle_rounds : ℕ → ℕ → ℕ → List Card → List Card
  unfolding swap
  shuffle_rounds zero i drawn cards = cards
  shuffle_rounds (suc left) i drawn cards =
      shuffle_rounds left (suc i) (drawn + 1) (swap cards i (draw drawn (length cards)))

  abbrev pub shuffled : Option Dealing → Option (List Card)
  shuffled none = none
  shuffled (some d) = some (shuffle_rounds (length d.generated_cards) 0 d.drawn d.generated_cards)

  -- The three functions differ in the number of pairs.
  unfoldable pub get_cards : ℕ → ℕ → Option (List Card)
  get_cards rounds pairs = shuffled (deal_rounds rounds pairs no_cards)

  unfoldable pub get_easy_cards : ℕ → Option (List Card)
  get_easy_cards rounds = get_cards rounds 6

  unfoldable pub get_normal_cards : ℕ → Option (List Card)
  get_normal_cards rounds = get_cards rounds 8

  unfoldable pub get_hard_cards : ℕ → Option (List Card)
  get_hard_cards rounds = get_cards rounds 10
