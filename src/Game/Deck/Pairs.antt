-- ===== src/Game/Deck/Pairs.antt =====
-- The deck that CardModel.swift returns.
use card_pang.Common.{
  ℕ, ◌*◌, ◌≤◌, ◌<◌, ◌≡◌, refl, ap, sym, subst, ◌∙◌, true, ◌⊎◌, inl, inr, some, List, [], ◌∷◌,
  length, arith, Option-cases, Bool-cases,
}
use mathlib.Core.Option.{some-injective}
use card_pang.Game.Deck.{
  Card, contains, Dealing, deal_rounds, shuffle_rounds, no_cards, shuffled, get_cards,
}
use card_pang.Game.Deck.Shuffle.{count_if, count_if-shuffle_rounds}
use card_pang.Game.Deck.Deal.{has_image, is_face_down, IsDealt, deal_rounds-IsDealt}

no_cards-IsDealt : IsDealt no_cards
no_cards-IsDealt = record {
  paired = λ n. refl;
  in_range = λ n h. absurd (ground (arith, h));
  two_each = refl;
  face_down = refl;
}

count_if-every {ℓ} : {A : Type ℓ} (xs : List A) → count_if (λ x. true) xs ≡ length xs
count_if-every [] = refl
count_if-every (x ∷ xs) = omega (arith, count_if-every xs)

length-shuffle_rounds :
    (draw : ℕ → ℕ → ℕ) (left i drawn : ℕ) (cards : List Card)
    → length (shuffle_rounds draw left i drawn cards) ≡ length cards
length-shuffle_rounds draw left i drawn cards =
    sym (count_if-every (shuffle_rounds draw left i drawn cards))
    ∙ count_if-shuffle_rounds draw (λ c. true) left i drawn cards
    ∙ count_if-every cards

unfoldable pub shuffle : (ℕ → ℕ → ℕ) → Dealing → List Card
shuffle draw d = shuffle_rounds draw (length d.generated_cards) 0 d.drawn d.generated_cards

pub record IsDeck (pairs : ℕ) (deck : List Card) : Type 0 where
  pub size : length deck ≡ 2 * pairs
  pub images :
      (n : ℕ)
      → ((count_if (has_image n) deck ≡ 2) × (1 ≤ n) × (n ≤ 13)) ⊎ (count_if (has_image n) deck ≡ 0)
  pub all_face_down : count_if is_face_down deck ≡ length deck

shuffle-IsDeck :
    (draw : ℕ → ℕ → ℕ) (d : Dealing) (pairs : ℕ)
    → IsDealt d
    → length d.generated_numbers ≡ pairs
    → IsDeck pairs (shuffle draw d)
unfolding shuffle
shuffle-IsDeck draw d pairs v e = record {
  size = omega (arith, kept_length, v.two_each);
  images = λ n.
      let kept =
        count_if-shuffle_rounds draw (has_image n) (length d.generated_cards) 0 d.drawn
          d.generated_cards in
      elim (Bool-cases (contains d.generated_numbers n)) [
        | inl there ↦
            let r = v.in_range n there in inl (ground (arith, kept, v.paired n, there), r.0, r.1)
        | inr missing ↦ inr (ground (arith, kept, v.paired n, missing))
      ];
  all_face_down = omega (
    arith,
    kept_length,
    v.face_down,
    count_if-shuffle_rounds draw is_face_down (length d.generated_cards) 0 d.drawn
        d.generated_cards,
  );
}
  where
    kept_length :
        length (shuffle_rounds draw (length d.generated_cards) 0 d.drawn d.generated_cards)
        ≡ length d.generated_cards
    kept_length = length-shuffle_rounds draw (length d.generated_cards) 0 d.drawn d.generated_cards

-- A deck that is returned for a number of pairs, whatever the random numbers below their bound are,
-- has twice as many cards. Each image is on two cards or on none, the images that occur are among
-- card1 to card13, and every card has an image, is not flipped and not matched.
pub get_cards-IsDeck :
    (draw : ℕ → ℕ → ℕ)
    → ((k n : ℕ) → 0 < n → draw k n < n)
    → (rounds pairs : ℕ) (deck : List Card) → get_cards draw rounds pairs ≡ some deck
    → IsDeck pairs deck
unfolding get_cards shuffle
get_cards-IsDeck draw draw-lt rounds pairs deck eq =
    elim (Option-cases (deal_rounds draw rounds pairs no_cards)) [
      | inl never ↦ absurd (ground (arith, ap (shuffled draw) never, eq))
      | inr (d, ends) ↦
          let r =
            deal_rounds-IsDealt draw draw-lt rounds pairs no_cards d no_cards-IsDealt (omega arith)
              ends in
          subst (IsDeck pairs) (some-injective _ _ (sym (ap (shuffled draw) ends) ∙ eq))
            (shuffle-IsDeck draw d pairs r.0 r.1)
    ]
