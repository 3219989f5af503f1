-- ===== src/Game/Deck/Deal.antt =====
-- What the dealing loop of CardModel.swift keeps true of its variables.
use card_pang.Common.{
  ℕ, zero, suc, ◌+◌, ◌*◌, ◌≤◌, ◌<◌, ◌≡◌, ap, sym, subst, ◌∙◌, Bool, true, false, not, ◌&&◌, ◌||◌,
  some, List, [], ◌∷◌, ◌++◌, inl, inr, ◌==◌, ==_iff, length, length-append, ltb, ltb→lt, arith,
  Bool-cases,
}
use card_pang.Game.Deck.{
  blank, card, same_image, Card, new_card, contains, Dealing, deal_round, deal_rounds,
}
use card_pang.Game.Deck.Shuffle.{bit, count_if, count_if-append}

abbrev pub has_image : ℕ → Card → Bool
has_image n c = same_image (card n) c.image_name

-- A card that shows its back and has an image.
abbrev pub is_face_down : Card → Bool
is_face_down c = not c.is_flipped && not c.is_matched && not (same_image blank c.image_name)

pub record IsDealt (d : Dealing) : Type 0 where
  pub paired :
      (n : ℕ) → count_if (has_image n) d.generated_cards ≡ 2 * bit (contains d.generated_numbers n)
  pub in_range : (n : ℕ) → contains d.generated_numbers n ≡ true → (1 ≤ n) × (n ≤ 13)
  pub two_each : length d.generated_cards ≡ 2 * length d.generated_numbers
  pub face_down : count_if is_face_down d.generated_cards ≡ length d.generated_cards

pub contains-append : (xs : List ℕ) (r n : ℕ) → contains (xs ++ r ∷ []) n ≡ contains xs n || r == n
contains-append [] r n = ground arith
contains-append (x ∷ xs) r n = ground (arith, contains-append xs r n)

pair-paired :
    (numbers : List ℕ) (cards : List Card)
    → ((n : ℕ) → count_if (has_image n) cards ≡ 2 * bit (contains numbers n))
    → (r : ℕ) → contains numbers r ≡ false
    → (n : ℕ)
    → count_if (has_image n) (cards ++ new_card r ∷ new_card r ∷ [])
      ≡ 2 * bit (contains (numbers ++ r ∷ []) n)
pair-paired numbers cards v r new n =
    count_if-append (has_image n) cards (new_card r ∷ new_card r ∷ [])
    ∙ together
    ∙ sym (ap (λ b. 2 * bit b) (contains-append numbers r n))
  where
    together :
        count_if (has_image n) cards + (bit (n == r) + (bit (n == r) + 0))
        ≡ 2 * bit (contains numbers n || r == n)
    together = elim (Bool-cases (r == n)) [
      | inl same ↦
          let equal : r ≡ n = (==_iff r n).0 same in
          ground (arith, v n, same, equal, subst (λ m. contains numbers m ≡ false) equal new)
      | inr other ↦ ground (arith, v n, other)
    ]

pair-in_range :
    (numbers : List ℕ)
    → ((n : ℕ) → contains numbers n ≡ true → (1 ≤ n) × (n ≤ 13))
    → (r : ℕ) → (1 ≤ r) × (r ≤ 13)
    → (n : ℕ) → contains (numbers ++ r ∷ []) n ≡ true
    → (1 ≤ n) × (n ≤ 13)
pair-in_range numbers v r within n h = elim (Bool-cases (contains numbers n)) [
  | inl old ↦ v n old
  | inr new ↦ ground (arith, contains-append numbers r n, new, ==_iff r n, within)
]

finished :
    (d e : Dealing) (pairs : ℕ)
    → IsDealt d
    → length d.generated_numbers ≤ pairs
    → ltb (length d.generated_numbers) pairs ≡ false
    → d ≡ e
    → IsDealt e × (length e.generated_numbers ≡ pairs)
finished d e pairs v le enough same =
    subst (λ x. IsDealt x × (length x.generated_numbers ≡ pairs)) same
      (v, ground (arith, le, enough))

module _ (draw : ℕ → ℕ → ℕ) (draw-lt : (k n : ℕ) → 0 < n → draw k n < n) where
  abbrev pair : Dealing → List Card
  pair d = new_card (draw d.drawn 13 + 1) ∷ new_card (draw d.drawn 13 + 1) ∷ []

  deal_round-length :
      (d : Dealing)
      → length (deal_round draw d).generated_numbers ≤ suc (length d.generated_numbers)
  unfolding deal_round
  deal_round-length d = elim (Bool-cases (contains d.generated_numbers (draw d.drawn 13 + 1))) [
    | inl old ↦ rw old (omega arith)
    | inr new ↦
        rw new (omega (arith, length-append d.generated_numbers ((draw d.drawn 13 + 1) ∷ [])))
  ]

  deal_round-IsDealt : (d : Dealing) → IsDealt d → IsDealt (deal_round draw d)
  unfolding deal_round
  deal_round-IsDealt d v = elim (Bool-cases (contains d.generated_numbers (draw d.drawn 13 + 1))) [
    | inl old ↦ rw old (record {
      paired = v.paired;
      in_range = v.in_range;
      two_each = v.two_each;
      face_down = v.face_down;
    })
    | inr new ↦ rw new (record {
      paired = λ n.
          pair-paired d.generated_numbers d.generated_cards v.paired (draw d.drawn 13 + 1) new n;
      in_range = λ n h.
          pair-in_range d.generated_numbers v.in_range (draw d.drawn 13 + 1)
            (omega (arith, draw-lt d.drawn 13)) n h;
      two_each = ground (
        arith,
        v.two_each,
        length-append d.generated_cards (pair d),
        length-append d.generated_numbers ((draw d.drawn 13 + 1) ∷ []),
      );
      face_down = ground (
        arith,
        v.face_down,
        length-append d.generated_cards (pair d),
        count_if-append is_face_down d.generated_cards (pair d),
      );
    })
  ]

  -- The loop of a dealing that does not have too many numbers yet ends with the number it asks for.
  pub deal_rounds-IsDealt :
      (rounds pairs : ℕ) (d e : Dealing)
      → IsDealt d
      → length d.generated_numbers ≤ pairs
      → deal_rounds draw rounds pairs d ≡ some e
      → IsDealt e × (length e.generated_numbers ≡ pairs)
  unfolding deal_rounds
  deal_rounds-IsDealt zero pairs d e v le eq =
      elim (Bool-cases (ltb (length d.generated_numbers) pairs)) [
        | inl more ↦ absurd (ground (arith, more, eq))
        | inr enough ↦ finished d e pairs v le enough (ground (arith, enough, eq))
      ]
  deal_rounds-IsDealt (suc rounds) pairs d e v le eq =
      elim (Bool-cases (ltb (length d.generated_numbers) pairs)) [
        | inl more ↦
            deal_rounds-IsDealt rounds pairs (deal_round draw d) e (deal_round-IsDealt d v)
              (omega (arith, ltb→lt _ _ more, deal_round-length d)) (ground (arith, more, eq))
        | inr enough ↦ finished d e pairs v le enough (ground (arith, enough, eq))
      ]
