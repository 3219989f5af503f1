-- ===== src/Game/Deck/Ends.antt =====
-- The end of the dealing loop of CardModel.swift.
use card_pang.Common.{
  ℕ, zero, suc, ◌+◌, ◌≤◌, ◌<◌, ◌≡◌, ◌≢◌, refl, ap, subst, ◌∙◌, true, inl, inr, none, some, List, [],
  ◌∷◌, ◌++◌, length, ◌==◌, ==_iff, if◌then◌else◌, arith, Option-cases, Bool-cases,
}
use card_pang.Game.Deck.{
  Card, contains, Dealing, deal_round, deal_rounds, no_cards, shuffled, get_cards,
}
use card_pang.Game.Deck.Deal.{contains-append}
use card_pang.Game.Deck.Pairs.{shuffle}

remove : List ℕ → ℕ → List ℕ
remove [] n = []
remove (x ∷ xs) n = if x == n then xs else x ∷ remove xs n

length-remove :
    (xs : List ℕ) (n : ℕ) → contains xs n ≡ true → suc (length (remove xs n)) ≡ length xs
unfolding remove
length-remove [] n h = absurd (ground (arith, h))
length-remove (x ∷ xs) n h = elim (Bool-cases (x == n)) [
  | inl same ↦ rw same refl
  | inr other ↦ rw other (ap suc (length-remove xs n (ground (arith, h, other))))
]

contains-remove :
    (xs : List ℕ) (m n : ℕ) → m ≢ n → contains xs m ≡ true → contains (remove xs n) m ≡ true
unfolding remove
contains-remove [] m n ne h = h
contains-remove (x ∷ xs) m n ne h = elim (Bool-cases (x == n)) [
  | inl same ↦ rw same (ground (arith, h, same, ne, ==_iff x m, ==_iff x n))
  | inr other ↦ rw other (ground (arith, h, contains-remove xs m n ne))
]

-- A list that holds 1 to m has at least m members.
pigeonhole :
    (m : ℕ) (xs : List ℕ) → ((n : ℕ) → 1 ≤ n → n ≤ m → contains xs n ≡ true) → m ≤ length xs
pigeonhole zero xs h = omega arith
pigeonhole (suc m) xs h =
    let there = h (suc m) (omega arith) (omega arith) in
    let rest =
      pigeonhole m (remove xs (suc m))
        (λ n low high. contains-remove xs n (suc m) (λ e. omega arith) (h n low (omega arith))) in
    omega (arith, length-remove xs (suc m) there)

contains-snoc : (xs : List ℕ) (r n : ℕ) → contains xs n ≡ true → contains (xs ++ r ∷ []) n ≡ true
contains-snoc xs r n h = ground (arith, contains-append xs r n, h)

contains-last : (xs : List ℕ) (r : ℕ) → contains (xs ++ r ∷ []) r ≡ true
contains-last xs r = ground (arith, contains-append xs r r, ==_iff r r)

-- The numbers of a loop that has not ended in time: too few, with every number that was drawn.
record IsStuck (draw : ℕ → ℕ → ℕ) (rounds pairs : ℕ) (d : Dealing) : Type 0 where
  numbers : List ℕ
  short : length numbers < pairs
  kept : (n : ℕ) → contains d.generated_numbers n ≡ true → contains numbers n ≡ true
  every : (k : ℕ) → k < rounds → contains numbers (draw (d.drawn + k) 13 + 1) ≡ true

module _ (draw : ℕ → ℕ → ℕ) where
  deal_round-drawn : (d : Dealing) → (deal_round draw d).drawn ≡ d.drawn + 1
  unfolding deal_round
  deal_round-drawn d = elim (Bool-cases (contains d.generated_numbers (draw d.drawn 13 + 1))) [
    | inl old ↦ rw old refl
    | inr new ↦ rw new refl
  ]

  deal_round-kept :
      (d : Dealing) (n : ℕ)
      → contains d.generated_numbers n ≡ true
      → contains (deal_round draw d).generated_numbers n ≡ true
  unfolding deal_round
  deal_round-kept d n h = elim (Bool-cases (contains d.generated_numbers (draw d.drawn 13 + 1))) [
    | inl old ↦ rw old h
    | inr new ↦ rw new (contains-snoc d.generated_numbers (draw d.drawn 13 + 1) n h)
  ]

  deal_round-first :
      (d : Dealing) → contains (deal_round draw d).generated_numbers (draw d.drawn 13 + 1) ≡ true
  unfolding deal_round
  deal_round-first d = elim (Bool-cases (contains d.generated_numbers (draw d.drawn 13 + 1))) [
    | inl old ↦ rw old old
    | inr new ↦ rw new (contains-last d.generated_numbers (draw d.drawn 13 + 1))
  ]

  IsStuck-earlier :
      (rounds pairs : ℕ) (d : Dealing)
      → IsStuck draw rounds pairs (deal_round draw d)
      → IsStuck draw (suc rounds) pairs d
  IsStuck-earlier rounds pairs d v = record {
    numbers = v.numbers;
    short = v.short;
    kept = λ n h. v.kept n (deal_round-kept d n h);
    every = λ k h. reached k h;
  }
    where
      reached : (k : ℕ) → k < suc rounds → contains v.numbers (draw (d.drawn + k) 13 + 1) ≡ true
      reached zero h =
          subst (λ m. contains v.numbers (draw m 13 + 1) ≡ true) (omega arith)
            (v.kept (draw d.drawn 13 + 1) (deal_round-first d))
      reached (suc k) h =
          subst (λ m. contains v.numbers (draw m 13 + 1) ≡ true) (omega (arith, deal_round-drawn d))
            (v.every k (omega arith))

  deal_rounds-IsStuck :
      (rounds pairs : ℕ) (d : Dealing)
      → deal_rounds draw rounds pairs d ≡ none
      → IsStuck draw rounds pairs d
  unfolding deal_rounds
  deal_rounds-IsStuck zero pairs d eq = record {
    numbers = d.generated_numbers;
    short = ground (arith, eq);
    kept = λ n h. h;
    every = λ k h. absurd (omega arith);
  }
  deal_rounds-IsStuck (suc rounds) pairs d eq =
      IsStuck-earlier rounds pairs d
        (deal_rounds-IsStuck rounds pairs (deal_round draw d) (ground (arith, eq)))

-- Dealing ends: when each of the numbers 1 to 13 is drawn within the given number of rounds, and no
-- more than thirteen pairs are asked for, a deck is returned.
pub get_cards-ends :
    (draw : ℕ → ℕ → ℕ) (rounds pairs : ℕ)
    → pairs ≤ 13
    → ((n : ℕ) → 1 ≤ n → n ≤ 13 → (k : ℕ) × (k < rounds) × (draw k 13 + 1 ≡ n))
    → (deck : List Card) × (get_cards draw rounds pairs ≡ some deck)
unfolding get_cards shuffle
get_cards-ends draw rounds pairs few drawn =
    elim (Option-cases (deal_rounds draw rounds pairs no_cards)) [
      | inl never ↦
          let v = deal_rounds-IsStuck draw rounds pairs no_cards never in
          let all = pigeonhole 13 v.numbers (λ n low high.
            let r = drawn n low high in
            let index : 0 + r.0 ≡ r.0 = omega arith in
            subst (λ m. contains v.numbers m ≡ true) (ap (λ m. draw m 13 + 1) index ∙ r.2)
              (v.every r.0 r.1)) in
          absurd (omega (arith, all, v.short))
      | inr (d, ends) ↦ (shuffle draw d, ap (shuffled draw) ends)
    ]
