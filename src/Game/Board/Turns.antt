-- ===== src/Game/Board/Turns.antt =====
-- What the taps of EasyModeController.swift do to the cards.
use card_pang.Common.{
  ℕ, zero, suc, ◌+◌, ◌*◌, ◌≡◌, ◌≢◌, refl, ap, sym, subst, ◌∙◌, Bool, true, not, ◌&&◌, inl, inr,
  Option, none, some, List, [], ◌∷◌, get_elem?, ltb, ◌==◌, ==_iff, arith, Option-cases, Bool-cases,
}
use mathlib.Core.Option.{some-injective}
use card_pang.Game.Deck.{Card, same_image, ImageName, blank, card}
use card_pang.Game.Deck.Shuffle.{bit, count_if}
use card_pang.Game.Deck.Deal.{has_image}
use card_pang.Game.Board.{
  Game, check_game_ended, matched, hidden, shown, update, update_card, check_for_matches, second,
  did_select_item_at, call, flip,
}

-- Face up, and not matched yet.
abbrev pub is_open : Card → Bool
is_open c = c.is_flipped && not c.is_matched

-- A card that was matched with its back up: none is.
abbrev pub is_odd : Card → Bool
is_odd c = c.is_matched && not c.is_flipped

abbrev pub is_matched_image : ℕ → Card → Bool
is_matched_image n c = c.is_matched && has_image n c

pub get_elem?-update_self :
    (cards : List Card) (i : ℕ) (f : Card → Card) {c : Card}
    → get_elem? cards i ≡ some c
    → get_elem? (update i f cards) i ≡ some (f c)
get_elem?-update_self [] i f e = absurd (ground (arith, e))
get_elem?-update_self (c ∷ cards) zero f e = ap (λ x. some (f x)) (some-injective _ _ e)
get_elem?-update_self (c ∷ cards) (suc i) f e = get_elem?-update_self cards i f e

pub get_elem?-update_ne :
    (cards : List Card) (i j : ℕ) (f : Card → Card)
    → i ≢ j
    → get_elem? (update i f cards) j ≡ get_elem? cards j
get_elem?-update_ne [] i j f h = refl
get_elem?-update_ne (c ∷ cards) zero zero f h = absurd (h refl)
get_elem?-update_ne (c ∷ cards) zero (suc j) f h = refl
get_elem?-update_ne (c ∷ cards) (suc i) zero f h = refl
get_elem?-update_ne (c ∷ cards) (suc i) (suc j) f h =
    get_elem?-update_ne cards i j f (λ e. h (ap suc e))

count_if-update :
    (p : Card → Bool) (cards : List Card) (i : ℕ) (f : Card → Card) {c : Card}
    → get_elem? cards i ≡ some c
    → count_if p (update i f cards) + bit (p c) ≡ count_if p cards + bit (p (f c))
count_if-update p [] i f e = absurd (ground (arith, e))
count_if-update p (c ∷ cards) zero f e = omega (
  arith,
  ap (λ x. bit (p x)) (some-injective _ _ e),
  ap (λ x. bit (p (f x))) (some-injective _ _ e),
)
count_if-update p (c ∷ cards) (suc i) f e = omega (arith, count_if-update p cards i f e)

-- Two different cards, changed the same way.
count_if-update-update :
    (p : Card → Bool) (cards : List Card) (i j : ℕ) (f : Card → Card) {a b : Card}
    → i ≢ j
    → get_elem? cards i ≡ some a
    → get_elem? cards j ≡ some b
    → count_if p (update j f (update i f cards)) + (bit (p a) + bit (p b))
      ≡ count_if p cards + (bit (p (f a)) + bit (p (f b)))
count_if-update-update p cards i j f h e k = omega (
  arith,
  count_if-update p cards i f e,
  count_if-update p (update i f cards) j f (get_elem?-update_ne cards i j f h ∙ k),
)

-- The cards between two taps: at most one is face up and not matched, and it is the first one of a
-- turn; none was matched with its back up; the matched cards of an image are an even number.
abbrev pub IsTurn : List Card → Option ℕ → Type 0
IsTurn cards none = count_if is_open cards ≡ 0
IsTurn cards (some i) =
    (c : Card) × (get_elem? cards i ≡ some c) × (is_open c ≡ true) × (count_if is_open cards ≡ 1)

abbrev pub IsPaired : List Card → Type 0
IsPaired cards =
    (count_if is_odd cards ≡ 0)
    × ((n : ℕ) → (k : ℕ) × (count_if (is_matched_image n) cards ≡ 2 * k))

abbrev pub IsFair : Game → Type 0
IsFair g = IsTurn g.card_array g.first_flipped_card_index × IsPaired g.card_array

same_image-card :
    (x y : ImageName) (n : ℕ)
    → same_image x y ≡ true
    → same_image (card n) x ≡ same_image (card n) y
same_image-card blank blank n e = refl
same_image-card blank (card m) n e = absurd (ground (arith, e))
same_image-card (card m) blank n e = absurd (ground (arith, e))
same_image-card (card m) (card k) n e = ap (λ t. n == t) ((==_iff m k).0 e)

-- Two open cards of a turn, in an array whose open cards they are.
module _ (cards : List Card) (i j : ℕ) (a b : Card) (h : i ≢ j) (e : get_elem? cards i ≡ some a)
    (k : get_elem? cards j ≡ some b) (oa : is_open a ≡ true) (ob : is_open b ≡ true)
    (two : count_if is_open cards ≡ 2) (v : IsPaired cards) where
  pair_matched :
      same_image a.image_name b.image_name ≡ true
      → (count_if is_open (update j matched (update i matched cards)) ≡ 0)
        × IsPaired (update j matched (update i matched cards))
  pair_matched same = (
    ground (arith, two, oa, ob, count_if-update-update is_open cards i j matched h e k),
    (
      ground (arith, v.0, oa, ob, count_if-update-update is_odd cards i j matched h e k),
      λ n. (
        (v.1 n).0 + bit (has_image n a),
        ground (
          arith,
          (v.1 n).1,
          oa,
          ob,
          same_image-card a.image_name b.image_name n same,
          count_if-update-update (is_matched_image n) cards i j matched h e k,
        ),
      ),
    ),
  )

  pair_hidden :
      (count_if is_open (update j hidden (update i hidden cards)) ≡ 0)
      × IsPaired (update j hidden (update i hidden cards))
  pair_hidden = (
    ground (arith, two, oa, ob, count_if-update-update is_open cards i j hidden h e k),
    (
      ground (arith, v.0, oa, ob, count_if-update-update is_odd cards i j hidden h e k),
      λ n. (
        (v.1 n).0,
        ground (
          arith,
          (v.1 n).1,
          oa,
          ob,
          count_if-update-update (is_matched_image n) cards i j hidden h e k,
        ),
      ),
    ),
  )

pub check_game_ended-card_array : (g : Game) → (check_game_ended g).card_array ≡ g.card_array
unfolding check_game_ended
check_game_ended-card_array g = ground arith

check_for_matches-IsFair :
    (in_view : ℕ → Bool) (i j : ℕ) (a b : Card) (g : Game)
    → i ≢ j
    → get_elem? g.card_array i ≡ some a
    → get_elem? g.card_array j ≡ some b
    → is_open a ≡ true
    → is_open b ≡ true
    → count_if is_open g.card_array ≡ 2
    → IsPaired g.card_array
    → IsFair (check_for_matches in_view i j g)
unfolding check_for_matches
check_for_matches-IsFair in_view i j a b g h e k oa ob two v =
    rw (e, k)
      (elim (Bool-cases (same_image a.image_name b.image_name)) [
        | inl same ↦ rw same (
            subst (λ cards. (count_if is_open cards ≡ 0) × IsPaired cards)
              (sym (check_game_ended-card_array _))
              (pair_matched g.card_array i j a b h e k oa ob two v same))
        | inr different ↦ rw different (pair_hidden g.card_array i j a b h e k oa ob two v)
      ])

-- A card is turned over.
module _ (in_view : ℕ → Bool) (j : ℕ) (b : Card) (g : Game) (k : get_elem? g.card_array j ≡ some b)
    (closed : not b.is_flipped && not b.is_matched ≡ true) where
  shown-IsPaired : IsPaired g.card_array → IsPaired (update j shown g.card_array)
  shown-IsPaired v = (
    ground (arith, v.0, closed, count_if-update is_odd g.card_array j shown k),
    λ n. (
      (v.1 n).0,
      ground
          (arith, (v.1 n).1, closed, count_if-update (is_matched_image n) g.card_array j shown k),
    ),
  )

  is_open-shown :
      count_if is_open (update j shown g.card_array) ≡ suc (count_if is_open g.card_array)
  is_open-shown = ground (arith, closed, count_if-update is_open g.card_array j shown k)

  second-IsFair :
      (first : Option ℕ)
      → IsTurn g.card_array first
      → IsPaired g.card_array
      → IsFair (second in_view first j (update_card j shown (call (flip j) g)))
  second-IsFair none t v = (
    (
      shown b,
      get_elem?-update_self g.card_array j shown k,
      ground (arith, closed),
      omega (arith, is_open-shown, t),
    ),
    shown-IsPaired v,
  )
  second-IsFair (some i) (a, e, oa, one) v =
      check_for_matches-IsFair in_view i j a (shown b) (update_card j shown (call (flip j) g)) apart
        (get_elem?-update_ne g.card_array j i shown (λ q. apart (sym q)) ∙ e)
        (get_elem?-update_self g.card_array j shown k) oa (ground (arith, closed))
        (omega (arith, is_open-shown, one)) (shown-IsPaired v)
    where
      apart : i ≢ j
      apart q =
          let same = some-injective a b (sym e ∙ ap (get_elem? g.card_array) q ∙ k) in
          ground (arith, closed, oa, ap (λ c. c.is_flipped) same)

pub did_select_item_at-IsFair :
    (in_view : ℕ → Bool) (j : ℕ) (g : Game) → IsFair g → IsFair (did_select_item_at in_view j g)
unfolding did_select_item_at
did_select_item_at-IsFair in_view j g v = elim (Bool-cases (ltb 0 g.milliseconds)) [
  | inr late ↦ rw late v
  | inl early ↦ rw early (elim (Option-cases (get_elem? g.card_array j)) [
    | inl out ↦ rw out v
    | inr (b, k) ↦ rw k (elim (Bool-cases (not b.is_flipped && not b.is_matched)) [
      | inl closed ↦
          rw closed (second-IsFair in_view j b g k closed g.first_flipped_card_index v.0 v.1)
      | inr face_up ↦ rw face_up v
    ])
  ])
]
