-- ===== src/Game/Board/Taps.antt =====
-- The two taps of a turn of EasyModeController.swift.
use card_pang.Common.{
  ℕ, zero, suc, ◌<◌, ◌≡◌, ◌≢◌, refl, ap, sym, ◌∙◌, Bool, true, false, none, some, List, [], ◌∷◌,
  get_elem?, lt→ltb,
}
use mathlib.Core.Option.{some-injective}
use card_pang.Game.Deck.{Card, same_image}
use card_pang.Game.Board.{
  Game, matched, hidden, shown, update, update_card, check_for_matches, second, did_select_item_at,
  call, flip,
}
use card_pang.Game.Board.Turns.{
  check_game_ended-card_array, get_elem?-update_self, get_elem?-update_ne,
}

-- Its back is up, and it is not matched.
abbrev pub IsClosed : Card → Type 0
IsClosed c = (c.is_flipped ≡ false) × (c.is_matched ≡ false)

update-update_self :
    (i : ℕ) (f k : Card → Card) (cards : List Card)
    → update i f (update i k cards) ≡ update i (λ c. f (k c)) cards
update-update_self i f k [] = refl
update-update_self zero f k (c ∷ cards) = refl
update-update_self (suc i) f k (c ∷ cards) = ap (λ t. c ∷ t) (update-update_self i f k cards)

update-update_comm :
    (i j : ℕ) (f k : Card → Card) (cards : List Card)
    → i ≢ j
    → update i f (update j k cards) ≡ update j k (update i f cards)
update-update_comm i j f k [] h = refl
update-update_comm zero zero f k (c ∷ cards) h = absurd (h refl)
update-update_comm zero (suc j) f k (c ∷ cards) h = refl
update-update_comm (suc i) zero f k (c ∷ cards) h = refl
update-update_comm (suc i) (suc j) f k (c ∷ cards) h =
    ap (λ t. c ∷ t) (update-update_comm i j f k cards (λ e. h (ap suc e)))

update_id :
    (i : ℕ) (f : Card → Card) (cards : List Card) {c : Card}
    → get_elem? cards i ≡ some c
    → f c ≡ c
    → update i f cards ≡ cards
update_id i f [] e same = refl
update_id zero f (x ∷ cards) e same =
    let equal = some-injective _ _ e in ap (λ t. t ∷ cards) (ap f equal ∙ same ∙ sym equal)
update_id (suc i) f (x ∷ cards) e same = ap (λ t. x ∷ t) (update_id i f cards e same)

-- Both cards are shown, then both are changed.
turn-update :
    (i j : ℕ) (f : Card → Card) (cards : List Card)
    → i ≢ j
    → update j f (update i f (update j shown (update i shown cards)))
      ≡ update j (λ c. f (shown c)) (update i (λ c. f (shown c)) cards)
turn-update i j f cards h =
    ap (update j f) (
      update-update_comm i j f shown (update i shown cards) h
      ∙ ap (update j shown) (update-update_self i f shown cards))
    ∙ update-update_self j f shown (update i (λ c. f (shown c)) cards)

module _ (in_view : ℕ → Bool) (g : Game) (time : 0 < g.milliseconds) where
  select_closed :
      (j : ℕ) {c : Card}
      → get_elem? g.card_array j ≡ some c
      → IsClosed c
      → did_select_item_at in_view j g
        ≡ second in_view g.first_flipped_card_index j (update_card j shown (call (flip j) g))
  unfolding did_select_item_at
  select_closed j e (back_up, unmatched) =
      rw (lt→ltb 0 g.milliseconds time, e, back_up, unmatched) refl

check_for_matches-same :
    (in_view : ℕ → Bool) (i j : ℕ) {a b : Card} (g : Game)
    → get_elem? g.card_array i ≡ some a
    → get_elem? g.card_array j ≡ some b
    → same_image a.image_name b.image_name ≡ true
    → (check_for_matches in_view i j g).card_array
      ≡ update j matched (update i matched g.card_array)
unfolding check_for_matches
check_for_matches-same in_view i j g e k same = rw (e, k, same) (check_game_ended-card_array _)

check_for_matches-different :
    (in_view : ℕ → Bool) (i j : ℕ) {a b : Card} (g : Game)
    → get_elem? g.card_array i ≡ some a
    → get_elem? g.card_array j ≡ some b
    → same_image a.image_name b.image_name ≡ false
    → (check_for_matches in_view i j g).card_array ≡ update j hidden (update i hidden g.card_array)
unfolding check_for_matches
check_for_matches-different in_view i j g e k different = rw (e, k, different) refl

-- Two taps on closed cards, when no turn has begun, end in the comparison of the two.
module _ (in_view : ℕ → Bool) (g : Game) (i j : ℕ) {a b : Card} (time : 0 < g.milliseconds)
    (none_yet : g.first_flipped_card_index ≡ none) (h : i ≢ j)
    (e : get_elem? g.card_array i ≡ some a) (k : get_elem? g.card_array j ≡ some b)
    (ca : IsClosed a) (cb : IsClosed b) where
  abbrev after_first : Game
  after_first = record (update_card i shown (call (flip i) g)) { first_flipped_card_index = some i }

  abbrev before_check : Game
  before_check = update_card j shown (call (flip j) after_first)

  two_taps :
      did_select_item_at in_view j (did_select_item_at in_view i g)
      ≡ check_for_matches in_view i j before_check
  two_taps =
      ap (did_select_item_at in_view j) (
        select_closed in_view g time i e ca
        ∙ ap (λ o. second in_view o i (update_card i shown (call (flip i) g))) none_yet)
      ∙ select_closed in_view after_first time j (get_elem?-update_ne g.card_array i j shown h ∙ k)
          cb

  there_first : get_elem? before_check.card_array i ≡ some (shown a)
  there_first =
      get_elem?-update_ne (update i shown g.card_array) j i shown (λ q. h (sym q))
      ∙ get_elem?-update_self g.card_array i shown e

  there_second : get_elem? before_check.card_array j ≡ some (shown b)
  there_second =
      get_elem?-update_self (update i shown g.card_array) j shown
        (get_elem?-update_ne g.card_array i j shown h ∙ k)

  -- While time is left and no turn has begun, taps on two different closed cards with the same
  -- image turn both over and mark both as matched, and change no other card.
  pub two_taps-same :
      same_image a.image_name b.image_name ≡ true
      → (did_select_item_at in_view j (did_select_item_at in_view i g)).card_array
        ≡ update j (λ c. matched (shown c)) (update i (λ c. matched (shown c)) g.card_array)
  two_taps-same same =
      ap (λ x. x.card_array) two_taps
      ∙ check_for_matches-same in_view i j before_check there_first there_second same
      ∙ turn-update i j matched g.card_array h

  -- While time is left and no turn has begun, taps on two different closed cards with different
  -- images leave all cards as they were.
  pub two_taps-different :
      same_image a.image_name b.image_name ≡ false
      → (did_select_item_at in_view j (did_select_item_at in_view i g)).card_array ≡ g.card_array
  two_taps-different different =
      ap (λ x. x.card_array) two_taps
      ∙ check_for_matches-different in_view i j before_check there_first there_second different
      ∙ turn-update i j hidden g.card_array h
      ∙ ap (update j back_up) first_kept
      ∙ update_id j back_up g.card_array k (ap (λ f. record b { is_flipped = f }) (sym cb.0))
    where
      back_up : Card → Card
      back_up c = hidden (shown c)

      first_kept : update i back_up g.card_array ≡ g.card_array
      first_kept =
          update_id i back_up g.card_array e (ap (λ f. record a { is_flipped = f }) (sym ca.0))
