-- ===== src/Game/Examples.antt =====
-- Runs of the game, and instances of the theorems about it.
use card_pang.Common.{
  ℕ, ◌+◌, ◌-◌, ◌%◌, ◌≤◌, ◌<◌, ◌≡◌, refl, Bool, true, false, none, some, List, [], ◌∷◌, ◌++◌,
  get_elem?, ◌⊎◌, arith,
}
use native.Mathlib.Nat.{mod-lt}
use card_pang.Game.Deck.{Card, new_card, get_cards, deal_rounds, deal_round, shuffle_rounds, swap}
use card_pang.Game.Deck.Shuffle.{count_if}
use card_pang.Game.Deck.Deal.{has_image}
use card_pang.Game.Deck.Pairs.{IsDeck, get_cards-IsDeck}
use card_pang.Game.Deck.Ends.{get_cards-ends}
use card_pang.Game.Board.{
  Game, Step, Reaches, here, and_then, tap, tick, view_did_load, did_select_item_at,
  check_for_matches, check_game_ended, timer_elapsed, move_back, too_bad, matched, shown, update,
  is_won,
}
use card_pang.Game.Board.Alerts.{IsStanding, IsWon, Reaches-IsStanding, Step-ended}
use card_pang.Game.Board.Fair.{Reaches-IsFair, Reaches-both}
use card_pang.Game.Board.Rules.{Move, places, Step-Move}
use card_pang.Game.Board.Turns.{IsFair, is_matched_image}
use card_pang.Game.Board.Taps.{two_taps-same, two_taps-different}
use card_pang.Game.Board.Time.{ticks, ticks-early, ticks-out}

-- A source of numbers that counts up.
abbrev draw : ℕ → ℕ → ℕ
draw k n = k % n

abbrev two_pairs : List Card
two_pairs = new_card 1 ∷ new_card 1 ∷ new_card 2 ∷ new_card 2 ∷ []

two_pairs_dealt : get_cards draw 13 2 ≡ some two_pairs
unfolding get_cards deal_rounds deal_round shuffle_rounds swap
two_pairs_dealt = refl

draw-lt : (k n : ℕ) → 0 < n → draw k n < n
draw-lt k n h = mod-lt k h

get_cards-IsDeck_example : IsDeck 2 two_pairs
get_cards-IsDeck_example = get_cards-IsDeck draw draw-lt 13 2 two_pairs two_pairs_dealt

-- It counts up to the number that is asked for.
drawn_once : (n : ℕ) → 1 ≤ n → n ≤ 13 → (k : ℕ) × (k < 13) × (draw k 13 + 1 ≡ n)
drawn_once n low high = (n - 1, omega arith, omega arith)

get_cards-ends_example : (deck : List Card) × (get_cards draw 13 6 ≡ some deck)
get_cards-ends_example = get_cards-ends draw 13 6 (omega arith) drawn_once

abbrev all_in_view : ℕ → Bool
all_in_view n = true

abbrev start : Game
start = view_did_load 30 two_pairs

abbrev one_card_shown : Game
one_card_shown = did_select_item_at all_in_view 0 start

abbrev one_pair_found : Game
one_pair_found = did_select_item_at all_in_view 1 one_card_shown

abbrev one_more_shown : Game
one_more_shown = did_select_item_at all_in_view 2 (timer_elapsed one_pair_found)

abbrev all_found : Game
all_found = did_select_item_at all_in_view 3 one_more_shown

one_pair_found-Reaches : Reaches start one_pair_found
unfolding view_did_load did_select_item_at check_for_matches check_game_ended
one_pair_found-Reaches =
    and_then (and_then here (tap all_in_view 0 refl (omega arith) refl))
      (tap all_in_view 1 refl (omega arith) refl)

one_more_shown-Reaches : Reaches start one_more_shown
unfolding view_did_load did_select_item_at check_for_matches check_game_ended timer_elapsed
one_more_shown-Reaches =
    and_then (and_then one_pair_found-Reaches (tick refl))
      (tap all_in_view 2 refl (omega arith) refl)

last_tap : Step one_more_shown all_found
unfolding view_did_load did_select_item_at check_for_matches check_game_ended timer_elapsed
last_tap = tap all_in_view 3 refl (omega arith) refl

all_found-Reaches : Reaches start all_found
all_found-Reaches = and_then one_more_shown-Reaches last_tap

Step-Move_example : Move (places one_more_shown) (places all_found)
Step-Move_example =
    Step-Move 30 2 two_pairs one_more_shown all_found get_cards-IsDeck_example
      one_more_shown-Reaches last_tap

two_pairs_unmatched : is_won two_pairs ≡ false
two_pairs_unmatched = refl

Reaches-IsStanding_example : IsStanding all_found
Reaches-IsStanding_example =
    Reaches-IsStanding 30 two_pairs all_found (omega arith) two_pairs_unmatched all_found-Reaches

all_found-IsWon : IsWon all_found
unfolding view_did_load did_select_item_at check_for_matches check_game_ended timer_elapsed
all_found-IsWon = (refl, omega arith, refl, refl)

one_more_tap : Step all_found (did_select_item_at all_in_view 0 all_found)
unfolding view_did_load did_select_item_at check_for_matches check_game_ended timer_elapsed
one_more_tap = tap all_in_view 0 refl (omega arith) refl

Step-ended_example :
    (did_select_item_at all_in_view 0 all_found ≡ all_found)
    ⊎ (did_select_item_at all_in_view 0 all_found ≡ move_back all_found)
Step-ended_example =
    Step-ended 30 two_pairs all_found (did_select_item_at all_in_view 0 all_found) (omega arith)
      two_pairs_unmatched all_found-Reaches (all_found-IsWon.0) one_more_tap

Reaches-IsFair_example : IsFair one_pair_found
Reaches-IsFair_example =
    Reaches-IsFair 30 2 two_pairs one_pair_found get_cards-IsDeck_example one_pair_found-Reaches

Reaches-both_example :
    (count_if (is_matched_image 1) one_pair_found.card_array ≡ 0)
    ⊎ (count_if (is_matched_image 1) one_pair_found.card_array
        ≡ count_if (has_image 1) one_pair_found.card_array)
Reaches-both_example =
    Reaches-both 30 2 two_pairs one_pair_found get_cards-IsDeck_example one_pair_found-Reaches 1

start-early : 0 < start.milliseconds
unfolding view_did_load
start-early = omega arith

start-no_first : start.first_flipped_card_index ≡ none
unfolding view_did_load
start-no_first = refl

start-card :
    (i : ℕ) {c : Card} → get_elem? two_pairs i ≡ some c → get_elem? start.card_array i ≡ some c
unfolding view_did_load
start-card i e = e

two_taps-same_example :
    (did_select_item_at all_in_view 1 (did_select_item_at all_in_view 0 start)).card_array
    ≡ update 1 (λ c. matched (shown c)) (update 0 (λ c. matched (shown c)) start.card_array)
two_taps-same_example =
    two_taps-same all_in_view start 0 1 start-early start-no_first (omega arith) (start-card 0 refl)
      (start-card 1 refl) (refl, refl) (refl, refl) refl

two_taps-different_example :
    (did_select_item_at all_in_view 3 (did_select_item_at all_in_view 1 start)).card_array
    ≡ start.card_array
two_taps-different_example =
    two_taps-different all_in_view start 1 3 start-early start-no_first (omega arith)
      (start-card 1 refl) (start-card 3 refl) (refl, refl) (refl, refl) refl

start-milliseconds : start.milliseconds ≡ 30000
unfolding view_did_load
start-milliseconds = refl

ticks-early_example : ticks 300 start ≡ record start {
  milliseconds = start.milliseconds - 300;
  second_label = start.milliseconds - 300;
}
ticks-early_example = ticks-early 299 start (omega (arith, start-milliseconds))

start-unmatched : is_won start.card_array ≡ false
unfolding view_did_load
start-unmatched = refl

ticks-out_example : ticks 30000 start ≡ record start {
  milliseconds = 0;
  second_label = 0;
  timer_is_valid = false;
  is_red = true;
  alerts = start.alerts ++ too_bad ∷ [];
}
ticks-out_example = ticks-out 29999 start start-milliseconds start-unmatched
