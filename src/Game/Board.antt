-- ===== src/Game/Board.antt =====
-- EasyModeController.swift and its two copies, NormalModeController.swift and
-- HardModeController.swift: a game in play. `milliseconds` is a Float that holds whole numbers below
-- 2^24, which Float represents exactly: here it is a number.
pub mod Turns
pub mod Fair
pub mod Rules
pub mod Time
pub mod Taps
pub mod Alerts
use card_pang.Common.{
  ℕ, zero, suc, ◌+◌, ◌-◌, ◌*◌, Bool, true, false, not, ◌&&◌, ◌≡◌, ◌<◌, Option, none, some, List, [],
  ◌∷◌, ◌++◌, length, get_elem?, set, ltb, ◌==◌, if◌then◌else◌,
}
use card_pang.Game.Deck.{Card, same_image}

-- The two texts that `checkGameEnded()` shows.
pub data Alert : Type 0 where
  congratulations : Alert
  too_bad : Alert

-- What a handler asks of the cell at an index, or of the collection view.
pub data CellCall : Type 0 where
  flip : ℕ → CellCall
  remove : ℕ → CellCall
  flip_back : ℕ → CellCall
  reload_items : ℕ → CellCall

-- The controller's variables, what `secondLabel` shows (the number of milliseconds that is printed,
-- in seconds), whether its timer is scheduled, what it has shown so far, in order,
-- and whether it is the navigation controller's top view.
pub record Game : Type 0 where
  pub card_array : List Card
  pub first_flipped_card_index : Option ℕ
  pub milliseconds : ℕ
  pub timer_is_valid : Bool
  pub second_label : ℕ
  pub is_red : Bool
  pub cell_calls : List CellCall
  pub alerts : List Alert
  pub is_top : Bool

-- `viewDidLoad()` with the cards of the model.
unfoldable pub view_did_load : ℕ → List Card → Game
view_did_load seconds cards = record {
  card_array = cards;
  first_flipped_card_index = none;
  milliseconds = seconds * 1000;
  timer_is_valid = true;
  second_label = 0;
  is_red = false;
  cell_calls = [];
  alerts = [];
  is_top = true;
}

unfoldable pub easy_mode : List Card → Game
unfolding view_did_load
easy_mode cards = view_did_load 30 cards

unfoldable pub normal_mode : List Card → Game
unfolding view_did_load
normal_mode cards = view_did_load 40 cards

unfoldable pub hard_mode : List Card → Game
unfolding view_did_load
hard_mode cards = view_did_load 50 cards

-- The loop of `checkGameEnded()`.
abbrev pub is_won : List Card → Bool
is_won [] = true
is_won (c ∷ cards) = if c.is_matched then is_won cards else false

abbrev pub show_alert : Alert → Game → Game
show_alert a g = record g { alerts = g.alerts ++ a ∷ [] }

abbrev pub invalidate : Game → Game
invalidate g = record g { timer_is_valid = false }

unfoldable pub check_game_ended : Game → Game
check_game_ended g =
    if is_won g.card_array
    then show_alert congratulations (if ltb 0 g.milliseconds then invalidate g else g)
    else if ltb 0 g.milliseconds
    then g
    else show_alert too_bad g

abbrev pub call : CellCall → Game → Game
call c g = record g { cell_calls = g.cell_calls ++ c ∷ [] }

-- `cell?.…`: `cellForItem` returns a cell only for an item that is in view.
abbrev pub call_if : Bool → CellCall → Game → Game
call_if in_view c g = record g {
  cell_calls = if in_view then g.cell_calls ++ c ∷ [] else g.cell_calls;
}

abbrev pub matched : Card → Card
matched c = record c { is_matched = true }

abbrev pub hidden : Card → Card
hidden c = record c { is_flipped = false }

abbrev pub shown : Card → Card
shown c = record c { is_flipped = true }

-- A write to a card of the array: the cards are objects that the array alone holds, each once.
abbrev pub update : ℕ → (Card → Card) → List Card → List Card
update i f [] = []
update zero f (c ∷ cards) = f c ∷ cards
update (suc i) f (c ∷ cards) = c ∷ update i f cards

abbrev pub update_card : ℕ → (Card → Card) → Game → Game
update_card i f g = record g { card_array = update i f g.card_array }

-- The branches of `checkForMatches(_:)` on whether the two image names are equal. `in_view` is which
-- items have a cell.
abbrev pub pair_found : (ℕ → Bool) → ℕ → ℕ → Game → Game
pair_found in_view i j g = check_game_ended (
    call_if (in_view j) (remove j)
      (call_if (in_view i) (remove i) (update_card j matched (update_card i matched g))))

abbrev pub pair_missed : (ℕ → Bool) → ℕ → ℕ → Game → Game
pair_missed in_view i j g =
    call_if (in_view j) (flip_back j)
      (call_if (in_view i) (flip_back i) (update_card j hidden (update_card i hidden g)))

abbrev pub compare_cards : (ℕ → Bool) → ℕ → ℕ → Option Card → Option Card → Game → Game
compare_cards in_view i j (some a) (some b) g =
    if same_image a.image_name b.image_name
    then pair_found in_view i j g
    else pair_missed in_view i j g
compare_cards in_view i j none _ g = g
compare_cards in_view i j (some a) none g = g

-- `checkForMatches(_:)` with the first index `i`, which the caller has found not to be nil, and the
-- second `j`.
unfoldable pub check_for_matches : (ℕ → Bool) → ℕ → ℕ → Game → Game
unfolding check_game_ended
check_for_matches in_view i j g =
    let compared =
      compare_cards in_view i j (get_elem? g.card_array i) (get_elem? g.card_array j) g in
    record (call_if (not (in_view i)) (reload_items i) compared) { first_flipped_card_index = none }

abbrev pub second : (ℕ → Bool) → Option ℕ → ℕ → Game → Game
second in_view none j g = record g { first_flipped_card_index = some j }
second in_view (some i) j g = check_for_matches in_view i j g

abbrev pub select_card : (ℕ → Bool) → ℕ → Option Card → Game → Game
select_card in_view j none g = g
select_card in_view j (some c) g =
    if not c.is_flipped && not c.is_matched
    then second in_view g.first_flipped_card_index j (update_card j shown (call (flip j) g))
    else g

-- `collectionView(_:didSelectItemAt:)`: a user taps an item of the array, whose cell is in view.
unfoldable pub did_select_item_at : (ℕ → Bool) → ℕ → Game → Game
unfolding check_for_matches
did_select_item_at in_view j g =
    if ltb 0 g.milliseconds then select_card in_view j (get_elem? g.card_array j) g else g

-- `timerElapsed()`. A time that is not positive is 0 here: the code asks only whether it is.
abbrev pub out_of_time : Game → Game
out_of_time g = check_game_ended (record g { timer_is_valid = false; is_red = true })

unfoldable pub timer_elapsed : Game → Game
unfolding check_game_ended
timer_elapsed g =
    let ticked = record g {
      milliseconds = g.milliseconds - 1;
      second_label = g.milliseconds - 1;
    } in
    if ltb 0 ticked.milliseconds then ticked else out_of_time ticked

-- `moveBack()`: the timer, which holds the controller, stays scheduled.
unfoldable pub move_back : Game → Game
move_back g = record g { is_top = false }

-- What can happen to a game: a scheduled timer fires, the user taps an item that is in view, or the
-- user goes back.
pub data Step : Game → Game → Type 0 where
  tick : {g : Game} → g.timer_is_valid ≡ true → Step g (timer_elapsed g)
  tap :
      {g : Game} (in_view : ℕ → Bool) (j : ℕ)
      → g.is_top ≡ true
      → j < length g.card_array
      → in_view j ≡ true
      → Step g (did_select_item_at in_view j g)
  back : {g : Game} → g.is_top ≡ true → Step g (move_back g)

-- The games that come of one by any number of steps.
pub data Reaches (start : Game) : Game → Type 0 where
  here : Reaches start start
  and_then : {g h : Game} → Reaches start g → Step g h → Reaches start h
