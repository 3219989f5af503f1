-- ===== src/Game/Board/Time.antt =====
-- The countdown of EasyModeController.swift when the user does not tap.
use card_pang.Common.{
  ℕ, zero, suc, ◌-◌, ◌<◌, ◌≡◌, refl, ap, ◌∙◌, true, false, [], ◌∷◌, ◌++◌, ltb, lt→ltb,
  if◌then◌else◌, arith,
}
use card_pang.Game.Board.{Game, too_bad, is_won, check_game_ended, timer_elapsed, out_of_time}

-- The timer fires a number of times.
abbrev pub ticks : ℕ → Game → Game
ticks zero g = g
ticks (suc k) g = ticks k (timer_elapsed g)

abbrev at : ℕ → Game → Game
at m g = record g { milliseconds = m; second_label = m }

timer_elapsed-early : (g : Game) → 1 < g.milliseconds → timer_elapsed g ≡ at (g.milliseconds - 1) g
unfolding timer_elapsed
timer_elapsed-early g h = rw (lt→ltb 0 (g.milliseconds - 1) (omega arith)) refl

timer_elapsed-last :
    (g : Game)
    → g.milliseconds ≡ 1
    → is_won g.card_array ≡ false
    → timer_elapsed g ≡ record g {
      milliseconds = 0;
      second_label = 0;
      timer_is_valid = false;
      is_red = true;
      alerts = g.alerts ++ too_bad ∷ [];
    }
unfolding timer_elapsed check_game_ended
timer_elapsed-last g one w =
    let none_left : g.milliseconds - 1 ≡ 0 = omega arith in
    ap (λ m. if ltb 0 m then at m g else out_of_time (at m g)) none_left ∙ rw w refl

-- While time is left after them, ticks count down and show the time, and do nothing else.
pub ticks-early :
    (k : ℕ) (g : Game) → suc k < g.milliseconds → ticks (suc k) g ≡ at (g.milliseconds - suc k) g
ticks-early zero g h = timer_elapsed-early g h
ticks-early (suc k) g h =
    ap (ticks (suc k)) (timer_elapsed-early g (omega arith))
    ∙ ticks-early k (at (g.milliseconds - 1) g) (omega arith)
    ∙ ap (λ m. at m g) (omega arith)

-- When not all cards are matched, the tick that uses up the time stops the timer, turns the label
-- red and shows that the game is lost.
pub ticks-out :
    (k : ℕ) (g : Game)
    → g.milliseconds ≡ suc k
    → is_won g.card_array ≡ false
    → ticks (suc k) g ≡ record g {
      milliseconds = 0;
      second_label = 0;
      timer_is_valid = false;
      is_red = true;
      alerts = g.alerts ++ too_bad ∷ [];
    }
ticks-out zero g e w = timer_elapsed-last g (omega arith) w
ticks-out (suc k) g e w =
    ap (ticks (suc k)) (timer_elapsed-early g (omega arith))
    ∙ ticks-out k (at (g.milliseconds - 1) g) (omega arith) w
