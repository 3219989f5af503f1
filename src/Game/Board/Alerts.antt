-- ===== src/Game/Board/Alerts.antt =====
-- When a game ends, and what it shows (`checkGameEnded()` and the handlers that call it).
use card_pang.Common.{
  ℕ, zero, suc, ◌-◌, ◌<◌, ◌≡◌, refl, ap, sym, subst, ◌∙◌, Bool, true, false, not, ◌&&◌, ◌⊎◌, inl,
  inr, Option, none, some, List, [], ◌∷◌, ◌++◌, get_elem?, ltb, ltb→lt, lt→ltb, if◌then◌else◌,
  arith, Option-cases, Bool-cases,
}
use mathlib.Core.Option.{some-injective}
use card_pang.Game.Deck.{Card, same_image}
use card_pang.Game.Board.{
  congratulations, too_bad, Game, is_won, check_game_ended, hidden, shown, update, update_card,
  call, compare_cards, check_for_matches, second, select_card, did_select_item_at, timer_elapsed,
  move_back, view_did_load, Step, tick, tap, back, Reaches, here, and_then, flip,
}

-- The timer runs, and nothing has been shown.
abbrev IsWaiting : Game → Type 0
IsWaiting g = (g.timer_is_valid ≡ true) × (0 < g.milliseconds) × (g.alerts ≡ [])

abbrev pub IsRunning : Game → Type 0
IsRunning g =
    (g.timer_is_valid ≡ true)
    × (0 < g.milliseconds)
    × (g.alerts ≡ [])
    × (is_won g.card_array ≡ false)

-- All cards are matched, with time left, and the only alert is the congratulation.
abbrev pub IsWon : Game → Type 0
IsWon g =
    (g.timer_is_valid ≡ false)
    × (0 < g.milliseconds)
    × (g.alerts ≡ congratulations ∷ [])
    × (is_won g.card_array ≡ true)

-- No time is left, a card is not matched, and the only alert says so.
abbrev pub IsLost : Game → Type 0
IsLost g =
    (g.timer_is_valid ≡ false)
    × (g.milliseconds ≡ 0)
    × (g.alerts ≡ too_bad ∷ [])
    × (is_won g.card_array ≡ false)

abbrev pub IsStanding : Game → Type 0
IsStanding g = IsRunning g ⊎ IsWon g ⊎ IsLost g

check_game_ended-IsWaiting : (g : Game) → IsWaiting g → IsStanding (check_game_ended g)
unfolding check_game_ended
check_game_ended-IsWaiting g (v, m, e) = elim (Bool-cases (is_won g.card_array)) [
  | inl won ↦
      rw (won, lt→ltb 0 g.milliseconds m)
        (inr (inl (refl, m, ap (λ t. t ++ congratulations ∷ []) e, won)))
  | inr not_yet ↦ rw (not_yet, lt→ltb 0 g.milliseconds m) (inl (v, m, e, not_yet))
]

is_won-update :
    (i : ℕ) (f : Card → Card) (cards : List Card)
    → ((c : Card) → (f c).is_matched ≡ c.is_matched)
    → is_won (update i f cards) ≡ is_won cards
is_won-update i f [] same = refl
is_won-update zero f (c ∷ cards) same = ap (λ b. if b then is_won cards else false) (same c)
is_won-update (suc i) f (c ∷ cards) same =
    ap (λ b. if c.is_matched then b else false) (is_won-update i f cards same)

-- In a game that is won every card is matched.
is_won-get_elem? :
    (cards : List Card) (j : ℕ) {c : Card}
    → is_won cards ≡ true
    → get_elem? cards j ≡ some c
    → c.is_matched ≡ true
is_won-get_elem? [] j w e = absurd (ground (arith, e))
is_won-get_elem? (c ∷ cards) zero w e =
    ap (λ x. x.is_matched) (sym (some-injective _ _ e)) ∙ ground (arith, w)
is_won-get_elem? (c ∷ cards) (suc j) w e = is_won-get_elem? cards j (ground (arith, w)) e

compare_cards-IsStanding :
    (in_view : ℕ → Bool) (i j : ℕ) (a b : Option Card) (g : Game)
    → IsRunning g
    → IsStanding (compare_cards in_view i j a b g)
compare_cards-IsStanding in_view i j none b g r = inl r
compare_cards-IsStanding in_view i j (some a) none g r = inl r
compare_cards-IsStanding in_view i j (some a) (some b) g r =
    elim (Bool-cases (same_image a.image_name b.image_name)) [
      | inl same ↦ rw same (check_game_ended-IsWaiting _ (r.0, r.1, r.2))
      | inr different ↦ rw different (
          inl (
            r.0,
            r.1,
            r.2,
            is_won-update j hidden (update i hidden g.card_array) (λ c. refl)
                ∙ is_won-update i hidden g.card_array (λ c. refl)
                ∙ r.3,
          ))
    ]

second-IsStanding :
    (in_view : ℕ → Bool) (i : Option ℕ) (j : ℕ) (g : Game)
    → IsRunning g
    → IsStanding (second in_view i j g)
unfolding check_for_matches
second-IsStanding in_view none j g r = inl r
second-IsStanding in_view (some i) j g r =
    compare_cards-IsStanding in_view i j (get_elem? g.card_array i) (get_elem? g.card_array j) g r

select_card-IsStanding :
    (in_view : ℕ → Bool) (j : ℕ) (c : Option Card) (g : Game)
    → IsRunning g
    → IsStanding (select_card in_view j c g)
select_card-IsStanding in_view j none g r = inl r
select_card-IsStanding in_view j (some c) g r =
    elim (Bool-cases (not c.is_flipped && not c.is_matched)) [
      | inl closed ↦ rw closed (
          second-IsStanding in_view g.first_flipped_card_index j
            (update_card j shown (call (flip j) g))
            (r.0, r.1, r.2, is_won-update j shown g.card_array (λ c. refl) ∙ r.3))
      | inr face_up ↦ rw face_up (inl r)
    ]

-- A tap in a game that is won changes nothing.
did_select_item_at-IsWon :
    (in_view : ℕ → Bool) (j : ℕ) (g : Game) → IsWon g → did_select_item_at in_view j g ≡ g
unfolding did_select_item_at
did_select_item_at-IsWon in_view j g (v, m, a, w) =
    rw (lt→ltb 0 g.milliseconds m) (elim (Option-cases (get_elem? g.card_array j)) [
      | inl e ↦ rw e refl
      | inr (c, e) ↦ rw e (ground (arith, is_won-get_elem? g.card_array j w e))
    ])

did_select_item_at-late :
    (in_view : ℕ → Bool) (j : ℕ) (g : Game)
    → g.milliseconds ≡ 0
    → did_select_item_at in_view j g ≡ g
unfolding did_select_item_at
did_select_item_at-late in_view j g m = ground (arith, m)

did_select_item_at-IsStanding :
    (in_view : ℕ → Bool) (j : ℕ) (g : Game)
    → IsStanding g
    → IsStanding (did_select_item_at in_view j g)
unfolding did_select_item_at
did_select_item_at-IsStanding in_view j g (inl r) =
    rw (lt→ltb 0 g.milliseconds r.1)
      (select_card-IsStanding in_view j (get_elem? g.card_array j) g r)
did_select_item_at-IsStanding in_view j g (inr (inl w)) =
    subst IsStanding (sym (did_select_item_at-IsWon in_view j g w)) (inr (inl w))
did_select_item_at-IsStanding in_view j g (inr (inr l)) =
    subst IsStanding (sym (did_select_item_at-late in_view j g l.1)) (inr (inr l))

timer_elapsed-IsStanding :
    (g : Game) → g.timer_is_valid ≡ true → IsStanding g → IsStanding (timer_elapsed g)
unfolding timer_elapsed check_game_ended
timer_elapsed-IsStanding g v (inl (_, m, a, w)) = elim (Bool-cases (ltb 0 (g.milliseconds - 1))) [
  | inl more ↦ rw more (inl (v, ltb→lt _ _ more, a, w))
  | inr out ↦ rw (out, w) (inr (inr (refl, ground (arith, out), ap (λ t. t ++ too_bad ∷ []) a, w)))
]
timer_elapsed-IsStanding g v (inr (inl w)) = absurd (ground (arith, v, w.0))
timer_elapsed-IsStanding g v (inr (inr l)) = absurd (ground (arith, v, l.0))

Step-IsStanding : (g h : Game) → Step g h → IsStanding g → IsStanding h
unfolding move_back
Step-IsStanding g h (tick v) s = timer_elapsed-IsStanding g v s
Step-IsStanding g h (tap in_view j _ _ _) s = did_select_item_at-IsStanding in_view j g s
Step-IsStanding g h (back _) (inl r) = inl r
Step-IsStanding g h (back _) (inr (inl w)) = inr (inl w)
Step-IsStanding g h (back _) (inr (inr l)) = inr (inr l)

-- A game begins with cards of which one is not matched, and a positive time. After any steps its
-- timer runs and nothing has been shown, or all cards were matched in time and the congratulation is
-- the only alert, or the time is out with a card that is not matched, and that is the only alert.
pub Reaches-IsStanding :
    (seconds : ℕ) (cards : List Card) (g : Game)
    → 0 < seconds
    → is_won cards ≡ false
    → Reaches (view_did_load seconds cards) g
    → IsStanding g
unfolding view_did_load
Reaches-IsStanding seconds cards g s w here = inl (refl, omega arith, refl, w)
Reaches-IsStanding seconds cards g s w (and_then {g = f} r t) =
    Step-IsStanding f g t (Reaches-IsStanding seconds cards f s w r)

-- Once the timer of such a game is invalid, a step changes nothing, or it leaves the view.
pub Step-ended :
    (seconds : ℕ) (cards : List Card) (g h : Game)
    → 0 < seconds
    → is_won cards ≡ false
    → Reaches (view_did_load seconds cards) g
    → g.timer_is_valid ≡ false
    → Step g h
    → (h ≡ g) ⊎ (h ≡ move_back g)
Step-ended seconds cards g h s w r v (tick u) = absurd (ground (arith, u, v))
Step-ended seconds cards g h s w r v (tap in_view j _ _ _) =
    elim (Reaches-IsStanding seconds cards g s w r) [
      | inl i ↦ absurd (ground (arith, i.0, v))
      | inr (inl i) ↦ inl (did_select_item_at-IsWon in_view j g i)
      | inr (inr i) ↦ inl (did_select_item_at-late in_view j g i.1)
    ]
Step-ended seconds cards g h s w r v (back _) = inr refl
