-- ===== src/Game/Board/Rules.antt =====
-- The rules of the game, and EasyModeController.swift, which plays by them. A board has an image at each
-- place and whether it was taken: what is face up, the time, the alerts and the cells are left out.
use card_pang.Common.{
  ℕ, zero, suc, ◌≡◌, ◌≢◌, refl, ap, sym, subst, ◌∙◌, Bool, true, false, not, ◌&&◌, inl, inr, Option,
  none, some, List, [], ◌∷◌, map, get_elem?, ltb, arith, Option-cases, Bool-cases,
}
use mathlib.Core.Option.{some-injective}
use card_pang.Game.Deck.{Card, ImageName, same_image}
use card_pang.Game.Deck.Pairs.{IsDeck}
use card_pang.Game.Board.{
  Game, matched, hidden, shown, update, update_card, check_for_matches, second, did_select_item_at,
  move_back, call, flip, view_did_load, Step, tick, tap, back, Reaches,
}
use card_pang.Game.Board.Turns.{
  is_open, IsTurn, IsFair, get_elem?-update_self, get_elem?-update_ne, check_game_ended-card_array,
}
use card_pang.Game.Board.Fair.{Reaches-IsFair, timer_elapsed-card_array}

pub record Place : Type 0 where
  pub image : ImageName
  pub is_taken : Bool

abbrev pub take_place : ℕ → List Place → List Place
take_place i [] = []
take_place zero (p ∷ places) = record p { is_taken = true } ∷ places
take_place (suc i) (p ∷ places) = p ∷ take_place i places

-- Nothing happens, or two places that were not taken, with the same image, are taken.
pub data Move : List Place → List Place → Type 0 where
  stay : {places : List Place} → Move places places
  take_pair :
      {places : List Place} (i j : ℕ) (p q : Place)
      → i ≢ j
      → get_elem? places i ≡ some p
      → get_elem? places j ≡ some q
      → p.is_taken ≡ false
      → q.is_taken ≡ false
      → same_image p.image q.image ≡ true
      → Move places (take_place j (take_place i places))

abbrev pub place : Card → Place
place c = record { image = c.image_name; is_taken = c.is_matched }

abbrev pub places : Game → List Place
places g = map place g.card_array

places-update :
    (i : ℕ) (f : Card → Card) (cards : List Card)
    → ((c : Card) → place (f c) ≡ place c)
    → map place (update i f cards) ≡ map place cards
places-update i f [] same = refl
places-update zero f (c ∷ cards) same = ap (λ p. p ∷ map place cards) (same c)
places-update (suc i) f (c ∷ cards) same = ap (λ ps. place c ∷ ps) (places-update i f cards same)

places-matched :
    (i : ℕ) (cards : List Card)
    → map place (update i matched cards) ≡ take_place i (map place cards)
places-matched i [] = refl
places-matched zero (c ∷ cards) = refl
places-matched (suc i) (c ∷ cards) = ap (λ ps. place c ∷ ps) (places-matched i cards)

get_elem?-places :
    (cards : List Card) (i : ℕ) {c : Card}
    → get_elem? cards i ≡ some c
    → get_elem? (map place cards) i ≡ some (place c)
get_elem?-places [] i e = absurd (ground (arith, e))
get_elem?-places (c ∷ cards) zero e = ap (λ x. some (place x)) (some-injective _ _ e)
get_elem?-places (c ∷ cards) (suc i) e = get_elem?-places cards i e

open_not_matched : (c : Card) → is_open c ≡ true → c.is_matched ≡ false
open_not_matched c h = ground (arith, h)

check_for_matches-Move :
    (in_view : ℕ → Bool) (i j : ℕ) (a b : Card) (g : Game)
    → i ≢ j
    → get_elem? g.card_array i ≡ some a
    → get_elem? g.card_array j ≡ some b
    → is_open a ≡ true
    → is_open b ≡ true
    → Move (places g) (places (check_for_matches in_view i j g))
unfolding check_for_matches
check_for_matches-Move in_view i j a b g h e k oa ob =
    rw (e, k)
      (elim (Bool-cases (same_image a.image_name b.image_name)) [
        | inl same ↦ rw same (
            subst (Move (places g))
              (sym (
                ap (map place) (check_game_ended-card_array _)
                ∙ places-matched j (update i matched g.card_array)
                ∙ ap (take_place j) (places-matched i g.card_array)))
              (take_pair i j (place a) (place b) h (get_elem?-places g.card_array i e)
                (get_elem?-places g.card_array j k) (open_not_matched a oa) (open_not_matched b ob)
                same))
        | inr different ↦ rw different (
            subst (Move (places g))
              (sym (
                places-update j hidden (update i hidden g.card_array) (λ c. refl)
                ∙ places-update i hidden g.card_array (λ c. refl)))
              stay)
      ])

second-Move :
    (in_view : ℕ → Bool) (j : ℕ) (b : Card) (g : Game) (first : Option ℕ)
    → get_elem? g.card_array j ≡ some b
    → not b.is_flipped && not b.is_matched ≡ true
    → IsTurn g.card_array first
    → Move (places g) (places (second in_view first j (update_card j shown (call (flip j) g))))
second-Move in_view j b g none k closed t =
    subst (Move (places g)) (sym (places-update j shown g.card_array (λ c. refl))) stay
second-Move in_view j b g (some i) k closed (a, e, oa, one) =
    subst
      (λ before.
        Move before
          (places (check_for_matches in_view i j (update_card j shown (call (flip j) g)))))
      (places-update j shown g.card_array (λ c. refl))
      (check_for_matches-Move in_view i j a (shown b) (update_card j shown (call (flip j) g)) apart
        (get_elem?-update_ne g.card_array j i shown (λ q. apart (sym q)) ∙ e)
        (get_elem?-update_self g.card_array j shown k) oa (ground (arith, closed)))
  where
    apart : i ≢ j
    apart q =
        let same = some-injective a b (sym e ∙ ap (get_elem? g.card_array) q ∙ k) in
        ground (arith, closed, oa, ap (λ c. c.is_flipped) same)

did_select_item_at-Move :
    (in_view : ℕ → Bool) (j : ℕ) (g : Game)
    → IsFair g
    → Move (places g) (places (did_select_item_at in_view j g))
unfolding did_select_item_at
did_select_item_at-Move in_view j g v = elim (Bool-cases (ltb 0 g.milliseconds)) [
  | inr late ↦ rw late stay
  | inl early ↦ rw early (elim (Option-cases (get_elem? g.card_array j)) [
    | inl out ↦ rw out stay
    | inr (b, k) ↦ rw k (elim (Bool-cases (not b.is_flipped && not b.is_matched)) [
      | inl closed ↦ rw closed (second-Move in_view j b g g.first_flipped_card_index k closed v.0)
      | inr face_up ↦ rw face_up stay
    ])
  ])
]

-- In a game that began with a dealt deck, every step from where any steps have led is a move of the
-- rules: on the board nothing happens, or two different places that were not taken, with the same
-- image, are taken.
pub Step-Move :
    (seconds pairs : ℕ) (deck : List Card) (g h : Game)
    → IsDeck pairs deck
    → Reaches (view_did_load seconds deck) g
    → Step g h
    → Move (places g) (places h)
unfolding move_back
Step-Move seconds pairs deck g h v r (tick _) =
    subst (Move (places g)) (sym (ap (map place) (timer_elapsed-card_array g))) stay
Step-Move seconds pairs deck g h v r (tap in_view j _ _ _) =
    did_select_item_at-Move in_view j g (Reaches-IsFair seconds pairs deck g v r)
Step-Move seconds pairs deck g h v r (back _) = stay
