-- ===== src/Game/Board/Fair.antt =====
-- The cards of a game that CardModel.swift's deck began, after any taps and ticks.
use card_pang.Common.{
  ℕ, zero, suc, ◌+◌, ◌≤◌, ◌≡◌, refl, ap, sym, subst, ◌∙◌, Bool, not, ◌&&◌, ◌⊎◌, inl, inr, Option,
  none, some, List, [], ◌∷◌, length, map, get_elem?, ltb, arith, Bool-cases,
}
use card_pang.Game.Deck.{Card, same_image, ImageName, card}
use card_pang.Game.Deck.Shuffle.{bit, count_if}
use card_pang.Game.Deck.Deal.{has_image, is_face_down}
use card_pang.Game.Deck.Pairs.{IsDeck}
use card_pang.Game.Board.{
  Game, check_game_ended, matched, hidden, shown, update, update_card, compare_cards,
  check_for_matches, second, select_card, did_select_item_at, timer_elapsed, move_back, call, flip,
  view_did_load, Step, tick, tap, back, Reaches, here, and_then,
}
use card_pang.Game.Board.Turns.{
  is_open, is_odd, is_matched_image, IsTurn, IsPaired, IsFair, check_game_ended-card_array,
  did_select_item_at-IsFair,
}

-- A test that only cards which fail another one satisfy is satisfied by none, when all satisfy that.
count_if-none :
    (p q : Card → Bool) (cards : List Card)
    → ((c : Card) → bit (p c) + bit (q c) ≤ 1)
    → count_if q cards ≡ length cards
    → count_if p cards ≡ 0
count_if-none p q cards apart all = omega (arith, both cards, all)
  where
    both : (cs : List Card) → count_if p cs + count_if q cs ≤ length cs
    both [] = omega arith
    both (c ∷ cs) = omega (arith, both cs, apart c)

IsDeck-IsFair :
    (seconds pairs : ℕ) (deck : List Card) → IsDeck pairs deck → IsFair (view_did_load seconds deck)
unfolding view_did_load
IsDeck-IsFair seconds pairs deck v = (
  count_if-none is_open is_face_down deck (λ c. ground arith) v.all_face_down,
  (
    count_if-none is_odd is_face_down deck (λ c. ground arith) v.all_face_down,
    λ n. (
      0,
      count_if-none (is_matched_image n) is_face_down deck (λ c. ground arith) v.all_face_down,
    ),
  ),
)

pub timer_elapsed-card_array : (g : Game) → (timer_elapsed g).card_array ≡ g.card_array
unfolding timer_elapsed check_game_ended
timer_elapsed-card_array g = ground arith

timer_elapsed-first :
    (g : Game) → (timer_elapsed g).first_flipped_card_index ≡ g.first_flipped_card_index
unfolding timer_elapsed check_game_ended
timer_elapsed-first g = ground arith

Step-IsFair : (g h : Game) → Step g h → IsFair g → IsFair h
unfolding move_back
Step-IsFair g h (tick _) v =
    let cards = sym (timer_elapsed-card_array g) in
    (
      subst (IsTurn (timer_elapsed g).card_array) (sym (timer_elapsed-first g))
          (subst (λ cs. IsTurn cs g.first_flipped_card_index) cards v.0),
      subst IsPaired cards v.1,
    )
Step-IsFair g h (tap in_view j _ _ _) v = did_select_item_at-IsFair in_view j g v
Step-IsFair g h (back _) v = v

-- In a game that began with a dealt deck, after any steps, the only card that is face up and not
-- matched, if any, is the first one of a turn; no card was matched with its back up; and the matched
-- cards with an image are an even number.
pub Reaches-IsFair :
    (seconds pairs : ℕ) (deck : List Card) (g : Game)
    → IsDeck pairs deck
    → Reaches (view_did_load seconds deck) g
    → IsFair g
Reaches-IsFair seconds pairs deck g v here = IsDeck-IsFair seconds pairs deck v
Reaches-IsFair seconds pairs deck g v (and_then {g = f} r t) =
    Step-IsFair f g t (Reaches-IsFair seconds pairs deck f v r)

abbrev pub images : List Card → List ImageName
images cards = map (λ c. c.image_name) cards

images-update :
    (i : ℕ) (f : Card → Card) (cards : List Card)
    → ((c : Card) → (f c).image_name ≡ c.image_name)
    → images (update i f cards) ≡ images cards
images-update i f [] same = refl
images-update zero f (c ∷ cards) same = ap (λ x. x ∷ images cards) (same c)
images-update (suc i) f (c ∷ cards) same =
    ap (λ xs. c.image_name ∷ xs) (images-update i f cards same)

images-update-update :
    (i j : ℕ) (f : Card → Card) (cards : List Card)
    → ((c : Card) → (f c).image_name ≡ c.image_name)
    → images (update j f (update i f cards)) ≡ images cards
images-update-update i j f cards same =
    images-update j f (update i f cards) same ∙ images-update i f cards same

compare_cards-images :
    (in_view : ℕ → Bool) (i j : ℕ) (a b : Option Card) (g : Game)
    → images (compare_cards in_view i j a b g).card_array ≡ images g.card_array
compare_cards-images in_view i j none b g = refl
compare_cards-images in_view i j (some a) none g = refl
compare_cards-images in_view i j (some a) (some b) g =
    elim (Bool-cases (same_image a.image_name b.image_name)) [
      | inl same ↦ rw same (
          ap images (check_game_ended-card_array _)
          ∙ images-update-update i j matched g.card_array (λ c. refl))
      | inr different ↦ rw different (images-update-update i j hidden g.card_array (λ c. refl))
    ]

second-images :
    (in_view : ℕ → Bool) (i : Option ℕ) (j : ℕ) (g : Game)
    → images (second in_view i j g).card_array ≡ images g.card_array
unfolding check_for_matches
second-images in_view none j g = refl
second-images in_view (some i) j g =
    compare_cards-images in_view i j (get_elem? g.card_array i) (get_elem? g.card_array j) g

select_card-images :
    (in_view : ℕ → Bool) (j : ℕ) (c : Option Card) (g : Game)
    → images (select_card in_view j c g).card_array ≡ images g.card_array
select_card-images in_view j none g = refl
select_card-images in_view j (some c) g = elim (Bool-cases (not c.is_flipped && not c.is_matched)) [
  | inl closed ↦ rw closed (
      second-images in_view g.first_flipped_card_index j (update_card j shown (call (flip j) g))
      ∙ images-update j shown g.card_array (λ c. refl))
  | inr face_up ↦ rw face_up refl
]

did_select_item_at-images :
    (in_view : ℕ → Bool) (j : ℕ) (g : Game)
    → images (did_select_item_at in_view j g).card_array ≡ images g.card_array
unfolding did_select_item_at
did_select_item_at-images in_view j g = elim (Bool-cases (ltb 0 g.milliseconds)) [
  | inl early ↦ rw early (select_card-images in_view j (get_elem? g.card_array j) g)
  | inr late ↦ rw late refl
]

Step-images : (g h : Game) → Step g h → images h.card_array ≡ images g.card_array
unfolding move_back
Step-images g h (tick _) = ap images (timer_elapsed-card_array g)
Step-images g h (tap in_view j _ _ _) = did_select_item_at-images in_view j g
Step-images g h (back _) = refl

-- After any steps each place of the board holds the image that it was dealt.
Reaches-images :
    (seconds : ℕ) (deck : List Card) (g : Game)
    → Reaches (view_did_load seconds deck) g
    → images g.card_array ≡ images deck
unfolding view_did_load
Reaches-images seconds deck g here = refl
Reaches-images seconds deck g (and_then {g = f} r t) =
    Step-images f g t ∙ Reaches-images seconds deck f r

count_if-images :
    (n : ℕ) (cards : List Card)
    → count_if (has_image n) cards ≡ count_if (same_image (card n)) (images cards)
count_if-images n [] = refl
count_if-images n (c ∷ cards) = omega (arith, count_if-images n cards)

count_if-weaker :
    (n : ℕ) (cards : List Card) → count_if (is_matched_image n) cards ≤ count_if (has_image n) cards
count_if-weaker n [] = omega arith
count_if-weaker n (c ∷ cards) = ground (arith, count_if-weaker n cards)

-- In a game that began with a dealt deck, after any steps, both cards with an image are matched or
-- neither is.
pub Reaches-both :
    (seconds pairs : ℕ) (deck : List Card) (g : Game)
    → IsDeck pairs deck
    → Reaches (view_did_load seconds deck) g
    → (n : ℕ)
    → (count_if (is_matched_image n) g.card_array ≡ 0)
      ⊎ (count_if (is_matched_image n) g.card_array ≡ count_if (has_image n) g.card_array)
Reaches-both seconds pairs deck g v r n =
    let fair = Reaches-IsFair seconds pairs deck g v r in
    let even = fair.1.1 n in
    let kept =
      count_if-images n g.card_array
      ∙ ap (count_if (same_image (card n))) (Reaches-images seconds deck g r)
      ∙ sym (count_if-images n deck) in
    elim (v.images n) [
      | inl there ↦ ground (arith, even.1, kept, there.0, count_if-weaker n g.card_array)
      | inr missing ↦ inl (omega (arith, kept, missing, count_if-weaker n g.card_array))
    ]
