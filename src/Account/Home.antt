-- ===== src/Account/Home.antt =====
-- HomeController.swift: the user on screen, the welcome label, and what is presented; and the answer of
-- Google in LoginController.swift, which leads back to it.
pub mod Visits
use card_pang.Common.{
  ℕ, zero, suc, Bool, true, false, Option, none, some, List, [], ◌∷◌, if◌then◌else◌,
}
use card_pang.Account.{Text}
use card_pang.Account.Service.{
  Firebase, User, fetch_user, sign_in_with_google, update_user_has_seen_onboarding,
}

pub data HomeCall : Type 0 where
  present_login present_onboarding present_logout_alert dismiss dismiss_login : HomeCall
  push_easy_mode push_normal_mode push_hard_mode : HomeCall

-- `welcome_label` is the full name in the label's text and none before there is one; the label is
-- shown when its alpha is 1. The last call comes first.
pub record HomeController : Type 0 where
  pub user : Option User
  pub welcome_label : Option Text
  pub label_is_shown : Bool
  pub calls : List HomeCall

abbrev pub home_controller : HomeController
home_controller = record { user = none; welcome_label = none; label_is_shown = false; calls = [] }

abbrev pub call : HomeCall → HomeController → HomeController
call c home = record home { calls = c ∷ home.calls }

abbrev pub present_onboarding_if_neccessary : HomeController → HomeController
present_onboarding_if_neccessary home = elim home.user [
  | none ↦ home
  | some user ↦ if user.has_seen_onboarding then home else call present_onboarding home
]

abbrev pub show_welcome_label : HomeController → HomeController
show_welcome_label home = elim home.user [
  | none ↦ home
  | some user ↦
      if user.has_seen_onboarding
      then record home { welcome_label = some user.fullname; label_is_shown = true }
      else home
]

-- `user` with its `didSet`.
abbrev pub set_user : Option User → HomeController → HomeController
set_user user home =
    show_welcome_label (present_onboarding_if_neccessary (record home { user = user }))

abbrev pub set_has_seen_onboarding : HomeController → HomeController
set_has_seen_onboarding home = elim home.user [
  | none ↦ home
  | some user ↦ set_user (some (record user { has_seen_onboarding = true })) home
]

-- `handleLogout()`, whose alert runs `logout()` or nothing.
abbrev pub handle_logout : HomeController → HomeController
handle_logout home = call present_logout_alert home

-- `collectionView(_:didSelectItemAt:)` with the row of the index path.
unfoldable pub select_game_mode : ℕ → HomeController → HomeController
select_game_mode zero home = call push_easy_mode home
select_game_mode (suc zero) home = call push_normal_mode home
select_game_mode (suc (suc zero)) home = call push_hard_mode home
select_game_mode (suc (suc (suc row))) home = home

module _ {D : Type 0} (firebase : Firebase D) where
  pub fetch : D → HomeController → HomeController
  fetch d home = elim (fetch_user firebase d) [
    | none ↦ home
    | some user ↦ set_user (some user) home
  ]

  pub authenticate_user : D → HomeController → HomeController
  unfolding fetch
  authenticate_user d home = elim (firebase.current_user d) [
    | none ↦ call present_login home
    | some uid ↦ fetch d home
  ]

  pub authentication_complete : D → HomeController → HomeController
  unfolding fetch
  authentication_complete d home = fetch d (call dismiss home)

  -- The user is set whatever the error is.
  abbrev after_update : HomeController → Option (Option Text) × D → HomeController × D
  after_update home (none, d) = (home, d)
  after_update home (some error, d) = (set_has_seen_onboarding home, d)

  pub controller_wants_to_dismiss : D → HomeController → HomeController × D
  controller_wants_to_dismiss d home =
      after_update (call dismiss home) (update_user_has_seen_onboarding firebase d)

  abbrev after_sign_out : HomeController → Option Text × D → HomeController × D
  after_sign_out home (none, d) = (call present_login home, d)
  after_sign_out home (some error, d) = (home, d)

  unfoldable pub logout : D → HomeController → HomeController × D
  logout d home = after_sign_out home (firebase.sign_out d)

  -- The closure does not look at the error. The answer of `fetchUser` comes after both are dismissed.
  abbrev after_google : HomeController → Option (Option Text) × D → HomeController × D
  after_google home (none, d) = (home, d)
  after_google home (some error, d) = (fetch d (call dismiss_login (call dismiss home)), d)

  -- `sign(_:didSignInFor:withError:)` of LoginController, whose delegate is the home screen.
  pub sign : Option (Text × Text) → D → HomeController → HomeController × D
  sign tokens d home = after_google home (sign_in_with_google firebase tokens d)
