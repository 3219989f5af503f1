-- ===== src/Account/Examples.antt =====
-- Runs of the forms and of the first visits, and instances of the theorems about them. The database
-- has the node of one user.
use card_pang.Common.{◌≡◌, refl, true, false, ◌&&◌, Option, none, some, [], ◌∷◌, arith}
use card_pang.Account.{Text, is_filled}
use card_pang.Account.Forms.{
  LoginController, RegistrationController, ResetPasswordController, login_controller,
  registration_controller,
}
use card_pang.Account.Forms.Handlers.{
  login_text_did_change, registration_text_did_change, load_email, handle_login, handle_sign_up,
  handle_reset_password, logged_in, signed_up, link_sent, email_text_field, password_text_field,
  fullname_text_field, LoginStep, RegistrationStep, ResetPasswordStep, Steps, here, and_then,
  edit_email, edit_password, edit_fullname, tap, answer,
}
use card_pang.Account.Forms.Handlers.Sound.{button_for, AreSound}
use card_pang.Account.Forms.Handlers.Login.{login_controller-AreSound}
use card_pang.Account.Forms.Handlers.Registration.{registration_controller-AreSound}
use card_pang.Account.Forms.Handlers.Reset.{load_email-AreSound}
use card_pang.Account.Service.{
  Snapshot, missing, children, AuthUser, AuthResult, Firebase, new_user, new_values,
  register_user_with_firebase, sign_in_with_google, fetch_user,
}
use card_pang.Account.Service.Documented.{IsFirebase, overlay, put, children_of}
use card_pang.Account.Home.{
  HomeController, home_controller, select_game_mode, push_hard_mode, logout, handle_logout,
  present_login, present_logout_alert, call, dismiss, dismiss_login, set_user, sign,
  present_onboarding, authenticate_user, authentication_complete, controller_wants_to_dismiss,
}
use card_pang.Account.Home.Visits.{
  authentication_complete-register_user_with_firebase,
  controller_wants_to_dismiss-authenticate_user, fetch_user-sign_in_with_google_known,
  fetch_user-sign_in_with_google_new,
}

abbrev mail : Text
mail = 0x61 ∷ 0x40 ∷ []

abbrev secret : Text
secret = 0x73 ∷ []

abbrev name : Text
name = 0x41 ∷ []

-- An email and a password, a tap, and an answer.
abbrev emailed : LoginController
emailed =
    login_text_did_change email_text_field
      (record login_controller { email_text_field = some mail })

abbrev typed : LoginController
typed =
    login_text_did_change password_text_field (record emailed { password_text_field = some secret })

abbrev closed : LoginController
closed = logged_in none (handle_login typed)

login-Steps : Steps LoginStep login_controller (none ∷ []) closed
unfolding login_text_did_change handle_login
login-Steps =
    and_then
      (and_then (and_then (and_then here (edit_email mail)) (edit_password secret)) (tap refl))
      (answer none (omega arith))

login_controller-AreSound_example :
    (closed.login_button
      ≡ button_for (is_filled closed.email_text_field && is_filled closed.password_text_field))
    × AreSound (none ∷ []) 0 closed.calls
login_controller-AreSound_example = login_controller-AreSound (none ∷ []) closed login-Steps

-- Three texts, a tap, and an error.
abbrev mailed : RegistrationController
mailed =
    registration_text_did_change email_text_field
      (record registration_controller { email_text_field = some mail })

abbrev secretive : RegistrationController
secretive =
    registration_text_did_change password_text_field
      (record mailed { password_text_field = some secret })

abbrev named : RegistrationController
named =
    registration_text_did_change fullname_text_field
      (record secretive { fullname_text_field = some name })

abbrev signing : RegistrationController
signing = signed_up (some name) (handle_sign_up named)

registration-Steps : Steps RegistrationStep registration_controller (some name ∷ []) signing
unfolding registration_text_did_change handle_sign_up
registration-Steps =
    and_then
      (and_then
        (and_then (and_then (and_then here (edit_email mail)) (edit_password secret))
          (edit_fullname name))
        (tap refl))
      (answer (some name) (omega arith))

registration_controller-AreSound_example :
    (signing.sign_up_button
      ≡ button_for (
          is_filled signing.email_text_field
          && is_filled signing.password_text_field
          && is_filled signing.fullname_text_field))
    × AreSound (some name ∷ []) 1 signing.calls
registration_controller-AreSound_example =
    registration_controller-AreSound (some name ∷ []) signing registration-Steps

-- An email from the log-in form, a tap, and an error.
abbrev refused : ResetPasswordController
refused = link_sent (some name) (handle_reset_password (load_email (some mail)))

reset-Steps : Steps ResetPasswordStep (load_email (some mail)) (some name ∷ []) refused
unfolding load_email handle_reset_password
reset-Steps = and_then (and_then here (tap refl)) (answer (some name) (omega arith))

load_email-AreSound_example :
    (refused.reset_password_button ≡ button_for (is_filled refused.email_text_field))
    × AreSound (some name ∷ []) 1 refused.calls
load_email-AreSound_example = load_email-AreSound (some mail) (some name ∷ []) refused reset-Steps

record State : Type 0 where
  current_uid : Option Text
  node : Snapshot

abbrev somebody : AuthUser
somebody = record { uid = secret; email = some mail; display_name = some name }

abbrev signed : State → AuthResult × State
signed d = (record { user = some somebody; error = none }, record d { current_uid = some secret })

abbrev firebase : Firebase State
firebase = record {
  current_user = λ d. d.current_uid;
  create_user = λ _ _ d. signed d;
  sign_in_with = λ _ d. signed d;
  sign_out = λ d. (none, record d { current_uid = none });
  snapshot = λ _ d. d.node;
  update_child_values =
      λ _ values d. (none, record d { node = children (overlay values (children_of d.node)) });
  set_value =
      λ _ key value d. (none, record d { node = children (put key value (children_of d.node)) });
}

firebase-IsFirebase : IsFirebase firebase
firebase-IsFirebase = record {
  created = λ _ _ d user e u i. some (uid_of (u i));
  signed_in = λ _ d user e u i. some (uid_of (u i));
  sign_in_reads = λ _ d uid. refl;
  updated = λ uid values d key value e w. refl;
  update_user = λ uid values d. refl;
  value_set = λ uid key value d w. refl;
  user_after_set = λ uid key value d. refl;
}
  where
    uid_of : Option AuthUser → Text
    uid_of none = secret
    uid_of (some user) = user.uid

abbrev nobody : State
nobody = record { current_uid = none; node = missing }

abbrev known : State
known = record { current_uid = some secret; node = children (new_values mail name) }

authentication_complete-register_user_with_firebase_example :
    ((register_user_with_firebase firebase mail secret name nobody).0 ≡ some none)
    × (authentication_complete firebase
          (register_user_with_firebase firebase mail secret name nobody).1
          home_controller
        ≡ record {
          user =
              some (record {
                email = mail;
                fullname = name;
                has_seen_onboarding = false;
                uid = secret;
              });
          welcome_label = none;
          label_is_shown = false;
          calls = present_onboarding ∷ dismiss ∷ [];
        })
authentication_complete-register_user_with_firebase_example =
    authentication_complete-register_user_with_firebase firebase firebase-IsFirebase mail secret
      name nobody somebody home_controller refl refl refl

abbrev visited : HomeController
visited = record home_controller { user = some (new_user secret (new_values mail name)) }

controller_wants_to_dismiss-authenticate_user_example :
    ((controller_wants_to_dismiss firebase known visited).0 ≡ record {
      user =
          some (record { email = mail; fullname = name; has_seen_onboarding = true; uid = secret });
      welcome_label = some name;
      label_is_shown = true;
      calls = dismiss ∷ [];
    })
    × (authenticate_user firebase
          (controller_wants_to_dismiss firebase known visited).1
          home_controller
        ≡ record {
          user =
              some (record {
                email = mail;
                fullname = name;
                has_seen_onboarding = true;
                uid = secret;
              });
          welcome_label = some name;
          label_is_shown = true;
          calls = [];
        })
controller_wants_to_dismiss-authenticate_user_example =
    controller_wants_to_dismiss-authenticate_user firebase firebase-IsFirebase known secret
      (new_values mail name) visited refl refl refl refl

fetch_user-sign_in_with_google_known_example :
    ((sign_in_with_google firebase (some (name, name)) known).0 ≡ some none)
    × (fetch_user firebase (sign_in_with_google firebase (some (name, name)) known).1
        ≡ some (new_user secret (new_values mail name)))
    × ((sign firebase (some (name, name)) known home_controller).0
        ≡ set_user
            (some (new_user secret (new_values mail name)))
            (call dismiss_login (call dismiss home_controller)))
fetch_user-sign_in_with_google_known_example =
    fetch_user-sign_in_with_google_known firebase firebase-IsFirebase (name, name) known somebody
      (new_values mail name) home_controller refl refl refl

fetch_user-sign_in_with_google_new_example :
    ((sign_in_with_google firebase (some (name, name)) nobody).0 ≡ some none)
    × (fetch_user firebase (sign_in_with_google firebase (some (name, name)) nobody).1
        ≡ some
            (record { email = mail; fullname = name; has_seen_onboarding = false; uid = secret }))
    × ((sign firebase (some (name, name)) nobody home_controller).0 ≡ record home_controller {
      user =
          some
            (record { email = mail; fullname = name; has_seen_onboarding = false; uid = secret });
      calls = present_onboarding ∷ dismiss_login ∷ dismiss ∷ [];
    })
fetch_user-sign_in_with_google_new_example =
    fetch_user-sign_in_with_google_new firebase firebase-IsFirebase (name, name) nobody somebody
      mail name home_controller refl refl refl refl refl refl

select_game_mode-hard : (select_game_mode 2 home_controller).calls ≡ push_hard_mode ∷ []
unfolding select_game_mode
select_game_mode-hard = refl

logout-asked :
    (logout firebase known (handle_logout home_controller)).0.calls
    ≡ present_login ∷ present_logout_alert ∷ []
unfolding logout
logout-asked = refl
