-- ===== src/Account/Forms/Handlers/Login.antt =====
-- The form of LoginController.swift after any events.
use card_pang.Common.{◌≡◌, refl, ap, sym, subst, ◌∙◌, ◌&&◌, Option, none, some, List, ◌∷◌}
use card_pang.Account.{Text, has_text, is_filled}
use card_pang.Account.Forms.{
  Call, LoginController, login_controller, login_view_model, registeration_view_model,
  reset_password_view_model,
}
use card_pang.Account.Forms.Handlers.{
  login_text_did_change, log_in, handle_login, logged_in, LoginStep, Steps, here, and_then,
  edit_email, edit_password, tap, answer,
}
use card_pang.Account.Forms.Handlers.Sound.{
  button_for, AreSound, Sound, nil-Sound, log_in-Sound, logged_in-Sound,
}

-- The log-in form: its view model says of each text field whether it is filled.
record IsLogin (given : List (Option Text)) (c : LoginController) : Type 0 where
  pub email : is_filled c.view_model.email ≡ is_filled c.email_text_field
  pub password : is_filled c.view_model.password ≡ is_filled c.password_text_field
  pub button :
      c.login_button ≡ button_for (is_filled c.email_text_field && is_filled c.password_text_field)
  pub sound : Sound given 0 c.calls

logged_in-form :
    (error : Option Text) (c : LoginController)
    → logged_in error c ≡ record c { calls = (logged_in error c).calls }
unfolding logged_in
logged_in-form none c = refl
logged_in-form (some error) c = refl

IsLogin-calls :
    (given later : List (Option Text)) (c : LoginController) (calls : List Call)
    → Sound later 0 calls
    → IsLogin given c
    → IsLogin later (record c { calls = calls })
IsLogin-calls given later c calls h v = record {
  email = v.email;
  password = v.password;
  button = v.button;
  sound = h;
}

LoginStep-IsLogin :
    (given later : List (Option Text)) (c d : LoginController)
    → LoginStep given c later d
    → IsLogin given c
    → IsLogin later d
unfolding login_text_did_change handle_login
LoginStep-IsLogin given later c d (edit_email text) v = record {
  email = refl;
  password = v.password;
  button = ap (λ b. button_for (has_text text && b)) v.password;
  sound = v.sound;
}
LoginStep-IsLogin given later c d (edit_password text) v = record {
  email = v.email;
  password = refl;
  button = ap (λ b. button_for (b && has_text text)) v.email;
  sound = v.sound;
}
LoginStep-IsLogin given later c d (tap enabled) v =
    IsLogin-calls given given c (log_in c.email_text_field c.password_text_field c.calls)
      (log_in-Sound c.email_text_field c.password_text_field given 0 c.calls
        (sym (ap (λ b. b.is_enabled) v.button) ∙ enabled) v.sound)
      v
LoginStep-IsLogin given later c d (answer error h) v =
    subst (IsLogin (error ∷ given)) (sym (logged_in-form error c)) (
      IsLogin-calls given (error ∷ given) c (logged_in error c).calls
        (logged_in-Sound error given c h v.sound.sound) v)

-- After any edits of a log-in form, taps on its button while that is enabled, and answers of the
-- service: the button is enabled, in the colours of an enabled one, just when both text fields hold
-- text; each call of the service had text in both arguments; the loader
-- was shown once for each call and hidden once for each answer, and is hidden when all calls are
-- answered; the delegate was told once for each answer without an error, and no
-- message was shown.
pub login_controller-AreSound :
    (given : List (Option Text)) (c : LoginController)
    → Steps LoginStep login_controller given c
    → (c.login_button
        ≡ button_for (is_filled c.email_text_field && is_filled c.password_text_field))
      × AreSound given 0 c.calls
login_controller-AreSound given c steps =
    let v = login_steps given c steps in (v.button, v.sound.sound)
  where
    login_steps :
        (given : List (Option Text)) (c : LoginController)
        → Steps LoginStep login_controller given c
        → IsLogin given c
    login_steps given c here = record {
      email = refl;
      password = refl;
      button = refl;
      sound = nil-Sound;
    }
    login_steps given c (and_then {given = before} {c = b} steps step) =
        LoginStep-IsLogin before given b c step (login_steps before b steps)
