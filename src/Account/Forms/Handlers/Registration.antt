-- ===== src/Account/Forms/Handlers/Registration.antt =====
-- The form of RegisterationController.swift after any events.
use card_pang.Common.{◌≡◌, refl, ap, sym, subst, ◌∙◌, ◌&&◌, Option, none, some, List, ◌∷◌}
use card_pang.Account.{Text, has_text, is_filled}
use card_pang.Account.Forms.{
  Call, RegistrationController, registration_controller, login_view_model, registeration_view_model,
  reset_password_view_model,
}
use card_pang.Account.Forms.Handlers.{
  registration_text_did_change, sign_up, handle_sign_up, signed_up, RegistrationStep, Steps, here,
  and_then, edit_email, edit_password, edit_fullname, tap, answer,
}
use card_pang.Account.Forms.Handlers.Sound.{
  button_for, AreSound, Sound, failures, nil-Sound, sign_up-Sound, signed_up-Sound,
}

-- The sign-up form: its view model says of each text field whether it is filled.
record IsRegistration (given : List (Option Text)) (c : RegistrationController) : Type 0 where
  email : is_filled c.view_model.email ≡ is_filled c.email_text_field
  password : is_filled c.view_model.password ≡ is_filled c.password_text_field
  fullname : is_filled c.view_model.fullname ≡ is_filled c.fullname_text_field
  button :
      c.sign_up_button
      ≡ button_for (
          is_filled c.email_text_field
          && is_filled c.password_text_field
          && is_filled c.fullname_text_field)
  sound : Sound given (failures given) c.calls

signed_up-form :
    (error : Option Text) (c : RegistrationController)
    → signed_up error c ≡ record c { calls = (signed_up error c).calls }
unfolding signed_up
signed_up-form none c = refl
signed_up-form (some error) c = refl

IsRegistration-calls :
    (given later : List (Option Text)) (c : RegistrationController) (calls : List Call)
    → Sound later (failures later) calls
    → IsRegistration given c
    → IsRegistration later (record c { calls = calls })
IsRegistration-calls given later c calls h v = record {
  email = v.email;
  password = v.password;
  fullname = v.fullname;
  button = v.button;
  sound = h;
}

RegistrationStep-IsRegistration :
    (given later : List (Option Text)) (c d : RegistrationController)
    → RegistrationStep given c later d
    → IsRegistration given c
    → IsRegistration later d
unfolding registration_text_did_change handle_sign_up
RegistrationStep-IsRegistration given later c d (edit_email text) v = record {
  email = refl;
  password = v.password;
  fullname = v.fullname;
  button = λ i. button_for (has_text text && v.password i && v.fullname i);
  sound = v.sound;
}
RegistrationStep-IsRegistration given later c d (edit_password text) v = record {
  email = v.email;
  password = refl;
  fullname = v.fullname;
  button = λ i. button_for (v.email i && has_text text && v.fullname i);
  sound = v.sound;
}
RegistrationStep-IsRegistration given later c d (edit_fullname text) v = record {
  email = v.email;
  password = v.password;
  fullname = refl;
  button = λ i. button_for (v.email i && v.password i && has_text text);
  sound = v.sound;
}
RegistrationStep-IsRegistration given later c d (tap enabled) v =
    IsRegistration-calls given given c
      (sign_up c.email_text_field c.password_text_field c.fullname_text_field c.calls)
      (sign_up-Sound c.email_text_field c.password_text_field c.fullname_text_field given
        (failures given) c.calls (sym (ap (λ b. b.is_enabled) v.button) ∙ enabled) v.sound)
      v
RegistrationStep-IsRegistration given later c d (answer error h) v =
    subst (IsRegistration (error ∷ given)) (sym (signed_up-form error c)) (
      IsRegistration-calls given (error ∷ given) c (signed_up error c).calls
        (signed_up-Sound error given c h v.sound.sound) v)

-- After any edits of a sign-up form, taps on its button while that is enabled, and answers of the
-- service: the button is enabled, in the colours of an enabled one, just when the three text fields
-- hold text; each call of the service had text in the three arguments; the loader
-- was shown once for each call and hidden once for each answer, and is hidden when all calls are
-- answered; the delegate was told once for each answer without an error, and a
-- message was shown once for each answer with one.
pub registration_controller-AreSound :
    (given : List (Option Text)) (c : RegistrationController)
    → Steps RegistrationStep registration_controller given c
    → (c.sign_up_button
        ≡ button_for (
            is_filled c.email_text_field
            && is_filled c.password_text_field
            && is_filled c.fullname_text_field))
      × AreSound given (failures given) c.calls
registration_controller-AreSound given c steps =
    let v = all_steps given c steps in (v.button, v.sound.sound)
  where
    all_steps :
        (given : List (Option Text)) (c : RegistrationController)
        → Steps RegistrationStep registration_controller given c
        → IsRegistration given c
    all_steps given c here = record {
      email = refl;
      password = refl;
      fullname = refl;
      button = refl;
      sound = nil-Sound;
    }
    all_steps given c (and_then {given = before} {c = b} steps step) =
        RegistrationStep-IsRegistration before given b c step (all_steps before b steps)
