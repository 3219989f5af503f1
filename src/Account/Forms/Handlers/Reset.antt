-- ===== src/Account/Forms/Handlers/Reset.antt =====
-- The form of ResetPasswordController.swift after any events.
use card_pang.Common.{◌≡◌, refl, ap, sym, subst, ◌∙◌, Option, none, some, List, [], ◌∷◌}
use card_pang.Account.{Text, is_filled}
use card_pang.Account.Forms.{
  Call, ResetPasswordController, login_view_model, registeration_view_model,
  reset_password_view_model,
}
use card_pang.Account.Forms.Handlers.{
  reset_text_did_change, load_email, send_link, handle_reset_password, link_sent, ResetPasswordStep,
  Steps, here, and_then, edit_email, tap, answer,
}
use card_pang.Account.Forms.Handlers.Sound.{
  button_for, AreSound, Sound, failures, nil-Sound, send_link-Sound, link_sent-Sound,
}

-- The form for a new password: its view model says whether the text field is filled.
record IsReset (given : List (Option Text)) (c : ResetPasswordController) : Type 0 where
  email : is_filled c.view_model.email ≡ is_filled c.email_text_field
  button : c.reset_password_button ≡ button_for (is_filled c.email_text_field)
  sound : Sound given (failures given) c.calls

link_sent-form :
    (error : Option Text) (c : ResetPasswordController)
    → link_sent error c ≡ record c { calls = (link_sent error c).calls }
unfolding link_sent
link_sent-form none c = refl
link_sent-form (some error) c = refl

IsReset-calls :
    (given later : List (Option Text)) (c : ResetPasswordController) (calls : List Call)
    → Sound later (failures later) calls
    → IsReset given c
    → IsReset later (record c { calls = calls })
IsReset-calls given later c calls h v = record { email = v.email; button = v.button; sound = h }

load_email-IsReset : (email : Option Text) → IsReset [] (load_email email)
unfolding load_email
load_email-IsReset none = record { email = refl; button = refl; sound = nil-Sound }
load_email-IsReset (some email) = record { email = refl; button = refl; sound = nil-Sound }

ResetPasswordStep-IsReset :
    (given later : List (Option Text)) (c d : ResetPasswordController)
    → ResetPasswordStep given c later d
    → IsReset given c
    → IsReset later d
unfolding reset_text_did_change handle_reset_password
ResetPasswordStep-IsReset given later c d (edit_email text) v = record {
  email = refl;
  button = refl;
  sound = v.sound;
}
ResetPasswordStep-IsReset given later c d (tap enabled) v =
    IsReset-calls given given c (send_link c.view_model.email c.calls)
      (send_link-Sound c.view_model.email given (failures given) c.calls
        (v.email ∙ sym (ap (λ b. b.is_enabled) v.button) ∙ enabled) v.sound)
      v
ResetPasswordStep-IsReset given later c d (answer error h) v =
    subst (IsReset (error ∷ given)) (sym (link_sent-form error c)) (
      IsReset-calls given (error ∷ given) c (link_sent error c).calls
        (link_sent-Sound error given c h v.sound.sound) v)

-- After any edits of a form for a new password, which began with an email of the log-in form, taps
-- on its button while that is enabled, and answers of the service: the button is enabled, in the
-- colours of an enabled one, just when the text field holds text; each call of the service had text in its email; the loader
-- was shown once for each call and hidden once for each answer, and is hidden when all calls are
-- answered; the delegate was told once for each answer without an error, and a
-- message was shown once for each answer with one.
pub load_email-AreSound :
    (email : Option Text) (given : List (Option Text)) (c : ResetPasswordController)
    → Steps ResetPasswordStep (load_email email) given c
    → (c.reset_password_button ≡ button_for (is_filled c.email_text_field))
      × AreSound given (failures given) c.calls
load_email-AreSound email given c steps =
    let v = all_steps given c steps in (v.button, v.sound.sound)
  where
    all_steps :
        (given : List (Option Text)) (c : ResetPasswordController)
        → Steps ResetPasswordStep (load_email email) given c
        → IsReset given c
    all_steps given c here = load_email-IsReset email
    all_steps given c (and_then {given = before} {c = b} steps step) =
        ResetPasswordStep-IsReset before given b c step (all_steps before b steps)
