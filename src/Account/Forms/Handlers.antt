-- ===== src/Account/Forms/Handlers.antt =====
-- The handlers of LoginController.swift, RegisterationController.swift and
-- ResetPasswordController.swift, and the events that run them. The answer of the service is an error's
-- text, or none.
pub mod Sound
pub mod Login
pub mod Registration
pub mod Reset
use card_pang.Common.{
  ℕ, ◌+◌, ◌<◌, ◌≡◌, Bool, true, false, Option, none, some, List, [], ◌∷◌, length, if◌then◌else◌,
}
use card_pang.Account.{Text}
use card_pang.Account.Forms.{
  update_form, login_view_model, registeration_view_model, reset_password_view_model,
  LoginViewModel, RegisterationViewModel, ResetPasswordViewModel, Message,
  not_right_email_or_password, not_right_email, Call, show_loader, log_user_in, register_user,
  reset_password, show_message, authentication_completed, did_send_reset_password_link,
  LoginController, RegistrationController, ResetPasswordController, login_controller,
  registration_controller, reset_password_controller,
}

-- The text field that is the sender of an event.
pub data TextField : Type 0 where
  email_text_field password_text_field fullname_text_field : TextField

-- `textDidChange(_:)` with `updateForm()`: the view model and the button.
abbrev login_text : TextField → LoginController → LoginViewModel
login_text email_text_field c = record c.view_model { email = c.email_text_field }
login_text password_text_field c = record c.view_model { password = c.password_text_field }
login_text fullname_text_field c = record c.view_model { password = c.password_text_field }

unfoldable pub login_text_did_change : TextField → LoginController → LoginController
login_text_did_change sender c = record c {
  view_model = login_text sender c;
  login_button = update_form (login_text sender c);
}

abbrev registration_text : TextField → RegistrationController → RegisterationViewModel
registration_text email_text_field c = record c.view_model { email = c.email_text_field }
registration_text password_text_field c = record c.view_model { password = c.password_text_field }
registration_text fullname_text_field c = record c.view_model { fullname = c.fullname_text_field }

unfoldable pub registration_text_did_change :
    TextField → RegistrationController → RegistrationController
registration_text_did_change sender c = record c {
  view_model = registration_text sender c;
  sign_up_button = update_form (registration_text sender c);
}

unfoldable pub reset_text_did_change : ResetPasswordController → ResetPasswordController
reset_text_did_change c =
    let v : ResetPasswordViewModel = record { email = c.email_text_field } in
    record c { view_model = v; reset_password_button = update_form v }

-- `loadEmail()`
unfoldable pub load_email : Option Text → ResetPasswordController
load_email none = reset_password_controller
load_email (some email) =
    let v : ResetPasswordViewModel = record { email = some email } in
    record reset_password_controller {
      view_model = v;
      email_text_field = some email;
      reset_password_button = update_form v;
    }

-- `handleLogin()`, `handleSignUP()` and `handleResetPassword()` as far as the call of the service.
pub log_in : Option Text → Option Text → List Call → List Call
log_in none password calls = calls
log_in (some email) none calls = calls
log_in (some email) (some password) calls = log_user_in email password ∷ show_loader true ∷ calls

unfoldable pub handle_login : LoginController → LoginController
unfolding log_in
handle_login c = record c { calls = log_in c.email_text_field c.password_text_field c.calls }

pub sign_up : Option Text → Option Text → Option Text → List Call → List Call
sign_up none password fullname calls = calls
sign_up (some email) none fullname calls = calls
sign_up (some email) (some password) none calls = calls
sign_up (some email) (some password) (some fullname) calls =
    register_user email password fullname ∷ show_loader true ∷ calls

unfoldable pub handle_sign_up : RegistrationController → RegistrationController
unfolding sign_up
handle_sign_up c = record c {
  calls = sign_up c.email_text_field c.password_text_field c.fullname_text_field c.calls;
}

pub send_link : Option Text → List Call → List Call
send_link none calls = calls
send_link (some email) calls = reset_password email ∷ show_loader true ∷ calls

unfoldable pub handle_reset_password : ResetPasswordController → ResetPasswordController
unfolding send_link
handle_reset_password c = record c { calls = send_link c.view_model.email c.calls }

-- Their closures, which the service calls with its answer.
unfoldable pub logged_in : Option Text → LoginController → LoginController
logged_in none c = record c { calls = authentication_completed ∷ show_loader false ∷ c.calls }
logged_in (some error) c = record c { calls = show_loader false ∷ c.calls }

unfoldable pub signed_up : Option Text → RegistrationController → RegistrationController
signed_up none c = record c { calls = authentication_completed ∷ show_loader false ∷ c.calls }
signed_up (some error) c = record c {
  calls = show_message not_right_email_or_password ∷ show_loader false ∷ c.calls;
}

unfoldable pub link_sent : Option Text → ResetPasswordController → ResetPasswordController
link_sent none c = record c { calls = did_send_reset_password_link ∷ show_loader false ∷ c.calls }
link_sent (some error) c = record c {
  calls = show_message not_right_email ∷ show_loader false ∷ c.calls;
}

-- The calls that a test picks.
abbrev pub count : (Call → Bool) → List Call → ℕ
count picks [] = 0
count picks (call ∷ calls) = if picks call then count picks calls + 1 else count picks calls

-- A call of the service.
abbrev pub is_request : Call → Bool
is_request (log_user_in email password) = true
is_request (register_user email password fullname) = true
is_request (reset_password email) = true
is_request (show_loader show) = false
is_request (show_message message) = false
is_request authentication_completed = false
is_request did_send_reset_password_link = false

-- What can happen to a form: the user edits a text field, or taps the button if it is enabled, or the
-- service answers one of the calls that it has not answered. A form goes with the answers that the
-- service has given, the last one first: each is an error's text, or none.
pub data LoginStep
    : List (Option Text) → LoginController → List (Option Text) → LoginController → Type 0 where
  edit_email :
      {given : List (Option Text)} {c : LoginController} (text : Text)
      → LoginStep given c given
          (login_text_did_change email_text_field (record c { email_text_field = some text }))
  edit_password :
      {given : List (Option Text)} {c : LoginController} (text : Text)
      → LoginStep given c given
          (login_text_did_change password_text_field (record c { password_text_field = some text }))
  tap :
      {given : List (Option Text)} {c : LoginController}
      → c.login_button.is_enabled ≡ true
      → LoginStep given c given (handle_login c)
  answer :
      {given : List (Option Text)} {c : LoginController} (error : Option Text)
      → length given < count is_request c.calls
      → LoginStep given c (error ∷ given) (logged_in error c)

pub data RegistrationStep
    : List (Option Text)
      → RegistrationController
      → List (Option Text)
      → RegistrationController
      → Type 0 where
  edit_email :
      {given : List (Option Text)} {c : RegistrationController} (text : Text)
      → RegistrationStep given c given (
          registration_text_did_change email_text_field (record c { email_text_field = some text }))
  edit_password :
      {given : List (Option Text)} {c : RegistrationController} (text : Text)
      → RegistrationStep given c given (
          registration_text_did_change password_text_field
            (record c { password_text_field = some text }))
  edit_fullname :
      {given : List (Option Text)} {c : RegistrationController} (text : Text)
      → RegistrationStep given c given (
          registration_text_did_change fullname_text_field
            (record c { fullname_text_field = some text }))
  tap :
      {given : List (Option Text)} {c : RegistrationController}
      → c.sign_up_button.is_enabled ≡ true
      → RegistrationStep given c given (handle_sign_up c)
  answer :
      {given : List (Option Text)} {c : RegistrationController} (error : Option Text)
      → length given < count is_request c.calls
      → RegistrationStep given c (error ∷ given) (signed_up error c)

pub data ResetPasswordStep
    : List (Option Text)
      → ResetPasswordController
      → List (Option Text)
      → ResetPasswordController
      → Type 0 where
  edit_email :
      {given : List (Option Text)} {c : ResetPasswordController} (text : Text)
      → ResetPasswordStep given c given
          (reset_text_did_change (record c { email_text_field = some text }))
  tap :
      {given : List (Option Text)} {c : ResetPasswordController}
      → c.reset_password_button.is_enabled ≡ true
      → ResetPasswordStep given c given (handle_reset_password c)
  answer :
      {given : List (Option Text)} {c : ResetPasswordController} (error : Option Text)
      → length given < count is_request c.calls
      → ResetPasswordStep given c (error ∷ given) (link_sent error c)

-- Any number of steps.
pub data Steps {C : Type 0} (Step : List (Option Text) → C → List (Option Text) → C → Type 0)
    (start : C) : List (Option Text) → C → Type 0 where
  here : Steps Step start [] start
  and_then :
      {given later : List (Option Text)} {c d : C}
      → Steps Step start given c
      → Step given c later d
      → Steps Step start later d
