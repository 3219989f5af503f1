-- ===== src/Account/Forms.antt =====
-- The forms of LoginController.swift, RegisterationController.swift and ResetPasswordController.swift,
-- with their view models of AuthenticationViewModel.swift and the button of AuthButton.swift.
pub mod Handlers
use card_pang.Common.{Bool, false, ◌&&◌, Option, none, some, List, [], if◌then◌else◌}
use card_pang.Account.{Text, is_filled}

-- The two titles' colours and the two backgrounds.
pub data TitleColor : Type 0 where
  white faded_white : TitleColor

pub data BackgroundColor : Type 0 where
  enabled_purple disabled_purple : BackgroundColor

pub record AuthButton : Type 0 where
  pub is_enabled : Bool
  pub background_color : BackgroundColor
  pub title_color : TitleColor

-- `AuthButton.init(frame:)`
abbrev pub auth_button : AuthButton
auth_button = record {
  is_enabled = false;
  background_color = disabled_purple;
  title_color = faded_white;
}

-- The protocol. Its other three requirements have one text in the three view models.
pub record AuthenticationViewModel (V : Type 0) : Type 0 where
  pub form_is_valid : V → Bool

module _ {V : Type 0} ⦃model : AuthenticationViewModel V⦄ where
  abbrev pub should_enable_button : V → Bool
  should_enable_button v = model.form_is_valid v

  abbrev pub button_title_color : V → TitleColor
  button_title_color v = if model.form_is_valid v then white else faded_white

  abbrev pub button_background_color : V → BackgroundColor
  button_background_color v = if model.form_is_valid v then enabled_purple else disabled_purple

  -- `updateForm()`: what it does to the button.
  abbrev pub update_form : V → AuthButton
  update_form v = record {
    is_enabled = should_enable_button v;
    background_color = button_background_color v;
    title_color = button_title_color v;
  }

pub record LoginViewModel : Type 0 where
  pub email : Option Text
  pub password : Option Text

pub record RegisterationViewModel : Type 0 where
  pub email : Option Text
  pub password : Option Text
  pub fullname : Option Text

pub record ResetPasswordViewModel : Type 0 where
  pub email : Option Text

instance abbrev pub login_view_model : AuthenticationViewModel LoginViewModel
login_view_model = record { form_is_valid = λ v. is_filled v.email && is_filled v.password }

instance abbrev pub registeration_view_model : AuthenticationViewModel RegisterationViewModel
registeration_view_model = record {
  form_is_valid = λ v. is_filled v.email && is_filled v.password && is_filled v.fullname;
}

instance abbrev pub reset_password_view_model : AuthenticationViewModel ResetPasswordViewModel
reset_password_view_model = record { form_is_valid = λ v. is_filled v.email }

-- The texts of Constants.swift that come with an error.
pub data Message : Type 0 where
  not_right_email_or_password not_right_email : Message

-- What a controller asks of the service, of its views and of its delegate.
pub data Call : Type 0 where
  show_loader : Bool → Call
  log_user_in : Text → Text → Call
  register_user : Text → Text → Text → Call
  reset_password : Text → Call
  show_message : Message → Call
  authentication_completed : Call
  did_send_reset_password_link : Call

-- The controllers: their view model, the `text` of their text fields, which is empty at first, their
-- button, and the calls they have made, the last one first.
pub record LoginController : Type 0 where
  pub view_model : LoginViewModel
  pub email_text_field : Option Text
  pub password_text_field : Option Text
  pub login_button : AuthButton
  pub calls : List Call

pub record RegistrationController : Type 0 where
  pub view_model : RegisterationViewModel
  pub email_text_field : Option Text
  pub password_text_field : Option Text
  pub fullname_text_field : Option Text
  pub sign_up_button : AuthButton
  pub calls : List Call

pub record ResetPasswordController : Type 0 where
  pub view_model : ResetPasswordViewModel
  pub email_text_field : Option Text
  pub reset_password_button : AuthButton
  pub calls : List Call

abbrev pub login_controller : LoginController
login_controller = record {
  view_model = record { email = none; password = none };
  email_text_field = some [];
  password_text_field = some [];
  login_button = auth_button;
  calls = [];
}

abbrev pub registration_controller : RegistrationController
registration_controller = record {
  view_model = record { email = none; password = none; fullname = none };
  email_text_field = some [];
  password_text_field = some [];
  fullname_text_field = some [];
  sign_up_button = auth_button;
  calls = [];
}

abbrev pub reset_password_controller : ResetPasswordController
reset_password_controller = record {
  view_model = record { email = none };
  email_text_field = some [];
  reset_password_button = auth_button;
  calls = [];
}
