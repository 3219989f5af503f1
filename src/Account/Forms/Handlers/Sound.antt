-- ===== src/Account/Forms/Handlers/Sound.antt =====
-- The calls that the three forms of CardPang/CardPang/Controller/Login make.
use card_pang.Common.{
  ℕ, ◌+◌, ◌<◌, ◌≤◌, ◌≡◌, refl, ap, ◌⊎◌, inl, inr, Bool, true, false, ◌&&◌, Option, none, some, List,
  [], ◌∷◌, All, length, if◌then◌else◌, not, arith,
}
use card_pang.Account.{Text, has_text, is_filled}
use card_pang.Account.Forms.{
  not_right_email_or_password, not_right_email, AuthButton, white, faded_white, enabled_purple,
  disabled_purple, Message, Call, show_loader, log_user_in, register_user, reset_password,
  show_message, authentication_completed, did_send_reset_password_link, LoginController,
  RegistrationController, ResetPasswordController, login_view_model, registeration_view_model,
  reset_password_view_model,
}
use card_pang.Account.Forms.Handlers.{
  log_in, sign_up, send_link, logged_in, signed_up, link_sent, count, is_request,
}

abbrev pub button_for : Bool → AuthButton
button_for valid = record {
  is_enabled = valid;
  background_color = if valid then enabled_purple else disabled_purple;
  title_color = if valid then white else faded_white;
}

-- A call of the service has text in each argument.
abbrev pub carries_text : Call → Bool
carries_text (log_user_in email password) = has_text email && has_text password
carries_text (register_user email password fullname) =
    has_text email && has_text password && has_text fullname
carries_text (reset_password email) = has_text email
carries_text (show_loader show) = true
carries_text (show_message message) = true
carries_text authentication_completed = true
carries_text did_send_reset_password_link = true

abbrev pub loader_shown : List Call → Bool
loader_shown [] = false
loader_shown (show_loader show ∷ calls) = show
loader_shown (log_user_in email password ∷ calls) = loader_shown calls
loader_shown (register_user email password fullname ∷ calls) = loader_shown calls
loader_shown (reset_password email ∷ calls) = loader_shown calls
loader_shown (show_message message ∷ calls) = loader_shown calls
loader_shown (authentication_completed ∷ calls) = loader_shown calls
loader_shown (did_send_reset_password_link ∷ calls) = loader_shown calls

abbrev is_loader : Bool → Call → Bool
is_loader shown (show_loader show) = if shown then show else not show
is_loader shown (log_user_in email password) = false
is_loader shown (register_user email password fullname) = false
is_loader shown (reset_password email) = false
is_loader shown (show_message message) = false
is_loader shown authentication_completed = false
is_loader shown did_send_reset_password_link = false

abbrev is_message : Call → Bool
is_message (show_message message) = true
is_message (log_user_in email password) = false
is_message (register_user email password fullname) = false
is_message (reset_password email) = false
is_message (show_loader show) = false
is_message authentication_completed = false
is_message did_send_reset_password_link = false

-- The delegate is told.
abbrev is_completion : Call → Bool
is_completion authentication_completed = true
is_completion did_send_reset_password_link = true
is_completion (log_user_in email password) = false
is_completion (register_user email password fullname) = false
is_completion (reset_password email) = false
is_completion (show_loader show) = false
is_completion (show_message message) = false

-- The answers with an error, and those without.
abbrev pub failures : List (Option Text) → ℕ
failures [] = 0
failures (none ∷ given) = failures given
failures (some error ∷ given) = failures given + 1

abbrev pub successes : List (Option Text) → ℕ
successes [] = 0
successes (none ∷ given) = successes given + 1
successes (some error ∷ given) = successes given

-- Every call of the service carries text. The loader was shown once for each call of the service and
-- hidden once for each answer, and is hidden when all calls are answered. The delegate was told once
-- for each answer without an error, and there were `told` messages.
pub record AreSound (given : List (Option Text)) (told : ℕ) (calls : List Call) : Type 0 where
  pub filled : All (λ c. carries_text c ≡ true) calls
  pub loaders : count (is_loader true) calls ≡ count is_request calls
  pub loaders_hidden : count (is_loader false) calls ≡ length given
  pub completed : count is_completion calls ≡ successes given
  pub messages : count is_message calls ≡ told
  pub idle : length given ≡ count is_request calls → loader_shown calls ≡ false

-- The same, with no more answers than calls.
pub record Sound (given : List (Option Text)) (told : ℕ) (calls : List Call) : Type 0 where
  pub sound : AreSound given told calls
  pub bounded : length given ≤ count is_request calls

pub nil-Sound : Sound [] 0 []
nil-Sound = record {
  sound = record {
    filled = tt;
    loaders = refl;
    loaders_hidden = refl;
    completed = refl;
    messages = refl;
    idle = λ e. refl;
  };
  bounded = omega arith;
}

-- A call of the service after the loader.
request-Sound :
    (request : Call) (given : List (Option Text)) (told : ℕ) (calls : List Call)
    → carries_text request ≡ true
    → is_request request ≡ true
    → is_loader true request ≡ false
    → is_loader false request ≡ false
    → is_completion request ≡ false
    → is_message request ≡ false
    → Sound given told calls
    → Sound given told (request ∷ show_loader true ∷ calls)
request-Sound request given told calls text r l h c m v = record {
  sound = record {
    filled = (text, (refl, v.sound.filled));
    loaders = rw (l, r, v.sound.loaders) refl;
    loaders_hidden = rw h v.sound.loaders_hidden;
    completed = rw c v.sound.completed;
    messages = rw m v.sound.messages;
    idle = λ e. absurd (
        omega (
          arith,
          e,
          v.bounded,
          ap (λ b. if b then count is_request calls + 1 else count is_request calls) r,
        ));
  };
  bounded = rw r (omega (arith, v.bounded));
}

pub log_in-Sound :
    (email password : Option Text) (given : List (Option Text)) (told : ℕ) (calls : List Call)
    → (is_filled email && is_filled password) ≡ true
    → Sound given told calls
    → Sound given told (log_in email password calls)
unfolding log_in
log_in-Sound none password given told calls h v = v
log_in-Sound (some email) none given told calls h v = v
log_in-Sound (some email) (some password) given told calls h v =
    request-Sound (log_user_in email password) given told calls h refl refl refl refl refl v

pub sign_up-Sound :
    (email password fullname : Option Text) (given : List (Option Text)) (told : ℕ)
    (calls : List Call)
    → (is_filled email && is_filled password && is_filled fullname) ≡ true
    → Sound given told calls
    → Sound given told (sign_up email password fullname calls)
unfolding sign_up
sign_up-Sound none password fullname given told calls h v = v
sign_up-Sound (some email) none fullname given told calls h v = v
sign_up-Sound (some email) (some password) none given told calls h v = v
sign_up-Sound (some email) (some password) (some fullname) given told calls h v =
    request-Sound (register_user email password fullname) given told calls h refl refl refl refl
      refl v

pub send_link-Sound :
    (email : Option Text) (given : List (Option Text)) (told : ℕ) (calls : List Call)
    → is_filled email ≡ true
    → Sound given told calls
    → Sound given told (send_link email calls)
unfolding send_link
send_link-Sound none given told calls h v = v
send_link-Sound (some email) given told calls h v =
    request-Sound (reset_password email) given told calls h refl refl refl refl refl v

-- The loader is hidden after an answer: nothing else, or one more call.
failed-Sound :
    (error : Text) (given : List (Option Text)) (told : ℕ) (calls : List Call)
    → length given < count is_request calls
    → AreSound given told calls
    → Sound (some error ∷ given) told (show_loader false ∷ calls)
failed-Sound error given told calls h v = record {
  sound = record {
    filled = (refl, v.filled);
    loaders = v.loaders;
    loaders_hidden = omega (arith, v.loaders_hidden);
    completed = v.completed;
    messages = v.messages;
    idle = λ e. refl;
  };
  bounded = omega (arith, h);
}

message-Sound :
    (message : Message) (given : List (Option Text)) (told : ℕ) (calls : List Call)
    → Sound given told calls
    → Sound given (told + 1) (show_message message ∷ calls)
message-Sound message given told calls v = record {
  sound = record {
    filled = (refl, v.sound.filled);
    loaders = v.sound.loaders;
    loaders_hidden = v.sound.loaders_hidden;
    completed = v.sound.completed;
    messages = omega (arith, v.sound.messages);
    idle = v.sound.idle;
  };
  bounded = v.bounded;
}

completed-Sound :
    (completion : Call) (given : List (Option Text)) (told : ℕ) (calls : List Call)
    → (completion ≡ authentication_completed) ⊎ (completion ≡ did_send_reset_password_link)
    → length given < count is_request calls
    → AreSound given told calls
    → Sound (none ∷ given) told (completion ∷ show_loader false ∷ calls)
completed-Sound completion given told calls (inl e) h v = rw e (record {
  sound = record {
    filled = (refl, (refl, v.filled));
    loaders = v.loaders;
    loaders_hidden = omega (arith, v.loaders_hidden);
    completed = omega (arith, v.completed);
    messages = v.messages;
    idle = λ e. refl;
  };
  bounded = omega (arith, h);
})
completed-Sound completion given told calls (inr e) h v = rw e (record {
  sound = record {
    filled = (refl, (refl, v.filled));
    loaders = v.loaders;
    loaders_hidden = omega (arith, v.loaders_hidden);
    completed = omega (arith, v.completed);
    messages = v.messages;
    idle = λ e. refl;
  };
  bounded = omega (arith, h);
})

pub logged_in-Sound :
    (error : Option Text) (given : List (Option Text)) (c : LoginController)
    → length given < count is_request c.calls
    → AreSound given 0 c.calls
    → Sound (error ∷ given) 0 (logged_in error c).calls
unfolding logged_in
logged_in-Sound none given c h v =
    completed-Sound authentication_completed given 0 c.calls (inl refl) h v
logged_in-Sound (some error) given c h v = failed-Sound error given 0 c.calls h v

pub signed_up-Sound :
    (error : Option Text) (given : List (Option Text)) (c : RegistrationController)
    → length given < count is_request c.calls
    → AreSound given (failures given) c.calls
    → Sound (error ∷ given) (failures (error ∷ given)) (signed_up error c).calls
unfolding signed_up
signed_up-Sound none given c h v =
    completed-Sound authentication_completed given (failures given) c.calls (inl refl) h v
signed_up-Sound (some error) given c h v =
    message-Sound not_right_email_or_password (some error ∷ given) (failures given)
      (show_loader false ∷ c.calls) (failed-Sound error given (failures given) c.calls h v)

pub link_sent-Sound :
    (error : Option Text) (given : List (Option Text)) (c : ResetPasswordController)
    → length given < count is_request c.calls
    → AreSound given (failures given) c.calls
    → Sound (error ∷ given) (failures (error ∷ given)) (link_sent error c).calls
unfolding link_sent
link_sent-Sound none given c h v =
    completed-Sound did_send_reset_password_link given (failures given) c.calls (inr refl) h v
link_sent-Sound (some error) given c h v =
    message-Sound not_right_email (some error ∷ given) (failures given)
      (show_loader false ∷ c.calls) (failed-Sound error given (failures given) c.calls h v)
