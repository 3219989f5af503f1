-- ===== src/Account/Home/Visits.antt =====
-- What a user sees first: Service.swift, a database, and HomeController.swift together.
use card_pang.Common.{◌≡◌, refl, ap, ◌∙◌, true, false, none, some, [], ◌∷◌}
use card_pang.Account.{Text}
use card_pang.Account.Service.{
  has_seen_onboarding_key, flag, email_key, text, Dictionary, missing, children, AuthUser, Firebase,
  User, new_user, new_values, called, register_user_with_firebase, sign_in_with_google, fetch_user,
  update_user_has_seen_onboarding,
}
use card_pang.Account.Service.Documented.{IsFirebase, overlay, put, children_of}
use card_pang.Account.Home.{
  HomeController, home_controller, call, dismiss, dismiss_login, present_onboarding, sign,
  after_google, set_user, set_has_seen_onboarding, fetch, authenticate_user,
  authentication_complete, controller_wants_to_dismiss,
}

seen_set :
    (home : HomeController) (user : User)
    → home.user ≡ some user
    → set_has_seen_onboarding home ≡ record home {
      user = some (record user { has_seen_onboarding = true });
      welcome_label = some user.fullname;
      label_is_shown = true;
    }
seen_set home user e = rw e refl

module _ {D : Type 0} (firebase : Firebase D) where
  -- The user whose node the database has is fetched.
  fetch_user-children :
      (d : D) (uid : Text) (dictionary : Dictionary)
      → firebase.current_user d ≡ some uid
      → firebase.snapshot uid d ≡ children dictionary
      → fetch_user firebase d ≡ some (new_user uid dictionary)
  unfolding fetch_user
  fetch_user-children d uid dictionary c s = rw (fetch_user, c, s) refl

  fetch-some :
      (d : D) (user : User) (home : HomeController)
      → fetch_user firebase d ≡ some user
      → fetch firebase d home ≡ set_user (some user) home
  unfolding fetch
  fetch-some d user home e = rw (fetch, e) refl

  authenticate_user-some :
      (d : D) (uid : Text) (home : HomeController)
      → firebase.current_user d ≡ some uid
      → authenticate_user firebase d home ≡ fetch firebase d home
  unfolding authenticate_user
  authenticate_user-some d uid home e = rw (authenticate_user, e) refl

  module _ (documented : IsFirebase firebase) where
    stored :
        (d : D) (uid email fullname : Text)
        → firebase.current_user d ≡ some uid
        → (firebase.update_child_values uid (new_values email fullname) d).0 ≡ none
        → fetch_user firebase (firebase.update_child_values uid (new_values email fullname) d).1
          ≡ some (record {
            email = email;
            fullname = fullname;
            has_seen_onboarding = false;
            uid = uid;
          })
    stored d uid email fullname c e =
        fetch_user-children (firebase.update_child_values uid (new_values email fullname) d).1 uid
          (overlay (new_values email fullname) (children_of (firebase.snapshot uid d)))
          (documented.update_user uid (new_values email fullname) d ∙ c)
          (documented.updated uid (new_values email fullname) d email_key (text email) refl e)

    -- Signing up with no error, neither of the account nor of the database: the completion is called
    -- without one, the home screen then has the user with the email and the full name that were given,
    -- and presents the onboarding, and the welcome label stays as it was.
    pub authentication_complete-register_user_with_firebase :
        (email password fullname : Text) (d : D) (user : AuthUser) (home : HomeController)
        → (firebase.create_user email password d).0.error ≡ none
        → (firebase.create_user email password d).0.user ≡ some user
        → (firebase.update_child_values user.uid
            (new_values email fullname)
            (firebase.create_user email password d).1).0
          ≡ none
        → ((register_user_with_firebase firebase email password fullname d).0 ≡ some none)
          × (authentication_complete firebase
                (register_user_with_firebase firebase email password fullname d).1
                home
              ≡ record home {
                user = some (record {
                  email = email;
                  fullname = fullname;
                  has_seen_onboarding = false;
                  uid = user.uid;
                });
                calls = present_onboarding ∷ dismiss ∷ home.calls;
              })
    unfolding register_user_with_firebase authentication_complete
    authentication_complete-register_user_with_firebase email password fullname d user home e u w =
        let d1 = (firebase.create_user email password d).1 in
        let run : register_user_with_firebase firebase email password fullname d
            ≡ called (firebase.update_child_values user.uid (new_values email fullname) d1) =
          rw (e, u) refl in
        (
          ap (λ r. r.0) run ∙ ap some w,
          ap (λ r. fetch firebase r.1 (call dismiss home)) run
              ∙ fetch-some _ _ _ (
                  stored d1 user.uid email fullname (documented.created email password d user e u)
                    w),
        )

    seen_stored :
        (d : D) (uid : Text) (dictionary : Dictionary)
        → firebase.current_user d ≡ some uid
        → firebase.snapshot uid d ≡ children dictionary
        → (firebase.set_value uid has_seen_onboarding_key (flag true) d).0 ≡ none
        → fetch_user firebase (firebase.set_value uid has_seen_onboarding_key (flag true) d).1
          ≡ some (record (new_user uid dictionary) { has_seen_onboarding = true })
    seen_stored d uid dictionary c s e =
        fetch_user-children (firebase.set_value uid has_seen_onboarding_key (flag true) d).1 uid
          (put has_seen_onboarding_key (flag true) (children_of (firebase.snapshot uid d)))
          (documented.user_after_set uid has_seen_onboarding_key (flag true) d ∙ c)
          (documented.value_set uid has_seen_onboarding_key (flag true) d e)
        ∙ ap (λ n. some (new_user uid (put has_seen_onboarding_key (flag true) (children_of n)))) s

    -- A home screen with the user of the database's node leaves the onboarding, and the database has
    -- no error. Then the screen shows the welcome label with the full name and presents no onboarding;
    -- nor does a new home screen, which shows the label too, and does not ask to log in.
    pub controller_wants_to_dismiss-authenticate_user :
        (d : D) (uid : Text) (dictionary : Dictionary) (home : HomeController)
        → firebase.current_user d ≡ some uid
        → firebase.snapshot uid d ≡ children dictionary
        → (firebase.set_value uid has_seen_onboarding_key (flag true) d).0 ≡ none
        → home.user ≡ some (new_user uid dictionary)
        → ((controller_wants_to_dismiss firebase d home).0 ≡ record home {
          user = some (record (new_user uid dictionary) { has_seen_onboarding = true });
          welcome_label = some (new_user uid dictionary).fullname;
          label_is_shown = true;
          calls = dismiss ∷ home.calls;
        })
          × (authenticate_user firebase
                (controller_wants_to_dismiss firebase d home).1
                home_controller
              ≡ record {
                user = some (record (new_user uid dictionary) { has_seen_onboarding = true });
                welcome_label = some (new_user uid dictionary).fullname;
                label_is_shown = true;
                calls = [];
              })
    unfolding controller_wants_to_dismiss update_user_has_seen_onboarding
    controller_wants_to_dismiss-authenticate_user d uid dictionary home c s e h =
        let d1 = (firebase.set_value uid has_seen_onboarding_key (flag true) d).1 in
        let run : controller_wants_to_dismiss firebase d home
            ≡ (set_has_seen_onboarding (call dismiss home), d1) =
          rw (controller_wants_to_dismiss, update_user_has_seen_onboarding, c) refl in
        (
          ap (λ r. r.0) run ∙ seen_set (call dismiss home) (new_user uid dictionary) h,
          ap (λ r. authenticate_user firebase r.1 home_controller) run
              ∙ authenticate_user-some d1 uid home_controller
                  (documented.user_after_set uid has_seen_onboarding_key (flag true) d ∙ c)
              ∙ fetch-some d1 _ home_controller (seen_stored d uid dictionary c s e),
        )

    -- A Google sign-in without an error of a user whose node the database has: the completion is
    -- called without one, and the user who is then fetched is the one of that node as it was; the log-in
    -- form is left, and that user is set on the home screen.
    pub fetch_user-sign_in_with_google_known :
        (tokens : Text × Text) (d : D) (user : AuthUser) (dictionary : Dictionary)
        (home : HomeController)
        → firebase.snapshot user.uid d ≡ children dictionary
        → (firebase.sign_in_with tokens d).0.error ≡ none
        → (firebase.sign_in_with tokens d).0.user ≡ some user
        → ((sign_in_with_google firebase (some tokens) d).0 ≡ some none)
          × (fetch_user firebase (sign_in_with_google firebase (some tokens) d).1
              ≡ some (new_user user.uid dictionary))
          × ((sign firebase (some tokens) d home).0
              ≡ set_user
                  (some (new_user user.uid dictionary))
                  (call dismiss_login (call dismiss home)))
    unfolding sign_in_with_google sign
    fetch_user-sign_in_with_google_known tokens d user dictionary home s e u =
        let d1 = (firebase.sign_in_with tokens d).1 in
        let s1 : firebase.snapshot user.uid (firebase.sign_in_with tokens d).1
            ≡ children dictionary =
          documented.sign_in_reads tokens d user.uid ∙ s in
        let run : sign_in_with_google firebase (some tokens) d ≡ (some none, d1) =
          rw (e, u, s1) refl in
        let fetched =
          fetch_user-children d1 user.uid dictionary (documented.signed_in tokens d user e u) s1 in
        (
          ap (λ r. r.0) run,
          ap (λ r. fetch_user firebase r.1) run ∙ fetched,
          ap (λ r. (after_google firebase home r).0) run ∙ fetch-some d1 _ _ fetched,
        )

    -- A Google sign-in without an error of a user with an email and a name, whose node the database
    -- does not have, and a write of it without an error: the completion is called without one, and the
    -- user who is then fetched has that email and name, and has not seen the onboarding; the log-in
    -- form is left, and the home screen has that user and presents the onboarding.
    pub fetch_user-sign_in_with_google_new :
        (tokens : Text × Text) (d : D) (user : AuthUser) (email fullname : Text)
        (home : HomeController)
        → firebase.snapshot user.uid d ≡ missing
        → (firebase.sign_in_with tokens d).0.error ≡ none
        → (firebase.sign_in_with tokens d).0.user ≡ some user
        → user.email ≡ some email
        → user.display_name ≡ some fullname
        → (firebase.update_child_values user.uid
            (new_values email fullname)
            (firebase.sign_in_with tokens d).1).0
          ≡ none
        → ((sign_in_with_google firebase (some tokens) d).0 ≡ some none)
          × (fetch_user firebase (sign_in_with_google firebase (some tokens) d).1
              ≡ some (record {
                email = email;
                fullname = fullname;
                has_seen_onboarding = false;
                uid = user.uid;
              }))
          × ((sign firebase (some tokens) d home).0 ≡ record home {
            user = some (record {
              email = email;
              fullname = fullname;
              has_seen_onboarding = false;
              uid = user.uid;
            });
            calls = present_onboarding ∷ dismiss_login ∷ dismiss ∷ home.calls;
          })
    unfolding sign_in_with_google sign
    fetch_user-sign_in_with_google_new tokens d user email fullname home s e u m f w =
        let d1 = (firebase.sign_in_with tokens d).1 in
        let s1 : firebase.snapshot user.uid (firebase.sign_in_with tokens d).1 ≡ missing =
          documented.sign_in_reads tokens d user.uid ∙ s in
        let run : sign_in_with_google firebase (some tokens) d
            ≡ called (firebase.update_child_values user.uid (new_values email fullname) d1) =
          rw (e, u, s1, m, f) refl in
        let fetched =
          stored d1 user.uid email fullname (documented.signed_in tokens d user e u) w in
        (
          ap (λ r. r.0) run ∙ ap some w,
          ap (λ r. fetch_user firebase r.1) run ∙ fetched,
          ap (λ r. (after_google firebase home r).0) run ∙ fetch-some _ _ _ fetched,
        )
