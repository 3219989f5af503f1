-- ===== src/Account/Service/Documented.antt =====
-- What Firebase documents of the functions that API/Service.swift calls.
use card_pang.Common.{ℕ, ◌≡◌, none, some, ◌==◌, if◌then◌else◌}
use card_pang.Account.{Text}
use card_pang.Account.Service.{
  Key, email_key, fullname_key, has_seen_onboarding_key, Value, Dictionary, Snapshot, missing, leaf,
  children, AuthUser, Firebase,
}

abbrev key_code : Key → ℕ
key_code email_key = 0
key_code fullname_key = 1
key_code has_seen_onboarding_key = 2

abbrev pub children_of : Snapshot → Dictionary
children_of missing = λ _. none
children_of leaf = λ _. none
children_of (children dictionary) = dictionary

-- The given values in place of the old ones, and one value in place of the old one.
abbrev pub overlay : Dictionary → Dictionary → Dictionary
overlay values old key = elim (values key) [ none ↦ old key | some value ↦ some value ]

abbrev pub put : Key → Value → Dictionary → Dictionary
put key value old other = if key_code key == key_code other then some value else old other

-- A user who is created, or signs in, is the current user. Signing in does not touch the database. A
-- write without an error is there when the node is read, beside what was not written, and does not
-- change the current user.
pub record IsFirebase {D : Type 0} (firebase : Firebase D) : Type 0 where
  pub created :
      (email password : Text) (d : D) (user : AuthUser)
      → (firebase.create_user email password d).0.error ≡ none
      → (firebase.create_user email password d).0.user ≡ some user
      → firebase.current_user (firebase.create_user email password d).1 ≡ some user.uid
  pub signed_in :
      (tokens : Text × Text) (d : D) (user : AuthUser)
      → (firebase.sign_in_with tokens d).0.error ≡ none
      → (firebase.sign_in_with tokens d).0.user ≡ some user
      → firebase.current_user (firebase.sign_in_with tokens d).1 ≡ some user.uid
  pub sign_in_reads :
      (tokens : Text × Text) (d : D) (uid : Text)
      → firebase.snapshot uid (firebase.sign_in_with tokens d).1 ≡ firebase.snapshot uid d
  pub updated :
      (uid : Text) (values : Dictionary) (d : D) (key : Key) (value : Value)
      → values key ≡ some value
      → (firebase.update_child_values uid values d).0 ≡ none
      → firebase.snapshot uid (firebase.update_child_values uid values d).1
        ≡ children (overlay values (children_of (firebase.snapshot uid d)))
  pub update_user :
      (uid : Text) (values : Dictionary) (d : D)
      → firebase.current_user (firebase.update_child_values uid values d).1
        ≡ firebase.current_user d
  pub value_set :
      (uid : Text) (key : Key) (value : Value) (d : D)
      → (firebase.set_value uid key value d).0 ≡ none
      → firebase.snapshot uid (firebase.set_value uid key value d).1
        ≡ children (put key value (children_of (firebase.snapshot uid d)))
  pub user_after_set :
      (uid : Text) (key : Key) (value : Value) (d : D)
      → firebase.current_user (firebase.set_value uid key value d).1 ≡ firebase.current_user d
