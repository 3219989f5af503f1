-- ===== src/Account/Service.antt =====
-- API/Service.swift and Model/User.swift. Firebase is a parameter: its functions on a state, which has
-- the signed-in user and the database. A completion that was called with an error or none is `some`
-- of that, and `none` is a completion that was not called.
pub mod Documented
use card_pang.Common.{Bool, true, false, Option, none, some, []}
use card_pang.Account.{Text}

-- The keys of a user's node, and the values that the app stores there.
pub data Key : Type 0 where
  email_key fullname_key has_seen_onboarding_key : Key

pub data Value : Type 0 where
  text : Text → Value
  flag : Bool → Value

abbrev pub Dictionary : Type 0
Dictionary = Key → Option Value

-- The node `users/uid`: none, no dictionary, or one.
pub data Snapshot : Type 0 where
  missing leaf : Snapshot
  children : Dictionary → Snapshot

pub record AuthUser : Type 0 where
  pub uid : Text
  pub email : Option Text
  pub display_name : Option Text

-- `result?.user` and `error`.
pub record AuthResult : Type 0 where
  pub user : Option AuthUser
  pub error : Option Text

pub record Firebase (D : Type 0) : Type 0 where
  pub current_user : D → Option Text
  pub create_user : Text → Text → D → AuthResult × D
  pub sign_in_with : Text × Text → D → AuthResult × D
  pub sign_out : D → Option Text × D
  pub snapshot : Text → D → Snapshot
  pub update_child_values : Text → Dictionary → D → Option Text × D
  pub set_value : Text → Key → Value → D → Option Text × D

pub record User : Type 0 where
  pub email : Text
  pub fullname : Text
  pub has_seen_onboarding : Bool
  pub uid : Text

-- `as? String ?? ""` and `as? Bool ?? false`.
abbrev pub as_string : Option Value → Text
as_string none = []
as_string (some (text t)) = t
as_string (some (flag b)) = []

abbrev pub as_bool : Option Value → Bool
as_bool none = false
as_bool (some (text t)) = false
as_bool (some (flag b)) = b

abbrev pub new_user : Text → Dictionary → User
new_user uid dictionary = record {
  uid = uid;
  email = as_string (dictionary email_key);
  fullname = as_string (dictionary fullname_key);
  has_seen_onboarding = as_bool (dictionary has_seen_onboarding_key);
}

-- The `values` of a new user.
abbrev pub new_values : Text → Text → Dictionary
new_values email fullname email_key = some (text email)
new_values email fullname fullname_key = some (text fullname)
new_values email fullname has_seen_onboarding_key = some (flag false)

abbrev pub called : {D : Type 0} → Option Text × D → Option (Option Text) × D
called (error, d) = (some error, d)

module _ {D : Type 0} (firebase : Firebase D) where
  -- The closures of `createUser` and of `observeSingleEvent`.
  abbrev store_user : Text → Text → AuthResult × D → Option (Option Text) × D
  store_user email fullname (result, d) = elim result.error [
    | some error ↦ (some (some error), d)
    | none ↦ elim result.user [
      | none ↦ (none, d)
      | some user ↦ called (firebase.update_child_values user.uid (new_values email fullname) d)
    ]
  ]

  unfoldable pub register_user_with_firebase : Text → Text → Text → D → Option (Option Text) × D
  register_user_with_firebase email password fullname d =
      store_user email fullname (firebase.create_user email password d)

  -- `result?.user.email` and `result?.user.displayName` of a user who is not in the database yet.
  abbrev pub store_google_user : AuthUser → D → Snapshot → Option (Option Text) × D
  store_google_user user d (children _) = (some none, d)
  store_google_user user d leaf = (some none, d)
  store_google_user user d missing = elim user.email [
    | none ↦ (none, d)
    | some email ↦ elim user.display_name [
      | none ↦ (none, d)
      | some fullname ↦ called (firebase.update_child_values user.uid (new_values email fullname) d)
    ]
  ]

  abbrev google_user : AuthResult × D → Option (Option Text) × D
  google_user (result, d) = elim result.error [
    | some error ↦ (some (some error), d)
    | none ↦ elim result.user [
      | none ↦ (none, d)
      | some user ↦ store_google_user user d (firebase.snapshot user.uid d)
    ]
  ]

  -- The argument is the two tokens of `user.authentication`.
  unfoldable pub sign_in_with_google : Option (Text × Text) → D → Option (Option Text) × D
  sign_in_with_google none d = (none, d)
  sign_in_with_google (some tokens) d = google_user (firebase.sign_in_with tokens d)

  abbrev user_in : Text → Snapshot → Option User
  user_in uid missing = none
  user_in uid leaf = none
  user_in uid (children dictionary) = some (new_user uid dictionary)

  unfoldable pub fetch_user : D → Option User
  fetch_user d = elim (firebase.current_user d) [
    | none ↦ none
    | some uid ↦ user_in uid (firebase.snapshot uid d)
  ]

  unfoldable pub update_user_has_seen_onboarding : D → Option (Option Text) × D
  update_user_has_seen_onboarding d = elim (firebase.current_user d) [
    | none ↦ (none, d)
    | some uid ↦ called (firebase.set_value uid has_seen_onboarding_key (flag true) d)
  ]
