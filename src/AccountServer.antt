-- ===== src/AccountServer.antt =====
-- account/server.go, account/authorizer.go, auth/auth.go: the server of accounts, and how a call is
-- traced to a user. The check of a signature is a parameter, as is the derivation of the vault of
-- a key; a new user id and the readings of the clock are arguments.
pub mod Session
mod Examples
use flipchat_server.Account
use flipchat_server.Account.{Store, bind, get_user_id, get_pub_keys, is_registered}
use flipchat_server.Base.{
  ltb, if◌then◌else◌, Bytes, bytes_eq, Dict, lookup, insert, length, contains, Result, ok, err,
  Time, ℕ, ◌+◌, ◌*◌, ◌^◌, Bool, Option, none, some, [], ◌∷◌,
}

-- The statuses of a failing call, with the one of a signature that is wrong.
pub data Status : Type 0 where
  unauthenticated permission_denied internal invalid_argument : Status

-- `Verify` of an authenticator.
abbrev pub Verified : Type 0
Verified = Result Status (Unit {0})

-- `Authorizer.Authorize`
unfoldable pub authorize : Verified → Bytes → Store → Result Status Bytes
authorize verified pub_key m = elim verified [
  | err e ↦ err e
  | ok _ ↦ elim (get_user_id pub_key m) [ err _ ↦ err permission_denied | ok user_id ↦ ok user_id ]
]

-- `StaticAuthorizer`, by its map from public keys to users.
unfoldable pub static_authorize : Verified → Bytes → Dict Bytes Bytes → Result Status Bytes
static_authorize verified pub_key key_pairs = elim verified [
  | err e ↦ err e
  | ok _ ↦ elim (lookup pub_key key_pairs) [
    | none ↦ err permission_denied
    | some user_id ↦ ok user_id
  ]
]

unfoldable pub static_add : Bytes → Bytes → Dict Bytes Bytes → Dict Bytes Bytes
static_add user_id pub_key key_pairs = insert pub_key user_id key_pairs

-- What a response names beside `OK`.
pub data Outcome (A : Type 0) : Type 0 where
  done : A → Outcome A
  denied invalid_timestamp not_found : Outcome A

-- `Register`; display names are not taken.
unfoldable pub register :
    Verified → Bytes → Bytes → Bytes → Time → Time → Store → Result Status (Outcome Bytes) × Store
register verified pub_key display_name new_id now later m = elim verified [
  | err e ↦ (err e, m)
  | ok _ ↦
      let (prev, m') = bind new_id pub_key now later m in
      if ltb 0 (length display_name) then (ok denied, m) else (ok (done prev), m')
]

abbrev pub login_window : ℕ
login_window = 2 * 60 * 10 ^ 9

-- The part of `Login` behind the timestamp. A signature that is wrong denies the login.
unfoldable pub login_verified : Verified → Option Bytes → Store → Result Status (Outcome Bytes)
login_verified (err unauthenticated) pub_key m = ok denied
login_verified (err e) pub_key m = err e
login_verified (ok _) none m = err invalid_argument
login_verified (ok _) (some k) m = elim (get_user_id k m) [
  | err _ ↦ ok denied
  | ok user_id ↦ ok (done user_id)
]

-- `Login` reads the clock for each end of the window. A key pair that is malformed is none.
unfoldable pub login :
    Verified → Option Bytes → Time → Time → Time → Store → Result Status (Outcome Bytes)
unfolding login_verified
login verified pub_key t now later m =
    if ltb (now + login_window) t
    then ok invalid_timestamp
    else if ltb (t + login_window) later
    then ok invalid_timestamp
    else login_verified verified pub_key m

-- `AuthorizePublicKey` and `RevokePublicKey` are disabled.
abbrev pub authorize_public_key : Bytes → Bytes → Store → Result Status (Outcome (Unit {0})) × Store
authorize_public_key user_id pub_key m = (ok denied, m)

abbrev pub revoke_public_key : Bytes → Bytes → Store → Result Status (Outcome (Unit {0})) × Store
revoke_public_key user_id pub_key m = (ok denied, m)

-- `GetPaymentDestination`: the vault of the user's one key.
unfoldable pub get_payment_destination :
    (Bytes → Option Bytes) → Bytes → Store → Result Status (Outcome Bytes)
get_payment_destination vault_of user_id m = elim (get_pub_keys user_id m) [
  | [] ↦ ok not_found
  | k ∷ [] ↦ elim (vault_of k) [ none ↦ err internal | some vault ↦ ok (done vault) ]
  | k ∷ j ∷ ks ↦ err internal
]

-- `UserFlags`, less the constants of flags/user.go.
pub record UserFlags : Type 0 where
  pub is_staff : Bool
  pub is_registered_account : Bool

-- `GetUserFlags`: the key that signs is one of the user's.
unfoldable pub get_user_flags : Bytes → Bytes → Store → Outcome UserFlags
get_user_flags user_id pub_key m =
    if contains pub_key (get_pub_keys user_id m)
    then done (record {
      is_staff = Account.is_staff user_id m;
      is_registered_account = is_registered user_id m;
    })
    else denied
