-- ===== src/Iap.antt =====
-- iap/store.go, iap/memory/store.go, iap/server.go: the receipts of the app stores, by which users are
-- registered. The verifiers of the app stores are parameters, and so is the activity feed.
mod Receipts
mod Examples
pub mod Postgres
use flipchat_server.Base.{
  if◌then◌else◌, ◌==◌, Bytes, bytes_eq, Dict, lookup, insert, has, Result, ok, err, Time, Bool,
  true, not, none, some, [], ◌∷◌,
}
use flipchat_server.Account.{set_registration_flag, batch_set_next_airdrop_timestamp}
use flipchat_server.Account

-- `ErrExists`, `ErrNotFound` and the two errors that `CreatePurchase` makes.
pub data IapError : Type 0 where
  exists not_found wrong_product wrong_state : IapError

-- `commonpb.Platform`
pub data Platform : Type 0 where
  unknown_platform apple google : Platform

pub data Product : Type 0 where
  product_unknown product_create_account : Product

pub data State : Type 0 where
  state_unknown state_waiting_for_payment state_waiting_for_fulfillment : State
  state_fulfilled : State

pub record Purchase : Type 0 where
  pub receipt_id : Bytes
  pub platform : Platform
  pub user : Bytes
  pub product : Product
  pub state : State
  pub created_at : Time

-- `InMemoryStore`
pub record Store : Type 0 where
  pub purchases : Dict Bytes Purchase

abbrev pub new_in_memory : Store
new_in_memory = record { purchases = [] }

-- `reset`
abbrev pub reset : Store → Store
reset s = record { purchases = [] }

-- The rest of `CreatePurchase`, behind the checks of the product and of the state.
add_purchase : Purchase → Store → Result IapError (Unit {0}) × Store
add_purchase p s =
    if has p.receipt_id s.purchases
    then (err exists, s)
    else (ok tt, record s { purchases = insert p.receipt_id p s.purchases })

unfoldable pub create_purchase : Purchase → Store → Result IapError (Unit {0}) × Store
unfolding add_purchase
create_purchase p s = elim p.product [
  | product_unknown ↦ (err wrong_product, s)
  | product_create_account ↦ elim p.state [
    | state_fulfilled ↦ add_purchase p s
    | _ ↦ (err wrong_state, s)
  ]
]

unfoldable pub get_purchase : Bytes → Store → Result IapError Purchase
get_purchase receipt_id s = elim (lookup receipt_id s.purchases) [
  | none ↦ err not_found
  | some p ↦ ok p
]

-- `Verifier`
pub record Verifier : Type 0 where
  pub verify_receipt : Bytes → Result (Unit {0}) Bool
  pub get_receipt_identifier : Bytes → Result (Unit {0}) Bytes

-- What `Server` reads and writes. `send_notification` tells whether the activity feed takes the
-- welcome bonus of a user.
pub record Server : Type 0 where
  pub accounts : Account.Store
  pub iaps : Store
  pub apple_verifier : Verifier
  pub google_verifier : Verifier
  pub send_notification : Bytes → Bool

-- The results of `OnPurchaseCompleted`, and its internal error.
pub data Response : Type 0 where
  completed denied invalid_receipt internal : Response

with_accounts : Account.Store → Server → Server
with_accounts m s = record s { accounts = m }

with_iaps : Store → Server → Server
with_iaps m s = record s { iaps = m }

fulfilled_purchase : Bytes → Platform → Bytes → Time → Purchase
fulfilled_purchase receipt_id platform user_id now = record {
  receipt_id = receipt_id;
  platform = platform;
  user = user_id;
  product = product_create_account;
  state = state_fulfilled;
  created_at = now;
}

-- The last steps: the notification and the purchase.
notify_and_create : Bytes → Platform → Bytes → Time → Server → Response × Server
unfolding with_iaps fulfilled_purchase
notify_and_create receipt_id platform user_id now s =
    if not (s.send_notification user_id)
    then (internal, s)
    else let (result, iaps) =
        create_purchase (fulfilled_purchase receipt_id platform user_id now) s.iaps in
      elim result [ err e ↦ (internal, with_iaps iaps s) | ok _ ↦ (completed, with_iaps iaps s) ]

-- The steps for a receipt that was not used yet; `next` is the time of the next airdrop. Setting
-- that time does not fail in the memory store.
register : Bytes → Platform → Bytes → Time → Time → Server → Response × Server
unfolding notify_and_create with_accounts
register receipt_id platform user_id next now s =
    let scheduled = batch_set_next_airdrop_timestamp next (user_id ∷ []) s.accounts in
    let (result, accounts) = set_registration_flag user_id true scheduled in
    elim result [
      | err e ↦ (internal, with_accounts accounts s)
      | ok _ ↦ notify_and_create receipt_id platform user_id now (with_accounts accounts s)
    ]

-- The handler from the choice of the verifier on.
complete_with : Verifier → Bytes → Platform → Bytes → Time → Time → Server → Response × Server
unfolding register
complete_with verifier receipt platform user_id next now s =
    elim (verifier.verify_receipt receipt) [
      | err e ↦ (internal, s)
      | ok is_verified ↦
          if not is_verified
          then (invalid_receipt, s)
          else elim (verifier.get_receipt_identifier receipt) [
            | err e ↦ (internal, s)
            | ok receipt_id ↦ elim (get_purchase receipt_id s.iaps) [
              | ok purchase ↦ if user_id == purchase.user then (completed, s) else (denied, s)
              | err not_found ↦ register receipt_id platform user_id next now s
              | err _ ↦ (internal, s)
            ]
          ]
    ]

-- `OnPurchaseCompleted` for the user that `Authorize` returns.
unfoldable pub on_purchase_completed :
    Bytes → Platform → Bytes → Time → Time → Server → Response × Server
unfolding complete_with
on_purchase_completed receipt unknown_platform user_id next now s = (denied, s)
on_purchase_completed receipt apple user_id next now s =
    complete_with s.apple_verifier receipt apple user_id next now s
on_purchase_completed receipt google user_id next now s =
    complete_with s.google_verifier receipt google user_id next now s
