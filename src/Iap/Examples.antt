-- ===== src/Iap/Examples.antt =====
-- A purchase, and the theorems on receipts at concrete inputs.
use flipchat_server.Base.{
  if◌then◌else◌, ◌==◌, Bytes, bytes_discrete, bytes_eq, lookup, insert, ok, ◌≡◌, refl, true, List,
  [], ◌∷◌,
}
use flipchat_server.Account
use flipchat_server.Account.{set_registration_flag, batch_set_next_airdrop_timestamp}
use flipchat_server.Iap.{
  apple, Product, product_unknown, product_create_account, state_fulfilled, Purchase, new_in_memory,
  add_purchase, create_purchase, get_purchase, Verifier, Server, completed, denied,
  fulfilled_purchase, notify_and_create, register, complete_with, on_purchase_completed,
}
use flipchat_server.Iap.Receipts.{
  is_accepted, first_with, PurchaseCall, complete_all, on_purchase_completed-again,
}

abbrev alice : Bytes
alice = 1 ∷ []

abbrev bob : Bytes
bob = 2 ∷ []

abbrev receipt : Bytes
receipt = 9 ∷ []

abbrev purchase : Product → Bytes → Purchase
purchase product user = record {
  receipt_id = receipt;
  platform = apple;
  user = user;
  product = product;
  state = state_fulfilled;
  created_at = 10;
}

abbrev purchases : List Purchase
purchases =
    purchase product_unknown bob
    ∷ purchase product_create_account alice
    ∷ purchase product_create_account bob
    ∷ []

first_with-purchases : first_with receipt purchases ≡ ok (purchase product_create_account alice)
unfolding first_with is_accepted bytes_discrete
first_with-purchases = refl

-- A verifier that takes every receipt as its own identifier.
abbrev verifier : Verifier
verifier = record { verify_receipt = λ r. ok true; get_receipt_identifier = λ r. ok r }

abbrev server : Server
server = record {
  accounts = record Account.new_in_memory { users = (alice, (3 ∷ []) ∷ []) ∷ [] };
  iaps = new_in_memory;
  apple_verifier = verifier;
  google_verifier = verifier;
  send_notification = λ u. true;
}

on_purchase_completed-server :
    (on_purchase_completed receipt apple alice 20 10 server).0 ≡ completed
unfolding on_purchase_completed complete_with register notify_and_create fulfilled_purchase
    create_purchase add_purchase get_purchase batch_set_next_airdrop_timestamp set_registration_flag
    lookup insert bytes_discrete
on_purchase_completed-server = refl

-- In between alice completes the receipt again.
abbrev between : List PurchaseCall
between = record { receipt = receipt; platform = apple; user = alice; next = 25; now = 12 } ∷ []

on_purchase_completed-again_example :
    let s' = complete_all between (on_purchase_completed receipt apple alice 20 10 server).1 in
    on_purchase_completed receipt apple bob 40 30 s'
    ≡ (if bob == alice then completed else denied, s')
on_purchase_completed-again_example =
    on_purchase_completed-again receipt apple alice bob 10 20 30 40 server between
      on_purchase_completed-server
