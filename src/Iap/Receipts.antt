-- ===== src/Iap/Receipts.antt =====
-- iap/memory/store.go, iap/server.go: receipts that are recorded, and receipts that come again.
use flipchat_server.Base.{
  if◌then◌else◌, ◌==◌, nat_eq, Bool-cases, Bytes, bytes_eq, lookup, lookup-insert, has, Result, ok,
  err, Result-cases, Time, ◌≡◌, refl, inl, inr, Bool, true, false, ◌&&◌, List, [], ◌∷◌, arith,
}
use flipchat_server.Account.{is_registered, set_registration_flag, batch_set_next_airdrop_timestamp}
use flipchat_server.Iap.{
  IapError, exists, not_found, wrong_product, wrong_state, Platform, unknown_platform, apple,
  google, product_unknown, product_create_account, state_fulfilled, Purchase, Store, new_in_memory,
  add_purchase, create_purchase, get_purchase, Verifier, Server, completed, denied, with_accounts,
  with_iaps, fulfilled_purchase, notify_and_create, register, complete_with, on_purchase_completed,
}

-- A fulfilled purchase of the creation of an account.
unfoldable pub is_accepted : Purchase → Bool
is_accepted p = elim p.product [
  | product_unknown ↦ false
  | product_create_account ↦ elim p.state [ state_fulfilled ↦ true | _ ↦ false ]
]

pub create_all : List Purchase → Store → Store
create_all [] s = s
create_all (p ∷ ps) s = create_all ps (create_purchase p s).1

-- The first of the purchases that is acceptable and has the receipt.
unfoldable pub first_with : Bytes → List Purchase → Result IapError Purchase
unfolding is_accepted
first_with id [] = err not_found
first_with id (p ∷ ps) = if p.receipt_id == id && is_accepted p then ok p else first_with id ps

get_purchase-create :
    (id : Bytes) (p : Purchase) (s : Store)
    → get_purchase id (create_purchase p s).1 ≡ elim (get_purchase id s) [
      | ok q ↦ ok q
      | err e ↦ if p.receipt_id == id && is_accepted p then ok p else err e
    ]
unfolding get_purchase create_purchase add_purchase is_accepted
get_purchase-create id p s = ground (arith, lookup-insert p.receipt_id id p s.purchases)

get_purchase-create_all_from :
    (id : Bytes) (ps : List Purchase) (s : Store)
    → get_purchase id (create_all ps s)
      ≡ elim (get_purchase id s) [ ok q ↦ ok q | err e ↦ first_with id ps ]
unfolding create_all first_with get_purchase
get_purchase-create_all_from id [] s = ground arith
get_purchase-create_all_from id (p ∷ ps) s =
    ground (
      arith,
      get_purchase-create_all_from id ps (create_purchase p s).1,
      get_purchase-create id p s,
    )

-- However many purchases are recorded for a receipt, the store keeps the first of them that is a
-- fulfilled purchase of the creation of an account.
pub get_purchase-create_all :
    (id : Bytes) (ps : List Purchase)
    → get_purchase id (create_all ps new_in_memory) ≡ first_with id ps
unfolding get_purchase lookup
get_purchase-create_all id ps = get_purchase-create_all_from id ps new_in_memory

module _ (id : Bytes) (platform : Platform) (u : Bytes) (now : Time) where
  notify_and_create_lem :
      (s : Server)
      → let (response, s') = notify_and_create id platform u now s in
        response ≡ completed → get_purchase id s'.iaps ≡ ok (fulfilled_purchase id platform u now)
  unfolding notify_and_create fulfilled_purchase with_iaps create_purchase add_purchase get_purchase
  notify_and_create_lem s h =
      ground (arith, lookup-insert id id (fulfilled_purchase id platform u now) s.iaps.purchases)

  notify_and_create-kept :
      (s : Server)
      → let s' = (notify_and_create id platform u now s).1 in
        (s'.apple_verifier ≡ s.apple_verifier)
        × (s'.google_verifier ≡ s.google_verifier)
        × (s'.accounts ≡ s.accounts)
  unfolding notify_and_create with_iaps
  notify_and_create-kept s = ground arith

  register_lem :
      (next : Time) (s : Server)
      → let (response, s') = register id platform u next now s in
        response ≡ completed
        → (get_purchase id s'.iaps ≡ ok (fulfilled_purchase id platform u now))
          × (s'.apple_verifier ≡ s.apple_verifier)
          × (s'.google_verifier ≡ s.google_verifier)
          × (is_registered u s'.accounts ≡ true)
  unfolding register with_accounts set_registration_flag is_registered
  register_lem next s h =
      let scheduled = batch_set_next_airdrop_timestamp next (u ∷ []) s.accounts in
      let (result, m) = set_registration_flag u true scheduled in
      let noted = notify_and_create_lem (with_accounts m s) in
      let kept = notify_and_create-kept (with_accounts m s) in
      let written = lookup-insert u u true scheduled.registered_users in
      elim (Bool-cases (has u scheduled.users)) [
        | inl known ↦ (ground arith, ground arith, ground arith, ground arith)
        | inr unknown ↦ ground arith
      ]

module _ (receipt : Bytes) (platform : Platform) (u : Bytes) (now next : Time) where
  complete_with_lem :
      (verifier : Verifier) (s : Server)
      → let (response, s') = complete_with verifier receipt platform u next now s in
        response ≡ completed
        → (id : Bytes) × (p : Purchase) × (verifier.verify_receipt receipt ≡ ok true)
          × (verifier.get_receipt_identifier receipt ≡ ok id)
          × (get_purchase id s'.iaps ≡ ok p)
          × (p.user ≡ u)
          × (s'.apple_verifier ≡ s.apple_verifier)
          × (s'.google_verifier ≡ s.google_verifier)
  unfolding complete_with fulfilled_purchase
  complete_with_lem verifier s h = elim (Result-cases (verifier.get_receipt_identifier receipt)) [
    | inr (e, missing) ↦ ground arith
    | inl (id, identified) ↦ elim (Result-cases (get_purchase id s.iaps)) [
      | inl (p, found) ↦
          (id, p, ground arith, identified, ground arith, ground arith, ground arith, ground arith)
      | inr (exists, missing) ↦ ground arith
      | inr (wrong_product, missing) ↦ ground arith
      | inr (wrong_state, missing) ↦ ground arith
      | inr (not_found, missing) ↦
          let done = register_lem id platform u now next s in
          (
            id,
            fulfilled_purchase id platform u now,
            ground arith,
            identified,
            ground arith,
            refl,
            ground arith,
            ground arith,
          )
    ]
  ]

  -- A receipt that is used already changes nothing.
  complete_with-used :
      (verifier : Verifier) (s : Server) (id w : Bytes) (p : Purchase)
      → verifier.verify_receipt receipt ≡ ok true
      → verifier.get_receipt_identifier receipt ≡ ok id
      → get_purchase id s.iaps ≡ ok p
      → p.user ≡ w
      → complete_with verifier receipt platform u next now s
        ≡ (if u == w then completed else denied, s)
  unfolding complete_with
  complete_with-used verifier s id w p verified identified found owned = ground arith

-- What no call of the handler changes: the verifiers, and a purchase that is recorded.
record IsKept (s s' : Server) : Type 0 where
  apples : s'.apple_verifier ≡ s.apple_verifier
  googles : s'.google_verifier ≡ s.google_verifier
  recorded :
      (id : Bytes) (p : Purchase) → get_purchase id s.iaps ≡ ok p → get_purchase id s'.iaps ≡ ok p

module _ (platform : Platform) (u : Bytes) (now : Time) where
  notify_and_create-IsKept :
      (id : Bytes) (s : Server) → IsKept s (notify_and_create id platform u now s).1
  unfolding notify_and_create with_iaps
  notify_and_create-IsKept id s = record {
    apples = ground arith;
    googles = ground arith;
    recorded = λ j p found.
        ground (arith, get_purchase-create j (fulfilled_purchase id platform u now) s.iaps, found);
  }

  register-IsKept :
      (id : Bytes) (next : Time) (s : Server) → IsKept s (register id platform u next now s).1
  unfolding register with_accounts
  register-IsKept id next s =
      let scheduled = batch_set_next_airdrop_timestamp next (u ∷ []) s.accounts in
      let (result, m) = set_registration_flag u true scheduled in
      let kept = notify_and_create-IsKept id (with_accounts m s) in
      record {
        apples = ground (arith, kept.apples);
        googles = ground (arith, kept.googles);
        recorded = λ j p found. ground (arith, kept.recorded j p found, found);
      }

  complete_with-IsKept :
      (verifier : Verifier) (receipt : Bytes) (next : Time) (s : Server)
      → IsKept s (complete_with verifier receipt platform u next now s).1
  unfolding complete_with
  complete_with-IsKept verifier receipt next s =
      elim (Result-cases (verifier.get_receipt_identifier receipt)) [
        | inr (e, missing) ↦ record {
          apples = ground arith;
          googles = ground arith;
          recorded = λ j p found. ground (arith, found);
        }
        | inl (id, identified) ↦
            let kept = register-IsKept id next s in
            record {
              apples = ground (arith, kept.apples);
              googles = ground (arith, kept.googles);
              recorded = λ j p found. ground (arith, kept.recorded j p found, found);
            }
      ]

-- A call of `OnPurchaseCompleted`, with the time of the next airdrop and the reading of the clock.
pub record PurchaseCall : Type 0 where
  pub receipt : Bytes
  pub platform : Platform
  pub user : Bytes
  pub next : Time
  pub now : Time

pub complete_all : List PurchaseCall → Server → Server
complete_all [] s = s
complete_all (c ∷ cs) s =
    complete_all cs (on_purchase_completed c.receipt c.platform c.user c.next c.now s).1

on_purchase_completed-IsKept :
    (receipt : Bytes) (platform : Platform) (u : Bytes) (next now : Time) (s : Server)
    → IsKept s (on_purchase_completed receipt platform u next now s).1
unfolding on_purchase_completed
on_purchase_completed-IsKept receipt unknown_platform u next now s = record {
  apples = refl;
  googles = refl;
  recorded = λ j p found. found;
}
on_purchase_completed-IsKept receipt apple u next now s =
    complete_with-IsKept apple u now s.apple_verifier receipt next s
on_purchase_completed-IsKept receipt google u next now s =
    complete_with-IsKept google u now s.google_verifier receipt next s

complete_all-IsKept : (cs : List PurchaseCall) (s : Server) → IsKept s (complete_all cs s)
unfolding complete_all
complete_all-IsKept [] s = record { apples = refl; googles = refl; recorded = λ j p found. found }
complete_all-IsKept (c ∷ cs) s =
    let s' = (on_purchase_completed c.receipt c.platform c.user c.next c.now s).1 in
    let first = on_purchase_completed-IsKept c.receipt c.platform c.user c.next c.now s in
    let rest = complete_all-IsKept cs s' in
    record {
      apples = ground (arith, first.apples, rest.apples);
      googles = ground (arith, first.googles, rest.googles);
      recorded = λ j p found. rest.recorded j p (first.recorded j p found);
    }

-- Once a call for a receipt has answered that the purchase is completed, and whatever calls of
-- `OnPurchaseCompleted` follow, completing the receipt again succeeds for the same user and is
-- denied to every other, and changes nothing.
pub on_purchase_completed-again :
    (receipt : Bytes) (platform : Platform) (u w : Bytes) (now next now' next' : Time) (s : Server)
    (cs : List PurchaseCall)
    → (on_purchase_completed receipt platform u next now s).0 ≡ completed
    → let s' = complete_all cs (on_purchase_completed receipt platform u next now s).1 in
      on_purchase_completed receipt platform w next' now' s'
      ≡ (if w == u then completed else denied, s')
unfolding on_purchase_completed
on_purchase_completed-again receipt unknown_platform u w now next now' next' s cs h = ground arith
on_purchase_completed-again receipt apple u w now next now' next' s cs h =
    let (id, p, verified, identified, found, owned, same, _) =
      complete_with_lem receipt apple u now next s.apple_verifier s h in
    let s' = (on_purchase_completed receipt apple u next now s).1 in
    let kept = complete_all-IsKept cs s' in
    let s'' = complete_all cs s' in
    let still : s''.apple_verifier ≡ s.apple_verifier = ground (arith, kept.apples, same) in
    complete_with-used receipt apple w now' next' s''.apple_verifier s'' id u p (rw still verified)
      (rw still identified) (kept.recorded id p found) owned
on_purchase_completed-again receipt google u w now next now' next' s cs h =
    let (id, p, verified, identified, found, owned, _, same) =
      complete_with_lem receipt google u now next s.google_verifier s h in
    let s' = (on_purchase_completed receipt google u next now s).1 in
    let kept = complete_all-IsKept cs s' in
    let s'' = complete_all cs s' in
    let still : s''.google_verifier ≡ s.google_verifier = ground (arith, kept.googles, same) in
    complete_with-used receipt google w now' next' s''.google_verifier s'' id u p
      (rw still verified) (rw still identified) (kept.recorded id p found) owned
