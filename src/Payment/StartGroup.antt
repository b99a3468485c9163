-- ===== src/Payment/StartGroup.antt =====
-- intent/chat/handler.go, intent/custom_antispam_guard.go, flags/user.go: the fee for starting a
-- group, and who may open accounts and send payments.
use flipchat_server.Account.{Store, get_user_id, is_registered}
use flipchat_server.Payment.{
  PublicPayment, Submitted, CustomMetadata, as_listener, tip_message, start_group, other_metadata,
  Handler, paying_user_not_found, must_be_public, user_must_pay, wrong_start_fee,
  wrong_fee_destination, Rejection, failed, panicked, or_invalid, or_else, invalid_if,
}
use flipchat_server.Base.{
  if◌then◌else◌, ◌==◌, nat_eq, Option-cases, Bytes, bytes_eq, Result, ok, err, ◌>>=◌, ◌>>◌,
  Result-cases, ℕ, ◌*◌, ◌≡◌, ◌↔◌, inl, inr, Bool, true, not, ◌||◌, some, arith,
}

-- `flags.StartGroupFee`: 100 Kin, in quarks.
abbrev pub start_group_fee : ℕ
start_group_fee = 100 * 100000

-- `StartGroupChatPaymentIntentHandler.Validate` from the type assertion on. The token account of the
-- destination of fees is a parameter.
unfoldable pub validate_start_group :
    Bytes → Submitted → Bytes → Handler → Result Rejection (Unit {0})
validate_start_group fee_destination r user_id h = do
  paying_owner ← or_else failed (h.account_from_string r.initiator_owner_account)
  paying_user ← or_invalid paying_user_not_found (get_user_id paying_owner h.accounts)
  invalid_if (not r.is_public) must_be_public
  payment ← or_else panicked r.payment
  invalid_if (not payment.is_kin || not (payment.quantity == start_group_fee)) wrong_start_fee
  invalid_if (not (payment.destination_token_account == fee_destination)) wrong_fee_destination
  invalid_if (not (user_id == paying_user)) user_must_pay

unfoldable pub validate_start_group_chat :
    Bytes → Submitted → CustomMetadata → Handler → Result Rejection (Unit {0})
validate_start_group_chat fee_destination r (start_group user_id) h =
    validate_start_group fee_destination r user_id h
validate_start_group_chat fee_destination r (as_listener d) h = err failed
validate_start_group_chat fee_destination r (tip_message d) h = err failed
validate_start_group_chat fee_destination r other_metadata h = err failed

-- The reasons of `FlipchatAntispamGuard`.
pub data Suspicion : Type 0 where
  unknown_key iap_not_completed not_public : Suspicion

unfoldable pub allow_open_accounts : Bytes → Store → Result Suspicion (Unit {0})
allow_open_accounts pub_key m = elim (get_user_id pub_key m) [
  | err _ ↦ err unknown_key
  | ok user_id ↦ if not (is_registered user_id m) then err iap_not_completed else ok tt
]

unfoldable pub allow_send_payment : Bool → Result Suspicion (Unit {0})
allow_send_payment is_public = if not is_public then err not_public else ok tt

-- The payment for a group: public, of exactly the fee, in Kin, to the destination of fees, by the
-- user whose group it is.
pub record IsStartFee (fee_destination : Bytes) (r : Submitted) (user_id : Bytes) (owner : Bytes)
    (p : PublicPayment) (h : Handler) : Type 0 where
  pub payer : h.account_from_string r.initiator_owner_account ≡ some owner
  pub user : get_user_id owner h.accounts ≡ ok user_id
  pub public : r.is_public ≡ true
  pub payment : r.payment ≡ some p
  pub kin : p.is_kin ≡ true
  pub fee : p.quantity ≡ start_group_fee
  pub destination : p.destination_token_account ≡ fee_destination

-- A payment is accepted for starting a group exactly where it is public, of exactly the fee for a
-- group, in Kin, to the destination of fees, and by the user that its metadata name.
pub validate_start_group_chat_iff :
    (fee_destination : Bytes) (r : Submitted) (user_id : Bytes) (h : Handler)
    → (validate_start_group_chat fee_destination r (start_group user_id) h ≡ ok tt)
      ↔ ((owner : Bytes) × (p : PublicPayment) × IsStartFee fee_destination r user_id owner p h)
unfolding validate_start_group_chat validate_start_group
validate_start_group_chat_iff fee_destination r user_id h = (
  λ accepted. elim (Option-cases (h.account_from_string r.initiator_owner_account)) [
    | inl none_named ↦ ground arith
    | inr (owner, named) ↦ elim (Result-cases (get_user_id owner h.accounts)) [
      | inr (e, unbound) ↦ ground arith
      | inl (u, bound) ↦ elim (Option-cases r.payment) [
        | inl unpaid ↦ ground arith
        | inr (p, paid) ↦ (
          owner,
          p,
          record {
            payer = named;
            user = ground arith;
            public = ground arith;
            payment = paid;
            kin = ground arith;
            fee = ground arith;
            destination = ground arith;
          },
        )
      ]
    ]
  ],
  λ (owner, p, v).
      ground (arith, v.payer, v.user, v.public, v.payment, v.kin, v.fee, v.destination),
)
