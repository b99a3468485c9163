-- ===== src/Payment/Validity.antt =====
-- intent/messaging/handler.go: what the payments that the handlers accept have paid.
use flipchat_server.Base.{
  ◌==◌, nat_eq, Option-cases, Bytes, bytes_eq, ok, err, Result-cases, ◌≡◌, ◌↔◌, inl, inr, true,
  false, none, some, arith,
}
use flipchat_server.Account.{get_user_id}
use flipchat_server.Chat.{Metadata}
use flipchat_server.Chat.Rooms.{get_chat_metadata}
use flipchat_server.Intent.{TipMetadata, ListenerMetadata}
use flipchat_server.Messaging.{Message, get_message, is_user_content}
use flipchat_server.Payment.{
  PublicPayment, Submitted, as_listener, tip_message, Handler, panicked, is_group,
  validate_listener, validate_message_as_listener, validate_tip, validate_tip_message,
}

-- The user whose key is the account that the string spells.
pub record IsOf (s u : Bytes) (h : Handler) : Type 0 where
  pub key : Bytes
  pub spelt : h.account_from_string s ≡ some key
  pub bound : get_user_id key h.accounts ≡ ok u

-- A payment for a listener's message pays the messaging fee of a group, in Kin, publicly, from the
-- user of the message to the owner of the group, who is another user.
pub record IsListenerPayment (r : Submitted) (d : ListenerMetadata) (h : Handler) (md : Metadata)
    (p : PublicPayment) (owner : Bytes) : Type 0 where
  pub chat : get_chat_metadata d.chat_id h.chats ≡ ok md
  pub in_group : is_group md.kind ≡ true
  pub public : r.is_public ≡ true
  pub payment : r.payment ≡ some p
  pub kin : p.is_kin ≡ true
  pub fee : md.messaging_fee ≡ some p.quantity
  pub payer : IsOf r.initiator_owner_account d.user_id h
  pub payee : IsOf p.destination_owner_account owner h
  pub owned : md.owner ≡ some owner
  pub other : (d.user_id == owner) ≡ false

module _ (r : Submitted) (d : ListenerMetadata) (h : Handler) where
  validate_listener-paid :
      validate_listener r d h ≡ ok tt
      → (md : Metadata) (paying : Bytes) (p : PublicPayment)
      → get_chat_metadata d.chat_id h.chats ≡ ok md
      → h.account_from_string r.initiator_owner_account ≡ some paying
      → r.payment ≡ some p
      → (md : Metadata) × (p : PublicPayment) × (owner : Bytes) × IsListenerPayment r d h md p owner
  unfolding validate_listener
  validate_listener-paid v md paying p chat spelt payment =
      elim (Option-cases (h.account_from_string p.destination_owner_account)) [
        | inl missing ↦ ground arith
        | inr (paid, spelt') ↦ elim (Result-cases (get_user_id paying h.accounts)) [
          | inr (e, missing) ↦ ground arith
          | inl (payer, bound) ↦ elim (Result-cases (get_user_id paid h.accounts)) [
            | inr (e, missing) ↦ ground arith
            | inl (payee, bound') ↦ elim (Option-cases md.owner) [
              | inl missing ↦ ground arith
              | inr (owner, owned) ↦ (
                md,
                p,
                owner,
                record {
                  chat = chat;
                  in_group = ground arith;
                  public = ground arith;
                  payment = payment;
                  kin = ground arith;
                  fee = ground arith;
                  payer = record { key = paying; spelt = spelt; bound = ground arith };
                  payee = record { key = paid; spelt = spelt'; bound = ground arith };
                  owned = owned;
                  other = ground arith;
                },
              )
            ]
          ]
        ]
      ]

  validate_listener-IsListenerPayment :
      validate_listener r d h ≡ ok tt
      → (md : Metadata) × (p : PublicPayment) × (owner : Bytes) × IsListenerPayment r d h md p owner
  unfolding validate_listener
  validate_listener-IsListenerPayment v =
      elim (Result-cases (get_chat_metadata d.chat_id h.chats)) [
        | inr (e, missing) ↦ ground arith
        | inl (md, chat) ↦ elim (Option-cases (h.account_from_string r.initiator_owner_account)) [
          | inl missing ↦ ground arith
          | inr (paying, spelt) ↦ elim (Option-cases r.payment) [
            | inl missing ↦ ground arith
            | inr (p, payment) ↦ validate_listener-paid v md paying p chat spelt payment
          ]
        ]
      ]

  IsListenerPayment-validate_listener :
      (md : Metadata) (p : PublicPayment) (owner : Bytes)
      → IsListenerPayment r d h md p owner
      → validate_listener r d h ≡ ok tt
  unfolding validate_listener
  IsListenerPayment-validate_listener md p owner v = ground (
    arith, v.chat, v.in_group, v.public, v.payment, v.kin, v.fee, v.payer.spelt, v.payer.bound,
    v.payee.spelt, v.payee.bound, v.owned, v.other,
  )

  -- A payment for a listener's message is accepted exactly where it pays the messaging fee of a
  -- group, in Kin and publicly, from the user of the message to the owner, who is another user.
  pub validate_message_as_listener_iff :
      (validate_message_as_listener r (as_listener d) h ≡ ok tt) ↔ (
        (md : Metadata) × (p : PublicPayment) × (owner : Bytes) × IsListenerPayment r d h md p
          owner)
  unfolding validate_message_as_listener
  validate_message_as_listener_iff = (
    validate_listener-IsListenerPayment,
    λ (md, p, owner, v). IsListenerPayment-validate_listener md p owner v,
  )

  -- For an intent without the metadata of a public payment, the handler of a listener's message
  -- panics before it checks the intent's type, where the chat exists and the initiator is an
  -- account.
  pub validate_message_as_listener-panics :
      (md : Metadata) (key : Bytes)
      → get_chat_metadata d.chat_id h.chats ≡ ok md
      → h.account_from_string r.initiator_owner_account ≡ some key
      → r.payment ≡ none
      → validate_message_as_listener r (as_listener d) h ≡ err panicked
  unfolding validate_message_as_listener validate_listener
  validate_message_as_listener-panics md key chat spelt private = ground arith

-- A payment for a tip is public, in Kin, and goes from the tipper to the sender of the message, a
-- text or a reply in the chat; the sender is another user.
pub record IsTipPayment (r : Submitted) (d : TipMetadata) (h : Handler) (x : Message)
    (p : PublicPayment) (sender : Bytes) : Type 0 where
  pub public : r.is_public ≡ true
  pub payment : r.payment ≡ some p
  pub kin : p.is_kin ≡ true
  pub payer : IsOf r.initiator_owner_account d.tipper_id h
  pub payee : IsOf p.destination_owner_account sender h
  pub other : (d.tipper_id == sender) ≡ false
  pub message : get_message d.chat_id d.message_id h.messages ≡ ok x
  pub tippable : is_user_content x.content ≡ true
  pub sent : x.sender_id ≡ some sender

module _ (r : Submitted) (d : TipMetadata) (h : Handler) where
  validate_tip-paid :
      validate_tip r d h ≡ ok tt
      → (paying : Bytes) (p : PublicPayment)
      → h.account_from_string r.initiator_owner_account ≡ some paying
      → r.payment ≡ some p
      → (x : Message) × (p : PublicPayment) × (sender : Bytes) × IsTipPayment r d h x p sender
  unfolding validate_tip
  validate_tip-paid v paying p spelt payment =
      elim (Option-cases (h.account_from_string p.destination_owner_account)) [
        | inl missing ↦ ground arith
        | inr (paid, spelt') ↦ elim (Result-cases (get_user_id paying h.accounts)) [
          | inr (e, missing) ↦ ground arith
          | inl (payer, bound) ↦ elim (Result-cases (get_user_id paid h.accounts)) [
            | inr (e, missing) ↦ ground arith
            | inl (payee, bound') ↦
                elim (Result-cases (get_message d.chat_id d.message_id h.messages)) [
                  | inr (e, missing) ↦ ground arith
                  | inl (x, message) ↦ (
                    x,
                    p,
                    payee,
                    record {
                      public = ground arith;
                      payment = payment;
                      kin = ground arith;
                      payer = record { key = paying; spelt = spelt; bound = ground arith };
                      payee = record { key = paid; spelt = spelt'; bound = bound' };
                      other = ground arith;
                      message = message;
                      tippable = ground arith;
                      sent = ground arith;
                    },
                  )
                ]
          ]
        ]
      ]

  validate_tip-IsTipPayment :
      validate_tip r d h ≡ ok tt
      → (x : Message) × (p : PublicPayment) × (sender : Bytes) × IsTipPayment r d h x p sender
  unfolding validate_tip
  validate_tip-IsTipPayment v =
      elim (Option-cases (h.account_from_string r.initiator_owner_account)) [
        | inl missing ↦ ground arith
        | inr (paying, spelt) ↦ elim (Option-cases r.payment) [
          | inl missing ↦ ground arith
          | inr (p, payment) ↦ validate_tip-paid v paying p spelt payment
        ]
      ]

  IsTipPayment-validate_tip :
      (x : Message) (p : PublicPayment) (sender : Bytes)
      → IsTipPayment r d h x p sender
      → validate_tip r d h ≡ ok tt
  unfolding validate_tip
  IsTipPayment-validate_tip x p sender v = ground (
    arith, v.public, v.payment, v.kin, v.payer.spelt, v.payer.bound, v.payee.spelt, v.payee.bound,
    v.other, v.message, v.tippable, v.sent,
  )

  -- A payment for a tip is accepted exactly where it is public, in Kin, and goes from the tipper
  -- to the sender of the message, a text or a reply that another user sent to the chat.
  pub validate_tip_message_iff :
      (validate_tip_message r (tip_message d) h ≡ ok tt)
      ↔ ((x : Message) × (p : PublicPayment) × (sender : Bytes) × IsTipPayment r d h x p sender)
  unfolding validate_tip_message
  validate_tip_message_iff =
      (validate_tip-IsTipPayment, λ (x, p, sender, v). IsTipPayment-validate_tip x p sender v)
