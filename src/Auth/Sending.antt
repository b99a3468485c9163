-- ===== src/Auth/Sending.antt =====
-- auth/rpc/messaging.go: what a permission to send a message guarantees.
use flipchat_server.Base.{
  nat_eq, Bool-cases, Option-cases, Bytes, bytes_eq, ok, Result-cases, ℕ, ◌≡◌, ◌↔◌, ◌⊎◌, inl, inr,
  Bool, true, false, not, ◌||◌, Option, some, arith,
}
use flipchat_server.Account.{is_registered}
use flipchat_server.Chat.{Metadata, Member}
use flipchat_server.Chat.Rooms.{get_chat_metadata}
use flipchat_server.Chat.Members.{get_member}
use flipchat_server.Intent.{
  is_fulfilled, IntentRecord, TipMetadata, ListenerMetadata, no_payment_metadata,
  invalid_payment_metadata, lookup_failed, load_payment_metadata,
}
use flipchat_server.Messaging.{Content, text, tip, Message, get_message, is_user_content}
use flipchat_server.Auth.{
  Authorizer, is_owner, reference, check_tip, check_content, is_closed, check_listener_payment,
  can_send_message,
}

-- The sender is registered, and an active member of the chat who is not muted.
pub record IsSender (c u : Bytes) (md : Metadata) (m : Member) (a : Authorizer) : Type 0 where
  pub chat : get_chat_metadata c a.chats ≡ ok md
  pub registered : is_registered u a.accounts ≡ true
  pub member : get_member c u a.chats ≡ ok m
  pub audible : m.is_muted ≡ false

-- The payment for a listener's message is for this chat, by this user, and not used yet.
pub record IsPaid (c u id : Bytes) (r : IntentRecord) (d : ListenerMetadata) (a : Authorizer)
    : Type 0 where
  pub loaded : load_payment_metadata a.code_data.unmarshal_listener a.code_data id ≡ ok (r, d)
  pub unused : is_fulfilled id a.intents ≡ false
  pub this_chat : d.chat_id ≡ c
  pub this_user : d.user_id ≡ u

-- The payment for a tip is for this message of this chat, by this user, of this amount, and not
-- used yet.
pub record IsTip (c u m : Bytes) (quarks : ℕ) (id : Bytes) (r : IntentRecord) (d : TipMetadata)
    (a : Authorizer) : Type 0 where
  pub loaded : load_payment_metadata a.code_data.unmarshal_tip a.code_data id ≡ ok (r, d)
  pub unused : is_fulfilled id a.intents ≡ false
  pub this_chat : d.chat_id ≡ c
  pub this_message : d.message_id ≡ m
  pub this_user : d.tipper_id ≡ u
  pub amount : r.quantity ≡ quarks

-- A text or a reply by somebody who neither owns the chat nor may speak in it is paid for.
abbrev pub Speaks : Bytes → Bytes → Metadata → Member → Option Bytes → Authorizer → Type 0
Speaks c u md m p a =
    ((is_owner md u || m.has_send_permission) ≡ true)
    ⊎ ((id : Bytes) × (r : IntentRecord) × (d : ListenerMetadata) × (p ≡ some id)
        × IsPaid c u id r d a)

-- A text may be sent exactly where the sender is registered, an active member and not muted, the
-- chat is open or the sender's own, and the sender owns the chat, may speak in it, or has paid for
-- the message with a payment for this chat and user that was not used yet.
abbrev pub MaySend : Bytes → Bytes → Option Bytes → Authorizer → Type 0
MaySend c u p a =
    (md : Metadata) × (m : Member) × IsSender c u md m a
    × ((is_owner md u || not (is_closed md)) ≡ true)
    × Speaks c u md m p a

module _ (c u : Bytes) (p : Option Bytes) (a : Authorizer) where
  IsSender-can_send_message :
      (x : Content)
      → can_send_message c u x p a ≡ ok tt
      → (md : Metadata) × (m : Member) × IsSender c u md m a
  unfolding can_send_message
  IsSender-can_send_message x h = elim (Result-cases (get_chat_metadata c a.chats)) [
    | inr (e, missing) ↦ ground arith
    | inl (md, chat) ↦ elim (Result-cases (get_member c u a.chats)) [
      | inr (e, missing) ↦ ground arith
      | inl (m, member) ↦ (
        md,
        m,
        record { chat = chat; registered = ground arith; member = member; audible = ground arith },
      )
    ]
  ]

  check_listener_payment_lem :
      check_listener_payment c u p a ≡ ok tt
      → (id : Bytes) × (r : IntentRecord) × (d : ListenerMetadata) × (p ≡ some id)
        × IsPaid c u id r d a
  unfolding check_listener_payment
  check_listener_payment_lem h = elim (Option-cases p) [
    | inl absent ↦ ground arith
    | inr (id, given) ↦
        elim (Result-cases (load_payment_metadata a.code_data.unmarshal_listener a.code_data id)) [
          | inr (no_payment_metadata, missing) ↦ ground arith
          | inr (invalid_payment_metadata, missing) ↦ ground arith
          | inr (lookup_failed, missing) ↦ ground arith
          | inl ((r, d), loaded) ↦ (
            id,
            r,
            d,
            given,
            record {
              loaded = loaded;
              unused = ground arith;
              this_chat = ground arith;
              this_user = ground arith;
            },
          )
        ]
  ]

  IsPaid-check_listener_payment :
      (id : Bytes) (r : IntentRecord) (d : ListenerMetadata)
      → p ≡ some id
      → IsPaid c u id r d a
      → check_listener_payment c u p a ≡ ok tt
  unfolding check_listener_payment
  IsPaid-check_listener_payment id r d given paid =
      ground (arith, paid.loaded, paid.unused, paid.this_chat, paid.this_user)

  -- A text may be sent exactly by a registered, active and unmuted member, to a chat that is open
  -- or the sender's own, where the sender owns the chat, may speak in it, or has paid.
  pub can_send_message_iff :
      (t : Bytes) → (can_send_message c u (text t) p a ≡ ok tt) ↔ MaySend c u p a
  unfolding can_send_message check_content
  can_send_message_iff t = (
    λ h. elim (Result-cases (get_chat_metadata c a.chats)) [
      | inr (e, missing) ↦ ground arith
      | inl (md, chat) ↦ elim (Result-cases (get_member c u a.chats)) [
        | inr (e, missing) ↦ ground arith
        | inl (m, member) ↦ (
          md,
          m,
          record {
            chat = chat;
            registered = ground arith;
            member = member;
            audible = ground arith;
          },
          ground arith,
          elim (Bool-cases (is_owner md u || m.has_send_permission)) [
            | inl speaker ↦ inl speaker
            | inr listener ↦ inr (check_listener_payment_lem (ground arith))
          ],
        )
      ]
    ],
    λ (md, m, sender, opened, speaks). elim speaks [
      | inl speaker ↦ ground (arith, sender.chat, sender.registered, sender.member, sender.audible)
      | inr (id, r, d, given, paid) ↦
          let accepted = IsPaid-check_listener_payment id r d given paid in
          ground (arith, sender.chat, sender.registered, sender.member, sender.audible)
    ],
  )

  can_send_message-check_content :
      (x : Content)
      → can_send_message c u x p a ≡ ok tt
      → (owner : Bool) × (check_content c u x p owner a ≡ ok tt)
  unfolding can_send_message
  can_send_message-check_content x h = elim (Result-cases (get_chat_metadata c a.chats)) [
    | inr (e, missing) ↦ ground arith
    | inl (md, chat) ↦ (is_owner md u, ground arith)
  ]

  check_tip-reference :
      (m : Bytes) (quarks : ℕ)
      → check_tip c u m quarks p a ≡ ok tt
      → (x : Message) × (get_message c m a.messages ≡ ok x) × (is_user_content x.content ≡ true)
  unfolding check_tip reference
  check_tip-reference m quarks h = elim (Result-cases (get_message c m a.messages)) [
    | inr (e, missing) ↦ ground arith
    | inl (x, found) ↦ (x, found, ground arith)
  ]

  check_tip_lem :
      (m : Bytes) (quarks : ℕ)
      → check_tip c u m quarks p a ≡ ok tt
      → (id : Bytes) × (r : IntentRecord) × (d : TipMetadata) × (p ≡ some id)
        × IsTip c u m quarks id r d a
  unfolding check_tip reference
  check_tip_lem m quarks h = elim (Option-cases p) [
    | inl absent ↦ ground arith
    | inr (id, given) ↦
        elim (Result-cases (load_payment_metadata a.code_data.unmarshal_tip a.code_data id)) [
          | inr (no_payment_metadata, missing) ↦ ground arith
          | inr (invalid_payment_metadata, missing) ↦ ground arith
          | inr (lookup_failed, missing) ↦ ground arith
          | inl ((r, d), loaded) ↦ (
            id,
            r,
            d,
            given,
            record {
              loaded = loaded;
              unused = ground arith;
              this_chat = ground arith;
              this_message = ground arith;
              this_user = ground arith;
              amount = ground arith;
            },
          )
        ]
  ]

  -- Where a tip may be sent, the user is registered and an active member of the chat who is not
  -- muted, the message is a text or a reply in the chat, and a payment that was not used yet is
  -- for that message, by that user and of that amount.
  pub can_send_message-tip :
      (m : Bytes) (quarks : ℕ)
      → can_send_message c u (tip m quarks) p a ≡ ok tt
      → ((md : Metadata) × (member : Member) × IsSender c u md member a)
        × ((x : Message) × (get_message c m a.messages ≡ ok x) × (is_user_content x.content ≡ true))
        × ((id : Bytes) × (r : IntentRecord) × (d : TipMetadata) × (p ≡ some id)
            × IsTip c u m quarks id r d a)
  unfolding can_send_message check_content
  can_send_message-tip m quarks h =
      let checked = (can_send_message-check_content (tip m quarks) h).1 in
      (
        IsSender-can_send_message (tip m quarks) h,
        check_tip-reference m quarks checked,
        check_tip_lem m quarks checked,
      )
