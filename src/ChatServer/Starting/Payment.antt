-- ===== src/ChatServer/Starting/Payment.antt =====
-- chat/server.go, model/chat.go: a payment starts one group, and the id of a two-way chat.
use flipchat_server.ChatServer.Settings.{moderate}
use flipchat_server.Chat.Rooms.{Created, created, chat_exists, failed, create_chat}
use flipchat_server.Event.{MemberView}
use flipchat_server.Backend.{Backend, with_chats, Failure, done, denied}
use flipchat_server.Chat.{ChatError, Metadata, Member}
use flipchat_server.Intent.{
  is_fulfilled, mark_fulfilled, no_payment_metadata, invalid_payment_metadata, lookup_failed,
  load_payment_metadata,
}
use flipchat_server.ChatServer.Starting.{
  two_way_chat_id, group_chat, Plan, Planned, planned, refused, broken, plan_group, paid_group,
  plan, new_member, add_all, use_payment, opened, with_push, start_created, start_planned,
  start_chat,
}
use flipchat_server.Base.{
  Bool-cases, Option-cases, Bytes, bytes_eq, bytes_lt, bytes_lt_irrefl, bytes_lt_trans,
  bytes_lt_total, lookup-insert, ok, Result-cases, Time, ◌≡◌, refl, ◌⊎◌, inl, inr, Bool, true,
  false, some, List, map, arith,
}

use_payment-ok :
    (id c u : Bytes) (md : Metadata) (s : Backend)
    → (use_payment (some id) c md u s).0 ≡ ok tt
    → (is_fulfilled id s.intents ≡ false)
      × (is_fulfilled id (use_payment (some id) c md u s).1.intents ≡ true)
unfolding use_payment mark_fulfilled is_fulfilled
use_payment-ok id c u md s h = ground (arith, lookup-insert id id tt s.intents.fulfilled_intents)

add_all-intents :
    (c : Bytes) (md : Metadata) (ms : List Member) (s : Backend)
    → (add_all c md ms s).1.intents ≡ s.intents
unfolding add_all
add_all-intents c md ms s = ground arith

start_created-fulfilled :
    (b : Bool) (id : Bytes) (p : Plan) (md : Metadata) (u : Bytes) (s : Backend)
    (r : Metadata × List MemberView)
    → p.payment_intent ≡ some id
    → (start_created b p md u s).0 ≡ ok (done r)
    → is_fulfilled id (start_created b p md u s).1.intents ≡ true
unfolding start_created
start_created-fulfilled b id p md u s r paid h = elim (Option-cases (with_push md).chat_id) [
  | inl missing ↦ ground arith
  | inr (c, found) ↦
      let m = with_push md in
      let s1 = (use_payment (some id) c m u s).1 in
      let ms = map (new_member b u) p.users in
      elim (Result-cases (use_payment (some id) c m u s).0) [
        | inr (e, denied_again) ↦ ground (arith, paid)
        | inl (o, used) ↦ ground (arith, paid, use_payment-ok id c u m s, add_all-intents c m ms s1)
      ]
]

Planned-cases :
    (p : Planned)
    → ((a : Plan) × (p ≡ planned a)) ⊎ ((p ≡ refused) ⊎ ((e : Failure) × (p ≡ broken e)))
Planned-cases (planned a) = inl (a, refl)
Planned-cases refused = inr (inl refl)
Planned-cases (broken e) = inr (inr (e, refl))

Created-cases :
    (r : Created)
    → ((md : Metadata) × (r ≡ created md))
      ⊎ (((md : Metadata) × (r ≡ chat_exists md)) ⊎ ((e : ChatError) × (r ≡ failed e)))
Created-cases (created md) = inl (md, refl)
Created-cases (chat_exists md) = inr (inl (md, refl))
Created-cases (failed e) = inr (inr (e, refl))

start_planned-fulfilled :
    (b : Bool) (id : Bytes) (now : Time) (p : Plan) (u : Bytes) (s : Backend)
    (r : Metadata × List MemberView)
    → p.payment_intent ≡ some id
    → (start_planned b now p u s).0 ≡ ok (done r)
    → is_fulfilled id (start_planned b now p u s).1.intents ≡ true
unfolding start_planned
start_planned-fulfilled b id now p u s r paid h =
    let (result, chats) = create_chat (opened now p.metadata) s.chats in
    let s' = with_chats chats s in
    elim (Created-cases result) [
      | inl (md, made) ↦ ground (arith, start_created-fulfilled b id p md u s' r paid)
      | inr (inl (md, found)) ↦ ground (arith, start_created-fulfilled b id p md u s' r paid)
      | inr (inr (e, broke)) ↦ ground arith
    ]

module _ (new_id : Bytes) (now : Time) (id name : Bytes) (users : List Bytes) (u : Bytes)
    (s : Backend) where
  -- A group is not started with a payment that was used already: the call is denied, and changes
  -- nothing.
  start_chat-used :
      is_fulfilled id s.intents ≡ true
      → start_chat new_id now (group_chat (some id) name users) u s ≡ (ok denied, s)
  unfolding start_chat plan paid_group
  start_chat-used used = ground (arith, used)

  plan-payment :
      (p : Plan)
      → plan new_id (group_chat (some id) name users) u s ≡ planned p
      → p.payment_intent ≡ some id
  unfolding plan paid_group plan_group
  plan-payment p h = elim (Bool-cases (is_fulfilled id s.intents)) [
    | inl used ↦ ground arith
    | inr unused ↦
        elim (Result-cases (load_payment_metadata s.unmarshal_start_group s.code_data id)) [
          | inr (no_payment_metadata, missing) ↦ ground arith
          | inr (invalid_payment_metadata, missing) ↦ ground arith
          | inr (lookup_failed, missing) ↦ ground arith
          | inl ((_, payer), loaded) ↦ elim (Result-cases (moderate name s)) [
            | inr (e, broke) ↦ ground arith
            | inl (allowed, moderated) ↦ ground arith
          ]
        ]
  ]

  start_chat-fulfilled :
      (r : Metadata × List MemberView)
      → (start_chat new_id now (group_chat (some id) name users) u s).0 ≡ ok (done r)
      → is_fulfilled id (start_chat new_id now (group_chat (some id) name users) u s).1.intents
        ≡ true
  unfolding start_chat
  start_chat-fulfilled r h =
      elim (Planned-cases (plan new_id (group_chat (some id) name users) u s)) [
        | inl (p, made) ↦
            ground (arith, start_planned-fulfilled true id now p u s r (plan-payment p made))
        | inr (inl not_made) ↦ ground arith
        | inr (inr (e, broke)) ↦ ground arith
      ]

-- A payment starts one group: once `StartChat` has started a group with a payment, which was not
-- used before, any call to start a group with that payment is denied and changes nothing, whatever
-- the other parameters and the user.
pub start_chat-once :
    (new_id : Bytes) (now : Time) (id name : Bytes) (users : List Bytes) (u : Bytes) (s : Backend)
    (r : Metadata × List MemberView) (new_id' : Bytes) (now' : Time) (name' : Bytes)
    (users' : List Bytes) (u' : Bytes)
    → (start_chat new_id now (group_chat (some id) name users) u s).0 ≡ ok (done r)
    → let s' = (start_chat new_id now (group_chat (some id) name users) u s).1 in
      (is_fulfilled id s.intents ≡ false)
      × (start_chat new_id' now' (group_chat (some id) name' users') u' s' ≡ (ok denied, s'))
start_chat-once new_id now id name users u s r new_id' now' name' users' u' h =
    let s' = (start_chat new_id now (group_chat (some id) name users) u s).1 in
    (
      elim (Bool-cases (is_fulfilled id s.intents)) [
        | inr unused ↦ unused
        | inl used ↦ ground (arith, start_chat-used new_id now id name users u s used)
      ],
      start_chat-used new_id' now' id name' users' u' s'
          (start_chat-fulfilled new_id now id name users u s r h),
    )

-- Both users of a two-way chat compute the same id for it.
pub two_way_chat_id_comm :
    (sha256 : Bytes → Bytes) (a b : Bytes) → two_way_chat_id sha256 a b ≡ two_way_chat_id sha256 b a
unfolding two_way_chat_id
two_way_chat_id_comm sha256 a b = elim (Bool-cases (bytes_lt a b)) [
  | inl lt ↦ elim (Bool-cases (bytes_lt b a)) [
    | inl gt ↦ absurd (ground (arith, bytes_lt_trans a b a lt gt, bytes_lt_irrefl a))
    | inr le ↦ ground (arith, lt, le)
  ]
  | inr ge ↦ elim (Bool-cases (bytes_lt b a)) [
    | inl gt ↦ ground (arith, ge, gt)
    | inr le ↦ cc (bytes_lt_total a b ge le)
  ]
]
