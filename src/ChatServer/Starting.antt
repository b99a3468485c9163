-- ===== src/ChatServer/Starting.antt =====
-- chat/server.go, model/chat.go: the handlers that start and join a chat.
pub mod Payment
mod Examples
use flipchat_server.Chat.Rooms.{created, chat_exists, failed, create_chat}
use flipchat_server.Payment.{chat_not_found, is_group}
use flipchat_server.Event.{MemberView, full_refresh, members_refreshed, joined}
use flipchat_server.Intent.{
  Store, is_fulfilled, mark_fulfilled, no_payment_metadata, load_payment_metadata,
}
use flipchat_server.ChatServer.Reads.{
  get_metadata, populate_member_data, get_metadata_with_members, failure, Identifier, resolve,
}
use flipchat_server.ChatServer.Settings.{owned_by, moderate}
use flipchat_server.Backend.{
  is_live, created_group, Effect, publishes, announces, notes, Backend, with_chats, with_intents,
  emit, chat_event, Failure, internal, invalid_argument, panicked, Answer, done, denied, Reply,
}
use flipchat_server.Chat.{ChatError, ChatType, two_way, group, Metadata, Member, to_proto}
use flipchat_server.Base.{
  if◌then◌else◌, ◌==◌, nat_eq, Bytes, bytes_eq, bytes_lt, Result, ok, err, Time, ℕ, ◌*◌, Bool, true,
  false, not, ◌&&◌, Option, none, some, List, [], ◌∷◌, ◌++◌, map,
}
use flipchat_server.Chat
use flipchat_server.Chat.Members.{add_member, has_send_permission, is_push_enabled}
use flipchat_server.Intent

-- `InitialMessagingFee`: 5 Kin, in quarks.
abbrev pub initial_messaging_fee : ℕ
initial_messaging_fee = 5 * 100000

-- `GenerateTwoWayChatID`: the hash of both user ids, the lesser first.
unfoldable pub two_way_chat_id : (Bytes → Bytes) → Bytes → Bytes → Bytes
two_way_chat_id sha256 a b = if not (bytes_lt b a) then sha256 (a ++ b) else sha256 (b ++ a)

-- The parameters of `StartChatRequest`.
pub data Parameters : Type 0 where
  two_way_chat : Bytes → Parameters
  group_chat : Option Bytes → Bytes → List Bytes → Parameters
  no_parameters : Parameters

-- The metadata that `StartChat` makes, before it sets the open status and the last activity.
new_metadata : Bytes → ChatType → Bytes → Option Bytes → Option ℕ → Metadata
new_metadata chat_id kind display_name owner fee = record {
  chat_id = some chat_id;
  kind = kind;
  display_name = display_name;
  description = [];
  room_number = 0;
  is_push_enabled = false;
  can_disable_push = false;
  num_unread = 0;
  has_more_unread = false;
  owner = owner;
  messaging_fee = fee;
  last_activity = none;
  open_status = none;
}

-- What the first part of `StartChat` prepares: the metadata, the users, and the payment.
pub record Plan : Type 0 where
  pub metadata : Metadata
  pub users : List Bytes
  pub payment_intent : Option Bytes

-- The early returns of that part, or the plan.
pub data Planned : Type 0 where
  planned : Plan → Planned
  refused : Planned
  broken : Failure → Planned

-- The name of a new group, where moderation lets it pass.
plan_group : Bytes → Bytes → Bytes → List Bytes → Bytes → Backend → Planned
unfolding new_metadata moderate
plan_group chat_id payment_intent display_name users user_id s = elim (moderate display_name s) [
  | err _ ↦ broken internal
  | ok allowed ↦
      if not allowed
      then refused
      else planned (record {
        metadata =
            new_metadata chat_id group display_name (some user_id) (some initial_messaging_fee);
        users = users ++ user_id ∷ [];
        payment_intent = some payment_intent;
      })
]

-- The checks of the payment for a group: it is not used, and it is this user's.
paid_group : Bytes → Bytes → Bytes → List Bytes → Bytes → Backend → Planned
unfolding plan_group
paid_group chat_id payment_intent display_name users user_id s =
    if is_fulfilled payment_intent s.intents
    then refused
    else elim (load_payment_metadata s.unmarshal_start_group s.code_data payment_intent) [
      | err Intent.no_payment_metadata ↦ refused
      | err _ ↦ broken internal
      | ok (_, payer) ↦
          if not (payer == user_id)
          then refused
          else plan_group chat_id payment_intent display_name users user_id s
    ]

plan : Bytes → Parameters → Bytes → Backend → Planned
unfolding new_metadata paid_group two_way_chat_id
plan new_id (two_way_chat other) user_id s = planned (record {
  metadata = new_metadata (two_way_chat_id s.sha256 user_id other) two_way [] none none;
  users = user_id ∷ other ∷ [];
  payment_intent = none;
})
plan new_id (group_chat none display_name users) user_id s = refused
plan new_id (group_chat (some id) display_name users) user_id s =
    paid_group new_id id display_name users user_id s
plan new_id no_parameters user_id s = broken invalid_argument

-- A member that `StartChat` adds: who starts a group moderates it.
new_member : Bool → Bytes → Bytes → Member
new_member is_group_chat user_id u = record {
  user_id = u;
  added_by = some user_id;
  is_push_enabled = false;
  is_muted = false;
  has_mod_permission = is_group_chat && u == user_id;
  has_send_permission = true;
  is_soft_deleted = false;
}

-- The loop that adds the members; an error ends the call.
unfoldable pub add_members :
    Bytes → List Member → Chat.Store → Result ChatError (Unit {0}) × Chat.Store
add_members chat_id [] chats = (ok tt, chats)
add_members chat_id (m ∷ ms) chats =
    let (result, chats') = add_member chat_id m chats in
    let rest = add_members chat_id ms chats' in
    elim result [ err e ↦ (err e, chats') | ok _ ↦ rest ]

-- The views of the new members, without their pointers; where reading a profile fails they are
-- left without profiles.
new_views : List Member → Backend → List MemberView
new_views ms s = elim (populate_member_data (map (λ m. to_proto m none) ms) none s) [
  | ok views ↦ views
  | err _ ↦
      map
        (λ m. record {
          member = to_proto m none;
          display_name = [];
          social_profiles = [];
          pointers = [];
        })
        ms
]

announcement_of : Bytes → Metadata → List Effect
announcement_of chat_id md =
    if is_group md.kind then announces chat_id (is_live md.room_number) ∷ [] else []

-- The last part of `StartChat`: the members, the announcement and the event.
unfoldable pub add_all :
    Bytes → Metadata → List Member → Backend → Reply (Metadata × List MemberView)
unfolding new_views announcement_of
add_all chat_id md ms s =
    let views = new_views ms s in
    let (result, chats) = add_members chat_id ms s.chats in
    elim result [
      | err _ ↦ (err internal, with_chats chats s)
      | ok _ ↦ (
        ok (done (md, views)),
        emit
            (announcement_of chat_id md
              ++ publishes (record (chat_event chat_id) {
                metadata_updates = full_refresh md ∷ [];
                member_updates = members_refreshed views ∷ [];
              })
                ∷ [])
            (with_chats chats s),
      )
    ]

-- The payment is used once the chat is created; a group is noted in the user's activity feed.
unfoldable pub use_payment :
    Option Bytes
    → Bytes
    → Metadata
    → Bytes
    → Backend
    → Result (Answer (Unit {0})) (Unit {0}) × Backend
use_payment none chat_id md user_id s = (ok tt, s)
use_payment (some id) chat_id md user_id s =
    let (result, intents) = mark_fulfilled id s.intents in
    elim result [
      | err _ ↦ (err denied, with_intents intents s)
      | ok _ ↦ (
        ok tt,
        emit (if is_group md.kind then notes (created_group user_id chat_id) ∷ [] else [])
            (with_intents intents s),
      )
    ]

opened : Time → Metadata → Metadata
opened now md = record md { open_status = some true; last_activity = some now }

with_push : Metadata → Metadata
with_push md = record md { is_push_enabled = true; can_disable_push = true }

-- The part of `StartChat` behind the creation of the chat, or behind finding it.
unfoldable pub start_created :
    Bool → Plan → Metadata → Bytes → Backend → Reply (Metadata × List MemberView)
unfolding use_payment add_all with_push new_member
start_created is_group_chat p created_md user_id s =
    let md = with_push created_md in
    elim md.chat_id [
      | none ↦ (err panicked, s)
      | some chat_id ↦
          let (result, s') = use_payment p.payment_intent chat_id md user_id s in
          elim result [
            | err _ ↦ (ok denied, s')
            | ok _ ↦ add_all chat_id md (map (new_member is_group_chat user_id) p.users) s'
          ]
    ]

abbrev is_group_request : Parameters → Bool
is_group_request (group_chat id name users) = true
is_group_request _ = false

-- The part of `StartChat` behind the first one: the chat is created, or found.
unfoldable pub start_planned :
    Bool → Time → Plan → Bytes → Backend → Reply (Metadata × List MemberView)
unfolding opened start_created
start_planned is_group_chat now p user_id s =
    let (result, chats) = create_chat (opened now p.metadata) s.chats in
    let s' = with_chats chats s in
    elim result [
      | failed e ↦ (err internal, s')
      | created md ↦ start_created is_group_chat p md user_id s'
      | chat_exists md ↦ start_created is_group_chat p md user_id s'
    ]

-- `StartChat`: `new_id` is the id that it makes for a group, and `now` its reading of the clock.
unfoldable pub start_chat :
    Bytes → Time → Parameters → Bytes → Backend → Reply (Metadata × List MemberView)
unfolding plan start_planned
start_chat new_id now parameters user_id s = elim (plan new_id parameters user_id s) [
  | refused ↦ (ok denied, s)
  | broken e ↦ (err e, s)
  | planned p ↦ start_planned (is_group_request parameters) now p user_id s
]

-- The member that `JoinChat` adds.
joining : Bool → Bytes → Member
joining is_owner user_id = record {
  user_id = user_id;
  added_by = none;
  is_push_enabled = true;
  is_muted = false;
  has_mod_permission = is_owner;
  has_send_permission = is_owner;
  is_soft_deleted = false;
}

-- The part of `JoinChat` behind the checks.
unfoldable pub join_as : Bytes → Member → Bytes → Backend → Reply (Metadata × List MemberView)
unfolding new_views
join_as chat_id m user_id s =
    let (result, chats) = add_member chat_id m s.chats in
    let s' = with_chats chats s in
    elim result [
      | err _ ↦ (err internal, s')
      | ok _ ↦ elim (get_metadata_with_members chat_id (some user_id) s') [
        | err e ↦ (err (failure e), s')
        | ok read ↦ (
          ok (done read),
          emit
              (map
                (λ view.
                  publishes (record (chat_event chat_id) { member_updates = joined view ∷ [] }))
                (new_views (m ∷ []) s'))
              s',
        )
      ]
    ]

-- `JoinChat`; a join by payment is no longer supported.
unfoldable pub join_chat :
    Identifier → Option Bytes → Bool → Bytes → Backend → Reply (Metadata × List MemberView)
unfolding join_as joining
join_chat identifier (some payment_intent) without_send_permission user_id s = (ok denied, s)
join_chat identifier none without_send_permission user_id s = elim (resolve identifier s) [
  | err Chat.chat_not_found ↦ (ok denied, s)
  | err _ ↦ (err internal, s)
  | ok chat_id ↦ elim (get_metadata chat_id none s) [
    | err e ↦ (err (failure e), s)
    | ok md ↦
        let is_owner = owned_by md user_id in
        if not is_owner && not without_send_permission
        then (ok denied, s)
        else join_as chat_id (joining is_owner user_id) user_id s
  ]
]
