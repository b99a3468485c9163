-- ===== src/ChatServer/Settings.antt =====
-- chat/server.go: the handlers by which the owner of a group changes its settings.
use flipchat_server.Chat.Rooms.{
  set_display_name, set_description, set_messaging_fee, set_open_status,
}
use flipchat_server.Payment.{is_group}
use flipchat_server.ChatServer.Reads.{no_such_chat, get_metadata, failure}
use flipchat_server.Event.{MetadataUpdate, description_changed, open_status_changed}
use flipchat_server.Backend.{
  Announcement, display_name_removed, Effect, publishes, announces, Backend, with_chats, emit,
  chat_event, Failure, internal, panicked, done, denied, cant_set, Reply,
}
use flipchat_server.Chat.{ChatError, Metadata, Store}
use flipchat_server.Base.{
  ltb, if◌then◌else◌, ◌==◌, nat_eq, Bytes, bytes_eq, length, Result, ok, err, ℕ, Bool, true, false,
  not, none, some, List, [], ◌∷◌,
}
use flipchat_server.Chat

-- Whether a user owns a chat.
unfoldable pub owned_by : Metadata → Bytes → Bool
owned_by md user_id = elim md.owner [ none ↦ false | some owner ↦ owner == user_id ]

-- The checks before a change of a group's settings: the chat exists, is a group, and is the
-- user's. A check that fails denies the change.
unfoldable pub as_group_owner :
    Bytes → Bytes → Backend → (Metadata → Reply (Unit {0})) → Reply (Unit {0})
unfolding owned_by
as_group_owner chat_id user_id s change = elim (get_metadata chat_id none s) [
  | err no_such_chat ↦ (ok denied, s)
  | err e ↦ (err (failure e), s)
  | ok md ↦
      if not (is_group md.kind)
      then (ok denied, s)
      else if not (owned_by md user_id)
      then (ok denied, s)
      else change md
]

-- The end of a handler that writes to the store of chats: where that succeeds, it hands over the
-- effects.
unfoldable pub finish :
    List Effect → Backend → Result ChatError (Unit {0}) × Chat.Store → Reply (Unit {0})
finish effects s (result, chats) = elim result [
  | err e ↦ (err internal, with_chats chats s)
  | ok _ ↦ (ok (done tt), emit effects (with_chats chats s))
]

-- An event that one update of the metadata of a chat makes.
abbrev pub metadata_event : Bytes → MetadataUpdate → Effect
metadata_event chat_id update =
    publishes (record (chat_event chat_id) { metadata_updates = update ∷ [] })

-- Whether a chat is open or closed already, as it is to be.
abbrev is_already : Bool → Bool → Bool
is_already true currently_open = currently_open
is_already false currently_open = not currently_open

-- The part of `OpenChat` and of `CloseChat` behind the checks. It dereferences the open status.
unfoldable pub change_open_status : Bytes → Bool → Metadata → Backend → Reply (Unit {0})
unfolding finish
change_open_status chat_id is_open md s = elim md.open_status [
  | none ↦ (err panicked, s)
  | some currently_open ↦
      if is_already is_open currently_open
      then (ok (done tt), s)
      else finish (metadata_event chat_id (open_status_changed is_open) ∷ []) s
          (set_open_status chat_id is_open s.chats)
]

unfoldable pub open_chat : Bytes → Bytes → Backend → Reply (Unit {0})
unfolding as_group_owner change_open_status
open_chat chat_id user_id s =
    as_group_owner chat_id user_id s (λ md. change_open_status chat_id true md s)

unfoldable pub close_chat : Bytes → Bytes → Backend → Reply (Unit {0})
unfolding as_group_owner change_open_status
close_chat chat_id user_id s =
    as_group_owner chat_id user_id s (λ md. change_open_status chat_id false md s)

-- `CheckDisplayName`: whether a name is allowed.
pub check_display_name : Bytes → Backend → Result Failure Bool
check_display_name display_name s = elim (s.classify_text display_name) [
  | err _ ↦ err internal
  | ok flagged ↦ ok (not flagged)
]

-- Whether moderation lets a name pass; it is not asked about an empty one.
unfoldable pub moderate : Bytes → Backend → Result (Unit {0}) Bool
moderate display_name s =
    if length display_name == 0
    then ok true
    else elim (s.classify_text display_name) [ err e ↦ err e | ok flagged ↦ ok (not flagged) ]

display_name_announcement : Bytes → Bytes → Metadata → Announcement
display_name_announcement user_id display_name md =
    if ltb 0 (length display_name)
    then Announcement.display_name_changed user_id md.room_number display_name
    else display_name_removed user_id

rename : Bytes → Bytes → Bytes → Metadata → Backend → Reply (Unit {0})
unfolding moderate finish display_name_announcement
rename chat_id user_id display_name md s =
    if md.display_name == display_name then (ok (done tt), s) else elim (moderate display_name s) [
      | err _ ↦ (err internal, s)
      | ok allowed ↦
          if not allowed
          then (ok cant_set, s)
          else finish
              (announces chat_id (display_name_announcement user_id display_name md)
                ∷ metadata_event chat_id (MetadataUpdate.display_name_changed display_name)
                ∷ [])
              s (set_display_name chat_id display_name s.chats)
    ]

unfoldable pub change_display_name : Bytes → Bytes → Bytes → Backend → Reply (Unit {0})
unfolding as_group_owner rename
change_display_name chat_id display_name user_id s =
    as_group_owner chat_id user_id s (λ md. rename chat_id user_id display_name md s)

describe : Bytes → Bytes → Metadata → Backend → Reply (Unit {0})
unfolding finish
describe chat_id description md s =
    if md.description == description
    then (ok (done tt), s)
    else finish (metadata_event chat_id (description_changed description) ∷ []) s
        (set_description chat_id description s.chats)

unfoldable pub change_description : Bytes → Bytes → Bytes → Backend → Reply (Unit {0})
unfolding as_group_owner describe
change_description chat_id description user_id s =
    as_group_owner chat_id user_id s (λ md. describe chat_id description md s)

charge : Bytes → Bytes → ℕ → Metadata → Backend → Reply (Unit {0})
unfolding finish
charge chat_id user_id quarks md s = elim md.messaging_fee [
  | none ↦ (ok cant_set, s)
  | some fee ↦
      if fee == quarks
      then (ok (done tt), s)
      else finish
          (announces chat_id (Announcement.messaging_fee_changed user_id quarks)
            ∷ metadata_event chat_id (MetadataUpdate.messaging_fee_changed quarks)
            ∷ [])
          s (set_messaging_fee chat_id (some quarks) s.chats)
]

-- The messaging fee of a request is never nil.
unfoldable pub change_messaging_fee : Bytes → ℕ → Bytes → Backend → Reply (Unit {0})
unfolding as_group_owner charge
change_messaging_fee chat_id quarks user_id s =
    as_group_owner chat_id user_id s (λ md. charge chat_id user_id quarks md s)
