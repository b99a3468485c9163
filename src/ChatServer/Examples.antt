-- ===== src/ChatServer/Examples.antt =====
-- A group with its owner and a listener, and the calls of the server of chats on it.
use flipchat_server.ChatServer.Streaming.Privacy.{on_chat_event-not_member}
use flipchat_server.ChatServer.Reads.Unread.{
  get_unread_count-count_unread, get_member_updates-token,
}
use flipchat_server.Chat.Members.{get_members, is_push_enabled, is_member, add_member}
use flipchat_server.Messaging.Unread.{no_limit}
use flipchat_server.Chat.Histories.{Call, creates, adds, step, run}
use flipchat_server.ChatServer.Streaming.{Streams, on_chat_event}
use flipchat_server.Event.{open_status_changed, ChatEvent, MemberView}
use flipchat_server.ChatServer.Members.Ownership.{mutes, handle, handle-denied}
use flipchat_server.Chat.Rooms.{get_chat_metadata, create_chat}
use flipchat_server.ChatServer.Reads.{
  get_metadata_with_members, get_metadata, read_members, populate_member_data, get_unread_count,
  get_member_updates,
}
use flipchat_server.Messaging.{get_pointers, get_all_pointers, new_in_memory, count_unread}
use flipchat_server.Backend.{Backend, chat_event, denied, done, not_found}
use flipchat_server.Intent.{IntentRecord, CodeData}
use flipchat_server.Chat.{group, to_proto, Metadata, Member}
use flipchat_server.Account
use flipchat_server.Chat
use flipchat_server.Intent
use flipchat_server.Messaging
use flipchat_server.Profile
use flipchat_server.Profile.{get_profile}
use native.Mathlib.Decide.{ℕ_discrete}
use flipchat_server.ChatServer.Settings.{owned_by}
use flipchat_server.Event.Stream.{new_stream}
use flipchat_server.Base.{
  ltb, if◌then◌else◌, keep, Bytes, bytes_discrete, bytes_eq, bytes_lt, lookup, insert, sort, ok,
  little_endian, min, ◌≡◌, refl, Bool, true, false, none, some, List, [], ◌∷◌, arith,
}

abbrev pub room : Bytes
room = 5 ∷ []

abbrev pub alice : Bytes
alice = 1 ∷ []

abbrev pub bob : Bytes
bob = 2 ∷ []

abbrev pub intent_id : Bytes
intent_id = 4 ∷ []

abbrev metadata : Metadata
metadata = record {
  chat_id = some room;
  kind = group;
  display_name = [];
  description = [];
  room_number = 0;
  is_push_enabled = false;
  can_disable_push = false;
  num_unread = 0;
  has_more_unread = false;
  owner = some alice;
  messaging_fee = some 100;
  last_activity = none;
  open_status = none;
}

abbrev member : Bytes → Bool → Member
member u speaks = record {
  user_id = u;
  added_by = none;
  is_push_enabled = false;
  is_muted = false;
  has_mod_permission = false;
  has_send_permission = speaks;
  is_soft_deleted = false;
}

abbrev pub history : List Call
history = creates metadata ∷ adds room (member alice true) ∷ adds room (member bob false) ∷ []

abbrev pub payment : IntentRecord
payment = record { extended_metadata = 0 ∷ []; quantity = 100 }

-- Every intent is a payment by Bob for the room, and one by Alice for a group.
abbrev pub code_data : CodeData
code_data = record {
  intent_id_string = λ id. id;
  get_intent = λ id. ok payment;
  unmarshal_extended = λ value. some value;
  unmarshal_tip = λ value. none;
  unmarshal_listener = λ value. some (record { chat_id = room; user_id = bob });
}

abbrev pub backend : Backend
backend = record {
  accounts = record Account.new_in_memory { registered_users = (alice, true) ∷ (bob, true) ∷ [] };
  chats = run history Chat.new_in_memory;
  intents = Intent.new_in_memory;
  messages = Messaging.new_in_memory;
  profiles = Profile.new_in_memory;
  code_data = code_data;
  classify_text = λ t. ok false;
  unmarshal_start_group = λ value. some alice;
  sha256 = λ value. value;
  outbox = [];
}

get_unread_count-count_unread_example :
    let all = count_unread room bob (some []) no_limit backend.messages in
    let (n, more) = get_unread_count room bob (some []) backend in
    (n ≡ min 99 all) × (more ≡ ltb 99 all)
get_unread_count-count_unread_example = get_unread_count-count_unread room bob (some []) backend

-- A member without a profile and without pointers.
abbrev view : Bytes → Bool → Bool → MemberView
view u speaks is_self = record {
  member = record {
    user_id = u;
    is_muted = false;
    has_moderator_permission = speaks;
    has_send_permission = speaks;
    is_self = is_self;
  };
  display_name = [];
  social_profiles = [];
  pointers = [];
}

abbrev views : List MemberView
views = view alice true false ∷ view bob false true ∷ []

members_read :
    get_member_updates room none bob 1000 backend ≡ ok (done (views, little_endian 8 1000))
unfolding get_member_updates get_metadata_with_members get_metadata get_chat_metadata read_members
    populate_member_data get_profile get_members to_proto run step create_chat add_member lookup
    insert bytes_discrete sort bytes_lt is_push_enabled get_unread_count little_endian ℕ_discrete
    keep get_pointers get_all_pointers count_unread
members_read = refl

get_member_updates-token_example :
    get_member_updates room (some (little_endian 8 1000)) bob 1100 backend
    ≡ (if ltb 1100 1060 then ok not_found else get_member_updates room none bob 1100 backend)
get_member_updates-token_example =
    get_member_updates-token room bob none 1000 backend views (little_endian 8 1000) room bob 1100
      backend members_read (omega arith)

abbrev created_metadata : Metadata
created_metadata = record metadata { room_number = 1; open_status = some true }

get_chat_metadata-room : get_chat_metadata room backend.chats ≡ ok created_metadata
unfolding get_chat_metadata run step create_chat add_member lookup insert bytes_discrete sort
get_chat_metadata-room = refl

handle-denied_example : handle (mutes alice) room bob backend ≡ (ok denied, backend)
unfolding owned_by bytes_discrete
handle-denied_example =
    handle-denied (mutes alice) room bob created_metadata backend get_chat_metadata-room refl

abbrev closing : ChatEvent
closing = record (chat_event room) { metadata_updates = open_status_changed false ∷ [] }

abbrev carol : Bytes
carol = 3 ∷ []

abbrev streams : Streams
streams = (carol, new_stream carol 64) ∷ []

carol_is_not_member : is_member room carol backend.chats ≡ false
unfolding is_member run step create_chat add_member lookup insert bytes_discrete sort bytes_lt
carol_is_not_member = refl

on_chat_event-not_member_example :
    lookup carol (on_chat_event room closing backend streams).1 ≡ lookup carol streams
on_chat_event-not_member_example =
    on_chat_event-not_member room carol closing backend streams carol_is_not_member
