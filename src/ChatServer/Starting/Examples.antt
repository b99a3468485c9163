-- ===== src/ChatServer/Starting/Examples.antt =====
-- A group that is started with a payment, and one that is not.
use flipchat_server.Profile.{get_profile}
use flipchat_server.ChatServer.Reads.{populate_member_data}
use flipchat_server.Chat.Members.{add_member}
use flipchat_server.Chat.Histories.{run}
use flipchat_server.Chat.Rooms.{create_chat}
use native.Mathlib.Decide.{ℕ_discrete}
use flipchat_server.ChatServer.Starting.Payment.{start_chat-once}
use flipchat_server.Intent.{is_fulfilled, mark_fulfilled, load_payment_metadata}
use flipchat_server.ChatServer.Starting.{
  group_chat, plan_group, paid_group, plan, add_members, start_planned, start_chat,
}
use flipchat_server.Event.{MemberView}
use flipchat_server.Chat.{group, Metadata, to_proto}
use flipchat_server.ChatServer.Examples.{alice, bob, intent_id, backend}
use flipchat_server.Backend.{done, denied, Reply}
use flipchat_server.Base.{
  bytes_discrete, bytes_eq, lookup, insert, sort, ok, ◌≡◌, refl, true, false, some, List, [], ◌∷◌,
}

abbrev started : Reply (Metadata × List MemberView)
started = start_chat (6 ∷ []) 50 (group_chat (some intent_id) [] []) alice backend

abbrev started_metadata : Metadata
started_metadata = record {
  chat_id = some (6 ∷ []);
  kind = group;
  display_name = [];
  description = [];
  room_number = 2;
  is_push_enabled = true;
  can_disable_push = true;
  num_unread = 0;
  has_more_unread = false;
  owner = some alice;
  messaging_fee = some 500000;
  last_activity = some 50;
  open_status = some true;
}

abbrev starter : MemberView
starter = record {
  member = record {
    user_id = alice;
    is_muted = false;
    has_moderator_permission = true;
    has_send_permission = true;
    is_self = false;
  };
  display_name = [];
  social_profiles = [];
  pointers = [];
}

started_done : started.0 ≡ ok (done (started_metadata, starter ∷ []))
unfolding start_chat plan paid_group plan_group start_planned is_fulfilled lookup
    load_payment_metadata ℕ_discrete bytes_discrete create_chat run add_member insert sort
    mark_fulfilled add_members populate_member_data get_profile to_proto
started_done = refl

start_chat-once_example :
    (is_fulfilled intent_id backend.intents ≡ false)
    × (start_chat (7 ∷ []) 60 (group_chat (some intent_id) [] []) bob started.1
        ≡ (ok denied, started.1))
start_chat-once_example =
    start_chat-once (6 ∷ []) 50 intent_id [] [] alice backend (started_metadata, starter ∷ [])
      (7 ∷ []) 60 [] [] bob started_done
