-- ===== src/MessageServer/Examples.antt =====
-- Messages to the group, and what is denied.
use flipchat_server.Account.{is_registered}
use native.Mathlib.Decide.{ℕ_discrete}
use flipchat_server.ChatServer.Settings.{owned_by}
use flipchat_server.Chat.Members.{get_member, add_member, set_mute_state}
use flipchat_server.Chat.Rooms.{get_chat_metadata, create_chat}
use flipchat_server.ChatServer.Reads.{get_metadata}
use flipchat_server.Event.{started_typing}
use flipchat_server.MessageServer.Receipts.{
  SendCall, send_all, send_message-once, send_message-denied_but_sent, send_message-get_message,
}
use flipchat_server.MessageServer.Silence.{send_message-mute_user}
use flipchat_server.MessageServer.Typing.{time_out, key_eq}
use flipchat_server.MessageServer.Typing.Timeouts.{
  TypingCall, notifies, run_typing, time_out-lookup,
}
use flipchat_server.Auth.{is_owner, can_send_message}
use flipchat_server.Messaging.Sorting.{IsAscending, has_id}
use flipchat_server.Intent.{is_fulfilled, mark_fulfilled, load_payment_metadata}
use flipchat_server.MessageServer.{send, draft, use_intent, send_message}
use flipchat_server.Backend.{Backend, publishes, chat_event, denied, authorizer, done, Reply}
use flipchat_server.ChatServer.Members.{mute_user}
use flipchat_server.Messaging.{
  Content, text, Message, messages_of, get_message, stored_message, put_message,
}
use flipchat_server.ChatServer.Examples.{room, alice, bob, intent_id, history, backend}
use flipchat_server.Chat.Histories.{run, reached-IsValid}
use flipchat_server.Base.{
  leb, if◌then◌else◌, ◌==◌, Bytes, bytes_discrete, bytes_eq, bytes_lt, lookup, insert, sort, ok, ℕ,
  ◌-◌, ◌*◌, ◌^◌, ◌≡◌, refl, ◌≢◌, Bool, true, false, none, some, List, [], ◌∷◌, ◌++◌,
}

abbrev pub no_selector : ℕ → Bool
no_selector r = false

abbrev pub hello : Content
hello = text (104 ∷ [])

abbrev pub first_id : Bytes
first_id = 10 ∷ []

abbrev second_id : Bytes
second_id = 11 ∷ []

mute_user-done : (mute_user room bob alice backend).0 ≡ ok (done tt)
unfolding mute_user bytes_discrete get_metadata get_chat_metadata lookup run add_member create_chat
    insert sort owned_by get_member bytes_lt set_mute_state
mute_user-done = refl

send_message-mute_user_example :
    let s' = (mute_user room bob alice backend).1 in
    send_message no_selector room hello none first_id 20 bob s' ≡ (ok denied, s')
send_message-mute_user_example =
    send_message-mute_user alice room bob backend no_selector hello none first_id 20
      (reached-IsValid history) mute_user-done

-- Bob's message, which a payment pays for.
abbrev pub paid : Message
paid = record {
  message_id = first_id;
  sender_id = some bob;
  content = hello;
  ts = 20;
  was_sender_off_stage = true;
}

abbrev pub sending : Reply Message
sending = send_message no_selector room hello (some intent_id) first_id 20 bob backend

pub sending_done : sending.0 ≡ ok (done paid)
unfolding send_message can_send_message send use_intent mark_fulfilled get_chat_metadata lookup run
    add_member create_chat ℕ_discrete insert bytes_discrete sort is_registered get_member bytes_lt
    load_payment_metadata is_fulfilled put_message
sending_done = refl

-- In between alice sends a message without a payment.
abbrev between : List SendCall
between =
    record {
      chat_id = room;
      content = hello;
      payment = none;
      id = second_id;
      now = 21;
      user_id = alice;
    }
    ∷ []

send_message-once_example :
    let s' = send_all no_selector between sending.1 in
    (is_fulfilled intent_id backend.intents ≡ false)
    × ((send_message no_selector room hello (some intent_id) (12 ∷ []) 22 bob s').0
        ≢ ok (done paid))
send_message-once_example =
    send_message-once no_selector room hello intent_id first_id 20 bob paid backend between room
      hello (12 ∷ []) 22 bob paid sending_done

no_messages_yet : has_id first_id (messages_of room backend.messages) ≡ false
unfolding has_id lookup
no_messages_yet = refl

no_messages_ascend : IsAscending (messages_of room backend.messages)
unfolding lookup
no_messages_ascend = tt

send_message-get_message_example :
    (paid ≡ stored_message first_id 20 (draft no_selector bob hello (some intent_id)))
    × (get_message room first_id sending.1.messages
        ≡ (if first_id == first_id then ok paid else get_message room first_id backend.messages))
send_message-get_message_example =
    send_message-get_message no_selector room hello (some intent_id) first_id 20 bob paid backend
      first_id no_messages_ascend no_messages_yet sending_done

-- Alice may speak; she names a payment that was used.
abbrev used : Backend
used = record backend { intents = record { fulfilled_intents = (intent_id, tt) ∷ [] } }

alice_may_send : can_send_message room alice hello (some intent_id) (authorizer used) ≡ ok tt
unfolding can_send_message get_chat_metadata lookup run add_member create_chat ℕ_discrete insert
    bytes_discrete sort is_registered get_member bytes_lt is_owner
alice_may_send = refl

payment_used : is_fulfilled intent_id used.intents ≡ true
unfolding is_fulfilled lookup bytes_discrete
payment_used = refl

no_second_yet : has_id second_id (messages_of room used.messages) ≡ false
unfolding has_id lookup
no_second_yet = refl

none_used_ascend : IsAscending (messages_of room used.messages)
unfolding lookup
none_used_ascend = tt

send_message-denied_but_sent_example :
    let (answer, s') =
      send_message no_selector room hello (some intent_id) second_id 21 alice used in
    let x = stored_message second_id 21 (draft no_selector alice hello (some intent_id)) in
    (answer ≡ ok denied)
    × (get_message room second_id s'.messages ≡ ok x)
    × (s'.outbox
        ≡ used.outbox ++ publishes (record (chat_event room) { message_update = some x }) ∷ [])
send_message-denied_but_sent_example =
    send_message-denied_but_sent no_selector room hello intent_id second_id 21 alice used
      alice_may_send payment_used none_used_ascend no_second_yet

-- Bob starts to type, and says no more.
abbrev typing : List TypingCall
typing = notifies room started_typing (100 * 10 ^ 9) bob backend ∷ []

time_out-lookup_example :
    let d = run_typing typing [] in
    lookup (room, bob) (time_out (170 * 10 ^ 9) backend d).1 ≡ elim (lookup (room, bob) d) [
      | none ↦ none
      | some t ↦ if leb (60 * 10 ^ 9) (170 * 10 ^ 9 - t) then none else some t
    ]
time_out-lookup_example = time_out-lookup typing (170 * 10 ^ 9) backend (room, bob)
