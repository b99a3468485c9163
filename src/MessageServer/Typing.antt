-- ===== src/MessageServer/Typing.antt =====
-- messaging/server.go: the notifications that a user is typing.
pub mod Timeouts
use flipchat_server.Auth.{failed, can_notify_is_typing}
use flipchat_server.Event.{
  TypingState, started_typing, still_typing, stopped_typing, typing_timed_out,
}
use flipchat_server.Backend.{
  Effect, publishes, Backend, emit, authorizer, chat_event, internal, invalid_argument, done,
  denied, Reply,
}
use flipchat_server.Base.{
  leb, if◌then◌else◌, Eq, Bytes, bytes_discrete, Dict, insert, erase, ok, err, Time, ℕ, ◌-◌, ◌*◌,
  ◌^◌, Bool, true, false, not, some, List, [], ◌∷◌,
}

-- The users that are typing, by chat and user, each with the time when it was last seen.
abbrev pub Typists : Type 0
Typists = Dict (Bytes × Bytes) Time

unfoldable pub key_discrete : Discrete (Bytes × Bytes)
key_discrete = hlevel (bytes_discrete)

-- `userTypingKey`: the encodings of both ids, apart by a character that neither has.
instance abbrev pub key_eq : Eq (Bytes × Bytes)
key_eq = record { dec_eq = key_discrete }

abbrev pub is_client_state : TypingState → Bool
is_client_state started_typing = true
is_client_state still_typing = true
is_client_state stopped_typing = true
is_client_state _ = false

abbrev pub goes_on : TypingState → Bool
goes_on started_typing = true
goes_on still_typing = true
goes_on _ = false

typing_event : Bytes → Bytes → TypingState → Effect
typing_event chat_id user_id state =
    publishes (record (chat_event chat_id) { is_typing = some (user_id, state) })

note_typing : Bytes → Bytes → TypingState → Time → Typists → Typists
note_typing chat_id user_id state now typists =
    let rest = erase (chat_id, user_id) typists in
    if goes_on state then insert (chat_id, user_id) now rest else rest

-- `NotifyIsTyping`, at the time `now`.
unfoldable pub notify_is_typing :
    Bytes → TypingState → Time → Bytes → Backend → Typists → Reply (Unit {0}) × Typists
unfolding typing_event note_typing
notify_is_typing chat_id state now user_id s typists =
    if not (is_client_state state)
    then ((err invalid_argument, s), typists)
    else elim (can_notify_is_typing chat_id user_id (authorizer s)) [
      | err failed ↦ ((err internal, s), typists)
      | err _ ↦ ((ok denied, s), typists)
      | ok _ ↦ (
        (ok (done tt), emit (typing_event chat_id user_id state ∷ []) s),
        note_typing chat_id user_id state now typists,
      )
    ]

-- `flags.IsTypingNotificationTimeout`: a minute, in nanoseconds.
abbrev pub is_typing_notification_timeout : ℕ
is_typing_notification_timeout = 60 * 10 ^ 9

abbrev is_timed_out : Time → Time → Bool
is_timed_out now last_seen = leb is_typing_notification_timeout (now - last_seen)

-- One round of `isTypingTimeoutWorker`: an event for each user that timed out, who is then deleted.
pub timeout_events : Time → Typists → List Effect
unfolding typing_event
timeout_events now [] = []
timeout_events now (((chat_id, user_id), last_seen) ∷ typists) =
    let rest = timeout_events now typists in
    if is_timed_out now last_seen
    then typing_event chat_id user_id typing_timed_out ∷ rest
    else rest

pub timed_out_keys : Time → Typists → List (Bytes × Bytes)
timed_out_keys now [] = []
timed_out_keys now ((key, last_seen) ∷ typists) =
    let rest = timed_out_keys now typists in if is_timed_out now last_seen then key ∷ rest else rest

erase_all : List (Bytes × Bytes) → Typists → Typists
erase_all [] typists = typists
erase_all (key ∷ keys) typists = erase_all keys (erase key typists)

unfoldable pub time_out : Time → Backend → Typists → Backend × Typists
unfolding timeout_events timed_out_keys erase_all
time_out now s typists =
    (emit (timeout_events now typists) s, erase_all (timed_out_keys now typists) typists)
