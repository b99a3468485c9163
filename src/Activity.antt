-- ===== src/Activity.antt =====
-- activity/model.go, activity/notifications.go, activity/memory/store.go, activity/server.go: the
-- feeds that tell users of their payments. The hash, the text of a notification and protobuf's
-- validation are parameters.
pub mod Tips
pub mod Postgres
mod Examples
use flipchat_server.Base.{
  ltb, if◌then◌else◌, ◌==◌, Bytes, bytes_eq, Dict, insert, lookup_or, length, take, sort, Result,
  ok, err, map_result, Time, little_endian, ℕ, ◌+◌, ◌%◌, ◌^◌, Bool, true, false, Option, none, some,
  List, [], ◌∷◌, ◌++◌,
}

-- `activitypb.ActivityFeedType`
pub data FeedType : Type 0 where
  transaction_history other_feed : FeedType

-- `AdditionalMetadata` of a notification; amounts are in quarks, as `uint64`.
pub data Details : Type 0 where
  welcome_bonus weekly_bonus : ℕ → Details
  create_group : Bytes → ℕ → Details
  send_listener_message send_tip received_tip : Bytes → Bytes → ℕ → Details
  promoted_to_speaker : Bytes → Bytes → Details
  no_details : Details

-- `activitypb.Notification`
pub record Notification : Type 0 where
  pub id : Bytes
  pub ts : Time
  pub details : Details
  pub localized_text : Bytes

-- How saving a notification fails, with the dereference of a nil pointer.
pub data ActivityError : Type 0 where
  invalid_feed_type invalid_notification_type panicked not_built : ActivityError

-- `InMemoryStore`
pub record Store : Type 0 where
  pub notifications : Dict Bytes (List Notification)

abbrev pub new_in_memory : Store
new_in_memory = record { notifications = [] }

abbrev pub notifications_of : Bytes → Store → List Notification
notifications_of user_id m = lookup_or user_id [] m.notifications

pub find_notification : Bytes → List Notification → Option Notification
find_notification id [] = none
find_notification id (n ∷ ns) = if id == n.id then some n else find_notification id ns

abbrev pub uint64_add : ℕ → ℕ → ℕ
uint64_add a b = (a + b) % 2 ^ 64

-- What saving notification details does to those of an existing notification: tips add up.
unfoldable pub merge : Details → Details → Result ActivityError Details
merge (send_tip _ _ quarks) (send_tip c m total) = ok (send_tip c m (uint64_add total quarks))
merge (send_tip _ _ quarks) _ = err panicked
merge (received_tip _ _ quarks) (received_tip c m total) =
    ok (received_tip c m (uint64_add total quarks))
merge (received_tip _ _ quarks) _ = err panicked
merge (promoted_to_speaker _ _) existing = err invalid_notification_type
merge no_details existing = err invalid_notification_type
merge _ existing = ok existing

-- The types of notifications that may be saved.
abbrev is_savable : Details → Bool
is_savable (promoted_to_speaker _ _) = false
is_savable no_details = false
is_savable _ = true

-- The change made in place to the notification that was found.
write_notification : Bytes → Details → List Notification → List Notification
write_notification id merged [] = []
write_notification id merged (n ∷ ns) =
    if id == n.id then record n { details = merged } ∷ ns else n ∷ write_notification id merged ns

unfoldable pub save_existing :
    Bytes → Notification → Notification → Store → Result ActivityError Notification × Store
unfolding write_notification
save_existing user_id n existing m = elim (merge n.details existing.details) [
  | err e ↦ (err e, m)
  | ok merged ↦ (
    ok (record existing { details = merged }),
    record m {
      notifications =
          insert user_id (write_notification n.id merged (notifications_of user_id m))
            m.notifications;
    },
  )
]

unfoldable pub save_new : Bytes → Notification → Store → Result ActivityError Notification × Store
save_new user_id n m =
    if is_savable n.details
    then (
      ok n,
      record m {
        notifications = insert user_id (notifications_of user_id m ++ n ∷ []) m.notifications;
      },
    )
    else (err invalid_notification_type, m)

unfoldable pub save_notification :
    FeedType → Bytes → Notification → Store → Result ActivityError Notification × Store
unfolding save_existing save_new find_notification
save_notification other_feed user_id n m = (err invalid_feed_type, m)
save_notification transaction_history user_id n m =
    elim (find_notification n.id (notifications_of user_id m)) [
      | some existing ↦ save_existing user_id n existing m
      | none ↦ save_new user_id n m
    ]

-- `sort.Reverse` of `NotificationsByTimestamp`.
abbrev pub is_newer : Notification → Notification → Bool
is_newer a b = ltb b.ts a.ts

unfoldable pub get_latest_notifications :
    FeedType → Bytes → ℕ → Store → Result ActivityError (List Notification)
get_latest_notifications other_feed user_id limit m = err invalid_feed_type
get_latest_notifications transaction_history user_id limit m =
    let sorted = sort is_newer (notifications_of user_id m) in
    ok (if ltb limit (length sorted) then take limit sorted else sorted)

-- `NotificationType`
pub data NotificationType : Type 0 where
  welcome_bonus_type weekly_bonus_type create_group_type : NotificationType
  send_listener_message_type send_tip_type received_tip_type promoted_type : NotificationType

abbrev pub type_number : NotificationType → ℕ
type_number welcome_bonus_type = 1
type_number weekly_bonus_type = 2
type_number create_group_type = 3
type_number send_listener_message_type = 4
type_number send_tip_type = 5
type_number received_tip_type = 6
type_number promoted_type = 7

concat_seeds : List Bytes → Bytes
concat_seeds [] = []
concat_seeds (s ∷ ss) = s ++ concat_seeds ss

unfoldable pub get_notification_id : (Bytes → Bytes) → NotificationType → Bytes → List Bytes → Bytes
unfolding concat_seeds little_endian
get_notification_id sha256 kind user_id seeds =
    sha256 (little_endian 4 (type_number kind) ++ user_id ++ concat_seeds seeds)

-- What the builders of notifications build; `year` and `week` are the time's ISO week.
abbrev pub built : Bytes → Time → Details → Notification
built id ts d = record { id = id; ts = ts; details = d; localized_text = [] }

pub new_welcome_bonus : (Bytes → Bytes) → Bytes → ℕ → Time → Notification
new_welcome_bonus sha256 user_id quarks ts =
    built (get_notification_id sha256 welcome_bonus_type user_id []) ts (welcome_bonus quarks)

pub new_weekly_bonus : (Bytes → Bytes) → Bytes → ℕ → Time → ℕ → ℕ → Notification
new_weekly_bonus sha256 user_id quarks ts year week =
    built
      (get_notification_id sha256 weekly_bonus_type user_id
        (little_endian 4 year ∷ little_endian 4 week ∷ []))
      ts (weekly_bonus quarks)

pub new_create_group : (Bytes → Bytes) → Bytes → Bytes → ℕ → Time → Notification
new_create_group sha256 user_id chat_id quarks ts =
    built (get_notification_id sha256 create_group_type user_id (chat_id ∷ [])) ts
      (create_group chat_id quarks)

pub new_send_listener_message : (Bytes → Bytes) → Bytes → Bytes → Bytes → ℕ → Time → Notification
new_send_listener_message sha256 user_id chat_id message_id quarks ts =
    built
      (get_notification_id sha256 send_listener_message_type user_id (chat_id ∷ message_id ∷ [])) ts
      (send_listener_message chat_id message_id quarks)

unfoldable pub new_send_tip : (Bytes → Bytes) → Bytes → Bytes → Bytes → ℕ → Time → Notification
new_send_tip sha256 user_id chat_id message_id quarks ts =
    built (get_notification_id sha256 send_tip_type user_id (chat_id ∷ message_id ∷ [])) ts
      (send_tip chat_id message_id quarks)

pub new_received_tip : (Bytes → Bytes) → Bytes → Bytes → Bytes → ℕ → Time → Notification
new_received_tip sha256 user_id chat_id message_id quarks ts =
    built (get_notification_id sha256 received_tip_type user_id (chat_id ∷ message_id ∷ [])) ts
      (received_tip chat_id message_id quarks)

pub new_promoted_to_speaker : (Bytes → Bytes) → Bytes → Bytes → Bytes → Time → Notification
new_promoted_to_speaker sha256 promotee promoter chat_id ts =
    built (get_notification_id sha256 promoted_type promotee (chat_id ∷ promoter ∷ [])) ts
      (promoted_to_speaker chat_id promoter)

-- `SendNotification`; protobuf's validation sees a placeholder for the text.
unfoldable pub send_notification :
    (Notification → Bool)
    → Bytes
    → FeedType
    → Bytes
    → Notification
    → Store
    → Result ActivityError Notification × Store
send_notification is_valid placeholder other_feed user_id n m = (err invalid_feed_type, m)
send_notification is_valid placeholder transaction_history user_id n m =
    if ltb 0 (length n.localized_text)
    then (err not_built, m)
    else if is_valid (record n { localized_text = placeholder })
    then save_notification transaction_history user_id (record n { localized_text = [] }) m
    else (err not_built, m)

-- `InjectLocalizedText`, by what it prints; it skips the notifications without a text.
abbrev has_text : Details → Bool
has_text (promoted_to_speaker _ _) = false
has_text no_details = false
has_text _ = true

inject_localized_texts : (Details → Bytes) → List Notification → List Notification
inject_localized_texts print [] = []
inject_localized_texts print (n ∷ ns) =
    let rest = inject_localized_texts print ns in
    if has_text n.details then record n { localized_text = print n.details } ∷ rest else rest

abbrev pub default_max_notifications : ℕ
default_max_notifications = 256

-- `GetLatestNotifications` of the server.
unfoldable pub latest_notifications :
    (Details → Bytes) → FeedType → ℕ → Bytes → Store → Result ActivityError (List Notification)
unfolding inject_localized_texts
latest_notifications print feed max_items user_id m =
    let limit = if ltb 0 max_items then max_items else default_max_notifications in
    map_result (inject_localized_texts print) (get_latest_notifications feed user_id limit m)
