-- ===== src/Activity/Postgres.antt =====
-- activity/postgres/model.go, activity/postgres/store.go: notifications in a table of Postgres. The
-- amounts, of `uint64`, are stored as `int64`; the enums are stored as their numbers.
pub mod Amounts
pub mod Saving
use flipchat_server.Activity.{
  FeedType, transaction_history, other_feed, Details, welcome_bonus, weekly_bonus, create_group,
  send_listener_message, send_tip, received_tip, promoted_to_speaker, no_details, Notification,
  ActivityError, invalid_feed_type, invalid_notification_type, panicked, is_newer, NotificationType,
  welcome_bonus_type, weekly_bonus_type, create_group_type, send_listener_message_type,
  send_tip_type, received_tip_type, promoted_type,
}
use flipchat_server.Activity.Postgres.Amounts.{to_int64, to_uint64, add_int64}
use flipchat_server.Postgres.{Table}
use flipchat_server.Postgres.Encoding.{Codecs, hex, encode, encode_as, decode}
use flipchat_server.Base.{
  ltb, if◌then◌else◌, ◌==◌, Bytes, bytes_eq, take, sort, Result, ok, err, ◌>>=◌, Time, ℤ, ℕ, Bool,
  true, false, ◌&&◌, Option, none, some, List, [], ◌∷◌,
}

-- `model`, less the times of its writing.
pub record NotificationRow : Type 0 where
  pub id : Bytes
  pub user_id : Bytes
  pub feed_type : FeedType
  pub kind : NotificationType
  pub count : ℤ
  pub chat_id : Option Bytes
  pub message_id : Option Bytes
  pub ts : Time

abbrev pub NotificationTable : Type 1
NotificationTable = Table NotificationRow Bytes (λ r. r.id)

-- The errors of the store, that of `pg.Decode`, and that of Postgres for a count that no `bigint`
-- holds.
pub data StoreError : Type 0 where
  refused : ActivityError → StoreError
  undecodable out_of_range : StoreError

-- The type of the feed: a notification in a feed of another type is an error.
abbrev pub is_transaction_history : FeedType → Bool
is_transaction_history transaction_history = true
is_transaction_history other_feed = false

-- What the switch of `toModel` sets.
pub record Columns : Type 0 where
  pub kind : NotificationType
  pub count : ℤ
  pub chat_id : Option Bytes
  pub message_id : Option Bytes

-- `updatesCount`
unfoldable pub updates_count : NotificationType → Bool
updates_count send_tip_type = true
updates_count received_tip_type = true
updates_count _ = false

-- What a column keeps of a time is an argument.
module _ (codecs : Codecs) (stored_time : Time → Time) where
  columns : NotificationType → ℕ → Option Bytes → Option Bytes → Columns
  columns kind quarks chat_id message_id = record {
    kind = kind;
    count = to_int64 quarks;
    chat_id = elim chat_id [ none ↦ none | some c ↦ some (encode codecs c) ];
    message_id = elim message_id [ none ↦ none | some x ↦ some (encode codecs x) ];
  }

  unfoldable pub to_columns : Details → Result StoreError Columns
  unfolding columns
  to_columns (welcome_bonus quarks) = ok (columns welcome_bonus_type quarks none none)
  to_columns (weekly_bonus quarks) = ok (columns weekly_bonus_type quarks none none)
  to_columns (create_group c quarks) = ok (columns create_group_type quarks (some c) none)
  to_columns (send_listener_message c x quarks) =
      ok (columns send_listener_message_type quarks (some c) (some x))
  to_columns (send_tip c x quarks) = ok (columns send_tip_type quarks (some c) (some x))
  to_columns (received_tip c x quarks) = ok (columns received_tip_type quarks (some c) (some x))
  to_columns (promoted_to_speaker c x) = err (refused invalid_notification_type)
  to_columns no_details = err (refused invalid_notification_type)

  -- `toModel`
  unfoldable pub to_model : FeedType → Bytes → Notification → Result StoreError NotificationRow
  unfolding to_columns
  to_model other_feed user_id n = err (refused invalid_feed_type)
  to_model transaction_history user_id n = to_columns n.details >>= λ cs. ok (record {
    id = encode_as codecs hex n.id;
    user_id = encode codecs user_id;
    feed_type = transaction_history;
    kind = cs.kind;
    count = cs.count;
    chat_id = cs.chat_id;
    message_id = cs.message_id;
    ts = stored_time n.ts;
  })

  decode_bytes : Bytes → Result StoreError Bytes
  decode_bytes encoded = elim (decode codecs encoded) [ err e ↦ err undecodable | ok x ↦ ok x ]

  -- Where the column is null, the pointer that is read is nil.
  decode_column : Option Bytes → Result StoreError Bytes
  unfolding decode_bytes
  decode_column none = err (refused panicked)
  decode_column (some encoded) = decode_bytes encoded

  -- The switch of `fromModel`.
  unfoldable pub from_columns : NotificationRow → Result StoreError Details
  unfolding decode_column
  from_columns r =
      let quarks = to_uint64 r.count in
      let in_chat = decode_column r.chat_id in
      let on_message : (Bytes → Bytes → Details) → Result StoreError Details =
        λ build. in_chat >>= λ c. decode_column r.message_id >>= λ x. ok (build c x) in
      elim r.kind [
        | welcome_bonus_type ↦ ok (welcome_bonus quarks)
        | weekly_bonus_type ↦ ok (weekly_bonus quarks)
        | create_group_type ↦ in_chat >>= λ c. ok (create_group c quarks)
        | send_listener_message_type ↦ on_message (λ c x. send_listener_message c x quarks)
        | send_tip_type ↦ on_message (λ c x. send_tip c x quarks)
        | received_tip_type ↦ on_message (λ c x. received_tip c x quarks)
        | promoted_type ↦ err (refused invalid_notification_type)
      ]

  -- `fromModel`
  unfoldable pub from_model : NotificationRow → Result StoreError Notification
  unfolding from_columns decode_bytes
  from_model r = decode_bytes r.id >>= λ id. from_columns r >>= λ details.
      ok (record { id = id; ts = r.ts; details = details; localized_text = [] })

  from_models : List NotificationRow → Result StoreError (List Notification)
  from_models [] = ok []
  from_models (r ∷ rs) =
      let rest = from_models rs in from_model r >>= λ n. rest >>= λ ns. ok (n ∷ ns)

  module _ (db : NotificationTable) where
    -- The row that `RETURNING` reads; there is one, since the statement wrote it.
    returned : Bytes → NotificationRow → db.State → NotificationRow
    returned id r t = elim (db.find id t) [ none ↦ r | some x ↦ x ]

    -- `dbSave`, one statement: where it fails, it changes nothing.
    unfoldable pub db_save :
        NotificationRow → db.State → Result StoreError NotificationRow × db.State
    unfolding returned
    db_save r t =
        let keeps = db.upsert r (λ x. x) t in
        elim (db.find r.id t) [
          | none ↦ (ok (returned r.id r keeps), keeps)
          | some existing ↦
              if updates_count r.kind
              then elim (add_int64 existing.count r.count) [
                | none ↦ (err out_of_range, t)
                | some sum ↦
                    let counts = db.upsert r (λ x. record x { count = sum }) t in
                    (ok (returned r.id r counts), counts)
              ]
              else (ok (returned r.id r keeps), keeps)
        ]

    -- `SaveNotification`
    unfoldable pub save_notification :
        FeedType → Bytes → Notification → db.State → Result StoreError Notification × db.State
    save_notification feed user_id n t = elim (to_model feed user_id n) [
      | err e ↦ (err e, t)
      | ok r ↦ let (saved, t') = db_save r t in (saved >>= from_model, t')
    ]

    -- `dbGetLatestNotifications`: rows of one time may come in any order.
    db_get_latest_notifications : Bytes → ℕ → db.State → List NotificationRow
    db_get_latest_notifications user_id limit t =
        let is_of = λ (r : NotificationRow).
          r.user_id == encode codecs user_id && is_transaction_history r.feed_type in
        take limit (sort (λ a b. ltb b.ts a.ts) (db.select is_of t))

    -- `GetLatestNotifications`
    pub get_latest_notifications :
        FeedType → Bytes → ℕ → db.State → Result StoreError (List Notification)
    unfolding from_models db_get_latest_notifications
    get_latest_notifications other_feed user_id limit t = err (refused invalid_feed_type)
    get_latest_notifications transaction_history user_id limit t =
        from_models (db_get_latest_notifications user_id limit t)
