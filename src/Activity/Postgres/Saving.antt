-- ===== src/Activity/Postgres/Saving.antt =====
-- activity/postgres/store.go: SaveNotification, once for any notification and any number of times
-- for tips.
use flipchat_server.Activity.{
  transaction_history, Details, welcome_bonus, weekly_bonus, create_group, send_listener_message,
  send_tip, received_tip, promoted_to_speaker, no_details, Notification, send_tip_type,
}
use flipchat_server.Activity.Postgres.{
  NotificationRow, NotificationTable, StoreError, updates_count, to_columns, to_model, from_columns,
  from_model, db_save, save_notification,
}
use flipchat_server.Activity.Postgres.Amounts.{to_int64, to_uint64-to_int64, add_int64-to_int64}
use flipchat_server.Activity.Tips.{total}
use flipchat_server.Postgres.Encoding.{Codecs, base64, hex, encode, encode_as, decode-encode_as}
use flipchat_server.Base.{
  ==_refl, bytes_eq, Bytes, Result, ok, Time, ℕ, ◌+◌, ◌^◌, ◌<◌, ◌≡◌, refl, Option, none, some, List,
  [], ◌∷◌, arith,
}

abbrev pub quarks_of : Details → ℕ
quarks_of (welcome_bonus quarks) = quarks
quarks_of (weekly_bonus quarks) = quarks
quarks_of (create_group c quarks) = quarks
quarks_of (send_listener_message c x quarks) = quarks
quarks_of (send_tip c x quarks) = quarks
quarks_of (received_tip c x quarks) = quarks
quarks_of (promoted_to_speaker c x) = 0
quarks_of no_details = 0

-- The chat and the message that a notification names, if any.
chat_of : Details → Bytes
chat_of (create_group c quarks) = c
chat_of (send_listener_message c x quarks) = c
chat_of (send_tip c x quarks) = c
chat_of (received_tip c x quarks) = c
chat_of _ = []

message_of : Details → Bytes
message_of (send_listener_message c x quarks) = x
message_of (send_tip c x quarks) = x
message_of (received_tip c x quarks) = x
message_of _ = []

module _ (codecs : Codecs) (stored_time : Time → Time) where
  -- What the table keeps of a notification.
  abbrev pub kept : Notification → Notification
  kept n = record n { ts = stored_time n.ts; localized_text = [] }

  -- Every notification that has a row is read back from it, with the time that the column keeps
  -- and without its text.
  pub to_model-from_model :
      (u : Bytes) (n : Notification) (r : NotificationRow)
      → quarks_of n.details < 2 ^ 64
      → to_model codecs stored_time transaction_history u n ≡ ok r
      → from_model codecs stored_time r ≡ ok (kept n)
  unfolding to_model to_columns from_model from_columns chat_of message_of
  to_model-from_model u n r bound h = ground (
    arith,
    decode-encode_as codecs hex n.id,
    decode-encode_as codecs base64 (chat_of n.details),
    decode-encode_as codecs base64 (message_of n.details),
    to_uint64-to_int64 (quarks_of n.details) bound,
  )

  module _ (db : NotificationTable) where
    -- The notification under an id, if there is one.
    unfoldable pub read_notification : Bytes → db.State → Option (Result StoreError Notification)
    read_notification id t = elim (db.find (encode_as codecs hex id) t) [
      | none ↦ none
      | some r ↦ some (from_model codecs stored_time r)
    ]

    module _ (id u c x : Bytes) where
      unfoldable pub tip : ℕ → Time → Notification
      tip quarks ts = record {
        id = id;
        ts = ts;
        details = send_tip c x quarks;
        localized_text = [];
      }

      tip_row : ℕ → Time → NotificationRow
      tip_row quarks ts = record {
        id = encode_as codecs hex id;
        user_id = encode codecs u;
        feed_type = transaction_history;
        kind = send_tip_type;
        count = to_int64 quarks;
        chat_id = some (encode codecs c);
        message_id = some (encode codecs x);
        ts = stored_time ts;
      }

      row_back :
          (quarks : ℕ) (ts : Time)
          → quarks < 2 ^ 64
          → from_model codecs stored_time (tip_row quarks ts) ≡ ok (kept (tip quarks ts))
      unfolding tip tip_row to_model to_columns
      row_back quarks ts bound =
          to_model-from_model u (tip quarks ts) (tip_row quarks ts) bound refl

      -- Saving tips under one id, one after the other.
      unfoldable pub tip_all : List (ℕ × Time) → db.State → db.State
      unfolding tip
      tip_all [] t = t
      tip_all ((quarks, ts) ∷ tips) t =
          tip_all tips
            (save_notification codecs stored_time db transaction_history u (tip quarks ts) t).1

      first_tip :
          (quarks : ℕ) (ts : Time) (t : db.State)
          → db.find (encode_as codecs hex id) t ≡ none
          → db.find
              (encode_as codecs hex id)
              (save_notification codecs stored_time db transaction_history u (tip quarks ts) t).1
            ≡ some (tip_row quarks ts)
      unfolding save_notification to_model to_columns db_save tip tip_row
      first_tip quarks ts t absent = ground (
        arith,
        ==_refl (encode_as codecs hex id),
        db.find-upsert (encode_as codecs hex id) (tip_row quarks ts) (λ r. r) t (λ r. refl),
      )

      one_more_tip :
          (sum quarks : ℕ) (ts0 ts : Time) (t : db.State)
          → sum + quarks < 2 ^ 63
          → db.find (encode_as codecs hex id) t ≡ some (tip_row sum ts0)
          → db.find
              (encode_as codecs hex id)
              (save_notification codecs stored_time db transaction_history u (tip quarks ts) t).1
            ≡ some (tip_row (sum + quarks) ts0)
      unfolding save_notification to_model to_columns db_save tip tip_row updates_count
      one_more_tip sum quarks ts0 ts t bound present = ground (
        arith,
        ==_refl (encode_as codecs hex id),
        add_int64-to_int64 sum quarks (omega arith) (omega arith),
        db.find-upsert (encode_as codecs hex id) (tip_row quarks ts)
            (λ r. record r { count = to_int64 (sum + quarks) }) t (λ r. refl),
      )

      total_tips :
          (tips : List (ℕ × Time)) (sum : ℕ) (ts0 : Time) (t : db.State)
          → sum + total tips < 2 ^ 63
          → db.find (encode_as codecs hex id) t ≡ some (tip_row sum ts0)
          → db.find (encode_as codecs hex id) (tip_all tips t)
            ≡ some (tip_row (sum + total tips) ts0)
      unfolding tip_all total
      total_tips [] sum ts0 t bound present = ground (arith, present)
      total_tips ((quarks, ts) ∷ tips) sum ts0 t bound present =
          let sent =
            save_notification codecs stored_time db transaction_history u (tip quarks ts) t in
          ground (
            arith,
            total_tips tips (sum + quarks) ts0 sent.1 (omega arith)
                (one_more_tip sum quarks ts0 ts t (omega arith) present),
          )

      -- Tips under one id whose total is below 2 ^ 63, on a table that had no notification under
      -- that id: the notification under it tells their exact total and the time of the first.
      pub tips_add_up :
          (quarks : ℕ) (ts : Time) (tips : List (ℕ × Time)) (t : db.State)
          → quarks + total tips < 2 ^ 63
          → read_notification id t ≡ none
          → read_notification id (tip_all ((quarks, ts) ∷ tips) t)
            ≡ some (ok (kept (tip (quarks + total tips) ts)))
      unfolding read_notification tip_all tip
      tips_add_up quarks ts tips t bound absent =
          let sent =
            save_notification codecs stored_time db transaction_history u (tip quarks ts) t in
          let row = tip_row (quarks + total tips) ts in
          ground (
            arith,
            total_tips tips quarks ts sent.1 bound (first_tip quarks ts t (ground arith)),
            row_back (quarks + total tips) ts (omega arith),
          )
