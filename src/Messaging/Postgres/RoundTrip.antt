-- ===== src/Messaging/Postgres/RoundTrip.antt =====
-- messaging/postgres/store.go: PutMessage followed by GetMessage.
use flipchat_server.Postgres.Encoding.{Codecs, base64, encode, decode-encode_as, encode_eq}
use flipchat_server.Messaging.{Message, Draft, stored_message}
use flipchat_server.Messaging.Postgres.{
  MessageRow, MessageTable, Wire, StoreError, message_not_found, encode_sender, decode_sender,
  to_content_model, from_content_model, from_message_model, db_put, put_model, put_message,
  db_get_message, get_message,
}
use flipchat_server.Base.{
  if◌then◌else◌, ◌==◌, nat_eq, Option-cases, Bytes, bytes_eq, ok, err, Result-cases, Time, ◌≡◌, ◌≢◌,
  refl, inl, inr, Option, none, some, arith,
}

module _ (codecs : Codecs) (wire : Wire) where
  decode_sender-encode_sender :
      (o : Option Bytes) → decode_sender codecs wire (encode_sender codecs wire o) ≡ ok o
  unfolding decode_sender encode_sender
  decode_sender-encode_sender none = refl
  decode_sender-encode_sender (some sender) = ground (arith, decode-encode_as codecs base64 sender)

  -- The row of a message is read as the message.
  from_message_model-to_content_model :
      (c : Bytes) (x : Message) (r : MessageRow)
      → x.ts ≢ 0
      → to_content_model codecs wire c x ≡ ok r
      → (from_message_model codecs wire r ≡ ok x)
        × (r.id ≡ x.message_id)
        × (r.chat_id ≡ encode codecs c)
  unfolding to_content_model from_message_model from_content_model
  from_message_model-to_content_model c x r dated h =
      elim (Option-cases (wire.marshal_content x.content)) [
        | inl bad ↦ absurd (ground arith)
        | inr (b, good) ↦ ground (
          arith,
          wire.content_round_trip x.content b good,
          decode_sender-encode_sender x.sender_id,
        )
      ]

module _ (codecs : Codecs) (wire : Wire) (db : MessageTable) where
  -- A row is found after it was inserted.
  put_model-get_message :
      (c d j : Bytes) (x y : Message) (r : MessageRow) (t : db.State)
      → from_message_model codecs wire r ≡ ok x
      → r.chat_id ≡ encode codecs c
      → (put_model codecs wire db (ok r) t).0 ≡ ok y
      → (y ≡ x)
        × (get_message codecs wire db d j (put_model codecs wire db (ok r) t).1 ≡ (
            if r.id == j
            then (if c == d then ok x else err message_not_found)
            else get_message codecs wire db d j t))
  unfolding put_model db_put get_message db_get_message
  put_model-get_message c d j x y r t read same h = elim (Option-cases (db.insert r t)) [
    | inl taken ↦ absurd (ground arith)
    | inr (t', fresh) ↦ elim (Option-cases (db.find r.id t)) [
      | inr (old, present) ↦ absurd (ground (arith, db.find-insert j r t))
      | inl absent ↦
          let found : db.find j t' ≡ (if r.id == j then some r else db.find j t) =
            ground (arith, db.find-insert j r t) in
          (ground arith, ground (arith, found, encode_eq codecs base64 c d))
    ]
  ]

  put_message_draft :
      (c id : Bytes) (msg : Draft) (now : Time) (t : db.State)
      → msg.message_id ≡ none
      → put_message codecs wire db c msg id now t
        ≡ put_model codecs wire db
            (to_content_model codecs wire c (record (stored_message id now msg) { ts = now }))
            t
  unfolding put_message
  put_message_draft c id msg now t h = rw h refl

  put_message_refused :
      (c id : Bytes) (msg : Draft) (now : Time) (y : Message) (t : db.State)
      → (put_message codecs wire db c msg id now t).0 ≡ ok y
      → msg.message_id ≡ none
  unfolding put_message
  put_message_refused c id msg now y t h = ground arith

  put_model_failed :
      (e : StoreError) (y : Message) (t : db.State) → (put_model codecs wire db (err e) t).0 ≢ ok y
  unfolding put_model
  put_model_failed e y t h = ground arith

  -- A message that `PutMessage` answers with is read back: it is the draft with its new id and the
  -- time of the insertion, `GetMessage` finds it in its chat and in no other, and finds every
  -- other message as before.
  pub put_message-get_message :
      (c d j id : Bytes) (msg : Draft) (now : Time) (y : Message) (t : db.State)
      → now ≢ 0
      → (put_message codecs wire db c msg id now t).0 ≡ ok y
      → let t' = (put_message codecs wire db c msg id now t).1 in
        (y ≡ record (stored_message id now msg) { ts = now })
        × (get_message codecs wire db d j t' ≡ (
            if id == j
            then (if c == d then ok y else err message_not_found)
            else get_message codecs wire db d j t))
  unfolding stored_message
  put_message-get_message c d j id msg now y t dated h =
      let x = record (stored_message id now msg) { ts = now } in
      let same = put_message_draft c id msg now t (put_message_refused c id msg now y t h) in
      elim (Result-cases (to_content_model codecs wire c x)) [
        | inr (e, bad) ↦ absurd (put_model_failed e y t (rw (same, bad) at h))
        | inl (r, made) ↦
            let (read, same_id, same_chat) =
              from_message_model-to_content_model codecs wire c x r dated made in
            rw (same, made)
              (ground (
                arith,
                same_id,
                put_model-get_message c d j x y r t read same_chat (rw (same, made) at h),
              ))
      ]
