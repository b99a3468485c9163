-- ===== src/Messaging/Postgres/Examples.antt =====
-- A message and some pointers in tables.
use flipchat_server.Postgres.Examples.{plain}
use native.Mathlib.Decide.{ℕ_discrete}
use flipchat_server.Postgres.Encoding.{decode, encode_as}
use flipchat_server.Postgres.Lists.{list_table}
use flipchat_server.Messaging.{
  Content, text, reaction, reply, tip, deleted, review, other, Message, Draft, read, delivered,
  new_in_memory, stored_message,
}
use flipchat_server.Messaging.Pointers.{Advance}
use flipchat_server.Messaging.Postgres.{
  MessageTable, PointerTable, pointer_key_eq, Wire, to_content_model, from_message_model,
  message_not_found, put_message, get_message,
}
use flipchat_server.Messaging.Postgres.RoundTrip.{put_message-get_message}
use flipchat_server.Messaging.Postgres.Advances.{
  advanced_in_table, advanced_in_memory, advanced_in_table-advanced_in_memory,
}
use flipchat_server.Base.{
  if◌then◌else◌, ◌==◌, Bytes, bytes_discrete, bytes_eq, ok, err, ◌≡◌, ◌≢◌, refl, ℕ, false, Option,
  none, some, List, [], ◌∷◌, arith,
}

-- A wire format for texts.
write_text : Content → Option Bytes
write_text (text t) = some t
write_text _ = none

write_text_lem : (c : Content) (b : Bytes) → write_text c ≡ some b → some (text b) ≡ some c
unfolding write_text
write_text_lem (text t) b h = cc
write_text_lem (reaction i e) b h = absurd (cc)
write_text_lem (reply i t) b h = absurd (cc)
write_text_lem (tip i q) b h = absurd (cc)
write_text_lem (deleted i) b h = absurd (cc)
write_text_lem (review i a) b h = absurd (cc)
write_text_lem other b h = absurd (cc)

wire : Wire
unfolding write_text write_text_lem
wire = record {
  marshal_content = write_text;
  unmarshal_content = λ b. some (text b);
  marshal_message = λ x. none;
  unmarshal_message = λ b. none;
  other_type = 2;
  content_round_trip = write_text_lem;
  message_round_trip = λ x b h. absurd (cc);
}

abbrev messages : MessageTable
messages = list_table (λ r. r.id)

abbrev room : Bytes
room = 5 ∷ []

abbrev id : Bytes
id = 10 ∷ []

abbrev draft : Draft
draft = record {
  message_id = none;
  sender_id = some (1 ∷ []);
  content = text (104 ∷ []);
  ts = none;
  was_sender_off_stage = false;
}

abbrev message : Message
message = record {
  message_id = id;
  sender_id = some (1 ∷ []);
  content = text (104 ∷ []);
  ts = 20;
  was_sender_off_stage = false;
}

put : (put_message plain wire messages room draft id 20 messages.empty).0 ≡ ok message
unfolding put_message list_table wire to_content_model stored_message from_message_model ℕ_discrete
    decode encode_as bytes_discrete
put = refl

dated : ◌≢◌ {A = ℕ} 20 0
dated = omega arith

put_message-get_message_example :
    let t' = (put_message plain wire messages room draft id 20 messages.empty).1 in
    (message ≡ record (stored_message id 20 draft) { ts = 20 })
    × (get_message plain wire messages room id t' ≡ (
        if id == id
        then (if room == room then ok message else err message_not_found)
        else get_message plain wire messages room id messages.empty))
put_message-get_message_example =
    put_message-get_message plain wire messages room room id id draft 20 message messages.empty
      dated put

abbrev pointers : PointerTable
pointers = list_table (λ r. r.key)

-- The second call is behind the first one.
abbrev calls : List Advance
calls =
    record { chat_id = room; user_id = 1 ∷ []; pointer = record { kind = read; value = 9 ∷ [] } }
    ∷ record { chat_id = room; user_id = 1 ∷ []; pointer = record { kind = read; value = 8 ∷ [] } }
    ∷ record {
      chat_id = room;
      user_id = 1 ∷ [];
      pointer = record { kind = delivered; value = 8 ∷ [] };
    }
    ∷ []

advanced_in_table-advanced_in_memory_example :
    advanced_in_table plain pointers calls pointers.empty ≡ advanced_in_memory calls new_in_memory
advanced_in_table-advanced_in_memory_example =
    advanced_in_table-advanced_in_memory plain pointers calls
