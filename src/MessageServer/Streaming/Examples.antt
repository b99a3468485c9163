-- ===== src/MessageServer/Streaming/Examples.antt =====
-- Two streams of one user, and a message that reaches a stream.
use flipchat_server.MessageServer.Examples.{
  no_selector, hello, first_id, paid, sending, sending_done,
}
use flipchat_server.MessageServer.Streaming.{Streams, streams_of, new_live_stream}
use flipchat_server.MessageServer.Streaming.Single.{
  Call, opens, ends, step, run, leaves, count_of, has_stream, one_live_stream,
}
use flipchat_server.MessageServer.Streaming.Delivery.{on_outbox, receiving, send_message-delivered}
use flipchat_server.ChatServer.Examples.{room, alice, bob, intent_id, backend}
use flipchat_server.Base.{
  if◌then◌else◌, ◌==◌, bytes_eq, bytes_discrete, All, ◌≡◌, refl, true, some, List, [], ◌∷◌, map,
}
use native.Mathlib.Decide.{ℕ_discrete}

-- The handler of the first stream ends after the second one is open.
abbrev before : List Call
before = opens room alice 1 ∷ []

abbrev after : List Call
after = ends room 1 ∷ opens room bob 3 ∷ []

later_calls : All (λ x. leaves room alice 2 x ≡ true) after
unfolding bytes_discrete ℕ_discrete
later_calls = (refl, (refl, tt))

one_live_stream_example :
    let ls = streams_of room (run after (step (opens room alice 2) (run before []))) in
    (count_of alice ls ≡ 1) × (has_stream alice 2 ls ≡ true)
one_live_stream_example = one_live_stream before after room alice 2 later_calls

abbrev streams : Streams
streams = (room, new_live_stream alice 4 ∷ []) ∷ []

send_message-delivered_example : streams_of room (on_outbox sending.1.outbox streams) ≡ (
    if room == room
    then map (receiving paid) (streams_of room (on_outbox backend.outbox streams))
    else streams_of room (on_outbox backend.outbox streams))
send_message-delivered_example =
    send_message-delivered no_selector room hello (some intent_id) first_id 20 bob backend paid room
      streams sending_done
