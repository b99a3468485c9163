-- ===== src/Event/Stream.antt =====
-- event/stream.go: a stream of events to one client, a buffered channel behind a selector.
pub mod Deliveries
use flipchat_server.Base.{
  ltb, if◌then◌else◌, Bytes, length, ℕ, Bool, true, false, Option, none, some, List, [], ◌∷◌, ◌++◌,
}

-- `ProtoEventStream`: the messages in the channel, the next one to be received first. The selector
-- is an argument of `notify`.
pub record Stream (P : Type 0) : Type 0 where
  pub id : Bytes
  pub capacity : ℕ
  pub closed : Bool
  pub ch : List P

unfoldable pub new_stream : {P : Type 0} → Bytes → ℕ → Stream P
new_stream id buffer_size = record { id = id; capacity = buffer_size; closed = false; ch = [] }

unfoldable pub close : {P : Type 0} → Stream P → Stream P
close s = if s.closed then s else record s { closed = true }

-- What `Notify` returns: nil without a message, nil, or one of its two errors.
pub data Notified : Type 0 where
  not_selected notified stream_closed timed_out : Notified

-- The part of `Notify` behind the selector. A full channel stays full until the timeout, unless a
-- message is received before.
unfoldable pub send : {P : Type 0} → P → Stream P → Notified × Stream P
unfolding close
send msg s =
    if s.closed
    then (stream_closed, s)
    else if ltb (length s.ch) s.capacity
    then (notified, record s { ch = s.ch ++ msg ∷ [] })
    else (timed_out, close s)

unfoldable pub notify : {E P : Type 0} → (E → Option P) → E → Stream P → Notified × Stream P
unfolding send
notify selector event s = elim (selector event) [ none ↦ (not_selected, s) | some msg ↦ send msg s ]

-- A receive from `Channel`: a message, the end of a closed channel, or neither yet.
pub data Received (P : Type 0) : Type 0 where
  received : P → Received P
  ended waiting : Received P

unfoldable pub receive : {P : Type 0} → Stream P → Received P × Stream P
receive s = elim s.ch [
  | [] ↦ (if s.closed then ended else waiting, s)
  | msg ∷ rest ↦ (received msg, record s { ch = rest })
]
