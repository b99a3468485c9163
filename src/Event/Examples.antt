-- ===== src/Event/Examples.antt =====
-- A stream of numbers that is closed while messages wait.
use flipchat_server.Event.Stream.{close, notify, ended, receive}
use flipchat_server.Event.Stream.Deliveries.{
  History, opened, after_notify, after_close, after_receive, Steps, here, notifies, closes,
  receives, fifo_delivery, receive_all, drains_when_closed,
}
use flipchat_server.Base.{bytes_eq, length, ℕ, ◌≤◌, ◌≡◌, refl, true, Option, some, [], ◌++◌}

abbrev every : ℕ → Option ℕ
every n = some n

abbrev busy : History ℕ
busy =
    after_receive (after_notify every 9 (after_notify every 8 (after_notify every 7 (opened [] 2))))

busy_reached : Steps every (opened [] 2) busy
busy_reached = receives (notifies (notifies (notifies here 7) 8) 9)

fifo_delivery_example : (busy.accepted ≡ busy.taken ++ busy.stream.ch) × (length busy.stream.ch ≤ 2)
fifo_delivery_example = fifo_delivery [] 2 busy_reached

abbrev shut : History ℕ
shut = after_close busy

shut_closed : shut.stream.closed ≡ true
unfolding after_close after_receive after_notify opened close notify receive
shut_closed = refl

abbrev later : History ℕ
later = after_notify every 10 shut

drains_when_closed_example :
    let drained = receive_all (length later.stream.ch) later in
    (drained.taken ≡ shut.accepted) × ((receive drained.stream).0 ≡ ended)
drains_when_closed_example =
    drains_when_closed [] 2 (closes busy_reached) shut_closed (notifies here 10)
