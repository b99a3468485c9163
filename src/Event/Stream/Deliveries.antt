-- ===== src/Event/Stream/Deliveries.antt =====
-- event/stream.go: what reaches the client of a stream, over any sequence of its calls.
use flipchat_server.Base.{
  Option-cases, Bytes, length, append_assoc, append_nil, length-append_one, List-cases, ℕ, zero,
  suc, ◌≤◌, ◌≡◌, refl, inl, inr, true, Option, none, some, List, [], ◌∷◌, ◌++◌, arith,
}
use flipchat_server.Event.Stream.{
  Stream, new_stream, close, Notified, notified, send, notify, ended, receive,
}

-- A stream with what its channel accepted so far, and what was received from it.
pub record History (P : Type 0) : Type 0 where
  pub stream : Stream P
  pub accepted : List P
  pub taken : List P

unfoldable pub opened : {P : Type 0} → Bytes → ℕ → History P
unfolding new_stream
opened id n = record { stream = new_stream id n; accepted = []; taken = [] }

-- What one notification adds to the accepted messages.
accept : {E P : Type 0} → (E → Option P) → E → Notified → List P → List P
accept selector e result xs = elim (selector e) [
  | none ↦ xs
  | some msg ↦ elim result [ notified ↦ xs ++ msg ∷ [] | _ ↦ xs ]
]

unfoldable pub after_notify : {E P : Type 0} → (E → Option P) → E → History P → History P
unfolding accept
after_notify selector e h =
    let (result, s') = notify selector e h.stream in
    record h { stream = s'; accepted = accept selector e result h.accepted }

unfoldable pub after_close : {P : Type 0} → History P → History P
after_close h = record h { stream = close h.stream }

unfoldable pub after_receive : {P : Type 0} → History P → History P
after_receive h = elim h.stream.ch [
  | [] ↦ h
  | msg ∷ rest ↦ record h { stream = (receive h.stream).1; taken = h.taken ++ msg ∷ [] }
]

-- The histories that any calls lead to.
pub data Steps {E P : Type 0} (selector : E → Option P) (h : History P) : History P → Type 0 where
  here : Steps selector h h
  notifies :
      {k : History P} → Steps selector h k → (e : E) → Steps selector h (after_notify selector e k)
  closes : {k : History P} → Steps selector h k → Steps selector h (after_close k)
  receives : {k : History P} → Steps selector h k → Steps selector h (after_receive k)

-- The channel holds what was accepted and not received yet, and never more than its capacity.
pub record IsBalanced {P : Type 0} (n : ℕ) (h : History P) : Type 0 where
  pub fifo : h.accepted ≡ h.taken ++ h.stream.ch
  pub bounded : length h.stream.ch ≤ n
  pub same_capacity : h.stream.capacity ≡ n

after_notify-IsBalanced :
    {E P : Type 0} {n : ℕ} (selector : E → Option P) (e : E) (h : History P)
    → IsBalanced n h
    → IsBalanced n (after_notify selector e h)
unfolding after_notify notify send accept close
after_notify-IsBalanced selector e h v = elim (Option-cases (selector e)) [
  | inl skipped ↦ record {
    fifo = ground (arith, v.fifo);
    bounded = ground (arith, v.bounded);
    same_capacity = ground (arith, v.same_capacity);
  }
  | inr (msg, selected) ↦ record {
    fifo = ground (arith, v.fifo, append_assoc h.taken h.stream.ch (msg ∷ []));
    bounded = ground (arith, v.bounded, v.same_capacity, length-append_one msg h.stream.ch);
    same_capacity = ground (arith, v.same_capacity);
  }
]

after_close-IsBalanced :
    {P : Type 0} {n : ℕ} (h : History P) → IsBalanced n h → IsBalanced n (after_close h)
unfolding after_close close
after_close-IsBalanced h v = record {
  fifo = ground (arith, v.fifo);
  bounded = ground (arith, v.bounded);
  same_capacity = ground (arith, v.same_capacity);
}

after_receive-IsBalanced :
    {P : Type 0} {n : ℕ} (h : History P) → IsBalanced n h → IsBalanced n (after_receive h)
unfolding after_receive receive
after_receive-IsBalanced h v = elim (List-cases h.stream.ch) [
  | inl empty ↦ record {
    fifo = ground (arith, v.fifo);
    bounded = ground (arith, v.bounded);
    same_capacity = ground (arith, v.same_capacity);
  }
  | inr (msg, rest, full) ↦ record {
    fifo = ground (arith, v.fifo, append_assoc h.taken (msg ∷ []) rest);
    bounded = ground (arith, v.bounded);
    same_capacity = ground (arith, v.same_capacity);
  }
]

Steps-IsBalanced :
    {E P : Type 0} {selector : E → Option P} {n : ℕ} {h k : History P}
    → Steps selector h k
    → IsBalanced n h
    → IsBalanced n k
Steps-IsBalanced here v = v
Steps-IsBalanced {selector} (notifies {k} r e) v =
    after_notify-IsBalanced selector e k (Steps-IsBalanced r v)
Steps-IsBalanced (closes {k} r) v = after_close-IsBalanced k (Steps-IsBalanced r v)
Steps-IsBalanced (receives {k} r) v = after_receive-IsBalanced k (Steps-IsBalanced r v)

opened-IsBalanced : {P : Type 0} (id : Bytes) (n : ℕ) → IsBalanced n (opened {P = P} id n)
unfolding opened
opened-IsBalanced id n = record { fifo = refl; bounded = omega arith; same_capacity = refl }

-- Whatever the calls on a new stream and their order, what its client received and what waits in
-- the channel are, in this order, all the messages that were accepted, and no more messages wait
-- than the buffer holds.
pub fifo_delivery :
    {E P : Type 0} {selector : E → Option P} {h : History P} (id : Bytes) (n : ℕ)
    → Steps selector (opened id n) h
    → (h.accepted ≡ h.taken ++ h.stream.ch) × (length h.stream.ch ≤ n)
fifo_delivery id n r = let v = Steps-IsBalanced r (opened-IsBalanced id n) in (v.fifo, v.bounded)

-- Receiving `n` times.
pub receive_all : {P : Type 0} → ℕ → History P → History P
receive_all zero h = h
receive_all (suc n) h = receive_all n (after_receive h)

receive_all-taken :
    {P : Type 0} (n : ℕ) (h : History P)
    → length h.stream.ch ≡ n
    → let h' = receive_all n h in
      (h'.taken ≡ h.taken ++ h.stream.ch)
      × (h'.stream.ch ≡ [])
      × (h'.stream.closed ≡ h.stream.closed)
unfolding receive_all after_receive receive
receive_all-taken zero h e = elim (List-cases h.stream.ch) [
  | inl empty ↦ (ground (arith, append_nil h.taken), empty, refl)
  | inr (msg, rest, full) ↦ absurd (ground arith)
]
receive_all-taken (suc n) h e = elim (List-cases h.stream.ch) [
  | inl empty ↦ absurd (ground arith)
  | inr (msg, rest, full) ↦
      let (all, emptied, same) = receive_all-taken n (after_receive h) (ground arith) in
      (ground (arith, all, append_assoc h.taken (msg ∷ []) rest), emptied, ground (arith, same))
]

-- A closed stream stays closed and accepts no more messages, whatever the calls.
Steps-closed :
    {E P : Type 0} {selector : E → Option P} {h k : History P}
    → Steps selector h k
    → h.stream.closed ≡ true
    → (k.stream.closed ≡ true) × (k.accepted ≡ h.accepted)
unfolding after_notify notify send accept after_close close after_receive receive
Steps-closed here c = (c, refl)
Steps-closed (notifies {k} r e) c =
    let (shut, same) = Steps-closed r c in (ground arith, ground arith)
Steps-closed (closes {k} r) c = let (shut, same) = Steps-closed r c in (ground arith, ground arith)
Steps-closed (receives {k} r) c =
    let (shut, same) = Steps-closed r c in (ground arith, ground arith)

-- Once the stream is closed, whatever the calls before and after, the client that receives as often
-- as messages wait gets to all that was ever accepted, in order, and is then told that the stream
-- has ended; nothing more was accepted since the stream was closed.
pub drains_when_closed :
    {E P : Type 0} {selector : E → Option P} {h k : History P} (id : Bytes) (n : ℕ)
    → Steps selector (opened id n) h
    → h.stream.closed ≡ true
    → Steps selector h k
    → let k' = receive_all (length k.stream.ch) k in
      (k'.taken ≡ h.accepted) × ((receive k'.stream).0 ≡ ended)
unfolding receive
drains_when_closed {k} id n r c r' =
    let v = Steps-IsBalanced r' (Steps-IsBalanced r (opened-IsBalanced id n)) in
    let (shut, same) = Steps-closed r' c in
    let (all, emptied, kept) = receive_all-taken _ k refl in
    (ground (arith, v.fifo, all), ground (arith, emptied, kept))
