-- ===== src/MessageServer/Streaming/Single.antt =====
-- messaging/server.go: the streams that one user opens on one chat.
use flipchat_server.Event.{ChatEvent}
use flipchat_server.Event.Stream.{Stream, close, notify, send, new_stream}
use flipchat_server.MessageServer.Streaming.{
  Response, LiveStream, Streams, streams_of, selector, close_previous, new_live_stream, open_stream,
  drop_address, end_stream, is_for_streams, notify_all, handle_chat_updates,
}
use flipchat_server.Base.{
  if◌then◌else◌, ◌==◌, nat_eq, bytes_eq, Bool-cases, Bytes, lookup-insert, lookup-adjust, ℕ, All,
  lookup, suc, ◌+◌, ◌-◌, ◌||◌, ◌≤◌, ◌≡◌, refl, inl, inr, Bool, true, false, not, ◌&&◌, List, [],
  ◌∷◌, ◌++◌, arith, Option-cases,
}

-- How many streams of a list a user has.
abbrev pub count_of : Bytes → List LiveStream → ℕ
count_of u [] = 0
count_of u (l ∷ ls) = if l.stream.id == u then suc (count_of u ls) else count_of u ls

-- Whether a list has a stream of a user at an address.
abbrev pub has_stream : Bytes → ℕ → List LiveStream → Bool
has_stream u a [] = false
has_stream u a (l ∷ ls) = l.stream.id == u && l.address == a || has_stream u a ls

-- The calls of the server on its streams, an opened stream with its address.
pub data Call : Type 0 where
  opens : Bytes → Bytes → ℕ → Call
  ends : Bytes → ℕ → Call
  updates : Bytes → ChatEvent → Call

unfoldable pub step : Call → Streams → Streams
step (opens c u a) streams = (open_stream c u a streams).1
step (ends c a) streams = end_stream c a streams
step (updates c e) streams = handle_chat_updates c e streams

unfoldable pub run : List Call → Streams → Streams
unfolding step
run [] streams = streams
run (x ∷ xs) streams = run xs (step x streams)

-- What one call does to the streams of a chat.
on_streams : Bytes → Call → List LiveStream → List LiveStream
on_streams c (opens c' u a) ls =
    if c' == c then (close_previous u ls).1 ++ new_live_stream u a ∷ [] else ls
on_streams c (ends c' a) ls = if c' == c then drop_address a ls else ls
on_streams c (updates c' e) ls = if c' == c && is_for_streams e then notify_all e ls else ls

count_of-append :
    (u : Bytes) (l : LiveStream) (ls : List LiveStream)
    → count_of u (ls ++ l ∷ []) ≡ count_of u ls + (if l.stream.id == u then 1 else 0)
count_of-append u l [] = ground arith
count_of-append u l (k ∷ ls) = ground (arith, count_of-append u l ls)

has_stream-append :
    (u : Bytes) (a : ℕ) (l : LiveStream) (ls : List LiveStream)
    → has_stream u a (ls ++ l ∷ []) ≡ (has_stream u a ls || l.stream.id == u && l.address == a)
has_stream-append u a l [] = ground arith
has_stream-append u a l (k ∷ ls) = ground (arith, has_stream-append u a l ls)

has_stream-count_of :
    (u : Bytes) (a : ℕ) (ls : List LiveStream) → has_stream u a ls ≡ true → 1 ≤ count_of u ls
has_stream-count_of u a [] h = ground arith
has_stream-count_of u a (l ∷ ls) h = ground (arith, has_stream-count_of u a ls)

-- Closing the user's previous stream leaves one fewer of the user's, and as many of others.
count_of-close_previous :
    (u v : Bytes) (ls : List LiveStream)
    → count_of v (close_previous u ls).1 ≡ (if u == v then count_of v ls - 1 else count_of v ls)
unfolding close_previous
count_of-close_previous u v [] = ground arith
count_of-close_previous u v (l ∷ ls) = elim (Bool-cases (l.stream.id == u)) [
  | inl same ↦ rw same (ground (arith, same))
  | inr apart ↦ rw apart (ground (arith, apart, count_of-close_previous u v ls))
]

has_stream-close_previous :
    (u v : Bytes) (a : ℕ) (ls : List LiveStream)
    → (u == v) ≡ false
    → has_stream v a (close_previous u ls).1 ≡ has_stream v a ls
unfolding close_previous
has_stream-close_previous u v a [] h = refl
has_stream-close_previous u v a (l ∷ ls) h = elim (Bool-cases (l.stream.id == u)) [
  | inl same ↦ rw same (ground (arith, same))
  | inr apart ↦ rw apart (ground (arith, apart, has_stream-close_previous u v a ls))
]

count_of-drop_address :
    (a : ℕ) (v : Bytes) (ls : List LiveStream) → count_of v (drop_address a ls) ≤ count_of v ls
unfolding drop_address
count_of-drop_address a v [] = omega arith
count_of-drop_address a v (l ∷ ls) = ground (arith, count_of-drop_address a v ls)

has_stream-drop_address :
    (a b : ℕ) (v : Bytes) (ls : List LiveStream)
    → (a == b) ≡ false
    → has_stream v b (drop_address a ls) ≡ has_stream v b ls
unfolding drop_address
has_stream-drop_address a b v [] h = refl
has_stream-drop_address a b v (l ∷ ls) h = ground (arith, has_stream-drop_address a b v ls)

notify-id : (e : ChatEvent) (s : Stream Response) → (notify selector e s).1.id ≡ s.id
unfolding notify send close
notify-id e s = elim (Option-cases (selector e)) [
  | inl unselected ↦ ground arith
  | inr (msg, selected) ↦ ground arith
]

notify_all-same :
    (e : ChatEvent) (v : Bytes) (a : ℕ) (ls : List LiveStream)
    → (count_of v (notify_all e ls) ≡ count_of v ls)
      × (has_stream v a (notify_all e ls) ≡ has_stream v a ls)
unfolding notify_all
notify_all-same e v a [] = (refl, refl)
notify_all-same e v a (l ∷ ls) = ground (arith, notify-id e l.stream, notify_all-same e v a ls)

-- What the streams of one chat become by one call.
step-streams_of :
    (x : Call) (c : Bytes) (streams : Streams)
    → streams_of c (step x streams) ≡ on_streams c x (streams_of c streams)
unfolding step open_stream end_stream handle_chat_updates on_streams
step-streams_of (opens c' u a) c streams = ground (
  arith,
  lookup-insert c' c ((close_previous u (streams_of c' streams)).1 ++ new_live_stream u a ∷ [])
      streams,
)
step-streams_of (ends c' a) c streams = ground (arith, lookup-adjust c' c (drop_address a) streams)
step-streams_of (updates c' e) c streams = ground (arith, lookup-adjust c' c (notify_all e) streams)

-- A call leaves a user with one stream of a chat at most.
step-single :
    (x : Call) (c u : Bytes) (streams : Streams)
    → count_of u (streams_of c streams) ≤ 1
    → count_of u (streams_of c (step x streams)) ≤ 1
unfolding on_streams new_stream
step-single (opens c' v a) c u streams h =
    let ls = streams_of c streams in
    rw (step-streams_of (opens c' v a) c streams) (
      ground (
        arith,
        count_of-append u (new_live_stream v a) (close_previous v ls).1,
        count_of-close_previous v u ls,
      ))
step-single (ends c' a) c u streams h =
    rw (step-streams_of (ends c' a) c streams)
      (ground (arith, count_of-drop_address a u (streams_of c streams)))
step-single (updates c' e) c u streams h =
    rw (step-streams_of (updates c' e) c streams)
      (ground (arith, notify_all-same e u 0 (streams_of c streams)))

run-single :
    (xs : List Call) (c u : Bytes) (streams : Streams)
    → count_of u (streams_of c streams) ≤ 1
    → count_of u (streams_of c (run xs streams)) ≤ 1
unfolding run
run-single [] c u streams h = h
run-single (x ∷ xs) c u streams h = run-single xs c u (step x streams) (step-single x c u streams h)

-- Whether a call is neither the user's opening of another stream of the chat nor the end of the
-- handler of the stream.
abbrev pub leaves : Bytes → Bytes → ℕ → Call → Bool
leaves c u a (opens c' v b) = not (c' == c && v == u)
leaves c u a (ends c' b) = not (c' == c && b == a)
leaves c u a (updates c' e) = true

step-stays :
    (x : Call) (c u : Bytes) (a : ℕ) (streams : Streams)
    → leaves c u a x ≡ true
    → has_stream u a (streams_of c streams) ≡ true
    → has_stream u a (streams_of c (step x streams)) ≡ true
unfolding on_streams new_stream
step-stays (opens c' v b) c u a streams l h =
    let ls = streams_of c streams in
    rw (step-streams_of (opens c' v b) c streams) (
      ground (
        arith,
        has_stream-append u a (new_live_stream v b) (close_previous v ls).1,
        has_stream-close_previous v u a ls,
      ))
step-stays (ends c' b) c u a streams l h =
    rw (step-streams_of (ends c' b) c streams)
      (ground (arith, has_stream-drop_address b a u (streams_of c streams)))
step-stays (updates c' e) c u a streams l h =
    rw (step-streams_of (updates c' e) c streams)
      (ground (arith, notify_all-same e u a (streams_of c streams)))

run-stays :
    (xs : List Call) (c u : Bytes) (a : ℕ) (streams : Streams)
    → All (λ x. leaves c u a x ≡ true) xs
    → has_stream u a (streams_of c streams) ≡ true
    → has_stream u a (streams_of c (run xs streams)) ≡ true
unfolding run
run-stays [] c u a streams l h = h
run-stays (x ∷ xs) c u a streams l h =
    run-stays xs c u a (step x streams) l.1 (step-stays x c u a streams l.0 h)

-- A user has one live stream of a chat: whatever calls were made before, after the user opens a
-- stream the chat has exactly one stream of the user, and while the user opens no other and its
-- own handler does not end, the chat keeps this stream and no other of the user, whatever events
-- come and whichever handlers of closed streams end in between.
pub one_live_stream :
    (before after : List Call) (c u : Bytes) (a : ℕ)
    → All (λ x. leaves c u a x ≡ true) after
    → let ls = streams_of c (run after (step (opens c u a) (run before []))) in
      (count_of u ls ≡ 1) × (has_stream u a ls ≡ true)
unfolding on_streams new_stream lookup
one_live_stream before after c u a h =
    let streams = run before [] in
    let opened = step (opens c u a) streams in
    let rest = (close_previous u (streams_of c streams)).1 in
    let found : has_stream u a (streams_of c opened) ≡ true =
      rw (step-streams_of (opens c u a) c streams)
        (ground (arith, has_stream-append u a (new_live_stream u a) rest)) in
    let kept = run-stays after c u a opened h found in
    let single =
      run-single after c u opened
        (step-single (opens c u a) c u streams (run-single before c u [] (ground arith))) in
    (omega (arith, has_stream-count_of u a _ kept, single), kept)
