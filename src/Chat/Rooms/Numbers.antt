-- ===== src/Chat/Rooms/Numbers.antt =====
-- chat/memory/store.go: room numbers are given out once, and lead back to their chats.
use flipchat_server.Base.{
  ltb, if◌then◌else◌, ◌==◌, nat_eq, Option-cases, Bytes, bytes_eq, lookup, lookup-insert, Result,
  ok, err, map_result, Time, as_time, ℕ, ◌+◌, ◌≤◌, ◌<◌, max, ◌≡◌, refl, ◌↔◌, inl, inr, Bool, false,
  Option, none, some, List, [], ◌∷◌, arith,
}
use flipchat_server.Chat.{
  ChatError, chat_not_found, has_room_number, Metadata, Store, new_in_memory, uint64_mod,
}
use flipchat_server.Chat.Rooms.{
  get_chat_id, get_chat_metadata, Created, created, chat_exists, failed, reset_fields, add_chat,
  create_chat, update_chat, advance_last_chat_activity,
}

-- Whether a chat's entry has the room number.
abbrev pub has_number : ℕ → Option Metadata → Bool
has_number r none = false
has_number r (some md) = md.room_number == r

-- The entry of a room number names a chat.
abbrev pub names_chat : Bytes → Option Bytes → Bool
names_chat c none = false
names_chat c (some d) = d == c

-- At most `n` rooms were created; the rooms' numbers and the index of the numbers agree, every
-- number given out is below the next one, and a chat's metadata holds the id under which it is
-- stored.
pub record Numbered (n : ℕ) (s : Store) : Type 0 where
  pub next : (0 < s.next_room) × (s.next_room ≤ n + 1)
  pub agree : (r : ℕ) (c : Bytes) → names_chat c (lookup r s.ids) ≡ has_number r (lookup c s.chats)
  pub below : (r : ℕ) → s.next_room ≤ r → lookup r s.ids ≡ none
  pub own : (c : Bytes) (md : Metadata) → lookup c s.chats ≡ some md → md.chat_id ≡ some c

pub new_in_memory-Numbered : Numbered 0 new_in_memory
unfolding lookup
new_in_memory-Numbered = record {
  next = omega arith;
  agree = λ r c. refl;
  below = λ r h. refl;
  own = λ c md h. cc;
}

module _ (n : ℕ) (s : Store) (v : Numbered n s) (room : n + 2 < uint64_mod) where
  add_chat-Numbered :
      (c : Bytes) (md : Metadata)
      → md.chat_id ≡ some c
      → lookup c s.chats ≡ none
      → Numbered (n + 1) (add_chat c md s).1
  unfolding add_chat
  add_chat-Numbered c md e fresh =
      let numbered : Metadata = record md { room_number = s.next_room } in
      record {
        next = omega (arith, v.next);
        agree = λ r d. ground (
          arith,
          lookup-insert s.next_room r c s.ids,
          lookup-insert c d numbered s.chats,
          v.agree r d,
          v.agree r c,
          v.below r,
        );
        below = λ r h. ground (arith, lookup-insert s.next_room r c s.ids, v.below r, v.next);
        own = λ d md' h. ground (arith, lookup-insert c d numbered s.chats, v.own d md');
      }

  pub one_more : Numbered (n + 1) s
  one_more = record { next = omega (arith, v.next); agree = v.agree; below = v.below; own = v.own }

  pub create_chat-Numbered : (md : Metadata) → Numbered (n + 1) (create_chat md s).1
  unfolding create_chat reset_fields
  create_chat-Numbered md = elim (Option-cases md.chat_id) [
    | inl e ↦ rw (e, create_chat) one_more
    | inr (c, e) ↦ elim (Option-cases (lookup c s.chats)) [
      | inl fresh ↦ ground (arith, one_more, add_chat-Numbered c (reset_fields md))
      | inr (old, present) ↦ ground (arith, one_more)
    ]
  ]

-- A change in place that keeps a chat's id and room number.
pub update_chat-Numbered :
    (n : ℕ) (c : Bytes) (f : Metadata → Metadata) (s : Store)
    → Numbered n s
    → ((md : Metadata) → (f md).room_number ≡ md.room_number)
    → ((md : Metadata) → (f md).chat_id ≡ md.chat_id)
    → Numbered n (update_chat c f s).1
unfolding update_chat
update_chat-Numbered n c f s v keeps same = elim (Option-cases (lookup c s.chats)) [
  | inl e ↦ rw (e, update_chat) v
  | inr (md, e) ↦
      rw (e, update_chat)
        (record {
          next = v.next;
          agree = λ r d. ground (arith, lookup-insert c d (f md) s.chats, v.agree r d, keeps md);
          below = v.below;
          own = λ d md' h.
              ground (arith, lookup-insert c d (f md) s.chats, v.own d md', v.own c md, same md);
        })
]

pub Numbered-get_chat_id :
    (n r : ℕ) (c : Bytes) (s : Store)
    → Numbered n s
    → (get_chat_id r s ≡ ok c) ↔ (
        (md : Metadata) × (get_chat_metadata c s ≡ ok md)
        × (md.room_number ≡ r)
        × (md.chat_id ≡ some c))
unfolding get_chat_id get_chat_metadata
Numbered-get_chat_id n r c s v = (
  λ h. elim (Option-cases (lookup c s.chats)) [
    | inl e ↦ absurd (ground (arith, v.agree r c))
    | inr (md, e) ↦ (md, ground arith, ground (arith, v.agree r c), v.own c md e)
  ],
  λ h. ground (arith, v.agree r c),
)

-- What `CreateChat` ensures, by what it returns: a new chat is found under its id and under its
-- room number, with the metadata returned; an existing one is returned as it is found, and nothing
-- changes, as after an error.
abbrev pub Ensures : Store → Bytes → Created × Store → Type 0
Ensures s c (created md, s') =
    (get_chat_metadata c s ≡ err chat_not_found)
    × (get_chat_metadata c s' ≡ ok md)
    × (get_chat_id md.room_number s' ≡ ok c)
    × (md.chat_id ≡ some c)
Ensures s c (chat_exists md, s') = (get_chat_metadata c s ≡ ok md) × (s' ≡ s)
Ensures s c (failed e, s') = (e ≡ has_room_number) × (s' ≡ s)

-- For metadata with a chat id, a chat that `CreateChat` creates is found under its id and under its
-- room number, with the metadata returned; an existing chat is returned as it is found; the one
-- error is that a room number is given. Where no chat is created, the store does not change.
pub create_chat-Ensures :
    (md : Metadata) (c : Bytes) (s : Store) → md.chat_id ≡ some c → Ensures s c (create_chat md s)
unfolding create_chat reset_fields add_chat get_chat_metadata get_chat_id
create_chat-Ensures md c s e =
    let numbered : Metadata = record (reset_fields md) { room_number = s.next_room } in
    let stored = lookup-insert c c numbered s.chats in
    let indexed = lookup-insert s.next_room s.next_room c s.ids in ground arith

-- The time of the last activity in a chat, as a timestamp that was never set reads.
abbrev pub last_active : Bytes → Store → Result ChatError Time
last_active c s = map_result (λ md. as_time md.last_activity) (get_chat_metadata c s)

pub advance_all : Bytes → List Time → Store → Store
advance_all c [] s = s
advance_all c (ts ∷ tss) s = advance_all c tss (advance_last_chat_activity c ts s).1

abbrev pub latest : Time → List Time → Time
latest t [] = t
latest t (ts ∷ tss) = latest (max t ts) tss

last_active-advance :
    (c : Bytes) (ts : Time) (s : Store)
    → last_active c (advance_last_chat_activity c ts s).1
      ≡ map_result (λ t. max t ts) (last_active c s)
unfolding advance_last_chat_activity update_chat get_chat_metadata
last_active-advance c ts s = elim (Option-cases (lookup c s.chats)) [
  | inl e ↦ ground arith
  | inr (md, e) ↦
      let moved : Metadata =
        if ltb ts (as_time md.last_activity) then md else record md { last_activity = some ts } in
      ground (arith, lookup-insert c c moved s.chats)
]

-- `AdvanceLastChatActivity` never moves the last activity back: after any sequence of calls it is
-- the latest of the times given and the time before.
pub last_active-advance_all :
    (c : Bytes) (tss : List Time) (s : Store)
    → last_active c (advance_all c tss s) ≡ map_result (λ t. latest t tss) (last_active c s)
unfolding advance_all
last_active-advance_all c [] s = ground arith
last_active-advance_all c (ts ∷ tss) s =
    rw
      (
        last_active-advance_all c tss (advance_last_chat_activity c ts s).1,
        last_active-advance c ts s,
      )
      (ground arith)
