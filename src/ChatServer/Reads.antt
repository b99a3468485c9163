-- ===== src/ChatServer/Reads.antt =====
-- chat/server.go: what the server reads for a caller: metadata, unread counts and members.
pub mod Unread
use flipchat_server.Chat.Rooms.{get_chat_id, get_chat_metadata, get_chat_metadata_batched}
use flipchat_server.Chat.Members.{
  get_chats_for_user, get_members, has_send_permission, is_push_enabled,
}
use flipchat_server.Event.{MemberView}
use flipchat_server.Profile.{UserProfile, get_profile}
use flipchat_server.Chat.{
  ChatError, chat_not_found, member_not_found, Metadata, Member, ProtoMember, to_proto,
}
use flipchat_server.Base.{
  ltb, if◌then◌else◌, ◌==◌, nat_eq, Bytes, bytes_eq, length, Result, ok, err, ◌>>=◌, ◌>>◌, Time,
  pos, little_endian, from_little_endian, ℕ, ◌+◌, ◌%◌, ◌^◌, ◌&&◌, Bool, true, false, not, Option,
  none, some, List, [], ◌∷◌, map,
}
use flipchat_server.Chat
use flipchat_server.Messaging.{
  PointerType, read, Pointer, UserPointer, Store, count_unread, get_pointers, get_all_pointers,
}
use flipchat_server.Profile
use flipchat_server.Backend.{
  Backend, Failure, internal, invalid_argument, panicked, Answer, done, not_found,
}

abbrev pub max_unread_count : ℕ
max_unread_count = 99

-- How the server's own reads fail.
pub data ReadError : Type 0 where
  no_such_chat read_failed nil_pointer : ReadError

abbrev pub is_read : PointerType → Bool
is_read read = true
is_read _ = false

-- The loop of `getUnreadCount` over the caller's pointers.
unfoldable pub read_pointer : List Pointer → Option Bytes
read_pointer [] = none
read_pointer (p ∷ ps) = if is_read p.kind then some p.value else read_pointer ps

-- The count that stops at one more than the greatest that is told.
unfoldable pub get_unread_count : Bytes → Bytes → Option Bytes → Backend → ℕ × Bool
unfolding read_pointer
get_unread_count chat_id caller read_ptr s =
    let last_read : Option Bytes = elim read_ptr [
      | none ↦ read_pointer (get_pointers chat_id caller s.messages)
      | some id ↦ some id
    ] in
    let unread = count_unread chat_id caller last_read (pos (max_unread_count + 1)) s.messages in
    if ltb max_unread_count unread then (max_unread_count, true) else (unread, false)

abbrev read_error : ChatError → ReadError
read_error Chat.chat_not_found = no_such_chat
read_error _ = read_failed

abbrev or_read_error : {A : Type 0} → Result ChatError A → Result ReadError A
or_read_error (ok a) = ok a
or_read_error (err e) = err (read_error e)

-- Whether a caller gets pushes for a chat: somebody who is not a member would.
push_state : Result ChatError Bool → Result ReadError Bool
push_state (ok b) = ok b
push_state (err Chat.member_not_found) = ok true
push_state (err _) = err read_failed

with_disable_push : Metadata → Metadata
with_disable_push md = record md { can_disable_push = true }

with_unread : ℕ × Bool → Bool → Metadata → Metadata
with_unread (n, more) push md = record md {
  num_unread = n;
  has_more_unread = more;
  is_push_enabled = push;
}

-- The fields that depend on the caller.
fill_caller : Bytes → Bytes → Metadata → Backend → Result ReadError Metadata
unfolding get_unread_count with_unread push_state
fill_caller chat_id caller md s = do
  push ← push_state (is_push_enabled chat_id caller s.chats)
  ok (with_unread (get_unread_count chat_id caller none s) push md)

unfoldable pub get_metadata : Bytes → Option Bytes → Backend → Result ReadError Metadata
unfolding fill_caller with_disable_push
get_metadata chat_id caller s = do
  md ← or_read_error (get_chat_metadata chat_id s.chats)
  elim caller [
    | none ↦ ok (with_disable_push md)
    | some u ↦ fill_caller chat_id u (with_disable_push md) s
  ]

-- The second loop of `getMetadataBatched`, over metadata whose chat ids it dereferences.
fill_all : Bytes → List Metadata → Backend → Result ReadError (List Metadata)
unfolding fill_caller with_disable_push
fill_all caller [] s = ok []
fill_all caller (md ∷ mds) s =
    let rest = fill_all caller mds s in
    elim md.chat_id [
      | none ↦ err nil_pointer
      | some chat_id ↦ fill_caller chat_id caller (with_disable_push md) s >>= λ md'.
          rest >>= λ mds'. ok (md' ∷ mds')
    ]

unfoldable pub get_metadata_batched :
    List Bytes → Option Bytes → Backend → Result ReadError (List Metadata)
unfolding fill_all with_disable_push
get_metadata_batched chat_ids caller s = do
  mds ← or_read_error (get_chat_metadata_batched chat_ids s.chats)
  elim caller [ none ↦ ok (map with_disable_push mds) | some u ↦ fill_all u mds s ]

-- The pointers of a user among those of a chat.
pointers_of_user : Bytes → List UserPointer → List Pointer
pointers_of_user user_id [] = []
pointers_of_user user_id (p ∷ ps) =
    let rest = pointers_of_user user_id ps in
    if p.user_id == user_id then p.pointer ∷ rest else rest

-- The profile of a member, which is empty where there is none.
profile_of : Bytes → Profile.Store → Result ReadError UserProfile
profile_of user_id profiles = elim (get_profile user_id profiles) [
  | ok p ↦ ok p
  | err Profile.not_found ↦ ok (record { display_name = []; social_profiles = [] })
  | err _ ↦ err read_failed
]

member_view : List UserPointer → UserProfile → ProtoMember → MemberView
unfolding pointers_of_user
member_view ps p m = record {
  member = m;
  display_name = p.display_name;
  social_profiles = p.social_profiles;
  pointers = pointers_of_user m.user_id ps;
}

view_all : List UserPointer → List ProtoMember → Backend → Result ReadError (List MemberView)
unfolding profile_of member_view
view_all ps [] s = ok []
view_all ps (m ∷ ms) s =
    let rest = view_all ps ms s in
    profile_of m.user_id s.profiles >>= λ p. rest >>= λ views. ok (member_view ps p m ∷ views)

-- `populateMemberData`; without a chat id it leaves the pointers out.
unfoldable pub populate_member_data :
    List ProtoMember → Option Bytes → Backend → Result ReadError (List MemberView)
unfolding view_all
populate_member_data members chat_id s = elim chat_id [
  | none ↦ view_all [] members s
  | some c ↦ view_all (get_all_pointers c s.messages) members s
]

-- `GetValue` of a user id, which is empty where there is none.
abbrev value_or_empty : Option Bytes → Bytes
value_or_empty none = []
value_or_empty (some u) = u

with_permissions : ProtoMember → ProtoMember
with_permissions p = record p { has_moderator_permission = true; has_send_permission = true }

-- A member as a caller sees it: the owner of the chat may speak and moderate.
proto_member : Metadata → Option Bytes → Member → ProtoMember
unfolding with_permissions
proto_member md caller m =
    if m.user_id == value_or_empty md.owner
    then with_permissions (to_proto m caller)
    else to_proto m caller

unfoldable pub read_members : Metadata → Option Bytes → Backend → Result ReadError (List MemberView)
unfolding proto_member
read_members md caller s = elim md.chat_id [
  | none ↦ err nil_pointer
  | some chat_id ↦
      populate_member_data (map (proto_member md caller) (get_members chat_id s.chats))
        (some chat_id) s
]

unfoldable pub get_metadata_with_members :
    Bytes → Option Bytes → Backend → Result ReadError (Metadata × List MemberView)
get_metadata_with_members chat_id caller s = do
  md ← get_metadata chat_id caller s
  members ← read_members md caller s
  ok (md, members)

-- A read that fails ends the call.
abbrev pub failure : ReadError → Failure
failure no_such_chat = internal
failure read_failed = internal
failure nil_pointer = panicked

unfoldable pub get_chats : Bytes → Backend → Result Failure (List Metadata)
get_chats user_id s =
    elim (get_metadata_batched (get_chats_for_user user_id s.chats) (some user_id) s) [
      | err e ↦ err (failure e)
      | ok mds ↦ ok mds
    ]

-- A chat by its id or by its room number.
pub data Identifier : Type 0 where
  by_chat_id : Bytes → Identifier
  by_room_number : ℕ → Identifier

abbrev pub resolve : Identifier → Backend → Result ChatError Bytes
resolve (by_chat_id c) s = ok c
resolve (by_room_number n) s = get_chat_id n s.chats

-- Where a chat is not found, the answer says so.
abbrev or_not_found : {A : Type 0} → Result ReadError A → Result Failure (Answer A)
or_not_found (ok a) = ok (done a)
or_not_found (err no_such_chat) = ok not_found
or_not_found (err e) = err (failure e)

unfoldable pub get_chat :
    Identifier → Bool → Bytes → Backend → Result Failure (Answer (Metadata × List MemberView))
get_chat identifier exclude_members user_id s = elim (resolve identifier s) [
  | err Chat.chat_not_found ↦ ok not_found
  | err _ ↦ err internal
  | ok chat_id ↦
      if exclude_members
      then or_not_found (get_metadata chat_id (some user_id) s >>= λ md. ok (md, []))
      else or_not_found (get_metadata_with_members chat_id (some user_id) s)
]

-- The seconds from Go's zero time to the Unix epoch.
abbrev pub unix_to_internal : ℕ
unix_to_internal = 62135596800

-- `time.Since(time.Unix(int64(unixTs), 0)) < time.Minute`, in seconds since the Unix epoch. Go keeps
-- a time as an `int64` of seconds since its zero time, where large numbers wrap around to times
-- before it.
unfoldable pub is_within_minute : ℕ → Time → Bool
is_within_minute unix_ts now_seconds =
    let internal = (unix_ts + unix_to_internal) % 2 ^ 64 in
    ltb internal (2 ^ 63) && ltb (now_seconds + unix_to_internal) (internal + 60)

-- The test of a paging token of `GetMemberUpdates`, the time of the last refresh in seconds: the
-- answer is "not found" within the next minute. Times are in seconds since the Unix epoch.
token_answer : Bytes → Time → Option (Result Failure (Answer (List MemberView × Bytes)))
unfolding from_little_endian is_within_minute
token_answer token now_seconds =
    if not (length token == 8)
    then some (err invalid_argument)
    else if is_within_minute (from_little_endian token) now_seconds
    then some (ok not_found)
    else none

refresh_members : Bytes → Bytes → Time → Backend → Result Failure (Answer (List MemberView × Bytes))
unfolding little_endian
refresh_members chat_id user_id now_seconds s =
    elim (get_metadata_with_members chat_id (some user_id) s) [
      | err no_such_chat ↦ ok not_found
      | err read_failed ↦ err invalid_argument
      | err nil_pointer ↦ err panicked
      | ok (md, members) ↦ ok (done (members, little_endian 8 now_seconds))
    ]

unfoldable pub get_member_updates :
    Bytes
    → Option Bytes
    → Bytes
    → Time
    → Backend
    → Result Failure (Answer (List MemberView × Bytes))
unfolding token_answer refresh_members
get_member_updates chat_id paging_token user_id now_seconds s = elim (paging_token) [
  | none ↦ refresh_members chat_id user_id now_seconds s
  | some token ↦ elim (token_answer token now_seconds) [
    | some answer ↦ answer
    | none ↦ refresh_members chat_id user_id now_seconds s
  ]
]
