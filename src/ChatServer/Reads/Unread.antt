-- ===== src/ChatServer/Reads/Unread.antt =====
-- chat/server.go: the bound on unread counts, and the paging token of member updates.
use flipchat_server.Messaging.Unread.{no_limit}
use flipchat_server.Backend.{Backend, done, not_found}
use flipchat_server.Event.{MemberView}
use flipchat_server.Messaging.{count_unread, get_pointers}
use flipchat_server.ChatServer.Reads.{
  read_pointer, get_unread_count, unix_to_internal, is_within_minute, token_answer, refresh_members,
  get_member_updates,
}
use flipchat_server.Base.{
  ltb, if◌then◌else◌, Bytes, ok, Time, little_endian, length-little_endian,
  from_little_endian-little_endian, ◌+◌, ◌^◌, ◌<◌, min, ◌≡◌, Option, none, some, List, arith,
}

-- The unread count of a caller is the number of unread messages cut at 99, with the mark that
-- there are more set exactly where there are more.
pub get_unread_count-count_unread :
    (c u : Bytes) (read_ptr : Option Bytes) (s : Backend)
    → let last_read : Option Bytes = elim read_ptr [
      | none ↦ read_pointer (get_pointers c u s.messages)
      | some id ↦ some id
    ] in
      let all = count_unread c u last_read no_limit s.messages in
      let (n, more) = get_unread_count c u read_ptr s in (n ≡ min 99 all) × (more ≡ ltb 99 all)
unfolding get_unread_count count_unread
get_unread_count-count_unread c u read_ptr s = (ground arith, ground arith)

refreshed_token :
    (c u : Bytes) (t : Time) (s : Backend) (views : List MemberView) (token : Bytes)
    → refresh_members c u t s ≡ ok (done (views, token))
    → token ≡ little_endian 8 t
unfolding refresh_members
refreshed_token c u t s views token h = ground arith

returned_token :
    (c u : Bytes) (p : Option Bytes) (t : Time) (s : Backend) (views : List MemberView)
    (token : Bytes)
    → get_member_updates c p u t s ≡ ok (done (views, token))
    → token ≡ little_endian 8 t
unfolding get_member_updates token_answer
returned_token c u p t s views token h = ground (arith, refreshed_token c u t s views token)

-- The paging token that `GetMemberUpdates` answers with, at a time that `time.Unix` can hold, is
-- accepted by every call that it is given to: until a minute after the first call the answer is "not
-- found", and from then on it is that of a call without a token.
pub get_member_updates-token :
    (c u : Bytes) (p : Option Bytes) (t : Time) (s : Backend) (views : List MemberView)
    (token c' u' : Bytes) (now : Time) (s' : Backend)
    → get_member_updates c p u t s ≡ ok (done (views, token))
    → t + unix_to_internal < 2 ^ 63
    → get_member_updates c' (some token) u' now s'
      ≡ (if ltb now (t + 60) then ok not_found else get_member_updates c' none u' now s')
unfolding get_member_updates token_answer is_within_minute
get_member_updates-token c u p t s views token c' u' now s' h bound =
    let same = returned_token c u p t s views token h in
    ground
      (arith, same, length-little_endian 8 t, from_little_endian-little_endian 8 t (omega arith))
