-- ===== src/Chat/Postgres/Examples.antt =====
-- A chat in a table, and a muted member who leaves it and comes back.
use flipchat_server.Chat.{group, Member}
use flipchat_server.Chat.Postgres.{
  ChatRow, ChatTable, MemberTable, member_key_eq, member_key_discrete, to_member_model,
}
use flipchat_server.Chat.Postgres.Members.{
  db_add, add_member, find_live, is_live, update_member, set_mute_state, is_user_muted,
  remove_member, is_user_muted-add_member,
}
use flipchat_server.Postgres.Encoding.{encode, encode_as}
use flipchat_server.Postgres.Examples.{plain}
use flipchat_server.Postgres.Lists.{list_table}
use flipchat_server.Base.{
  Bytes, bytes_eq, bytes_discrete, ok, ◌≡◌, refl, true, false, none, [], ◌∷◌,
}

abbrev chats : ChatTable
chats = list_table (λ r. r.id)

abbrev members : MemberTable
members = list_table (λ r. r.key)

abbrev room : Bytes
room = 5 ∷ []

abbrev chat_row : ChatRow
chat_row = record {
  id = encode plain room;
  display_name = none;
  room_number = 1;
  cover_charge = 0;
  kind = group;
  is_open = true;
  description = none;
  created_by = [];
  last_activity_at = 20;
}

abbrev chat_rows : chats.State
chat_rows = chats.upsert chat_row (λ r. r) chats.empty

abbrev member : Member
member = record {
  user_id = 1 ∷ [];
  added_by = none;
  is_push_enabled = true;
  is_muted = false;
  has_mod_permission = false;
  has_send_permission = true;
  is_soft_deleted = false;
}

abbrev muted_once : members.State
muted_once =
    let added = (add_member plain chats members chat_rows room member members.empty).1 in
    (set_mute_state plain chats members room member.user_id true added).1

muted : is_user_muted plain chats members room member.user_id muted_once ≡ ok true
unfolding is_user_muted find_live add_member set_mute_state update_member db_add is_live list_table
    to_member_model member_key_discrete encode_as bytes_discrete
muted = refl

is_user_muted-add_member_example :
    let left = remove_member plain chats members room member.user_id muted_once in
    is_user_muted plain chats members room member.user_id
      (add_member plain chats members chat_rows room member left).1
    ≡ ok true
is_user_muted-add_member_example =
    is_user_muted-add_member plain chats members chat_rows room member muted_once muted
