-- ===== src/Chat/Postgres/Members.antt =====
-- chat/postgres/model.go, chat/postgres/store.go: the members of chats, by their rows.
use flipchat_server.Chat.{Member}
use flipchat_server.Chat.Members.{before}
use flipchat_server.Chat.Postgres.{
  MemberKey, MemberRow, MemberTable, ChatTable, StoreError, chat_not_found, member_not_found,
  unique_violation, foreign_key_violation, member_key_eq, member_key, decode_bytes, to_member_model,
  from_member_model,
}
use flipchat_server.Postgres.Encoding.{Codecs, encode}
use flipchat_server.Base.{
  if◌then◌else◌, Option-cases, inl, inr, ◌==◌, ==_refl, nat_eq, bytes_eq, Bytes, length, has_value,
  sort, Result, ok, err, ◌>>=◌, Bool, true, false, not, ◌&&◌, Option, none, some, List, [], ◌∷◌,
  ◌≡◌, refl, arith,
}

module _ (codecs : Codecs) (chats : ChatTable) (members : MemberTable) where
  -- The row that `INSERT` writes.
  abbrev inserted : MemberRow → MemberRow
  inserted r = record r { is_push_enabled = true; is_soft_deleted = false }

  -- What `UPDATE` makes of a row that is deleted.
  abbrev revived : MemberRow → MemberRow → MemberRow
  revived r x = record r {
    key = x.key;
    is_muted = x.is_muted;
    is_push_enabled = true;
    is_soft_deleted = false;
  }

  -- `dbAdd`, with the chats at that moment, to which the rows of members refer.
  unfoldable pub db_add :
      chats.State → MemberRow → members.State → Result StoreError (Unit {0}) × members.State
  db_add chat_rows r t = elim (members.find r.key t) [
    | none ↦
        if not (has_value (chats.find r.key.chat_id chat_rows))
        then (err foreign_key_violation, t)
        else elim (members.insert (inserted r) t) [
          | none ↦ (err unique_violation, t)
          | some t' ↦ (ok tt, t')
        ]
    | some existing ↦
        if existing.is_soft_deleted
        then (ok tt, (members.update (λ x. x.key == r.key) (revived r) t).1)
        else (ok tt, t)
  ]

  -- `AddMember`
  unfoldable pub add_member :
      chats.State → Bytes → Member → members.State → Result StoreError (Unit {0}) × members.State
  add_member chat_rows chat_id m t = db_add chat_rows (to_member_model codecs chat_id m) t

  -- `WHERE "chatId" = $1 AND "userId" = $2 AND NOT "isSoftDeleted"`
  unfoldable pub is_live : MemberKey → MemberRow → Bool
  is_live k r = r.key == k && not r.is_soft_deleted

  -- `dbGetMember`: the row that is live under a key.
  unfoldable pub find_live : MemberKey → members.State → Option MemberRow
  find_live k t = elim (members.find k t) [
    | none ↦ none
    | some r ↦ if r.is_soft_deleted then none else some r
  ]

  -- `GetMember`: a user who is no member is told that there is no chat.
  pub get_member : Bytes → Bytes → members.State → Result StoreError Member
  get_member chat_id user_id t = elim (find_live (member_key codecs chat_id user_id) t) [
    | none ↦ err chat_not_found
    | some r ↦ from_member_model codecs r
  ]

  from_members : List MemberRow → Result StoreError (List Member)
  from_members [] = ok []
  from_members (r ∷ rs) =
      let rest = from_members rs in from_member_model codecs r >>= λ m. rest >>= λ ms. ok (m ∷ ms)

  -- `GetMembers`
  pub get_members : Bytes → members.State → Result StoreError (List Member)
  unfolding from_members
  get_members chat_id t =
      let live =
        λ (r : MemberRow). r.key.chat_id == encode codecs chat_id && not r.is_soft_deleted in
      from_members (members.select live t) >>= λ ms. ok (sort before ms)

  decode_chat_ids : List MemberRow → Result StoreError (List Bytes)
  decode_chat_ids [] = ok []
  decode_chat_ids (r ∷ rs) =
      let rest = decode_chat_ids rs in
      decode_bytes codecs r.key.chat_id >>= λ id. rest >>= λ ids. ok (id ∷ ids)

  -- `dbGetChatsForUser`
  pub get_chats_for_user : Bytes → members.State → Result StoreError (List Bytes)
  unfolding decode_chat_ids
  get_chats_for_user user_id t =
      let live =
        λ (r : MemberRow). r.key.user_id == encode codecs user_id && not r.is_soft_deleted in
      decode_chat_ids (members.select live t)

  -- `dbIsMember`, by a count.
  unfoldable pub is_member : Bytes → Bytes → members.State → Bool
  is_member chat_id user_id t =
      length (members.select (is_live (member_key codecs chat_id user_id)) t) == 1

  abbrev removed : MemberRow → MemberRow
  removed r = record r {
    is_soft_deleted = true;
    added_by_id = none;
    is_push_enabled = true;
    has_mod_permission = false;
    has_send_permission = false;
  }

  -- `dbRemoveMember`, which does not tell whether there was a member.
  unfoldable pub remove_member : Bytes → Bytes → members.State → members.State
  remove_member chat_id user_id t =
      (members.update (is_live (member_key codecs chat_id user_id)) removed t).1

  -- An `UPDATE` of a live member, which there has to be.
  unfoldable pub update_member :
      Bytes
      → Bytes
      → (MemberRow → MemberRow)
      → members.State
      → Result StoreError (Unit {0}) × members.State
  update_member chat_id user_id set t =
      let (rows_affected, t') =
        members.update (is_live (member_key codecs chat_id user_id)) set t in
      (if rows_affected == 0 then err member_not_found else ok tt, t')

  -- `dbSetMuteState`
  unfoldable pub set_mute_state :
      Bytes → Bytes → Bool → members.State → Result StoreError (Unit {0}) × members.State
  set_mute_state chat_id user_id is_muted =
      update_member chat_id user_id (λ r. record r { is_muted = is_muted })

  -- `dbSetSendPermission`
  unfoldable pub set_send_permission :
      Bytes → Bytes → Bool → members.State → Result StoreError (Unit {0}) × members.State
  set_send_permission chat_id user_id has_send_permission =
      update_member chat_id user_id (λ r. record r { has_send_permission = has_send_permission })

  -- `dbSetPushState`
  unfoldable pub set_push_state :
      Bytes → Bytes → Bool → members.State → Result StoreError (Unit {0}) × members.State
  set_push_state chat_id user_id is_push_enabled =
      update_member chat_id user_id (λ r. record r { is_push_enabled = is_push_enabled })

  -- `dbIsUserMuted`
  unfoldable pub is_user_muted : Bytes → Bytes → members.State → Result StoreError Bool
  is_user_muted chat_id user_id t = elim (find_live (member_key codecs chat_id user_id) t) [
    | none ↦ err member_not_found
    | some r ↦ ok r.is_muted
  ]

  -- `dbHasSendPermission`
  unfoldable pub has_send_permission : Bytes → Bytes → members.State → Result StoreError Bool
  has_send_permission chat_id user_id t = elim (find_live (member_key codecs chat_id user_id) t) [
    | none ↦ err member_not_found
    | some r ↦ ok r.has_send_permission
  ]

  -- `dbIsPushEnabled`, which reads the row of a member who has left as well.
  unfoldable pub is_push_enabled : Bytes → Bytes → members.State → Result StoreError Bool
  is_push_enabled chat_id user_id t = elim (members.find (member_key codecs chat_id user_id) t) [
    | none ↦ err member_not_found
    | some r ↦ ok r.is_push_enabled
  ]

  has_key :
      (k : MemberKey) (t : members.State) (r : MemberRow)
      → members.find k t ≡ some r
      → (r.key == k) ≡ true
  has_key k t r there = rw (members.find_key k r t there) (==_refl k)

  find_live-find :
      (k : MemberKey) (t : members.State) (r : MemberRow)
      → find_live k t ≡ some r
      → (members.find k t ≡ some r) × (r.is_soft_deleted ≡ false)
  unfolding find_live
  find_live-find k t r live = (ground arith, ground arith)

  find_live-remove_member :
      (c u : Bytes) (t : members.State) (r : MemberRow)
      → find_live (member_key codecs c u) t ≡ some r
      → members.find (member_key codecs c u) (remove_member c u t) ≡ some (removed r)
  unfolding remove_member is_live
  find_live-remove_member c u t r live =
      let k = member_key codecs c u in
      let (there, stays) = find_live-find k t r live in
      ground (
        arith,
        there,
        stays,
        has_key k t r there,
        members.find-update k (is_live k) removed t (λ x. refl),
      )

  add_member-find_live :
      (chat_rows : chats.State) (c : Bytes) (m : Member) (t : members.State) (r : MemberRow)
      → members.find (member_key codecs c m.user_id) t ≡ some r
      → r.is_soft_deleted ≡ true
      → find_live (member_key codecs c m.user_id) (add_member chat_rows c m t).1
        ≡ some (revived (to_member_model codecs c m) r)
  unfolding find_live add_member db_add to_member_model
  add_member-find_live chat_rows c m t r there deleted =
      let row = to_member_model codecs c m in
      let k = member_key codecs c m.user_id in
      ground (
        arith,
        has_key k t r there,
        members.find-update k (λ x. x.key == k) (revived row) t (λ x. refl),
      )

  -- A member who is muted, leaves the chat and is added again is muted still, whatever the row
  -- that adds them says.
  pub is_user_muted-add_member :
      (chat_rows : chats.State) (c : Bytes) (m : Member) (t : members.State)
      → is_user_muted c m.user_id t ≡ ok true
      → is_user_muted c m.user_id (add_member chat_rows c m (remove_member c m.user_id t)).1
        ≡ ok true
  unfolding is_user_muted
  is_user_muted-add_member chat_rows c m t muted =
      let k = member_key codecs c m.user_id in
      elim (Option-cases (find_live k t)) [
        | inl absent ↦ absurd (ground (arith, muted))
        | inr (r, live) ↦ ground (
          arith,
          muted,
          add_member-find_live chat_rows c m (remove_member c m.user_id t) (removed r)
              (find_live-remove_member c m.user_id t r live) refl,
        )
      ]
