-- ===== src/Chat/Members/Flags.antt =====
-- chat/memory/store.go: what the setters of a member's flags change, and what the readers of the
-- flags answer.
use mathlib.Core.Option
use flipchat_server.Base.{
  if◌then◌else◌, ◌==◌, has_value, Bytes, bytes_eq, keep, Result, ok, err, map_result, ◌≤◌, ◌≡◌,
  refl, Bool, true, false, ◌&&◌, none, some, List, [], ◌∷◌, ◌++◌, arith,
}
use flipchat_server.Chat.{ChatError, member_not_found, Member, Store}
use flipchat_server.Chat.Members.{
  members_of, find_active, get_member, any_active, is_member, has_user, update_member, find_user,
  update_flag, with_muted, with_send_permission, with_push_enabled, set_mute_state,
  set_send_permission, set_push_state, read_flag, is_user_muted, has_send_permission,
  is_push_enabled,
}
use flipchat_server.Chat.Members.Index.{count_user, IsValid, has_user_iff_count, members_of-update}

find_active_absent :
    (u : Bytes) (ms : List Member) → has_user u ms ≡ false → find_active u ms ≡ none
unfolding find_active has_user
find_active_absent u [] h = refl
find_active_absent u (m ∷ ms) h = ground (arith, find_active_absent u ms)

-- Where a user is listed once, the active member is the first one listed, unless soft deleted.
find_active-find_user :
    (u : Bytes) (ms : List Member)
    → count_user u ms ≤ 1
    → find_active u ms
      ≡ elim (find_user u ms) [ none ↦ none | some m ↦ if m.is_soft_deleted then none else some m ]
unfolding find_active find_user
find_active-find_user u [] h = refl
find_active-find_user u (m ∷ ms) h =
    ground (arith, find_active-find_user u ms, has_user_iff_count u ms, find_active_absent u ms)

pub any_active-find_active :
    (u : Bytes) (ms : List Member) → any_active u ms ≡ has_value (find_active u ms)
unfolding find_active any_active
any_active-find_active u [] = refl
any_active-find_active u (m ∷ ms) = ground (arith, any_active-find_active u ms)

has_user-find_user : (u : Bytes) (ms : List Member) → has_user u ms ≡ has_value (find_user u ms)
unfolding has_user find_user
has_user-find_user u [] = refl
has_user-find_user u (m ∷ ms) = ground (arith, has_user-find_user u ms)

module _ (u : Bytes) (f : Member → Member) (keeps : (m : Member) → (f m).user_id ≡ m.user_id)
    (same : (m : Member) → (f m).is_soft_deleted ≡ m.is_soft_deleted) where
  find_active-update :
      (w : Bytes) (ms : List Member)
      → count_user u ms ≤ 1
      → find_active w (update_member u f ms)
        ≡ (let found = find_active w ms in if u == w then Option.map f found else found)
  unfolding find_active update_member
  find_active-update w [] h = ground arith
  find_active-update w (m ∷ ms) h = ground (
    arith,
    keeps m,
    same m,
    find_active-update w ms,
    has_user_iff_count u ms,
    find_active_absent u ms,
  )

  module _ (gone : Result ChatError (Unit {0})) (c : Bytes) (s : Store) (v : IsValid s) where
    get_member-update_flag :
        (d w : Bytes)
        → get_member d w (update_flag gone c u f s).1 ≡ (
            let found = get_member d w s in
            if c == d && (u == w) then map_result f found else found)
    unfolding update_flag get_member
    get_member-update_flag d w = ground (
      arith,
      members_of-update c d u f s,
      find_active-update w (members_of d s),
      find_active-find_user u (members_of c s),
      v.one c u,
      v.one d u,
    )

    update_flag_result : (update_flag gone c u f s).0 ≡ (
        if is_member c u s
        then ok tt
        else if has_user u (members_of c s)
        then gone
        else err member_not_found)
    unfolding update_flag is_member
    update_flag_result = ground (
      arith,
      any_active-find_active u (members_of c s),
      find_active-find_user u (members_of c s),
      has_user-find_user u (members_of c s),
      v.one c u,
    )

module _ (c u : Bytes) (b : Bool) (s : Store) (v : IsValid s) (d w : Bytes) where
  -- In a valid store, `SetMuteState` succeeds exactly for an active member, and then changes the
  -- mute flag of that member of that chat only; otherwise it reports that the member is not found
  -- and no member is changed.
  pub get_member-set_mute_state :
      let (r, s') = set_mute_state c u b s in
      (r ≡ (if is_member c u s then ok tt else err member_not_found))
      × (get_member d w s' ≡ (
          let found = get_member d w s in
          if c == d && (u == w) then map_result (with_muted b) found else found))
  unfolding set_mute_state
  get_member-set_mute_state = (
    ground (
      arith,
      update_flag_result u (with_muted b) (λ m. refl) (λ m. refl) (err member_not_found) c s v,
    ),
    get_member-update_flag u (with_muted b) (λ m. refl) (λ m. refl) (err member_not_found) c s v d
        w,
  )

  -- In a valid store, `SetPushState` succeeds exactly for an active member, and then changes the
  -- push flag of that member of that chat only; otherwise it reports that the
  -- member is not found and no member is changed.
  pub get_member-set_push_state :
      let (r, s') = set_push_state c u b s in
      (r ≡ (if is_member c u s then ok tt else err member_not_found))
      × (get_member d w s' ≡ (
          let found = get_member d w s in
          if c == d && (u == w) then map_result (with_push_enabled b) found else found))
  unfolding set_push_state
  get_member-set_push_state = (
    ground (
      arith,
      update_flag_result u (with_push_enabled b) (λ m. refl) (λ m. refl) (err member_not_found) c s
          v,
    ),
    get_member-update_flag u (with_push_enabled b) (λ m. refl) (λ m. refl) (err member_not_found) c
        s v d w,
  )

  -- In a valid store, `SetSendPermission` changes the permission of an active member, does nothing
  -- and succeeds for a soft deleted one, and fails only for a user whom the chat never had.
  pub get_member-set_send_permission :
      let (r, s') = set_send_permission c u b s in
      (r ≡ (if has_user u (members_of c s) then ok tt else err member_not_found))
      × (get_member d w s' ≡ (
          let found = get_member d w s in
          if c == d && (u == w) then map_result (with_send_permission b) found else found))
  unfolding set_send_permission is_member
  get_member-set_send_permission = (
    ground (
      arith,
      update_flag_result u (with_send_permission b) (λ m. refl) (λ m. refl) (ok tt) c s v,
      has_user-find_user u (members_of c s),
      any_active-find_active u (members_of c s),
      find_active-find_user u (members_of c s),
      v.one c u,
    ),
    get_member-update_flag u (with_send_permission b) (λ m. refl) (λ m. refl) (ok tt) c s v d w,
  )

-- In a valid store `IsPushEnabled` reports the flag of the member that `GetMember` finds, and the
-- same error.
pub is_push_enabled-get_member :
    (c u : Bytes) (s : Store)
    → IsValid s
    → is_push_enabled c u s ≡ map_result (λ m. m.is_push_enabled) (get_member c u s)
unfolding is_push_enabled get_member
is_push_enabled-get_member c u s v =
    ground (arith, find_active-find_user u (members_of c s), v.one c u)

read_flag_live :
    (flag : Member → Bool) (u : Bytes) (ms : List Member)
    → keep (λ m. m.is_soft_deleted) ms ≡ []
    → read_flag flag u ms
      ≡ elim (find_active u ms) [ none ↦ err member_not_found | some m ↦ ok (flag m) ]
unfolding read_flag find_active keep
read_flag_live flag u [] h = refl
read_flag_live flag u (m ∷ ms) h = ground (arith, read_flag_live flag u ms)

-- In a chat from which nobody was removed, `IsUserMuted` and `HasSendPermission` report the flags
-- of the member that `GetMember` finds, and the same error.
pub is_user_muted-get_member :
    (c u : Bytes) (s : Store)
    → keep (λ m. m.is_soft_deleted) (members_of c s) ≡ []
    → (is_user_muted c u s ≡ map_result (λ m. m.is_muted) (get_member c u s))
      × (has_send_permission c u s ≡ map_result (λ m. m.has_send_permission) (get_member c u s))
unfolding is_user_muted has_send_permission get_member
is_user_muted-get_member c u s h = (
  ground (arith, read_flag_live (λ m. m.is_muted) u (members_of c s) h),
  ground (arith, read_flag_live (λ m. m.has_send_permission) u (members_of c s) h),
)

read_flag_hidden :
    (flag : Member → Bool) (u : Bytes) (m : Member) (xs ys : List Member)
    → has_user u xs ≡ false
    → m.is_soft_deleted ≡ true
    → read_flag flag u (xs ++ m ∷ ys) ≡ err member_not_found
unfolding read_flag has_user
read_flag_hidden flag u m [] ys absent deleted = ground arith
read_flag_hidden flag u m (x ∷ xs) ys absent deleted =
    ground (arith, read_flag_hidden flag u m xs ys)

-- Once a soft deleted member stands in a chat's list, `IsUserMuted` and `HasSendPermission` report
-- "member not found" for every user whose entry does not stand before it, active members included.
pub is_user_muted_hidden :
    (c u : Bytes) (m : Member) (xs ys : List Member) (s : Store)
    → members_of c s ≡ xs ++ m ∷ ys
    → m.is_soft_deleted ≡ true
    → has_user u xs ≡ false
    → (is_user_muted c u s ≡ err member_not_found)
      × (has_send_permission c u s ≡ err member_not_found)
unfolding is_user_muted has_send_permission
is_user_muted_hidden c u m xs ys s e deleted absent = (
  ground (arith, read_flag_hidden (λ n. n.is_muted) u m xs ys absent deleted),
  ground (arith, read_flag_hidden (λ n. n.has_send_permission) u m xs ys absent deleted),
)
