-- ===== src/Chat/Members/Index.antt =====
-- chat/memory/store.go: the index from users to chats lists exactly the memberships that are not
-- soft deleted, whatever the operations.
use flipchat_server.Base.{
  ltb, if◌then◌else◌, ◌==◌, Bytes, bytes_eq, lookup, lookup-insert, lookup_or, adjust,
  lookup-adjust, insert_sorted, sort, count, count-append, contains_iff_count, Result, ℕ, suc, ◌+◌,
  ◌-◌, ◌≤◌, ◌≡◌, refl, true, false, not, ◌&&◌, ◌||◌, List, [], ◌∷◌, ◌++◌, arith,
}
use flipchat_server.Chat.{ChatError, Member, Store, new_in_memory}
use flipchat_server.Chat.Members.{
  members_of, any_active, has_user, update_member, before, revive, readd_member, append_member,
  add_member, retire, delete_first, remove_member, update_flag,
}

abbrev pub count_user : Bytes → List Member → ℕ
count_user u [] = 0
count_user u (m ∷ ms) = if m.user_id == u then suc (count_user u ms) else count_user u ms

-- A chat holds a user once, and a user's chats are those where the user is an active member, each
-- listed once.
pub record IsValid (s : Store) : Type 0 where
  pub one : (c u : Bytes) → count_user u (members_of c s) ≤ 1
  pub agree :
      (c u : Bytes)
      → count c (lookup_or u [] s.chats_by_member)
        ≡ (if any_active u (members_of c s) then 1 else 0)

pub new_in_memory-IsValid : IsValid new_in_memory
unfolding lookup any_active
new_in_memory-IsValid = record { one = λ c u. omega arith; agree = λ c u. refl }

module _ (u : Bytes) where
  any_active-insert_sorted :
      (m : Member) (ms : List Member)
      → any_active u (insert_sorted before m ms) ≡ any_active u (m ∷ ms)
  unfolding any_active insert_sorted
  any_active-insert_sorted m [] = refl
  any_active-insert_sorted m (x ∷ ms) = ground (arith, any_active-insert_sorted m ms)

  any_active-sort : (ms : List Member) → any_active u (sort before ms) ≡ any_active u ms
  unfolding any_active sort
  any_active-sort [] = refl
  any_active-sort (m ∷ ms) =
      ground (arith, any_active-sort ms, any_active-insert_sorted m (sort before ms))

  any_active-append :
      (ms ns : List Member) → any_active u (ms ++ ns) ≡ (any_active u ms || any_active u ns)
  unfolding any_active
  any_active-append [] ns = refl
  any_active-append (m ∷ ms) ns = ground (arith, any_active-append ms ns)

  count_user-insert_sorted :
      (m : Member) (ms : List Member)
      → count_user u (insert_sorted before m ms) ≡ count_user u (m ∷ ms)
  unfolding insert_sorted
  count_user-insert_sorted m [] = refl
  count_user-insert_sorted m (x ∷ ms) = ground (arith, count_user-insert_sorted m ms)

  count_user-sort : (ms : List Member) → count_user u (sort before ms) ≡ count_user u ms
  unfolding sort
  count_user-sort [] = refl
  count_user-sort (m ∷ ms) =
      ground (arith, count_user-sort ms, count_user-insert_sorted m (sort before ms))

  count_user-append :
      (ms ns : List Member) → count_user u (ms ++ ns) ≡ count_user u ms + count_user u ns
  count_user-append [] ns = omega arith
  count_user-append (m ∷ ms) ns = ground (arith, count_user-append ms ns)

  pub has_user_iff_count : (ms : List Member) → has_user u ms ≡ ltb 0 (count_user u ms)
  unfolding has_user
  has_user_iff_count [] = ground arith
  has_user_iff_count (m ∷ ms) = ground (arith, has_user_iff_count ms)

  any_active_absent : (ms : List Member) → has_user u ms ≡ false → any_active u ms ≡ false
  unfolding has_user any_active
  any_active_absent [] h = refl
  any_active_absent (m ∷ ms) h = ground (arith, any_active_absent ms)

  module _ (w : Bytes) where
    any_active-revive :
        (new : Member) (ms : List Member)
        → any_active u (update_member w (revive new) ms)
          ≡ ((has_user w ms && (w == u)) || any_active u ms)
    unfolding any_active update_member revive has_user
    any_active-revive new [] = refl
    any_active-revive new (m ∷ ms) = ground (arith, any_active-revive new ms)

    pub any_active-retire :
        (ms : List Member)
        → count_user w ms ≤ 1
        → any_active u (update_member w retire ms) ≡ (any_active u ms && not (w == u))
    unfolding any_active update_member retire
    any_active-retire [] h = refl
    any_active-retire (m ∷ ms) h =
        ground (arith, any_active-retire ms, has_user_iff_count ms, any_active_absent ms)

    count_user-update :
        (f : Member → Member) (ms : List Member)
        → ((m : Member) → (f m).user_id ≡ m.user_id)
        → count_user u (update_member w f ms) ≡ count_user u ms
    unfolding update_member
    count_user-update f [] keeps = refl
    count_user-update f (m ∷ ms) keeps = ground (arith, keeps m, count_user-update f ms keeps)

    any_active-update :
        (f : Member → Member) (ms : List Member)
        → ((m : Member) → (f m).user_id ≡ m.user_id)
        → ((m : Member) → (f m).is_soft_deleted ≡ m.is_soft_deleted)
        → any_active u (update_member w f ms) ≡ any_active u ms
    unfolding any_active update_member
    any_active-update f [] keeps same = refl
    any_active-update f (m ∷ ms) keeps same =
        ground (arith, keeps m, same m, any_active-update f ms keeps same)

count-delete_first :
    (c d : Bytes) (ds : List Bytes)
    → count c (delete_first d ds) ≡ count c ds - (if d == c then 1 else 0)
unfolding delete_first
count-delete_first c d [] = ground arith
count-delete_first c d (x ∷ ds) = ground (arith, count-delete_first c d ds, contains_iff_count c ds)

-- The members of a chat after a change in place to a member of one chat.
pub members_of-update :
    (c d u : Bytes) (f : Member → Member) (s : Store)
    → lookup_or d [] (adjust c (update_member u f) s.members)
      ≡ (if c == d then update_member u f (members_of d s) else members_of d s)
unfolding update_member
members_of-update c d u f s = ground (arith, lookup-adjust c d (update_member u f) s.members)

chats_of-delete :
    (c u w : Bytes) (s : Store)
    → lookup_or w [] (adjust u (delete_first c) s.chats_by_member)
      ≡ (let cs = lookup_or w [] s.chats_by_member in if u == w then delete_first c cs else cs)
unfolding delete_first
chats_of-delete c u w s = ground (arith, lookup-adjust u w (delete_first c) s.chats_by_member)

module _ (c : Bytes) (m : Member) (s : Store) (v : IsValid s) where
  readd_member-IsValid : has_user m.user_id (members_of c s) ≡ true → IsValid (readd_member c m s)
  unfolding readd_member revive
  readd_member-IsValid h =
      let cs = lookup_or m.user_id [] s.chats_by_member in
      record {
        one = λ d u. ground (
          arith,
          members_of-update c d m.user_id (revive m) s,
          count_user-update u m.user_id (revive m) (members_of d s) (λ n. refl),
          v.one d u,
        );
        agree = λ d u. ground (
          arith,
          members_of-update c d m.user_id (revive m) s,
          any_active-revive u m.user_id m (members_of d s),
          lookup-insert m.user_id u (cs ++ c ∷ []) s.chats_by_member,
          count-append d cs (c ∷ []),
          contains_iff_count c cs,
          v.agree d u,
          v.agree c m.user_id,
        );
      }

  append_member-IsValid :
      has_user m.user_id (members_of c s) ≡ false
      → m.is_soft_deleted ≡ false
      → IsValid (append_member c m s)
  unfolding append_member any_active
  append_member-IsValid h live =
      let ms = members_of c s in
      let new : Member = record m { is_push_enabled = true } in
      let cs = lookup_or m.user_id [] s.chats_by_member in
      record {
        one = λ d u. ground (
          arith,
          lookup-insert c d (sort before (ms ++ new ∷ [])) s.members,
          count_user-sort u (ms ++ new ∷ []),
          count_user-append u ms (new ∷ []),
          has_user_iff_count m.user_id ms,
          v.one d u,
        );
        agree = λ d u. ground (
          arith,
          lookup-insert c d (sort before (ms ++ new ∷ [])) s.members,
          any_active-sort u (ms ++ new ∷ []),
          any_active-append u ms (new ∷ []),
          any_active_absent m.user_id ms,
          lookup-insert m.user_id u (cs ++ c ∷ []) s.chats_by_member,
          count-append d cs (c ∷ []),
          v.agree d u,
        );
      }

module _ (c u : Bytes) (s : Store) (v : IsValid s) where
  pub remove_member-IsValid : IsValid (remove_member c u s)
  unfolding remove_member retire
  remove_member-IsValid = record {
    one = λ d w. ground (
      arith,
      members_of-update c d u retire s,
      count_user-update w u retire (members_of d s) (λ m. refl),
      v.one d w,
    );
    agree = λ d w. ground (
      arith,
      members_of-update c d u retire s,
      chats_of-delete c u w s,
      any_active-retire w u (members_of d s),
      count-delete_first d c (lookup_or w [] s.chats_by_member),
      v.one d u,
      v.agree d w,
    );
  }

pub add_member-IsValid :
    (c : Bytes) (m : Member) (s : Store) → IsValid s → IsValid (add_member c m s).1
unfolding add_member
add_member-IsValid c m s v =
    ground (arith, readd_member-IsValid c m s v, append_member-IsValid c m s v)

pub update_flag-IsValid :
    (gone : Result ChatError (Unit {0})) (c u : Bytes) (f : Member → Member) (s : Store)
    → IsValid s
    → ((m : Member) → (f m).user_id ≡ m.user_id)
    → ((m : Member) → (f m).is_soft_deleted ≡ m.is_soft_deleted)
    → IsValid (update_flag gone c u f s).1
unfolding update_flag
update_flag-IsValid gone c u f s v keeps same = record {
  one = λ d w. ground (
    arith,
    members_of-update c d u f s,
    count_user-update w u f (members_of d s) keeps,
    v.one d w,
  );
  agree = λ d w. ground (
    arith,
    members_of-update c d u f s,
    any_active-update w u f (members_of d s) keeps same,
    v.agree d w,
  );
}

-- The operations on chats leave the members and the index alone.
pub same_members-IsValid :
    (s s' : Store)
    → s'.members ≡ s.members
    → s'.chats_by_member ≡ s.chats_by_member
    → IsValid s
    → IsValid s'
same_members-IsValid s s' p q v = record {
  one = λ c u. ground (arith, v.one c u);
  agree = λ c u. ground (arith, v.agree c u);
}
