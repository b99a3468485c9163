-- ===== src/Account/Keys.antt =====
-- account/memory/store.go: the two indexes of the key bindings agree after every operation.
use flipchat_server.Base.{
  if◌then◌else◌, ◌==◌, Option-cases, Bytes, bytes_eq, lookup, lookup-insert, lookup-erase, has,
  lookup_or, keep, contains, contains-append, contains-keep_ne, ok, err, Time, ◌≡◌, refl, ◌↔◌, inl,
  inr, Bool, true, false, not, ◌&&◌, Option, none, some, List, [], ◌∷◌, ◌++◌, arith,
}
use flipchat_server.Account.{
  not_found, Store, new_in_memory, add_key, bind, get_user_id, unbind_key, remove_key,
  is_authorized, set_registration_flag, set_next_airdrop, batch_set_next_airdrop_timestamp,
  extend_airdrop_eligibility, Call, binds, removes, flags, schedules, extends, step, run,
}

-- Whether a key's entry names the user.
abbrev pub names : Bytes → Option Bytes → Bool
names u none = false
names u (some w) = w == u

-- A key is listed under a user exactly when it is bound to that user, and only users with an
-- entry of keys are registered or have airdrop times.
pub record IsValid (m : Store) : Type 0 where
  pub agree : (u k : Bytes) → contains k (lookup_or u [] m.users) ≡ names u (lookup k m.keys)
  pub known : (u : Bytes) → has u m.registered_users ≡ true → has u m.users ≡ true
  pub timed : (u : Bytes) → has u m.next_airdrop ≡ has u m.users
  pub eligible : (u : Bytes) → has u m.airdrop_eligibility ≡ has u m.users

pub new_in_memory-IsValid : IsValid new_in_memory
unfolding lookup contains
new_in_memory-IsValid = record {
  agree = λ u k. refl;
  known = λ u h. cc;
  timed = λ u. refl;
  eligible = λ u. refl;
}

module _ (u k : Bytes) (now later : Time) (m : Store) (v : IsValid m) where
  add_key-agree :
      lookup k m.keys ≡ none
      → (u' k' : Bytes)
      → let m' = add_key u k now later m in
        contains k' (lookup_or u' [] m'.users) ≡ names u' (lookup k' m'.keys)
  unfolding add_key contains
  add_key-agree e u' k' = ground (
    arith,
    lookup-insert u u' (lookup_or u [] m.users ++ k ∷ []) m.users,
    lookup-insert k k' u m.keys,
    contains-append k' (lookup_or u [] m.users) (k ∷ []),
    v.agree u' k',
    v.agree u k',
  )

  add_key-IsValid : lookup k m.keys ≡ none → IsValid (add_key u k now later m)
  unfolding add_key
  add_key-IsValid e = record {
    agree = add_key-agree e;
    known = λ u' h.
        ground (arith, lookup-insert u u' (lookup_or u [] m.users ++ k ∷ []) m.users, v.known u');
    timed = λ u'. ground (
      arith,
      lookup-insert u u' (lookup_or u [] m.users ++ k ∷ []) m.users,
      lookup-insert u u' now m.next_airdrop,
      v.timed u',
    );
    eligible = λ u'. ground (
      arith,
      lookup-insert u u' (lookup_or u [] m.users ++ k ∷ []) m.users,
      lookup-insert u u' later m.airdrop_eligibility,
      v.eligible u',
    );
  }

  bind-IsValid : IsValid (bind u k now later m).1
  unfolding bind
  bind-IsValid = elim (Option-cases (lookup k m.keys)) [
    | inl e ↦ rw (e, bind) (add_key-IsValid e)
    | inr (w, e) ↦ rw (e, bind) v
  ]

module _ (u k : Bytes) (m : Store) (v : IsValid m) where
  unbind_key-IsValid : lookup k m.keys ≡ some u → IsValid (unbind_key u k m)
  unfolding unbind_key contains
  unbind_key-IsValid e =
      let rest = keep (λ x. not (x == k)) (lookup_or u [] m.users) in
      record {
        agree = λ u' k'. ground (
          arith,
          lookup-insert u u' rest m.users,
          lookup-erase k k' m.keys,
          contains-keep_ne k' k (lookup_or u [] m.users),
          v.agree u' k',
          v.agree u k',
        );
        known = λ u' h. ground (arith, lookup-insert u u' rest m.users, v.known u');
        timed = λ u'. ground (arith, lookup-insert u u' rest m.users, v.timed u', v.agree u k);
        eligible =
            λ u'. ground (arith, lookup-insert u u' rest m.users, v.eligible u', v.agree u k);
      }

  remove_key-IsValid : IsValid (remove_key u k m)
  unfolding remove_key
  remove_key-IsValid = ground (arith, unbind_key-IsValid)

module _ (u : Bytes) (m : Store) (v : IsValid m) where
  set_registration_flag-IsValid :
      (registered : Bool) → IsValid (set_registration_flag u registered m).1
  unfolding set_registration_flag
  set_registration_flag-IsValid registered = record {
    agree = λ u' k'. ground (arith, v.agree u' k');
    known = λ u' h. ground (
      arith,
      v.known u',
      lookup-insert u u' true m.registered_users,
      lookup-erase u u' m.registered_users,
    );
    timed = λ u'. ground (arith, v.timed u');
    eligible = λ u'. ground (arith, v.eligible u');
  }

  extend_airdrop_eligibility-IsValid :
      (until : Time) → IsValid (extend_airdrop_eligibility u until m).1
  unfolding extend_airdrop_eligibility
  extend_airdrop_eligibility-IsValid until = record {
    agree = λ u' k'. ground (arith, v.agree u' k');
    known = λ u' h. ground (arith, v.known u');
    timed = λ u'. ground (arith, v.timed u');
    eligible = λ u'.
        ground (arith, v.eligible u', v.eligible u, lookup-insert u u' until m.airdrop_eligibility);
  }

  set_next_airdrop-IsValid : (ts : Time) → IsValid (set_next_airdrop ts u m)
  unfolding set_next_airdrop
  set_next_airdrop-IsValid ts = record {
    agree = λ u' k'. ground (arith, v.agree u' k');
    known = λ u' h. ground (arith, v.known u');
    timed = λ u'. ground (arith, v.timed u', v.timed u, lookup-insert u u' ts m.next_airdrop);
    eligible = λ u'. ground (arith, v.eligible u');
  }

pub batch_set_next_airdrop_timestamp-IsValid :
    (ts : Time) (us : List Bytes) (m : Store)
    → IsValid m
    → IsValid (batch_set_next_airdrop_timestamp ts us m)
unfolding batch_set_next_airdrop_timestamp
batch_set_next_airdrop_timestamp-IsValid ts [] m v = v
batch_set_next_airdrop_timestamp-IsValid ts (u ∷ us) m v =
    batch_set_next_airdrop_timestamp-IsValid ts us _ (set_next_airdrop-IsValid u m v ts)

pub step-IsValid : (c : Call) (m : Store) → IsValid m → IsValid (step c m)
unfolding step
step-IsValid (binds u k now later) m v = bind-IsValid u k now later m v
step-IsValid (removes u k) m v = remove_key-IsValid u k m v
step-IsValid (flags u registered) m v = set_registration_flag-IsValid u m v registered
step-IsValid (schedules ts us) m v = batch_set_next_airdrop_timestamp-IsValid ts us m v
step-IsValid (extends u until) m v = extend_airdrop_eligibility-IsValid u m v until

-- Every sequence of writes keeps the two indexes of the key bindings in agreement, only lets
-- users who once bound a key be registered, and gives airdrop times to exactly those users.
pub run-IsValid : (cs : List Call) (m : Store) → IsValid m → IsValid (run cs m)
unfolding run
run-IsValid [] m v = v
run-IsValid (c ∷ cs) m v = run-IsValid cs (step c m) (step-IsValid c m v)

pub reached-IsValid : (cs : List Call) → IsValid (run cs new_in_memory)
reached-IsValid cs = run-IsValid cs new_in_memory new_in_memory-IsValid

-- After any sequence of writes to a new store, `IsAuthorized` accepts a user and a key exactly
-- when `GetUserId` returns that user for the key.
pub is_authorized_iff_get_user_id :
    (cs : List Call) (u k : Bytes)
    → let m = run cs new_in_memory in (is_authorized u k m ≡ true) ↔ (get_user_id k m ≡ ok u)
unfolding is_authorized get_user_id contains
is_authorized_iff_get_user_id cs u k =
    let a = (reached-IsValid cs).agree u k in (λ h. ground arith, λ h. ground arith)

-- The user to whom a key belongs after `Bind`: the one it had, or else the caller's.
abbrev pub owner_after : Bytes → Option Bytes → Bytes
owner_after u none = u
owner_after u (some w) = w

-- `Bind` returns the user that the key had, or else the caller's, and binds the key to that user;
-- no other key is affected, and binding the key again returns the same user and changes nothing.
pub get_user_id-bind :
    (u k j w : Bytes) (now later now' later' : Time) (m : Store)
    → let (owner, m') = bind u k now later m in
      (owner ≡ owner_after u (lookup k m.keys))
      × (get_user_id j m' ≡ (if k == j then ok owner else get_user_id j m))
      × (bind w k now' later' m' ≡ (owner, m'))
unfolding bind add_key get_user_id
get_user_id-bind u k j w now later now' later' m = (
  ground arith,
  ground (arith, lookup-insert k j u m.keys),
  ground (arith, lookup-insert k k u m.keys),
)

-- In a store whose indexes agree, `RemoveKey` by a user unbinds the key if it was that user's and
-- takes the authority over the key from that user; every other binding, and every other pair of a
-- user and a key, is as before.
pub remove_key_lem :
    (u k w j : Bytes) (m : Store)
    → IsValid m
    → let m' = remove_key u k m in
      (get_user_id j m'
        ≡ (if is_authorized u k m && (k == j) then err not_found else get_user_id j m))
      × (is_authorized w j m' ≡ (is_authorized w j m && not ((u == w) && (k == j))))
unfolding remove_key unbind_key is_authorized get_user_id contains
remove_key_lem u k w j m v =
    let rest = keep (λ x. not (x == k)) (lookup_or u [] m.users) in
    (
      ground (arith, lookup-erase k j m.keys, v.agree u k),
      ground (
        arith,
        lookup-insert u w rest m.users,
        contains-keep_ne j k (lookup_or u [] m.users),
        v.agree u k,
        v.agree w j,
      ),
    )
