-- ===== src/AccountServer/Session.antt =====
-- account/server.go: from the registration of a key to its use.
use flipchat_server.Account.{Store, add_key, bind, get_user_id}
use flipchat_server.AccountServer.{Verified, authorize, done, register, login_window, login}
use flipchat_server.Base.{
  Bytes, bytes_eq, lookup, lookup-insert, ok, Time, ◌+◌, ◌≤◌, ◌≡◌, some, List, [], ◌∷◌, arith,
}

-- A call of `Register`, with the id that it makes and the readings of the clock.
pub record Registration : Type 0 where
  pub verified : Verified
  pub pub_key : Bytes
  pub display_name : Bytes
  pub new_id : Bytes
  pub now : Time
  pub later : Time

pub register_all : List Registration → Store → Store
register_all [] m = m
register_all (r ∷ rs) m =
    register_all rs (register r.verified r.pub_key r.display_name r.new_id r.now r.later m).1

register-bound :
    (r : Registration) (k u : Bytes) (m : Store)
    → lookup k m.keys ≡ some u
    → lookup k (register r.verified r.pub_key r.display_name r.new_id r.now r.later m).1.keys
      ≡ some u
unfolding register bind add_key
register-bound r k u m bound = ground (arith, lookup-insert r.pub_key k r.new_id m.keys)

register_all-bound :
    (rs : List Registration) (k u : Bytes) (m : Store)
    → lookup k m.keys ≡ some u
    → lookup k (register_all rs m).keys ≡ some u
unfolding register_all
register_all-bound [] k u m bound = bound
register_all-bound (r ∷ rs) k u m bound = register_all-bound rs k u _ (register-bound r k u m bound)

registered-bound :
    (k new_id u : Bytes) (now later : Time) (m : Store)
    → (register (ok tt) k [] new_id now later m).0 ≡ ok (done u)
    → lookup k (register (ok tt) k [] new_id now later m).1.keys ≡ some u
unfolding register bind add_key
registered-bound k new_id u now later m h = ground (arith, lookup-insert k k new_id m.keys)

-- A registration that succeeds binds its key: whatever calls of `Register` follow, the user id that
-- it returned is the one that `Login` returns for the key, within two minutes of its timestamp, the
-- one that a call signed with the key is authorized as, and the one that registering the key again
-- returns, without a change to the store.
pub register-login :
    (k new_id other_id u : Bytes) (t now later now' later' : Time) (m : Store)
    (rs : List Registration)
    → (register (ok tt) k [] new_id now later m).0 ≡ ok (done u)
    → t ≤ now' + login_window
    → later' ≤ t + login_window
    → let m' = register_all rs (register (ok tt) k [] new_id now later m).1 in
      (login (ok tt) (some k) t now' later' m' ≡ ok (done u))
      × (authorize (ok tt) k m' ≡ ok u)
      × (register (ok tt) k [] other_id now' later' m' ≡ (ok (done u), m'))
unfolding register login authorize get_user_id bind
register-login k new_id other_id u t now later now' later' m rs r p q =
    let bound =
      register_all-bound rs k u (register (ok tt) k [] new_id now later m).1
        (registered-bound k new_id u now later m r) in
    (ground (arith, p, q, bound), ground (arith, bound), ground (arith, bound))
