-- ===== src/Account/Cache/Refinement.antt =====
-- account/cache/store.go: the answers of the cache, from those of its store.
use flipchat_server.Account
use flipchat_server.Account.{AccountError, Store, add_key, set_next_airdrop}
use flipchat_server.Account.Keys.{IsValid, step-IsValid}
use flipchat_server.Account.Cache.{
  Cache, new_in_cache, Disabled, disabled, remove_key, is_authorized, get_pub_keys,
  get_next_airdrop_timestamp, get_users_to_airdrop, get_airdrop_eligibility_timestamp, get_user_id,
  is_staff, is_registered, bind, set_registration_flag, batch_set_next_airdrop_timestamp,
  extend_airdrop_eligibility,
}
use flipchat_server.Base.{
  Bool-cases, Option-cases, Bytes, bytes_eq, lookup, insert, erase, lookup-insert, lookup-erase,
  has, contains, Result, ok, err, Time, ◌≡◌, refl, inl, inr, Bool, true, false, some, List, [], ◌∷◌,
  arith,
}

-- The calls, and the loss of a cached entry. Of the calls of `SetRegistrationFlag` those that
-- register are here.
pub data CacheCall : Type 0 where
  binds : Bytes → Bytes → Time → Time → CacheCall
  registers : Bytes → CacheCall
  extends : Bytes → Time → CacheCall
  schedules : Time → List Bytes → CacheCall
  looks_up : Bytes → CacheCall
  asks_registered : Bytes → CacheCall
  asks_staff : Bytes → CacheCall
  removes asks_authorized : Bytes → Bytes → CacheCall
  asks_keys asks_next_airdrop asks_eligibility : Bytes → CacheCall
  asks_due : Time → CacheCall
  evicts : Bytes → CacheCall

pub data CacheAnswer : Type 0 where
  bound : Bytes → CacheAnswer
  answered : Result AccountError (Unit {0}) → CacheAnswer
  found : Result AccountError Bytes → CacheAnswer
  flag : Bool → CacheAnswer
  removal : Result Disabled (Unit {0}) → CacheAnswer
  authorized : Result AccountError Bool → CacheAnswer
  listed : List Bytes → CacheAnswer
  due : Result AccountError (List Bytes) → CacheAnswer
  timed : Result AccountError Time → CacheAnswer
  silent : CacheAnswer

-- The cache tells whether a key is a user's by who has the key: for a key that nobody has, the
-- error of the lookup stands in place of the store's `false`.
authorized_by : Bytes → Bytes → Store → Result AccountError Bool
authorized_by u k m = elim (Account.get_user_id k m) [
  | err e ↦ err e
  | ok owner ↦ ok (Account.is_authorized u k m)
]

-- What a call answers, and the store after it, where every call but `IsAuthorized` for a key that
-- nobody has and `RemoveKey` is the store's.
on_store : CacheCall → Store → CacheAnswer × Store
unfolding authorized_by
on_store (binds u k now later) m = let (r, m') = Account.bind u k now later m in (bound r, m')
on_store (registers u) m = let (r, m') = Account.set_registration_flag u true m in (answered r, m')
on_store (extends u until) m =
    let (r, m') = Account.extend_airdrop_eligibility u until m in (answered r, m')
on_store (schedules ts us) m = (silent, Account.batch_set_next_airdrop_timestamp ts us m)
on_store (looks_up k) m = (found (Account.get_user_id k m), m)
on_store (asks_registered u) m = (flag (Account.is_registered u m), m)
on_store (asks_staff u) m = (flag (Account.is_staff u m), m)
on_store (removes u k) m = (removal (err disabled), m)
on_store (asks_authorized u k) m = (authorized (authorized_by u k m), m)
on_store (asks_keys u) m = (listed (Account.get_pub_keys u m), m)
on_store (asks_next_airdrop u) m = (timed (Account.get_next_airdrop_timestamp u m), m)
on_store (asks_eligibility u) m = (timed (Account.get_airdrop_eligibility_timestamp u m), m)
on_store (asks_due at) m = (due (Account.get_users_to_airdrop at m), m)
on_store (evicts k) m = (silent, m)

evict : Bytes → Cache → Cache
evict k c = record c {
  pubkey_to_user = erase k c.pubkey_to_user;
  registered_user = erase k c.registered_user;
  staff_flag = erase k c.staff_flag;
}

on_cache : CacheCall → Cache → CacheAnswer × Cache
unfolding evict
on_cache (binds u k now later) c = let (r, c') = bind u k now later c in (bound r, c')
on_cache (registers u) c = let (r, c') = set_registration_flag u true c in (answered r, c')
on_cache (extends u until) c =
    let (r, c') = extend_airdrop_eligibility u until c in (answered r, c')
on_cache (schedules ts us) c = (silent, batch_set_next_airdrop_timestamp ts us c)
on_cache (looks_up k) c = let (r, c') = get_user_id k c in (found r, c')
on_cache (asks_registered u) c = let (r, c') = is_registered u c in (flag r, c')
on_cache (asks_staff u) c = let (r, c') = is_staff u c in (flag r, c')
on_cache (removes u k) c = let (r, c') = remove_key u k c in (removal r, c')
on_cache (asks_authorized u k) c = let (r, c') = is_authorized u k c in (authorized r, c')
on_cache (asks_keys u) c = (listed (get_pub_keys u c), c)
on_cache (asks_next_airdrop u) c = (timed (get_next_airdrop_timestamp u c), c)
on_cache (asks_eligibility u) c = (timed (get_airdrop_eligibility_timestamp u c), c)
on_cache (asks_due at) c = (due (get_users_to_airdrop at c), c)
on_cache (evicts k) c = (silent, evict k c)

pub store_answers : List CacheCall → Store → List CacheAnswer
unfolding on_store
store_answers [] m = []
store_answers (a ∷ as') m = (on_store a m).0 ∷ store_answers as' (on_store a m).1

pub cache_answers : List CacheCall → Cache → List CacheAnswer
unfolding on_cache
cache_answers [] c = []
cache_answers (a ∷ as') c = (on_cache a c).0 ∷ cache_answers as' (on_cache a c).1

-- What is cached is what the store says.
record IsCoherent (c : Cache) : Type 0 where
  users : (k u : Bytes) → lookup k c.pubkey_to_user ≡ some u → lookup k c.db.keys ≡ some u
  registered :
      (u : Bytes) (b : Bool)
      → lookup u c.registered_user ≡ some b
      → (b ≡ true) × (has u c.db.registered_users ≡ true)
  staff : (u : Bytes) (b : Bool) → lookup u c.staff_flag ≡ some b → b ≡ false

scheduled-same :
    (ts : Time) (us : List Bytes) (m : Store)
    → let m' = Account.batch_set_next_airdrop_timestamp ts us m in
      (m'.keys ≡ m.keys) × (m'.registered_users ≡ m.registered_users)
unfolding Account.batch_set_next_airdrop_timestamp Account.set_next_airdrop
scheduled-same ts [] m = (refl, refl)
scheduled-same ts (u ∷ us) m =
    let (same_keys, same_flags) = scheduled-same ts us (Account.set_next_airdrop ts u m) in
    (ground (arith, same_keys), ground (arith, same_flags))

module _ (c : Cache) (v : IsCoherent c) where
  added_user :
      (k u : Bytes)
      → lookup k c.db.keys ≡ some u
      → IsCoherent (record c { pubkey_to_user = insert k u c.pubkey_to_user })
  added_user k u h = record {
    users = λ j w g. ground (arith, lookup-insert k j u c.pubkey_to_user, v.users j w);
    registered = v.registered;
    staff = v.staff;
  }

  added_registered :
      (u : Bytes)
      → has u c.db.registered_users ≡ true
      → IsCoherent (record c { registered_user = insert u true c.registered_user })
  added_registered u h = record {
    users = v.users;
    registered =
        λ w b g. ground (arith, lookup-insert u w true c.registered_user, v.registered w b);
    staff = v.staff;
  }

  added_staff : (u : Bytes) → IsCoherent (record c { staff_flag = insert u false c.staff_flag })
  added_staff u = record {
    users = v.users;
    registered = v.registered;
    staff = λ w b g. ground (arith, lookup-insert u w false c.staff_flag, v.staff w b);
  }

on_cache-IsCoherent :
    (a : CacheCall) (c : Cache)
    → IsCoherent c
    → IsValid c.db
    → ((on_cache a c).0 ≡ (on_store a c.db).0)
      × ((on_cache a c).1.db ≡ (on_store a c.db).1)
      × IsCoherent (on_cache a c).1
unfolding on_cache on_store evict get_user_id is_registered is_staff is_authorized remove_key
    get_pub_keys get_next_airdrop_timestamp get_users_to_airdrop get_airdrop_eligibility_timestamp
    authorized_by contains Account.is_authorized Account.get_user_id Account.is_registered
    Account.is_staff Account.bind Account.add_key Account.set_registration_flag
    Account.extend_airdrop_eligibility
on_cache-IsCoherent (binds u k now later) c v valid = (
  ground arith,
  ground arith,
  record {
    users = λ j w h. ground (arith, lookup-insert k j u c.db.keys, v.users j w);
    registered = λ w b h. ground (arith, v.registered w b);
    staff = v.staff;
  },
)
on_cache-IsCoherent (registers u) c v valid = (
  ground arith,
  ground arith,
  record {
    users = λ j w h. ground (arith, v.users j w);
    registered =
        λ w b h. ground (arith, lookup-insert u w true c.db.registered_users, v.registered w b);
    staff = v.staff;
  },
)
on_cache-IsCoherent (extends u until) c v valid = (
  ground arith,
  ground arith,
  record {
    users = λ j w h. ground (arith, v.users j w);
    registered = λ w b h. ground (arith, v.registered w b);
    staff = v.staff;
  },
)
on_cache-IsCoherent (schedules ts us) c v valid =
    let (same_keys, same_flags) = scheduled-same ts us c.db in
    (
      refl,
      refl,
      record {
        users = λ j w h. ground (arith, same_keys, v.users j w);
        registered = λ w b h. ground (arith, same_flags, v.registered w b);
        staff = v.staff;
      },
    )
on_cache-IsCoherent (looks_up k) c v valid = elim (Option-cases (lookup k c.pubkey_to_user)) [
  | inr (u, cached) ↦ (ground (arith, v.users k u cached), ground arith, ground (arith, v))
  | inl missing ↦ elim (Option-cases (lookup k c.db.keys)) [
    | inl unbound ↦ (ground arith, ground arith, ground (arith, v))
    | inr (u, bound_to) ↦ (ground arith, ground arith, ground (arith, added_user c v k u bound_to))
  ]
]
on_cache-IsCoherent (asks_registered u) c v valid =
    elim (Option-cases (lookup u c.registered_user)) [
      | inr (b, cached) ↦ (ground (arith, v.registered u b cached), ground arith, ground (arith, v))
      | inl missing ↦ elim (Bool-cases (Account.is_registered u c.db)) [
        | inr unregistered ↦ (ground arith, ground arith, ground (arith, v))
        | inl registered ↦
            (ground arith, ground arith, ground (arith, added_registered c v u registered))
      ]
    ]
on_cache-IsCoherent (asks_staff u) c v valid = elim (Option-cases (lookup u c.staff_flag)) [
  | inr (b, cached) ↦ (ground (arith, v.staff u b cached), ground arith, ground (arith, v))
  | inl missing ↦ (ground arith, ground arith, ground (arith, added_staff c v u))
]
on_cache-IsCoherent (removes u k) c v valid = (refl, refl, v)
on_cache-IsCoherent (asks_authorized u k) c v valid =
    elim (Option-cases (lookup k c.pubkey_to_user)) [
      | inr (w, cached) ↦
          (ground (arith, v.users k w cached, valid.agree u k), ground arith, ground (arith, v))
      | inl missing ↦ elim (Option-cases (lookup k c.db.keys)) [
        | inl unbound ↦ (ground arith, ground arith, ground (arith, v))
        | inr (w, bound_to) ↦ (
          ground (arith, valid.agree u k),
          ground arith,
          ground (arith, added_user c v k w bound_to),
        )
      ]
    ]
on_cache-IsCoherent (asks_keys u) c v valid = (refl, refl, v)
on_cache-IsCoherent (asks_next_airdrop u) c v valid = (refl, refl, v)
on_cache-IsCoherent (asks_eligibility u) c v valid = (refl, refl, v)
on_cache-IsCoherent (asks_due at) c v valid = (refl, refl, v)
on_cache-IsCoherent (evicts k) c v valid = (
  refl,
  refl,
  record {
    users = λ j w h. ground (arith, lookup-erase k j c.pubkey_to_user, v.users j w);
    registered = λ w b h. ground (arith, lookup-erase k w c.registered_user, v.registered w b);
    staff = λ w b h. ground (arith, lookup-erase k w c.staff_flag, v.staff w b);
  },
)

on_store-IsValid : (a : CacheCall) (m : Store) → IsValid m → IsValid (on_store a m).1
unfolding on_store Account.step
on_store-IsValid (binds u k now later) m v = step-IsValid (Account.Call.binds u k now later) m v
on_store-IsValid (registers u) m v = step-IsValid (Account.Call.flags u true) m v
on_store-IsValid (extends u until) m v = step-IsValid (Account.Call.extends u until) m v
on_store-IsValid (schedules ts us) m v = step-IsValid (Account.Call.schedules ts us) m v
on_store-IsValid _ m v = v

answers-IsCoherent :
    (as' : List CacheCall) (c : Cache)
    → IsCoherent c
    → IsValid c.db
    → cache_answers as' c ≡ store_answers as' c.db
unfolding cache_answers store_answers
answers-IsCoherent [] c v valid = refl
answers-IsCoherent (a ∷ as') c v valid =
    let (same, db, v') = on_cache-IsCoherent a c v valid in
    let valid' : IsValid (on_cache a c).1.db = rw db (on_store-IsValid a c.db valid) in
    ground (arith, same, db, answers-IsCoherent as' (on_cache a c).1 v' valid')

-- The cache refines its store: whatever the sequence of calls, none of which unregisters an account,
-- and whichever entries the cache drops in between, a cache that starts empty answers as the store
-- that it stands in front of, with two exceptions: `RemoveKey` is refused and changes nothing, and
-- `IsAuthorized` for a key that nobody has gives the error of the lookup of the key. The store is
-- well-formed, as it is after any sequence of writes to a new store.
pub cache_answers-store_answers :
    (as' : List CacheCall) (m : Store)
    → IsValid m
    → cache_answers as' (new_in_cache m) ≡ store_answers as' m
unfolding lookup
cache_answers-store_answers as' m valid =
    let coherent : IsCoherent (new_in_cache m) = record {
      users = λ k u h. ground arith;
      registered = λ u b h. ground arith;
      staff = λ u b h. ground arith;
    } in
    answers-IsCoherent as' (new_in_cache m) coherent valid
