-- ===== src/Profile/Cache.antt =====
-- profile/cache/store.go: the cache in front of the store of profiles. An entry lives until it is
-- removed, dropped or too old; a user without a profile has an empty one.
mod Stale
mod Examples
use flipchat_server.Profile.{
  ProfileError, not_found, existing_social_link, XProfile, UserProfile, Store,
}
use flipchat_server.Base.{
  Option-cases, Bytes, bytes_eq, Dict, lookup, insert, erase, lookup-erase, has, Result, ok, err,
  Result-cases, ◌≡◌, ◌≢◌, inl, inr, true, Option, none, some, [], arith,
}
use flipchat_server.Profile

-- `Cache`
pub record Cache : Type 0 where
  pub db : Store
  pub cache : Dict Bytes (Option UserProfile)

abbrev pub new_in_cache : Store → Cache
new_in_cache db = record { db = db; cache = [] }

unfoldable pub get_profile : Bytes → Cache → Result ProfileError UserProfile × Cache
get_profile user_id c = elim (lookup user_id c.cache) [
  | some none ↦ (err not_found, c)
  | some (some p) ↦ (ok p, c)
  | none ↦ elim (Profile.get_profile user_id c.db) [
    | ok p ↦ (ok p, record c { cache = insert user_id (some p) c.cache })
    | err not_found ↦ (err not_found, record c { cache = insert user_id none c.cache })
    | err e ↦ (err e, c)
  ]
]

-- The end of an operation that writes: where it succeeds, the user's entry is removed.
unfoldable pub removed :
    Bytes → Result ProfileError (Unit {0}) × Store → Cache → Result ProfileError (Unit {0}) × Cache
removed user_id (result, db) c = elim result [
  | err e ↦ (err e, record c { db = db })
  | ok _ ↦ (ok tt, record { db = db; cache = erase user_id c.cache })
]

unfoldable pub set_display_name : Bytes → Bytes → Cache → Result ProfileError (Unit {0}) × Cache
unfolding removed
set_display_name user_id name c =
    removed user_id (ok tt, Profile.set_display_name user_id name c.db) c

unfoldable pub link_x_account :
    Bytes → XProfile → Bytes → Cache → Result ProfileError (Unit {0}) × Cache
unfolding removed
link_x_account user_id x access_token c =
    removed user_id (Profile.link_x_account user_id x access_token c.db) c

unfoldable pub unlink_x_account : Bytes → Bytes → Cache → Result ProfileError (Unit {0}) × Cache
unfolding removed
unlink_x_account user_id x_user_id c =
    removed user_id (Profile.unlink_x_account user_id x_user_id c.db) c

pub get_x_profile : Bytes → Cache → Result ProfileError XProfile
get_x_profile user_id c = Profile.get_x_profile user_id c.db

pub get_user_linked_to_x_account : Bytes → Cache → Result ProfileError Bytes
get_user_linked_to_x_account x_user_id c = Profile.get_user_linked_to_x_account x_user_id c.db
