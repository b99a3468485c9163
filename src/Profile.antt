-- ===== src/Profile.antt =====
-- profile/store.go, profile/memory/store.go: the users' display names, and the X account that each
-- user has linked. The maps are keyed by the bytes of a user id, which the store encodes in base64.
pub mod Cache
pub mod Postgres
mod Links
mod Examples
use flipchat_server.Base.{
  if◌then◌else◌, ◌==◌, Bytes, bytes_eq, Dict, lookup, insert, erase, lookup_or, Result, ok, err, ℕ,
  not, Option, none, some, List, [], ◌∷◌, ◌++◌,
}

-- `ErrNotFound` and `ErrExistingSocialLink`.
pub data ProfileError : Type 0 where
  not_found existing_social_link : ProfileError

-- `profilepb.XProfile`
pub record XProfile : Type 0 where
  pub id : Bytes
  pub username : Bytes
  pub name : Bytes
  pub description : Bytes
  pub profile_pic_url : Bytes
  pub verified_type : ℕ
  pub follower_count : ℕ

-- `profilepb.UserProfile`
pub record UserProfile : Type 0 where
  pub display_name : Bytes
  pub social_profiles : List XProfile

-- `Memory`
pub record Store : Type 0 where
  pub profiles : Dict Bytes UserProfile
  pub x_profiles_by_user : Dict Bytes XProfile

abbrev pub new_in_memory : Store
new_in_memory = record { profiles = []; x_profiles_by_user = [] }

-- The social profiles of a profile, with the linked X profile behind them.
with_x_profile : Option XProfile → UserProfile → UserProfile
with_x_profile none p = p
with_x_profile (some x) p = record p { social_profiles = p.social_profiles ++ x ∷ [] }

unfoldable pub get_profile : Bytes → Store → Result ProfileError UserProfile
unfolding with_x_profile
get_profile id m = elim (lookup id m.profiles) [
  | none ↦ err not_found
  | some base_profile ↦ ok (with_x_profile (lookup id m.x_profiles_by_user) base_profile)
]

abbrev empty_profile : UserProfile
empty_profile = record { display_name = []; social_profiles = [] }

named : Bytes → UserProfile → UserProfile
named display_name p = record p { display_name = display_name }

unfoldable pub set_display_name : Bytes → Bytes → Store → Store
unfolding named
set_display_name id display_name m =
    let profile = lookup_or id empty_profile m.profiles in
    record m { profiles = insert id (named display_name profile) m.profiles }

-- The fields that `LinkXAccount` copies to the profile of an account that is linked already.
refreshed : XProfile → XProfile → XProfile
refreshed existing x = record existing {
  username = x.username;
  name = x.name;
  description = x.description;
  profile_pic_url = x.profile_pic_url;
  verified_type = x.verified_type;
  follower_count = x.follower_count;
}

-- The loop that unlinks an X account from whoever has it.
drop_linked : Bytes → Dict Bytes XProfile → Dict Bytes XProfile
drop_linked x_user_id [] = []
drop_linked x_user_id ((user_id, x) ∷ d) =
    let rest = drop_linked x_user_id d in if x.id == x_user_id then rest else (user_id, x) ∷ rest

-- The store does not read the access token.
unfoldable pub link_x_account :
    Bytes → XProfile → Bytes → Store → Result ProfileError (Unit {0}) × Store
unfolding refreshed drop_linked
link_x_account user_id x access_token m = elim (lookup user_id m.x_profiles_by_user) [
  | some existing ↦ if not (existing.id == x.id) then (err existing_social_link, m) else (
    ok tt,
    record m { x_profiles_by_user = insert user_id (refreshed existing x) m.x_profiles_by_user },
  )
  | none ↦ (
    ok tt,
    record m { x_profiles_by_user = insert user_id x (drop_linked x.id m.x_profiles_by_user) },
  )
]

unfoldable pub unlink_x_account : Bytes → Bytes → Store → Result ProfileError (Unit {0}) × Store
unlink_x_account user_id x_user_id m = elim (lookup user_id m.x_profiles_by_user) [
  | none ↦ (err not_found, m)
  | some existing ↦
      if not (existing.id == x_user_id)
      then (err not_found, m)
      else (ok tt, record m { x_profiles_by_user = erase user_id m.x_profiles_by_user })
]

unfoldable pub get_x_profile : Bytes → Store → Result ProfileError XProfile
get_x_profile user_id m = elim (lookup user_id m.x_profiles_by_user) [
  | none ↦ err not_found
  | some x ↦ ok x
]

-- The loop of `GetUserLinkedToXAccount`.
find_linked : Bytes → Dict Bytes XProfile → Option Bytes
find_linked x_user_id [] = none
find_linked x_user_id ((user_id, x) ∷ d) =
    if x.id == x_user_id then some user_id else find_linked x_user_id d

unfoldable pub get_user_linked_to_x_account : Bytes → Store → Result ProfileError Bytes
unfolding find_linked
get_user_linked_to_x_account x_user_id m = elim (find_linked x_user_id m.x_profiles_by_user) [
  | none ↦ err not_found
  | some user_id ↦ ok user_id
]

-- The calls that write to the store.
pub data Call : Type 0 where
  names : Bytes → Bytes → Call
  links : Bytes → XProfile → Bytes → Call
  unlinks : Bytes → Bytes → Call

unfoldable pub step : Call → Store → Store
step (names u name) m = set_display_name u name m
step (links u x token) m = (link_x_account u x token m).1
step (unlinks u id) m = (unlink_x_account u id m).1

unfoldable pub run : List Call → Store → Store
unfolding step
run [] m = m
run (c ∷ cs) m = run cs (step c m)
