-- ===== src/Profile/Cache/Stale.antt =====
-- profile/cache/store.go: what a link of an X account leaves in the cache.
use flipchat_server.Profile.{
  ProfileError, not_found, existing_social_link, XProfile, UserProfile, Store, with_x_profile,
}
use flipchat_server.Profile
use flipchat_server.Profile.Links.{IsOneToOne, get_x_profile-link}
use flipchat_server.Profile.Cache.{Cache, get_profile, removed, link_x_account}
use flipchat_server.Base.{
  ◌==◌, false, Bytes, bytes_eq, Option-cases, lookup, lookup-erase, ok, err, Result-cases, ◌≡◌, inl,
  inr, some, [], ◌∷◌, ◌++◌, arith,
}

-- Linking X accounts does not touch the display names.
link_x_account-profiles :
    (u : Bytes) (x : XProfile) (token : Bytes) (m : Store)
    → (Profile.link_x_account u x token m).1.profiles ≡ m.profiles
unfolding Profile.link_x_account
link_x_account-profiles u x token m = ground arith

-- What the store tells of a user who has an X account, and once the user has it no more.
linked_profile :
    (w : Bytes) (y : XProfile) (p : UserProfile) (m m' : Store)
    → Profile.get_profile w m ≡ ok p
    → Profile.get_x_profile w m ≡ ok y
    → m'.profiles ≡ m.profiles
    → Profile.get_x_profile w m' ≡ err not_found
    → (base : UserProfile) × (Profile.get_profile w m' ≡ ok base)
      × (p ≡ record base { social_profiles = base.social_profiles ++ y ∷ [] })
unfolding Profile.get_profile Profile.get_x_profile with_x_profile
linked_profile w y p m m' has_profile has_x same lost = elim (Option-cases (lookup w m.profiles)) [
  | inl missing ↦ ground arith
  | inr (base, present) ↦ (base, ground (arith, same), ground arith)
]

-- Where a user who has no X account links the one that another user has, whose profile is cached as
-- the store has it, the link succeeds and the user's own profile is read from the store again; the
-- other user's profile in the store then is the one of before without the X account, but `GetProfile`
-- still answers with the cached one, which has it.
pub get_profile-link_x_account :
    (u w : Bytes) (x y : XProfile) (token : Bytes) (p : UserProfile) (c : Cache)
    → IsOneToOne c.db.x_profiles_by_user
    → Profile.get_x_profile u c.db ≡ err not_found
    → Profile.get_x_profile w c.db ≡ ok y
    → y.id ≡ x.id
    → Profile.get_profile w c.db ≡ ok p
    → lookup w c.cache ≡ some (some p)
    → let (result, c') = link_x_account u x token c in
      (result ≡ ok tt)
      × ((get_profile u c').0 ≡ Profile.get_profile u c'.db)
      × ((get_profile w c').0 ≡ ok p)
      × ((base : UserProfile) × (Profile.get_profile w c'.db ≡ ok base)
          × (p ≡ record base { social_profiles = base.social_profiles ++ y ∷ [] }))
unfolding link_x_account get_profile removed
get_profile-link_x_account u w x y token p c one free taken same has_profile cached =
    let db = (Profile.link_x_account u x token c.db).1 in
    let (succeeds, others) = get_x_profile-link u w x token c.db one in
    let linked : (Profile.link_x_account u x token c.db).0 ≡ ok tt =
      ground (arith, succeeds, free) in
    let apart : (u == w) ≡ false = ground (arith, free, taken) in
    let lost : Profile.get_x_profile w db ≡ err not_found =
      ground (arith, others, linked, apart, taken, same) in
    (
      ground (arith, linked),
      elim (Result-cases (Profile.get_profile u db)) [
        | inl (q, found) ↦ ground (arith, linked, found, lookup-erase u u c.cache)
        | inr (not_found, missing) ↦ ground (arith, linked, missing, lookup-erase u u c.cache)
        | inr (existing_social_link, missing) ↦
            ground (arith, linked, missing, lookup-erase u u c.cache)
      ],
      ground (arith, linked, apart, cached, lookup-erase u w c.cache),
      rw linked (
          linked_profile w y p c.db db has_profile taken (link_x_account-profiles u x token c.db)
            lost),
    )
