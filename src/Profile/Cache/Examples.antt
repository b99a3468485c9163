-- ===== src/Profile/Cache/Examples.antt =====
-- Bob takes over the X account of Alice, whose profile is cached.
use flipchat_server.Profile.{
  ProfileError, not_found, XProfile, UserProfile, Call, names, links, run, set_display_name, named,
  with_x_profile,
}
use flipchat_server.Profile
use flipchat_server.Profile.Links.{reached-IsOneToOne}
use flipchat_server.Profile.Cache.{Cache, get_profile, link_x_account}
use flipchat_server.Profile.Cache.Stale.{get_profile-link_x_account}
use flipchat_server.Base.{
  Bytes, List, [], ◌++◌, bytes_discrete, bytes_eq, lookup, insert, refl, some, ◌∷◌, ◌≡◌, ok, err,
}

abbrev alice : Bytes
alice = 1 ∷ []

abbrev bob : Bytes
bob = 2 ∷ []

abbrev x_account : XProfile
x_account = record {
  id = 7 ∷ [];
  username = [];
  name = [];
  description = [];
  profile_pic_url = [];
  verified_type = 0;
  follower_count = 10;
}

abbrev history : List Call
history = names alice (65 ∷ []) ∷ names bob (66 ∷ []) ∷ links alice x_account [] ∷ []

abbrev alice_profile : UserProfile
alice_profile = record { display_name = 65 ∷ []; social_profiles = x_account ∷ [] }

abbrev cached : Cache
cached = record { db = run history Profile.new_in_memory; cache = (alice, some alice_profile) ∷ [] }

bob_has_none : Profile.get_x_profile bob cached.db ≡ err not_found
unfolding Profile.get_x_profile run Profile.link_x_account set_display_name lookup insert
    bytes_discrete
bob_has_none = refl

alice_has_one : Profile.get_x_profile alice cached.db ≡ ok x_account
unfolding Profile.get_x_profile run Profile.link_x_account set_display_name lookup insert
    bytes_discrete
alice_has_one = refl

alice_stored : Profile.get_profile alice cached.db ≡ ok alice_profile
unfolding Profile.get_profile run Profile.link_x_account set_display_name lookup insert
    bytes_discrete with_x_profile
alice_stored = refl

alice_cached : lookup alice cached.cache ≡ some (some alice_profile)
unfolding lookup bytes_discrete
alice_cached = refl

get_profile-link_x_account_example :
    let (result, c') = link_x_account bob x_account [] cached in
    (result ≡ ok tt)
    × ((get_profile bob c').0 ≡ Profile.get_profile bob c'.db)
    × ((get_profile alice c').0 ≡ ok alice_profile)
    × ((base : UserProfile) × (Profile.get_profile alice c'.db ≡ ok base)
        × (alice_profile
            ≡ record base { social_profiles = base.social_profiles ++ x_account ∷ [] }))
get_profile-link_x_account_example =
    get_profile-link_x_account bob alice x_account x_account [] alice_profile cached
      (reached-IsOneToOne history) bob_has_none alice_has_one refl alice_stored alice_cached
