-- ===== src/Profile/Examples.antt =====
-- Runs of the profile store, and its theorems at concrete inputs.
use flipchat_server.Base.{
  Bytes, bytes_discrete, bytes_eq, lookup, insert, ok, ◌≡◌, refl, ◌↔◌, List, [], ◌∷◌,
}
use flipchat_server.Profile.{
  XProfile, new_in_memory, set_display_name, drop_linked, link_x_account, get_x_profile,
  find_linked, get_user_linked_to_x_account, Call, names, links, step, run,
}
use flipchat_server.Profile.Links.{get_user_linked_iff}

abbrev alice : Bytes
alice = 1 ∷ []

abbrev bob : Bytes
bob = 2 ∷ []

abbrev account : Bytes → XProfile
account username = record {
  id = 7 ∷ [];
  username = username;
  name = [];
  description = [];
  profile_pic_url = [];
  verified_type = 0;
  follower_count = 10;
}

-- Bob takes over the X account that Alice had linked.
abbrev history : List Call
history =
    names alice (65 ∷ [])
    ∷ links alice (account (97 ∷ [])) []
    ∷ links bob (account (98 ∷ [])) []
    ∷ []

run-history : get_user_linked_to_x_account (7 ∷ []) (run history new_in_memory) ≡ ok bob
unfolding run step set_display_name link_x_account drop_linked get_user_linked_to_x_account
    find_linked lookup insert bytes_discrete
run-history = refl

get_user_linked_iff_example :
    let m = run history new_in_memory in
    (get_user_linked_to_x_account (7 ∷ []) m ≡ ok bob)
    ↔ ((x : XProfile) × (get_x_profile bob m ≡ ok x) × (x.id ≡ 7 ∷ []))
get_user_linked_iff_example = get_user_linked_iff history (7 ∷ []) bob
