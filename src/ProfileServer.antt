-- ===== src/ProfileServer.antt =====
-- profile/server.go: the server of profiles. X's API is a parameter: what it answers for an access
-- token.
use flipchat_server.Account.{Store, is_registered}
use flipchat_server.Profile.{
  existing_social_link, XProfile, UserProfile, get_profile, set_display_name, link_x_account,
  unlink_x_account, get_user_linked_to_x_account,
}
use flipchat_server.Base.{if◌then◌else◌, Bytes, ok, err, Bool, not, List, [], ◌∷◌, ◌++◌}
use flipchat_server.Profile
use flipchat_server.Account

-- What X answers, and how a call fails.
pub data XAnswer : Type 0 where
  x_user : XProfile → XAnswer
  forbidden x_failed : XAnswer

pub data Response (A : Type 0) : Type 0 where
  done : A → Response A
  denied not_found invalid_linking_token existing_link : Response A
  internal unimplemented : Response A

-- The users whose profile is told to have changed, in the order of the calls.
pub record Updated (A : Type 0) : Type 0 where
  pub response : Response A
  pub profiles : Profile.Store
  pub notified : List Bytes

unchanged : {A : Type 0} → Response A → Profile.Store → Updated A
unchanged r m = record { response = r; profiles = m; notified = [] }

pub handle_get_profile : Bytes → Profile.Store → Response UserProfile
handle_get_profile user_id m = elim (Profile.get_profile user_id m) [
  | ok p ↦ done p
  | err Profile.not_found ↦ not_found
  | err _ ↦ internal
]

unfoldable pub handle_set_display_name :
    Bytes → Bytes → Account.Store → Profile.Store → Updated (Unit {0})
unfolding unchanged
handle_set_display_name name user_id accounts m =
    if not (is_registered user_id accounts) then unchanged denied m else record {
      response = done tt;
      profiles = Profile.set_display_name user_id name m;
      notified = user_id ∷ [];
    }

-- The part of `LinkSocialAccount` behind X's answer, where the profile passes validation.
unfoldable pub link_x : Bytes → XProfile → Bytes → Profile.Store → Updated XProfile
unfolding unchanged
link_x user_id x access_token m =
    let previous : List Bytes = elim (Profile.get_user_linked_to_x_account x.id m) [
      | err _ ↦ []
      | ok previously_linked ↦ previously_linked ∷ []
    ] in
    let (result, m') = Profile.link_x_account user_id x access_token m in
    elim result [
      | err Profile.existing_social_link ↦ unchanged existing_link m'
      | err _ ↦ unchanged internal m'
      | ok _ ↦ record { response = done x; profiles = m'; notified = previous ++ user_id ∷ [] }
    ]

unfoldable pub handle_link_social_account :
    (Bytes → XAnswer)
    → (XProfile → Bool)
    → Bytes
    → Bytes
    → Account.Store
    → Profile.Store
    → Updated XProfile
unfolding unchanged link_x
handle_link_social_account ask_x is_valid access_token user_id accounts m =
    if not (is_registered user_id accounts) then unchanged denied m else elim (ask_x access_token) [
      | forbidden ↦ unchanged invalid_linking_token m
      | x_failed ↦ unchanged internal m
      | x_user x ↦ if is_valid x then link_x user_id x access_token m else unchanged internal m
    ]

unfoldable pub handle_unlink_social_account : Bytes → Bytes → Profile.Store → Updated (Unit {0})
unfolding unchanged
handle_unlink_social_account x_user_id user_id m =
    let (result, m') = Profile.unlink_x_account user_id x_user_id m in
    elim result [
      | err Profile.not_found ↦ unchanged denied m'
      | err _ ↦ unchanged internal m'
      | ok _ ↦ record { response = done tt; profiles = m'; notified = user_id ∷ [] }
    ]
