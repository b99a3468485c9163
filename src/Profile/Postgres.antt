-- ===== src/Profile/Postgres.antt =====
-- profile/postgres/model.go, profile/postgres/store.go, database/prisma/schema.prisma: display names
-- and linked X accounts in two tables of Postgres.
use flipchat_server.Profile.{XProfile, UserProfile}
use flipchat_server.Postgres.{Table}
use flipchat_server.Postgres.Encoding.{Codecs, base64, encode, decode, decode-encode_as}
use flipchat_server.Base.{
  leb, if◌then◌else◌, ◌==◌, Bytes, bytes_eq, nat_eq, length, has_value, Result, ok, err, ◌>>=◌, ℕ,
  ◌^◌, Bool, not, ◌&&◌, ◌||◌, Option, none, some, List, [], ◌∷◌, ◌≡◌, refl, true, arith,
}

-- A row of `flipchat_users`, less what the account store reads of it.
pub record NameRow : Type 0 where
  pub id : Bytes
  pub display_name : Option Bytes

-- `xUserModel`, less the times of its writing.
pub record XUserRow : Type 0 where
  pub id : Bytes
  pub username : Bytes
  pub name : Option Bytes
  pub description : Option Bytes
  pub profile_pic_url : Bytes
  pub follower_count : ℕ
  pub verified_type : ℕ
  pub access_token : Bytes
  pub user_id : Bytes

abbrev pub NameTable : Type 1
NameTable = Table NameRow Bytes (λ r. r.id)

abbrev pub XUserTable : Type 1
XUserTable = Table XUserRow Bytes (λ r. r.id)

-- `ErrNotFound` and `ErrExistingSocialLink`, the error of `pg.Decode`, and those of Postgres: for a
-- null in a column that has none, a number that no `integer` holds, a value of a unique column that
-- another row has, and a user that has no row.
pub data StoreError : Type 0 where
  not_found existing_social_link undecodable : StoreError
  not_null_violation out_of_range unique_violation foreign_key_violation : StoreError

-- `pointer.StringIfValid` of a string that is valid where it is not empty.
abbrev pub string_if_valid : Bytes → Option Bytes
string_if_valid [] = none
string_if_valid (b ∷ bs) = some (b ∷ bs)

-- `pointer.StringOrDefault` with the empty string.
abbrev pub string_or_empty : Option Bytes → Bytes
string_or_empty none = []
string_or_empty (some s) = s

-- `fromXUserModel`
unfoldable pub from_x_user_model : XUserRow → XProfile
from_x_user_model r = record {
  id = r.id;
  username = r.username;
  name = string_or_empty r.name;
  description = string_or_empty r.description;
  profile_pic_url = r.profile_pic_url;
  verified_type = r.verified_type;
  follower_count = r.follower_count;
}

module _ (codecs : Codecs) (names : NameTable) (x_users : XUserTable) where
  -- Both tables at one moment.
  pub record Tables : Type 0 where
    pub name_rows : names.State
    pub x_user_rows : x_users.State

  -- `toXUserModel`
  unfoldable pub to_x_user_model : Bytes → XProfile → Bytes → XUserRow
  to_x_user_model user_id x access_token = record {
    id = x.id;
    username = x.username;
    name = string_if_valid x.name;
    description = string_if_valid x.description;
    profile_pic_url = x.profile_pic_url;
    follower_count = x.follower_count;
    verified_type = x.verified_type;
    access_token = access_token;
    user_id = encode codecs user_id;
  }

  -- `dbGetDisplayName`
  db_get_display_name : Bytes → Tables → Result StoreError (Option Bytes)
  db_get_display_name user_id t = elim (names.find (encode codecs user_id) t.name_rows) [
    | none ↦ err not_found
    | some r ↦ ok r.display_name
  ]

  -- `dbSetDisplayName`
  unfoldable pub set_display_name : Bytes → Bytes → Tables → Tables
  set_display_name user_id display_name t =
      let row : NameRow = record { id = encode codecs user_id; display_name = some display_name } in
      record t {
        name_rows =
            names.upsert row (λ r. record r { display_name = some display_name }) t.name_rows;
      }

  -- `dbGetXUser`
  unfoldable pub db_get_x_user : Bytes → Tables → Result StoreError XUserRow
  db_get_x_user user_id t =
      elim (x_users.select (λ r. r.user_id == encode codecs user_id) t.x_user_rows) [
        | [] ↦ err not_found
        | r ∷ rs ↦ ok r
      ]

  -- Whether a row would share a unique column with another row.
  unfoldable pub is_taken : XUserRow → x_users.State → Bool
  is_taken r t =
      let is_other = λ (x : XUserRow).
        not (x.id == r.id) && (x.username == r.username || x.user_id == r.user_id) in
      not (length (x_users.select is_other t) == 0)

  -- What `SET` changes, which is every column but the id.
  abbrev pub updated : XUserRow → XUserRow → XUserRow
  updated r x = record r { id = x.id }

  -- `dbUpsert`, where the columns `name` and `description` are not nullable, `username` and
  -- `userId` are unique, and `userId` refers to the users.
  unfoldable pub db_upsert : XUserRow → Tables → Result StoreError (Unit {0}) × Tables
  db_upsert r t =
      if not (has_value r.name && has_value r.description)
      then (err not_null_violation, t)
      else if leb (2 ^ 31) r.follower_count
      then (err out_of_range, t)
      else if is_taken r t.x_user_rows
      then (err unique_violation, t)
      else if not (has_value (names.find r.user_id t.name_rows))
      then (err foreign_key_violation, t)
      else (ok tt, record t { x_user_rows = x_users.upsert r (updated r) t.x_user_rows })

  -- `LinkXAccount`
  unfoldable pub link_x_account :
      Bytes → XProfile → Bytes → Tables → Result StoreError (Unit {0}) × Tables
  link_x_account user_id x access_token t =
      let r = to_x_user_model user_id x access_token in
      elim (db_get_x_user user_id t) [
        | err e ↦ db_upsert r t
        | ok existing ↦ if existing.id == x.id then db_upsert r t else (err existing_social_link, t)
      ]

  -- `UnlinkXAccount`
  unfoldable pub unlink_x_account : Bytes → Bytes → Tables → Result StoreError (Unit {0}) × Tables
  unlink_x_account user_id x_user_id t =
      let (removed, rows) =
        x_users.delete (λ r. r.id == x_user_id && r.user_id == encode codecs user_id)
          t.x_user_rows in
      (if removed == 0 then err not_found else ok tt, record t { x_user_rows = rows })

  -- `GetXProfile`
  pub get_x_profile : Bytes → Tables → Result StoreError XProfile
  get_x_profile user_id t = db_get_x_user user_id t >>= λ r. ok (from_x_user_model r)

  social_profiles : Result StoreError XUserRow → List XProfile
  social_profiles (err e) = []
  social_profiles (ok r) = from_x_user_model r ∷ []

  -- `GetProfile`
  pub get_profile : Bytes → Tables → Result StoreError UserProfile
  unfolding db_get_display_name social_profiles
  get_profile id t = db_get_display_name id t >>= λ found. elim found [
    | none ↦ err not_found
    | some display_name ↦ ok (record {
      display_name = display_name;
      social_profiles = social_profiles (db_get_x_user id t);
    })
  ]

  -- `dbGetUserLinkedToXAccount`
  unfoldable pub get_user_linked_to_x_account : Bytes → Tables → Result StoreError Bytes
  get_user_linked_to_x_account x_user_id t = elim (x_users.find x_user_id t.x_user_rows) [
    | none ↦ err not_found
    | some r ↦ elim (decode codecs r.user_id) [ err e ↦ err undecodable | ok id ↦ ok id ]
  ]

  -- A link that is made is found from the X account, whoever had it before, and the users that
  -- other X accounts are linked to stay the same.
  pub link_x_account-get_user_linked :
      (u y token : Bytes) (x : XProfile) (t : Tables)
      → (link_x_account u x token t).0 ≡ ok tt
      → get_user_linked_to_x_account y (link_x_account u x token t).1
        ≡ (if x.id == y then ok u else get_user_linked_to_x_account y t)
  unfolding link_x_account db_upsert to_x_user_model get_user_linked_to_x_account
  link_x_account-get_user_linked u y token x t linked =
      let r = to_x_user_model u x token in
      ground (
        arith,
        decode-encode_as codecs base64 u,
        x_users.find-upsert y r (updated r) t.x_user_rows (λ z. refl),
      )

  -- An X account without a name or without a description cannot be linked to a user who has none.
  pub link_x_account-without_text :
      (u token : Bytes) (x : XProfile) (t : Tables)
      → (length x.name == 0 || length x.description == 0) ≡ true
      → db_get_x_user u t ≡ err not_found
      → link_x_account u x token t ≡ (err not_null_violation, t)
  unfolding link_x_account db_upsert to_x_user_model
  link_x_account-without_text u token x t h unlinked = ground arith
