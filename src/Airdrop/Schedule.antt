-- ===== src/Airdrop/Schedule.antt =====
-- airdrop/integration.go: the next airdrop is the first of the weekly airdrops that lies ahead.
use flipchat_server.Base.{
  ltb, Bool-cases, Bytes, bytes_eq, has, contains, ok, Result-cases, Time, ℕ, zero, suc, ◌+◌, ◌*◌,
  ◌≤◌, ◌<◌, ◌≡◌, inl, inr, true, false, some, List, [], ◌∷◌, arith,
}
use flipchat_server.Account.{
  Store, get_user_id, batch_set_next_airdrop_timestamp, get_users_to_airdrop,
}
use flipchat_server.Account.Keys.{IsValid, batch_set_next_airdrop_timestamp-IsValid}
use flipchat_server.Account.Airdrop.{selected, selected-IsDue, get_next_airdrop_timestamp-batch_set}
use flipchat_server.Airdrop.{frequency, next_from, get_next_airdrop_time, user_ids_of, on_success}

-- The first time after now that is a whole number of weeks after the inaugural airdrop.
pub record IsNext (now inaugural_ts ts : Time) : Type 0 where
  pub weeks : ℕ
  pub slot : ts ≡ inaugural_ts + weeks * frequency
  pub ahead : now < ts
  pub first : (n : ℕ) → now < inaugural_ts + n * frequency → weeks ≤ n

later_first :
    (now ts weeks : ℕ)
    → ltb now ts ≡ false
    → ((n : ℕ) → now < ts + frequency + n * frequency → weeks ≤ n)
    → (n : ℕ) → now < ts + n * frequency
    → suc weeks ≤ n
later_first now ts weeks passed first zero past = ground arith
later_first now ts weeks passed first (suc n) past = omega (arith, first n (omega arith))

next_from-IsNext :
    (fuel : ℕ) (now ts : Time)
    → now < ts + fuel
    → (next : Time) × (next_from (suc fuel) now ts ≡ some next) × IsNext now ts next
unfolding next_from
next_from-IsNext zero now ts h = (
  ts,
  ground arith,
  record { weeks = 0; slot = omega arith; ahead = omega arith; first = λ n past. omega arith },
)
next_from-IsNext (suc fuel) now ts h = elim (Bool-cases (ltb now ts)) [
  | inl ahead ↦ (
    ts,
    ground arith,
    record { weeks = 0; slot = omega arith; ahead = ground arith; first = λ n past. omega arith },
  )
  | inr passed ↦
      let (next, found, v) = next_from-IsNext fuel now (ts + frequency) (omega arith) in
      (
        next,
        ground arith,
        record {
          weeks = suc v.weeks;
          slot = omega (arith, v.slot);
          ahead = v.ahead;
          first = later_first now ts v.weeks passed v.first;
        },
      )
]

-- The next airdrop is found, and is the first of the times a whole number of weeks after the
-- inaugural airdrop that lies after now.
pub get_next_airdrop_time-IsNext :
    (now inaugural_ts : Time)
    → (next : Time) × (get_next_airdrop_time now inaugural_ts ≡ some next)
      × IsNext now inaugural_ts next
unfolding get_next_airdrop_time
get_next_airdrop_time-IsNext now inaugural_ts =
    next_from-IsNext (suc now) now inaugural_ts (omega arith)

contains-user_ids_of :
    (owners us : List Bytes) (k u : Bytes) (m : Store)
    → user_ids_of owners m ≡ ok us
    → contains k owners ≡ true
    → get_user_id k m ≡ ok u
    → contains u us ≡ true
unfolding user_ids_of contains
contains-user_ids_of [] us k u m h listed bound = ground arith
contains-user_ids_of (o ∷ owners) us k u m h listed bound =
    elim (Result-cases (user_ids_of owners m)) [
      | inr (e, failed) ↦ ground arith
      | inl (rest, found) ↦ elim (Result-cases (get_user_id o m)) [
        | inr (e, failed) ↦ ground arith
        | inl (w, owned) ↦ ground (arith, contains-user_ids_of owners rest k u m found)
      ]
    ]

has_users : (k u : Bytes) (m : Store) → IsValid m → get_user_id k m ≡ ok u → has u m.users ≡ true
unfolding get_user_id contains
has_users k u m v bound = ground (arith, v.agree u k)

-- In a store whose indexes agree, a user whose key was paid by an airdrop that succeeds is not
-- selected again before the next airdrop.
pub on_success-get_users_to_airdrop :
    (owners : List Bytes) (k u : Bytes) (next at : Time) (m : Store)
    → IsValid m
    → (on_success owners next m).0 ≡ ok tt
    → contains k owners ≡ true
    → get_user_id k m ≡ ok u
    → at ≤ next
    → contains u (selected (get_users_to_airdrop at (on_success owners next m).1)) ≡ false
unfolding on_success get_user_id
on_success-get_users_to_airdrop owners k u next at m v h listed bound early =
    elim (Result-cases (user_ids_of owners m)) [
      | inr (e, failed) ↦ ground arith
      | inl (us, found) ↦
          let m' = batch_set_next_airdrop_timestamp next us m in
          let v' = batch_set_next_airdrop_timestamp-IsValid next us m v in
          let paid = contains-user_ids_of owners us k u m found listed bound in
          let (set, _, _) = get_next_airdrop_timestamp-batch_set next us u m in
          let known = has_users k u m v bound in
          let again = selected-IsDue at u m' v' in
          elim (Bool-cases (contains u (selected (get_users_to_airdrop at m')))) [
            | inr free ↦ ground arith
            | inl due ↦ let (_, (scheduled, stored, soon), _) = again.0 due in ground arith
          ]
    ]
