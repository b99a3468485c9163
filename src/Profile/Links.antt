-- ===== src/Profile/Links.antt =====
-- profile/memory/store.go: the users and the X accounts that are linked to them.
use flipchat_server.Base.{
  if◌then◌else◌, ◌==◌, Bool-cases, Option-cases, Bytes, bytes_eq, Dict, lookup, insert, erase,
  lookup-insert, lookup-erase, ok, err, ◌≡◌, refl, ◌↔◌, inl, inr, none, some, List, [], ◌∷◌, arith,
}
use flipchat_server.Profile.{
  not_found, existing_social_link, XProfile, Store, new_in_memory, set_display_name, refreshed,
  drop_linked, link_x_account, unlink_x_account, get_x_profile, find_linked,
  get_user_linked_to_x_account, Call, names, links, unlinks, step, run,
}

-- No user and no X account stands twice.
pub IsOneToOne : Dict Bytes XProfile → Type 0
IsOneToOne [] = Unit
IsOneToOne ((u, x) ∷ d) = (lookup u d ≡ none) × (find_linked x.id d ≡ none) × IsOneToOne d

lookup-find_linked :
    (d : Dict Bytes XProfile)
    → IsOneToOne d
    → (i u : Bytes) → find_linked i d ≡ some u
    → (x : XProfile) × (lookup u d ≡ some x) × (x.id ≡ i)
unfolding IsOneToOne find_linked lookup
lookup-find_linked [] v i u h = ground arith
lookup-find_linked ((w, y) ∷ d) v i u h = elim (Bool-cases (y.id == i)) [
  | inl same ↦ (y, ground arith, ground arith)
  | inr other ↦
      let (x, found, linked) = lookup-find_linked d v.2 i u (ground arith) in
      (x, ground arith, linked)
]

find_linked-lookup :
    (d : Dict Bytes XProfile)
    → IsOneToOne d
    → (i u : Bytes) (x : XProfile) → lookup u d ≡ some x
    → x.id ≡ i
    → find_linked i d ≡ some u
unfolding IsOneToOne find_linked lookup
find_linked-lookup [] v i u x h same = ground arith
find_linked-lookup ((w, y) ∷ d) v i u x h same = ground (arith, find_linked-lookup d v.2 i u x)

lookup-drop_linked :
    (i u : Bytes) (d : Dict Bytes XProfile) → lookup u d ≡ none → lookup u (drop_linked i d) ≡ none
unfolding drop_linked lookup
lookup-drop_linked i u [] h = refl
lookup-drop_linked i u ((w, y) ∷ d) h = ground (arith, lookup-drop_linked i u d)

find_linked-drop_linked :
    (i j : Bytes) (d : Dict Bytes XProfile)
    → find_linked j (drop_linked i d) ≡ (if i == j then none else find_linked j d)
unfolding drop_linked find_linked
find_linked-drop_linked i j [] = ground arith
find_linked-drop_linked i j ((w, y) ∷ d) = ground (arith, find_linked-drop_linked i j d)

drop_linked-IsOneToOne :
    (i : Bytes) (d : Dict Bytes XProfile) → IsOneToOne d → IsOneToOne (drop_linked i d)
unfolding IsOneToOne drop_linked lookup find_linked
drop_linked-IsOneToOne i [] v = tt
drop_linked-IsOneToOne i ((w, y) ∷ d) v = ground (
  arith,
  drop_linked-IsOneToOne i d v.2,
  lookup-drop_linked i w d,
  find_linked-drop_linked i y.id d,
)

find_linked-erase :
    (u j : Bytes) (d : Dict Bytes XProfile)
    → find_linked j d ≡ none
    → find_linked j (erase u d) ≡ none
unfolding erase find_linked
find_linked-erase u j [] h = refl
find_linked-erase u j ((w, y) ∷ d) h = ground (arith, find_linked-erase u j d)

erase-IsOneToOne : (u : Bytes) (d : Dict Bytes XProfile) → IsOneToOne d → IsOneToOne (erase u d)
unfolding IsOneToOne erase lookup find_linked
erase-IsOneToOne u [] v = tt
erase-IsOneToOne u ((w, y) ∷ d) v =
    ground (arith, erase-IsOneToOne u d v.2, lookup-erase u w d, find_linked-erase u y.id d v.1)

-- Over a profile of the same X account.
find_linked-insert_over :
    (u j : Bytes) (x y : XProfile) (d : Dict Bytes XProfile)
    → lookup u d ≡ some y
    → y.id ≡ x.id
    → find_linked j (insert u x d) ≡ find_linked j d
unfolding insert find_linked lookup
find_linked-insert_over u j x y [] h same = ground arith
find_linked-insert_over u j x y ((w, z) ∷ d) h same =
    ground (arith, find_linked-insert_over u j x y d)

insert_over-IsOneToOne :
    (u : Bytes) (x y : XProfile) (d : Dict Bytes XProfile)
    → lookup u d ≡ some y
    → y.id ≡ x.id
    → IsOneToOne d
    → IsOneToOne (insert u x d)
unfolding IsOneToOne insert lookup find_linked
insert_over-IsOneToOne u x y [] h same v = ground arith
insert_over-IsOneToOne u x y ((w, z) ∷ d) h same v = elim (Bool-cases (w == u)) [
  | inl at ↦ ground arith
  | inr off ↦
      let found = find_linked-lookup d v.2 x.id u y (ground arith) same in
      let rest = insert_over-IsOneToOne u x y d (ground arith) same v.2 in
      let linked = find_linked-insert_over u z.id x y d (ground arith) same in
      ground (arith, lookup-insert u w x d)
]

-- For a user who has no profile.
find_linked-insert_new :
    (u j : Bytes) (x : XProfile) (d : Dict Bytes XProfile)
    → lookup u d ≡ none
    → find_linked j d ≡ none
    → find_linked j (insert u x d) ≡ (if x.id == j then some u else none)
unfolding insert find_linked lookup
find_linked-insert_new u j x [] h free = refl
find_linked-insert_new u j x ((w, z) ∷ d) h free = ground (arith, find_linked-insert_new u j x d)

insert_new-IsOneToOne :
    (u : Bytes) (x : XProfile) (d : Dict Bytes XProfile)
    → lookup u d ≡ none
    → find_linked x.id d ≡ none
    → IsOneToOne d
    → IsOneToOne (insert u x d)
unfolding IsOneToOne insert lookup find_linked
insert_new-IsOneToOne u x [] h free v = ground arith
insert_new-IsOneToOne u x ((w, z) ∷ d) h free v =
    let rest = insert_new-IsOneToOne u x d (ground arith) (ground arith) v.2 in
    let linked = find_linked-insert_new u z.id x d (ground arith) v.1 in
    ground (arith, lookup-insert u w x d)

link-IsOneToOne :
    (u : Bytes) (x : XProfile) (token : Bytes) (m : Store)
    → IsOneToOne m.x_profiles_by_user
    → IsOneToOne (link_x_account u x token m).1.x_profiles_by_user
unfolding link_x_account refreshed
link-IsOneToOne u x token m v = elim (Option-cases (lookup u m.x_profiles_by_user)) [
  | inl absent ↦
      let d = m.x_profiles_by_user in
      let none_left = lookup-drop_linked x.id u d absent in
      let fresh = find_linked-drop_linked x.id x.id d in
      let rest = drop_linked-IsOneToOne x.id d v in
      let written = insert_new-IsOneToOne u x (drop_linked x.id d) none_left (ground arith) rest in
      ground arith
  | inr (y, present) ↦ elim (Bool-cases (y.id == x.id)) [
    | inl same ↦
        let written =
          insert_over-IsOneToOne u (refreshed y x) y m.x_profiles_by_user present refl v in
        ground arith
    | inr other ↦ ground arith
  ]
]

step-IsOneToOne :
    (c : Call) (m : Store)
    → IsOneToOne m.x_profiles_by_user
    → IsOneToOne (step c m).x_profiles_by_user
unfolding step set_display_name unlink_x_account
step-IsOneToOne (names u name) m v = v
step-IsOneToOne (links u x token) m v = link-IsOneToOne u x token m v
step-IsOneToOne (unlinks u i) m v = ground (arith, erase-IsOneToOne u m.x_profiles_by_user v)

run-IsOneToOne :
    (cs : List Call) (m : Store)
    → IsOneToOne m.x_profiles_by_user
    → IsOneToOne (run cs m).x_profiles_by_user
unfolding run
run-IsOneToOne [] m v = v
run-IsOneToOne (c ∷ cs) m v = run-IsOneToOne cs (step c m) (step-IsOneToOne c m v)

pub reached-IsOneToOne : (cs : List Call) → IsOneToOne (run cs new_in_memory).x_profiles_by_user
unfolding IsOneToOne
reached-IsOneToOne cs = run-IsOneToOne cs new_in_memory tt

-- After any sequence of writes to a new store, the lookup by X account finds exactly the user
-- whose linked profile is of that account: no account is linked to two users.
pub get_user_linked_iff :
    (cs : List Call) (i u : Bytes)
    → let m = run cs new_in_memory in
      (get_user_linked_to_x_account i m ≡ ok u)
      ↔ ((x : XProfile) × (get_x_profile u m ≡ ok x) × (x.id ≡ i))
unfolding get_user_linked_to_x_account get_x_profile
get_user_linked_iff cs i u =
    let d = (run cs new_in_memory).x_profiles_by_user in
    let v = reached-IsOneToOne cs in
    (
      λ h.
          let (x, found, same) = lookup-find_linked d v i u (ground arith) in
          (x, ground arith, same),
      λ (x, h, same). ground (arith, find_linked-lookup d v i u x (ground arith) same),
    )

lookup-drop_linked_valid :
    (i u : Bytes) (d : Dict Bytes XProfile)
    → IsOneToOne d
    → lookup u (drop_linked i d)
      ≡ elim (lookup u d) [ none ↦ none | some x ↦ if x.id == i then none else some x ]
unfolding drop_linked lookup IsOneToOne
lookup-drop_linked_valid i u [] v = refl
lookup-drop_linked_valid i u ((w, y) ∷ d) v =
    ground (arith, lookup-drop_linked_valid i u d v.2, lookup-drop_linked i u d)

-- Nobody but the user has the account that is linked to the user.
unique :
    (d : Dict Bytes XProfile)
    → IsOneToOne d
    → (u v : Bytes) (x y : XProfile) → lookup u d ≡ some x
    → lookup v d ≡ some y
    → x.id ≡ y.id
    → u ≡ v
unique d valid u v x y h k same =
    let first = find_linked-lookup d valid y.id u x h same in
    let second = find_linked-lookup d valid y.id v y k refl in ground arith

-- In a store where no account stands twice, linking an X account succeeds where the user has none or that very one. It then is the user's,
-- in its new form, every other user who had it has none, and all else is as before; where it
-- fails, nothing changes.
pub get_x_profile-link :
    (u v : Bytes) (x : XProfile) (token : Bytes) (m : Store)
    → IsOneToOne m.x_profiles_by_user
    → let (result, m') = link_x_account u x token m in
      (result ≡ elim (get_x_profile u m) [
        | err e ↦ ok tt
        | ok y ↦ if y.id == x.id then ok tt else err existing_social_link
      ])
      × (get_x_profile v m' ≡ elim result [
        | err e ↦ get_x_profile v m
        | ok _ ↦ if u == v then ok x else elim (get_x_profile v m) [
          | err e ↦ err e
          | ok y ↦ if y.id == x.id then err not_found else ok y
        ]
      ])
unfolding link_x_account get_x_profile refreshed
get_x_profile-link u v x token m valid =
    let d = m.x_profiles_by_user in
    elim (Option-cases (lookup u d)) [
      | inl absent ↦
          let written = lookup-insert u v x (drop_linked x.id d) in
          let kept = lookup-drop_linked_valid x.id v d valid in (ground arith, ground arith)
      | inr (y, present) ↦
          let written = lookup-insert u v (refreshed y x) d in
          elim (Option-cases (lookup v d)) [
            | inl missing ↦ (ground arith, ground arith)
            | inr (z, found) ↦ (ground arith, ground (arith, unique d valid u v y z present found))
          ]
    ]
