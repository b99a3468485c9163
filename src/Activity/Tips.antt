-- ===== src/Activity/Tips.antt =====
-- activity/memory/store.go: the notifications of the tips for one message.
use flipchat_server.Activity.{
  transaction_history, Details, send_tip, Notification, Store, notifications_of, find_notification,
  merge, write_notification, save_existing, save_new, save_notification, send_tip_type,
  get_notification_id, new_send_tip,
}
use flipchat_server.Base.{
  ◌==◌, ==_refl, Bytes, bytes_eq, keep, lookup-insert, Time, ℕ, ◌+◌, ◌%◌, ◌^◌, ◌<◌, ◌≡◌, refl, none,
  some, List, [], ◌∷◌, ◌++◌, arith,
}

-- Saving notifications of tips by a user for a message, one after the other.
pub tip_all : (Bytes → Bytes) → Bytes → Bytes → Bytes → List (ℕ × Time) → Store → Store
tip_all sha256 u c x [] m = m
tip_all sha256 u c x ((quarks, ts) ∷ tips) m =
    tip_all sha256 u c x tips
      (save_notification transaction_history u (new_send_tip sha256 u c x quarks ts) m).1

unfoldable pub total : List (ℕ × Time) → ℕ
total [] = 0
total ((quarks, ts) ∷ tips) = quarks + total tips

-- The notifications of a feed under an id.
abbrev pub under : Bytes → List Notification → List Notification
under id ns = keep (λ n. id == n.id) ns

find_notification-under :
    (id : Bytes) (ns : List Notification)
    → find_notification id ns ≡ elim (under id ns) [ [] ↦ none | n ∷ rest ↦ some n ]
unfolding find_notification keep
find_notification-under id [] = refl
find_notification-under id (n ∷ ns) = ground (arith, find_notification-under id ns)

under-write :
    (id : Bytes) (d : Details) (ns : List Notification)
    → under id (write_notification id d ns)
      ≡ elim (under id ns) [ [] ↦ [] | n ∷ rest ↦ record n { details = d } ∷ rest ]
unfolding write_notification keep
under-write id d [] = refl
under-write id d (n ∷ ns) = ground (arith, under-write id d ns)

under-append :
    (n : Notification) (ns : List Notification)
    → under n.id (ns ++ n ∷ []) ≡ under n.id ns ++ n ∷ []
unfolding keep
under-append n [] = ground (arith, ==_refl n.id)
under-append n (n' ∷ ns) = ground (arith, under-append n ns)

module _ (sha256 : Bytes → Bytes) (u c x : Bytes) where
  unfoldable pub tip_id : Bytes
  tip_id = get_notification_id sha256 send_tip_type u (c ∷ x ∷ [])

  -- The notifications in the user's feed that are under the id of the tips for the message.
  unfoldable pub tips_of : Store → List Notification
  tips_of m = under tip_id (notifications_of u m)

  one_more_tip :
      (quarks : ℕ) (ts : Time) (m : Store) (n : Notification) (sum : ℕ)
      → tips_of m ≡ n ∷ []
      → n.details ≡ send_tip c x sum
      → tips_of (save_notification transaction_history u (new_send_tip sha256 u c x quarks ts) m).1
        ≡ record n { details = send_tip c x ((sum + quarks) % 2 ^ 64) } ∷ []
  unfolding tips_of save_notification save_existing merge new_send_tip tip_id
  one_more_tip quarks ts m n sum h d =
      let ns = notifications_of u m in
      let id = get_notification_id sha256 send_tip_type u (c ∷ x ∷ []) in
      let merged = send_tip c x ((sum + quarks) % 2 ^ 64) in
      ground (
        arith,
        h,
        d,
        find_notification-under id ns,
        lookup-insert u u (write_notification id merged ns) m.notifications,
        under-write id merged ns,
      )

  first_tip :
      (quarks : ℕ) (ts : Time) (m : Store)
      → tips_of m ≡ []
      → let n = new_send_tip sha256 u c x quarks ts in
        tips_of (save_notification transaction_history u n m).1 ≡ n ∷ []
  unfolding tips_of save_notification save_new new_send_tip tip_id
  first_tip quarks ts m h =
      let n = new_send_tip sha256 u c x quarks ts in
      let ns = notifications_of u m in
      ground (
        arith,
        h,
        find_notification-under n.id ns,
        lookup-insert u u (ns ++ n ∷ []) m.notifications,
        under-append n ns,
      )

  first_details :
      (quarks : ℕ) (ts : Time) → (new_send_tip sha256 u c x quarks ts).details ≡ send_tip c x quarks
  unfolding new_send_tip
  first_details quarks ts = refl

  more_tips :
      (tips : List (ℕ × Time)) (m : Store) (n : Notification) (sum : ℕ)
      → tips_of m ≡ n ∷ []
      → n.details ≡ send_tip c x sum
      → sum < 2 ^ 64
      → tips_of (tip_all sha256 u c x tips m)
        ≡ record n { details = send_tip c x ((sum + total tips) % 2 ^ 64) } ∷ []
  unfolding tip_all total
  more_tips [] m n sum h d bound = ground (arith, h, d)
  more_tips ((quarks, ts) ∷ tips) m n sum h d bound =
      let m' =
        (save_notification transaction_history u (new_send_tip sha256 u c x quarks ts) m).1 in
      let n' : Notification = record n { details = send_tip c x ((sum + quarks) % 2 ^ 64) } in
      ground (
        arith,
        more_tips tips m' n' ((sum + quarks) % 2 ^ 64) (one_more_tip quarks ts m n sum h d) refl
            (omega arith),
      )

-- The tips that a user sends for one message are one notification: after any number of them, the
-- first of an amount below 2 ^ 64, on a feed that had none under their id before, the feed has
-- exactly one notification under that id, the first, with the total of the tips, modulo 2 ^ 64, in
-- place of its amount.
pub tips_add_up :
    (sha256 : Bytes → Bytes) (u c x : Bytes) (quarks : ℕ) (ts : Time) (tips : List (ℕ × Time))
    (m : Store)
    → tips_of sha256 u c x m ≡ []
    → quarks < 2 ^ 64
    → let first = new_send_tip sha256 u c x quarks ts in
      tips_of sha256 u c x (tip_all sha256 u c x ((quarks, ts) ∷ tips) m)
      ≡ record first { details = send_tip c x ((quarks + total tips) % 2 ^ 64) } ∷ []
unfolding tip_all
tips_add_up sha256 u c x quarks ts tips m h bound =
    let n = new_send_tip sha256 u c x quarks ts in
    more_tips sha256 u c x tips (save_notification transaction_history u n m).1 n quarks
      (first_tip sha256 u c x quarks ts m h) (first_details sha256 u c x quarks ts) bound
