-- ===== src/Messaging/Sorting.antt =====
-- messaging/memory/store.go: the messages of a chat stand in the order of their ids.
use flipchat_server.Base.{
  if◌then◌else◌, ◌==◌, Bytes, bytes_eq, bytes_lt_irrefl, bytes_lt_trans, bytes_lt_total, lookup,
  lookup-insert, All, insert_sorted, sort, ok, Time, ◌≡◌, refl, ◌∙◌, ◌≢◌, Bool, true, false, ◌&&◌,
  ◌||◌, none, List, [], ◌∷◌, ◌++◌, arith,
}
use flipchat_server.Messaging.{
  Message, Draft, Store, new_in_memory, messages_of, find_message, get_message, less,
  stored_message, put_message,
}

-- Each message stands before all that follow it.
abbrev pub IsAscending : List Message → Type 0
IsAscending [] = Unit
IsAscending (x ∷ xs) = All (λ y. less x y ≡ true) xs × IsAscending xs

unfoldable pub has_id : Bytes → List Message → Bool
has_id id [] = false
has_id id (x ∷ xs) = x.message_id == id || has_id id xs

abbrev pub IsDistinct : List Message → Type 0
IsDistinct [] = Unit
IsDistinct (x ∷ xs) = (has_id x.message_id xs ≡ false) × IsDistinct xs

has_id-insert_sorted :
    (i : Bytes) (x : Message) (xs : List Message)
    → has_id i (insert_sorted less x xs) ≡ has_id i (x ∷ xs)
unfolding has_id insert_sorted
has_id-insert_sorted i x [] = refl
has_id-insert_sorted i x (y ∷ xs) = ground (arith, has_id-insert_sorted i x xs)

has_id-sort : (i : Bytes) (xs : List Message) → has_id i (sort less xs) ≡ has_id i xs
unfolding has_id sort
has_id-sort i [] = refl
has_id-sort i (x ∷ xs) = ground (arith, has_id-sort i xs, has_id-insert_sorted i x (sort less xs))

has_id-append :
    (i : Bytes) (xs ys : List Message) → has_id i (xs ++ ys) ≡ (has_id i xs || has_id i ys)
unfolding has_id
has_id-append i [] ys = refl
has_id-append i (x ∷ xs) ys = ground (arith, has_id-append i xs ys)

All-insert_sorted :
    (y x : Message) (xs : List Message)
    → less y x ≡ true
    → All (λ z. less y z ≡ true) xs
    → All (λ z. less y z ≡ true) (insert_sorted less x xs)
unfolding insert_sorted
All-insert_sorted y x [] h a = (h, tt)
All-insert_sorted y x (z ∷ xs) h a = ground (arith, All-insert_sorted y x xs h a.1)

-- What stands after a later message stands after an earlier one.
All-less_trans :
    (x y : Message) (xs : List Message)
    → less x y ≡ true
    → All (λ z. less y z ≡ true) xs
    → All (λ z. less x z ≡ true) xs
All-less_trans x y [] h a = tt
All-less_trans x y (z ∷ xs) h a =
    (bytes_lt_trans x.message_id y.message_id z.message_id h a.0, All-less_trans x y xs h a.1)

insert_sorted-IsAscending :
    (x : Message) (xs : List Message)
    → IsAscending xs
    → has_id x.message_id xs ≡ false
    → IsAscending (insert_sorted less x xs)
unfolding insert_sorted has_id
insert_sorted-IsAscending x [] a h = (tt, tt)
insert_sorted-IsAscending x (y ∷ xs) (a, as') h = ground (
  arith,
  All-less_trans x y xs,
  insert_sorted-IsAscending x xs as',
  All-insert_sorted y x xs,
  bytes_lt_total x.message_id y.message_id,
)

sort-IsAscending : (xs : List Message) → IsDistinct xs → IsAscending (sort less xs)
unfolding sort
sort-IsAscending [] d = tt
sort-IsAscending (x ∷ xs) (fresh, d) =
    insert_sorted-IsAscending x (sort less xs) (sort-IsAscending xs d)
      (rw (has_id-sort x.message_id xs) fresh)

has_id_above :
    (x : Message) (xs : List Message)
    → All (λ y. less x y ≡ true) xs
    → has_id x.message_id xs ≡ false
unfolding has_id
has_id_above x [] a = refl
has_id_above x (y ∷ xs) a = ground (arith, has_id_above x xs a.1, bytes_lt_irrefl x.message_id)

IsAscending-IsDistinct : (xs : List Message) → IsAscending xs → IsDistinct xs
IsAscending-IsDistinct [] a = tt
IsAscending-IsDistinct (x ∷ xs) (a, as') = (has_id_above x xs a, IsAscending-IsDistinct xs as')

append-IsDistinct :
    (xs : List Message) (x : Message)
    → IsDistinct xs
    → has_id x.message_id xs ≡ false
    → IsDistinct (xs ++ x ∷ [])
unfolding has_id
append-IsDistinct [] x d h = (refl, tt)
append-IsDistinct (y ∷ xs) x (fresh, d) h = (
  ground (arith, has_id-append y.message_id xs (x ∷ [])),
  append-IsDistinct xs x d (ground arith),
)

find_message-insert_sorted :
    (i : Bytes) (x : Message) (xs : List Message)
    → has_id x.message_id xs ≡ false
    → find_message i (insert_sorted less x xs) ≡ find_message i (x ∷ xs)
unfolding find_message insert_sorted has_id
find_message-insert_sorted i x [] h = refl
find_message-insert_sorted i x (y ∷ xs) h = ground (arith, find_message-insert_sorted i x xs)

find_message-sort :
    (i : Bytes) (xs : List Message)
    → IsDistinct xs
    → find_message i (sort less xs) ≡ find_message i xs
unfolding find_message sort
find_message-sort i [] d = refl
find_message-sort i (x ∷ xs) (fresh, d) = ground (
  arith,
  find_message-sort i xs d,
  find_message-insert_sorted i x (sort less xs),
  has_id-sort x.message_id xs,
)

find_message-append :
    (i : Bytes) (xs : List Message) (x : Message)
    → has_id x.message_id xs ≡ false
    → find_message i (xs ++ x ∷ []) ≡ find_message i (x ∷ xs)
unfolding find_message has_id
find_message-append i [] x h = refl
find_message-append i (y ∷ xs) x h = ground (arith, find_message-append i xs x)

-- A new message, under an id that its chat does not hold, is found under that id as it was
-- returned, with the time given or else the time of the call; all other messages are found as
-- before.
pub get_message-put_message :
    (c d j id : Bytes) (msg : Draft) (now : Time) (m : Store)
    → IsAscending (messages_of c m)
    → has_id id (messages_of c m) ≡ false
    → msg.message_id ≡ none
    → let (r, m') = put_message c msg id now m in
      (r ≡ ok (stored_message id now msg))
      × (get_message d j m' ≡ (if c == d && (j == id) then r else get_message d j m))
unfolding put_message get_message find_message
get_message-put_message c d j id msg now m a fresh e =
    let x = stored_message id now msg in
    let xs = messages_of c m in
    let found =
      find_message-sort j (xs ++ x ∷ [])
        (append-IsDistinct xs x (IsAscending-IsDistinct xs a) fresh) in
    let added = find_message-append j xs x fresh in
    let written = lookup-insert c d (sort less (xs ++ x ∷ [])) m.messages in
    (ground arith, ground arith)

-- A call of `PutMessage`, with the id that is generated for it.
pub record Put : Type 0 where
  pub chat_id : Bytes
  pub draft : Draft
  pub id : Bytes
  pub now : Time

unfoldable pub put_all : List Put → Store → Store
put_all [] m = m
put_all (p ∷ ps) m = put_all ps (put_message p.chat_id p.draft p.id p.now m).1

-- The ids that are generated are all different.
abbrev pub HasFreshIds : List Put → Type 0
HasFreshIds [] = Unit
HasFreshIds (p ∷ ps) = All (λ q. q.id ≢ p.id) ps × HasFreshIds ps

-- No chat holds the id of a call that is still to come.
abbrev IsUnused : List Put → Store → Type 0
IsUnused ps m = All (λ p. (c : Bytes) → has_id p.id (messages_of c m) ≡ false) ps

put_message-has_id :
    (p : Put) (c i : Bytes) (m : Store)
    → i ≢ p.id
    → has_id i (messages_of c (put_message p.chat_id p.draft p.id p.now m).1)
      ≡ has_id i (messages_of c m)
unfolding put_message stored_message has_id
put_message-has_id p c i m ne =
    let x = stored_message p.id p.now p.draft in
    let xs = messages_of p.chat_id m ++ x ∷ [] in
    ground (
      arith,
      lookup-insert p.chat_id c (sort less xs) m.messages,
      has_id-sort i xs,
      has_id-append i (messages_of p.chat_id m) (x ∷ []),
    )

put_message-IsUnused :
    (p : Put) (ps : List Put) (m : Store)
    → All (λ q. q.id ≢ p.id) ps
    → IsUnused ps m
    → IsUnused ps (put_message p.chat_id p.draft p.id p.now m).1
put_message-IsUnused p [] m ne u = tt
put_message-IsUnused p (q ∷ ps) m (ne, nes) (u, us) =
    (λ c. put_message-has_id p c q.id m ne ∙ u c, put_message-IsUnused p ps m nes us)

put_message-IsAscending :
    (p : Put) (m : Store)
    → ((c : Bytes) → has_id p.id (messages_of c m) ≡ false)
    → ((c : Bytes) → IsAscending (messages_of c m))
    → (c : Bytes) → IsAscending (messages_of c (put_message p.chat_id p.draft p.id p.now m).1)
unfolding put_message stored_message
put_message-IsAscending p m fresh a c =
    let x = stored_message p.id p.now p.draft in
    let xs = messages_of p.chat_id m in
    ground (
      arith,
      a c,
      lookup-insert p.chat_id c (sort less (xs ++ x ∷ [])) m.messages,
      sort-IsAscending (xs ++ x ∷ [])
          (append-IsDistinct xs x (IsAscending-IsDistinct xs (a p.chat_id)) (fresh p.chat_id)),
    )

put_all-IsAscending :
    (ps : List Put) (m : Store)
    → HasFreshIds ps
    → IsUnused ps m
    → ((c : Bytes) → IsAscending (messages_of c m))
    → (c : Bytes) → IsAscending (messages_of c (put_all ps m))
unfolding put_all
put_all-IsAscending [] m f u a = a
put_all-IsAscending (p ∷ ps) m (f, fs) (u, us) a =
    put_all-IsAscending ps _ fs (put_message-IsUnused p ps m f us) (put_message-IsAscending p m u a)

nothing_stored : (ps : List Put) → IsUnused ps new_in_memory
unfolding lookup has_id
nothing_stored [] = tt
nothing_stored (p ∷ ps) = (λ c. refl, nothing_stored ps)

-- After any sequence of `PutMessage` calls on a new store under different ids, the messages of
-- every chat stand in strictly ascending order of their ids.
pub put_all-new-IsAscending :
    (ps : List Put) (c : Bytes)
    → HasFreshIds ps
    → IsAscending (messages_of c (put_all ps new_in_memory))
unfolding lookup
put_all-new-IsAscending ps c f =
    put_all-IsAscending ps new_in_memory f (nothing_stored ps) (λ d. tt) c
