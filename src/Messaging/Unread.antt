-- ===== src/Messaging/Unread.antt =====
-- messaging/memory/store.go: what a new message does to the counts of unread messages.
use flipchat_server.Base.{
  if◌then◌else◌, ◌==◌, Bytes, bytes_eq, lookup-insert, length, keep, insert_sorted, sort, Time, ℤ,
  pos, negsuc, ℕ, ◌+◌, min, ◌≡◌, refl, Bool, ◌&&◌, Option, none, List, [], ◌∷◌, ◌++◌, arith,
}
use flipchat_server.Messaging.{
  Message, Draft, Store, messages_of, less, stored_message, put_message, is_unread, count_unread,
}

length-keep-insert_sorted :
    (p : Message → Bool) (x : Message) (xs : List Message)
    → length (keep p (insert_sorted less x xs)) ≡ length (keep p (x ∷ xs))
unfolding keep insert_sorted
length-keep-insert_sorted p x [] = refl
length-keep-insert_sorted p x (y ∷ xs) = ground (arith, length-keep-insert_sorted p x xs)

length-keep-sort :
    (p : Message → Bool) (xs : List Message) → length (keep p (sort less xs)) ≡ length (keep p xs)
unfolding keep sort
length-keep-sort p [] = refl
length-keep-sort p (x ∷ xs) =
    ground (arith, length-keep-sort p xs, length-keep-insert_sorted p x (sort less xs))

length-keep-append :
    (p : Message → Bool) (xs ys : List Message)
    → length (keep p (xs ++ ys)) ≡ length (keep p xs) + length (keep p ys)
unfolding keep
length-keep-append p [] ys = omega arith
length-keep-append p (x ∷ xs) ys = ground (arith, length-keep-append p xs ys)

length-keep_one :
    (p : Message → Bool) (x : Message) → length (keep p (x ∷ [])) ≡ (if p x then 1 else 0)
unfolding keep
length-keep_one p x = ground arith

-- No limit on the count.
abbrev pub no_limit : ℤ
no_limit = negsuc 0

-- `PutMessage` raises a user's count of unread messages by one in its own chat, if the message is
-- a text or a reply by somebody else whose id lies past the last one read, and else changes no
-- count; a limit of zero or more caps the count.
pub count_unread-put_message :
    (c d u id : Bytes) (last_read : Option Bytes) (n : ℕ) (msg : Draft) (now : Time) (m : Store)
    → msg.message_id ≡ none
    → let m' = (put_message c msg id now m).1 in
      (count_unread d u last_read no_limit m'
        ≡ count_unread d u last_read no_limit m
          + (if c == d && is_unread u last_read (stored_message id now msg) then 1 else 0))
      × (count_unread d u last_read (pos n) m' ≡ min n (count_unread d u last_read no_limit m'))
unfolding put_message count_unread
count_unread-put_message c d u id last_read n msg now m e =
    let x = stored_message id now msg in
    let p = is_unread u last_read in
    let xs = messages_of c m in
    (
      ground (
        arith,
        lookup-insert c d (sort less (xs ++ x ∷ [])) m.messages,
        length-keep-sort p (xs ++ x ∷ []),
        length-keep-append p xs (x ∷ []),
        length-keep_one p x,
      ),
      ground arith,
    )
