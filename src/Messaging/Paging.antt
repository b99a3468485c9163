-- ===== src/Messaging/Paging.antt =====
-- messaging/memory/store.go: the pages of `GetPagedMessages`.
use mathlib.Core.List.{reverse, reverse-cons}
use flipchat_server.Base.{
  Bool-cases, Bytes, bytes_eq, bytes_lt_irrefl, bytes_lt_trans, length, take, keep, All,
  insert_sorted, sort, ℕ, zero, suc, ◌≤◌, ◌≡◌, refl, inl, inr, Bool, true, false, some, List, [],
  ◌∷◌, ◌++◌, arith,
}
use flipchat_server.Query.{asc, desc, Setting, apply_options}
use flipchat_server.Messaging.{
  Message, Store, messages_of, less, greater, past_token, in_order, get_paged_messages,
}
use flipchat_server.Messaging.Sorting.{IsAscending}

take-short : (xs : List Message) (limit : ℕ) → length xs ≤ limit → take limit xs ≡ xs
take-short [] zero short = refl
take-short [] (suc limit) short = refl
take-short (x ∷ xs) zero short = absurd (omega arith)
take-short (x ∷ xs) (suc limit) short = ground (arith, take-short xs limit)

-- The page is a prefix, whether or not the slice is cut.
get_paged_messages_lem :
    (c : Bytes) (options : List Setting) (m : Store)
    → let o = apply_options options in
      get_paged_messages c options m
      ≡ take o.limit (in_order o.order (keep (past_token o.order o.token) (messages_of c m)))
unfolding get_paged_messages
get_paged_messages_lem c options m =
    let o = apply_options options in
    let xs = in_order o.order (keep (past_token o.order o.token) (messages_of c m)) in
    ground (arith, take-short xs o.limit)

keep_none :
    (p : Message → Bool) (x : Message) (xs : List Message)
    → All (λ y. less x y ≡ true) xs
    → ((y : Message) → less x y ≡ true → p y ≡ false)
    → keep p xs ≡ []
unfolding keep
keep_none p x [] a h = refl
keep_none p x (y ∷ xs) a h = ground (arith, h y a.0, keep_none p x xs a.1 h)

keep-All : (p : Message → Bool) (xs : List Message) → All (λ y. p y ≡ true) xs → keep p xs ≡ xs
unfolding keep
keep-All p [] a = refl
keep-All p (x ∷ xs) a = ground (arith, keep-All p xs a.1)

All-split :
    (x y : Message) (xs ys : List Message)
    → All (λ z. less x z ≡ true) (xs ++ y ∷ ys)
    → less x y ≡ true
All-split x y [] ys a = a.0
All-split x y (z ∷ xs) ys a = All-split x y xs ys a.1

asymmetric : (x y : Message) → less x y ≡ true → less y x ≡ false
asymmetric x y h = elim (Bool-cases (less y x)) [
  | inl g ↦ ground (
    arith,
    bytes_lt_trans x.message_id y.message_id x.message_id h g,
    bytes_lt_irrefl x.message_id,
  )
  | inr g ↦ g
]

module _ (x : Message) (ys : List Message) where
  keep_after :
      (xs : List Message)
      → IsAscending (xs ++ x ∷ ys)
      → keep (past_token asc (some x.message_id)) (xs ++ x ∷ ys) ≡ ys
  unfolding keep past_token
  keep_after [] (a, as') =
      ground
        (arith, bytes_lt_irrefl x.message_id, keep-All (past_token asc (some x.message_id)) ys a)
  keep_after (z ∷ xs) (a, as') =
      ground (arith, asymmetric z x (All-split z x xs ys a), keep_after xs as')

  keep_before :
      (xs : List Message)
      → IsAscending (xs ++ x ∷ ys)
      → keep (past_token desc (some x.message_id)) (xs ++ x ∷ ys) ≡ xs
  unfolding keep past_token
  keep_before [] (a, as') = ground (
    arith,
    bytes_lt_irrefl x.message_id,
    keep_none (past_token desc (some x.message_id)) x ys a (λ y h. asymmetric x y h),
  )
  keep_before (z ∷ xs) (a, as') = ground (arith, All-split z x xs ys a, keep_before xs as')

insert_sorted-greater_last :
    (x : Message) (xs : List Message)
    → All (λ y. less x y ≡ true) xs
    → insert_sorted greater x xs ≡ xs ++ x ∷ []
unfolding insert_sorted
insert_sorted-greater_last x [] a = refl
insert_sorted-greater_last x (y ∷ xs) a =
    ground (arith, asymmetric x y a.0, insert_sorted-greater_last x xs a.1)

All-append :
    (x : Message) (xs ys : List Message)
    → All (λ z. less x z ≡ true) xs
    → All (λ z. less x z ≡ true) ys
    → All (λ z. less x z ≡ true) (xs ++ ys)
All-append x [] ys a b = b
All-append x (z ∷ xs) ys a b = (a.0, All-append x xs ys a.1 b)

All-reverse :
    (x : Message) (xs : List Message)
    → All (λ z. less x z ≡ true) xs
    → All (λ z. less x z ≡ true) (reverse xs)
All-reverse x [] a = tt
All-reverse x (y ∷ xs) a =
    rw (reverse-cons y xs) (All-append x (reverse xs) (y ∷ []) (All-reverse x xs a.1) (a.0, tt))

sort-greater : (xs : List Message) → IsAscending xs → sort greater xs ≡ reverse xs
unfolding sort
sort-greater [] a = refl
sort-greater (x ∷ xs) (a, as') =
    rw (sort-greater xs as', reverse-cons x xs)
      (insert_sorted-greater_last x (reverse xs) (All-reverse x xs a))

All-prefix :
    (x : Message) (xs ys : List Message)
    → All (λ z. less x z ≡ true) (xs ++ ys)
    → All (λ z. less x z ≡ true) xs
All-prefix x [] ys a = tt
All-prefix x (z ∷ xs) ys a = (a.0, All-prefix x xs ys a.1)

prefix-IsAscending : (xs ys : List Message) → IsAscending (xs ++ ys) → IsAscending xs
prefix-IsAscending [] ys a = tt
prefix-IsAscending (x ∷ xs) ys (a, as') = (All-prefix x xs ys a, prefix-IsAscending xs ys as')

-- In a chat whose messages ascend, the page in ascending order from the token of a message holds
-- the first messages that follow it, up to the limit: each page goes on where the one before
-- ended, with nothing skipped or repeated.
pub get_paged_messages-asc :
    (c : Bytes) (options : List Setting) (xs ys : List Message) (x : Message) (m : Store)
    → messages_of c m ≡ xs ++ x ∷ ys
    → IsAscending (xs ++ x ∷ ys)
    → (apply_options options).order ≡ asc
    → (apply_options options).token ≡ some x.message_id
    → get_paged_messages c options m ≡ take (apply_options options).limit ys
unfolding in_order
get_paged_messages-asc c options xs ys x m e a order token =
    rw (get_paged_messages_lem c options m, order, token, e, keep_after x ys xs a) refl

-- In a chat whose messages ascend, the page in descending order from the token of a message holds
-- the messages before it, the latest first, up to the limit.
pub get_paged_messages-desc :
    (c : Bytes) (options : List Setting) (xs ys : List Message) (x : Message) (m : Store)
    → messages_of c m ≡ xs ++ x ∷ ys
    → IsAscending (xs ++ x ∷ ys)
    → (apply_options options).order ≡ desc
    → (apply_options options).token ≡ some x.message_id
    → get_paged_messages c options m ≡ take (apply_options options).limit (reverse xs)
unfolding in_order
get_paged_messages-desc c options xs ys x m e a order token =
    rw
      (
        get_paged_messages_lem c options m,
        order,
        token,
        e,
        keep_before x ys xs a,
        sort-greater xs (prefix-IsAscending xs (x ∷ ys) a),
      )
      refl
