-- ===== src/PushServer/Invalid.antt =====
-- push/pusher.go: what a push leaves of the tokens.
use flipchat_server.PushServer.{Delivery, unregistered, multicast, process_response, send_pushes}
use flipchat_server.Push.{Token, Store, get_tokens, get_tokens_batch, is_token, delete_token}
use flipchat_server.Push.Devices.{get_tokens-delete}
use flipchat_server.Base.{
  nat_eq, Bytes, bytes_eq, length, keep, ◌≤◌, ◌≡◌, refl, Bool, true, false, not, ◌||◌, Option, none,
  some, List, [], ◌∷◌, arith,
}

-- Whether Firebase answered of a token like this one that it is not registered any more.
pub is_invalid : (Token → Delivery) → List Token → Token → Bool
is_invalid answer [] x = false
is_invalid answer (y ∷ ys) x = elim (answer y) [
  | unregistered ↦ is_token y.kind y.token x || is_invalid answer ys x
  | _ ↦ is_invalid answer ys x
]

abbrev pub tokens_sent : Option (List Token) → List Token
tokens_sent none = []
tokens_sent (some xs) = xs

keep-all : (xs : List Token) → keep (λ x. true) xs ≡ xs
unfolding keep
keep-all [] = refl
keep-all (x ∷ xs) = ground (arith, keep-all xs)

keep-is_invalid :
    (answer : Token → Delivery) (y : Token) (ys xs : List Token)
    → keep (λ x. not (is_invalid answer (y ∷ ys) x)) xs ≡ elim (answer y) [
      | unregistered ↦
          keep (λ x. not (is_invalid answer ys x)) (keep (λ x. not (is_token y.kind y.token x)) xs)
      | _ ↦ keep (λ x. not (is_invalid answer ys x)) xs
    ]
unfolding keep is_invalid
keep-is_invalid answer y ys [] = ground arith
keep-is_invalid answer y ys (x ∷ xs) = ground (arith, keep-is_invalid answer y ys xs)

get_tokens-process_response :
    (answer : Token → Delivery) (ys : List Token) (w : Bytes) (m : Store)
    → get_tokens w (process_response answer ys m)
      ≡ keep (λ x. not (is_invalid answer ys x)) (get_tokens w m)
unfolding process_response is_invalid
get_tokens-process_response answer [] w m = ground (arith, keep-all (get_tokens w m))
get_tokens-process_response answer (y ∷ ys) w m =
    let m' = delete_token y.kind y.token m in
    ground (
      arith,
      get_tokens-process_response answer ys w m,
      get_tokens-process_response answer ys w m',
      get_tokens-delete y.kind y.token w m,
      keep-is_invalid answer y ys (get_tokens w m),
    )

-- A push goes to no more than 500 tokens. After it the devices of every user, whether the push was
-- for that user or not, have exactly the tokens that they had before, less those of which Firebase
-- answered that they are not registered; a push that goes to no token changes none.
pub get_tokens-send_pushes :
    (answer : Token → Delivery) (users : List Bytes) (m : Store) (w : Bytes)
    → let (sent, m') = send_pushes answer users m in
      (length (tokens_sent sent) ≤ 500)
      × (get_tokens w m'
          ≡ keep (λ x. not (is_invalid answer (tokens_sent sent) x)) (get_tokens w m))
unfolding send_pushes multicast is_invalid
get_tokens-send_pushes answer users m w =
    let xs = get_tokens_batch users m in
    (
      ground arith,
      ground (arith, keep-all (get_tokens w m), get_tokens-process_response answer xs w m),
    )
