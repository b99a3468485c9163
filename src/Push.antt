-- ===== src/Push.antt =====
-- push/store.go, push/memory/store.go: the tokens by which the users' devices are reached.
pub mod Devices
mod Examples
pub mod Postgres
use flipchat_server.Base.{
  if◌then◌else◌, ◌==◌, nat_eq, Bytes, bytes_eq, Dict, lookup, insert, erase, lookup_or, ℕ, Bool,
  ◌&&◌, none, some, List, [], ◌∷◌, ◌++◌, map,
}

-- `push.Token`; the type is the number of a `pushpb.TokenType`.
pub record Token : Type 0 where
  pub kind : ℕ
  pub token : Bytes
  pub app_install_id : Bytes

-- `memory`: the tokens of each user, by the id of the app's installation.
pub record Store : Type 0 where
  pub tokens : Dict Bytes (Dict Bytes Token)

abbrev pub new_in_memory : Store
new_in_memory = record { tokens = [] }

-- `reset`
abbrev pub reset : Store → Store
reset m = record { tokens = [] }

-- `range` visits the tokens in an order of its own, of which the map's is one.
abbrev values : Dict Bytes Token → List Token
values d = map (λ entry. entry.1) d

unfoldable pub get_tokens : Bytes → Store → List Token
get_tokens user_id m = elim (lookup user_id m.tokens) [ none ↦ [] | some d ↦ values d ]

unfoldable pub get_tokens_batch : List Bytes → Store → List Token
get_tokens_batch [] m = []
get_tokens_batch (user_id ∷ user_ids) m =
    let rest = get_tokens_batch user_ids m in
    elim (lookup user_id m.tokens) [ none ↦ rest | some d ↦ values d ++ rest ]

-- The token that `AddToken` stores.
abbrev pub new_token : Bytes → ℕ → Bytes → Token
new_token app_install_id kind token = record {
  kind = kind;
  token = token;
  app_install_id = app_install_id;
}

unfoldable pub add_token : Bytes → Bytes → ℕ → Bytes → Store → Store
add_token user_id app_install_id kind token m =
    let user_tokens = lookup_or user_id [] m.tokens in
    let x = new_token app_install_id kind token in
    record m { tokens = insert user_id (insert app_install_id x user_tokens) m.tokens }

-- The test of the loop of `DeleteToken`.
abbrev pub is_token : ℕ → Bytes → Token → Bool
is_token kind token x = x.kind == kind && x.token == token

-- The inner loop deletes entries of the map that it ranges over.
delete_from : ℕ → Bytes → Dict Bytes Token → Dict Bytes Token
delete_from kind token [] = []
delete_from kind token ((id, x) ∷ d) =
    let rest = delete_from kind token d in if is_token kind token x then rest else (id, x) ∷ rest

delete_all : ℕ → Bytes → Dict Bytes (Dict Bytes Token) → Dict Bytes (Dict Bytes Token)
unfolding delete_from
delete_all kind token [] = []
delete_all kind token ((user_id, d) ∷ users) =
    (user_id, delete_from kind token d) ∷ delete_all kind token users

unfoldable pub delete_token : ℕ → Bytes → Store → Store
unfolding delete_all
delete_token kind token m = record m { tokens = delete_all kind token m.tokens }

unfoldable pub clear_tokens : Bytes → Store → Store
clear_tokens user_id m = record m { tokens = erase user_id m.tokens }

-- The calls that write to the store.
pub data Call : Type 0 where
  adds : Bytes → Bytes → ℕ → Bytes → Call
  deletes : ℕ → Bytes → Call
  clears : Bytes → Call

unfoldable pub step : Call → Store → Store
step (adds u id kind token) m = add_token u id kind token m
step (deletes kind token) m = delete_token kind token m
step (clears u) m = clear_tokens u m

unfoldable pub run : List Call → Store → Store
unfolding step
run [] m = m
run (c ∷ cs) m = run cs (step c m)
