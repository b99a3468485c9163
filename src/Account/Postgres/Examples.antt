-- ===== src/Account/Postgres/Examples.antt =====
-- Accounts in tables.
use flipchat_server.Account.{new_in_memory}
use flipchat_server.Account.Postgres.{UserTable, KeyTable}
use flipchat_server.Account.Postgres.Keys.{
  Call, binds, removes, flags, finds, authorizes, asks_registered, table_answers, memory_answers,
  table_answers-memory_answers,
}
use flipchat_server.Postgres.Examples.{plain}
use flipchat_server.Postgres.Lists.{list_table}
use flipchat_server.Base.{Bytes, bytes_eq, ◌≡◌, true, List, [], ◌∷◌}

abbrev users : UserTable
users = list_table (λ r. r.id)

abbrev keys : KeyTable
keys = list_table (λ r. r.key)

abbrev alice : Bytes
alice = 1 ∷ []

abbrev bob : Bytes
bob = 2 ∷ []

abbrev key : Bytes
key = 9 ∷ []

-- Bob cannot take Alice's key, nor remove it.
abbrev calls : List Call
calls =
    binds alice key 1 2
    ∷ binds bob key 3 4
    ∷ flags alice true
    ∷ flags bob true
    ∷ removes bob key
    ∷ finds key
    ∷ authorizes bob key
    ∷ asks_registered alice
    ∷ []

table_answers-memory_answers_example :
    table_answers plain users keys calls (record { user_rows = users.empty; key_rows = keys.empty })
    ≡ memory_answers calls new_in_memory
table_answers-memory_answers_example = table_answers-memory_answers plain users keys calls
