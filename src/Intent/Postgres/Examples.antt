-- ===== src/Intent/Postgres/Examples.antt =====
-- Payments in a table: one after the other, and two at once.
use flipchat_server.Postgres.Examples.{plain}
use flipchat_server.Postgres.Lists.{list_table}
use flipchat_server.Intent.{new_in_memory}
use flipchat_server.Intent.Postgres.{IntentTable, db_is_fulfilled}
use flipchat_server.Intent.Postgres.Sequential.{
  marked_in_table, marked_in_memory, marked_in_table-marked_in_memory,
}
use flipchat_server.Intent.Postgres.Racing.{Both, returned, used_twice}
use flipchat_server.Base.{Bytes, bytes_eq, ok, ◌≡◌, refl, false, List, [], ◌∷◌}

abbrev table : IntentTable
table = list_table (λ r. r.id)

abbrev payment : Bytes
payment = 7 ∷ []

abbrev payments : List Bytes
payments = payment ∷ (8 ∷ []) ∷ payment ∷ []

marked_in_table-marked_in_memory_example :
    marked_in_table plain table payments table.empty ≡ marked_in_memory payments new_in_memory
marked_in_table-marked_in_memory_example = marked_in_table-marked_in_memory plain table payments

unused : db_is_fulfilled plain table payment table.empty ≡ false
unfolding db_is_fulfilled list_table
unused = refl

used_twice_example :
    (t' : table.State) × Both plain table payment table.empty
      (returned (ok tt))
      (returned (ok tt))
      t'
used_twice_example = used_twice plain table payment table.empty unused
