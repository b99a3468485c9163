-- ===== src/Intent/Once.antt =====
-- intent/memory/store.go: an intent is used once.
use flipchat_server.Base.{
  if◌then◌else◌, ◌==◌, Bytes, bytes_eq, insert, lookup-insert, contains, ok, err, ℕ, suc, ◌≡◌, refl,
  not, ◌&&◌, List, [], ◌∷◌, arith,
}
use flipchat_server.Intent.{Store, is_fulfilled, mark_fulfilled}

-- How many calls of a sequence of `MarkFulfilled` calls succeed for an intent.
pub successes : Bytes → List Bytes → Store → ℕ
successes id [] s = 0
successes id (j ∷ js) s =
    let (r, s') = mark_fulfilled j s in
    let rest = successes id js s' in
    elim r [ ok _ ↦ if j == id then suc rest else rest | err _ ↦ rest ]

-- Of any sequence of `MarkFulfilled` calls, exactly one succeeds for an intent that is marked and
-- was not fulfilled before, and none for any other intent.
pub successes_lem :
    (id : Bytes) (js : List Bytes) (s : Store)
    → successes id js s ≡ (if contains id js && not (is_fulfilled id s) then 1 else 0)
unfolding successes mark_fulfilled is_fulfilled contains
successes_lem id [] s = refl
successes_lem id (j ∷ js) s = ground (
  arith,
  successes_lem id js s,
  successes_lem id js (record s { fulfilled_intents = insert j tt s.fulfilled_intents }),
  lookup-insert j id tt s.fulfilled_intents,
)
