-- ===== src/Messaging/Postgres/Advances.antt =====
-- messaging/postgres/store.go: the table of pointers beside the pointers in memory.
use flipchat_server.Postgres.Counts.{length-select_key}
use flipchat_server.Postgres.Encoding.{
  Codecs, base64, encode, decode-encode_as, encode_as_injective,
}
use flipchat_server.Messaging.{
  PointerType, Pointer, Store, pointer_type_eq, new_in_memory, get_pointers,
}
use flipchat_server.Messaging
use flipchat_server.Messaging.Pointers.{Advance, value_of, get_pointers-advance_pointer}
use flipchat_server.Messaging.Postgres.{
  PointerKey, PointerRow, PointerTable, pointer_key_eq, StoreError, pointer_key, to_pointer_model,
  db_update, db_put_pointer, advance_pointer,
}
use flipchat_server.Base.{
  if◌then◌else◌, ◌==◌, nat_eq, Option-cases, Bytes, bytes_eq, bytes_lt, lookup, Result, ok, ◌≡◌,
  refl, inl, inr, Bool, true, ◌&&◌, Option, none, some, List, [], ◌∷◌, arith,
}

-- The answers of a sequence of `AdvancePointer` calls on the store in memory.
abbrev pub advanced_in_memory : List Advance → Store → List (Result StoreError Bool)
advanced_in_memory [] m = []
advanced_in_memory (a ∷ as') m =
    let (moved, m') = Messaging.advance_pointer a.chat_id a.user_id a.pointer m in
    ok moved ∷ advanced_in_memory as' m'

module _ (codecs : Codecs) (db : PointerTable) where
  abbrev pub advanced_in_table : List Advance → db.State → List (Result StoreError Bool)
  advanced_in_table [] t = []
  advanced_in_table (a ∷ as') t =
      let (answer, t') = advance_pointer codecs db a.chat_id a.user_id a.pointer t in
      answer ∷ advanced_in_table as' t'

  abbrev row_of : Bytes → Bytes → PointerType → Option Bytes → Option PointerRow
  row_of c u k none = none
  row_of c u k (some v) =
      some (record { key = pointer_key codecs db c u k; value = encode codecs v })

  -- The table has a row for each pointer, with its value.
  abbrev Represents : db.State → Store → Type 0
  Represents t m =
      (c u : Bytes) (k : PointerType)
      → db.find (pointer_key codecs db c u k) t ≡ row_of c u k (value_of k (get_pointers c u m))

  pointer_key_lem :
      (c d u w : Bytes) (k l : PointerType)
      → (pointer_key codecs db c u k == pointer_key codecs db d w l)
        ≡ (c == d && ((u == w) && (k == l)))
  pointer_key_lem c d u w k l =
      ground (arith, encode_as_injective codecs base64 c d, encode_as_injective codecs base64 u w)

  -- An update of a row that is there finds it.
  db_update_lem :
      (r old : PointerRow) (t : db.State)
      → db.find r.key t ≡ some old
      → db_update codecs db r t
        ≡ (ok true, (db.update (λ x. x.key == r.key) (λ x. record x { value = r.value }) t).1)
  unfolding db_update
  db_update_lem r old t present = ground (
    arith,
    db.updated (λ x. x.key == r.key) (λ x. record x { value = r.value }) t,
    length-select_key db r.key t,
  )

  key_test : (x : PointerRow) (j k : PointerKey) → x.key ≡ j → (x.key == k) ≡ (k == j)
  key_test x j k e = rw e (ground arith)

  -- How a row is found after the update of a value.
  find-update_value :
      (r : PointerRow) (j : PointerKey) (t : db.State)
      → db.find j (db.update (λ x. x.key == r.key) (λ x. record x { value = r.value }) t).1
        ≡ elim (db.find j t) [
          | none ↦ none
          | some x ↦ some (if r.key == j then record { key = x.key; value = r.value } else x)
        ]
  find-update_value r j t =
      let law =
        db.find-update j (λ x. x.key == r.key) (λ x. record x { value = r.value }) t (λ x. refl) in
      elim (Option-cases (db.find j t)) [
        | inl absent ↦ ground (arith, law)
        | inr (x, present) ↦ ground (arith, law, key_test x j r.key (db.find_key j x t present))
      ]

  -- What the table answers, and how a pointer is found after it.
  module _ (c u : Bytes) (p : Pointer) (t : db.State) where
    advance_pointer_new :
        (j : PointerKey)
        → db.find (pointer_key codecs db c u p.kind) t ≡ none
        → let (answer, t') = advance_pointer codecs db c u p t in
          let r = to_pointer_model codecs db c u p in
          (answer ≡ ok true) × (db.find j t' ≡ (if r.key == j then some r else db.find j t))
    unfolding advance_pointer db_put_pointer
    advance_pointer_new j absent =
        let r = to_pointer_model codecs db c u p in
        elim (Option-cases (db.insert r t)) [
          | inl taken ↦ absurd (ground (arith, db.find-insert j r t))
          | inr (t', fresh) ↦ (ground arith, ground (arith, db.find-insert j r t))
        ]

    advance_pointer_old :
        (j : PointerKey) (v : Bytes)
        → let r = to_pointer_model codecs db c u p in
          db.find r.key t ≡ some (record { key = r.key; value = encode codecs v })
          → let (answer, t') = advance_pointer codecs db c u p t in
            (answer ≡ ok (bytes_lt v p.value))
            × (db.find j t' ≡ (if bytes_lt v p.value && r.key == j then some r else db.find j t))
    unfolding advance_pointer
    advance_pointer_old j v present =
        let r = to_pointer_model codecs db c u p in
        let old : PointerRow = record { key = r.key; value = encode codecs v } in
        ground (
          arith,
          decode-encode_as codecs base64 v,
          db_update_lem r old t present,
          find-update_value r j t,
        )

  advance_pointer-Represents :
      (c u : Bytes) (p : Pointer) (t : db.State) (m : Store)
      → Represents t m
      → let (answer, t') = advance_pointer codecs db c u p t in
        let (moved, m') = Messaging.advance_pointer c u p m in
        (answer ≡ ok moved) × Represents t' m'
  advance_pointer-Represents c u p t m h =
      elim (Option-cases (value_of p.kind (get_pointers c u m))) [
        | inl absent ↦
            let missing : db.find (pointer_key codecs db c u p.kind) t ≡ none =
              ground (arith, h c u p.kind) in
            (
              ground (
                arith,
                advance_pointer_new c u p t (pointer_key codecs db c u p.kind) missing,
                get_pointers-advance_pointer c c u u p p.kind m,
              ),
              λ d w k. ground (
                arith,
                advance_pointer_new c u p t (pointer_key codecs db d w k) missing,
                get_pointers-advance_pointer c d u w p k m,
                pointer_key_lem c d u w p.kind k,
                h d w k,
              ),
            )
        | inr (v, there) ↦
            let r = to_pointer_model codecs db c u p in
            let found : db.find r.key t ≡ some (record { key = r.key; value = encode codecs v }) =
              ground (arith, h c u p.kind) in
            (
              ground (
                arith,
                advance_pointer_old c u p t r.key v found,
                get_pointers-advance_pointer c c u u p p.kind m,
              ),
              λ d w k. ground (
                arith,
                advance_pointer_old c u p t (pointer_key codecs db d w k) v found,
                get_pointers-advance_pointer c d u w p k m,
                pointer_key_lem c d u w p.kind k,
                h d w k,
              ),
            )
      ]

  same_answers :
      (as' : List Advance) (t : db.State) (m : Store)
      → Represents t m
      → advanced_in_table as' t ≡ advanced_in_memory as' m
  same_answers [] t m h = refl
  same_answers (a ∷ as') t m h =
      let (answer, t') = advance_pointer codecs db a.chat_id a.user_id a.pointer t in
      let (moved, m') = Messaging.advance_pointer a.chat_id a.user_id a.pointer m in
      let (same, h') = advance_pointer-Represents a.chat_id a.user_id a.pointer t m h in
      ground (arith, same, same_answers as' t' m' h')

  -- The table of pointers refines the store in memory: calls of `AdvancePointer` that run one after
  -- the other, from an empty table and from a new store, get the same answers, none of which is an
  -- error.
  pub advanced_in_table-advanced_in_memory :
      (as' : List Advance) → advanced_in_table as' db.empty ≡ advanced_in_memory as' new_in_memory
  unfolding get_pointers lookup
  advanced_in_table-advanced_in_memory as' =
      same_answers as' db.empty new_in_memory (λ c u k. db.find-empty (pointer_key codecs db c u k))
