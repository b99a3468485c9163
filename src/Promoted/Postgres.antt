-- ===== src/Promoted/Postgres.antt =====
-- promoted/postgres/model.go, promoted/postgres/store.go: promoted chats in a table of Postgres,
-- where a chat id is the text that its bytes are encoded as.
use flipchat_server.Promoted.{PromotedError, invalid_chat_id, invalid_score, invalid_topic}
use flipchat_server.Postgres.{Table}
use flipchat_server.Postgres.Encoding.{Codecs, base64, encode, decode, encode_as_injective}
use flipchat_server.Base.{
  ltb, if◌then◌else◌, Eq, ◌==◌, nat_eq, Bytes, bytes_eq, bytes_discrete, length, sort, Result, ok,
  err, ◌>>=◌, ℤ, pos, negsuc, ℕ, ◌≡◌, refl, false, ◌&&◌, Option, none, some, List, [], ◌∷◌, arith,
}

-- The primary key of `flipchat_promotedchats`.
pub record PromotedKey : Type 0 where
  pub chat_id : Bytes
  pub topic : Bytes

unfoldable pub promoted_key_discrete : Discrete PromotedKey
promoted_key_discrete = hlevel (bytes_discrete)

instance abbrev pub promoted_key_eq : Eq PromotedKey
promoted_key_eq = record { dec_eq = promoted_key_discrete }

-- `model`, less the times of its writing.
pub record PromotedRow : Type 0 where
  pub key : PromotedKey
  pub score : ℕ

abbrev pub PromotedTable : Type 1
PromotedTable = Table PromotedRow PromotedKey (λ r. r.key)

-- A promoted chat as it is read.
pub record Promotion : Type 0 where
  pub chat_id : Bytes
  pub topic : Bytes
  pub score : ℕ

pub data ReadError : Type 0 where
  undecodable : ReadError

module _ (codecs : Codecs) where
  abbrev pub promoted_key : Bytes → Bytes → PromotedKey
  promoted_key chat_id topic = record { chat_id = encode codecs chat_id; topic = topic }

  -- `toModel`
  abbrev pub to_model : Promotion → PromotedRow
  to_model p = record { key = promoted_key p.chat_id p.topic; score = p.score }

  -- `fromModel`
  unfoldable pub from_model : PromotedRow → Result ReadError Promotion
  from_model r = elim (decode codecs r.key.chat_id) [
    | err e ↦ err undecodable
    | ok chat_id ↦ ok (record { chat_id = chat_id; topic = r.key.topic; score = r.score })
  ]

  from_models : List PromotedRow → Result ReadError (List Promotion)
  from_models [] = ok []
  from_models (r ∷ rs) =
      let rest = from_models rs in from_model r >>= λ p. rest >>= λ ps. ok (p ∷ ps)

  module _ (db : PromotedTable) where
    -- `dbUpsert`
    unfoldable pub db_upsert : PromotedRow → db.State → db.State
    db_upsert r t = db.upsert r (λ x. record x { score = r.score }) t

    -- `PromoteChat`, where a chat id of nil is none.
    unfoldable pub promote_chat :
        Option Bytes → Bytes → ℤ → db.State → Result PromotedError (Unit {0}) × db.State
    unfolding db_upsert
    promote_chat none topic score t = (err invalid_chat_id, t)
    promote_chat (some chat_id) topic (negsuc n) t = (err invalid_score, t)
    promote_chat (some chat_id) topic (pos score) t =
        if length topic == 0 then (err invalid_topic, t) else (
          ok tt,
          db_upsert (to_model (record { chat_id = chat_id; topic = topic; score = score })) t,
        )

    -- `DemoteChat`, which does not tell whether there was a row.
    unfoldable pub demote_chat :
        Option Bytes → Bytes → db.State → Result PromotedError (Unit {0}) × db.State
    demote_chat none topic t = (err invalid_chat_id, t)
    demote_chat (some chat_id) topic t = if length topic == 0 then (err invalid_topic, t) else (
      ok tt,
      (db.delete (λ r. r.key.chat_id == encode codecs chat_id && r.key.topic == topic) t).1,
    )

    -- `ORDER BY "score" DESC`, where rows of one score may come in any order.
    pub get_promoted_chats : Bytes → db.State → Result ReadError (List Promotion)
    unfolding from_models
    get_promoted_chats topic t =
        from_models (sort (λ a b. ltb b.score a.score) (db.select (λ r. r.key.topic == topic) t))

    -- The score of a chat under a topic, if it is promoted there.
    abbrev pub score_of : Option PromotedRow → Option ℕ
    score_of none = none
    score_of (some r) = some r.score

    -- A chat has one score under a topic, the one that it was last promoted with, whatever message
    -- its id came in: promoting it sets its score there and no other.
    pub promote_chat_lem :
        (c topic d other : Bytes) (score : ℕ) (t : db.State)
        → (length topic == 0) ≡ false
        → let (answer, t') = promote_chat (some c) topic (pos score) t in
          (answer ≡ ok tt)
          × (score_of (db.find (promoted_key d other) t') ≡ (
              if c == d && topic == other
              then some score
              else score_of (db.find (promoted_key d other) t)))
    unfolding promote_chat db_upsert
    promote_chat_lem c topic d other score t valid =
        let row = to_model (record { chat_id = c; topic = topic; score = score }) in
        ground (
          arith,
          db.find-upsert (promoted_key d other) row (λ x. record x { score = score }) t (λ x. refl),
          encode_as_injective codecs base64 c d,
        )
