-- ===== src/Promoted.antt =====
-- promoted/store.go, promoted/memory/store.go: the chats that are promoted under a topic. The
-- store compares chat ids as pointers, so a chat id has an address here.
mod Order
pub mod Postgres
use flipchat_server.Base.{
  ltb, if◌then◌else◌, ◌==◌, nat_eq, Bytes, bytes_eq, Dict, insert, lookup_or, length, sort, Result,
  ok, err, Time, ℤ, pos, negsuc, ℕ, Bool, Option, none, some, List, [], ◌∷◌, ◌++◌,
}

-- `ErrNotFound`, `ErrInvalidChatID`, `ErrInvalidScore` and `ErrInvalidTopic`.
pub data PromotedError : Type 0 where
  not_found invalid_chat_id invalid_score invalid_topic : PromotedError

-- A `*commonpb.ChatId`: two pointers are equal where their addresses are.
pub record ChatRef : Type 0 where
  pub address : ℕ
  pub value : Bytes

-- `PromotedChat`; a score is never negative.
pub record PromotedChat : Type 0 where
  pub chat_id : ChatRef
  pub score : ℕ
  pub topic : Bytes
  pub created_at : Time
  pub updated_at : Time

-- `memoryStore`
pub record Store : Type 0 where
  pub chats_by_topic : Dict Bytes (List PromotedChat)

abbrev pub new_in_memory : Store
new_in_memory = record { chats_by_topic = [] }

-- `reset`
abbrev pub reset : Store → Store
reset m = record { chats_by_topic = [] }

abbrev pub chats_of : Bytes → Store → List PromotedChat
chats_of topic m = lookup_or topic [] m.chats_by_topic

with_chats : Bytes → List PromotedChat → Store → Store
with_chats topic chats m = record m { chats_by_topic = insert topic chats m.chats_by_topic }

-- The highest score first; `sort.Slice` may put chats of one score in any order.
abbrev pub higher : PromotedChat → PromotedChat → Bool
higher a b = ltb b.score a.score

unfoldable pub get_promoted_chats : Bytes → Store → List PromotedChat
get_promoted_chats topic m = sort higher (chats_of topic m)

rescored : ℕ → Time → PromotedChat → PromotedChat
rescored score now c = record c { score = score; updated_at = now }

-- The loop of `PromoteChat`: the list with the new score, where the pointer is found.
rescore : ℕ → ℕ → Time → List PromotedChat → Option (List PromotedChat)
unfolding rescored
rescore address score now [] = none
rescore address score now (c ∷ cs) =
    let rest = rescore address score now cs in
    if c.chat_id.address == address
    then some (rescored score now c ∷ cs)
    else elim rest [ none ↦ none | some cs' ↦ some (c ∷ cs') ]

-- `PromoteChat` for a chat id, a score and a topic that are valid.
promote_valid : ChatRef → Bytes → ℕ → Time → Store → Store
unfolding rescore with_chats
promote_valid chat_id topic score now m =
    elim (rescore chat_id.address score now (chats_of topic m)) [
      | some cs ↦ with_chats topic cs m
      | none ↦
          let chat : PromotedChat = record {
            chat_id = chat_id;
            score = score;
            topic = topic;
            created_at = now;
            updated_at = now;
          } in
          with_chats topic (chats_of topic m ++ chat ∷ []) m
    ]

unfoldable pub promote_chat :
    Option ChatRef → Bytes → ℤ → Time → Store → Result PromotedError (Unit {0}) × Store
unfolding promote_valid
promote_chat none topic score now m = (err invalid_chat_id, m)
promote_chat (some chat_id) topic (negsuc n) now m = (err invalid_score, m)
promote_chat (some chat_id) topic (pos score) now m =
    if length topic == 0
    then (err invalid_topic, m)
    else (ok tt, promote_valid chat_id topic score now m)

-- The loop of `DemoteChat`: the list without the chat, where the pointer is found.
remove_ref : ℕ → List PromotedChat → Option (List PromotedChat)
remove_ref address [] = none
remove_ref address (c ∷ cs) =
    let rest = remove_ref address cs in
    if c.chat_id.address == address
    then some cs
    else elim rest [ none ↦ none | some cs' ↦ some (c ∷ cs') ]

unfoldable pub demote_chat :
    Option ChatRef → Bytes → Store → Result PromotedError (Unit {0}) × Store
unfolding remove_ref with_chats
demote_chat none topic m = (err invalid_chat_id, m)
demote_chat (some chat_id) topic m =
    if length topic == 0
    then (err invalid_topic, m)
    else elim (remove_ref chat_id.address (chats_of topic m)) [
      | none ↦ (err not_found, m)
      | some cs ↦ (ok tt, with_chats topic cs m)
    ]
