-- ===== src/Messaging.antt =====
-- messaging/store.go and messaging/memory/store.go: the messages of each chat, in the order of
-- their ids, and the pointers of its members. A new message's id, a version 7 UUID, and the
-- reading of the clock are arguments.
pub mod Sorting
pub mod Paging
pub mod Pointers
pub mod Postgres
pub mod Unread
mod Examples
use flipchat_server.Base.{
  ltb, if◌then◌else◌, Eq, ◌==◌, Bytes, bytes_eq, bytes_lt, Dict, insert, lookup_or, length, take,
  keep, sort, Result, ok, err, Time, ℤ, pos, negsuc, ℕ, Bool, true, false, not, ◌&&◌, Option, none,
  some, List, [], ◌∷◌, ◌++◌, map,
}
use flipchat_server.Query.{Order, asc, desc, Setting, apply_options}

-- `ErrMessageNotFound`, and the error of a message that has an id already.
pub data MessagingError : Type 0 where
  message_not_found has_message_id : MessagingError

-- `messagingpb.Content`, by its `Type`: the id of the message that it refers to, a reaction's emoji
-- as its runes, a tip's amount in quarks. `other` is any type that the server does not treat apart.
pub data Content : Type 0 where
  text : Bytes → Content
  reaction : Bytes → List ℕ → Content
  reply : Bytes → Bytes → Content
  tip : Bytes → ℕ → Content
  deleted : Bytes → Content
  review : Bytes → Bool → Content
  other : Content

-- `messagingpb.Message` as it is stored, with an id and a timestamp. A message holds one content,
-- of which `content` is the `Content[0]` that the server reads.
pub record Message : Type 0 where
  pub message_id : Bytes
  pub sender_id : Option Bytes
  pub content : Content
  pub ts : Time
  pub was_sender_off_stage : Bool

-- `messagingpb.Message` as it is given to `PutMessage`.
pub record Draft : Type 0 where
  pub message_id : Option Bytes
  pub sender_id : Option Bytes
  pub content : Content
  pub ts : Option Time
  pub was_sender_off_stage : Bool

-- `messagingpb.Pointer_Type`
pub data PointerType : Type 0 where
  unknown sent delivered read : PointerType

pub record Pointer : Type 0 where
  pub kind : PointerType
  pub value : Bytes

pub record UserPointer : Type 0 where
  pub user_id : Bytes
  pub pointer : Pointer

-- `Memory`: the messages by chat, and the pointers by chat and by user.
pub record Store : Type 0 where
  pub messages : Dict Bytes (List Message)
  pub pointers : Dict Bytes (Dict Bytes (List UserPointer))

abbrev pub new_in_memory : Store
new_in_memory = record { messages = []; pointers = [] }

abbrev pub messages_of : Bytes → Store → List Message
messages_of chat_id m = lookup_or chat_id [] m.messages

-- The loop of `GetMessage`.
find_message : Bytes → List Message → Option Message
find_message id [] = none
find_message id (x ∷ xs) = if id == x.message_id then some x else find_message id xs

unfoldable pub get_message : Bytes → Bytes → Store → Result MessagingError Message
unfolding find_message
get_message chat_id message_id m = elim (find_message message_id (messages_of chat_id m)) [
  | none ↦ err message_not_found
  | some x ↦ ok x
]

-- The inner loop of `GetBatchMessages`: a message is added once for each id that asks for it.
matches : Message → List Bytes → List Message
matches x [] = []
matches x (id ∷ ids) = if x.message_id == id then x ∷ matches x ids else matches x ids

batch : List Bytes → List Message → List Message
batch ids [] = []
batch ids (x ∷ xs) = matches x ids ++ batch ids xs

unfoldable pub get_batch_messages : Bytes → List Bytes → Store → List Message
unfolding matches batch
get_batch_messages chat_id message_ids m = batch message_ids (messages_of chat_id m)

-- `MessagesById.Less`, and the order of `sort.Reverse`.
abbrev pub less : Message → Message → Bool
less a b = bytes_lt a.message_id b.message_id

abbrev pub greater : Message → Message → Bool
greater a b = less b a

-- Whether the loop of `GetPagedMessages` keeps a message: it stands strictly past the token.
past_token : Order → Option Bytes → Message → Bool
past_token order none x = true
past_token asc (some token) x = bytes_lt token x.message_id
past_token desc (some token) x = bytes_lt x.message_id token

in_order : Order → List Message → List Message
in_order asc xs = xs
in_order desc xs = sort greater xs

unfoldable pub get_paged_messages : Bytes → List Setting → Store → List Message
unfolding past_token in_order
get_paged_messages chat_id options m =
    let o = apply_options options in
    let sorted = in_order o.order (keep (past_token o.order o.token) (messages_of chat_id m)) in
    if ltb o.limit (length sorted) then take o.limit sorted else sorted

-- The message that `PutMessage` stores and returns.
pub stored_message : Bytes → Time → Draft → Message
stored_message id now msg = record {
  message_id = id;
  sender_id = msg.sender_id;
  content = msg.content;
  ts = elim msg.ts [ none ↦ now | some ts ↦ ts ];
  was_sender_off_stage = msg.was_sender_off_stage;
}

unfoldable pub put_message :
    Bytes → Draft → Bytes → Time → Store → Result MessagingError Message × Store
unfolding stored_message
put_message chat_id msg id now m = elim msg.message_id [
  | some _ ↦ (err has_message_id, m)
  | none ↦
      let x = stored_message id now msg in
      (
        ok x,
        record m {
          messages = insert chat_id (sort less (messages_of chat_id m ++ x ∷ [])) m.messages;
        },
      )
]

-- The memory store keeps no legacy messages.
pub put_message_legacy :
    Bytes → Draft → Bytes → Time → Store → Result MessagingError Message × Store
put_message_legacy = put_message

abbrev pub is_user_content : Content → Bool
is_user_content (text t) = true
is_user_content (reply id t) = true
is_user_content _ = false

-- Whether the loop of `CountUnread` counts a message.
unfoldable pub is_unread : Bytes → Option Bytes → Message → Bool
is_unread user_id last_read x =
    elim last_read [ none ↦ true | some id ↦ bytes_lt id x.message_id ]
    && elim x.sender_id [ none ↦ true | some sender ↦ not (sender == user_id) ]
    && is_user_content x.content

unfoldable pub count_unread : Bytes → Bytes → Option Bytes → ℤ → Store → ℕ
unfolding is_unread
count_unread chat_id user_id last_read max_value m =
    let unread = length (keep (is_unread user_id last_read) (messages_of chat_id m)) in
    elim max_value [ negsuc _ ↦ unread | pos n ↦ if ltb n unread then n else unread ]

unfoldable pub pointer_type_discrete : Discrete PointerType
pointer_type_discrete = hlevel

instance abbrev pub pointer_type_eq : Eq PointerType
pointer_type_eq = record { dec_eq = pointer_type_discrete }

abbrev pub pointers_of : Bytes → Bytes → Store → List UserPointer
pointers_of chat_id user_id m = lookup_or user_id [] (lookup_or chat_id [] m.pointers)

-- The loop of `AdvancePointer`: the first pointer of the type decides, and a pointer of a new type
-- is appended.
unfoldable pub advance : Bytes → Pointer → List UserPointer → Bool × List UserPointer
advance user_id pointer [] = (true, record { user_id = user_id; pointer = pointer } ∷ [])
advance user_id pointer (p ∷ ps) =
    let (advanced, rest) = advance user_id pointer ps in
    if not (p.pointer.kind == pointer.kind)
    then (advanced, p ∷ rest)
    else if bytes_lt p.pointer.value pointer.value
    then (true, record p { pointer = record p.pointer { value = pointer.value } } ∷ ps)
    else (false, p ∷ ps)

-- A chat's map of pointers is made when it is first written.
unfoldable pub advance_pointer : Bytes → Bytes → Pointer → Store → Bool × Store
unfolding advance
advance_pointer chat_id user_id pointer m =
    let (advanced, ps) = advance user_id pointer (pointers_of chat_id user_id m) in
    (
      advanced,
      record m {
        pointers = insert chat_id (insert user_id ps (lookup_or chat_id [] m.pointers)) m.pointers;
      },
    )

unfoldable pub get_pointers : Bytes → Bytes → Store → List Pointer
get_pointers chat_id user_id m = map (λ p. p.pointer) (pointers_of chat_id user_id m)

all_pointers : Dict Bytes (List UserPointer) → List UserPointer
all_pointers [] = []
all_pointers ((u, ps) ∷ d) = ps ++ all_pointers d

-- `range` visits the users in an order of its own.
unfoldable pub get_all_pointers : Bytes → Store → List UserPointer
unfolding all_pointers
get_all_pointers chat_id m = all_pointers (lookup_or chat_id [] m.pointers)
