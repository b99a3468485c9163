-- ===== src/Intent.antt =====
-- intent/store.go, intent/memory/store.go, intent/payment_metadata.go: which payment intents were
-- used, and the metadata of a payment. Code's data provider and the decoding of protobuf messages
-- are parameters.
pub mod Once
pub mod Postgres
mod Examples
use flipchat_server.Base.{
  if◌then◌else◌, ◌==◌, nat_eq, Bytes, bytes_eq, Dict, insert, has, length, Result, ok, err, ◌>>=◌,
  ◌>>◌, ℕ, Bool, Option, none, some, [],
}

pub data IntentError : Type 0 where
  already_fulfilled : IntentError

-- `InMemoryStore`: the set of the intents that were used.
pub record Store : Type 0 where
  pub fulfilled_intents : Dict Bytes (Unit {0})

abbrev pub new_in_memory : Store
new_in_memory = record { fulfilled_intents = [] }

unfoldable pub is_fulfilled : Bytes → Store → Bool
is_fulfilled id s = has id s.fulfilled_intents

unfoldable pub mark_fulfilled : Bytes → Store → Result IntentError (Unit {0}) × Store
mark_fulfilled id s =
    if has id s.fulfilled_intents
    then (err already_fulfilled, s)
    else (ok tt, record s { fulfilled_intents = insert id tt s.fulfilled_intents })

-- `codeintent.Record` of a public payment, with the fields that are read here and in auth/rpc.
pub record IntentRecord : Type 0 where
  pub extended_metadata : Bytes
  pub quantity : ℕ

-- The payment metadata of a tip and of a listener's message.
pub record TipMetadata : Type 0 where
  pub chat_id : Bytes
  pub message_id : Bytes
  pub tipper_id : Bytes

pub record ListenerMetadata : Type 0 where
  pub chat_id : Bytes
  pub user_id : Bytes

pub data ProviderError : Type 0 where
  intent_not_found provider_failed : ProviderError

-- What the server takes from Code's libraries: the lookup of an intent, and the decoding of the
-- extended metadata and of the value in it.
pub record CodeData : Type 0 where
  pub intent_id_string : Bytes → Bytes
  pub get_intent : Bytes → Result ProviderError IntentRecord
  pub unmarshal_extended : Bytes → Option Bytes
  pub unmarshal_tip : Bytes → Option TipMetadata
  pub unmarshal_listener : Bytes → Option ListenerMetadata

pub data PaymentError : Type 0 where
  no_payment_metadata invalid_payment_metadata lookup_failed : PaymentError

provider_error : ProviderError → PaymentError
provider_error intent_not_found = no_payment_metadata
provider_error provider_failed = lookup_failed

unfoldable pub get_payment_amount : CodeData → Bytes → Result PaymentError ℕ
unfolding provider_error
get_payment_amount code intent_id = elim (code.get_intent (code.intent_id_string intent_id)) [
  | err e ↦ err (provider_error e)
  | ok intent_record ↦ ok intent_record.quantity
]

or_invalid : {A : Type 0} → Option A → Result PaymentError A
or_invalid none = err invalid_payment_metadata
or_invalid (some a) = ok a

-- The metadata is of the type that `unmarshal_to` decodes.
unfoldable pub load_payment_metadata :
    {A : Type 0} → (Bytes → Option A) → CodeData → Bytes → Result PaymentError (IntentRecord × A)
unfolding provider_error or_invalid
load_payment_metadata unmarshal_to code intent_id =
    elim (code.get_intent (code.intent_id_string intent_id)) [
      | err e ↦ err (provider_error e)
      | ok intent_record ↦
          if length intent_record.extended_metadata == 0 then err no_payment_metadata else do
            value ← or_invalid (code.unmarshal_extended intent_record.extended_metadata)
            metadata ← or_invalid (unmarshal_to value)
            ok (intent_record, metadata)
    ]
