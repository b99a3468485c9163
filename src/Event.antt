-- ===== src/Event.antt =====
-- event/bus.go: the events of a chat, and the bus that hands each of them to every handler.
pub mod Stream
mod Examples
use flipchat_server.Base.{Bytes, Time, ℕ, Bool, Option, List, [], ◌∷◌, ◌++◌, map}
use flipchat_server.Chat.{Metadata, ProtoMember}
use flipchat_server.Profile.{XProfile}
use flipchat_server.Messaging.{Message, Pointer}

-- `chatpb.Member` with the data that the chat server adds: the profile's name and social accounts,
-- and the member's pointers.
pub record MemberView : Type 0 where
  pub member : ProtoMember
  pub display_name : Bytes
  pub social_profiles : List XProfile
  pub pointers : List Pointer

-- `chatpb.MetadataUpdate`
pub data MetadataUpdate : Type 0 where
  full_refresh : Metadata → MetadataUpdate
  unread_count_changed : ℕ → Bool → MetadataUpdate
  display_name_changed : Bytes → MetadataUpdate
  description_changed : Bytes → MetadataUpdate
  messaging_fee_changed : ℕ → MetadataUpdate
  open_status_changed : Bool → MetadataUpdate
  last_activity_changed : Time → MetadataUpdate

-- `chatpb.MemberUpdate`
pub data MemberUpdate : Type 0 where
  members_refreshed : List MemberView → MemberUpdate
  member_refreshed : MemberView → MemberUpdate
  joined : MemberView → MemberUpdate
  left : Bytes → MemberUpdate
  promoted : Bytes → Bytes → MemberUpdate
  demoted : Bytes → Bytes → MemberUpdate
  muted : Bytes → Bytes → MemberUpdate

-- `messagingpb.TypingState`
pub data TypingState : Type 0 where
  unknown_typing started_typing still_typing stopped_typing typing_timed_out : TypingState

-- `ChatEvent`; the pointer and the typing state come with the member whose they are.
pub record ChatEvent : Type 0 where
  pub chat_id : Bytes
  pub metadata_updates : List MetadataUpdate
  pub member_updates : List MemberUpdate
  pub message_update : Option Message
  pub flushed_messages : List Message
  pub pointer_update : Option (Bytes × Pointer)
  pub is_typing : Option (Bytes × TypingState)

-- `Bus`: the handlers, each by what it does with an event of a key.
pub record Bus (K E H : Type 0) : Type 0 where
  pub handlers : List (K → E → H)

unfoldable pub add_handler : {K E H : Type 0} → (K → E → H) → Bus K E H → Bus K E H
add_handler h b = record { handlers = b.handlers ++ h ∷ [] }

-- `OnEvent` starts every handler on the event; they run in an order of their own.
unfoldable pub on_event : {K E H : Type 0} → K → E → Bus K E H → List H
on_event key e b = map (λ h. h key e) b.handlers
