-- ===== src/Lib.antt =====
-- Verification of the Flipchat server (Go): its stores, its permission checks and its payments.
--
-- The server keeps accounts, chats, messages, profiles, push tokens, purchases, activity feeds and
-- used payment intents in stores, each an interface with an implementation in memory and one over
-- SQL. Both are modelled here, with the caches in front of them, the code that decides over them
-- (who may send a message, which payments are accepted), and the gRPC servers, which stand on the
-- stores in memory: each handler is a function from the stores and a request to an answer and new
-- stores.
--
-- Base: Go's language and standard library where the server uses them. A map is an association
-- list, whose order stands for an order in which `range` may visit the entries; a `(value, error)`
-- return is a Result; a time is the number of nanoseconds since Go's zero time; ids and strings
-- are lists of bytes, compared as `bytes.Compare` does.
--
-- Account: account/store.go, account/memory/store.go. `bind`, `remove_key` and the other
--   operations are `Bind`, `RemoveKey` and so on; Account/Keys treats the binding of keys,
--   Account/Airdrop the selection of users for an airdrop.
-- Chat: chat/store.go, chat/memory/store.go. Chat/Rooms has the operations on chats, Chat/Members
--   those on members; Chat/Members/Index treats the index of the chats of a user,
--   Chat/Members/Flags the flags of members, Chat/Rooms/Numbers the room numbers, and
--   Chat/Histories sequences of calls.
-- Query: query/query.go, the options of a paged query.
-- Messaging: messaging/store.go, messaging/memory/store.go. Messaging/Sorting treats the order of
--   messages, Messaging/Paging pages, Messaging/Unread counts, Messaging/Pointers the pointers.
-- Intent: intent/store.go, intent/memory/store.go, intent/payment_metadata.go.
-- Auth: auth/rpc/messaging.go, over the stores of accounts, chats, intents and messages.
-- Payment: intent/messaging/handler.go, over the stores of accounts, chats and messages.
-- Profile: profile/store.go, profile/memory/store.go.
-- Push: push/store.go, push/memory/store.go.
-- Iap: iap/store.go, iap/verifier.go, iap/memory/store.go, iap/server.go, over the account store.
-- Airdrop: airdrop/integration.go, over the account store.
-- Promoted: promoted/store.go, promoted/memory/store.go, where a chat id is a pointer.
-- Event: event/bus.go. Event/Stream is event/stream.go, the buffered stream of a client, and
--   Event/Stream/Deliveries treats sequences of notifications, receives and closing.
-- Backend: the stores that the servers of chats and of messages share, as one record, and `outbox`,
--   the events, announcements, pushes and feed notices that a call hands over to run in the
--   background, in the order in which it hands them over; announcements are told apart by
--   the builders of messaging/announcements.go.
-- ChatServer: chat/server.go, over Backend and Auth. ChatServer/Reads has the calls that answer
--   with chats and members, ChatServer/Settings those that change a chat's settings,
--   ChatServer/Members those about one member, ChatServer/Starting StartChat, JoinChat and
--   LeaveChat, ChatServer/Streaming the streams of events.
-- MessageServer: messaging/server.go, messaging/transform.go, over Backend and Auth.
--   MessageServer/Receipts and MessageServer/Silence treat sending; MessageServer/Typing has the
--   notifications of typing and the worker that times them out, MessageServer/Streaming the streams
--   of messages, with what reaches them and which of them are live.
-- AccountServer: account/server.go, account/authorizer.go, auth/auth.go.
-- Account/Cache: account/cache/store.go. Profile/Cache: profile/cache/store.go, with what a link of
--   an X account leaves in the cache in Profile/Cache/Stale.
-- ProfileServer: profile/server.go.
-- Activity: activity/model.go, activity/notifications.go, activity/memory/store.go,
--   activity/server.go.
-- PushServer: push/server.go, push/messaging.go, push/pusher.go. PushServer/Recipients treats who
--   is pushed to, PushServer/Invalid the tokens that are deleted after a push.
-- Payment/StartGroup: intent/chat/handler.go, intent/custom_antispam_guard.go, flags/user.go.
--
-- Postgres: a table of the database as an interface, the statements of the SQL stores with the laws
--   that Postgres documents of them. Postgres/Encoding is database/postgres/encoding.go,
--   Postgres/Lists a table made of a list, which shows that the laws can be met.
-- Account/Postgres: account/postgres. Intent/Postgres: intent/postgres, where Sequential treats
--   calls one after the other and Racing two calls at once. Messaging/Postgres: messaging/postgres.
--   Iap/Postgres, Push/Postgres, Promoted/Postgres, Activity/Postgres, Profile/Postgres:
--   iap/postgres, push/postgres, promoted/postgres, activity/postgres, profile/postgres.
--   Chat/Postgres: chat/postgres, with its chats in Rooms and their members in Members. Each is
--   written over any table of the interface; a row leaves out the times of its writing.
--
-- Every store in memory locks itself for a whole call, so its concurrent use is a sequence of
-- calls, which `Call`, `step` and `run` of a store make explicit. A call takes the readings of the
-- clock and the random ids that it makes as arguments. A protobuf message or a struct keeps the
-- fields that the modelled code reads or writes; a pointer that may be nil is an Option. A slice is
-- copied where the code clones it, and an element changed through a pointer is replaced in its
-- list. Sorting is by insertion: where no two elements compare equal, as ids of members and
-- messages are, every sorting algorithm gives the same slice; promoted chats of one score may come
-- in another order.
--
-- Bounds: a room number is a uint64 and wraps around, so the statements on room numbers are for
-- fewer than 2 ^ 64 - 2 calls. Pages have a limit that is never negative, since `WithLimit` drops
-- other values. Loops run over slices and maps, but for the search of the next airdrop, which has
-- more fuel than there are nanoseconds before now; a step of a week makes that enough. The source's
-- constants are kept: streams hold 64 updates, a flush sends 32 events at a time, a batch has at
-- most 1024 events, unread counts stop at 99, a push to more than 500 tokens is dropped, typing
-- ends after 60 seconds, a login request is good for 2 minutes.
--
-- Parameters: Code's data provider and the protobuf decoding of payment metadata (Intent.CodeData,
-- and `unmarshal_start_group` of Backend), the decoding of public keys (Payment.Handler, Airdrop),
-- the verifiers of the app stores and the activity feed (Iap.Server), moderation (`classify_text`)
-- and SHA-256 (`sha256`) of Backend, the checks of signatures and the derivation of vaults
-- (AccountServer), the answers of X (ProfileServer) and of Firebase (PushServer), the printing of
-- texts (Activity), Unicode's variation selectors (MessageServer), the tables of Postgres
-- (Postgres.Table), what a column keeps of a time (Activity/Postgres, Chat/Postgres), base 64,
-- base 58 and hex (Postgres.Encoding.Codecs), and protobuf's encoding of messages
-- (Messaging.Postgres.Wire). Random ids and readings of the clock are arguments.
--
-- Not modelled: a database that does not answer; the sending of streams and events over gRPC,
-- between servers and to clients; the texts of announcements and pushes and the payloads for
-- Firebase; the notifications of an airdrop; the clients of moderation, X, app stores and RPC;
-- generated code, random ids and logging.
pub mod Base
pub mod Account
pub mod Chat
pub mod Query
pub mod Messaging
pub mod Intent
pub mod Auth
pub mod Profile
pub mod Push
pub mod Iap
pub mod Payment
pub mod Airdrop
pub mod Promoted
pub mod Event
pub mod Backend
pub mod ChatServer
pub mod MessageServer
pub mod Postgres
pub mod AccountServer
pub mod Activity
pub mod PushServer
pub mod ProfileServer
