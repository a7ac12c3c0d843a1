-- ===== src/Lib.antt =====
-- A verification library for the messaging system of this repository: the server that stores and
-- delivers messages, the client's connection, encryption, store and local tables, the pages by which
-- a client catches up, and the procedures that change chats, members and blocks.
--
-- The parts and how they meet. A client writes a message into its outbox
-- (packages/chat-db/src/outbox.ts, packages/chat/src/outbox-worker.ts); the encrypted transport
-- (packages/chat/src/encrypted-transport.ts) makes it a frame for every device or for an MLS group,
-- by the frames of packages/chat/src/crypto-pipe.ts, and hands it to the connection
-- (packages/chat-transport/src/client.ts). The worker (services/chat-ws/src/index.ts) checks the
-- token of the request (services/chat-ws/src/auth.ts), and the socket ends in the object of its
-- user, the inbox (services/chat-ws/src/durable/user-inbox.ts), which checks each frame
-- (services/chat-ws/src/validators.ts) and calls the object of the chat
-- (services/chat-ws/src/durable/chat.ts). That one buffers the sends, gives them serials, inserts
-- them into the tables (packages/db-edge/src/chat-persist.ts), and calls the inboxes of the sender
-- and of the attached members. A client that was away asks its inbox for pages of what it missed
-- (services/chat-ws/src/durable/backfill.ts), decrypts them, and merges them into its store
-- (packages/chat/src/store.ts). Who is in a chat is decided by the API (services/api/src/routers),
-- which also keeps the log of the commits of the MLS groups. What a flush publishes is pushed to
-- devices without a connection by services/chat-push.
--
-- The files:
--   Prelude.antt    shared names, Boolean tests, lists by native length, integers.
--   Js.antt         what the source uses of JavaScript: BigInt conversions, Map, Set, a stable
--                   sort, calls that throw, bitwise operators, patterns on strings, and values of
--                   unknown shape.
--   Envelope.antt   packages/chat-transport/src/envelope.ts, the frames.
--   Validators.antt services/chat-ws/src/validators.ts: validate_send_frame is validateSendFrame,
--                   validate_backfill_frame is validateBackfillFrame. Send and Backfill hold the
--                   proofs.
--   Persist.antt    packages/db-edge/src/chat-persist.ts: insert_message, max_serial,
--                   messages_since, member_ids and update_last_read_serial are the methods of the
--                   client, as functions of the tables ChatMessage and ChatMember, with the keys of
--                   the migrations. Serials and Watermark hold the proofs.
--   Backfill.antt   services/chat-ws/src/durable/backfill.ts: resolve_backfill_page; catch_up is the
--                   paging loop of packages/chat/src/provider.tsx. Page, Pending, CatchUp, Complete
--                   and Gate hold the proofs.
--   Chat.antt       services/chat-ws/src/durable/chat.ts: the state, its storage, and a statement to
--                   the database with what becomes of it. Signals, Fanout and Flush hold the
--                   handlers, under the source's names; the other children the proofs.
--   Inbox.antt      services/chat-ws/src/durable/user-inbox.ts: the calls that a chat makes, and in
--                   Frames what a frame of a client does; Subscriptions and Devices hold proofs.
--   Session.antt    services/chat-ws/src/auth.ts: verify_session is verifySession, with the cache of
--                   verified tokens as a store of keys; Cache and Revocation hold the proofs.
--   Entry.antt      services/chat-ws/src/index.ts: the upgrade of a request, and in Internal the
--                   calls of other services; Secret holds the proofs.
--   Store.antt      packages/chat/src/store.ts and types.ts: the state; Chats, Messages, Reactions
--                   and Presence hold the actions; Thread, Ingest and Marks the proofs.
--   Transport.antt  packages/chat-transport/src/client.ts: the state that the functions of
--                   createChatTransport share; Socket holds what a socket is told, Calls the methods
--                   of the owner, Events the callbacks, with `step` for any of them; Same, Waiting,
--                   Promises, Replay and Closing the proofs.
--   Pipe.antt       packages/chat/src/crypto-pipe.ts: the frames and parse_frame; Seal and Open hold
--                   encryptOutbound, encryptOutboundMls and decryptInbound, RoundTrip the proofs.
--   Sealed.antt     packages/chat/src/encrypted-transport.ts: decrypt_one is decryptOne; Pages holds
--                   decryptBackfill and Sends the two ways of `send`; Outcomes, Cap and Accepted the
--                   proofs.
--   Outbox.antt     packages/chat-db/src/outbox.ts, the table of waiting sends; Worker is a tick of
--                   packages/chat/src/outbox-worker.ts, with dispatch_one as the source's
--                   dispatchOne; Attempts holds the proof.
--   Cursors.antt    packages/chat-db/src/backfill-cursors.ts, the table of backfill cursors.
--   LocalDb.antt    packages/chat-db/src: Migrations is migrations.ts, Messages messages-store.ts and
--                   PeerKeys peer-keys.ts; Upgrade and Replace hold the proofs.
--   Api.antt        services/api/src/routers: the tables, and resolveAccounts; Chats and Members hold
--                   the procedures of chat.ts, Blocks those of blocks.ts; Membership, Direct and
--                   Blocking the proofs.
--   Groups.antt     the commits of an MLS group: publish_commit and fetch_pending_commits are the
--                   procedures of services/api/src/routers/mls/groups.ts, poll_pending_commits and
--                   publish_commit_with_retry the methods of packages/chat-mls-core/src/client/
--                   index.ts; Polls and Lands hold the proofs.
--   Push.antt       services/chat-push/src: handler and dispatch of lambda.ts, and the answers of
--                   apns.ts and fcm.ts; Deletion and Targets hold the proofs.
--   Examples.antt   the theorems at concrete inputs, and tests.
--
-- The state of an object is a record and a handler a function of it. A handler of an object runs to
-- its end before the next one starts; what other handlers do while one waits is not modelled. A
-- handler that throws gives `none` with the state that it leaves. The time is the object's clock,
-- which only statements to the database move on; the caller of a handler may set it. A statement is
-- answered, is lost before it runs, or runs without its answer coming back; which of these is part
-- of the state, as a list, and when the list is out, statements are answered at once. A write to the
-- storage of an object does not fail; a call of an inbox fails for the users whose inbox rejects.
-- The connection of a client is a step function over the calls of its owner and the callbacks of its
-- sockets and timers, in any order. The procedures of the API are functions of the tables, as one
-- transaction each. Bytes are lists of numbers, and a `bigint` is an integer without bound; the read
-- watermark is held to the 64 bits of its column, and a statement with another integer past them,
-- which the database would refuse, is not told apart.
--
-- Three functions take fuel or count down: catch_up, one unit for each page; the printing of
-- numbers, one for each digit; and publish_commit_with_retry, the attempts that are left, of which
-- the source has five. How much is enough for catch_up is a hypothesis of its theorem; printing is
-- given one unit more than the number; an attempt more than there are rounds in which others publish
-- first, and two at least, are enough. The two attempts of an insert are counted down as the source
-- counts them up.
--
-- Packages and services that the code calls are parameters: the codec of frames, the box of the
-- crypto library, the MLS engine, SHA-256 and base64, JSON, the push services, the store of cached
-- tokens and the origin that knows them, and the effect of the SQL of a migration. Not modelled: the
-- signed requests of push-publish.ts, of which only the event is here; the byte conversion of the
-- database driver; registration of handlers, logging and metrics; the timers of the outbox's worker,
-- and chats that interleave in one tick; what chat.list and chat.get show, and the other routers of
-- the API; key packages, welcomes and snapshots of the MLS client, and its local tables; the import
-- of old data; the payloads of pushes; the demonstration service, which is a part of its own; and
-- the screens, stacks and native modules, which are presentation, configuration and bindings.
pub mod Prelude
pub mod Js
pub mod Envelope
pub mod Validators
pub mod Persist
pub mod Push
pub mod Backfill
pub mod Chat
pub mod Inbox
pub mod Store
pub mod Outbox
pub mod Transport
pub mod Api
pub mod Session
pub mod Entry
pub mod Pipe
pub mod Sealed
pub mod Cursors
pub mod LocalDb
pub mod Groups
pub mod Examples
