-- ===== src/LocalDb.antt =====
-- packages/chat-db/src: the client's local database. A statement is a function of the tables.
pub mod Migrations
pub mod Messages
pub mod PeerKeys
pub mod Upgrade
pub mod Replace
