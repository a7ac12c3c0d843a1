-- ===== src/Examples.antt =====
-- The theorems at concrete inputs, and tests.
mod Sends
mod Pages
mod Frames
mod Threads
mod Queue
mod Connections
mod Seals
mod Tokens
mod Accounts
mod Tables
mod Commits
mod Pushes
