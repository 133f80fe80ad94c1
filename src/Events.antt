-- ===== src/Events.antt =====
-- runtime/events.py: identifiers, the vocabulary of events, their frozen data, the in-memory store
-- and the replay of its streams.
pub mod Identifiers
pub mod Vocabulary
pub mod Values
pub mod Freeze
pub mod Idempotent
pub mod Record
pub mod Store
pub mod Cursor
pub mod Stream
mod Tests
