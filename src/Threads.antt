-- ===== src/Threads.antt =====
-- Threads and their comments: src/features/shared/write_ops.rs, the thread part of
-- src/features/shared/permissions.rs, src/features/messages/{state,read_state}.rs.
-- The statements of a handler on the chat tables stand in `Threads.Writes`; here they are composed
-- with the handler's checks and with what it leaves in the feed.
pub mod Writes
pub mod Projector
pub mod Handlers
pub mod Editing
pub mod Counters
pub mod Safety
