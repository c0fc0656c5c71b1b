-- ===== src/Dms.antt =====
-- Direct messages: conversations of two (src/features/shared/write_ops.rs,
-- src/features/shared/permissions.rs, src/features/messages/read_state.rs and state.rs).
pub mod Writes
pub mod Projector
pub mod Handlers
pub mod Exact
pub mod Safety
