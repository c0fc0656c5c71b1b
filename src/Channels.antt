-- ===== src/Channels.antt =====
-- Channels (src/features/channels/state.rs, src/features/shared/write_ops.rs and permissions.rs).
pub mod Handlers
pub mod Steps
pub mod Sound
pub mod Kept
pub mod General
pub mod Members
