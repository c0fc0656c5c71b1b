-- ===== src/Dms/Safety.antt =====
-- What each handler of direct messages keeps, and whom it lets do what.
pub mod Sending
pub mod Editing
pub mod Opening
pub mod Marking
