-- ===== src/Threads/Safety.antt =====
-- The handlers of threads and comments keep the counters, and check who may do what.
pub mod Comments
pub mod Deletions
pub mod Editing
pub mod Marks
pub mod Modifier
pub mod Success
