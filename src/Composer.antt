-- ===== src/Composer.antt =====
-- The line editor of the terminal interface: `ComposerState` of src/app/state.rs. A buffer is a
-- list of code points, its cursor a byte offset into the UTF-8 text, as in the source.
pub mod Bytes
pub mod State
pub mod Zipper
pub mod Refinement
pub mod History
pub mod Positions
