-- ===== src/Formats.antt =====
-- The crate `formats` (crates/formats): the container of the item and map files, and its cursor.
pub mod Error
pub mod Node
pub mod FloorChange
pub mod Props
