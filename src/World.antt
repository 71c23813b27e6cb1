-- ===== src/World.antt =====
-- The authoritative game state (crates/world).
pub mod Position
pub mod Pathfinding
pub mod Combat
pub mod Condition
pub mod Map
pub mod Game
