-- ===== src/Protocol.antt =====
-- The wire protocol (crates/protocol and the frame envelope of crates/net).
pub mod Bytes
pub mod Message
pub mod Frame
pub mod Xtea
pub mod Net
pub mod Session
pub mod MapDescription
pub mod Walk
pub mod TileItem
pub mod TileCreature
pub mod EnterWorld
pub mod Outfits
pub mod Container
pub mod MoveThing
pub mod CombatPackets
