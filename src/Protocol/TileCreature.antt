-- ===== src/Protocol/TileCreature.antt =====
-- A thing comes onto a tile or leaves it (crates/protocol/src/tile_creature.rs).
use package.oxidia.Prelude.{ℕ, [], ◌++◌}
use package.oxidia.Protocol.Bytes.{Bytes}
use package.oxidia.Protocol.Message.{write_u8, write_u16}
use package.oxidia.Protocol.MoveThing.{Place}

-- The opcode, the position and the place in the stack.
abbrev tile_thing : ℕ → Place → ℕ → Bytes
tile_thing opcode p stackpos =
    write_u8 stackpos (write_u8 p.z (write_u16 p.y (write_u16 p.x (write_u8 opcode []))))

unfoldable pub add_tile_creature : Place → ℕ → Bytes → Bytes
add_tile_creature p stackpos thing = tile_thing 0x6a p stackpos ++ thing

unfoldable pub remove_tile_thing : Place → ℕ → Bytes
remove_tile_thing p stackpos = tile_thing 0x6c p stackpos
