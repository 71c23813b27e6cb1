-- ===== src/Protocol/TileItem.antt =====
-- The packets of one item on a tile (crates/protocol/src/tile_item.rs).
use package.oxidia.Prelude.{ℕ, [], Option, none, some, if◌then◌else◌}
use package.oxidia.Protocol.Bytes.{Bytes}
use package.oxidia.Protocol.Message.{write_u8, write_u16}
use package.oxidia.Protocol.MapDescription.{WireItem}
use package.oxidia.Protocol.MoveThing.{Place}

abbrev write_count : Option ℕ → Bytes → Bytes
write_count none w = w
write_count (some n) w = write_u8 n w

pub write_item : WireItem → Bytes → Bytes
write_item item w =
    let w' = write_count item.subtype (write_u8 0xff (write_u16 item.client_id w)) in
    if item.animated then write_u8 0xfe w' else w'

-- The opcode, the position and the place in the stack.
abbrev tile_head : ℕ → Place → ℕ → Bytes
tile_head opcode p stackpos =
    write_u8 stackpos (write_u8 p.z (write_u16 p.y (write_u16 p.x (write_u8 opcode []))))

pub add_tile_item : Place → ℕ → WireItem → Bytes
add_tile_item p stackpos item = write_item item (tile_head 0x6a p stackpos)

pub update_tile_item : Place → ℕ → WireItem → Bytes
update_tile_item p stackpos item = write_item item (tile_head 0x6b p stackpos)
