-- ===== src/Protocol/EnterWorld.antt =====
-- Single packets of crates/protocol/src/enter_world.rs that the game sends outside a login.
use package.oxidia.Prelude.{ℕ, []}
use package.oxidia.Protocol.Bytes.{Bytes}
use package.oxidia.Protocol.Message.{write_u8, write_u16, write_u32}
use package.oxidia.Protocol.MapDescription.{WireItem}
use package.oxidia.Protocol.TileItem.{write_item}

abbrev pub effect_teleport : ℕ
effect_teleport = 10

unfoldable pub creature_light : ℕ → ℕ → ℕ → Bytes
creature_light creature_id level color =
    write_u8 color (write_u8 level (write_u32 creature_id (write_u8 0x8d [])))

unfoldable pub set_inventory_slot : ℕ → WireItem → Bytes
set_inventory_slot slot item = write_item item (write_u8 slot (write_u8 0x78 []))

abbrev pub op_inventory_empty : ℕ
op_inventory_empty = 0x79

unfoldable pub icons : ℕ → Bytes
icons mask = write_u16 mask (write_u8 0xa2 [])

unfoldable pub magic_effect : ℕ → ℕ → ℕ → ℕ → Bytes
magic_effect x y z effect =
    write_u8 effect (write_u8 z (write_u16 y (write_u16 x (write_u8 0x83 []))))
