-- ===== src/Protocol/Container.antt =====
-- The packets of containers (crates/protocol/src/container.rs); a name is its bytes.
use package.oxidia.Prelude.{
  ℕ, Bool, List, [], ◌∷◌, Option, none, some, if◌then◌else◌, min, length, take,
}
use package.oxidia.Protocol.Bytes.{Bytes}
use package.oxidia.Protocol.Message.{
  Read, pure, ◌>>=◌, new, read_u8, read_u16, write_u8, write_u16, write_string,
}
use package.oxidia.Protocol.MapDescription.{WireItem}
use package.oxidia.Protocol.TileItem.{write_item}
use package.oxidia.Protocol.MoveThing.{to_option}

pub record UseItem : Type 0 where
  pub pos_x : ℕ
  pub pos_y : ℕ
  pub pos_z : ℕ
  pub sprite_id : ℕ
  pub stackpos : ℕ
  pub index : ℕ

pub read_use_item : Read UseItem
read_use_item = do
  pos_x ← read_u16
  pos_y ← read_u16
  pos_z ← read_u8
  sprite_id ← read_u16
  stackpos ← read_u8
  index ← read_u8
  pure (record {
    pos_x = pos_x;
    pos_y = pos_y;
    pos_z = pos_z;
    sprite_id = sprite_id;
    stackpos = stackpos;
    index = index;
  })

pub parse_use_item : Bytes → Option UseItem
unfolding read_use_item
parse_use_item body = to_option (read_use_item (new body)).0

pub parse_container_cid : Bytes → Option ℕ
parse_container_cid body = to_option (read_u8 (new body)).0

pub record ContainerWireItem : Type 0 where
  pub client_id : ℕ
  pub subtype : Option ℕ
  pub animated : Bool

abbrev pub as_wire : ContainerWireItem → WireItem
as_wire i = record { client_id = i.client_id; subtype = i.subtype; animated = i.animated }

pub write_items : List ContainerWireItem → Bytes → Bytes
write_items [] w = w
write_items (i ∷ rest) w = write_items rest (write_item (as_wire i) w)

pub open_container : ℕ → WireItem → Bytes → ℕ → Bool → List ContainerWireItem → Bytes
unfolding write_items
open_container cid bag name capacity has_parent items =
    let to_send = min (min capacity (length items)) 255 in
    let w = write_string name (write_item bag (write_u8 cid (write_u8 0x6e []))) in
    let w' =
      write_u8 0 (write_u8 1 (write_u8 (if has_parent then 1 else 0) (write_u8 capacity w))) in
    write_items (take to_send items)
      (write_u8 to_send (write_u16 0 (write_u16 (min (length items) 65535) w')))

abbrev pub close_container : ℕ → Bytes
close_container cid = 0x6f ∷ cid ∷ []

pub add_container_item : ℕ → ℕ → ContainerWireItem → Bytes
add_container_item cid slot item =
    write_item (as_wire item) (write_u16 slot (write_u8 cid (write_u8 0x70 [])))

pub update_container_item : ℕ → ℕ → ContainerWireItem → Bytes
update_container_item cid slot item =
    write_item (as_wire item) (write_u16 slot (write_u8 cid (write_u8 0x71 [])))

abbrev write_replacement : Option ContainerWireItem → Bytes → Bytes
write_replacement (some item) w = write_item (as_wire item) w
write_replacement none w = write_u16 0 w

pub remove_container_item : ℕ → ℕ → Option ContainerWireItem → Bytes
remove_container_item cid slot replacement =
    write_replacement replacement (write_u16 slot (write_u8 cid (write_u8 0x72 [])))
