-- ===== src/World/Game.antt =====
-- The state of the game task (crates/world/src/game/mod.rs), as far as the modelled handlers read
-- or write it: the players, the places of the other creatures, the tiles that the game has changed,
-- and what stands in open containers. Fights, walk queues, conditions and scripts are left out.
-- `sent` holds the packets that the sessions took, the newest last, and `saved` the records that the
-- worker behind `save_tx` was sent, if there is one. A name is its bytes.
pub mod View
pub mod Sees
pub mod Spectators
pub mod Session
pub mod Frame
pub mod Reaping
pub mod Light
pub mod Looks
pub mod Ground
pub mod Windows
pub mod SameGround
pub mod Slots
pub mod Items
pub mod Goods
pub mod Transfer
use package.oxidia.Prelude.{
  ℕ, ◌-◌, ◌+◌, ◌≡◌, ◌↔◌, Bool, true, false, ◌&&◌, ◌||◌, List, [], ◌∷◌, Option, none, some, arith,
  if◌then◌else◌, leb, ◌==◌, get_elem?, max, take, length, min,
}
use mathlib.Core.Option
use package.oxidia.Prelude.Assoc.{Eq, lookup}
use package.oxidia.Protocol.Bytes.{Bytes}
use package.oxidia.Protocol.Container.{ContainerWireItem}
use package.oxidia.Protocol.Outfits.{Outfit}
use package.oxidia.World.Position.{Position, Direction}
use package.oxidia.World.Map.Tiles.{Chunks, TileStack, tile_pre_creature_len, tile_item_server_id}

pub data EquipSlot : Type 0 where
  head necklace backpack armor hand legs feet ring ammo : EquipSlot

unfoldable pub admits : EquipSlot → ℕ → Bool
admits EquipSlot.head slot = slot == 1
admits EquipSlot.necklace slot = slot == 2
admits EquipSlot.backpack slot = slot == 3
admits EquipSlot.armor slot = slot == 4
admits EquipSlot.hand slot = slot == 5 || slot == 6
admits EquipSlot.legs slot = slot == 7
admits EquipSlot.feet slot = slot == 8
admits EquipSlot.ring slot = slot == 9
admits EquipSlot.ammo slot = slot == 10

pub record ItemMeta : Type 0 where
  pub name : Bytes
  pub stackable : Bool
  pub client_id : ℕ
  pub animated : Bool
  pub moveable : Bool
  pub equip_slot : Option EquipSlot
  pub is_container : Bool
  pub container_capacity : ℕ
  pub light_level : ℕ
  pub light_color : ℕ

pub record InvItem : Type 0 where
  pub server_id : ℕ
  pub client_id : ℕ
  pub count : Option ℕ
  pub animated : Bool

pub record ContainerItem : Type 0 where
  pub server_id : ℕ
  pub client_id : ℕ
  pub count : Option ℕ
  pub animated : Bool

abbrev pub wire : ContainerItem → ContainerWireItem
wire i = record { client_id = i.client_id; subtype = i.count; animated = i.animated }

pub data ContainerSource : Type 0 where
  slot : ℕ → ContainerSource
  nested : ℕ → ℕ → ContainerSource
  on_ground : Position → ContainerSource

pub record OpenContainer : Type 0 where
  pub server_id : ℕ
  pub client_id : ℕ
  pub capacity : ℕ
  pub name : Bytes
  pub items : List ContainerItem
  pub source : ContainerSource
  pub is_open : Bool

-- `inventory` has ten entries and `open_containers` sixteen.
pub record PlayerState : Type 0 where
  pub name : Bytes
  pub position : Position
  pub direction : Direction
  pub outfit : Outfit
  pub known : List ℕ
  pub health : ℕ
  pub max_health : ℕ
  pub sex : ℕ
  pub gamemaster : Bool
  pub ghost : Bool
  pub noclip : Bool
  pub inventory : List (Option InvItem)
  pub open_containers : List (Option OpenContainer)
  pub light_level : ℕ
  pub light_color : ℕ

-- What the modelled handlers ask of a monster or an NPC.
pub record Creature : Type 0 where
  pub position : Position

-- The place of an item in a container is its index; the source writes it in decimal.
pub record SaveRecord : Type 0 where
  pub name : Bytes
  pub position : Position
  pub direction : Direction
  pub outfit : Outfit
  pub health : ℕ
  pub max_health : ℕ
  pub sex : ℕ
  pub inventory : List (ℕ × ℕ × ℕ)
  pub container_items : List (ℕ × ℕ × ℕ × ℕ)

pub record Game : Type 0 where
  pub chunks : Chunks
  pub item_meta : ℕ → Option ItemMeta
  pub dynamic : List (Position × TileStack)
  pub players : List (ℕ × PlayerState)
  pub monsters : List (ℕ × Creature)
  pub npcs : List (ℕ × Creature)
  pub corpse_tiles : List Position
  pub sent : List (ℕ × Bytes)
  pub saved : Option (List SaveRecord)

abbrev pub same_position : Position → Position → Bool
same_position p q = p.x == q.x && (p.y == q.y && p.z == q.z)

pub same_position_iff : (p q : Position) → (same_position p q ≡ true) ↔ (p ≡ q)
same_position_iff p q = (λ h. ground arith, λ h. ground arith)

instance abbrev pub position_eq : Eq Position
position_eq = record { beq = same_position; beq_iff = same_position_iff }

-- An entry of an array of options, `none` also past its end.
abbrev pub entry {ℓ} : {A : Type ℓ} → List (Option A) → ℕ → Option A
entry xs i = Option.bind (get_elem? xs i) (λ o. o)
