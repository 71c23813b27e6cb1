-- ===== src/Protocol/MapDescription.antt =====
-- The tile stream of `0x64` and of the directional slices
-- (crates/protocol/src/map_description.rs). A coordinate is an `i32`, here an integer; the counter
-- `skip` starts at -1. A writer and the counter go through the loops as a pair.
pub mod Tiles
pub mod Stream
pub mod Decoder
pub mod RoundTrip
pub mod Floors
pub mod Client
use package.oxidia.Prelude.{
  ℕ, zero, suc, ◌+◌, ◌*◌, ◌%◌, Bool, true, false, not, ◌&&◌, List, [], ◌∷◌, ◌++◌, Option, none,
  some, if◌then◌else◌, ltb, ◌==◌, ◌≡◌,
}
use mathlib.Core.Option
use package.oxidia.Prelude.Int.{ℤ, pos, negsuc, ◌+ℤ◌, ◌-ℤ◌, ltb_ℤ, eq_ℤ}
use package.oxidia.Protocol.Bytes.{Bytes, u16_bytes}
use package.oxidia.Protocol.Message.{write_u8, write_u16, write_bytes}

pub record WireItem : Type 0 where
  pub client_id : ℕ
  pub subtype : Option ℕ
  pub animated : Bool

pub record TileSlices : Type 0 where
  pub pre_creature : List WireItem
  pub post_creature : List WireItem

-- The trait: what the encoder asks of a map. `none` is a tile with no ground.
pub record TileSource : Type 0 where
  pub tile : ℤ → ℤ → ℤ → Option TileSlices

pub record Center : Type 0 where
  pub x : ℕ
  pub y : ℕ
  pub z : ℕ

pub record PlacedCreature : Type 0 where
  pub x : ℕ
  pub y : ℕ
  pub z : ℕ
  pub bytes : Bytes

abbrev pub viewport_width : ℕ
viewport_width = 18

abbrev pub viewport_height : ℕ
viewport_height = 14

abbrev write_subtype : Option ℕ → Bytes → Bytes
write_subtype none w = w
write_subtype (some s) w = write_u8 s w

unfoldable pub add_item : WireItem → Bytes → Bytes
add_item item w =
    let w' = write_subtype item.subtype (write_u8 0xff (write_u16 item.client_id w)) in
    if item.animated then write_u8 0xfe w' else w'

-- `for item in ... { if things == 10 { break; } ... }`
pub add_items : List WireItem → Bytes × ℕ → Bytes × ℕ
add_items [] (w, things) = (w, things)
add_items (item ∷ items) (w, things) =
    let more = add_items items (add_item item w, things + 1) in
    if things == 10 then (w, things) else more

abbrev pub stands_at : PlacedCreature → ℤ → ℤ → ℤ → Bool
stands_at c wx wy nz = eq_ℤ (pos c.x) wx && eq_ℤ (pos c.y) wy && eq_ℤ (pos c.z) nz

-- `things.saturating_add(1)` on a `u8`
abbrev pub saturating_suc : ℕ → ℕ
saturating_suc n = if ltb n 255 then n + 1 else 255

pub add_creatures : List PlacedCreature → ℤ → ℤ → ℤ → Bytes × ℕ → Bytes × ℕ
add_creatures [] wx wy nz out = out
add_creatures (c ∷ cs) wx wy nz (w, things) =
    add_creatures cs wx wy nz
      (if stands_at c wx wy nz then (write_bytes c.bytes w, saturating_suc things) else (w, things))

-- The body of the arm `Some(slices)` after the counter is flushed.
pub write_tile : TileSlices → List PlacedCreature → ℤ → ℤ → ℤ → Bytes → Bytes
write_tile slices creatures wx wy nz w =
    let (w', things) =
      add_creatures creatures wx wy nz (add_items slices.pre_creature (write_u16 0 w, 0)) in
    if ltb things 10 then (add_items slices.post_creature (w', things)).0 else w'

-- `if skip >= 0 { w.write_u8(skip as u8); w.write_u8(0xFF); }`
pub flush_skip : ℤ → Bytes → Bytes
flush_skip (pos n) w = write_u8 0xff (write_u8 (n % 256) w)
flush_skip (negsuc _) w = w

-- The `match` on one position.
pub cell : Option TileSlices → List PlacedCreature → ℤ → ℤ → ℤ → Bytes × ℤ → Bytes × ℤ
cell (some slices) creatures wx wy nz (w, skip) =
    (write_tile slices creatures wx wy nz (flush_skip skip w), pos 0)
cell none creatures wx wy nz (w, skip) =
    if eq_ℤ skip (pos 0xfe) then (write_u8 0xff (write_u8 0xff w), negsuc 0) else (w, skip +ℤ pos 1)

module _ (src : TileSource) (creatures : List PlacedCreature) where
  -- `for ny in 0..height`, on the rounds left; the sample point moves by `offset` on each floor.
  pub column_loop : ℕ → ℕ → ℕ → ℤ → ℤ → ℤ → ℤ → Bytes × ℤ → Bytes × ℤ
  column_loop zero nx ny anchor_x anchor_y nz offset out = out
  column_loop (suc left) nx ny anchor_x anchor_y nz offset out =
      let wx = anchor_x +ℤ pos nx +ℤ offset in
      let wy = anchor_y +ℤ pos ny +ℤ offset in
      column_loop left nx (ny + 1) anchor_x anchor_y nz offset
        (cell (src.tile wx wy nz) creatures wx wy nz out)

  -- `for nx in 0..width`
  pub row_loop : ℕ → ℕ → ℕ → ℤ → ℤ → ℤ → ℤ → Bytes × ℤ → Bytes × ℤ
  row_loop zero nx height anchor_x anchor_y nz offset out = out
  row_loop (suc left) nx height anchor_x anchor_y nz offset out =
      row_loop left (nx + 1) height anchor_x anchor_y nz offset
        (column_loop height nx 0 anchor_x anchor_y nz offset out)

  unfoldable pub floor_description : ℤ → ℤ → ℤ → ℤ → ℕ → ℕ → Bytes × ℤ → Bytes × ℤ
  floor_description anchor_x anchor_y nz offset width height out =
      row_loop width 0 height anchor_x anchor_y nz offset out

  -- The `loop` over the floors; it stops after the floor `endz`. Without fuel it stops too.
  pub floor_loop : ℕ → ℤ → ℤ → ℤ → ℤ → ℤ → ℤ → ℕ → ℕ → Bytes × ℤ → Option (Bytes × ℤ)
  floor_loop zero nz endz zstep anchor_x anchor_y center_z width height out = none
  floor_loop (suc fuel) nz endz zstep anchor_x anchor_y center_z width height out =
      let out' = floor_description anchor_x anchor_y nz (center_z -ℤ nz) width height out in
      let rest =
        floor_loop fuel (nz +ℤ zstep) endz zstep anchor_x anchor_y center_z width height out' in
      if eq_ℤ nz endz then some out' else rest

abbrev pub min_ℤ : ℤ → ℤ → ℤ
min_ℤ a b = if ltb_ℤ b a then b else a

pub floor_range : ℤ → ℤ × ℤ × ℤ
floor_range center_z =
    if ltb_ℤ (pos 7) center_z
    then (center_z -ℤ pos 2, min_ℤ (center_z +ℤ pos 2) (pos 15), pos 1)
    else (pos 7, pos 0, negsuc 0)

-- Eight floors are the most that `floor_range` names up to floor 17.
abbrev pub floor_fuel : ℕ
floor_fuel = 8

abbrev pub flush_out : Bytes × ℤ → Bytes
flush_out (w, skip) = flush_skip skip w

-- `none` is the loop that runs past its last floor.
pub get_map_description :
    TileSource → List PlacedCreature → ℤ → ℤ → ℤ → ℕ → ℕ → Bytes → Option Bytes
get_map_description src creatures anchor_x anchor_y center_z width height w =
    let (startz, endz, zstep) = floor_range center_z in
    Option.map flush_out (
      floor_loop src creatures floor_fuel startz endz zstep anchor_x anchor_y center_z width height
        (w, negsuc 0))

unfoldable pub encode : Center → TileSource → List PlacedCreature → Option Bytes
unfolding get_map_description
encode center src creatures =
    get_map_description src creatures (pos center.x -ℤ pos 8) (pos center.y -ℤ pos 6) (pos center.z)
      viewport_width viewport_height
      (write_u8 center.z (write_u16 center.y (write_u16 center.x (write_u8 0x64 []))))

unfoldable pub encode_slice :
    ℕ → ℤ → ℤ → ℤ → ℕ → ℕ → TileSource → List PlacedCreature → Option Bytes
unfolding get_map_description
encode_slice opcode anchor_x anchor_y center_z width height src creatures =
    get_map_description src creatures anchor_x anchor_y center_z width height (write_u8 opcode [])
