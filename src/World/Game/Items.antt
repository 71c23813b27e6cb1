-- ===== src/World/Game/Items.antt =====
-- The moves of items that a player asks for (`do_move_thing` and `do_move_inventory` of
-- crates/world/src/game/items.rs). `none` as the result says that closing the windows of a container
-- did not end with the fuel.
pub mod Moved
pub mod Total
pub mod Ends
pub mod Fitted
pub mod Equip
pub mod Inventory
use package.oxidia.Prelude.{
  ℕ, ◌-◌, Bool, true, false, not, ◌&&◌, ◌||◌, List, [], ◌∷◌, Option, none, some, if◌then◌else◌, leb,
  ◌==◌, max,
}
use mathlib.Core.Option
use package.oxidia.Prelude.Assoc.{nat_eq, lookup, adjust}
use package.oxidia.Protocol.Bytes.{Bytes}
use package.oxidia.Protocol.MapDescription.{WireItem}
use package.oxidia.World.Position.{Position}
use package.oxidia.World.Map.Sight.{Floats, can_throw_object_to}
use package.oxidia.World.Map.Tiles.{or_else, is_blocked, tile_pre_creature_len, tile_at}
use package.oxidia.World.Game.{
  Game, PlayerState, ItemMeta, InvItem, ContainerSource, entry, same_position,
}
use package.oxidia.World.Game.View.{merged_server_id, merged_pre_creature_len}
use package.oxidia.World.Game.Session.{
  as_bytes, push_cannot_move, broadcast_source, push_inventory_slot,
}
use package.oxidia.World.Game.Light.{recalc_creature_light}
use package.oxidia.World.Game.Ground.{Taken, count_of, take_from_ground}
use package.oxidia.World.Game.Windows.{in_close_range, rekey_container_source}
use package.oxidia.World.Game.Windows.Handlers.{auto_close_ground_containers}
use package.oxidia.World.Game.Transfer.{
  is_container_place, source_index, is_stackable, slot_admits, is_slot, set_slot, change_slot,
  is_absent, place_on_ground, put_in_slot, refusal, do_move_container,
}

unfoldable pub contains_position : Position → List Position → Bool
contains_position p [] = false
contains_position p (q ∷ rest) = same_position q p || contains_position p rest

-- The slot that an endpoint of `do_move_inventory` names: none for the ground; an endpoint that
-- names no slot is refused.
pub data Endpoint : Type 0 where
  on_map refused : Endpoint
  in_slot : ℕ → Endpoint

unfoldable pub endpoint : Position → Endpoint
endpoint p =
    if p.x == 0xffff
    then (if is_slot p.y then Endpoint.in_slot p.y else Endpoint.refused)
    else Endpoint.on_map

-- Whether the item that a swap pushes out, if any, may go where the other one was.
unfoldable pub displaced_fits : Game → ℕ → Option InvItem → Bool
displaced_fits g src none = true
displaced_fits g src (some d) = slot_admits (g.item_meta d.server_id) src

abbrev pub cannot_equip : Bytes
cannot_equip = as_bytes "You cannot equip this object."

module _ (accepts : List (ℕ × Bytes) → ℕ → Bytes → Bool) where
  -- The item leaves the ground and is put into the empty slot.
  unfoldable pub equip_item : Game → ℕ → Position → ℕ → ℕ → ℕ → ItemMeta → ℕ → ℕ → Game
  unfolding put_in_slot
  equip_item g id from from_stackpos i sid meta slot count =
      let want = if meta.stackable then max count 1 else 1 in
      elim (take_from_ground g from i want meta.stackable) [
        | none ↦ g
        | some (taken, g1) ↦
            let g2 = broadcast_source accepts g1 from from_stackpos taken.removed_fully i in
            let item : InvItem = record {
              server_id = sid;
              client_id = meta.client_id;
              count = if meta.stackable then some taken.moved else taken.original_count;
              animated = meta.animated;
            } in
            rekey_container_source (put_in_slot accepts g2 id slot (some item)) id
              (ContainerSource.on_ground from) (ContainerSource.slot slot)
      ]

  unfoldable pub equip : Game → ℕ → Position → ℕ → ℕ → ℕ → Game
  unfolding equip_item
  equip g id from from_stackpos slot count = elim (lookup id g.players) [
    | none ↦ g
    | some p ↦ elim (entry p.inventory (slot - 1)) [
      | some it ↦ push_cannot_move accepts g id cannot_equip
      | none ↦
          if not (in_close_range p.position from)
          then push_cannot_move accepts g id (as_bytes "You are too far away.")
          else elim (source_index g from from_stackpos) [
            | none ↦ g
            | some i ↦ elim (merged_server_id g from i) [
              | none ↦ g
              | some sid ↦ elim (g.item_meta sid) [
                | none ↦ g
                | some meta ↦
                    if not meta.moveable
                    then push_cannot_move accepts g id (as_bytes "You cannot move this object.")
                    else if not (slot_admits (some meta) slot)
                    then push_cannot_move accepts g id cannot_equip
                    else equip_item g id from from_stackpos i sid meta slot count
              ]
            ]
          ]
    ]
  ]

  unfoldable pub swap_slots : Game → ℕ → ℕ → ℕ → Game
  unfolding displaced_fits
  swap_slots g id src dst = if src == dst then g else elim (lookup id g.players) [
    | none ↦ g
    | some p ↦ elim (entry p.inventory (src - 1)) [
      | none ↦ g
      | some moving ↦
          let displaced = entry p.inventory (dst - 1) in
          if not (slot_admits (g.item_meta moving.server_id) dst)
          then push_cannot_move accepts g id cannot_equip
          else if not (displaced_fits g src displaced)
          then push_cannot_move accepts g id cannot_equip
          else let g1 = change_slot id src displaced (change_slot id dst (some moving) g) in
            let g2 = push_inventory_slot accepts (push_inventory_slot accepts g1 id src) id dst in
            recalc_creature_light accepts g2 id
    ]
  ]

  module _ (fl : Floats) where
    unfoldable pub unequip : ℕ → Game → ℕ → ℕ → Position → Option Game
    unfolding put_in_slot place_on_ground refusal
    unequip fuel g id slot to = elim (lookup id g.players) [
      | none ↦ some g
      | some p ↦ elim (entry p.inventory (slot - 1)) [
        | none ↦ some g
        | some it ↦ elim (refusal accepts fl g p.position to) [
          | some text ↦ some (push_cannot_move accepts g id text)
          | none ↦
              let stackable = is_stackable (g.item_meta it.server_id) in
              let g1 = put_in_slot accepts g id slot none in
              elim (place_on_ground accepts g1 to it.server_id (count_of it.count)
                (record { client_id = it.client_id; subtype = it.count; animated = it.animated })
                stackable) [
                  | none ↦ some g1
                  | some g2 ↦
                      auto_close_ground_containers accepts fuel
                        (rekey_container_source g2 id (ContainerSource.slot slot)
                          (ContainerSource.on_ground to))
                        id
                ]
        ]
      ]
    ]

    unfoldable pub do_move_inventory : ℕ → Game → ℕ → Position → ℕ → Position → ℕ → Option Game
    unfolding equip unequip swap_slots endpoint
    do_move_inventory fuel g id from from_stackpos to count = elim (endpoint from) [
      | Endpoint.refused ↦ some g
      | Endpoint.on_map ↦ elim (endpoint to) [
        | Endpoint.in_slot slot ↦ some (equip g id from from_stackpos slot count)
        | other ↦ some g
      ]
      | Endpoint.in_slot src ↦ elim (endpoint to) [
        | Endpoint.refused ↦ some g
        | Endpoint.on_map ↦ unequip fuel g id src to
        | Endpoint.in_slot dst ↦ some (swap_slots g id src dst)
      ]
    ]

    -- The item at index `i` goes from one tile to another.
    unfoldable pub carry :
        ℕ → Game → ℕ → Position → ℕ → ℕ → ℕ → ItemMeta → Position → ℕ → Option Game
    unfolding place_on_ground
    carry fuel g id from from_stackpos i sid meta to count =
        let want = if meta.stackable then max count 1 else 1 in
        elim (take_from_ground g from i want meta.stackable) [
          | none ↦ some g
          | some (taken, g1) ↦
              elim (place_on_ground accepts g1 to sid taken.moved
                (record {
                  client_id = meta.client_id;
                  subtype = taken.original_count;
                  animated = meta.animated;
                })
                meta.stackable) [
                  | none ↦ some g1
                  | some g2 ↦
                      let g3 =
                        broadcast_source accepts g2 from from_stackpos taken.removed_fully i in
                      if meta.is_container
                      then auto_close_ground_containers accepts fuel
                          (rekey_container_source g3 id (ContainerSource.on_ground from)
                            (ContainerSource.on_ground to))
                          id
                      else some g3
                ]
        ]

    -- The checks of the item and of the tile it goes to.
    unfoldable pub move_known :
        ℕ → Game → ℕ → Position → ℕ → ℕ → ℕ → ItemMeta → Position → ℕ → Option Game
    unfolding carry contains_position
    move_known fuel g id from from_stackpos i sid meta to count =
        if leb (merged_pre_creature_len g from) i && contains_position from g.corpse_tiles
        then some g
        else if not meta.moveable
        then some (push_cannot_move accepts g id (as_bytes "You cannot move this object."))
        else if (tile_pre_creature_len g.chunks to == 0 && is_absent (tile_at g.chunks to))
            || is_blocked g.chunks to
        then some (push_cannot_move accepts g id (as_bytes "You cannot put that there."))
        else carry fuel g id from from_stackpos i sid meta to count

    unfoldable pub move_seen : ℕ → Game → ℕ → Position → ℕ → Position → ℕ → Option Game
    unfolding move_known source_index
    move_seen fuel g id from from_stackpos to count = elim (source_index g from from_stackpos) [
      | none ↦ some g
      | some i ↦ elim (merged_server_id g from i) [
        | none ↦ some g
        | some sid ↦ elim (g.item_meta sid) [
          | none ↦ some g
          | some meta ↦ move_known fuel g id from from_stackpos i sid meta to count
        ]
      ]
    ]

    unfoldable pub move_on_ground : ℕ → Game → ℕ → Position → ℕ → Position → ℕ → Option Game
    unfolding move_seen
    move_on_ground fuel g id from from_stackpos to count = elim (lookup id g.players) [
      | none ↦ some g
      | some p ↦
          if not (in_close_range p.position from)
          then some (push_cannot_move accepts g id (as_bytes "You are too far away."))
          else if not (can_throw_object_to fl g.chunks from to)
          then some (push_cannot_move accepts g id (as_bytes "You cannot throw there."))
          else move_seen fuel g id from from_stackpos to count
    ]

    unfoldable pub do_move_thing : ℕ → Game → ℕ → Position → ℕ → Position → ℕ → Option Game
    unfolding do_move_inventory move_on_ground
    do_move_thing fuel g id from from_stackpos to count =
        if from.x == 0xffff || to.x == 0xffff
        then (if is_container_place from || is_container_place to
            then do_move_container accepts fl fuel g id from from_stackpos to count
            else do_move_inventory fuel g id from from_stackpos to count)
        else if same_position from to
        then some g
        else move_on_ground fuel g id from from_stackpos to count
