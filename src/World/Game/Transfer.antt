-- ===== src/World/Game/Transfer.antt =====
-- Moves to and from containers (`do_move_container` of crates/world/src/game/containers.rs) and the
-- parts that the moves of items share (crates/world/src/game/items.rs). `none` as the result of a
-- move says that closing the windows did not end with the fuel.
pub mod Loss
use Prim.Native.Nat.{bit_and}
use package.oxidia.Prelude.{
  ℕ, zero, suc, ◌+◌, ◌-◌, ◌%◌, Bool, true, false, not, ◌&&◌, ◌||◌, List, [], ◌∷◌, Option, none,
  some, if◌then◌else◌, get_elem?, ltb, leb, ◌==◌, length, set, min, max,
}
use mathlib.Core.Option
use package.oxidia.Prelude.Assoc.{nat_eq, lookup, adjust}
use package.oxidia.Protocol.Bytes.{Bytes}
use package.oxidia.Protocol.MapDescription.{WireItem}
use package.oxidia.World.Position.{Position}
use package.oxidia.World.Map.Sight.{Floats, can_throw_object_to}
use package.oxidia.World.Map.Tiles.{TileStack, or_else, is_blocked, tile_pre_creature_len, tile_at}
use package.oxidia.World.Game.{
  Game, PlayerState, ItemMeta, InvItem, ContainerItem, EquipSlot, admits, entry,
}
use package.oxidia.World.Game.View.{
  creatures_on, overlay, merged_server_id, merged_pre_creature_len,
}
use package.oxidia.World.Game.Session.{
  as_bytes, push_cannot_move, broadcast_dest, broadcast_source, push_inventory_slot,
}
use package.oxidia.World.Game.Light.{recalc_creature_light}
use package.oxidia.World.Game.Ground.{Taken, Shown, count_of, take_from_ground, add_to_ground_front}
use package.oxidia.World.Game.Windows.{in_close_range, windows_of, window, nested_dest_cid}
use package.oxidia.World.Game.Windows.Handlers.{
  close_orphaned_nested_container, push_item_to_container, pop_item_from_container,
}

-- An endpoint with x = 0xffff is a slot or, by a bit of y, a container.
unfoldable pub is_container_place : Position → Bool
is_container_place p = p.x == 0xffff && not (bit_and p.y 0x40 == 0)

unfoldable pub is_slot_place : Position → Bool
is_slot_place p = p.x == 0xffff && bit_and p.y 0x40 == 0

abbrev pub cid_of : Position → ℕ
cid_of p = bit_and p.y 0x0f

-- The index in the stack of what the client sees at `sp`; none for a creature.
unfoldable pub source_index : Game → Position → ℕ → Option ℕ
source_index g from sp =
    let pre = merged_pre_creature_len g from in
    let creatures = length (creatures_on g from) in
    if ltb sp pre then some sp else if ltb sp (pre + creatures) then none else some (sp - creatures)

abbrev pub is_stackable : Option ItemMeta → Bool
is_stackable none = false
is_stackable (some m) = m.stackable

abbrev pub slot_admits : Option ItemMeta → ℕ → Bool
slot_admits meta slot = elim (Option.bind meta (λ (m : ItemMeta). m.equip_slot)) [
  | none ↦ false
  | some eq ↦ admits eq slot
]

-- `dest_full`; none if there is no such window.
unfoldable pub is_full : Game → ℕ → ℕ → Option Bool
is_full g id cid = Option.map (λ oc. leb oc.capacity (length oc.items)) (window g id cid)

abbrev pub set_slot : ℕ → Option InvItem → PlayerState → PlayerState
set_slot slot it p = record p { inventory = set p.inventory (slot - 1) it }

abbrev pub change_slot : ℕ → ℕ → Option InvItem → Game → Game
change_slot id slot it g = record g { players = adjust id (set_slot slot it) g.players }

-- `(1..=10).contains(&slot)`
abbrev pub is_slot : ℕ → Bool
is_slot slot = leb 1 slot && leb slot 10

abbrev pub is_absent : Option TileStack → Bool
is_absent none = true
is_absent (some st) = false

module _ (accepts : List (ℕ × Bytes) → ℕ → Bytes → Bool) where
  abbrev pub show : Position → ℕ → Bool → Option WireItem → Game → Game
  show to s is_update none g = g
  show to s is_update (some item) g = broadcast_dest accepts g to s item is_update

  -- An item comes onto the ground and the spectators are told; none if there is no tile.
  unfoldable pub place_on_ground : Game → Position → ℕ → ℕ → WireItem → Bool → Option Game
  place_on_ground g to sid moved item stackable =
      let dest_creatures = length (creatures_on g to) in
      elim (add_to_ground_front g to sid moved item stackable) [
        | none ↦ none
        | some (shown, g') ↦
            let dest_front =
              or_else (Option.map (λ (st : TileStack). st.pre_creature_len) (overlay g' to)) 0 in
            let dest_s = min (dest_front + dest_creatures) 9 in
            some (show to dest_s false shown.added (show to dest_s true shown.merged g'))
      ]

  -- A slot gets an item, or loses it, and its owner is told.
  unfoldable pub put_in_slot : Game → ℕ → ℕ → Option InvItem → Game
  put_in_slot g id slot it =
      recalc_creature_light accepts (push_inventory_slot accepts (change_slot id slot it g) id slot)
        id

  abbrev is_container_item : Game → Option ContainerItem → Bool
  is_container_item g it = elim (Option.bind it (λ (i : ContainerItem). g.item_meta i.server_id)) [
    | none ↦ false
    | some m ↦ m.is_container
  ]

  unfoldable pub container_to_container : ℕ → Game → ℕ → ℕ → ℕ → ℕ → ℕ → Option Game
  container_to_container fuel g id fc fs tc ts =
      if fc == tc && fs == ts
      then some g
      else let moving = Option.bind (window g id fc) (λ oc. get_elem? oc.items fs) in
        let (nested, g1) =
          if is_container_item g moving then (none, g) else nested_dest_cid g id tc ts in
        let dest_cid = or_else nested tc in
        elim (pop_item_from_container accepts g1 id fc fs) [
          | none ↦ some g1
          | some (item, g2) ↦
              Option.map
                (λ g3. elim (is_full g3 id dest_cid) [
                  | none ↦ g3
                  | some true ↦ push_item_to_container accepts g3 id fc item
                  | some false ↦ push_item_to_container accepts g3 id dest_cid item
                ])
                (close_orphaned_nested_container accepts fuel g2 id fc fs)
        ]

  -- The item leaves the ground and goes into the window `tc`.
  unfoldable pub store : Game → ℕ → Position → ℕ → ℕ → ℕ → ItemMeta → ℕ → ℕ → Game
  store g id from from_stackpos i sid meta tc count =
      let want = if meta.stackable then max count 1 else 1 in
      elim (take_from_ground g from i want meta.stackable) [
        | none ↦ g
        | some (taken, g1) ↦
            let g2 = broadcast_source accepts g1 from from_stackpos taken.removed_fully i in
            let item : ContainerItem = record {
              server_id = sid;
              client_id = meta.client_id;
              count = if meta.stackable then some taken.moved else taken.original_count;
              animated = meta.animated;
            } in
            push_item_to_container accepts g2 id tc item
      ]

  unfoldable pub ground_to_container : Game → ℕ → Position → ℕ → ℕ → ℕ → Game
  unfolding source_index
  ground_to_container g id from from_stackpos tc count = elim (lookup id g.players) [
    | none ↦ g
    | some p ↦
        if not (in_close_range p.position from)
        then push_cannot_move accepts g id (as_bytes "You are too far away.")
        else elim (source_index g from from_stackpos) [
          | none ↦ g
          | some i ↦ elim (merged_server_id g from i) [
            | none ↦ g
            | some sid ↦ elim (g.item_meta sid) [
              | none ↦ g
              | some meta ↦
                  if not meta.moveable
                  then push_cannot_move accepts g id (as_bytes "You cannot move this object.")
                  else elim (is_full g id tc) [
                    | none ↦ g
                    | some true ↦ g
                    | some false ↦ store g id from from_stackpos i sid meta tc count
                  ]
            ]
          ]
        ]
  ]

  unfoldable pub slot_to_container : Game → ℕ → ℕ → ℕ → Game
  unfolding put_in_slot
  slot_to_container g id inv_slot tc =
      if not (is_slot inv_slot)
      then g
      else elim (Option.bind (lookup id g.players) (λ p. entry p.inventory (inv_slot - 1))) [
        | none ↦ g
        | some it ↦ elim (is_full g id tc) [
          | none ↦ g
          | some true ↦ g
          | some false ↦
              let g1 = put_in_slot g id inv_slot none in
              push_item_to_container accepts g1 id tc (record {
                server_id = it.server_id;
                client_id = it.client_id;
                count = it.count;
                animated = it.animated;
              })
        ]
      ]

  unfoldable pub container_to_slot : ℕ → Game → ℕ → ℕ → ℕ → ℕ → Option Game
  unfolding put_in_slot
  container_to_slot fuel g id fc fs inv_slot =
      if not (is_slot inv_slot) then some g else elim (lookup id g.players) [
        | none ↦ some g
        | some p ↦ elim (entry p.inventory (inv_slot - 1)) [
          | some it ↦ some g
          | none ↦ elim (pop_item_from_container accepts g id fc fs) [
            | none ↦ some g
            | some (item, g1) ↦
                Option.map
                  (λ g2.
                    if not (slot_admits (g2.item_meta item.server_id) inv_slot)
                    then g2
                    else put_in_slot g2 id inv_slot (
                        some (record {
                          server_id = item.server_id;
                          client_id = item.client_id;
                          count = item.count;
                          animated = item.animated;
                        })))
                  (close_orphaned_nested_container accepts fuel g1 id fc fs)
          ]
        ]
      ]

  module _ (fl : Floats) where
    -- Whether a throw from a player's place may land on a tile; the message if not.
    unfoldable pub refusal : Game → Position → Position → Option Bytes
    refusal g from to =
        if not (from.z == to.z) || not (can_throw_object_to fl g.chunks from to)
        then some (as_bytes "You cannot throw there.")
        else if (tile_pre_creature_len g.chunks to == 0 && is_absent (tile_at g.chunks to))
            || is_blocked g.chunks to
        then some (as_bytes "You cannot put that there.")
        else none

    unfoldable pub container_to_ground : ℕ → Game → ℕ → ℕ → ℕ → Position → Option Game
    unfolding refusal place_on_ground
    container_to_ground fuel g id fc fs to = elim (lookup id g.players) [
      | none ↦ some g
      | some p ↦ elim (refusal g p.position to) [
        | some text ↦ some (push_cannot_move accepts g id text)
        | none ↦ elim (pop_item_from_container accepts g id fc fs) [
          | none ↦ some g
          | some (item, g1) ↦
              Option.map
                (λ g2.
                  or_else
                    (place_on_ground g2 to item.server_id (count_of item.count)
                      (record {
                        client_id = item.client_id;
                        subtype = item.count;
                        animated = item.animated;
                      })
                      (is_stackable (g2.item_meta item.server_id)))
                    g2)
                (close_orphaned_nested_container accepts fuel g1 id fc fs)
        ]
      ]
    ]

    unfoldable pub do_move_container : ℕ → Game → ℕ → Position → ℕ → Position → ℕ → Option Game
    unfolding container_to_container ground_to_container slot_to_container container_to_slot
        container_to_ground
    do_move_container fuel g id from from_stackpos to count =
        if is_container_place from
        then (if is_container_place to
            then container_to_container fuel g id (cid_of from) from.z (cid_of to) to.z
            else if is_slot_place to
            then container_to_slot fuel g id (cid_of from) from.z (to.y % 256)
            else container_to_ground fuel g id (cid_of from) from.z to)
        else if is_container_place to
        then (if is_slot_place from
            then some (slot_to_container g id (from.y % 256) (cid_of to))
            else some (ground_to_container g id from from_stackpos (cid_of to) count))
        else some g
