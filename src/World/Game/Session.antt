-- ===== src/World/Game/Session.antt =====
-- Sending to the sessions, and the player whose session does not take a packet
-- (crates/world/src/game/mod.rs, session.rs, items.rs). Whether the bounded channel of a player takes
-- a packet is the parameter `accepts`, which is told all packets that were taken before.
use Prim.Native.Char.{code}
use Prim.Native.String.{String}
use package.oxidia.Prelude.{
  ℕ, zero, suc, ◌+◌, ◌-◌, Bool, List, [], ◌∷◌, ◌++◌, Option, none, some, if◌then◌else◌, ltb, ◌==◌,
  length, min, get_elem?,
}
use mathlib.Core.Option
use package.oxidia.Prelude.Assoc.{nat_eq, lookup, adjust, erase}
use package.oxidia.Protocol.Bytes.{Bytes}
use package.oxidia.Protocol.Message.{write_u8, write_string}
use package.oxidia.Protocol.MapDescription.{WireItem}
use package.oxidia.Protocol.MoveThing.{Place}
use package.oxidia.Protocol.Walk.{remove_creature_by_id}
use package.oxidia.Protocol.TileItem.{add_tile_item, update_tile_item}
use package.oxidia.Protocol.TileCreature.{remove_tile_thing}
use package.oxidia.Protocol.EnterWorld.{
  effect_teleport, magic_effect, set_inventory_slot, op_inventory_empty,
}
use package.oxidia.World.Position.{Position}
use package.oxidia.World.Map.Tiles.{or_else}
use package.oxidia.World.Game.{
  Game, PlayerState, InvItem, ContainerItem, ContainerSource, OpenContainer, SaveRecord,
  same_position, entry,
}
use package.oxidia.World.Game.View.{
  ids_where, spectators, creatures_on, sort, dedup, overlay, merged_pre_creature_len,
}

-- `as_bytes` of an ASCII text.
abbrev pub as_bytes : String → Bytes
as_bytes String.[] = []
as_bytes (String.◌∷◌ c rest) = code c ∷ as_bytes rest

abbrev pub place : Position → Place
place p = record { x = p.x; y = p.y; z = p.z }

-- `(i + 1, server_id, count)` of each slot that is taken, from slot `i + 1` on
unfoldable pub export_inventory : ℕ → List (Option InvItem) → List (ℕ × ℕ × ℕ)
export_inventory i [] = []
export_inventory i (none ∷ rest) = export_inventory (i + 1) rest
export_inventory i (some it ∷ rest) =
    (i + 1, it.server_id, or_else it.count 1) ∷ export_inventory (i + 1) rest

unfoldable pub export_rows : ℕ → ℕ → List ContainerItem → List (ℕ × ℕ × ℕ × ℕ)
export_rows slot i [] = []
export_rows slot i (it ∷ rest) =
    (slot, i, it.server_id, or_else it.count 1) ∷ export_rows slot (i + 1) rest

abbrev inventory_slot : ContainerSource → Option ℕ
inventory_slot (ContainerSource.slot s) = if s == 0 then none else some s
inventory_slot _ = none

unfoldable pub export_container_items : List (Option OpenContainer) → List (ℕ × ℕ × ℕ × ℕ)
unfolding export_rows
export_container_items [] = []
export_container_items (none ∷ rest) = export_container_items rest
export_container_items (some oc ∷ rest) = elim (inventory_slot oc.source) [
  | none ↦ export_container_items rest
  | some s ↦ export_rows s 0 oc.items ++ export_container_items rest
]

unfoldable pub save_record : PlayerState → SaveRecord
unfolding export_inventory export_container_items
save_record p = record {
  name = p.name;
  position = p.position;
  direction = p.direction;
  outfit = p.outfit;
  health = p.health;
  max_health = p.max_health;
  sex = p.sex;
  inventory = export_inventory 0 p.inventory;
  container_items = export_container_items p.open_containers;
}

-- `HashSet::remove`
unfoldable pub forget : ℕ → List ℕ → List ℕ
forget id [] = []
forget id (k ∷ rest) = let later = forget id rest in if k == id then later else k ∷ later

abbrev pub forget_creature : ℕ → PlayerState → PlayerState
forget_creature id p = record p { known = forget id p.known }

-- The loop of `logout` over the spectators, with the push that it calls.
unfoldable pub tell_departure : (Game → ℕ → Bytes → Game) → ℕ → Position → List ℕ → Game → Game
unfolding forget
tell_departure push id at [] g = g
tell_departure push id at (spec ∷ rest) g =
    let g' = push g spec (magic_effect at.x at.y at.z effect_teleport) in
    let g'' = push g' spec (remove_creature_by_id id) in
    tell_departure push id at rest
      (record g'' { players = adjust spec (forget_creature id) g''.players })

-- The game without a player, who is saved if there is a worker for it.
unfoldable pub departed : Game → ℕ → PlayerState → Game
unfolding save_record
departed g id p = record g {
  players = erase id g.players;
  saved = Option.map (λ records. records ++ (save_record p ∷ [])) g.saved;
}

unfoldable pub logout_by : (Game → ℕ → Bytes → Game) → Game → ℕ → Game
unfolding departed tell_departure
logout_by push g id = elim (lookup id g.players) [
  | none ↦ g
  | some p ↦
      let gone = departed g id p in
      tell_departure push id p.position (spectators gone p.position id) gone
]

module _ (accepts : List (ℕ × Bytes) → ℕ → Bytes → Bool) where
  -- A push that fails logs the player out, which pushes to others; with each a player goes.
  unfoldable pub push_within : ℕ → Game → ℕ → Bytes → Game
  unfolding logout_by
  push_within zero g id payload = g
  push_within (suc fuel) g id payload = elim (lookup id g.players) [
    | none ↦ g
    | some p ↦
        let reaped = logout_by (push_within fuel) g id in
        if accepts g.sent id payload
        then record g { sent = g.sent ++ ((id, payload) ∷ []) }
        else reaped
  ]

  unfoldable pub push : Game → ℕ → Bytes → Game
  unfolding push_within
  push g id payload = push_within (suc (length g.players)) g id payload

  unfoldable pub logout : Game → ℕ → Game
  unfolding push
  logout g id = logout_by push g id

  unfoldable pub push_all : List ℕ → Bytes → Game → Game
  unfolding push
  push_all [] payload g = g
  push_all (t ∷ rest) payload g = push_all rest payload (push g t payload)

  -- `MSG_STATUS_SMALL` is 21.
  unfoldable pub push_status_message : Game → ℕ → Bytes → Game
  unfolding push
  push_status_message g id text = push g id (write_string text (write_u8 21 (write_u8 0xb4 [])))

  abbrev pub push_cannot_move : Game → ℕ → Bytes → Game
  push_cannot_move g id text = push_status_message g id text

  -- The players who see a place or stand there, each once; the exclusion is `u32::MAX`.
  unfoldable pub watchers : Game → Position → List ℕ
  unfolding dedup sort
  watchers g at = dedup (
      sort (
        spectators g at 4294967295
        ++ ids_where (λ id (p : PlayerState). same_position p.position at) g.players))

  unfoldable pub broadcast_dest : Game → Position → ℕ → WireItem → Bool → Game
  unfolding watchers push_all
  broadcast_dest g at sp item is_update =
      push_all (watchers g at)
        (if is_update
          then update_tile_item (place at) sp item
          else add_tile_item (place at) sp item)
        g

  unfoldable pub item_wire_stackpos : Game → Position → ℕ → ℕ
  item_wire_stackpos g at i =
      let pre = merged_pre_creature_len g at in
      let creatures = length (creatures_on g at) in min (if ltb i pre then i else i + creatures) 9

  unfoldable pub broadcast_source : Game → Position → ℕ → Bool → ℕ → Game
  unfolding watchers push_all item_wire_stackpos
  broadcast_source g at from_stackpos removed_fully src_idx =
      if removed_fully
      then push_all (watchers g at) (remove_tile_thing (place at) from_stackpos) g
      else elim (Option.bind (overlay g at) (λ st. get_elem? st.items src_idx)) [
        | none ↦ g
        | some item ↦
            push_all (watchers g at)
              (update_tile_item (place at) (item_wire_stackpos g at src_idx) item) g
      ]

  unfoldable pub push_inventory_slot : Game → ℕ → ℕ → Game
  unfolding push
  push_inventory_slot g id slot = elim (lookup id g.players) [
    | none ↦ g
    | some p ↦ elim (entry p.inventory (slot - 1)) [
      | none ↦ push g id (op_inventory_empty ∷ slot ∷ [])
      | some it ↦ push g id (
          set_inventory_slot slot
            (record { client_id = it.client_id; subtype = it.count; animated = it.animated }))
    ]
  ]
