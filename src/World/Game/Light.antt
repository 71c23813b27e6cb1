-- ===== src/World/Game/Light.antt =====
-- The light that a player gives off (crates/world/src/game/containers.rs and mod.rs).
use package.oxidia.Prelude.{
  ℕ, Bool, ◌||◌, List, [], ◌∷◌, Option, none, some, if◌then◌else◌, ltb, ◌==◌,
}
use package.oxidia.Prelude.Assoc.{nat_eq, lookup, adjust}
use package.oxidia.Protocol.Bytes.{Bytes}
use package.oxidia.Protocol.EnterWorld.{creature_light}
use package.oxidia.World.Game.{Game, PlayerState, InvItem, ItemMeta}
use package.oxidia.World.Game.View.{spectators}
use package.oxidia.World.Game.Session.{push, push_all}

-- The lit torches are 2051, 2053 and 2055.
unfoldable pub item_light : ℕ → ℕ × ℕ
item_light sid = if sid == 2051 || (sid == 2053 || sid == 2055) then (7, 206) else (0, 0)

abbrev light_of : Option ItemMeta → ℕ → ℕ × ℕ
light_of none sid = item_light sid
light_of (some m) sid =
    if ltb 0 m.light_level then (m.light_level, m.light_color) else item_light sid

abbrev brighter : ℕ × ℕ → ℕ × ℕ → ℕ × ℕ
brighter (level, color) (best_level, best_color) =
    if ltb best_level level then (level, color) else (best_level, best_color)

-- The loop over the slots, with the brightest light so far.
unfoldable pub brightest : (ℕ → Option ItemMeta) → List (Option InvItem) → ℕ × ℕ → ℕ × ℕ
unfolding item_light
brightest meta [] best = best
brightest meta (none ∷ rest) best = brightest meta rest best
brightest meta (some it ∷ rest) best =
    brightest meta rest (brighter (light_of (meta it.server_id) it.server_id) best)

abbrev pub set_light : ℕ × ℕ → PlayerState → PlayerState
set_light (level, color) p = record p { light_level = level; light_color = color }

module _ (accepts : List (ℕ × Bytes) → ℕ → Bytes → Bool) where
  -- For the light of a player.
  unfoldable pub broadcast_creature_light : Game → ℕ → Game
  broadcast_creature_light g id = elim (lookup id g.players) [
    | none ↦ g
    | some p ↦
        let pkt = creature_light id p.light_level p.light_color in
        let g' = push accepts g id pkt in push_all accepts (spectators g' p.position id) pkt g'
  ]

  unfoldable pub recalc_creature_light : Game → ℕ → Game
  unfolding brightest broadcast_creature_light
  recalc_creature_light g id = elim (lookup id g.players) [
    | none ↦ g
    | some p ↦
        let light = brightest g.item_meta p.inventory (0, 0) in
        broadcast_creature_light (record g { players = adjust id (set_light light) g.players }) id
  ]
