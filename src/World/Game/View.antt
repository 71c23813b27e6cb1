-- ===== src/World/Game/View.antt =====
-- Who sees what (crates/world/src/game/mod.rs): the view of a player, the spectators of a place, and
-- the creatures that stand on a tile.
use package.oxidia.Prelude.{
  ℕ, ◌+◌, Bool, false, not, ◌&&◌, ◌||◌, List, [], ◌∷◌, ◌++◌, Option, none, some, if◌then◌else◌, leb,
  ◌==◌, get_elem?, length, min,
}
use package.oxidia.Prelude.Int.{ℤ, pos, negsuc, ◌-ℤ◌, ltb_ℤ}
use package.oxidia.Prelude.Assoc.{nat_eq, lookup}
use package.oxidia.World.Position.{Position}
use package.oxidia.World.Map.Sight.{abs_diff}
use package.oxidia.World.Map.Tiles.{
  TileStack, tile_pre_creature_len, tile_item_server_id, creature_stackpos,
}
use package.oxidia.World.Game.{Game, PlayerState, Creature, same_position, position_eq}

-- `(low..=high).contains(&v)`
abbrev pub between : ℤ → ℤ → ℤ → Bool
between low high v = not (ltb_ℤ v low) && not (ltb_ℤ high v)

unfoldable pub can_see : Position → Position → Bool
can_see viewer target =
    let z_ok = if leb viewer.z 7 then leb target.z 7 else leb (abs_diff viewer.z target.z) 2 in
    let offsetz = pos viewer.z -ℤ pos target.z in
    let dx = pos target.x -ℤ pos viewer.x -ℤ offsetz in
    let dy = pos target.y -ℤ pos viewer.y -ℤ offsetz in
    z_ok && (between (negsuc 7) (pos 9) dx && between (negsuc 5) (pos 7) dy)

-- The ids of the entries that pass, in the order of the map.
unfoldable pub ids_where {ℓ} : {A : Type ℓ} → (ℕ → A → Bool) → List (ℕ × A) → List ℕ
ids_where test [] = []
ids_where test ((id, a) ∷ rest) =
    let later = ids_where test rest in if test id a then id ∷ later else later

abbrev pub flag_of : (PlayerState → Bool) → Option PlayerState → Bool
flag_of flag none = false
flag_of flag (some p) = flag p

unfoldable pub spectators : Game → Position → ℕ → List ℕ
unfolding ids_where
spectators g at exclude =
    let ghost = flag_of (λ p. p.ghost) (lookup exclude g.players) in
    ids_where
      (λ id p. not (id == exclude) && (can_see p.position at && (not ghost || p.gamemaster)))
      g.players

unfoldable pub visible_from : Game → Position → ℕ → List ℕ
unfolding ids_where
visible_from g viewer exclude =
    let viewer_is_gm = flag_of (λ p. p.gamemaster) (lookup exclude g.players) in
    ids_where
      (λ id p. not (id == exclude) && (can_see viewer p.position && (viewer_is_gm || not p.ghost)))
      g.players

unfoldable pub spectators_in_range : Game → Position → ℕ → ℕ → ℕ → List ℕ
unfolding ids_where
spectators_in_range g at exclude rx ry =
    ids_where
      (λ id p.
        not (id == exclude)
        && (p.position.z == at.z
            && (leb (abs_diff p.position.x at.x) rx && leb (abs_diff p.position.y at.y) ry)))
      g.players

-- `sort_unstable` on ids
unfoldable pub sort_in : ℕ → List ℕ → List ℕ
sort_in a [] = a ∷ []
sort_in a (b ∷ rest) = if leb a b then a ∷ b ∷ rest else b ∷ sort_in a rest

unfoldable pub sort : List ℕ → List ℕ
unfolding sort_in
sort [] = []
sort (a ∷ rest) = sort_in a (sort rest)

-- `dedup`: of equal neighbours one is kept.
unfoldable pub dedup : List ℕ → List ℕ
dedup [] = []
dedup (a ∷ []) = a ∷ []
dedup (a ∷ b ∷ rest) = let later = dedup (b ∷ rest) in if a == b then later else a ∷ later

unfoldable pub creatures_on : Game → Position → List ℕ
unfolding ids_where sort
creatures_on g at = sort (
    ids_where (λ id (p : PlayerState). same_position p.position at) g.players
    ++ (ids_where (λ id (n : Creature). same_position n.position at) g.npcs
        ++ ids_where (λ id (m : Creature). same_position m.position at) g.monsters))

unfoldable pub any_where {ℓ} : {A : Type ℓ} → (ℕ → A → Bool) → List (ℕ × A) → Bool
any_where test [] = false
any_where test ((id, a) ∷ rest) = test id a || any_where test rest

unfoldable pub tile_occupied : Game → Position → ℕ → Bool
unfolding any_where
tile_occupied g at exclude =
    any_where (λ id (p : PlayerState). not (id == exclude) && same_position p.position at) g.players
    || (any_where (λ id (m : Creature). not (id == exclude) && same_position m.position at)
          g.monsters
        || any_where (λ id (n : Creature). not (id == exclude) && same_position n.position at)
            g.npcs)

unfoldable pub creature_stackpos_on : Game → Position → ℕ → ℕ
unfolding ids_where
creature_stackpos_on g at exclude =
    let base = creature_stackpos g.chunks (pos at.x) (pos at.y) (pos at.z) in
    let others =
      length (
        ids_where (λ id (p : PlayerState). not (id == exclude) && same_position p.position at)
          g.players)
      + (length (
            ids_where (λ id (m : Creature). not (id == exclude) && same_position m.position at)
              g.monsters)
          + length (
              ids_where (λ id (n : Creature). not (id == exclude) && same_position n.position at)
                g.npcs)) in
    min (base + others) 10

abbrev pub overlay : Game → Position → Option TileStack
overlay g at = lookup at g.dynamic

unfoldable pub merged_server_id : Game → Position → ℕ → Option ℕ
merged_server_id g at i = elim (overlay g at) [
  | some st ↦ get_elem? st.server_ids i
  | none ↦ tile_item_server_id g.chunks at i
]

unfoldable pub merged_pre_creature_len : Game → Position → ℕ
merged_pre_creature_len g at = elim (overlay g at) [
  | some st ↦ st.pre_creature_len
  | none ↦ tile_pre_creature_len g.chunks at
]
