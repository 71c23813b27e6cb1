-- ===== src/World/Map/Tiles.antt =====
-- What stands on the tiles of the chunks in memory, and the questions that the game asks of them
-- (crates/world/src/map.rs). A hash map is a list of pairs and a hash set a list.
use package.oxidia.Prelude.{
  ℕ, ◌%◌, Bool, false, not, ◌&&◌, ◌||◌, List, [], ◌∷◌, Option, none, some, if◌then◌else◌, leb, ◌==◌,
  take, drop, get_elem?,
}
use mathlib.Core.Option
use package.oxidia.Prelude.Int.{ℤ, pos_part}
use package.oxidia.Formats.FloorChange.{FloorChange, no_flags}
use package.oxidia.Protocol.MapDescription.{WireItem, TileSlices, TileSource}
use package.oxidia.World.Position.{Position, within}
use package.oxidia.World.Map.{ChunkManager, chunk_dim, chunk_id, get}

-- `items`, `server_ids` and `counts` are parallel.
pub record TileStack : Type 0 where
  pub items : List WireItem
  pub server_ids : List ℕ
  pub counts : List (Option ℕ)
  pub pre_creature_len : ℕ

-- A place within a chunk.
abbrev pub Relative : Type 0
Relative = ℕ × ℕ

unfoldable pub chunk_relative : Position → Relative
chunk_relative p = (p.x % chunk_dim, p.y % chunk_dim)

abbrev pub same_relative : Relative → Relative → Bool
same_relative (a, b) (c, d) = a == c && b == d

unfoldable pub find {ℓ} : {A : Type ℓ} → Relative → List (Relative × A) → Option A
find r [] = none
find r ((k, a) ∷ rest) = if same_relative k r then some a else find r rest

unfoldable pub holds : Relative → List Relative → Bool
holds r [] = false
holds r (k ∷ rest) = same_relative k r || holds r rest

pub record Chunk : Type 0 where
  pub tiles : List (Relative × TileStack)
  pub blocked : List Relative
  pub block_projectile : List Relative
  pub floor_change : List (Relative × FloorChange)
  pub tile_height : List (Relative × ℕ)
  pub protection_zone : List Relative

abbrev pub Chunks : Type 0
Chunks = ChunkManager Chunk

abbrev is_some {ℓ} : {A : Type ℓ} → Option A → Bool
is_some none = false
is_some (some _) = Bool.true

-- The chunk that `p` lies in, asked with the place of `p` in it.
abbrev pub in_chunk {ℓ} : {A : Type ℓ} → A → (Chunk → Relative → A) → Chunks → Position → A
in_chunk absent ask m p = elim (get (chunk_id p) m.chunks) [
  | none ↦ absent
  | some c ↦ ask c (chunk_relative p)
]

unfoldable pub tile_at : Chunks → Position → Option TileStack
unfolding find
tile_at = in_chunk none (λ c r. find r c.tiles)

unfoldable pub is_walkable : Chunks → Position → Bool
unfolding find holds
is_walkable = in_chunk false (λ c r. is_some (find r c.tiles) && not (holds r c.blocked))

unfoldable pub is_blocked : Chunks → Position → Bool
unfolding holds
is_blocked = in_chunk false (λ c r. holds r c.blocked)

unfoldable pub is_protection_zone : Chunks → Position → Bool
unfolding holds
is_protection_zone = in_chunk false (λ c r. holds r c.protection_zone)

unfoldable pub is_block_projectile : Chunks → Position → Bool
unfolding holds
is_block_projectile = in_chunk false (λ c r. holds r c.block_projectile)

unfoldable pub has_ground : Chunks → Position → Bool
unfolding tile_at
has_ground m p = is_some (tile_at m p)

abbrev pub or_else {ℓ} : {A : Type ℓ} → Option A → A → A
or_else none a = a
or_else (some b) a = b

unfoldable pub tile_height : Chunks → Position → ℕ
unfolding find
tile_height = in_chunk 0 (λ c r. or_else (find r c.tile_height) 0)

unfoldable pub triggers_up : Chunks → Position → Bool
unfolding tile_height
triggers_up m p = leb 3 (tile_height m p)

unfoldable pub tile_pre_creature_len : Chunks → Position → ℕ
unfolding tile_at
tile_pre_creature_len m p =
    or_else (Option.map (λ (st : TileStack). st.pre_creature_len) (tile_at m p)) 0

unfoldable pub tile_item_server_id : Chunks → Position → ℕ → Option ℕ
unfolding tile_at
tile_item_server_id m p i = Option.bind (tile_at m p) (λ st. get_elem? st.server_ids i)

-- `StaticMap::key` and `to_position`: the place of a coordinate in the range of the map.
unfoldable pub to_position : ℤ → ℤ → ℤ → Option Position
to_position x y z =
    if within 65536 x && within 65536 y && within 256 z
    then some (record { x = pos_part x; y = pos_part y; z = pos_part z })
    else none

unfoldable pub floor_change_at : Chunks → ℤ → ℤ → ℤ → FloorChange
unfolding find to_position
floor_change_at m x y z =
    or_else (Option.bind (to_position x y z) (in_chunk none (λ c r. find r c.floor_change) m))
      no_flags

abbrev pub slices : TileStack → TileSlices
slices st = record {
  pre_creature = take st.pre_creature_len st.items;
  post_creature = drop st.pre_creature_len st.items;
}

unfoldable pub chunk_tiles : Chunks → TileSource
unfolding tile_at to_position
chunk_tiles m = record {
  tile = λ x y z. Option.map slices (Option.bind (to_position x y z) (tile_at m));
}

unfoldable pub creature_stackpos : Chunks → ℤ → ℤ → ℤ → ℕ
unfolding tile_at to_position
creature_stackpos m x y z =
    or_else
      (Option.map (λ (st : TileStack). st.pre_creature_len % 256)
        (Option.bind (to_position x y z) (tile_at m)))
      1
