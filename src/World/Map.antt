-- ===== src/World/Map.antt =====
-- The chunked map (crates/world/src/map.rs): which chunks a place needs, and the chunks in memory.
-- A set is a list and a map a list of pairs, the newest first; what a chunk holds is the parameter
-- `Chunk`, and reading one from disk, which may fail, is the parameter `load`.
pub mod Tiles
pub mod Sight
pub mod Stairs
pub mod View
pub mod Loaded
use package.oxidia.Prelude.{
  ℕ, zero, suc, ◌+◌, ◌-◌, ◌/◌, min, max, Bool, true, false, not, ◌&&◌, ◌||◌, List, [], ◌∷◌, ◌++◌,
  Option, none, some, if◌then◌else◌, ltb, leb, ◌==◌,
}
use package.oxidia.Prelude.Int.{ℤ, pos, negsuc, ◌+ℤ◌, ◌-ℤ◌, eq_ℤ}
use package.oxidia.World.Position.{Position}

pub record ChunkId : Type 0 where
  pub cx : ℤ
  pub cy : ℤ
  pub z : ℕ

abbrev pub chunk_dim : ℕ
chunk_dim = 256

unfoldable pub chunk_id : Position → ChunkId
chunk_id p = record { cx = pos (p.x / chunk_dim); cy = pos (p.y / chunk_dim); z = p.z }

-- The least and the greatest floor; the sums saturate on a u8.
unfoldable pub viewport_floor_span : ℕ → ℕ × ℕ
viewport_floor_span z =
    if leb z 7 then (0, min (max 7 (min (z + 1) 255)) 8) else (z - 3, min (min (z + 3) 255) 15)

-- `for dcx in -1..=1`
unfoldable pub chunk_row : ℤ → ℤ → ℕ → List ChunkId
chunk_row cx cy z =
    record { cx = cx +ℤ negsuc 0; cy = cy; z = z }
    ∷ record { cx = cx +ℤ pos 0; cy = cy; z = z }
    ∷ record { cx = cx +ℤ pos 1; cy = cy; z = z }
    ∷ []

-- `for dcy in -1..=1`
unfoldable pub chunk_grid : ℤ → ℤ → ℕ → List ChunkId
chunk_grid cx cy z =
    chunk_row cx (cy +ℤ negsuc 0) z
    ++ (chunk_row cx (cy +ℤ pos 0) z ++ chunk_row cx (cy +ℤ pos 1) z)

-- `for z in z0..=z1`, on the floors left
unfoldable pub chunk_floors : ℕ → ℤ → ℤ → ℕ → List ChunkId
chunk_floors zero cx cy z = []
chunk_floors (suc left) cx cy z = chunk_grid cx cy z ++ chunk_floors left cx cy (z + 1)

unfoldable pub chunks_around : Position → List ChunkId
chunks_around p =
    let (z0, z1) = viewport_floor_span p.z in
    chunk_floors (z1 + 1 - z0) (pos (p.x / chunk_dim)) (pos (p.y / chunk_dim)) z0

unfoldable pub chunk_neighbors : Position → List ChunkId
chunk_neighbors p = let id = chunk_id p in chunk_grid id.cx id.cy id.z

abbrev pub same_id : ChunkId → ChunkId → Bool
same_id a b = eq_ℤ a.cx b.cx && eq_ℤ a.cy b.cy && a.z == b.z

unfoldable pub contains : ChunkId → List ChunkId → Bool
contains id [] = false
contains id (a ∷ rest) = same_id a id || contains id rest

module _ (Chunk : Type 0) where
  pub record ChunkManager : Type 0 where
    pub chunks : List (ChunkId × Chunk)
    pub pinned : List ChunkId
    pub missing : List ChunkId

  unfoldable pub new : ChunkManager
  new = record { chunks = []; pinned = []; missing = [] }

module _ {Chunk : Type 0} where
  unfoldable pub get : ChunkId → List (ChunkId × Chunk) → Option Chunk
  get id [] = none
  get id ((a, c) ∷ cs) = if same_id a id then some c else get id cs

  abbrev pub is_loaded : Option Chunk → Bool
  is_loaded none = false
  is_loaded (some c) = true

  abbrev pub insert_read : ChunkId → Option Chunk → ChunkManager Chunk → ChunkManager Chunk
  insert_read id none m = record m { missing = id ∷ m.missing }
  insert_read id (some c) m = record m { chunks = (id, c) ∷ m.chunks }

  unfoldable pub ensure_loaded :
      (ChunkId → Option Chunk) → List ChunkId → ChunkManager Chunk → ChunkManager Chunk
  ensure_loaded load [] m = m
  ensure_loaded load (id ∷ ids) m = ensure_loaded load ids (
      if is_loaded (get id m.chunks) || contains id m.missing
      then m
      else insert_read id (load id) m)

  -- `retain`
  unfoldable pub retain : (ChunkId → Bool) → List (ChunkId × Chunk) → List (ChunkId × Chunk)
  retain keep [] = []
  retain keep ((id, c) ∷ cs) = let rest = retain keep cs in if keep id then (id, c) ∷ rest else rest

  unfoldable pub sweep : List ChunkId → ChunkManager Chunk → ChunkManager Chunk
  sweep required m = record m {
    chunks = retain (λ id. contains id required || contains id m.pinned) m.chunks;
  }

  unfoldable pub pin : List ChunkId → ChunkManager Chunk → ChunkManager Chunk
  pin [] m = m
  pin (id ∷ ids) m = pin ids (record m { pinned = id ∷ m.pinned })
