-- ===== src/Tests/Maps.antt =====
-- The map description, the packets of walking and the chunks in memory.
use oxidia.Prelude.{
  ◌↔◌, ℕ, ◌*◌, ◌≤◌, ◌≡◌, refl, ◌⊎◌, inl, inr, List, [], ◌∷◌, ◌++◌, Option, none, some, false, arith,
  length, map, take, replicate, All, if◌then◌else◌, ◌||◌, ◌==◌, Bool-cases,
}
use mathlib.Core.List.{Memᴰ}
use oxidia.Prelude.Int.{pos, ◌+ℤ◌, ◌-ℤ◌, eq_ℤ}
use oxidia.Protocol.Bytes.{Bytes, u16_bytes}
use oxidia.Protocol.MapDescription.{
  TileSlices, TileSource, Center, add_item, write_tile, encode, encode_slice,
}
use oxidia.Protocol.MapDescription.Tiles.{
  tile_chunks, item_bytes, creature_chunks, concat, all_chunks, write_tile-take,
}
use oxidia.Protocol.MapDescription.Stream.{Spot, seen, row_spots, column_spots}
use oxidia.Protocol.MapDescription.Decoder.{decode, TileIsReadable, Readable}
use oxidia.Protocol.MapDescription.Floors.{floor_spots, visible_floors, down_floors}
use oxidia.Protocol.MapDescription.Client.{encode-decode, encode_slice-decode}
use oxidia.Protocol.Walk.{
  AutoWalkStep, Coords, creature_move, parse_auto_walk, auto_walk_destination, walk_update,
}
use oxidia.Protocol.Walk.Auto.{
  parse_auto_walk_lem, auto_walk_destination_lem, auto_walk_destination_iff, total_delta,
  StaysOnMap,
}
use oxidia.Protocol.Walk.Update.{view, Strip, strips_bytes, strips_spots}
use oxidia.Protocol.Walk.Cover.{walk_update_lem}
use oxidia.World.Position.{Position}
use oxidia.World.Map.{
  ChunkId, chunk_id, chunks_around, contains, ChunkManager, new, get, ensure_loaded, sweep,
}
use oxidia.World.Map.View.{spot_of, chunks_around-view}
use oxidia.World.Map.Loaded.{Faithful, new-Faithful, ensure_loaded_lem, sweep_lem}

-- Items of three bytes, as a plain item is on the wire: the client's id and a mark byte.
abbrev get_thing : Bytes → Option (Bytes × Bytes)
get_thing (a ∷ b ∷ c ∷ rest) = some (a ∷ b ∷ c ∷ [], rest)
get_thing _ = none

abbrev lawn : TileSlices
lawn = record {
  pre_creature = record { client_id = 102; subtype = none; animated = false } ∷ [];
  post_creature = [];
}

-- Grass all over floor 7 and no tile on any other floor.
abbrev meadow : TileSource
meadow = record { tile = λ x y z. if eq_ℤ z (pos 7) then some lawn else none }

abbrev town : Center
town = record { x = 100; y = 100; z = 7 }

grass-Readable : Readable get_thing (102 ∷ 0 ∷ 0xff ∷ [])
grass-Readable = record {
  low = 102;
  high = 0;
  more = 0xff ∷ [];
  shape = refl;
  below = omega arith;
  splits = λ rest. refl;
}

meadow-readable : (p : Spot) → TileIsReadable get_thing (seen meadow [] p)
unfolding seen tile_chunks item_bytes creature_chunks add_item
meadow-readable p = elim (Bool-cases (eq_ℤ p.wz (pos 7))) [
  | inl ground_floor ↦ rw ground_floor (grass-Readable, tt)
  | inr other ↦ rw other tt
]

All-readable : (ps : List Spot) → All (TileIsReadable get_thing) (map (seen meadow []) ps)
All-readable [] = tt
All-readable (p ∷ ps) = (meadow-readable p, All-readable ps)

abbrev town_spots : List Spot
town_spots = floor_spots (pos 100 -ℤ pos 8) (pos 100 -ℤ pos 6) (pos 7) 18 14 (visible_floors 7)

encode-decode_example :
    (body : Bytes) × (encode town meadow []
      ≡ some (0x64 ∷ (u16_bytes 100 ++ (u16_bytes 100 ++ (7 ∷ body)))))
    × (decode get_thing (length (visible_floors 7) * (18 * 14)) 0 body
        ≡ some (map (seen meadow []) town_spots))
encode-decode_example =
    encode-decode get_thing meadow [] town (omega arith) (All-readable town_spots)

abbrev slice_spots : List Spot
slice_spots = floor_spots (pos 92) (pos 94) (pos 7) 18 1 (visible_floors 7)

encode_slice-decode_example :
    (body : Bytes) × (encode_slice 0x65 (pos 92) (pos 94) (pos 7) 18 1 meadow []
      ≡ some (0x65 ∷ body))
    × (decode get_thing (length (visible_floors 7) * (18 * 1)) 0 body
        ≡ some (map (seen meadow []) slice_spots))
encode_slice-decode_example =
    encode_slice-decode get_thing meadow [] 0x65 (pos 92) (pos 94) 7 18 1 (omega arith)
      (All-readable slice_spots)

-- Nine items below and three above: two of those above are not shown.
abbrev heap : TileSlices
heap = record {
  pre_creature = replicate 9 (record { client_id = 102; subtype = none; animated = false });
  post_creature = replicate 3 (record { client_id = 103; subtype = some 5; animated = false });
}

write_tile-take_example :
    write_tile heap [] (pos 1) (pos 2) (pos 7) []
    ≡ 0 ∷ 0 ∷ concat (take 10 (all_chunks heap [] (pos 1) (pos 2) (pos 7)))
unfolding creature_chunks
write_tile-take_example = write_tile-take heap [] (pos 1) (pos 2) (pos 7) [] (omega arith)

abbrev here : Coords
here = record { x = 100; y = 100; z = 7 }

abbrev there : Coords
there = record { x = 101; y = 99; z = 7 }

walk_update_lem_example :
    (ss : List Strip) × (walk_update meadow [] 5 here there
      ≡ some (creature_move 5 there ++ strips_bytes meadow [] ss))
    × ((p : Spot) → Memᴰ p (view there) → Memᴰ p (view here) ⊎ Memᴰ p (strips_spots ss))
walk_update_lem_example =
    walk_update_lem meadow [] 5 here there refl (omega arith) (omega arith) (omega arith)

abbrev path : List AutoWalkStep
path = AutoWalkStep.north_east ∷ AutoWalkStep.south ∷ []

parse_auto_walk_lem_example : parse_auto_walk (2 ∷ 2 ∷ 7 ∷ 9 ∷ []) ≡ some path
parse_auto_walk_lem_example =
    parse_auto_walk_lem AutoWalkStep.north_east (AutoWalkStep.south ∷ []) (9 ∷ [])

auto_walk_destination-path :
    auto_walk_destination here path ≡ some (record { x = 101; y = 100; z = 7 })
unfolding auto_walk_destination ◌+ℤ◌
auto_walk_destination-path = refl

auto_walk_destination_lem_example :
    (pos 101 ≡ pos 100 +ℤ (total_delta path).0)
    × (pos 100 ≡ pos 100 +ℤ (total_delta path).1)
    × (there.z ≡ here.z)
    × (101 ≤ 65535)
    × (100 ≤ 65535)
auto_walk_destination_lem_example =
    auto_walk_destination_lem here path (record { x = 101; y = 100; z = 7 }) (omega arith)
      (omega arith) auto_walk_destination-path

auto_walk_destination_iff_example :
    StaysOnMap here path ↔ ((q : Coords) × (auto_walk_destination here path ≡ some q))
auto_walk_destination_iff_example = auto_walk_destination_iff here path (omega arith) (omega arith)

abbrev corner : Position
corner = record { x = 92; y = 94; z = 7 }

corner_seen : Memᴰ (spot_of corner) (view here)
unfolding view floor_spots visible_floors down_floors row_spots column_spots ◌+ℤ◌ ◌-ℤ◌
corner_seen = Memᴰ.head refl

chunks_around-view_example :
    Memᴰ (chunk_id corner) (chunks_around (record { x = 100; y = 100; z = 7 }))
chunks_around-view_example = chunks_around-view here corner (omega arith) corner_seen

-- A disk with the chunks of floor 7; a chunk is its floor.
abbrev load : ChunkId → Option ℕ
load id = if id.z == 7 then some id.z else none

abbrev wanted : List ChunkId
wanted = chunk_id corner ∷ record { cx = pos 0; cy = pos 0; z = 8 } ∷ []

ensure_loaded_lem_example :
    Faithful load (ensure_loaded load wanted (new ℕ))
    × ((a : ChunkId) → Memᴰ a wanted → get a (ensure_loaded load wanted (new ℕ)).chunks ≡ load a)
ensure_loaded_lem_example = ensure_loaded_lem load wanted (new ℕ) (new-Faithful load)

abbrev manager : ChunkManager ℕ
manager = record {
  chunks = (chunk_id corner, 7) ∷ [];
  pinned = [];
  missing = record { cx = pos 0; cy = pos 0; z = 8 } ∷ [];
}

manager-Faithful : Faithful load manager
unfolding get contains chunk_id
manager-Faithful = record {
  as_on_disk = λ id c e. ground arith;
  not_on_disk = λ id e. ground arith;
}

sweep_lem_example :
    Faithful load (sweep wanted manager)
    × ((a : ChunkId)
        → get a (sweep wanted manager).chunks
          ≡ (if contains a wanted || contains a manager.pinned then get a manager.chunks else none))
sweep_lem_example = sweep_lem load wanted manager manager-Faithful
