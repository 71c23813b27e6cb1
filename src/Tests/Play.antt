-- ===== src/Tests/Play.antt =====
-- The state of the game at concrete inputs: two players, two tiles, a bag with a bag in it.
use oxidia.Prelude.{
  ℕ, zero, suc, ◌≤◌, ◌<◌, ◌≡◌, ◌↔◌, refl, sym, subst, inl, inr, Bool, true, false, List, [], ◌∷◌,
  Option, none, some, arith, ◌==◌, ltb, if◌then◌else◌, replicate, Bool-cases, some_injective, ◌+◌,
}
use mathlib.Core.Option
use mathlib.Core.List.{Memᴰ}
use oxidia.Prelude.Int.{pos, negsuc, ◌+ℤ◌}
use oxidia.Prelude.Assoc.{nat_eq, lookup}
use oxidia.Protocol.Bytes.{Bytes}
use oxidia.Protocol.MapDescription.{WireItem}
use oxidia.Protocol.Walk.Update.{view}
use oxidia.Formats.FloorChange.{down, contains, is_empty}
use oxidia.World.Position.{Position, Direction}
use oxidia.World.Map.{ChunkId, chunk_id, same_id, get}
use oxidia.World.Map.View.{spot_of}
use oxidia.World.Map.Tiles.{
  Chunk, Chunks, Relative, TileStack, find, floor_change_at, same_relative, tile_at, chunk_relative,
  to_position,
}
use oxidia.World.Map.Sight.{
  Floats, abs_diff, can_throw_object_to, can_throw_object_to_lem, can_throw_object_to_near,
}
use oxidia.World.Map.Stairs.{Near, resolve_floor_change, resolve_floor_change_lem}
use oxidia.World.Game.{
  EquipSlot, Game, PlayerState, ItemMeta, OpenContainer, ContainerItem, ContainerSource,
}
use oxidia.World.Game.View.{can_see, spectators, visible_from}
use oxidia.World.Game.Sees.{coords, can_see-view}
use oxidia.World.Game.Spectators.{spectators-visible_from}
use oxidia.World.Game.Session.{push, push_within}
use oxidia.World.Game.Frame.{Kept, push-Kept}
use oxidia.World.Game.Reaping.{push-ends}
use oxidia.World.Game.Ground.Merged.{merged_stack}
use oxidia.World.Game.Ground.Units.{StackIsValid}
use oxidia.World.Game.Windows.{Windows, has_parent}
use oxidia.World.Game.Windows.Tree.{Ranked, WindowsAreRanked}
use oxidia.World.Game.Items.{do_move_thing}
use oxidia.World.Game.Items.Moved.{stacks, GroundIsValid, Carried}
use oxidia.World.Game.Items.Ends.{do_move_thing_lem}

abbrev pub here : Position
here = record { x = 5; y = 5; z = 7 }

abbrev pub there : Position
there = record { x = 6; y = 5; z = 7 }

abbrev wire_of : ℕ → Option ℕ → WireItem
wire_of id n = record { client_id = id; subtype = n; animated = false }

-- Sixty coins on grass.
abbrev coins : TileStack
coins = record {
  items = wire_of 102 none ∷ wire_of 3031 (some 60) ∷ [];
  server_ids = 4526 ∷ 2148 ∷ [];
  counts = none ∷ some 60 ∷ [];
  pre_creature_len = 1;
}

-- Seventy coins on grass.
abbrev more_coins : TileStack
more_coins = record {
  items = wire_of 102 none ∷ wire_of 3031 (some 70) ∷ [];
  server_ids = 4526 ∷ 2148 ∷ [];
  counts = none ∷ some 70 ∷ [];
  pre_creature_len = 1;
}

-- The second tile is a hole.
abbrev field : Chunk
field = record {
  tiles = ((5, 5), coins) ∷ ((6, 5), more_coins) ∷ [];
  blocked = [];
  block_projectile = [];
  floor_change = ((6, 5), down) ∷ [];
  tile_height = [];
  protection_zone = [];
}

abbrev pub land : Chunks
land = record { chunks = (chunk_id here, field) ∷ []; pinned = []; missing = [] }

abbrev meta_of : Bool → Bool → Option EquipSlot → ItemMeta
meta_of stackable is_container slot = record {
  name = [];
  stackable = stackable;
  client_id = 3031;
  animated = false;
  moveable = true;
  equip_slot = slot;
  is_container = is_container;
  container_capacity = 8;
  light_level = 0;
  light_color = 0;
}

-- Coins, bags and swords.
abbrev known_items : ℕ → Option ItemMeta
known_items sid =
    if sid == 2148
    then some (meta_of true false none)
    else if sid == 1987
    then some (meta_of false true (some EquipSlot.backpack))
    else if sid == 2376
    then some (meta_of false false (some EquipSlot.hand))
    else none

abbrev pub sword : ContainerItem
sword = record { server_id = 2376; client_id = 3264; count = none; animated = false }

abbrev pub bag_item : ContainerItem
bag_item = record { server_id = 1987; client_id = 2853; count = none; animated = false }

abbrev pub bag : ContainerSource → List ContainerItem → OpenContainer
bag source items = record {
  server_id = 1987;
  client_id = 2853;
  capacity = 8;
  name = [];
  items = items;
  source = source;
  is_open = true;
}

-- A bag in slot 3 with a sword and a second bag, which is open too.
abbrev pub bags : Windows
bags =
    some (bag (ContainerSource.slot 3) (sword ∷ bag_item ∷ []))
    ∷ some (bag (ContainerSource.nested 0 1) [])
    ∷ []

abbrev pub player : Position → Windows → PlayerState
player at windows = record {
  name = 65 ∷ [];
  position = at;
  direction = Direction.south;
  outfit = record {
    look_type = 128;
    head = 0;
    body = 0;
    legs = 0;
    feet = 0;
    addons = 0;
    mount = 0;
  };
  known = [];
  health = 150;
  max_health = 150;
  sex = 0;
  gamemaster = false;
  ghost = false;
  noclip = false;
  inventory = replicate 10 none;
  open_containers = windows;
  light_level = 0;
  light_color = 0;
}

abbrev pub game : Windows → Game
game windows = record {
  chunks = land;
  item_meta = known_items;
  dynamic = [];
  players = (1, player here windows) ∷ (2, player there []) ∷ [];
  monsters = [];
  npcs = [];
  corpse_tiles = [];
  sent = [];
  saved = none;
}

abbrev pub takes_all : List (ℕ × Bytes) → ℕ → Bytes → Bool
takes_all sent to b = true

-- Whole numbers in place of the floats; no line of these tests is stepped along.
abbrev pub whole : Floats
whole = record {
  F = ℕ;
  of_u16 = λ n. n;
  plus = λ a b. a + b;
  minus = λ a b. abs_diff a b;
  over = λ a b. a;
  is_zero = λ a. a == 0;
  one = 1;
  tenth = 0;
  floor_u16 = λ a. a;
}

abbrev pub rank : ℕ → ℕ
rank c = if c == 0 then 1 else 0

pub rank_low : (c : ℕ) → rank c < 2
rank_low c = ground arith

bags-Ranked : Ranked takes_all rank 1 bags
unfolding Option.bind
bags-Ranked zero parent oc at below =
    let no : false ≡ true =
      subst (λ (x : OpenContainer). has_parent parent x.source ≡ true) (sym (some_injective at))
        below in
    absurd (ground arith)
bags-Ranked (suc zero) parent oc at below =
    let under : (0 == parent) ≡ true =
      subst (λ (x : OpenContainer). has_parent parent x.source ≡ true) (sym (some_injective at))
        below in
    ground arith
bags-Ranked (suc (suc c)) parent oc at below = absurd (ground arith)

pub game-ranked : WindowsAreRanked takes_all rank 1 (game bags)
unfolding lookup
game-ranked ws e = subst (Ranked takes_all rank 1) (some_injective e) bags-Ranked

coins-StackIsValid : StackIsValid (stacks (game bags)) coins
coins-StackIsValid = record {
  items_parallel = refl;
  counts_parallel = refl;
  within = omega arith;
  piles = (omega arith, (omega arith, tt));
}

more_coins-StackIsValid : StackIsValid (stacks (game bags)) more_coins
more_coins-StackIsValid = record {
  items_parallel = refl;
  counts_parallel = refl;
  within = omega arith;
  piles = (omega arith, (omega arith, tt));
}

find-valid :
    (r : Relative) (st : TileStack)
    → find r field.tiles ≡ some st
    → StackIsValid (stacks (game bags)) st
unfolding find
find-valid r st e = elim (Bool-cases (same_relative (5, 5) r)) [
  | inl first ↦
      subst (StackIsValid (stacks (game bags))) (some_injective (rw first at e)) coins-StackIsValid
  | inr other ↦ elim (Bool-cases (same_relative (6, 5) r)) [
    | inl second ↦
        subst (StackIsValid (stacks (game bags))) (some_injective (rw (other, second) at e))
          more_coins-StackIsValid
    | inr none_left ↦ let no = rw (other, none_left) at e in absurd (ground arith)
  ]
]

only_field : (id : ChunkId) (c : Chunk) → get id land.chunks ≡ some c → field ≡ c
unfolding get
only_field id c e = elim (Bool-cases (same_id (chunk_id here) id)) [
  | inl hit ↦ some_injective (rw hit at e)
  | inr miss ↦ let no = rw miss at e in absurd (ground arith)
]

tile_at-found :
    (m : Chunks) (at : Position) {st : TileStack}
    → tile_at m at ≡ some st
    → (c : Chunk) × (get (chunk_id at) m.chunks ≡ some c)
      × (find (chunk_relative at) c.tiles ≡ some st)
unfolding tile_at
tile_at-found m at {st} e = in_one (get (chunk_id at) m.chunks) e
  where
    in_one :
        (o : Option Chunk)
        → elim o [ none ↦ none | some c ↦ find (chunk_relative at) c.tiles ] ≡ some st
        → (c : Chunk) × (o ≡ some c) × (find (chunk_relative at) c.tiles ≡ some st)
    in_one none h = absurd (ground arith)
    in_one (some c) h = (c, refl, h)

ground-valid : GroundIsValid (stacks (game bags)) (game bags)
unfolding merged_stack lookup
ground-valid at st e =
    let (c, found, seen) = tile_at-found land at e in
    find-valid (chunk_relative at) st (
      subst (λ (x : Chunk). find (chunk_relative at) x.tiles ≡ some st)
        (sym (only_field (chunk_id at) c found)) seen)

do_move_thing_lem_example :
    (g' : Game) × (do_move_thing takes_all whole 2 (game bags) 1 here 2 there 60 ≡ some g')
    × Carried (game bags) here there g'
do_move_thing_lem_example =
    do_move_thing_lem takes_all whole rank 1 2 rank_low (game bags) here there 2 60 ground-valid
      game-ranked refl

can_see-view_example : (can_see here there ≡ true) ↔ Memᴰ (spot_of there) (view (coords here))
can_see-view_example = can_see-view here there (omega arith) (omega arith)

spectators-visible_from_example :
    Memᴰ 1 (spectators (game bags) there 2) ↔ Memᴰ 2 (visible_from (game bags) here 1)
unfolding lookup
spectators-visible_from_example =
    spectators-visible_from (game bags) 1 2 (player here bags) (player there []) (refl, (refl, tt))
      refl refl

push-Kept_example : Kept (game bags) (push takes_all (game bags) 1 (30 ∷ []))
push-Kept_example = push-Kept takes_all (game bags) 1 (30 ∷ [])

push-ends_example :
    push_within takes_all 7 (game bags) 1 (30 ∷ []) ≡ push takes_all (game bags) 1 (30 ∷ [])
push-ends_example = push-ends takes_all 7 (game bags) 1 (30 ∷ []) (omega arith)

near_throw : can_throw_object_to whole land here there ≡ true
near_throw = can_throw_object_to_near whole land here there refl (omega arith) (omega arith)

can_throw_object_to_lem_example :
    (abs_diff 5 6 ≤ 8) × (abs_diff 5 5 ≤ 6) × (7 ≤ 7 + 1) × (ltb 7 7 ≡ ltb 7 7)
can_throw_object_to_lem_example = can_throw_object_to_lem whole land here there near_throw

-- One falls through the hole to the floor below.
falls : resolve_floor_change land there ≡ some (record { x = 6; y = 5; z = 8 })
unfolding resolve_floor_change floor_change_at to_position find get contains is_empty ◌+ℤ◌
    Option.bind chunk_id chunk_relative
falls = refl

resolve_floor_change_lem_example :
    Near (pos 6) (pos 6)
    × Near (pos 5) (pos 5)
    × (pos 8
        ≡ pos 7
          +ℤ (if contains (floor_change_at land (pos 6) (pos 5) (pos 7)) down
              then pos 1
              else negsuc 0))
resolve_floor_change_lem_example = resolve_floor_change_lem land there falls
