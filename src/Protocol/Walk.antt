-- ===== src/Protocol/Walk.antt =====
-- The packets of walking (crates/protocol/src/walk.rs). A position `(u16, u16, u8)` is the record
-- `Coords`; a packet with map data is an option, as the encoders of the tile stream are.
pub mod Auto
pub mod Window
pub mod Update
pub mod Cover
use package.oxidia.Prelude.{
  ℕ, zero, suc, ◌+◌, ◌-◌, ◌<◌, Bool, true, false, not, ◌&&◌, ◌||◌, List, [], ◌∷◌, ◌++◌, Option,
  none, some, if◌then◌else◌, ltb, leb, ◌==◌, length, take,
}
use mathlib.Core.Option
use package.oxidia.Prelude.Int.{ℤ, pos, negsuc, ◌+ℤ◌, ◌-ℤ◌, pos_part, ltb_ℤ, eq_ℤ}
use package.oxidia.Protocol.Bytes.{Bytes}
use package.oxidia.Protocol.Message.{write_u8, write_u16, write_u32, write_bytes}
use package.oxidia.Protocol.MapDescription.{
  TileSource, PlacedCreature, Center, floor_description, flush_out, encode, encode_slice,
}

pub data AutoWalkStep : Type 0 where
  east north_east north north_west west south_west south south_east : AutoWalkStep

abbrev pub step_of_byte : ℕ → Option AutoWalkStep
step_of_byte b =
    if b == 1
    then some AutoWalkStep.east
    else (if b == 2
        then some AutoWalkStep.north_east
        else (if b == 3
            then some AutoWalkStep.north
            else (if b == 4
                then some AutoWalkStep.north_west
                else (if b == 5
                    then some AutoWalkStep.west
                    else (if b == 6
                        then some AutoWalkStep.south_west
                        else (if b == 7
                            then some AutoWalkStep.south
                            else (if b == 8 then some AutoWalkStep.south_east else none)))))))

abbrev pub keep_step : Option AutoWalkStep → List AutoWalkStep → List AutoWalkStep
keep_step none steps = steps
keep_step (some s) steps = s ∷ steps

-- `filter_map`
unfoldable pub filter_steps : Bytes → List AutoWalkStep
filter_steps [] = []
filter_steps (b ∷ bs) = keep_step (step_of_byte b) (filter_steps bs)

abbrev pub none_if_empty : List AutoWalkStep → Option (List AutoWalkStep)
none_if_empty [] = none
none_if_empty (s ∷ ss) = some (s ∷ ss)

unfoldable pub parse_auto_walk : Bytes → Option (List AutoWalkStep)
parse_auto_walk [] = none
parse_auto_walk (num_dirs ∷ dirs) =
    if num_dirs == 0 || ltb (suc (length dirs)) (1 + num_dirs)
    then none
    else none_if_empty (filter_steps (take num_dirs dirs))

abbrev pub auto_walk_delta : AutoWalkStep → ℤ × ℤ
auto_walk_delta AutoWalkStep.east = (pos 1, pos 0)
auto_walk_delta AutoWalkStep.north_east = (pos 1, negsuc 0)
auto_walk_delta AutoWalkStep.north = (pos 0, negsuc 0)
auto_walk_delta AutoWalkStep.north_west = (negsuc 0, negsuc 0)
auto_walk_delta AutoWalkStep.west = (negsuc 0, pos 0)
auto_walk_delta AutoWalkStep.south_west = (negsuc 0, pos 1)
auto_walk_delta AutoWalkStep.south = (pos 0, pos 1)
auto_walk_delta AutoWalkStep.south_east = (pos 1, pos 1)

pub record Coords : Type 0 where
  pub x : ℕ
  pub y : ℕ
  pub z : ℕ

-- `(0..=i32::from(u16::MAX)).contains(&v)`
abbrev pub in_u16 : ℤ → Bool
in_u16 (pos n) = leb n 65535
in_u16 (negsuc n) = false

unfoldable pub auto_walk_destination : Coords → List AutoWalkStep → Option Coords
auto_walk_destination p [] = some p
auto_walk_destination p (s ∷ ss) =
    let nx = pos p.x +ℤ (auto_walk_delta s).0 in
    let ny = pos p.y +ℤ (auto_walk_delta s).1 in
    let rest = auto_walk_destination (record { x = pos_part nx; y = pos_part ny; z = p.z }) ss in
    if not (in_u16 nx) || not (in_u16 ny) then none else rest

abbrev pub add_position : Coords → Bytes → Bytes
add_position p w = write_u8 p.z (write_u16 p.y (write_u16 p.x w))

abbrev pub creature_move : ℕ → Coords → Bytes
creature_move id new = add_position new (write_u32 id (write_u16 0xffff (write_u8 0x6d [])))

abbrev pub cancel_walk : ℕ → Bytes
cancel_walk direction = 0xb5 ∷ direction ∷ []

abbrev pub creature_turn : ℕ → ℕ → ℕ → Bytes
creature_turn id direction walkthrough = write_u8 walkthrough (
    write_u8 direction
      (write_u32 id (write_u16 0x63 (write_u32 id (write_u16 0xffff (write_u8 0x6b []))))))

abbrev pub remove_creature_by_id : ℕ → Bytes
remove_creature_by_id id = write_u32 id (write_u16 0xffff (write_u8 0x6c []))

-- `out.extend(..)`, where the packet that is added may not be made
abbrev pub extend : Option Bytes → Option Bytes → Option Bytes
extend none b = none
extend (some a) none = none
extend (some a) (some b) = some (a ++ b)

-- `(a - b).abs() > 1`
abbrev pub leaps : ℕ → ℕ → Bool
leaps a b = ltb (b + 1) a || ltb (a + 1) b

abbrev pub header : ℕ → Coords → Coords → Bytes
header id old new =
    if old.z == 7 && leb 8 new.z then remove_creature_by_id id else creature_move id new

module _ (src : TileSource) (creatures : List PlacedCreature) where
  abbrev pub slice : ℕ → ℤ → ℤ → ℤ → ℕ → ℕ → Option Bytes
  slice opcode x y z w h = encode_slice opcode x y z w h src creatures

  -- One call of `floor_description` with the window of the view around `old`.
  abbrev pub reveal : Coords → ℤ → ℤ → Bytes × ℤ → Bytes × ℤ
  reveal old z offset out =
      floor_description src creatures (pos old.x -ℤ pos 8) (pos old.y -ℤ pos 6) z offset 18 14 out

  -- `for i in (0..=5).rev()`, on the floors left
  unfoldable pub reveal_above : ℕ → Coords → Bytes × ℤ → Bytes × ℤ
  reveal_above zero old out = out
  reveal_above (suc i) old out = reveal_above i old (reveal old (pos i) (pos 8 -ℤ pos i) out)

  -- `for i in 0..3`, on the floors left
  unfoldable pub reveal_below : ℕ → ℕ → Coords → ℤ → Bytes × ℤ → Bytes × ℤ
  reveal_below zero i old nz out = out
  reveal_below (suc left) i old nz out =
      reveal_below left (i + 1) old nz (reveal old (nz +ℤ pos i) (negsuc i) out)

  unfoldable pub move_up_block : Coords → Coords → Option Bytes
  move_up_block old new =
      let w = write_u8 0xbe [] in
      let floors =
        if new.z == 7
        then flush_out (reveal_above 6 old (w, negsuc 0))
        else (if ltb 7 new.z
            then flush_out (reveal old (pos old.z -ℤ pos 3) (pos 3) (w, negsuc 0))
            else w) in
      extend
        (extend (some floors)
          (slice 0x68 (pos old.x -ℤ pos 8) (pos old.y -ℤ pos 5) (pos new.z) 1 14))
        (slice 0x65 (pos old.x -ℤ pos 8) (pos old.y -ℤ pos 6) (pos new.z) 18 1)

  unfoldable pub move_down_block : Coords → Coords → Option Bytes
  move_down_block old new =
      let w = write_u8 0xbf [] in
      let floors =
        if new.z == 8
        then flush_out (reveal_below 3 0 old (pos new.z) (w, negsuc 0))
        else (if ltb old.z new.z && ltb 8 new.z && ltb new.z 14
            then flush_out (reveal old (pos new.z +ℤ pos 2) (negsuc 2) (w, negsuc 0))
            else w) in
      extend
        (extend (some floors)
          (slice 0x66 (pos old.x +ℤ pos 9) (pos old.y -ℤ pos 7) (pos new.z) 1 14))
        (slice 0x67 (pos old.x -ℤ pos 8) (pos old.y +ℤ pos 7) (pos new.z) 18 1)

  abbrev pub north_south : Coords → Coords → Option Bytes
  north_south old new =
      if ltb new.y old.y
      then slice 0x65 (pos old.x -ℤ pos 8) (pos new.y -ℤ pos 6) (pos new.z) 18 1
      else (if ltb old.y new.y
          then slice 0x67 (pos old.x -ℤ pos 8) (pos new.y +ℤ pos 7) (pos new.z) 18 1
          else some [])

  abbrev pub east_west : Coords → Coords → Option Bytes
  east_west old new =
      if ltb old.x new.x
      then slice 0x66 (pos new.x +ℤ pos 9) (pos new.y -ℤ pos 6) (pos new.z) 1 14
      else (if ltb new.x old.x
          then slice 0x68 (pos new.x -ℤ pos 8) (pos new.y -ℤ pos 6) (pos new.z) 1 14
          else some [])

  abbrev pub floor_block : Coords → Coords → Option Bytes
  floor_block old new =
      if ltb old.z new.z
      then move_down_block old new
      else (if ltb new.z old.z then move_up_block old new else some [])

  unfoldable pub walk_update : ℕ → Coords → Coords → Option Bytes
  walk_update id old new =
      if not (new.z == old.z) && (leaps new.x old.x || leaps new.y old.y)
      then extend (some (remove_creature_by_id id))
          (encode (record { x = new.x; y = new.y; z = new.z }) src creatures)
      else extend
          (extend (extend (some (header id old new)) (floor_block old new)) (north_south old new))
          (east_west old new)
