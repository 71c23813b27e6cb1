-- ===== src/World/Position.antt =====
-- Positions and directions (crates/world/src/lib.rs). A coordinate is a u16, a floor a u8; the
-- arithmetic goes through i32, which holds every sum here.
pub mod Laws
use package.oxidia.Prelude.{ℕ, Bool, ◌&&◌, Option, none, some, if◌then◌else◌, ltb, ◌<◌}
use package.oxidia.Prelude.Int.{ℤ, pos, negsuc, ◌+ℤ◌, pos_part}

pub record Position : Type 0 where
  pub x : ℕ
  pub y : ℕ
  pub z : ℕ

-- `(0..=limit - 1).contains(&v)`
abbrev pub within : ℕ → ℤ → Bool
within limit (pos n) = ltb n limit
within limit (negsuc n) = Bool.false

unfoldable pub offset : Position → ℤ → ℤ → Option Position
offset p dx dy =
    let x = pos p.x +ℤ dx in
    let y = pos p.y +ℤ dy in
    if within 65536 x && within 65536 y
    then some (record { x = pos_part x; y = pos_part y; z = p.z })
    else none

unfoldable pub offset_z : Position → ℤ → Option Position
offset_z p dz =
    let z = pos p.z +ℤ dz in
    if within 256 z then some (record { x = p.x; y = p.y; z = pos_part z }) else none

pub data Direction : Type 0 where
  north east south west north_east south_east south_west north_west : Direction

abbrev pub to_byte : Direction → ℕ
to_byte Direction.north = 0
to_byte Direction.east = 1
to_byte Direction.south = 2
to_byte Direction.west = 3
to_byte Direction.south_west = 4
to_byte Direction.south_east = 5
to_byte Direction.north_west = 6
to_byte Direction.north_east = 7

abbrev pub delta : Direction → ℤ × ℤ
delta Direction.north = (pos 0, negsuc 0)
delta Direction.east = (pos 1, pos 0)
delta Direction.south = (pos 0, pos 1)
delta Direction.west = (negsuc 0, pos 0)
delta Direction.north_east = (pos 1, negsuc 0)
delta Direction.south_east = (pos 1, pos 1)
delta Direction.south_west = (negsuc 0, pos 1)
delta Direction.north_west = (negsuc 0, negsuc 0)
