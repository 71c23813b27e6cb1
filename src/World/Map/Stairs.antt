-- ===== src/World/Map/Stairs.antt =====
-- Where a tile with floor-change flags leads (crates/world/src/map.rs).
use package.oxidia.Prelude.{
  ◌+◌, ◌≤◌, ◌≡◌, Bool, true, false, Option, none, some, if◌then◌else◌, arith, Bool-cases, inl, inr,
  subst, sym,
}
use package.oxidia.Prelude.Int.{ℤ, pos, negsuc, ◌+ℤ◌, ◌≤ℤ◌, int_laws, pos_part, neg_part}
use package.oxidia.Formats.FloorChange.{
  FloorChange, contains, is_empty, down, north, south, east, west, south_alt, east_alt,
}
use package.oxidia.World.Position.{Position}
use package.oxidia.World.Map.Tiles.{Chunks, floor_change_at, to_position}

-- `if test { v += d }`
abbrev add_if : Bool → ℤ → ℤ → ℤ
add_if test d v = if test then v +ℤ d else v

-- The tile below shifts the landing against its own flags.
landing_below : FloorChange → ℤ × ℤ → ℤ × ℤ
landing_below f (dx, dy) = (
  add_if (contains f west) (pos 1)
      (add_if (contains f east_alt) (negsuc 1) (add_if (contains f east) (negsuc 0) dx)),
  add_if (contains f south_alt) (negsuc 1)
      (add_if (contains f south) (negsuc 0) (add_if (contains f north) (pos 1) dy)),
)

going_down : Chunks → ℤ → ℤ → ℤ → ℤ × ℤ
unfolding landing_below
going_down m dx dy dz =
    if contains (floor_change_at m dx (dy +ℤ negsuc 0) dz) south_alt
    then (dx, dy +ℤ negsuc 1)
    else if contains (floor_change_at m (dx +ℤ negsuc 0) dy dz) east_alt
    then (dx +ℤ negsuc 1, dy)
    else landing_below (floor_change_at m dx dy dz) (dx, dy)

going_up : FloorChange → ℤ × ℤ → ℤ × ℤ
going_up f (dx, dy) = (
  add_if (contains f east_alt) (pos 2)
      (add_if (contains f west) (negsuc 0) (add_if (contains f east) (pos 1) dx)),
  add_if (contains f south_alt) (pos 2)
      (add_if (contains f south) (pos 1) (add_if (contains f north) (negsuc 0) dy)),
)

abbrev at_floor : ℤ → ℤ × ℤ → Option Position
at_floor z (x, y) = to_position x y z

unfoldable pub resolve_floor_change : Chunks → Position → Option Position
unfolding going_down going_up
resolve_floor_change m p =
    let f = floor_change_at m (pos p.x) (pos p.y) (pos p.z) in
    if is_empty f
    then none
    else if contains f down
    then (let dz = pos p.z +ℤ pos 1 in at_floor dz (going_down m (pos p.x) (pos p.y) dz))
    else at_floor (pos p.z +ℤ negsuc 0) (going_up f (pos p.x, pos p.y))

-- Two integers at most three apart.
abbrev pub Near : ℤ → ℤ → Type 0
Near a b = (a ≤ℤ b +ℤ pos 3) × (b ≤ℤ a +ℤ pos 3)

add_if_bounds :
    (test : Bool) (d v : ℤ)
    → (add_if test d v ≤ℤ v +ℤ pos (pos_part d)) × (v ≤ℤ add_if test d v +ℤ pos (neg_part d))
add_if_bounds true d v = (omega int_laws, omega int_laws)
add_if_bounds false d v = (omega int_laws, omega int_laws)

shift_Near :
    (b c d : Bool) (i j k v : ℤ)
    → pos_part i + pos_part j + pos_part k ≤ 3
    → neg_part i + neg_part j + neg_part k ≤ 3
    → Near (add_if d k (add_if c j (add_if b i v))) v
shift_Near b c d i j k v up low =
    let first = add_if_bounds b i v in
    let second = add_if_bounds c j (add_if b i v) in
    let third = add_if_bounds d k (add_if c j (add_if b i v)) in (omega int_laws, omega int_laws)

pub to_position_lem :
    (x y z : ℤ) {p : Position}
    → to_position x y z ≡ some p
    → (pos p.x ≡ x) × (pos p.y ≡ y) × (pos p.z ≡ z)
unfolding to_position
to_position_lem x y z h = ground arith

abbrev NearBoth : ℤ × ℤ → ℤ × ℤ → Type 0
NearBoth (x, y) (v, w) = Near x v × Near y w

going_up_Near : (f : FloorChange) (x y : ℤ) → NearBoth (going_up f (x, y)) (x, y)
unfolding going_up
going_up_Near f x y = (
  shift_Near (contains f east) (contains f west) (contains f east_alt) (pos 1) (negsuc 0) (pos 2) x
      (omega arith) (omega arith),
  shift_Near (contains f north) (contains f south) (contains f south_alt) (negsuc 0) (pos 1) (pos 2)
      y (omega arith) (omega arith),
)

landing_below_Near : (f : FloorChange) (x y : ℤ) → NearBoth (landing_below f (x, y)) (x, y)
unfolding landing_below
landing_below_Near f x y = (
  shift_Near (contains f east) (contains f east_alt) (contains f west) (negsuc 0) (negsuc 1) (pos 1)
      x (omega arith) (omega arith),
  shift_Near (contains f north) (contains f south) (contains f south_alt) (pos 1) (negsuc 0)
      (negsuc 1) y (omega arith) (omega arith),
)

going_down_Near : (m : Chunks) (x y z : ℤ) → NearBoth (going_down m x y z) (x, y)
unfolding going_down
going_down_Near m x y z =
    elim (Bool-cases (contains (floor_change_at m x (y +ℤ negsuc 0) z) south_alt)) [
      | inl north_of ↦
          rw north_of ((omega int_laws, omega int_laws), (omega int_laws, omega int_laws))
      | inr other ↦
          rw other (elim (Bool-cases (contains (floor_change_at m (x +ℤ negsuc 0) y z) east_alt)) [
            | inl west_of ↦
                rw west_of ((omega int_laws, omega int_laws), (omega int_laws, omega int_laws))
            | inr neither ↦ rw neither (landing_below_Near (floor_change_at m x y z) x y)
          ])
    ]

at_floor_lem :
    (z : ℤ) (s q : ℤ × ℤ) {p : Position}
    → NearBoth s q
    → at_floor z s ≡ some p
    → NearBoth (pos p.x, pos p.y) q × (pos p.z ≡ z)
at_floor_lem z (x, y) (v, w) {p} (hx, hy) e =
    let (ex, ey, ez) = to_position_lem x y z e in
    ((subst (λ t. Near t v) (sym ex) hx, subst (λ t. Near t w) (sym ey) hy), ez)

-- A tile that leads to another floor leads one floor down if its flags say down, else one floor up,
-- and at most three columns and three rows away.
pub resolve_floor_change_lem :
    (m : Chunks) (p : Position) {q : Position}
    → resolve_floor_change m p ≡ some q
    → Near (pos q.x) (pos p.x)
      × Near (pos q.y) (pos p.y)
      × (pos q.z
          ≡ pos p.z
            +ℤ (if contains (floor_change_at m (pos p.x) (pos p.y) (pos p.z)) down
                then pos 1
                else negsuc 0))
unfolding resolve_floor_change
resolve_floor_change_lem m p e =
    let f = floor_change_at m (pos p.x) (pos p.y) (pos p.z) in
    elim (Bool-cases (is_empty f)) [
      | inl empty ↦ absurd (let no = rw empty at e in cc)
      | inr some_flag ↦ elim (Bool-cases (contains f down)) [
        | inl falls ↦
            let ((hx, hy), hz) =
              at_floor_lem _ _ _ (going_down_Near m (pos p.x) (pos p.y) _)
                (rw (some_flag, falls) at e) in
            (hx, hy, rw falls hz)
        | inr climbs ↦
            let ((hx, hy), hz) =
              at_floor_lem _ _ _ (going_up_Near f (pos p.x) (pos p.y))
                (rw (some_flag, climbs) at e) in
            (hx, hy, rw climbs hz)
      ]
    ]
