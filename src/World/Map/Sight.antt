-- ===== src/World/Map/Sight.antt =====
-- Lines of sight and throws (crates/world/src/map.rs). The lines step in the floats of the machine,
-- which are the parameter `Floats`: the type f32, its operations and the conversion to u16.
use package.oxidia.Prelude.{
  ℕ, zero, suc, ◌+◌, ◌-◌, ◌≤◌, ◌≡◌, Bool, true, false, not, ◌&&◌, ◌||◌, arith, if◌then◌else◌, ltb,
  ◌==◌, Bool-cases, inl, inr, refl,
}
use package.oxidia.World.Position.{Position}
use package.oxidia.World.Map.Tiles.{Chunks, has_ground, is_block_projectile}

pub record Floats : Type 1 where
  pub F : Type 0
  pub of_u16 : ℕ → F
  pub plus : F → F → F
  pub minus : F → F → F
  pub over : F → F → F
  pub is_zero : F → Bool
  pub one : F
  pub tenth : F
  pub floor_u16 : F → ℕ

-- `(i32::from(a) - i32::from(b)).abs()`
abbrev pub abs_diff : ℕ → ℕ → ℕ
abs_diff a b = (a - b) + (b - a)

unfoldable pub is_tile_clear : Chunks → ℕ → ℕ → ℕ → Bool → Bool
is_tile_clear m x y z block_floor =
    let p : Position = record { x = x; y = y; z = z } in
    if is_block_projectile m p then false else not (block_floor && has_ground m p)

-- Which floors a test of this shape lets through, whatever stands on the lines.
levels_lem :
    (a b : ℕ) (same up down : Bool)
    → (if a == b
        then same
        else if (ltb a 8 && ltb 7 b) || (ltb 7 a && ltb b 8)
        then false
        else if ltb b a
        then (if ltb 1 (abs_diff a b) then false else up)
        else down)
      ≡ true
    → (a ≤ b + 1) × (ltb 7 a ≡ ltb 7 b)
levels_lem a b same up down h = ground arith

range_lem : (a b : ℕ) → (ltb 8 a || ltb 6 b) ≡ false → (a ≤ 8) × (b ≤ 6)
range_lem a b h = ground arith

module _ (fl : Floats) (m : Chunks) where
  open fl use {F, of_u16, plus, minus, over, is_zero, one, tenth, floor_u16}

  slope : ℕ → ℕ → ℕ → ℕ → F
  slope x0 y0 x1 y1 =
      let dx = minus (of_u16 x1) (of_u16 x0) in
      if is_zero dx then one else over (minus (of_u16 y1) (of_u16 y0)) dx

  -- `while x < x1`, on the rounds left; `clear` is told the two coordinates of a step.
  line_loop : (ℕ → ℕ → Bool) → F → ℕ → ℕ → F → Bool
  line_loop clear s zero x yi = true
  line_loop clear s (suc left) x yi =
      if clear x (floor_u16 (plus yi tenth))
      then line_loop clear s left (x + 1) (plus yi s)
      else false

  check_slight_line : ℕ → ℕ → ℕ → ℕ → ℕ → Bool
  unfolding slope line_loop
  check_slight_line x0 y0 x1 y1 z =
      let s = slope x0 y0 x1 y1 in
      line_loop (λ x y. is_tile_clear m x y z false) s (x1 - (x0 + 1)) (x0 + 1) (plus (of_u16 y0) s)

  check_steep_line : ℕ → ℕ → ℕ → ℕ → ℕ → Bool
  unfolding slope line_loop
  check_steep_line x0 y0 x1 y1 z =
      let s = slope x0 y0 x1 y1 in
      line_loop (λ x y. is_tile_clear m y x z false) s (x1 - (x0 + 1)) (x0 + 1) (plus (of_u16 y0) s)

  check_sight_line : ℕ → ℕ → ℕ → ℕ → ℕ → Bool
  unfolding check_slight_line check_steep_line
  check_sight_line x0 y0 x1 y1 z =
      if x0 == x1 && y0 == y1
      then true
      else if ltb (abs_diff x1 x0) (abs_diff y1 y0)
      then (if ltb y0 y1 then check_steep_line y0 x0 y1 x1 z else check_steep_line y1 x1 y0 x0 z)
      else if ltb x1 x0
      then check_slight_line x1 y1 x0 y0 z
      else check_slight_line x0 y0 x1 y1 z

  -- `while z < to.z`, on the floors left
  floors_clear : ℕ → ℕ → ℕ → ℕ → Bool
  floors_clear zero x y z = true
  floors_clear (suc left) x y z =
      if not (is_tile_clear m x y z true) then false else floors_clear left x y (z + 1)

  same_level : Position → Position → Bool → Bool
  unfolding check_sight_line
  same_level p q same_floor =
      if ltb (abs_diff p.x q.x) 2 && ltb (abs_diff p.y q.y) 2
      then true
      else let clear = check_sight_line p.x p.y q.x q.y p.z in
        if clear || same_floor
        then clear
        else if p.z == 0
        then true
        else is_tile_clear m p.x p.y (p.z - 1) true
          && (is_tile_clear m q.x q.y (p.z - 1) true && check_sight_line p.x p.y q.x q.y (p.z - 1))

  unfoldable pub is_sight_clear : Position → Position → Bool → Bool
  unfolding same_level floors_clear check_sight_line
  is_sight_clear p q same_floor =
      if p.z == q.z
      then same_level p q same_floor
      else if same_floor
      then false
      else if (ltb p.z 8 && ltb 7 q.z) || (ltb 7 p.z && ltb q.z 8)
      then false
      else if ltb q.z p.z
      then (if ltb 1 (abs_diff p.z q.z)
          then false
          else is_tile_clear m p.x p.y (p.z - 1) true && check_sight_line p.x p.y q.x q.y (p.z - 1))
      else if floors_clear (q.z - p.z) q.x q.y p.z
      then check_sight_line p.x p.y q.x q.y p.z
      else false

  unfoldable pub can_throw_object_to : Position → Position → Bool
  unfolding is_sight_clear
  can_throw_object_to p q =
      if ltb 8 (abs_diff p.x q.x) || ltb 6 (abs_diff p.y q.y)
      then false
      else is_sight_clear p q false

  is_sight_clear_levels :
      (p q : Position) → is_sight_clear p q false ≡ true → (p.z ≤ q.z + 1) × (ltb 7 p.z ≡ ltb 7 q.z)
  unfolding is_sight_clear
  is_sight_clear_levels p q h = levels_lem p.z q.z _ _ _ h

  -- A throw that is allowed goes at most 8 columns and 6 rows, at most one floor up, and never
  -- between the floors above ground and those below.
  pub can_throw_object_to_lem :
      (p q : Position)
      → can_throw_object_to p q ≡ true
      → (abs_diff p.x q.x ≤ 8) × (abs_diff p.y q.y ≤ 6) × (p.z ≤ q.z + 1) × (ltb 7 p.z ≡ ltb 7 q.z)
  unfolding can_throw_object_to
  can_throw_object_to_lem p q h =
      elim (Bool-cases (ltb 8 (abs_diff p.x q.x) || ltb 6 (abs_diff p.y q.y))) [
        | inl far ↦ let no = rw far at h in cc
        | inr near ↦
            let clear = rw near at h in
            let (levels, ground_level) = is_sight_clear_levels p q clear in
            let (columns, rows) = range_lem _ _ near in (columns, rows, levels, ground_level)
      ]

  -- Whatever stands in the way, a throw to the same place or a neighbour on the floor is allowed.
  pub can_throw_object_to_near :
      (p q : Position)
      → p.z ≡ q.z
      → abs_diff p.x q.x ≤ 1
      → abs_diff p.y q.y ≤ 1
      → can_throw_object_to p q ≡ true
  unfolding can_throw_object_to is_sight_clear same_level
  can_throw_object_to_near p q e hx hy =
      let in_range : (ltb 8 (abs_diff p.x q.x) || ltb 6 (abs_diff p.y q.y)) ≡ false =
        ground arith in
      let level : (p.z == q.z) ≡ true = ground arith in
      let close : (ltb (abs_diff p.x q.x) 2 && ltb (abs_diff p.y q.y) 2) ≡ true = ground arith in
      rw (in_range, level, close) refl
