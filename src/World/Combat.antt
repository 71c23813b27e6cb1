-- ===== src/World/Combat.antt =====
-- Melee and distance arithmetic (crates/world/src/combat.rs), the part on integers. The generator of
-- the crate `rand` is a parameter. A product of an f64 constant and a small skill, cut to a u32, is
-- the division by 100; the one value that the rounding of 0.70 changes, at 90, is written out.
pub mod Laws
use package.oxidia.Prelude.{
  ℕ, zero, suc, ◌+◌, ◌-◌, ◌*◌, ◌/◌, ◌%◌, ◌^◌, ◌≤◌, min, max, Bool, true, false, not, ◌&&◌, ◌||◌,
  if◌then◌else◌, ltb, leb, ◌==◌,
}
use package.oxidia.Prelude.Int.{ℤ, pos, negsuc, ◌-ℤ◌, pos_part}

-- `rng.gen_range(lo..=hi)`: a number from lo to hi, and the generator after it.
pub record Rng : Type 1 where
  pub State : Type 0
  pub gen_range : ℕ → ℕ → State → ℕ × State
  pub at_least : (lo hi : ℕ) (s : State) → lo ≤ hi → lo ≤ (gen_range lo hi s).0
  pub at_most : (lo hi : ℕ) (s : State) → lo ≤ hi → (gen_range lo hi s).0 ≤ hi

pub data BlockKind : Type 0 where
  nothing defense armor : BlockKind

-- `v > n`, and `v <= 0`
abbrev pub exceeds : ℤ → ℕ → Bool
exceeds v n = ltb n (pos_part v)

module _ (rng : Rng) where
  -- The armor step and the last test.
  abbrev pub armor_roll : ℕ → rng.State → ℕ × rng.State
  armor_roll a s =
      if ltb 3 a
      then rng.gen_range (a / 2) (max (a - (a % 2 + 1)) (a / 2)) s
      else ((if ltb 0 a then 1 else 0), s)

  abbrev pub settle : ℤ → BlockKind → ℤ × BlockKind
  settle damage kind = if exceeds damage 0 then (damage, BlockKind.nothing) else (pos 0, kind)

  abbrev pub after_defense : Bool → ℤ → ℕ → rng.State → (ℤ × BlockKind) × rng.State
  after_defense false damage a s = ((pos 0, BlockKind.defense), s)
  after_defense true damage a s =
      let (roll, s') = armor_roll a s in (settle (damage -ℤ pos roll) BlockKind.armor, s')

  abbrev pub defense_roll : Bool → ℕ → rng.State → ℕ × rng.State
  defense_roll false d s = (0, s)
  defense_roll true d s = rng.gen_range (d / 2) (max d (d / 2)) s

  -- Defense `def` and armor `arm` are an i32 that only counts where it is positive.
  unfoldable pub apply_defense_armor : ℤ → ℤ → ℤ → Bool → rng.State → (ℤ × BlockKind) × rng.State
  apply_defense_armor damage def arm check_defense s =
      let checked = check_defense && exceeds def 0 in
      let (roll, s') = defense_roll checked (pos_part def) s in
      let left = damage -ℤ pos roll in
      if not (exceeds damage 0)
      then ((pos 0, BlockKind.nothing), s)
      else after_defense (not checked || exceeds left 0) left (pos_part arm) s'

abbrev pub percent : ℕ → ℕ → ℕ
percent k n = n * k / 100

abbrev pub seven_tenths : ℕ → ℕ
seven_tenths n = if n == 90 then 62 else percent 70 n

abbrev pub cap_75 : ℕ → ℕ → ℕ
cap_75 distance skill =
    if distance == 1 || distance == 5
    then min skill 74 + 1
    else (if distance == 2
        then percent 240 (min skill 28) + 8
        else (if distance == 3
            then percent 155 (min skill 45) + 6
            else (if distance == 4
                then percent 125 (min skill 58) + 3
                else (if distance == 6
                    then percent 80 (min skill 90) + 3
                    else (if distance == 7 then seven_tenths (min skill 104) + 2 else 0)))))

abbrev pub cap_90 : ℕ → ℕ → ℕ
cap_90 distance skill =
    if distance == 1 || distance == 5
    then percent 120 (min skill 74) + 1
    else (if distance == 2
        then percent 320 (min skill 28)
        else (if distance == 3
            then min skill 45 * 2
            else (if distance == 4
                then percent 155 (min skill 58)
                else (if distance == 6 || distance == 7 then min skill 90 else 0))))

-- The subtraction at distance 6 is on a u32 and wraps around.
abbrev pub cap_100 : ℕ → ℕ → ℕ
cap_100 distance skill =
    if distance == 1 || distance == 5
    then percent 135 (min skill 73) + 1
    else (if distance == 2
        then percent 320 (min skill 30) + 4
        else (if distance == 3
            then percent 205 (min skill 48) + 2
            else (if distance == 4
                then percent 150 (min skill 65) + 2
                else (if distance == 6
                    then (percent 120 (min skill 87) + 2 ^ 32 - 4) % 2 ^ 32
                    else (if distance == 7 then percent 110 (min skill 90) + 1 else 0)))))

abbrev pub hit_cap : ℤ → Bool → ℕ
hit_cap (pos n) takes_ammo = n
hit_cap (negsuc zero) takes_ammo = if takes_ammo then 90 else 75
hit_cap (negsuc (suc n)) takes_ammo = 0

abbrev pub as_i32 : ℕ → ℤ
as_i32 n = if ltb n (2 ^ 31) then pos n else negsuc (2 ^ 32 - 1 - n)

unfoldable pub chance_at : ℕ → ℕ → ℕ → ℕ
chance_at cap distance skill =
    if cap == 75
    then cap_75 distance skill
    else (if cap == 90
        then cap_90 distance skill
        else (if cap == 100 then cap_100 distance skill else cap))

abbrev pub given_or : ℤ → ℤ → ℤ
given_or (pos zero) chance = chance
given_or (pos (suc n)) chance = pos (suc n)
given_or (negsuc n) chance = negsuc n

unfoldable pub distance_hit_chance : ℤ → ℕ → ℤ → ℤ → Bool → ℤ
distance_hit_chance skill distance hit_chance max_hit_chance takes_ammo =
    given_or hit_chance
      (as_i32 (chance_at (hit_cap max_hit_chance takes_ammo) distance (pos_part skill)))
