-- ===== src/World/Combat/Laws.antt =====
-- What defense and armor leave of a hit, and the range of the hit chance.
use package.oxidia.Prelude.{
  ℕ, zero, suc, ◌+◌, ◌-◌, ◌/◌, ◌%◌, ◌≤◌, ◌<◌, ◌≡◌, refl, max, Bool, true, false, if◌then◌else◌, ltb,
  arith, Bool-cases, inl, inr, ◌⊎◌,
}
use package.oxidia.Prelude.Int.{ℤ, pos, negsuc, ◌-ℤ◌, pos_part}
use package.oxidia.World.Combat.{
  Rng, BlockKind, exceeds, apply_defense_armor, armor_roll, defense_roll, chance_at,
  distance_hit_chance, hit_cap, as_i32, cap_75, cap_90, cap_100,
}

-- The least and the most that armor takes away.
abbrev pub armor_least : ℕ → ℕ
armor_least a = if ltb 3 a then a / 2 else (if ltb 0 a then 1 else 0)

abbrev pub armor_most : ℕ → ℕ
armor_most a = if ltb 3 a then a - (a % 2 + 1) else (if ltb 0 a then 1 else 0)

module _ (rng : Rng) where
  armor_roll_bounds :
      (a : ℕ) (s : rng.State)
      → (armor_least a ≤ (armor_roll rng a s).0) × ((armor_roll rng a s).0 ≤ armor_most a)
  armor_roll_bounds a s = ground (
    arith,
    rng.at_least (a / 2) (max (a - (a % 2 + 1)) (a / 2)) s (omega arith),
    rng.at_most (a / 2) (max (a - (a % 2 + 1)) (a / 2)) s (omega arith),
  )

  defense_roll_bounds :
      (d : ℕ) (s : rng.State)
      → (d / 2 ≤ (defense_roll rng true d s).0) × ((defense_roll rng true d s).0 ≤ d)
  defense_roll_bounds d s = ground (
    arith,
    rng.at_least (d / 2) (max d (d / 2)) s (omega arith),
    rng.at_most (d / 2) (max d (d / 2)) s (omega arith),
  )

  -- How a positive hit may end: something goes through, at most the hit less the least that each step
  -- takes away and at least the hit less the most; or the defense alone took all of it; or the defense
  -- and the armor did.
  abbrev pub Settled : ℕ → ℕ → ℕ → Bool → ℤ × BlockKind → Type 0
  Settled hit d a check (out, kind) =
      let least = if check then d / 2 else 0 in
      let most = if check then d else 0 in
      ((kind ≡ BlockKind.nothing)
        × (0 < pos_part out)
        × (pos_part out + least + armor_least a ≤ hit)
        × (hit ≤ pos_part out + most + armor_most a))
      ⊎ ((kind ≡ BlockKind.defense) × (out ≡ pos 0) × (hit ≤ most))
      ⊎ ((kind ≡ BlockKind.armor) × (out ≡ pos 0) × (hit ≤ most + armor_most a))

  -- A hit that is not positive does nothing and rolls nothing.
  idle :
      (damage defense_ armor_ : ℤ) (check_defense : Bool) (s : rng.State)
      → pos_part damage ≡ 0
      → apply_defense_armor rng damage defense_ armor_ check_defense s
        ≡ ((pos 0, BlockKind.nothing), s)
  unfolding apply_defense_armor
  idle damage d a check s h =
      let none_left : exceeds damage 0 ≡ false = ground arith in rw none_left refl

  landed :
      (n : ℕ) (defense_ armor_ : ℤ) (check_defense : Bool) (s : rng.State)
      → 0 < n
      → Settled n
          (pos_part defense_)
          (pos_part armor_)
          check_defense
          (apply_defense_armor rng (pos n) defense_ armor_ check_defense s).0
  unfolding apply_defense_armor ◌-ℤ◌
  landed n d a false s h = let b = armor_roll_bounds (pos_part a) s in ground (arith, b)
  landed n d a true s h =
      let c = defense_roll_bounds (pos_part d) s in
      elim (Bool-cases (exceeds d 0)) [
        | inl some_defense ↦
            ground
              (arith, c, armor_roll_bounds (pos_part a) (defense_roll rng true (pos_part d) s).1)
        | inr none ↦ ground (arith, armor_roll_bounds (pos_part a) s)
      ]

  -- A hit that is not positive does nothing and rolls nothing. A positive hit ends in one of three
  -- ways: something goes through, at most the hit less the least that each step takes away and at
  -- least the hit less the most; or the defense alone took all of it; or the defense and the armor did.
  pub apply_defense_armor_lem :
      (damage defense_ armor_ : ℤ) (check_defense : Bool) (s : rng.State)
      → ((pos_part damage ≡ 0)
          × (apply_defense_armor rng damage defense_ armor_ check_defense s
              ≡ ((pos 0, BlockKind.nothing), s)))
        ⊎ ((0 < pos_part damage)
            × Settled
                (pos_part damage)
                (pos_part defense_)
                (pos_part armor_)
                check_defense
                (apply_defense_armor rng damage defense_ armor_ check_defense s).0)
  apply_defense_armor_lem (negsuc n) d a check s = inl (refl, idle (negsuc n) d a check s refl)
  apply_defense_armor_lem (pos zero) d a check s = inl (refl, idle (pos 0) d a check s refl)
  apply_defense_armor_lem (pos (suc n)) d a check s =
      inr (omega arith, landed (suc n) d a check s (omega arith))

cap_75_le : (distance skill : ℕ) → cap_75 distance skill ≤ 75
cap_75_le distance skill = ground arith

cap_90_le : (distance skill : ℕ) → cap_90 distance skill ≤ 90
cap_90_le distance skill = ground arith

cap_100_le : (distance skill : ℕ) → (distance ≡ 6 → 4 ≤ skill) → cap_100 distance skill ≤ 100
cap_100_le distance skill h = ground arith

in_range :
    (m : ℤ) (t : Bool) (distance skill : ℕ)
    → chance_at (hit_cap m t) distance skill ≤ hit_cap m t
    → hit_cap m t ≤ 100
    → (chance : ℕ) × (as_i32 (chance_at (hit_cap m t) distance skill) ≡ pos chance)
      × (chance ≤ hit_cap m t)
in_range m t distance skill h k = (chance_at (hit_cap m t) distance skill, ground arith, h)

-- The chance that a weapon without a chance of its own gives is at most its cap, for the caps that
-- have a table, unless the cap is 100, the distance 6 and the skill below 4.
pub distance_hit_chance_lem :
    (skill : ℤ) (distance : ℕ) (max_hit_chance : ℤ) (takes_ammo : Bool)
    → let cap = hit_cap max_hit_chance takes_ammo in
      (cap ≡ 75) ⊎ (cap ≡ 90) ⊎ (cap ≡ 100)
      → (cap ≡ 100 → distance ≡ 6 → 4 ≤ pos_part skill)
      → (chance : ℕ) × (distance_hit_chance skill distance (pos 0) max_hit_chance takes_ammo
          ≡ pos chance)
        × (chance ≤ cap)
unfolding distance_hit_chance
distance_hit_chance_lem skill distance m t (inl e) h =
    in_range m t distance (pos_part skill)
      (rw e (unfold chance_at in cap_75_le distance (pos_part skill))) (omega arith)
distance_hit_chance_lem skill distance m t (inr (inl e)) h =
    in_range m t distance (pos_part skill)
      (rw e (unfold chance_at in cap_90_le distance (pos_part skill))) (omega arith)
distance_hit_chance_lem skill distance m t (inr (inr e)) h =
    in_range m t distance (pos_part skill)
      (rw e (unfold chance_at in cap_100_le distance (pos_part skill) (h e))) (omega arith)
