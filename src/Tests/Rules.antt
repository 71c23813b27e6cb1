-- ===== src/Tests/Rules.antt =====
-- Combat and regeneration.
use oxidia.Prelude.{ℕ, ◌+◌, ◌≤◌, ◌<◌, ◌≡◌, ◌⊎◌, refl, inr, true, false, [], ◌∷◌, arith}
use oxidia.Prelude.Int.{pos, negsuc, ◌+ℤ◌, ◌-ℤ◌, pos_part}
use oxidia.World.Combat.{Rng, BlockKind, apply_defense_armor, distance_hit_chance, chance_at}
use oxidia.World.Combat.Laws.{Settled, apply_defense_armor_lem, distance_hit_chance_lem}
use oxidia.World.Condition.{ConditionRegeneration, execute_tick}
use oxidia.World.Condition.Laws.{WithinCap, execute_tick_lem, heal_all, heal_all_within}

-- A generator that gives the least number of a range.
abbrev least_rng : Rng
least_rng = record {
  State = Unit {0};
  gen_range = λ lo hi s. (lo, s);
  at_least = λ lo hi s h. omega arith;
  at_most = λ lo hi s h. h;
}

-- A hit of 30 against defense 20 and armor 8: 10 and 4 are taken away.
apply_defense_armor-hit :
    (apply_defense_armor least_rng (pos 30) (pos 20) (pos 8) true tt).0
    ≡ (pos 16, BlockKind.nothing)
unfolding apply_defense_armor ◌-ℤ◌
apply_defense_armor-hit = refl

apply_defense_armor_lem_example :
    ((pos_part (pos 30) ≡ 0)
      × (apply_defense_armor least_rng (pos 30) (pos 20) (pos 9) true tt
          ≡ ((pos 0, BlockKind.nothing), tt)))
    ⊎ ((0 < pos_part (pos 30))
        × Settled least_rng 30 20 9 true
            (apply_defense_armor least_rng (pos 30) (pos 20) (pos 9) true tt).0)
apply_defense_armor_lem_example =
    apply_defense_armor_lem least_rng (pos 30) (pos 20) (pos 9) true tt

distance_hit_chance_lem_example :
    (chance : ℕ) × (distance_hit_chance (pos 50) 6 (pos 0) (pos 100) false ≡ pos chance)
    × (chance ≤ 100)
distance_hit_chance_lem_example =
    distance_hit_chance_lem (pos 50) 6 (pos 100) false (inr (inr refl)) (λ c e. omega arith)

-- What the excluded case gives: the subtraction of 4 wraps around.
distance_hit_chance-wraps : distance_hit_chance (pos 0) 6 (pos 0) (pos 100) false ≡ negsuc 3
unfolding distance_hit_chance chance_at
distance_hit_chance-wraps = refl

-- Ten points each second, up to 25.
abbrev food : ConditionRegeneration
food = record {
  expires_at_ms = 60000;
  health_gain = pos 10;
  health_interval_ms = 1000;
  last_health_tick = 0;
  total_heal = pos 0;
  total_heal_cap = pos 25;
}

abbrev food-WithinCap : WithinCap food
food-WithinCap = record {
  healed = 0;
  cap = 25;
  healed_is = refl;
  cap_is = refl;
  within = omega arith;
  cap_i32 = omega arith;
}

heal_all-food : heal_all (500 ∷ 1000 ∷ 2000 ∷ 3000 ∷ 4000 ∷ []) food ≡ pos 25
unfolding heal_all execute_tick ◌+ℤ◌ ◌-ℤ◌
heal_all-food = refl

execute_tick_lem_example :
    let (a, c') = execute_tick 1000 food in
    (n : ℕ) × (a ≡ pos n)
    × (c'.total_heal ≡ pos (0 + n))
    × (c'.total_heal_cap ≡ pos 25)
    × (0 + n ≤ 25)
    × (0 < n → (later : ℕ) → 1000 ≤ later → later < 1000 + 1000 → (execute_tick later c').0 ≡ pos 0)
execute_tick_lem_example = execute_tick_lem 1000 food food-WithinCap

heal_all_within_example : (n : ℕ) × (heal_all (1000 ∷ 2000 ∷ []) food ≡ pos n) × (0 + n ≤ 25)
heal_all_within_example = heal_all_within (1000 ∷ 2000 ∷ []) food food-WithinCap
