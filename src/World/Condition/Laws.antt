-- ===== src/World/Condition/Laws.antt =====
-- About the regeneration of crates/world/src/game/condition.rs, its cap and its interval.
use package.oxidia.Prelude.{
  ℕ, ◌+◌, ◌-◌, ◌^◌, ◌≤◌, ◌<◌, ◌≡◌, refl, ◌∙◌, false, ◌&&◌, leb, List, [], ◌∷◌, arith, Bool-cases,
  inl, inr,
}
use package.oxidia.Prelude.Int.{ℤ, pos, ◌+ℤ◌, ◌-ℤ◌, ltb_ℤ, pos_part}
use package.oxidia.World.Condition.{ConditionRegeneration, execute_tick, sat_i32, min_ℤ}

-- What was healed so far is a number within the cap, which is an i32.
pub record WithinCap (c : ConditionRegeneration) : Type 0 where
  pub healed : ℕ
  pub cap : ℕ
  pub healed_is : c.total_heal ≡ pos healed
  pub cap_is : c.total_heal_cap ≡ pos cap
  pub within : healed ≤ cap
  pub cap_i32 : cap < 2 ^ 31

too_early :
    (now : ℕ) (c : ConditionRegeneration)
    → now - c.last_health_tick < c.health_interval_ms
    → (execute_tick now c).0 ≡ pos 0
unfolding execute_tick
too_early now c h =
    let closed : (ltb_ℤ (pos 0) c.health_gain
          && leb c.health_interval_ms (now - c.last_health_tick))
        ≡ false =
      ground arith in
    rw closed refl

-- A tick heals a number of points, adds it to what was healed and stays within the cap; and when it
-- heals, no tick before the interval has passed heals again.
pub execute_tick_lem :
    (now : ℕ) (c : ConditionRegeneration) (w : WithinCap c)
    → let (a, c') = execute_tick now c in
      (n : ℕ) × (a ≡ pos n)
      × (c'.total_heal ≡ pos (w.healed + n))
      × (c'.total_heal_cap ≡ c.total_heal_cap)
      × (w.healed + n ≤ w.cap)
      × (0 < n
          → (later : ℕ) → now ≤ later
          → later < now + c.health_interval_ms
          → (execute_tick later c').0 ≡ pos 0)
unfolding execute_tick ◌+ℤ◌ ◌-ℤ◌
execute_tick_lem now c w =
    let k = w.within in
    let i = w.cap_i32 in
    elim (Bool-cases
      (ltb_ℤ (pos 0) c.health_gain && leb c.health_interval_ms (now - c.last_health_tick))) [
        | inr early ↦ rw early (0, refl, ground arith, refl, omega arith, λ h. absurd (omega arith))
        | inl due ↦
            let a = min_ℤ c.health_gain (sat_i32 (c.total_heal_cap -ℤ c.total_heal)) in
            elim (Bool-cases (ltb_ℤ (pos 0) a)) [
              | inr full ↦
                  rw (due, full)
                    (0, refl, ground arith, refl, omega arith, λ h. absurd (omega arith))
              | inl heals ↦
                  rw (due, heals)
                    (
                      pos_part a,
                      ground arith,
                      ground arith,
                      refl,
                      ground arith,
                      λ h later u l.
                          too_early later
                            (record c { total_heal = c.total_heal +ℤ a; last_health_tick = now })
                            (omega arith),
                    )
            ]
      ]

-- The sum of what ticks at any times heal.
unfoldable pub heal_all : List ℕ → ConditionRegeneration → ℤ
heal_all [] c = pos 0
heal_all (t ∷ ts) c = let (a, c') = execute_tick t c in a +ℤ heal_all ts c'

add_pos : (a b : ℕ) → pos a +ℤ pos b ≡ pos (a + b)
unfolding ◌+ℤ◌
add_pos a b = ground arith

-- What ticks at any times heal in all is within what the cap leaves.
pub heal_all_within :
    (ts : List ℕ) (c : ConditionRegeneration) (w : WithinCap c)
    → (n : ℕ) × (heal_all ts c ≡ pos n) × (w.healed + n ≤ w.cap)
unfolding heal_all
heal_all_within [] c w = let k = w.within in (0, refl, omega arith)
heal_all_within (t ∷ ts) c w =
    let (m, e, total, same, within, _) = execute_tick_lem t c w in
    let i = w.cap_i32 in
    let w' : WithinCap (execute_tick t c).1 = record {
      healed = w.healed + m;
      cap = w.cap;
      healed_is = total;
      cap_is = same ∙ w.cap_is;
      within = within;
      cap_i32 = i;
    } in
    let (n, later, room) = heal_all_within ts (execute_tick t c).1 w' in
    (m + n, rw (e, later) (add_pos m n), omega arith)
