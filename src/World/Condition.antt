-- ===== src/World/Condition.antt =====
-- Regeneration over time (crates/world/src/game/condition.rs). A time is a u64 in milliseconds, and
-- the sum in `new` stays below 2 ^ 64 for every clock of the game.
pub mod Laws
use package.oxidia.Prelude.{ℕ, ◌+◌, ◌-◌, ◌^◌, min, Bool, ◌&&◌, if◌then◌else◌, ltb, leb}
use package.oxidia.Prelude.Int.{ℤ, pos, negsuc, ◌+ℤ◌, ◌-ℤ◌, ltb_ℤ}

pub record ConditionRegeneration : Type 0 where
  pub expires_at_ms : ℕ
  pub health_gain : ℤ
  pub health_interval_ms : ℕ
  pub last_health_tick : ℕ
  pub total_heal : ℤ
  pub total_heal_cap : ℤ

unfoldable pub new : ℕ → ℕ → ℤ → ℕ → ℤ → ConditionRegeneration
new now dur hg hi cap = record {
  expires_at_ms = now + dur;
  health_gain = hg;
  health_interval_ms = hi;
  last_health_tick = now;
  total_heal = pos 0;
  total_heal_cap = cap;
}

-- `saturating_add` on a u64
unfoldable pub extend : ℕ → ℕ → ConditionRegeneration → ConditionRegeneration
extend extra now c = record c {
  expires_at_ms = min (c.expires_at_ms + extra) (2 ^ 64 - 1);
  last_health_tick = now;
}

unfoldable pub is_expired : ℕ → ConditionRegeneration → Bool
is_expired now c = leb c.expires_at_ms now

unfoldable pub remaining_ms : ℕ → ConditionRegeneration → ℕ
remaining_ms now c = c.expires_at_ms - now

-- The result of `saturating_sub` on an i32
abbrev pub sat_i32 : ℤ → ℤ
sat_i32 (pos n) = pos (min n (2 ^ 31 - 1))
sat_i32 (negsuc n) = negsuc (min n (2 ^ 31 - 1))

abbrev pub min_ℤ : ℤ → ℤ → ℤ
min_ℤ a b = if ltb_ℤ b a then b else a

-- What the tick heals, and the condition after it.
unfoldable pub execute_tick : ℕ → ConditionRegeneration → ℤ × ConditionRegeneration
execute_tick now c =
    let a = min_ℤ c.health_gain (sat_i32 (c.total_heal_cap -ℤ c.total_heal)) in
    if ltb_ℤ (pos 0) c.health_gain && leb c.health_interval_ms (now - c.last_health_tick)
    then (if ltb_ℤ (pos 0) a
        then (a, record c { total_heal = c.total_heal +ℤ a; last_health_tick = now })
        else (pos 0, c))
    else (pos 0, c)
