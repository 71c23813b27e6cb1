-- ===== src/World/Game/Reaping.antt =====
-- About the log-outs that a push can set off, one after the other
-- (crates/world/src/game/mod.rs, session.rs).
use package.oxidia.Prelude.{
  ℕ, zero, suc, ◌≤◌, ◌<◌, ◌≡◌, refl, ap, ◌∙◌, inl, inr, Bool, List, [], ◌∷◌, some, arith, length,
  Bool-cases, Option-cases,
}
use package.oxidia.Prelude.Assoc.{nat_eq, lookup, adjust, length-adjust, length-erase-lt}
use package.oxidia.Protocol.Bytes.{Bytes}
use package.oxidia.Protocol.Walk.{remove_creature_by_id}
use package.oxidia.Protocol.EnterWorld.{effect_teleport, magic_effect}
use package.oxidia.World.Position.{Position}
use package.oxidia.World.Game.{Game, PlayerState}
use package.oxidia.World.Game.View.{spectators}
use package.oxidia.World.Game.Session.{
  forget_creature, departed, tell_departure, logout_by, push_within, push,
}

abbrev online : Game → ℕ
online g = length g.players

abbrev Send : Type 0
Send = Game → ℕ → Bytes → Game

-- The game after the two packets and the change of one round of `tell_departure`.
abbrev round : Send → ℕ → Position → ℕ → Game → Game
round send id at spec g =
    let h =
      send (send g spec (magic_effect at.x at.y at.z effect_teleport)) spec
        (remove_creature_by_id id) in
    record h { players = adjust spec (forget_creature id) h.players }

departed-fewer :
    (g : Game) (id : ℕ) (p : PlayerState)
    → lookup id g.players ≡ some p
    → online (departed g id p) < online g
unfolding departed
departed-fewer g id p e = length-erase-lt id g.players e

module _ (send : Send)
    (fewer : (g : Game) (to : ℕ) (b : Bytes) → online (send g to b) ≤ online g) where
  round-fewer :
      (id : ℕ) (at : Position) (spec : ℕ) (g : Game) → online (round send id at spec g) ≤ online g
  round-fewer id at spec g =
      let g1 = send g spec (magic_effect at.x at.y at.z effect_teleport) in
      let h = send g1 spec (remove_creature_by_id id) in
      omega (
        arith,
        length-adjust spec (forget_creature id) h.players,
        fewer g spec (magic_effect at.x at.y at.z effect_teleport),
        fewer g1 spec (remove_creature_by_id id),
      )

  tell-fewer :
      (id : ℕ) (at : Position) (specs : List ℕ) (g : Game)
      → online (tell_departure send id at specs g) ≤ online g
  unfolding tell_departure
  tell-fewer id at [] g = omega arith
  tell-fewer id at (spec ∷ specs) g =
      omega (arith, tell-fewer id at specs (round send id at spec g), round-fewer id at spec g)

  -- Another function that does the same on games with few players.
  tell-same :
      (other : Send) (n : ℕ)
      → ((g : Game) (to : ℕ) (b : Bytes) → online g ≤ n → send g to b ≡ other g to b)
      → (id : ℕ) (at : Position) (specs : List ℕ) (g : Game) → online g ≤ n
      → tell_departure send id at specs g ≡ tell_departure other id at specs g
  unfolding tell_departure
  tell-same other n same id at [] g few = refl
  tell-same other n same id at (spec ∷ specs) g few =
      let b1 = magic_effect at.x at.y at.z effect_teleport in
      let b2 = remove_creature_by_id id in
      let g1 = send g spec b1 in
      let first : g1 ≡ other g spec b1 = same g spec b1 few in
      let second : send g1 spec b2 ≡ other (other g spec b1) spec b2 =
        same g1 spec b2 (omega (arith, fewer g spec b1)) ∙ ap (λ h. other h spec b2) first in
      tell-same other n same id at specs (round send id at spec g)
        (omega (arith, round-fewer id at spec g))
      ∙ ap
          (λ h.
            tell_departure other id at specs
              (record h { players = adjust spec (forget_creature id) h.players }))
          second

  logout_by-fewer : (g : Game) (id : ℕ) → online (logout_by send g id) ≤ online g
  unfolding logout_by
  logout_by-fewer g id = elim (Option-cases (lookup id g.players)) [
    | inl absent ↦ rw (absent, logout_by) (omega arith)
    | inr (p, there) ↦
        rw (there, logout_by)
          (omega (
            arith,
            departed-fewer g id p there,
            tell-fewer id p.position (spectators (departed g id p) p.position id) (departed g id p),
          ))
  ]

  logout_by-same :
      (other : Send) (n : ℕ)
      → ((g : Game) (to : ℕ) (b : Bytes) → online g ≤ n → send g to b ≡ other g to b)
      → (g : Game) (id : ℕ) → online g ≤ suc n
      → logout_by send g id ≡ logout_by other g id
  unfolding logout_by
  logout_by-same other n same g id few = elim (Option-cases (lookup id g.players)) [
    | inl absent ↦ rw (absent, logout_by) refl
    | inr (p, there) ↦
        rw (there, logout_by)
          (tell-same other n same id p.position (spectators (departed g id p) p.position id)
            (departed g id p) (omega (arith, departed-fewer g id p there)))
  ]

module _ (accepts : List (ℕ × Bytes) → ℕ → Bytes → Bool) where
  push_within-fewer :
      (fuel : ℕ) (g : Game) (to : ℕ) (b : Bytes)
      → online (push_within accepts fuel g to b) ≤ online g
  unfolding push_within
  push_within-fewer zero g to b = omega arith
  push_within-fewer (suc fuel) g to b =
      let reaped = logout_by-fewer (push_within accepts fuel) (push_within-fewer fuel) g to in
      elim (Option-cases (lookup to g.players)) [
        | inl absent ↦ rw (absent, push_within) (omega arith)
        | inr (p, there) ↦ elim (Bool-cases (accepts g.sent to b)) [
          | inl taken ↦ rw (there, push_within, taken) (omega arith)
          | inr refused ↦ rw (there, push_within, refused) reaped
        ]
      ]

  fuel_irrelevant :
      (n a b : ℕ) (g : Game) (to : ℕ) (payload : Bytes)
      → online g ≤ n
      → n < a
      → n < b
      → push_within accepts a g to payload ≡ push_within accepts b g to payload
  unfolding push_within
  fuel_irrelevant n zero b g to payload few h k = absurd (omega (arith, h))
  fuel_irrelevant n (suc a) zero g to payload few h k = absurd (omega (arith, k))
  fuel_irrelevant zero (suc a) (suc b) g to payload few h k =
      elim (Option-cases (lookup to g.players)) [
        | inl absent ↦ rw (absent, push_within) refl
        | inr (p, there) ↦ absurd (omega (arith, few, departed-fewer g to p there))
      ]
  fuel_irrelevant (suc n) (suc a) (suc b) g to payload few h k =
      let reaped =
        logout_by-same (push_within accepts a) (push_within-fewer a) (push_within accepts b) n
          (λ s id p less. fuel_irrelevant n a b s id p less (omega (arith, h)) (omega (arith, k))) g
          to few in
      elim (Option-cases (lookup to g.players)) [
        | inl absent ↦ rw (absent, push_within) refl
        | inr (p, there) ↦ elim (Bool-cases (accepts g.sent to payload)) [
          | inl taken ↦ rw (there, push_within, taken) refl
          | inr refused ↦ rw (there, push_within, refused) reaped
        ]
      ]

  -- Pushing a packet ends after as many log-outs inside one another as there are players: with any
  -- fuel above the number of players the result is that of push.
  pub push-ends :
      (fuel : ℕ) (g : Game) (to : ℕ) (payload : Bytes)
      → length g.players < fuel
      → push_within accepts fuel g to payload ≡ push accepts g to payload
  unfolding push
  push-ends fuel g to payload h =
      fuel_irrelevant (length g.players) fuel (suc (length g.players)) g to payload (omega arith) h
        (omega arith)
