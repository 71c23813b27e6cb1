-- ===== src/World/Game/Spectators.antt =====
-- About the players who are told of a place and those whom a player sees
-- (crates/world/src/game/mod.rs).
use package.oxidia.Prelude.{
  ℕ, ◌≡◌, refl, sym, ◌∙◌, subst, ◌↔◌, inl, inr, Bool, true, not, ◌&&◌, ◌||◌, List, [], ◌∷◌, none,
  some, arith, ◌==◌, ==_iff, Bool-cases, some_injective,
}
use mathlib.Core.List.{Memᴰ}
use mathlib.Core.List.Memᴰ
use package.oxidia.Prelude.Assoc.{nat_eq, lookup}
use package.oxidia.World.Position.{Position}
use package.oxidia.World.Game.{Game, PlayerState}
use package.oxidia.World.Game.View.{can_see, ids_where, spectators, visible_from}

module _ {ℓ} {A : Type ℓ} where
  -- Each key stands once, as in a hash map.
  abbrev pub DistinctKeys : List (ℕ × A) → Type ℓ
  DistinctKeys [] = Unit
  DistinctKeys ((k, a) ∷ m) = (lookup k m ≡ none) × DistinctKeys m

  found_where :
      (test : ℕ → A → Bool) (m : List (ℕ × A)) (id : ℕ) {a : A}
      → lookup id m ≡ some a
      → test id a ≡ true
      → Memᴰ id (ids_where test m)
  unfolding lookup ids_where
  found_where test [] id e h = absurd (ground arith)
  found_where test ((k, b) ∷ m) id {a} e h = elim (Bool-cases (k == id)) [
    | inl same ↦
        let here : k ≡ id = (==_iff k id).0 same in
        let it : b ≡ a = some_injective (rw same at e) in
        let passes : test k b ≡ true = rw (here, it) h in rw passes (Memᴰ.head (sym here))
    | inr other ↦
        let later = found_where test m id (rw other at e) h in
        elim (Bool-cases (test k b)) [
          | inl passes ↦ rw passes (Memᴰ.tail later)
          | inr fails ↦ rw fails later
        ]
  ]

  where_found :
      (test : ℕ → A → Bool) (m : List (ℕ × A)) (id : ℕ)
      → DistinctKeys m
      → Memᴰ id (ids_where test m)
      → (a : A) × (lookup id m ≡ some a) × (test id a ≡ true)
  unfolding lookup ids_where
  where_found test [] id d h = absurd (Memᴰ.not-nil h)
  where_found test ((k, b) ∷ m) id d h = elim (Bool-cases (test k b)) [
    | inl passes ↦ elim (Memᴰ.cases_cons (rw passes at h)) [
      | inl e ↦
          let same : (k == id) ≡ true = (==_iff k id).1 (sym e) in (b, rw same refl, rw e passes)
      | inr later ↦ behind (where_found test m id d.1 later)
    ]
    | inr fails ↦ behind (where_found test m id d.1 (rw fails at h))
  ]
    where
      behind :
          (a : A) × (lookup id m ≡ some a) × (test id a ≡ true)
          → (a : A) × (lookup id ((k, b) ∷ m) ≡ some a) × (test id a ≡ true)
      behind (a, there, ok) = elim (Bool-cases (k == id)) [
        | inl same ↦
            let gone : lookup id m ≡ none = rw ((==_iff k id).0 same) at d.0 in
            absurd (ground arith)
        | inr other ↦ (a, rw other there, ok)
      ]

-- Both tests of `a` and `b`, the one for whom `a` is told of and the one for whom `a` sees.
abbrev is_told : Position → ℕ → Bool → ℕ → PlayerState → Bool
is_told at b ghost id r = not (id == b) && (can_see r.position at && (not ghost || r.gamemaster))

abbrev is_seen : Position → ℕ → Bool → ℕ → PlayerState → Bool
is_seen at a gm id r = not (id == a) && (can_see at r.position && (gm || not r.ghost))

dual_tests :
    (a b : ℕ) (seen ghost gm : Bool)
    → (not (a == b) && (seen && (not ghost || gm))) ≡ (not (b == a) && (seen && (gm || not ghost)))
dual_tests a b seen ghost gm = ground arith

-- For two players of the game: the one is told of what the other does exactly if he has the other in
-- his view, also where the other is a ghost.
pub spectators-visible_from :
    (g : Game) (a b : ℕ) (p q : PlayerState)
    → DistinctKeys g.players
    → lookup a g.players ≡ some p
    → lookup b g.players ≡ some q
    → Memᴰ a (spectators g q.position b) ↔ Memᴰ b (visible_from g p.position a)
unfolding spectators visible_from
spectators-visible_from g a b p q d ea eb =
    let same = dual_tests a b (can_see p.position q.position) q.ghost p.gamemaster in
    rw (ea, eb)
      (
        λ h.
            (let (r, there, ok) = where_found (is_told q.position b q.ghost) g.players a d h in
              let it : r ≡ p = some_injective (sym there ∙ ea) in
              found_where (is_seen p.position a p.gamemaster) g.players b eb
                (sym same ∙ subst (λ s. is_told q.position b q.ghost a s ≡ true) it ok)),
        λ h.
            (let (r, there, ok) = where_found (is_seen p.position a p.gamemaster) g.players b d h in
              let it : r ≡ q = some_injective (sym there ∙ eb) in
              found_where (is_told q.position b q.ghost) g.players a ea
                (same ∙ subst (λ s. is_seen p.position a p.gamemaster b s ≡ true) it ok)),
      )
