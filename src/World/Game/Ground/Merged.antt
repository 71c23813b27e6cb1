-- ===== src/World/Game/Ground/Merged.antt =====
-- The stack of a tile as the game sees it, the changed one before that of the map, and what taking
-- from the ground and adding to it do to the stacks.
use package.oxidia.Prelude.{
  ℕ, ◌≡◌, refl, sym, ap, ◌∙◌, subst, ◌⊎◌, inl, inr, Bool, true, false, Option, none, some, arith,
  if◌then◌else◌, Option-cases, get_elem?,
}
use mathlib.Core.Option
use package.oxidia.Prelude.Assoc.{insert, lookup-insert, beq_self}
use package.oxidia.Protocol.MapDescription.{WireItem}
use package.oxidia.World.Position.{Position}
use package.oxidia.World.Map.Tiles.{TileStack, tile_at, tile_item_server_id}
use package.oxidia.World.Game.{Game, same_position, position_eq}
use package.oxidia.World.Game.View.{overlay, merged_server_id}
use package.oxidia.World.Game.Ground.{
  materialize, take_units, add_units, take_from_ground, add_to_ground_front,
}

unfoldable pub merged_stack : Game → Position → Option TileStack
merged_stack g at = elim (overlay g at) [ some st ↦ some st | none ↦ tile_at g.chunks at ]

-- The stack `st` stands at `at` in `g'`, and nothing else differs from `g`.
pub record Placed (g : Game) (at : Position) (st : TileStack) (g' : Game) : Type 0 where
  pub here : merged_stack g' at ≡ some st
  pub elsewhere : (q : Position) → same_position at q ≡ false → merged_stack g' q ≡ merged_stack g q
  pub world : g' ≡ record g { dynamic = g'.dynamic }

abbrev pub put_stack : Game → Position → TileStack → Game
put_stack g at st = record g { dynamic = insert at st g.dynamic }

merged_stack-put :
    (g : Game) (at q : Position) (st : TileStack)
    → merged_stack (put_stack g at st) q
      ≡ (if same_position at q then some st else merged_stack g q)
unfolding merged_stack
merged_stack-put g at q st =
    rw (lookup-insert at q st g.dynamic, merged_stack) (pick (same_position at q))
  where
    pick :
        (b : Bool)
        → elim (if b then some st else overlay g q) [ some s ↦ some s | none ↦ tile_at g.chunks q ]
          ≡ (if b
              then some st
              else elim (overlay g q) [ some s ↦ some s | none ↦ tile_at g.chunks q ])
    pick true = refl
    pick false = refl

pub put_stack-Placed :
    (g : Game) (at : Position) (st : TileStack) → Placed g at st (put_stack g at st)
put_stack-Placed g at st = record {
  here = merged_stack-put g at at st ∙ rw (beq_self at) refl;
  elsewhere = λ q other. merged_stack-put g at q st ∙ rw other refl;
  world = refl;
}

-- A tile with a stack is materialized with that stack.
materialize_lem :
    (g : Game) (at : Position) {st : TileStack}
    → merged_stack g at ≡ some st
    → (g1 : Game) × (materialize g at ≡ some (st, g1)) × ((g1 ≡ g) ⊎ (g1 ≡ put_stack g at st))
unfolding merged_stack materialize
materialize_lem g at {st} e = elim (Option-cases (overlay g at)) [
  | inr (st', there) ↦
      let same : st' ≡ st = (let e' = rw (there, merged_stack) at e in cc) in
      (g, rw (there, materialize) (ap (λ s. some (s, g)) same), inl refl)
  | inl absent ↦
      let on_map : tile_at g.chunks at ≡ some st = rw (absent, merged_stack) at e in
      (put_stack g at st, rw (absent, materialize, on_map) refl, inr refl)
]

-- A write to the stack of a materialized tile.
written-Placed :
    (g g1 : Game) (at : Position) (st st' : TileStack)
    → (g1 ≡ g) ⊎ (g1 ≡ put_stack g at st)
    → Placed g at st' (put_stack g1 at st')
written-Placed g g1 at st st' (inl same) =
    subst (λ h. Placed g at st' (put_stack h at st')) (sym same) (put_stack-Placed g at st')
written-Placed g g1 at st st' (inr copied) =
    subst (λ h. Placed g at st' (put_stack h at st')) (sym copied)
      (let second = put_stack-Placed (put_stack g at st) at st' in
        let first = put_stack-Placed g at st in
        record {
          here = second.here;
          elsewhere = λ q other. second.elsewhere q other ∙ first.elsewhere q other;
          world = refl;
        })

-- From a tile with a stack, what is asked for is taken.
pub take_from_ground_lem :
    (g : Game) (at : Position) (i want : ℕ) (stackable : Bool) {st : TileStack}
    → merged_stack g at ≡ some st
    → (g' : Game) × (take_from_ground g at i want stackable
        ≡ some ((take_units st i want stackable).0, g'))
      × Placed g at (take_units st i want stackable).1 g'
unfolding take_from_ground
take_from_ground_lem g at i want stackable {st} e =
    let (g1, copied, how) = materialize_lem g at e in
    let st' = (take_units st i want stackable).1 in
    (put_stack g1 at st', rw (copied, take_from_ground) refl, written-Placed g g1 at st st' how)

-- To a tile with a stack, what is given is added.
pub add_to_ground_front_lem :
    (g : Game) (at : Position) (sid moved : ℕ) (item : WireItem) (stackable : Bool) {st : TileStack}
    → merged_stack g at ≡ some st
    → (g' : Game) × (add_to_ground_front g at sid moved item stackable
        ≡ some ((add_units st sid moved item stackable).0, g'))
      × Placed g at (add_units st sid moved item stackable).1 g'
unfolding add_to_ground_front
add_to_ground_front_lem g at sid moved item stackable {st} e =
    let (g1, copied, how) = materialize_lem g at e in
    let st' = (add_units st sid moved item stackable).1 in
    (put_stack g1 at st', rw (copied, add_to_ground_front) refl, written-Placed g g1 at st st' how)

-- Only a tile with no stack cannot be taken from.
pub merged_server_id_lem :
    (g : Game) (at : Position) (i : ℕ) {sid : ℕ}
    → merged_server_id g at i ≡ some sid
    → (st : TileStack) × (merged_stack g at ≡ some st) × (get_elem? st.server_ids i ≡ some sid)
unfolding merged_server_id merged_stack tile_item_server_id Option.bind
merged_server_id_lem g at i {sid} h = elim (Option-cases (overlay g at)) [
  | inr (st, there) ↦ (st, rw (there, merged_stack) refl, rw (there, merged_server_id) at h)
  | inl absent ↦
      let h' = rw (absent, merged_server_id) at h in
      elim (Option-cases (tile_at g.chunks at)) [
        | inr (st, on_map) ↦
            (st, rw (absent, merged_stack) on_map, rw (on_map, tile_item_server_id) at h')
        | inl nothing ↦
            let no : none ≡ some sid = rw (nothing, tile_item_server_id) at h' in
            absurd (ground arith)
      ]
]

pub tile_at-merged :
    (g : Game) (at : Position) {st : TileStack}
    → tile_at g.chunks at ≡ some st
    → (st' : TileStack) × (merged_stack g at ≡ some st')
unfolding merged_stack
tile_at-merged g at {st} e = elim (Option-cases (overlay g at)) [
  | inr (st', there) ↦ (st', rw (there, merged_stack) refl)
  | inl absent ↦ (st, rw (absent, merged_stack) e)
]
