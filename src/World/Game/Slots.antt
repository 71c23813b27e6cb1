-- ===== src/World/Game/Slots.antt =====
-- What the handlers leave of a player's slots and windows (crates/world/src/game): a field of the
-- players that neither packets nor light nor the ground change.
use package.oxidia.Prelude.{
  ℕ, ◌≡◌, refl, sym, ap, ◌∙◌, subst, inl, inr, Bool, true, false, List, Option, none, some, arith,
  if◌then◌else◌, ◌==◌, ◌-◌, Option-cases, some_injective, map-some,
}
use mathlib.Core.Option
use package.oxidia.Prelude.Assoc.{nat_eq, lookup, adjust, lookup-adjust}
use package.oxidia.Protocol.Bytes.{Bytes}
use package.oxidia.Protocol.EnterWorld.{creature_light}
use package.oxidia.Protocol.MapDescription.{WireItem}
use package.oxidia.World.Position.{Position}
use package.oxidia.World.Map.Tiles.{TileStack, tile_at}
use package.oxidia.World.Game.{Game, PlayerState, entry}
use package.oxidia.World.Game.View.{overlay, spectators}
use package.oxidia.World.Game.Session.{push, push_inventory_slot}
use package.oxidia.World.Game.Frame.{Kept, KeptPlayer, push-Kept, push_all-Kept}
use package.oxidia.World.Game.Light.{
  brightest, set_light, broadcast_creature_light, recalc_creature_light,
}
use package.oxidia.World.Game.Ground.{
  Taken, Shown, materialize, take_from_ground, add_to_ground_front,
}
use package.oxidia.World.Game.SameGround.{broadcast_dest-Kept}
use package.oxidia.World.Game.Transfer.{place_on_ground, show}

abbrev pub field_of {ℓ} : {A : Type ℓ} → (PlayerState → A) → Game → ℕ → Option A
field_of field g id = Option.map field (lookup id g.players)

-- A player who is still there has the field that he had, and items are what they were.
pub record Keeps {ℓ} {A : Type ℓ} (field : PlayerState → A) (g g' : Game) : Type ℓ where
  pub item_meta_same : g'.item_meta ≡ g.item_meta
  pub fields : (id : ℕ) (a : A) → field_of field g' id ≡ some a → field_of field g id ≡ some a

module _ {ℓ} {A : Type ℓ} (field : PlayerState → A) where
  pub Keeps-refl : (g : Game) → Keeps field g g
  Keeps-refl g = record { item_meta_same = refl; fields = λ id a e. e }

  pub Keeps-trans : (g h k : Game) → Keeps field g h → Keeps field h k → Keeps field g k
  Keeps-trans g h k a b = record {
    item_meta_same = b.item_meta_same ∙ a.item_meta_same;
    fields = λ id x e. a.fields id x (b.fields id x e);
  }

  pub Keeps-adjust :
      (g : Game) (id : ℕ) (f : PlayerState → PlayerState)
      → ((p : PlayerState) → field (f p) ≡ field p)
      → Keeps field g (record g { players = adjust id f g.players })
  Keeps-adjust g id f same = record {
    item_meta_same = refl;
    fields = λ j a e.
        either (lookup j g.players) (id == j) a
          (sym (ap (Option.map field) (lookup-adjust id j f g.players)) ∙ e);
  }
    where
      either :
          (o : Option PlayerState) (hit : Bool) (a : A)
          → Option.map field (if hit then Option.map f o else o) ≡ some a
          → Option.map field o ≡ some a
      either none true a e = e
      either none false a e = e
      either (some p) true a e = ap some (sym (same p)) ∙ e
      either (some p) false a e = e

  pub Keeps-dynamic :
      (g : Game) (ds : List (Position × TileStack)) → Keeps field g (record g { dynamic = ds })
  Keeps-dynamic g ds = record { item_meta_same = refl; fields = λ id a e. e }

  materialize-Keeps :
      (g h : Game) (at : Position) (st : TileStack)
      → materialize g at ≡ some (st, h)
      → Keeps field g h
  unfolding materialize
  materialize-Keeps g h at st e = elim (Option-cases (overlay g at)) [
    | inr (old, there) ↦
        let same = some_injective (rw (there, materialize) at e) in
        subst (Keeps field g) (ap (λ x. x.1) same) (Keeps-refl g)
    | inl nothing ↦
        let (s, found, last) = map-some _ (tile_at g.chunks at) (rw (nothing, materialize) at e) in
        subst (Keeps field g) (ap (λ x. x.1) last) (Keeps-dynamic g _)
  ]

  pub take_from_ground-Keeps :
      (g h : Game) (at : Position) (i want : ℕ) (stackable : Bool) (taken : Taken)
      → take_from_ground g at i want stackable ≡ some (taken, h)
      → Keeps field g h
  unfolding take_from_ground
  take_from_ground-Keeps g h at i want stackable taken e = elim (Option-cases (materialize g at)) [
    | inl nothing ↦ let no = rw (nothing, take_from_ground) at e in absurd (ground arith)
    | inr ((st, g1), found) ↦
        let same = some_injective (rw (found, take_from_ground) at e) in
        Keeps-trans g g1 h (materialize-Keeps g g1 at st found)
          (subst (Keeps field g1) (ap (λ x. x.1) same) (Keeps-dynamic g1 _))
  ]

  add_to_ground_front-Keeps :
      (g h : Game) (at : Position) (sid moved : ℕ) (item : WireItem) (stackable : Bool)
      (shown : Shown)
      → add_to_ground_front g at sid moved item stackable ≡ some (shown, h)
      → Keeps field g h
  unfolding add_to_ground_front
  add_to_ground_front-Keeps g h at sid moved item stackable shown e =
      elim (Option-cases (materialize g at)) [
        | inl nothing ↦ let no = rw (nothing, add_to_ground_front) at e in absurd (ground arith)
        | inr ((st, g1), found) ↦
            let same = some_injective (rw (found, add_to_ground_front) at e) in
            Keeps-trans g g1 h (materialize-Keeps g g1 at st found)
              (subst (Keeps field g1) (ap (λ x. x.1) same) (Keeps-dynamic g1 _))
      ]

-- The field does not depend on what the player knows or on his light.
module _ {ℓ} {A : Type ℓ} (field : PlayerState → A)
    (on_known : (p : PlayerState) (ks : List ℕ) → field (record p { known = ks }) ≡ field p)
    (on_light : (p : PlayerState) (l : ℕ × ℕ) → field (set_light l p) ≡ field p)
    (accepts : List (ℕ × Bytes) → ℕ → Bytes → Bool) where
  pub Kept-Keeps : (g h : Game) → Kept g h → Keeps field g h
  Kept-Keeps g h k = record {
    item_meta_same = ap (λ (s : Game). s.item_meta) k.world;
    fields = λ id a e. stays (lookup id g.players) (lookup id h.players) a (k.people id) e;
  }
    where
      stays :
          (o o' : Option PlayerState) (a : A)
          → KeptPlayer o o'
          → Option.map field o' ≡ some a
          → Option.map field o ≡ some a
      stays o none a k e = absurd (ground arith)
      stays none (some q) a k e = elim k [ ]
      stays (some p) (some q) a (ks, same) e = ap some (sym (ap field same ∙ on_known p ks)) ∙ e

  broadcast_creature_light-Keeps :
      (g : Game) (id : ℕ) → Keeps field g (broadcast_creature_light accepts g id)
  unfolding broadcast_creature_light
  broadcast_creature_light-Keeps g id = elim (Option-cases (lookup id g.players)) [
    | inl absent ↦ rw (absent, broadcast_creature_light) (Keeps-refl field g)
    | inr (p, there) ↦
        let pkt = creature_light id p.light_level p.light_color in
        let h = push accepts g id pkt in
        rw (there, broadcast_creature_light)
          (Keeps-trans field _ _ _ (Kept-Keeps g h (push-Kept accepts g id pkt))
            (Kept-Keeps h _ (push_all-Kept accepts (spectators h p.position id) pkt h)))
  ]

  pub recalc_creature_light-Keeps :
      (g : Game) (id : ℕ) → Keeps field g (recalc_creature_light accepts g id)
  unfolding recalc_creature_light
  recalc_creature_light-Keeps g id = elim (Option-cases (lookup id g.players)) [
    | inl absent ↦ rw (absent, recalc_creature_light) (Keeps-refl field g)
    | inr (p, there) ↦
        let light = brightest g.item_meta p.inventory (0, 0) in
        rw (there, recalc_creature_light)
          (Keeps-trans field _ _ _
            (Keeps-adjust field g id (set_light light) (λ q. on_light q light))
            (broadcast_creature_light-Keeps
              (record g { players = adjust id (set_light light) g.players }) id))
  ]

  pub push_inventory_slot-Keeps :
      (g : Game) (id slot : ℕ) → Keeps field g (push_inventory_slot accepts g id slot)
  unfolding push_inventory_slot
  push_inventory_slot-Keeps g id slot = elim (Option-cases (lookup id g.players)) [
    | inl absent ↦ rw (absent, push_inventory_slot) (Keeps-refl field g)
    | inr (p, there) ↦ elim (Option-cases (entry p.inventory (slot - 1))) [
      | inl empty ↦
          rw (there, push_inventory_slot, empty) (Kept-Keeps g _ (push-Kept accepts g id _))
      | inr (it, worn) ↦
          rw (there, push_inventory_slot, worn) (Kept-Keeps g _ (push-Kept accepts g id _))
    ]
  ]

  show-Keeps :
      (at : Position) (s : ℕ) (b : Bool) (o : Option WireItem) (g : Game)
      → Keeps field g (show accepts at s b o g)
  show-Keeps at s b none g = Keeps-refl field g
  show-Keeps at s b (some item) g = Kept-Keeps g _ (broadcast_dest-Kept accepts g at s item b)

  pub place_on_ground-Keeps :
      (g h : Game) (at : Position) (sid moved : ℕ) (item : WireItem) (stackable : Bool)
      → place_on_ground accepts g at sid moved item stackable ≡ some h
      → Keeps field g h
  unfolding place_on_ground
  place_on_ground-Keeps g h at sid moved item stackable e =
      elim (Option-cases (add_to_ground_front g at sid moved item stackable)) [
        | inl nothing ↦ let no = rw (nothing, place_on_ground) at e in absurd (ground arith)
        | inr ((shown, g1), added) ↦
            let same = some_injective (rw (added, place_on_ground) at e) in
            Keeps-trans field g g1 h
              (add_to_ground_front-Keeps field g g1 at sid moved item stackable shown added)
              (subst (Keeps field g1) same (
                Keeps-trans field g1 _ _ (show-Keeps at _ true shown.merged g1)
                  (show-Keeps at _ false shown.added _)))
      ]
