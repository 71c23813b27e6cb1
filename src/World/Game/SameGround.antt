-- ===== src/World/Game/SameGround.antt =====
-- About what the packets and the closing of windows leave on the ground.
use package.oxidia.Prelude.{
  ℕ, zero, suc, map, some_injective, bind-some, map-some, ◌+◌, ◌≡◌, refl, ap, ◌∙◌, subst, inl, inr,
  Bool, true, false, List, [], ◌∷◌, Option, none, some, arith, Option-cases, length, min, get_elem?,
}
use mathlib.Core.Option
use package.oxidia.Protocol.Bytes.{Bytes}
use package.oxidia.Protocol.MapDescription.{WireItem}
use package.oxidia.Prelude.Assoc.{nat_eq, lookup}
use package.oxidia.World.Position.{Position}
use package.oxidia.World.Map.Tiles.{TileStack, or_else}
use package.oxidia.World.Game.{Game}
use package.oxidia.World.Game.View.{creatures_on, overlay}
use package.oxidia.World.Game.Session.{push, broadcast_dest, broadcast_source}
use package.oxidia.World.Game.Frame.{Kept, Kept-refl, Kept-trans, push-Kept, push_all-Kept}
use package.oxidia.World.Game.Ground.{add_units}
use package.oxidia.World.Game.Ground.Merged.{merged_stack, Placed, add_to_ground_front_lem}
use package.oxidia.World.Game.Windows.{
  Windows, change_windows, windows_of, alter, orphan, lower_slot, with_source, close_window,
}
use package.oxidia.World.Game.Windows.Handlers.{
  close_each, close_container_tree, close_orphaned_nested_container, auto_close_ground_containers,
}
use package.oxidia.World.Game.Transfer.{show, place_on_ground}

-- Nothing on the ground differs, nor what is known of the items.
pub record SameGround (g g' : Game) : Type 0 where
  pub dynamic_same : g'.dynamic ≡ g.dynamic
  pub chunks_same : g'.chunks ≡ g.chunks
  pub item_meta_same : g'.item_meta ≡ g.item_meta

pub SameGround-refl : (g : Game) → SameGround g g
SameGround-refl g = record { dynamic_same = refl; chunks_same = refl; item_meta_same = refl }

pub SameGround-trans : (f g h : Game) → SameGround f g → SameGround g h → SameGround f h
SameGround-trans f g h a b = record {
  dynamic_same = b.dynamic_same ∙ a.dynamic_same;
  chunks_same = b.chunks_same ∙ a.chunks_same;
  item_meta_same = b.item_meta_same ∙ a.item_meta_same;
}

pub Kept-SameGround : (g g' : Game) → Kept g g' → SameGround g g'
Kept-SameGround g g' k = record {
  dynamic_same = ap (λ (s : Game). s.dynamic) k.world;
  chunks_same = ap (λ (s : Game). s.chunks) k.world;
  item_meta_same = ap (λ (s : Game). s.item_meta) k.world;
}

pub SameGround-merged :
    (g g' : Game) → SameGround g g' → (q : Position) → merged_stack g' q ≡ merged_stack g q
unfolding merged_stack
SameGround-merged g g' s q = rw (s.dynamic_same, s.chunks_same) refl

pub windows_SameGround :
    (g : Game) (id : ℕ) (f : Windows → Windows) → SameGround g (change_windows id f g)
windows_SameGround g id f = record {
  dynamic_same = refl;
  chunks_same = refl;
  item_meta_same = refl;
}

module _ (accepts : List (ℕ × Bytes) → ℕ → Bytes → Bool) where
  pub push-SameGround : (g : Game) (id : ℕ) (b : Bytes) → SameGround g (push accepts g id b)
  push-SameGround g id b = Kept-SameGround g _ (push-Kept accepts g id b)

  pub broadcast_dest-Kept :
      (g : Game) (at : Position) (sp : ℕ) (item : WireItem) (b : Bool)
      → Kept g (broadcast_dest accepts g at sp item b)
  unfolding broadcast_dest
  broadcast_dest-Kept g at sp item b = search push_all-Kept

  pub broadcast_source-Kept :
      (g : Game) (at : Position) (sp : ℕ) (gone : Bool) (i : ℕ)
      → Kept g (broadcast_source accepts g at sp gone i)
  unfolding broadcast_source
  broadcast_source-Kept g at sp true i = search push_all-Kept
  broadcast_source-Kept g at sp false i =
      elim (Option-cases (Option.bind (overlay g at) (λ st. get_elem? st.items i))) [
        | inl nothing ↦ rw (nothing, broadcast_source) (Kept-refl g)
        | inr (item, there) ↦ rw (there, broadcast_source) (search push_all-Kept)
      ]

  pub close_each-SameGround :
      (close : Game → ℕ → Option Game)
      (keeps : (g : Game) (c : ℕ) (h : Game) → close g c ≡ some h → SameGround g h) (cs : List ℕ)
      (g h : Game)
      → close_each close cs g ≡ some h
      → SameGround g h
  unfolding close_each
  close_each-SameGround close keeps [] g h e =
      subst (SameGround g) (some_injective e) (SameGround-refl g)
  close_each-SameGround close keeps (c ∷ cs) g h e =
      let (g1, first, rest) = bind-some (close g c) (close_each close cs) e in
      SameGround-trans g g1 h (keeps g c g1 first) (close_each-SameGround close keeps cs g1 h rest)

  pub close_container_tree-SameGround :
      (fuel : ℕ) (id : ℕ) (g : Game) (cid : ℕ) (h : Game)
      → close_container_tree accepts fuel g id cid ≡ some h
      → SameGround g h
  unfolding close_container_tree
  close_container_tree-SameGround zero id g cid h e = absurd (ground arith)
  close_container_tree-SameGround (suc fuel) id g cid h e = elim (Option-cases (windows_of g id)) [
    | inl absent ↦
        subst (SameGround g) (some_injective (rw (absent, close_container_tree) at e))
          (SameGround-refl g)
    | inr (ws, there) ↦
        let e' = rw (there, close_container_tree) at e in
        let (g1, below, last) = map-some _ _ e' in
        SameGround-trans g g1 h
          (close_each-SameGround (λ k c. close_container_tree accepts fuel k id c)
            (λ k c l f. close_container_tree-SameGround fuel id k c l f) _ g g1 below)
          (subst (SameGround g1) last (
            SameGround-trans g1 _ _ (windows_SameGround g1 id (alter cid close_window))
              (push-SameGround _ id _)))
  ]

  pub orphaned-SameGround :
      (fuel : ℕ) (g : Game) (id parent removed : ℕ) (h : Game)
      → close_orphaned_nested_container accepts fuel g id parent removed ≡ some h
      → SameGround g h
  unfolding close_orphaned_nested_container
  orphaned-SameGround fuel g id parent removed h e =
      let f = map (Option.map (with_source (lower_slot parent removed))) in
      elim (Option-cases (Option.bind (windows_of g id) (orphan parent removed 0))) [
        | inl nobody ↦
            subst (SameGround g)
              (some_injective (rw (nobody, close_orphaned_nested_container) at e))
              (windows_SameGround g id f)
        | inr (c, there) ↦
            SameGround-trans g (change_windows id f g) h (windows_SameGround g id f) (
              close_container_tree-SameGround fuel id (change_windows id f g) c h
                (rw (there, close_orphaned_nested_container) at e))
      ]

  pub auto_close-SameGround :
      (fuel : ℕ) (g : Game) (id : ℕ) (h : Game)
      → auto_close_ground_containers accepts fuel g id ≡ some h
      → SameGround g h
  unfolding auto_close_ground_containers
  auto_close-SameGround fuel g id h e = elim (Option-cases (lookup id g.players)) [
    | inl absent ↦
        subst (SameGround g) (some_injective (rw (absent, auto_close_ground_containers) at e))
          (SameGround-refl g)
    | inr (p, there) ↦
        close_each-SameGround (λ k c. close_container_tree accepts fuel k id c)
          (λ k c l f. close_container_tree-SameGround fuel id k c l f) _ g h
          (rw (there, auto_close_ground_containers) at e)
  ]

  show-Kept :
      (at : Position) (s : ℕ) (b : Bool) (o : Option WireItem) (g : Game)
      → Kept g (show accepts at s b o g)
  show-Kept at s b none g = Kept-refl g
  show-Kept at s b (some item) g = broadcast_dest-Kept g at s item b

  -- On a tile with a stack the item is added, and no other tile changes.
  pub place_on_ground_lem :
      (g : Game) (to : Position) (sid moved : ℕ) (item : WireItem) (stackable : Bool)
      {st : TileStack}
      → merged_stack g to ≡ some st
      → (g1 g' : Game) × (place_on_ground accepts g to sid moved item stackable ≡ some g')
        × Placed g to (add_units st sid moved item stackable).1 g1
        × Kept g1 g'
  unfolding place_on_ground
  place_on_ground_lem g to sid moved item stackable {st} e =
      let (g1, added, placed) = add_to_ground_front_lem g to sid moved item stackable e in
      let shown = (add_units st sid moved item stackable).0 in
      let s =
        min
          (or_else (Option.map (λ (x : TileStack). x.pre_creature_len) (overlay g1 to)) 0
            + length (creatures_on g to))
          9 in
      (
        g1,
        show accepts to s false shown.added (show accepts to s true shown.merged g1),
        rw (added, place_on_ground) refl,
        placed,
        Kept-trans g1 _ _ (show-Kept to s true shown.merged g1)
            (show-Kept to s false shown.added _),
      )
