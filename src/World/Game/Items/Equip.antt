-- ===== src/World/Game/Items/Equip.antt =====
-- About a request to move a thing to or from a slot (`do_move_inventory` of
-- crates/world/src/game/items.rs): it ends, and what is worn still fits.
use package.oxidia.Prelude.{
  ℕ, zero, suc, ◌-◌, ◌≡◌, refl, subst, inl, inr, Bool, true, false, not, List, [], ◌∷◌, Option,
  some, arith, if◌then◌else◌, max, Option-cases, Bool-cases, some_injective, bind-some, map-some,
}
use package.oxidia.Prelude.Assoc.{nat_eq, lookup}
use package.oxidia.Protocol.Bytes.{Bytes}
use package.oxidia.Protocol.Container.{close_container}
use package.oxidia.World.Position.{Position}
use package.oxidia.World.Game.{Game, ItemMeta, InvItem, ContainerSource, entry}
use package.oxidia.World.Game.View.{merged_server_id}
use package.oxidia.World.Game.Frame.{push-Kept}
use package.oxidia.World.Game.Session.{push, broadcast_source, push_cannot_move, as_bytes}
use package.oxidia.World.Game.Ground.{take_from_ground}
use package.oxidia.World.Game.Slots.{
  Keeps, Keeps-refl, Keeps-trans, Keeps-adjust, Kept-Keeps, take_from_ground-Keeps,
}
use package.oxidia.World.Game.SameGround.{broadcast_source-Kept}
use package.oxidia.World.Game.Windows.{
  Windows, in_close_range, windows_of, alter, close_window, change_windows, with_windows,
  rekey_container_source, rekey,
}
use package.oxidia.World.Game.Windows.Handlers.{
  close_each, close_container_tree, auto_close_ground_containers,
}
use package.oxidia.World.Game.Transfer.{is_slot, slot_admits, put_in_slot, source_index}
use package.oxidia.World.Game.Items.{cannot_equip, equip_item, equip}
use package.oxidia.World.Game.Items.Fitted.{
  inventory_of, FittedSlots, Keeps-Fitted, refused_Fitted, put_in_slot-Fitted,
}

pub windows_kept :
    (g : Game) (id : ℕ) (f : Windows → Windows) → Keeps inventory_of g (change_windows id f g)
windows_kept g id f = Keeps-adjust inventory_of g id (with_windows f) (λ p. refl)

-- The two checks of an item.
checked_Fitted :
    (moves fits : Bool) (a b c : Game)
    → FittedSlots a
    → FittedSlots b
    → (fits ≡ true → FittedSlots c)
    → FittedSlots (if not moves then a else if not fits then b else c)
checked_Fitted false fits a b c ra rb rc = ra
checked_Fitted true false a b c ra rb rc = rb
checked_Fitted true true a b c ra rb rc = rc refl

module _ (accepts : List (ℕ × Bytes) → ℕ → Bytes → Bool) where
  push_kept : (g : Game) (id : ℕ) (b : Bytes) → Keeps inventory_of g (push accepts g id b)
  push_kept g id b =
      Kept-Keeps inventory_of (λ p ks. refl) (λ p l. refl) accepts g _ (push-Kept accepts g id b)

  close_each-Keeps :
      (close : Game → ℕ → Option Game)
      (keeps : (g : Game) (c : ℕ) (h : Game) → close g c ≡ some h → Keeps inventory_of g h)
      (cs : List ℕ) (g h : Game)
      → close_each close cs g ≡ some h
      → Keeps inventory_of g h
  unfolding close_each
  close_each-Keeps close keeps [] g h e =
      subst (Keeps inventory_of g) (some_injective e) (Keeps-refl inventory_of g)
  close_each-Keeps close keeps (c ∷ cs) g h e =
      let (g1, first, rest) = bind-some (close g c) (close_each close cs) e in
      Keeps-trans inventory_of g g1 h (keeps g c g1 first)
        (close_each-Keeps close keeps cs g1 h rest)

  close_container_tree-Keeps :
      (fuel id : ℕ) (g : Game) (cid : ℕ) (h : Game)
      → close_container_tree accepts fuel g id cid ≡ some h
      → Keeps inventory_of g h
  unfolding close_container_tree
  close_container_tree-Keeps zero id g cid h e = absurd (ground arith)
  close_container_tree-Keeps (suc fuel) id g cid h e = elim (Option-cases (windows_of g id)) [
    | inl absent ↦
        subst (Keeps inventory_of g) (some_injective (rw (absent, close_container_tree) at e))
          (Keeps-refl inventory_of g)
    | inr (ws, there) ↦
        let (g1, below, last) = map-some _ _ (rw (there, close_container_tree) at e) in
        Keeps-trans inventory_of g g1 h
          (close_each-Keeps (λ k c. close_container_tree accepts fuel k id c)
            (λ k c l f. close_container_tree-Keeps fuel id k c l f) _ g g1 below)
          (subst (Keeps inventory_of g1) last (
            Keeps-trans inventory_of g1 _ _ (windows_kept g1 id (alter cid close_window))
              (push_kept _ id (close_container cid))))
  ]

  pub auto_close-Keeps :
      (fuel : ℕ) (g : Game) (id : ℕ) (h : Game)
      → auto_close_ground_containers accepts fuel g id ≡ some h
      → Keeps inventory_of g h
  unfolding auto_close_ground_containers
  auto_close-Keeps fuel g id h e = elim (Option-cases (lookup id g.players)) [
    | inl absent ↦
        subst (Keeps inventory_of g)
          (some_injective (rw (absent, auto_close_ground_containers) at e))
          (Keeps-refl inventory_of g)
    | inr (p, there) ↦
        close_each-Keeps (λ k c. close_container_tree accepts fuel k id c)
          (λ k c l f. close_container_tree-Keeps fuel id k c l f) _ g h
          (rw (there, auto_close_ground_containers) at e)
  ]

  equip_item-Fitted :
      (g : Game) (id : ℕ) (from : Position) (sp i sid : ℕ) (meta : ItemMeta) (slot count : ℕ)
      → is_slot slot ≡ true
      → g.item_meta sid ≡ some meta
      → slot_admits (some meta) slot ≡ true
      → FittedSlots g
      → FittedSlots (equip_item accepts g id from sp i sid meta slot count)
  unfolding equip_item rekey_container_source
  equip_item-Fitted g id from sp i sid meta slot count valid known fit r =
      let want = if meta.stackable then max count 1 else 1 in
      elim (Option-cases (take_from_ground g from i want meta.stackable)) [
        | inl nothing ↦ rw (nothing, equip_item) r
        | inr ((taken, g1), took) ↦
            let g2 = broadcast_source accepts g1 from sp taken.removed_fully i in
            let item : InvItem = record {
              server_id = sid;
              client_id = meta.client_id;
              count = if meta.stackable then some taken.moved else taken.original_count;
              animated = meta.animated;
            } in
            let kept : Keeps inventory_of g g2 =
              Keeps-trans inventory_of g g1 g2
                (take_from_ground-Keeps inventory_of g g1 from i want meta.stackable taken took)
                (Kept-Keeps inventory_of (λ p ks. refl) (λ p l. refl) accepts g1 g2
                  (broadcast_source-Kept accepts g1 from sp taken.removed_fully i)) in
            let fits : slot_admits (g2.item_meta sid) slot ≡ true =
              rw (kept.item_meta_same, known) fit in
            let worn =
              put_in_slot-Fitted accepts g2 id slot (some item) valid
                (λ x e.
                  subst (λ (y : InvItem). slot_admits (g2.item_meta y.server_id) slot ≡ true)
                    (some_injective e) fits)
                (Keeps-Fitted g g2 kept r) in
            rw (took, equip_item)
              (Keeps-Fitted (put_in_slot accepts g2 id slot (some item)) _
                (windows_kept (put_in_slot accepts g2 id slot (some item)) id
                  (rekey (ContainerSource.on_ground from) (ContainerSource.slot slot)))
                worn)
      ]

  pub equip-Fitted :
      (g : Game) (id : ℕ) (from : Position) (sp slot count : ℕ)
      → is_slot slot ≡ true
      → FittedSlots g
      → FittedSlots (equip accepts g id from sp slot count)
  unfolding equip
  equip-Fitted g id from sp slot count valid r = elim (Option-cases (lookup id g.players)) [
    | inl absent ↦ rw (absent, equip) r
    | inr (p, there) ↦ elim (Option-cases (entry p.inventory (slot - 1))) [
      | inr (it, worn) ↦ rw (there, equip, worn) (refused_Fitted accepts g id _ r)
      | inl empty ↦ elim (Bool-cases (in_close_range p.position from)) [
        | inr far ↦ rw (there, equip, empty, far) (refused_Fitted accepts g id _ r)
        | inl near ↦ elim (Option-cases (source_index g from sp)) [
          | inl creature ↦ rw (there, equip, empty, near, creature) r
          | inr (i, found) ↦ elim (Option-cases (merged_server_id g from i)) [
            | inl nothing ↦ rw (there, equip, empty, near, found, nothing) r
            | inr (sid, seen) ↦ elim (Option-cases (g.item_meta sid)) [
              | inl unknown ↦ rw (there, equip, empty, near, found, seen, unknown) r
              | inr (meta, known) ↦
                  rw (there, equip, empty, near, found, seen, known)
                    (checked_Fitted meta.moveable (slot_admits (some meta) slot)
                      (push_cannot_move accepts g id (as_bytes "You cannot move this object."))
                      (push_cannot_move accepts g id cannot_equip)
                      (equip_item accepts g id from sp i sid meta slot count)
                      (refused_Fitted accepts g id (as_bytes "You cannot move this object.") r)
                      (refused_Fitted accepts g id cannot_equip r)
                      (λ fit.
                        equip_item-Fitted g id from sp i sid meta slot count valid known fit r))
            ]
          ]
        ]
      ]
    ]
  ]
