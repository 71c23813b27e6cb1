-- ===== src/World/Game/Transfer/Loss.antt =====
-- About moving an item from a container into a slot that does not take it (`do_move_container` of
-- crates/world/src/game/containers.rs).
use package.oxidia.Prelude.{
  ℕ, zero, suc, ◌-◌, ◌<◌, ◌≡◌, refl, ap, ◌∙◌, Bool, true, false, List, [], ◌∷◌, none, some, arith,
  get_elem?, set, some_injective,
}
use mathlib.Core.Option
use package.oxidia.Prelude.Assoc.{nat_eq, lookup}
use package.oxidia.Protocol.Bytes.{Bytes}
use package.oxidia.Protocol.Container.{remove_container_item}
use package.oxidia.World.Game.{Game, PlayerState, ContainerItem, OpenContainer, entry}
use package.oxidia.World.Game.Session.{push}
use package.oxidia.World.Game.Ground.{remove_at}
use package.oxidia.World.Game.Windows.{Windows, alter, change_windows}
use package.oxidia.World.Game.Windows.Handlers.{
  pop_item_from_container, close_orphaned_nested_container,
}
use package.oxidia.World.Game.Windows.Others.{
  OnlyPlayer, OnlyPlayer-trans, push-OnlyPlayer, change_windows-OnlyPlayer, orphaned-OnlyPlayer,
}
use package.oxidia.World.Game.Windows.Tree.{
  WindowsAreRanked, push-Ranked, change-Ranked, alter-KeepsParents,
  close_orphaned_nested_container-Ends,
}
use package.oxidia.World.Game.Goods.{
  contents, items_of, goods, goods-change, push-goods, orphaned-goods,
}
use package.oxidia.World.Game.SameGround.{push-SameGround, orphaned-SameGround}
use package.oxidia.World.Game.Transfer.{is_slot, slot_admits, container_to_slot}

abbrev without : ℕ → OpenContainer → OpenContainer
without slot oc = record oc { items = remove_at oc.items slot }

contents-without :
    (ws : Windows) (cid slot : ℕ) {oc : OpenContainer}
    → entry ws cid ≡ some oc
    → contents (alter cid (without slot) ws)
      ≡ set (contents ws) cid (some (remove_at oc.items slot))
unfolding alter Option.bind
contents-without [] cid slot e = absurd (ground arith)
contents-without (none ∷ ws) zero slot e = absurd (ground arith)
contents-without (some o ∷ ws) zero slot e =
    ap (λ (x : OpenContainer). some (remove_at x.items slot) ∷ contents ws) (some_injective e)
contents-without (o ∷ ws) (suc cid) slot e =
    ap (λ c. Option.map items_of o ∷ c) (contents-without ws cid slot e)

module _ (accepts : List (ℕ × Bytes) → ℕ → Bytes → Bool)
    (takes_all : (sent : List (ℕ × Bytes)) (to : ℕ) (b : Bytes) → accepts sent to b ≡ true)
    (g : Game) (id : ℕ) (p : PlayerState) (present : lookup id g.players ≡ some p) (fc fs : ℕ)
    (oc : OpenContainer) (item : ContainerItem) (opened : entry p.open_containers fc ≡ some oc)
    (there : get_elem? oc.items fs ≡ some item) where
  popped : Game
  popped =
      push accepts (change_windows id (alter fc (without fs)) g) id
        (remove_container_item fc fs none)

  pop_lem : pop_item_from_container accepts g id fc fs ≡ some (item, popped)
  unfolding pop_item_from_container popped Option.bind
  pop_lem = rw (present, opened, there) refl

  popped-goods :
      goods popped id
      ≡ some (record {
        slots = p.inventory;
        held = set (contents p.open_containers) fc (some (remove_at oc.items fs));
      })
  unfolding popped
  popped-goods =
      push-goods accepts takes_all id _ id (remove_container_item fc fs none)
      ∙ goods-change g id (alter fc (without fs)) p present
      ∙ ap (λ c. some (record { slots = p.inventory; held = c }))
          (contents-without p.open_containers fc fs opened)

  popped-item_meta : popped.item_meta ≡ g.item_meta
  unfolding popped
  popped-item_meta =
      (push-SameGround accepts (change_windows id (alter fc (without fs)) g) id
        (remove_container_item fc fs none)).item_meta_same

  popped-Ranked :
      (rank : ℕ → ℕ) → WindowsAreRanked accepts rank id g → WindowsAreRanked accepts rank id popped
  unfolding popped
  popped-Ranked rank r =
      push-Ranked accepts rank id (change_windows id (alter fc (without fs)) g)
        (remove_container_item fc fs none)
        (change-Ranked accepts rank id g (alter fc (without fs))
          (alter-KeepsParents accepts rank id fc (without fs) (λ o. refl)) r)

  popped-OnlyPlayer : OnlyPlayer id g popped
  unfolding popped
  popped-OnlyPlayer =
      let h = change_windows id (alter fc (without fs)) g in
      OnlyPlayer-trans accepts takes_all id g h popped
        (change_windows-OnlyPlayer accepts takes_all id g (alter fc (without fs)))
        (push-OnlyPlayer accepts takes_all id h id (remove_container_item fc fs none))

  -- The window and the rest of the handler.
  rest_lem :
      (fuel inv_slot : ℕ) (g2 : Game)
      → is_slot inv_slot ≡ true
      → entry p.inventory (inv_slot - 1) ≡ none
      → slot_admits (g.item_meta item.server_id) inv_slot ≡ false
      → close_orphaned_nested_container accepts fuel popped id fc fs ≡ some g2
      → container_to_slot accepts fuel g id fc fs inv_slot ≡ some g2
  unfolding container_to_slot
  rest_lem fuel inv_slot g2 slot empty unfit closed =
      let same = orphaned-SameGround accepts fuel popped id fc fs g2 closed in
      let unfit' : slot_admits (g2.item_meta item.server_id) inv_slot ≡ false =
        rw (same.item_meta_same, popped-item_meta) unfit in
      rw (slot, container_to_slot, present, empty, pop_lem, closed) (rw unfit' refl)

  -- An item of a container that is moved to an empty slot which does not admit it is lost: the request
  -- ends, the item is taken from the container, the player has otherwise in his slots and containers
  -- what he had, and nothing else of the game differs but the packets: no tile, no creature, no other
  -- player, nothing that is saved. This is where the sessions take all packets, every window has a
  -- lower rank than the one it was opened from, and the fuel is above all ranks.
  pub container_to_slot-loss :
      (rank : ℕ → ℕ) (fuel inv_slot : ℕ)
      → ((c : ℕ) → rank c < fuel)
      → WindowsAreRanked accepts rank id g
      → is_slot inv_slot ≡ true
      → entry p.inventory (inv_slot - 1) ≡ none
      → slot_admits (g.item_meta item.server_id) inv_slot ≡ false
      → (g' : Game) × (container_to_slot accepts fuel g id fc fs inv_slot ≡ some g')
        × (goods g' id
            ≡ some (record {
              slots = p.inventory;
              held = set (contents p.open_containers) fc (some (remove_at oc.items fs));
            }))
        × OnlyPlayer id g g'
  container_to_slot-loss rank fuel inv_slot enough r slot empty unfit =
      let (g', closed, last) =
        close_orphaned_nested_container-Ends accepts rank id fuel popped fc fs enough
          (popped-Ranked rank r) in
      (
        g',
        rest_lem fuel inv_slot g' slot empty unfit closed,
        orphaned-goods accepts takes_all id fuel popped fc fs g' closed ∙ popped-goods,
        OnlyPlayer-trans accepts takes_all id g popped g' popped-OnlyPlayer
            (orphaned-OnlyPlayer accepts takes_all id fuel popped fc fs g' closed),
      )
