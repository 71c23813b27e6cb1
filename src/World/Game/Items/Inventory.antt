-- ===== src/World/Game/Items/Inventory.antt =====
-- About a request to move a thing to or from a slot (`do_move_inventory` of
-- crates/world/src/game/items.rs), with what it throws on the ground: it ends, and what is worn fits.
use package.oxidia.Prelude.{
  ℕ, ◌-◌, ◌<◌, ◌≡◌, refl, ◌⊎◌, inl, inr, Bool, true, List, Option, none, some, arith, ◌==◌,
  Option-cases, Bool-cases,
}
use package.oxidia.Prelude.Assoc.{nat_eq, lookup}
use package.oxidia.Protocol.Bytes.{Bytes}
use package.oxidia.Protocol.MapDescription.{WireItem}
use package.oxidia.World.Position.{Position}
use package.oxidia.World.Map.Sight.{Floats}
use package.oxidia.World.Game.{Game, PlayerState, InvItem, ContainerSource, entry}
use package.oxidia.World.Game.Session.{push_inventory_slot}
use package.oxidia.World.Game.Ground.{count_of}
use package.oxidia.World.Game.Slots.{
  Keeps, Keeps-trans, Keeps-adjust, place_on_ground-Keeps, push_inventory_slot-Keeps,
  recalc_creature_light-Keeps,
}
use package.oxidia.World.Game.Windows.{Windows, rekey, rekey_container_source}
use package.oxidia.World.Game.Windows.Handlers.{auto_close_ground_containers}
use package.oxidia.World.Game.Windows.Tree.{WindowsAreRanked}
use package.oxidia.World.Game.Transfer.{
  is_slot, set_slot, change_slot, put_in_slot, place_on_ground, refusal, is_stackable,
}
use package.oxidia.World.Game.Items.{Endpoint, endpoint, unequip, do_move_inventory}
use package.oxidia.World.Game.Items.Ends.{rekey-Ranked, auto_close-Ends}
use package.oxidia.World.Game.Items.Fitted.{
  inventory_of, FittedSlots, Keeps-Fitted, refused_Fitted, put_in_slot-Fitted, swap_slots-Fitted,
}
use package.oxidia.World.Game.Items.Equip.{windows_kept, auto_close-Keeps, equip-Fitted}

abbrev open_of : PlayerState → Windows
open_of p = p.open_containers

endpoint_cases :
    (p : Position)
    → (endpoint p ≡ Endpoint.refused)
      ⊎ ((endpoint p ≡ Endpoint.on_map)
          ⊎ ((slot : ℕ) × (endpoint p ≡ Endpoint.in_slot slot) × (is_slot slot ≡ true)))
unfolding endpoint
endpoint_cases p = elim (Bool-cases (p.x == 0xffff)) [
  | inr ground ↦ inr (inl (rw ground refl))
  | inl mine ↦ elim (Bool-cases (is_slot p.y)) [
    | inl valid ↦ inr (inr (p.y, rw (mine, valid) refl, valid))
    | inr outside ↦ inl (rw (mine, outside) refl)
  ]
]

module _ (accepts : List (ℕ × Bytes) → ℕ → Bytes → Bool) (fl : Floats) (rank : ℕ → ℕ) (id fuel : ℕ)
    (enough : (c : ℕ) → rank c < fuel) where
  -- The handler has a result, in which all that is worn fits.
  abbrev Fits : Option Game → Type 0
  Fits o = (g' : Game) × (o ≡ some g') × FittedSlots g'

  put_in_slot-windows :
      (g : Game) (slot : ℕ) (it : Option InvItem)
      → Keeps open_of g (put_in_slot accepts g id slot it)
  unfolding put_in_slot
  put_in_slot-windows g slot it =
      let g1 = change_slot id slot it g in
      let g2 = push_inventory_slot accepts g1 id slot in
      Keeps-trans open_of g g1 _ (Keeps-adjust open_of g id (set_slot slot it) (λ p. refl)) (
        Keeps-trans open_of g1 g2 _
          (push_inventory_slot-Keeps open_of (λ p ks. refl) (λ p l. refl) accepts g1 id slot)
          (recalc_creature_light-Keeps open_of (λ p ks. refl) (λ p l. refl) accepts g2 id))

  thrown-Fits :
      (g : Game) (slot : ℕ) (to : Position)
      → WindowsAreRanked accepts rank id g
      → FittedSlots g
      → Fits (
          auto_close_ground_containers accepts fuel
            (rekey_container_source g id (ContainerSource.slot slot) (ContainerSource.on_ground to))
            id)
  unfolding rekey_container_source
  thrown-Fits g slot to r f =
      let old = ContainerSource.slot slot in
      let h = rekey_container_source g id old (ContainerSource.on_ground to) in
      let (g', e, r') =
        auto_close-Ends accepts fl rank id fuel enough h
          (rekey-Ranked accepts fl rank id fuel enough g old to r) in
      let kept = windows_kept g id (rekey old (ContainerSource.on_ground to)) in
      (g', e, Keeps-Fitted h g' (auto_close-Keeps accepts fuel h id g' e) (Keeps-Fitted g h kept f))

  unequip-Fits :
      (g : Game) (slot : ℕ) (to : Position)
      → is_slot slot ≡ true
      → WindowsAreRanked accepts rank id g
      → FittedSlots g
      → Fits (unequip accepts fl fuel g id slot to)
  unfolding unequip
  unequip-Fits g slot to valid r f = elim (Option-cases (lookup id g.players)) [
    | inl absent ↦ rw (absent, unequip) (g, refl, f)
    | inr (p, there) ↦ elim (Option-cases (entry p.inventory (slot - 1))) [
      | inl empty ↦ rw (there, unequip, empty) (g, refl, f)
      | inr (it, worn) ↦ elim (Option-cases (refusal accepts fl g p.position to)) [
        | inr (text, closed) ↦
            rw (there, unequip, worn, closed) (_, refl, refused_Fitted accepts g id text f)
        | inl free ↦
            let g1 = put_in_slot accepts g id slot none in
            let f1 =
              put_in_slot-Fitted accepts g id slot none valid (λ x e. absurd (ground arith)) f in
            let item : WireItem = record {
              client_id = it.client_id;
              subtype = it.count;
              animated = it.animated;
            } in
            let stackable = is_stackable (g.item_meta it.server_id) in
            elim (Option-cases
              (place_on_ground accepts g1 to it.server_id (count_of it.count) item stackable)) [
                | inl nowhere ↦ rw (there, unequip, worn, free, nowhere) (g1, refl, f1)
                | inr (g2, placed) ↦
                    let on_slots =
                      place_on_ground-Keeps inventory_of (λ p ks. refl) (λ p l. refl) accepts g1 g2
                        to it.server_id (count_of it.count) item stackable placed in
                    let on_windows = Keeps-trans open_of g g1 g2 (put_in_slot-windows g slot none) (
                      place_on_ground-Keeps open_of (λ p ks. refl) (λ p l. refl) accepts g1 g2 to
                        it.server_id (count_of it.count) item stackable placed) in
                    rw (there, unequip, worn, free, placed)
                      (thrown-Fits g2 slot to (λ ws e. r ws (on_windows.fields id ws e))
                        (Keeps-Fitted g1 g2 on_slots f1))
              ]
      ]
    ]
  ]

  -- A request to move a thing between two slots, from the ground to a slot or from a slot to the
  -- ground ends, if every window of the player has a lower rank than the one it was opened from and
  -- the fuel is above all ranks. If before it every item that a player wears is one that its slot
  -- admits, so it is after it, for all players, on every branch and whatever the sessions take of the
  -- packets.
  pub do_move_inventory-Fitted :
      (g : Game) (from to : Position) (sp count : ℕ)
      → WindowsAreRanked accepts rank id g
      → FittedSlots g
      → (g' : Game) × (do_move_inventory accepts fl fuel g id from sp to count ≡ some g')
        × FittedSlots g'
  unfolding do_move_inventory
  do_move_inventory-Fitted g from to sp count r f = elim (endpoint_cases from) [
    | inl refused ↦ rw (refused, do_move_inventory) (g, refl, f)
    | inr (inl on_map) ↦ elim (endpoint_cases to) [
      | inl refused ↦ rw (on_map, do_move_inventory, refused) (g, refl, f)
      | inr (inl nowhere) ↦ rw (on_map, do_move_inventory, nowhere) (g, refl, f)
      | inr (inr (slot, into, valid)) ↦
          rw (on_map, do_move_inventory, into)
            (_, refl, equip-Fitted accepts g id from sp slot count valid f)
    ]
    | inr (inr (src, out, valid)) ↦ elim (endpoint_cases to) [
      | inl refused ↦ rw (out, do_move_inventory, refused) (g, refl, f)
      | inr (inl on_map) ↦ rw (out, do_move_inventory, on_map) (unequip-Fits g src to valid r f)
      | inr (inr (dst, into, good)) ↦
          rw (out, do_move_inventory, into)
            (_, refl, swap_slots-Fitted accepts g id src dst valid good f)
    ]
  ]
