-- ===== src/World/Game/Windows/Handlers.antt =====
-- The handlers of containers that send packets (crates/world/src/game/containers.rs). Closing a
-- window closes first the windows opened from it; `none` says that the fuel did not reach the end.
use package.oxidia.Prelude.{
  ℕ, zero, suc, Bool, false, not, ◌&&◌, List, [], ◌∷◌, Option, none, some, if◌then◌else◌, leb,
  length, get_elem?, set, map,
}
use mathlib.Core.Option
use package.oxidia.Prelude.Assoc.{nat_eq, lookup}
use package.oxidia.Protocol.Bytes.{Bytes}
use package.oxidia.Protocol.MapDescription.{WireItem}
use package.oxidia.Protocol.Container.{
  open_container, close_container, add_container_item, remove_container_item,
}
use package.oxidia.World.Position.{Position}
use package.oxidia.World.Map.Tiles.{or_else}
use package.oxidia.World.Game.{Game, ItemMeta, ContainerItem, ContainerSource, OpenContainer, wire}
use package.oxidia.World.Game.Ground.{remove_at}
use package.oxidia.World.Game.Session.{push}
use package.oxidia.World.Game.Windows.{
  in_close_range, filter_from, is_none, is_some_and, is_nested, has_parent, alter, close_window,
  windows_of, window, change_windows, lower_slot, raise_slot, with_source, orphan,
}

-- The calls for the children, with the function that closes one.
unfoldable pub close_each : (Game → ℕ → Option Game) → List ℕ → Game → Option Game
close_each close [] g = some g
close_each close (c ∷ rest) g = Option.bind (close g c) (close_each close rest)

abbrev pub out_of_range : Position → OpenContainer → Bool
out_of_range at oc = elim oc.source [
  | ContainerSource.on_ground p ↦ oc.is_open && not (in_close_range p at)
  | other ↦ false
]

module _ (accepts : List (ℕ × Bytes) → ℕ → Bytes → Bool) where
  unfoldable pub close_container_tree : ℕ → Game → ℕ → ℕ → Option Game
  unfolding filter_from close_each alter
  close_container_tree zero g id cid = none
  close_container_tree (suc fuel) g id cid = elim (windows_of g id) [
    | none ↦ some g
    | some ws ↦
        let children = filter_from (is_some_and (λ oc. has_parent cid oc.source)) 0 ws in
        Option.map
          (λ g'.
            push accepts (change_windows id (alter cid close_window) g') id (close_container cid))
          (close_each (λ h c. close_container_tree fuel h id c) children g)
  ]

  unfoldable pub close_orphaned_nested_container : ℕ → Game → ℕ → ℕ → ℕ → Option Game
  unfolding orphan close_container_tree lower_slot
  close_orphaned_nested_container fuel g id parent removed =
      let orphaned = Option.bind (windows_of g id) (orphan parent removed 0) in
      let g' = change_windows id (map (Option.map (with_source (lower_slot parent removed)))) g in
      elim orphaned [ none ↦ some g' | some cid ↦ close_container_tree fuel g' id cid ]

  unfoldable pub do_close_container : Game → ℕ → ℕ → Game
  unfolding alter
  do_close_container g id cid = elim (window g id cid) [
    | none ↦ g
    | some oc ↦ push accepts (change_windows id (alter cid close_window) g) id (close_container cid)
  ]

  unfoldable pub push_open_container : Game → ℕ → ℕ → Game
  push_open_container g id cid = elim (window g id cid) [
    | none ↦ g
    | some oc ↦
        let bag : WireItem = record {
          client_id = oc.client_id;
          subtype = none;
          animated =
              or_else (Option.map (λ (m : ItemMeta). m.animated) (g.item_meta oc.server_id)) false;
        } in
        push accepts g id
          (open_container cid bag oc.name oc.capacity (is_nested oc.source) (map wire oc.items))
  ]

  unfoldable pub do_up_arrow : Game → ℕ → ℕ → Game
  unfolding push_open_container
  do_up_arrow g id cid = elim (window g id cid) [
    | none ↦ g
    | some oc ↦ elim oc.source [
      | ContainerSource.nested parent_cid ps ↦
          let g' =
            if is_none (window g id parent_cid) then g else push_open_container g id parent_cid in
          push accepts (change_windows id (λ ws. set ws cid none) g') id (close_container cid)
      | other ↦ g
    ]
  ]

  unfoldable pub push_item_to_container : Game → ℕ → ℕ → ContainerItem → Game
  unfolding alter raise_slot
  push_item_to_container g id cid item = elim (window g id cid) [
    | none ↦ g
    | some oc ↦
        if leb oc.capacity (length oc.items)
        then g
        else let g' =
            change_windows id
              (λ ws.
                map (Option.map (with_source (raise_slot cid)))
                  (alter cid (λ o. record o { items = item ∷ o.items }) ws))
              g in
          if oc.is_open then push accepts g' id (add_container_item cid 0 (wire item)) else g'
  ]

  unfoldable pub pop_item_from_container : Game → ℕ → ℕ → ℕ → Option (ContainerItem × Game)
  unfolding alter remove_at
  pop_item_from_container g id cid slot =
      Option.map
        (λ item. (
          item,
          push accepts
              (change_windows id (alter cid (λ o. record o { items = remove_at o.items slot })) g)
              id (remove_container_item cid slot none),
        ))
        (Option.bind (window g id cid) (λ oc. get_elem? oc.items slot))

  unfoldable pub auto_close_ground_containers : ℕ → Game → ℕ → Option Game
  unfolding filter_from close_each close_container_tree in_close_range
  auto_close_ground_containers fuel g id = elim (lookup id g.players) [
    | none ↦ some g
    | some p ↦
        close_each (λ h c. close_container_tree fuel h id c)
          (filter_from (is_some_and (out_of_range p.position)) 0 p.open_containers) g
  ]
