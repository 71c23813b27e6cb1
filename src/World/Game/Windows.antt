-- ===== src/World/Game/Windows.antt =====
-- The containers that a player has open or keeps (crates/world/src/game/containers.rs). A container
-- that lies in another names the window of that one and its place there. Closing a window closes
-- first the windows opened from it; `none` says that this has not ended with the fuel.
pub mod Handlers
pub mod Keeps
pub mod Tree
pub mod Cycle
pub mod Others
use package.oxidia.Prelude.{
  ℕ, zero, suc, ◌+◌, ◌-◌, Bool, true, false, not, ◌&&◌, ◌||◌, List, [], ◌∷◌, Option, none, some,
  if◌then◌else◌, ltb, leb, ◌==◌, length, get_elem?, set, min, max, map,
}
use mathlib.Core.Option
use package.oxidia.Prelude.Assoc.{nat_eq, lookup, adjust}
use package.oxidia.Protocol.Bytes.{Bytes}
use package.oxidia.Protocol.MapDescription.{WireItem}
use package.oxidia.Protocol.Container.{
  open_container, close_container, add_container_item, remove_container_item,
}
use package.oxidia.World.Position.{Position}
use package.oxidia.World.Map.Sight.{abs_diff}
use package.oxidia.World.Map.Tiles.{or_else}
use package.oxidia.World.Game.{
  Game, PlayerState, ItemMeta, ContainerItem, ContainerSource, OpenContainer, wire, same_position,
  entry,
}
use package.oxidia.World.Game.Ground.{remove_at}
use package.oxidia.World.Game.Session.{push}

unfoldable pub matches_source : ContainerSource → ContainerSource → Bool
matches_source (ContainerSource.slot x) (ContainerSource.slot y) = x == y
matches_source (ContainerSource.nested pa ps) (ContainerSource.nested qa qs) = pa == qa && ps == qs
matches_source (ContainerSource.on_ground p) (ContainerSource.on_ground q) = same_position p q
matches_source _ _ = false

unfoldable pub in_close_range : Position → Position → Bool
in_close_range a b = a.z == b.z && (leb (abs_diff a.x b.x) 1 && leb (abs_diff a.y b.y) 1)

abbrev pub Windows : Type 0
Windows = List (Option OpenContainer)

-- `(0..16).find` and `(0..16).filter`, from the entry `i` on
unfoldable pub find_from : (Option OpenContainer → Bool) → ℕ → Windows → Option ℕ
find_from test i [] = none
find_from test i (o ∷ rest) =
    let later = find_from test (i + 1) rest in if test o then some i else later

unfoldable pub filter_from : (Option OpenContainer → Bool) → ℕ → Windows → List ℕ
filter_from test i [] = []
filter_from test i (o ∷ rest) =
    let later = filter_from test (i + 1) rest in if test o then i ∷ later else later

abbrev pub is_none : Option OpenContainer → Bool
is_none none = true
is_none (some oc) = false

abbrev pub is_some_and : (OpenContainer → Bool) → Option OpenContainer → Bool
is_some_and test none = false
is_some_and test (some oc) = test oc

unfoldable pub next_free_cid : Windows → Option ℕ
unfolding find_from
next_free_cid ws = elim (find_from is_none 0 ws) [
  | some c ↦ some c
  | none ↦ find_from (is_some_and (λ o. not o.is_open)) 0 ws
]

abbrev pub is_nested : ContainerSource → Bool
is_nested (ContainerSource.nested pc ps) = true
is_nested _ = false

abbrev pub has_parent : ℕ → ContainerSource → Bool
has_parent cid (ContainerSource.nested pc ps) = pc == cid
has_parent cid _ = false

abbrev pub with_windows : (Windows → Windows) → PlayerState → PlayerState
with_windows f p = record p { open_containers = f p.open_containers }

abbrev pub change_windows : ℕ → (Windows → Windows) → Game → Game
change_windows id f g = record g { players = adjust id (with_windows f) g.players }

-- A change of the container in the entry `cid`, if there is one.
unfoldable pub alter : ℕ → (OpenContainer → OpenContainer) → Windows → Windows
alter i f [] = []
alter zero f (o ∷ rest) = Option.map f o ∷ rest
alter (suc i) f (o ∷ rest) = o ∷ alter i f rest

abbrev pub close_window : OpenContainer → OpenContainer
close_window oc = record oc { is_open = false }

abbrev pub windows_of : Game → ℕ → Option Windows
windows_of g id = Option.map (λ (p : PlayerState). p.open_containers) (lookup id g.players)

abbrev pub window : Game → ℕ → ℕ → Option OpenContainer
window g id cid = Option.bind (windows_of g id) (λ ws. entry ws cid)

-- The slots of the windows opened from `parent` move up behind a slot that went.
unfoldable pub lower_slot : ℕ → ℕ → ContainerSource → ContainerSource
lower_slot parent removed (ContainerSource.nested pc ps) =
    if pc == parent && ltb removed ps
    then ContainerSource.nested pc (ps - 1)
    else ContainerSource.nested pc ps
lower_slot parent removed s = s

-- A new first item moves every item one slot on; the slot is a u8.
unfoldable pub raise_slot : ℕ → ContainerSource → ContainerSource
raise_slot parent (ContainerSource.nested pc ps) =
    if pc == parent
    then ContainerSource.nested pc (min (ps + 1) 255)
    else ContainerSource.nested pc ps
raise_slot parent s = s

abbrev pub with_source : (ContainerSource → ContainerSource) → OpenContainer → OpenContainer
with_source f oc = record oc { source = f oc.source }

-- The last window that tracked the item in a slot that went.
unfoldable pub orphan : ℕ → ℕ → ℕ → Windows → Option ℕ
unfolding matches_source
orphan parent removed i [] = none
orphan parent removed i (o ∷ rest) = elim (orphan parent removed (i + 1) rest) [
  | some c ↦ some c
  | none ↦
      if is_some_and (λ oc. matches_source oc.source (ContainerSource.nested parent removed)) o
      then some i
      else none
]

-- `rekey_container_source` stops at the first match.
unfoldable pub rekey : ContainerSource → ContainerSource → Windows → Windows
unfolding matches_source
rekey old new [] = []
rekey old new (o ∷ rest) =
    let later = rekey old new rest in
    if is_some_and (λ oc. matches_source oc.source old) o
    then Option.map (with_source (λ s. new)) o ∷ rest
    else o ∷ later

unfoldable pub rekey_container_source : Game → ℕ → ContainerSource → ContainerSource → Game
unfolding rekey
rekey_container_source g id old new = change_windows id (rekey old new) g

-- A fresh, closed window for the container of type `sid` in a slot of another one.
abbrev fresh_window : ℕ → ItemMeta → ContainerSource → OpenContainer
fresh_window sid meta source = record {
  server_id = sid;
  client_id = meta.client_id;
  capacity = max meta.container_capacity 1;
  name = meta.name;
  items = [];
  source = source;
  is_open = false;
}

unfoldable pub nested_dest_cid : Game → ℕ → ℕ → ℕ → Option ℕ × Game
unfolding next_free_cid find_from matches_source
nested_dest_cid g id parent slot_idx =
    let target = ContainerSource.nested parent (slot_idx) in
    let sid =
      Option.map (λ (i : ContainerItem). i.server_id)
        (Option.bind (window g id parent) (λ oc. get_elem? oc.items slot_idx)) in
    elim sid [
      | none ↦ (none, g)
      | some s ↦ elim (g.item_meta s) [
        | none ↦ (none, g)
        | some meta ↦
            if not meta.is_container
            then (none, g)
            else let ws = or_else (windows_of g id) [] in
              elim (find_from (is_some_and (λ o. matches_source o.source target)) 0 ws) [
                | some c ↦ (some c, g)
                | none ↦ elim (next_free_cid ws) [
                  | none ↦ (none, g)
                  | some cid ↦ (
                    some cid,
                    change_windows id (λ xs. set xs cid (some (fresh_window s meta target))) g,
                  )
                ]
              ]
      ]
    ]
