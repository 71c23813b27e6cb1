-- ===== src/World/Game/Ground.antt =====
-- Items on the ground (crates/world/src/game/items.rs, mod.rs): the tiles that the game has changed
-- are copied from the map on the first touch. An index is within the stack, as the callers check;
-- the source panics on another.
pub mod Units
pub mod Conserve
pub mod Valid
pub mod Merged
use package.oxidia.Prelude.{
  ℕ, zero, suc, ◌+◌, ◌-◌, Bool, true, false, ◌&&◌, List, [], ◌∷◌, Option, none, some, if◌then◌else◌,
  ltb, ◌==◌, length, get_or, get_elem?, set, min, max,
}
use mathlib.Core.Option
use package.oxidia.Prelude.Assoc.{lookup, insert}
use package.oxidia.Protocol.MapDescription.{WireItem}
use package.oxidia.World.Position.{Position}
use package.oxidia.World.Map.Tiles.{TileStack, or_else, tile_at}
use package.oxidia.World.Game.{Game, position_eq}
use package.oxidia.World.Game.View.{overlay}

-- `Vec::remove` and `Vec::insert`
unfoldable pub remove_at {ℓ} : {A : Type ℓ} → List A → ℕ → List A
remove_at [] i = []
remove_at (x ∷ xs) zero = xs
remove_at (x ∷ xs) (suc i) = x ∷ remove_at xs i

unfoldable pub insert_at {ℓ} : {A : Type ℓ} → List A → ℕ → A → List A
insert_at xs zero a = a ∷ xs
insert_at [] (suc i) a = a ∷ []
insert_at (x ∷ xs) (suc i) a = x ∷ insert_at xs i a

-- The stack on a tile for writing, and the game with it in the overlay; none if there is no stack.
unfoldable pub materialize : Game → Position → Option (TileStack × Game)
materialize g at = elim (overlay g at) [
  | some st ↦ some (st, g)
  | none ↦
      Option.map (λ st. (st, record g { dynamic = insert at st g.dynamic })) (tile_at g.chunks at)
]

-- `original_count.unwrap_or(1).max(1)`
abbrev pub count_of : Option ℕ → ℕ
count_of c = max (or_else c 1) 1

abbrev with_subtype : ℕ → WireItem → WireItem
with_subtype n item = record item { subtype = some n }

-- What is taken, whether the entry goes, and the count that it had.
pub record Taken : Type 0 where
  pub moved : ℕ
  pub removed_fully : Bool
  pub original_count : Option ℕ

-- A write of `count` into the entry `i`, to be shown on the wire.
unfoldable pub set_count : TileStack → ℕ → WireItem → ℕ → TileStack
set_count st i item n = record st {
  counts = set st.counts i (some n);
  items = set st.items i (with_subtype n (get_or st.items i item));
}

unfoldable pub remove_entry : TileStack → ℕ → TileStack
unfolding remove_at
remove_entry st i = record {
  items = remove_at st.items i;
  server_ids = remove_at st.server_ids i;
  counts = remove_at st.counts i;
  pre_creature_len =
      if ltb i st.pre_creature_len then st.pre_creature_len - 1 else st.pre_creature_len;
}

unfoldable pub insert_entry : TileStack → ℕ → WireItem → ℕ → Option ℕ → TileStack
unfolding insert_at
insert_entry st i item sid count = record st {
  items = insert_at st.items i item;
  server_ids = insert_at st.server_ids i sid;
  counts = insert_at st.counts i count;
}

abbrev pub blank : WireItem
blank = record { client_id = 0; subtype = none; animated = false }

-- The change of the stack.
unfoldable pub take_units : TileStack → ℕ → ℕ → Bool → Taken × TileStack
unfolding set_count remove_entry
take_units st i want stackable =
    let original = get_or st.counts i none in
    let cur = count_of original in
    let moved = if stackable then min (max want 1) cur else 1 in
    if stackable && ltb moved cur
    then (
      record { moved = moved; removed_fully = false; original_count = original },
      set_count st i blank (cur - moved),
    )
    else (
      record { moved = moved; removed_fully = true; original_count = original },
      remove_entry st i,
    )

unfoldable pub take_from_ground : Game → Position → ℕ → ℕ → Bool → Option (Taken × Game)
unfolding materialize take_units
take_from_ground g at i want stackable = elim (materialize g at) [
  | none ↦ none
  | some (st, g') ↦
      let (taken, st') = take_units st i want stackable in
      some (taken, record g' { dynamic = insert at st' g'.dynamic })
]

-- What is to be shown: the entry that was merged into, and the one that was added.
pub record Shown : Type 0 where
  pub merged : Option WireItem
  pub added : Option WireItem

-- A spill of more than a u8 holds is cut.
unfoldable pub merge_units : TileStack → ℕ → ℕ → WireItem → Shown × TileStack
unfolding set_count insert_entry
merge_units st sid moved item =
    let front = st.pre_creature_len in
    let total = count_of (get_or st.counts front none) + moved in
    let capped = min total 100 in
    let st' = set_count st front item capped in
    let merged_item = get_elem? st'.items front in
    let spill_count = min (total - 100) 255 in
    let spill : WireItem = with_subtype spill_count item in
    if ltb 100 total
    then (
      record { merged = merged_item; added = some spill },
      insert_entry st' front spill sid (some spill_count),
    )
    else (record { merged = merged_item; added = none }, st')

unfoldable pub add_units : TileStack → ℕ → ℕ → WireItem → Bool → Shown × TileStack
unfolding merge_units insert_entry
add_units st sid moved item stackable =
    let front = st.pre_creature_len in
    if stackable && (ltb front (length st.server_ids) && get_or st.server_ids front 0 == sid)
    then merge_units st sid moved item
    else let subtype = if stackable then some moved else item.subtype in
      let wi : WireItem = record item { subtype = subtype } in
      (record { merged = none; added = some wi }, insert_entry st front wi sid subtype)

unfoldable pub add_to_ground_front :
    Game → Position → ℕ → ℕ → WireItem → Bool → Option (Shown × Game)
unfolding materialize add_units
add_to_ground_front g at sid moved item stackable = elim (materialize g at) [
  | none ↦ none
  | some (st, g') ↦
      let (shown, st') = add_units st sid moved item stackable in
      some (shown, record g' { dynamic = insert at st' g'.dynamic })
]
