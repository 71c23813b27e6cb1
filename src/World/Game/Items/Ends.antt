-- ===== src/World/Game/Items/Ends.antt =====
-- About a request to move a thing between two tiles: it ends, and with what.
use package.oxidia.Prelude.{
  ℕ, ◌+◌, ◌<◌, ◌≡◌, refl, sym, ap, ◌∙◌, subst, inl, inr, Bool, true, false, ◌&&◌, ◌||◌, List, [],
  ◌∷◌, Option, none, some, zero, suc, arith, if◌then◌else◌, ◌==◌, leb, max, Bool-cases,
  Option-cases, some_injective,
}
use mathlib.Core.Option
use package.oxidia.Prelude.Assoc.{nat_eq, lookup}
use package.oxidia.Protocol.Bytes.{Bytes}
use package.oxidia.Protocol.MapDescription.{WireItem}
use package.oxidia.World.Position.{Position}
use package.oxidia.World.Map.Tiles.{TileStack, tile_at, tile_pre_creature_len, is_blocked}
use package.oxidia.World.Map.Sight.{Floats, can_throw_object_to}
use package.oxidia.World.Game.{Game, ItemMeta, OpenContainer, ContainerSource, same_position, entry}
use package.oxidia.World.Game.View.{merged_server_id, merged_pre_creature_len}
use package.oxidia.World.Game.Frame.{Kept}
use package.oxidia.World.Game.Ground.{take_units}
use package.oxidia.World.Game.Ground.Merged.{
  merged_stack, merged_server_id_lem, tile_at-merged, take_from_ground_lem,
}
use package.oxidia.World.Game.SameGround.{place_on_ground_lem, broadcast_source-Kept}
use package.oxidia.World.Game.Windows.{
  Windows, in_close_range, is_some_and, windows_of, has_parent, rekey, rekey_container_source,
  matches_source,
}
use package.oxidia.World.Game.Windows.Keeps.{Kept-windows, filter_from-All}
use package.oxidia.World.Game.Windows.Handlers.{
  close_container_tree, auto_close_ground_containers, out_of_range,
}
use package.oxidia.World.Game.Windows.Tree.{
  WindowsAreRanked, Ends, change-Ranked, close_each-Ends, close_container_tree-Ends,
}
use package.oxidia.World.Game.Transfer.{is_absent, source_index}
use package.oxidia.World.Game.Items.{
  carry, move_known, move_seen, move_on_ground, do_move_thing, contains_position,
}
use package.oxidia.World.Game.Items.Moved.{stacks, GroundIsValid, Carried}
use package.oxidia.World.Game.Items.Total.{do_move_thing-Carried}

-- A window that was opened from another is not one that a re-key to the ground has changed.
entry-rekey :
    (old : ContainerSource) (to : Position) (parent : ℕ) (ws : Windows) (c : ℕ) {oc : OpenContainer}
    → entry (rekey old (ContainerSource.on_ground to) ws) c ≡ some oc
    → has_parent parent oc.source ≡ true
    → entry ws c ≡ some oc
unfolding rekey Option.bind
entry-rekey old to parent [] c e h = e
entry-rekey old to parent (none ∷ ws) zero e h = e
entry-rekey old to parent (none ∷ ws) (suc c) e h = entry-rekey old to parent ws c e h
entry-rekey old to parent (some o ∷ ws) zero {oc} e h =
    elim (Bool-cases (matches_source o.source old)) [
      | inl hit ↦
          let same = some_injective (rw hit at e) in
          let no : has_parent parent (ContainerSource.on_ground to) ≡ true =
            subst (λ (x : OpenContainer). has_parent parent x.source ≡ true) (sym same) h in
          absurd (ground arith)
      | inr miss ↦ rw miss at e
    ]
entry-rekey old to parent (some o ∷ ws) (suc c) e h =
    elim (Bool-cases (matches_source o.source old)) [
      | inl hit ↦ rw hit at e
      | inr miss ↦ entry-rekey old to parent ws c (rw miss at e) h
    ]

module _ (accepts : List (ℕ × Bytes) → ℕ → Bytes → Bool) (fl : Floats) (rank : ℕ → ℕ) (id fuel : ℕ)
    (enough : (c : ℕ) → rank c < fuel) where
  Kept-Ranked :
      (g h : Game)
      → Kept g h
      → WindowsAreRanked accepts rank id g
      → WindowsAreRanked accepts rank id h
  Kept-Ranked g h k r ws e = r ws (Kept-windows g h id ws k e)

  pub rekey-Ranked :
      (g : Game) (old : ContainerSource) (to : Position)
      → WindowsAreRanked accepts rank id g
      → WindowsAreRanked accepts rank id
          (rekey_container_source g id old (ContainerSource.on_ground to))
  unfolding rekey_container_source
  rekey-Ranked g old to r =
      change-Ranked accepts rank id g (rekey old (ContainerSource.on_ground to))
        (λ ws c parent oc at below. (oc, entry-rekey old to parent ws c at below, below)) r

  pub auto_close-Ends :
      (g : Game)
      → WindowsAreRanked accepts rank id g
      → Ends accepts rank id (auto_close_ground_containers accepts fuel g id)
  unfolding auto_close_ground_containers
  auto_close-Ends g r = elim (Option-cases (lookup id g.players)) [
    | inl absent ↦ rw (absent, auto_close_ground_containers) (g, refl, r)
    | inr (p, there) ↦
        rw (there, auto_close_ground_containers)
          (close_each-Ends accepts rank id (λ h c. close_container_tree accepts fuel h id c)
            (λ c. rank c < fuel)
            (λ h c rh low. close_container_tree-Ends accepts rank id fuel h c rh low) _ g r
            (filter_from-All (λ c. rank c < fuel) (is_some_and (out_of_range p.position)) 0
              p.open_containers (λ k o e t. enough (0 + k))))
  ]

  -- The handler has a result.
  abbrev Returns : Option Game → Type 0
  Returns o = (g' : Game) × (o ≡ some g')

  settled-Returns :
      (g : Game) (from to : Position) (moves : Bool)
      → WindowsAreRanked accepts rank id g
      → Returns (
          if moves
          then auto_close_ground_containers accepts fuel
              (rekey_container_source g id
                (ContainerSource.on_ground from)
                (ContainerSource.on_ground to))
              id
          else some g)
  settled-Returns g from to true r =
      let (g', e, r') = auto_close-Ends _ (rekey-Ranked g (ContainerSource.on_ground from) to r) in
      (g', e)
  settled-Returns g from to false r = (g, refl)

  carry-Returns :
      (g : Game) (from : Position) (sp i sid : ℕ) (meta : ItemMeta) (to : Position) (count : ℕ)
      (a b : TileStack)
      → merged_stack g from ≡ some a
      → merged_stack g to ≡ some b
      → same_position from to ≡ false
      → WindowsAreRanked accepts rank id g
      → Returns (carry accepts fl fuel g id from sp i sid meta to count)
  unfolding carry
  carry-Returns g from sp i sid meta to count a b ea eb apart r =
      let want = if meta.stackable then max count 1 else 1 in
      let (h, taken, first) = take_from_ground_lem g from i want meta.stackable ea in
      let tk = (take_units a i want meta.stackable).0 in
      let item : WireItem = record {
        client_id = meta.client_id;
        subtype = tk.original_count;
        animated = meta.animated;
      } in
      let (k, l, placed, second, quiet) =
        place_on_ground_lem accepts h to sid tk.moved item meta.stackable
          (first.elsewhere to apart ∙ eb) in
      let same_h = ap (λ (s : Game). windows_of s id) first.world in
      let same_k = ap (λ (s : Game). windows_of s id) second.world in
      let rk : WindowsAreRanked accepts rank id k = λ ws e. r ws (sym (same_k ∙ same_h) ∙ e) in
      let told = broadcast_source-Kept accepts l from sp tk.removed_fully i in
      rw (taken, carry, placed)
        (settled-Returns _ from to meta.is_container
          (Kept-Ranked l _ told (Kept-Ranked k l quiet rk)))

  module _ (g : Game) (from to : Position) (apart : same_position from to ≡ false)
      (r : WindowsAreRanked accepts rank id g) where
    move_known-Returns :
        (sp i sid count : ℕ) (meta : ItemMeta)
        → merged_server_id g from i ≡ some sid
        → Returns (move_known accepts fl fuel g id from sp i sid meta to count)
    unfolding move_known tile_pre_creature_len
    move_known-Returns sp i sid count meta there =
        elim (Bool-cases
          (leb (merged_pre_creature_len g from) i && contains_position from g.corpse_tiles)) [
            | inl corpse ↦ rw corpse (g, refl)
            | inr plain ↦ rw plain (elim (Bool-cases meta.moveable) [
              | inr stays ↦ rw stays (_, refl)
              | inl moves ↦ rw moves (elim (Option-cases (tile_at g.chunks to)) [
                | inl nothing ↦ rw (nothing, move_known) (_, refl)
                | inr (st, on_map) ↦
                    let (a, ea, ei) = merged_server_id_lem g from i there in
                    let (b, eb) = tile_at-merged g to on_map in
                    let carried = carry-Returns g from sp i sid meta to count a b ea eb apart r in
                    elim (Bool-cases (
                      (tile_pre_creature_len g.chunks to == 0 && is_absent (tile_at g.chunks to))
                      || is_blocked g.chunks to)) [
                        | inl closed ↦ rw closed (_, refl)
                        | inr free ↦ rw free carried
                      ]
              ])
            ])
          ]

    move_seen-Returns : (sp count : ℕ) → Returns (move_seen accepts fl fuel g id from sp to count)
    unfolding move_seen
    move_seen-Returns sp count = elim (Option-cases (source_index g from sp)) [
      | inl creature ↦ rw (creature, move_seen) (g, refl)
      | inr (i, found) ↦ elim (Option-cases (merged_server_id g from i)) [
        | inl nothing ↦ rw (found, move_seen, nothing) (g, refl)
        | inr (sid, there) ↦ elim (Option-cases (g.item_meta sid)) [
          | inl unknown ↦ rw (found, move_seen, there, unknown) (g, refl)
          | inr (meta, known) ↦
              rw (found, move_seen, there, known) (move_known-Returns sp i sid count meta there)
        ]
      ]
    ]

    move_on_ground-Returns :
        (sp count : ℕ) → Returns (move_on_ground accepts fl fuel g id from sp to count)
    unfolding move_on_ground
    move_on_ground-Returns sp count = elim (Option-cases (lookup id g.players)) [
      | inl absent ↦ rw (absent, move_on_ground) (g, refl)
      | inr (p, here) ↦ elim (Bool-cases (in_close_range p.position from)) [
        | inr far ↦ rw (here, move_on_ground, far) (_, refl)
        | inl near ↦ elim (Bool-cases (can_throw_object_to fl g.chunks from to)) [
          | inr hidden ↦ rw (here, move_on_ground, near, hidden) (_, refl)
          | inl seen ↦ rw (here, move_on_ground, near, seen) (move_seen-Returns sp count)
        ]
      ]
    ]

  do_move_thing-Returns :
      (g : Game) (from to : Position) (sp count : ℕ)
      → (from.x == 0xffff || to.x == 0xffff) ≡ false
      → WindowsAreRanked accepts rank id g
      → Returns (do_move_thing accepts fl fuel g id from sp to count)
  unfolding do_move_thing
  do_move_thing-Returns g from to sp count on_map r = elim (Bool-cases (same_position from to)) [
    | inl same ↦ rw (on_map, same) (g, refl)
    | inr apart ↦ rw (on_map, apart) (move_on_ground-Returns g from to apart r sp count)
  ]

  -- A request to move a thing between two tiles of the map ends, if every window of the player has a
  -- lower rank than the one it was opened from and the fuel is above all ranks. It makes no item and
  -- loses none: the units of each item on the two tiles together stay what they were, every stack
  -- stays valid, and no other tile changes. So it is on every branch, and whatever the sessions take
  -- of the packets.
  pub do_move_thing_lem :
      (g : Game) (from to : Position) (sp count : ℕ)
      → GroundIsValid (stacks g) g
      → WindowsAreRanked accepts rank id g
      → (from.x == 0xffff || to.x == 0xffff) ≡ false
      → (g' : Game) × (do_move_thing accepts fl fuel g id from sp to count ≡ some g')
        × Carried g from to g'
  do_move_thing_lem g from to sp count v r on_map =
      let (g', e) = do_move_thing-Returns g from to sp count on_map r in
      (g', e, do_move_thing-Carried accepts fl g g' id from to v fuel sp count on_map e)
