-- ===== src/World/Game/Items/Total.antt =====
-- About a request to move a thing between two tiles: every branch of the handler.
use package.oxidia.Prelude.{
  ℕ, ◌≡◌, subst, inl, inr, Bool, false, ◌&&◌, ◌||◌, List, some, if◌then◌else◌, ◌==◌, Bool-cases,
  Option-cases, some_injective, leb,
}
use package.oxidia.Prelude.Assoc.{nat_eq, lookup}
use package.oxidia.Protocol.Bytes.{Bytes}
use package.oxidia.World.Position.{Position}
use package.oxidia.World.Map.Tiles.{tile_at, tile_pre_creature_len, is_blocked}
use package.oxidia.World.Map.Sight.{Floats, can_throw_object_to}
use package.oxidia.World.Game.{Game, ItemMeta, same_position}
use package.oxidia.World.Game.View.{merged_server_id, merged_pre_creature_len}
use package.oxidia.World.Game.Session.{as_bytes, push_cannot_move, push_status_message}
use package.oxidia.World.Game.Ground.Merged.{merged_server_id_lem, tile_at-merged}
use package.oxidia.World.Game.SameGround.{push-SameGround}
use package.oxidia.World.Game.Windows.{in_close_range}
use package.oxidia.World.Game.Transfer.{is_absent, source_index}
use package.oxidia.World.Game.Items.{
  carry, move_known, move_seen, move_on_ground, do_move_thing, contains_position,
}
use package.oxidia.World.Game.Items.Moved.{
  stacks, GroundIsValid, Carried, Carried-refl, Carried-SameGround, carry-Carried,
}

module _ (accepts : List (ℕ × Bytes) → ℕ → Bytes → Bool) (fl : Floats) where
  module _ (g g' : Game) (id : ℕ) (from to : Position) (v : GroundIsValid (stacks g) g) where
    unmoved : some g ≡ some g' → Carried g from to g'
    unmoved e = subst (Carried g from to) (some_injective e) (Carried-refl g from to v)

    refused :
        (text : Bytes) → some (push_cannot_move accepts g id text) ≡ some g' → Carried g from to g'
    unfolding push_status_message
    refused text e = subst (Carried g from to) (some_injective e) (
        Carried-SameGround g g _ from to (push-SameGround accepts g id _)
          (Carried-refl g from to v))

    -- The checks of the tile it goes to, then the move.
    free_lem :
        (fuel sp i sid count : ℕ) (meta : ItemMeta)
        → same_position from to ≡ false
        → merged_server_id g from i ≡ some sid
        → g.item_meta sid ≡ some meta
        → (if (tile_pre_creature_len g.chunks to == 0 && is_absent (tile_at g.chunks to))
              || is_blocked g.chunks to
            then some (push_cannot_move accepts g id (as_bytes "You cannot put that there."))
            else carry accepts fl fuel g id from sp i sid meta to count)
          ≡ some g'
        → Carried g from to g'
    unfolding tile_pre_creature_len
    free_lem fuel sp i sid count meta apart there known e =
        elim (Bool-cases (
          (tile_pre_creature_len g.chunks to == 0 && is_absent (tile_at g.chunks to))
          || is_blocked g.chunks to)) [
            | inl closed ↦ refused _ (rw closed at e)
            | inr free ↦
                let (a, ea, ei) = merged_server_id_lem g from i there in
                elim (Option-cases (tile_at g.chunks to)) [
                  | inr (st, on_map) ↦
                      let (b, eb) = tile_at-merged g to on_map in
                      carry-Carried accepts fl fuel g g' id from sp i sid meta to count a b known ea
                        ei eb apart v (rw free at e)
                  | inl nothing ↦ let no = rw nothing at free in cc
                ]
          ]

    -- The item is known and its destination looked at.
    move_known-Carried :
        (fuel sp i sid count : ℕ) (meta : ItemMeta)
        → same_position from to ≡ false
        → merged_server_id g from i ≡ some sid
        → g.item_meta sid ≡ some meta
        → move_known accepts fl fuel g id from sp i sid meta to count ≡ some g'
        → Carried g from to g'
    unfolding move_known carry tile_pre_creature_len
    move_known-Carried fuel sp i sid count meta apart there known e =
        elim (Bool-cases
          (leb (merged_pre_creature_len g from) i && contains_position from g.corpse_tiles)) [
            | inl corpse ↦ unmoved (rw corpse at e)
            | inr plain ↦
                let e1 = rw plain at e in
                elim (Bool-cases meta.moveable) [
                  | inr stays ↦ refused _ (rw stays at e1)
                  | inl moves ↦ free_lem fuel sp i sid count meta apart there known (rw moves at e1)
                ]
          ]

    move_seen-Carried :
        (fuel sp count : ℕ)
        → same_position from to ≡ false
        → move_seen accepts fl fuel g id from sp to count ≡ some g'
        → Carried g from to g'
    unfolding move_seen
    move_seen-Carried fuel sp count apart e = elim (Option-cases (source_index g from sp)) [
      | inl creature ↦ unmoved (rw (creature, move_seen) at e)
      | inr (i, found) ↦
          let e1 = rw (found, move_seen) at e in
          elim (Option-cases (merged_server_id g from i)) [
            | inl nothing ↦ unmoved (rw (nothing, move_seen) at e1)
            | inr (sid, there) ↦
                let e2 = rw (there, move_seen) at e1 in
                elim (Option-cases (g.item_meta sid)) [
                  | inl unknown ↦ unmoved (rw (unknown, move_seen) at e2)
                  | inr (meta, known) ↦
                      move_known-Carried fuel sp i sid count meta apart there known
                        (rw (known, move_seen) at e2)
                ]
          ]
    ]

    move_on_ground-Carried :
        (fuel sp count : ℕ)
        → same_position from to ≡ false
        → move_on_ground accepts fl fuel g id from sp to count ≡ some g'
        → Carried g from to g'
    unfolding move_on_ground
    move_on_ground-Carried fuel sp count apart e = elim (Option-cases (lookup id g.players)) [
      | inl absent ↦ unmoved (rw (absent, move_on_ground) at e)
      | inr (p, here) ↦
          let e1 = rw (here, move_on_ground) at e in
          elim (Bool-cases (in_close_range p.position from)) [
            | inr far ↦ refused _ (rw far at e1)
            | inl near ↦
                let e2 = rw near at e1 in
                elim (Bool-cases (can_throw_object_to fl g.chunks from to)) [
                  | inr hidden ↦ refused _ (rw hidden at e2)
                  | inl seen ↦ move_seen-Carried fuel sp count apart (rw seen at e2)
                ]
          ]
    ]

    -- A request to move a thing between two tiles of the map makes no item and loses none: the units
    -- of each item on the two tiles together stay what they were, every stack stays valid, and no
    -- other tile changes. So it is on every branch, and whatever the sessions take of the packets.
    pub do_move_thing-Carried :
        (fuel sp count : ℕ)
        → (from.x == 0xffff || to.x == 0xffff) ≡ false
        → do_move_thing accepts fl fuel g id from sp to count ≡ some g'
        → Carried g from to g'
    unfolding do_move_thing
    do_move_thing-Carried fuel sp count on_map e =
        let e1 = rw on_map at e in
        elim (Bool-cases (same_position from to)) [
          | inl same ↦ unmoved (rw same at e1)
          | inr apart ↦ move_on_ground-Carried fuel sp count apart (rw apart at e1)
        ]
