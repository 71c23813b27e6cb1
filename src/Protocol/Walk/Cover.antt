-- ===== src/Protocol/Walk/Cover.antt =====
-- About what the client has been sent after a step (crates/protocol/src/walk.rs).
use package.oxidia.Prelude.{
  ℕ, ◌+◌, ◌-◌, ◌≤◌, ◌<◌, ◌≡◌, refl, ap, ◌⊎◌, inl, inr, List, [], ◌∷◌, ◌++◌, some, arith, Bool-cases,
  ltb, leb, true,
}
use mathlib.Core.List.{Memᴰ}
use mathlib.Core.List.Memᴰ
use package.oxidia.Prelude.Int.{pos, ◌+ℤ◌, ◌-ℤ◌, int_laws}
use package.oxidia.Protocol.MapDescription.{TileSource, PlacedCreature}
use package.oxidia.Protocol.MapDescription.Stream.{Spot}
use package.oxidia.Protocol.MapDescription.Floors.{visible_floors}
use package.oxidia.Protocol.Walk.{Coords, creature_move, walk_update}
use package.oxidia.Protocol.Walk.Window.{Inside, Inside-of_member, member_of_inside, move-Inside}
use package.oxidia.Protocol.Walk.Update.{
  view, Strip, strip, strips_bytes, strips_spots, rows, columns, step_bytes,
}

-- One coordinate of a step, and the columns of a view that is `size` wide.
abbrev pub Near : ℕ → ℕ → Type 0
Near a b = (a ≤ b + 1) × (b ≤ a + 1)

in_strips :
    (ss ts : List Strip) (p : Spot)
    → Memᴰ p (strips_spots ss) ⊎ Memᴰ p (strips_spots ts)
    → Memᴰ p (strips_spots (ss ++ ts))
unfolding strips_spots
in_strips [] ts p (inl m) = absurd (Memᴰ.not-nil m)
in_strips [] ts p (inr m) = m
in_strips (s ∷ ss) ts p (inl m) = elim (Memᴰ.append_cases s.spots m) [
  | inl here ↦ Memᴰ.append_left (strips_spots (ss ++ ts)) here
  | inr later ↦ Memᴰ.append_right s.spots (in_strips ss ts p (inl later))
]
in_strips (s ∷ ss) ts p (inr m) = Memᴰ.append_right s.spots (in_strips ss ts p (inr m))

-- The window of the view around a place.
abbrev View : Coords → Spot → Type 0
View c p = Inside (pos c.x -ℤ pos 8) (pos c.y -ℤ pos 6) (pos c.z) 18 14 (visible_floors c.z) p

module _ (old new : Coords) (p : Spot) (level : new.z ≡ old.z) (it : View new p) where
  in_rows :
      Near old.y new.y
      → old.x ≤ new.x + it.column
      → new.x + it.column < old.x + 18
      → (new.y + it.row < old.y) ⊎ (old.y + 14 ≤ new.y + it.row)
      → Memᴰ p (strips_spots (rows old new))
  unfolding rows strip strips_spots
  in_rows near left right out = elim (Bool-cases (ltb new.y old.y)) [
    | inl north ↦
        let low = it.low in
        rw north (
          Memᴰ.append_left [] (
            member_of_inside (pos old.x -ℤ pos 8) (pos new.y -ℤ pos 6) (pos new.z) 18 1
              (visible_floors new.z) p
              (move-Inside it (new.x + it.column - old.x) 0 (omega arith) (omega arith)
                (omega int_laws) (ap (λ j. pos new.y -ℤ pos 6 +ℤ pos j) (ground arith)))))
    | inr other ↦
        let low = it.low in
        let south : ltb old.y new.y ≡ true = ground arith in
        rw (other, south)
          (Memᴰ.append_left [] (
            member_of_inside (pos old.x -ℤ pos 8) (pos new.y +ℤ pos 7) (pos new.z) 18 1
              (visible_floors new.z) p
              (move-Inside it (new.x + it.column - old.x) 0 (omega arith) (omega arith)
                (omega int_laws) (let last : it.row ≡ 13 = ground arith in omega int_laws))))
  ]

  in_columns :
      Near old.x new.x
      → (new.x + it.column < old.x) ⊎ (old.x + 18 ≤ new.x + it.column)
      → Memᴰ p (strips_spots (columns old new))
  unfolding columns strip strips_spots
  in_columns near out = elim (Bool-cases (ltb old.x new.x)) [
    | inl east ↦
        let far = it.left in
        rw east (
          Memᴰ.append_left [] (
            member_of_inside (pos new.x +ℤ pos 9) (pos new.y -ℤ pos 6) (pos new.z) 1 14
              (visible_floors new.z) p
              (move-Inside it 0 it.row (omega arith) it.low
                (let last : it.column ≡ 17 = ground arith in omega int_laws) refl)))
    | inr other ↦
        let far = it.left in
        let west : ltb new.x old.x ≡ true = ground arith in
        rw (other, west)
          (Memᴰ.append_left [] (
            member_of_inside (pos new.x -ℤ pos 8) (pos new.y -ℤ pos 6) (pos new.z) 1 14
              (visible_floors new.z) p
              (move-Inside it 0 it.row (omega arith) it.low
                (let first : it.column ≡ 0 = ground arith in omega int_laws) refl)))
  ]

  in_old :
      old.x ≤ new.x + it.column
      → new.x + it.column < old.x + 18
      → old.y ≤ new.y + it.row
      → new.y + it.row < old.y + 14
      → Memᴰ p (view old)
  unfolding view
  in_old left right top low = rw (← level) (
      member_of_inside (pos old.x -ℤ pos 8) (pos old.y -ℤ pos 6) (pos new.z) 18 14
        (visible_floors new.z) p
        (move-Inside it (new.x + it.column - old.x) (new.y + it.row - old.y) (omega arith)
          (omega arith) (omega int_laws) (omega int_laws)))

  covered :
      Near old.x new.x
      → Near old.y new.y
      → Memᴰ p (view old) ⊎ Memᴰ p (strips_spots (rows old new ++ columns old new))
  covered near_x near_y =
      let both = in_strips (rows old new) (columns old new) p in
      elim (Bool-cases (leb old.x (new.x + it.column))) [
        | inr out ↦ inr (both (inr (in_columns near_x (inl (ground arith)))))
        | inl left ↦ elim (Bool-cases (ltb (new.x + it.column) (old.x + 18))) [
          | inr out ↦ inr (both (inr (in_columns near_x (inr (ground arith)))))
          | inl right ↦ elim (Bool-cases (leb old.y (new.y + it.row))) [
            | inr out ↦
                inr (both (inl (in_rows near_y (ground arith) (ground arith) (inl (ground arith)))))
            | inl top ↦ elim (Bool-cases (ltb (new.y + it.row) (old.y + 14))) [
              | inr out ↦
                  inr
                    (both (inl (in_rows near_y (ground arith) (ground arith) (inr (ground arith)))))
              | inl low ↦ inl (in_old (ground arith) (ground arith) (ground arith) (ground arith))
            ]
          ]
        ]
      ]

-- For a step to a neighbouring place on the same floor, no deeper than 17: the packet is the move
-- and some strips, each an opcode with the stream of what is seen at its spots; and every position
-- of the view around the new place was in the view around the old one or is in a strip.
pub walk_update_lem :
    (src : TileSource) (cs : List PlacedCreature) (id : ℕ) (old new : Coords)
    → new.z ≡ old.z
    → new.z ≤ 17
    → Near old.x new.x
    → Near old.y new.y
    → (ss : List Strip) × (walk_update src cs id old new
        ≡ some (creature_move id new ++ strips_bytes src cs ss))
      × ((p : Spot) → Memᴰ p (view new) → Memᴰ p (view old) ⊎ Memᴰ p (strips_spots ss))
unfolding view
walk_update_lem src cs id old new level low near_x near_y = (
  rows old new ++ columns old new,
  step_bytes src cs id old new level low,
  λ p m.
      covered old new p level
        (Inside-of_member (pos new.x -ℤ pos 8) (pos new.y -ℤ pos 6) (pos new.z) 18 14
          (visible_floors new.z) p m)
        near_x near_y,
)
