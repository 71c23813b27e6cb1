-- ===== src/Protocol/Walk/Update.antt =====
-- What the packet of a step on one floor (`walk_update`) is made of.
use package.oxidia.Prelude.{
  ℕ, ◌≤◌, ◌≡◌, refl, sym, ap, ap₂, ◌∙◌, inl, inr, List, [], ◌∷◌, ◌++◌, map, some, arith,
  if◌then◌else◌, Bool-cases, ltb, leb, ◌&&◌, ◌==◌, true, false, append_assoc, append-nil,
}
use package.oxidia.Prelude.Int.{ℤ, pos, negsuc, ◌+ℤ◌, ◌-ℤ◌}
use package.oxidia.Protocol.Bytes.{Bytes}
use package.oxidia.Protocol.MapDescription.{TileSource, PlacedCreature, encode_slice}
use package.oxidia.Protocol.MapDescription.Stream.{Spot, seen, stream}
use package.oxidia.Protocol.MapDescription.Floors.{
  floor_spots, visible_floors, get_map_description_lem,
}
use package.oxidia.Protocol.Walk.{
  Coords, creature_move, slice, north_south, east_west, walk_update, extend,
}

-- The positions of the client's view around a place.
unfoldable pub view : Coords → List Spot
view c = floor_spots (pos c.x -ℤ pos 8) (pos c.y -ℤ pos 6) (pos c.z) 18 14 (visible_floors c.z)

pub record Strip : Type 0 where
  pub opcode : ℕ
  pub spots : List Spot

-- Every strip is its opcode and the stream of what is seen at its spots.
unfoldable pub strips_bytes : TileSource → List PlacedCreature → List Strip → Bytes
strips_bytes src cs [] = []
strips_bytes src cs (s ∷ ss) =
    (s.opcode ∷ stream (map (seen src cs) s.spots) (negsuc 0)) ++ strips_bytes src cs ss

unfoldable pub strips_spots : List Strip → List Spot
strips_spots [] = []
strips_spots (s ∷ ss) = s.spots ++ strips_spots ss

unfoldable pub strip : ℕ → ℤ → ℤ → ℕ → ℕ → ℕ → Strip
strip opcode ax ay z w h = record {
  opcode = opcode;
  spots = floor_spots ax ay (pos z) w h (visible_floors z);
}

unfoldable pub rows : Coords → Coords → List Strip
rows old new =
    if ltb new.y old.y
    then strip 0x65 (pos old.x -ℤ pos 8) (pos new.y -ℤ pos 6) new.z 18 1 ∷ []
    else (if ltb old.y new.y
        then strip 0x67 (pos old.x -ℤ pos 8) (pos new.y +ℤ pos 7) new.z 18 1 ∷ []
        else [])

unfoldable pub columns : Coords → Coords → List Strip
columns old new =
    if ltb old.x new.x
    then strip 0x66 (pos new.x +ℤ pos 9) (pos new.y -ℤ pos 6) new.z 1 14 ∷ []
    else (if ltb new.x old.x
        then strip 0x68 (pos new.x -ℤ pos 8) (pos new.y -ℤ pos 6) new.z 1 14 ∷ []
        else [])

module _ (src : TileSource) (cs : List PlacedCreature) where
  slice_bytes :
      (opcode : ℕ) (ax ay : ℤ) (z w h : ℕ)
      → z ≤ 17
      → slice src cs opcode ax ay (pos z) w h
        ≡ some (strips_bytes src cs (strip opcode ax ay z w h ∷ []))
  unfolding strips_bytes strip encode_slice
  slice_bytes opcode ax ay z w h low =
      get_map_description_lem src cs ax ay z w h (opcode ∷ []) low ∙ ap some (sym (append-nil _))

  north_south_bytes :
      (old new : Coords)
      → new.z ≤ 17
      → north_south src cs old new ≡ some (strips_bytes src cs (rows old new))
  unfolding rows
  north_south_bytes old new low = elim (Bool-cases (ltb new.y old.y)) [
    | inl north ↦
        rw north (slice_bytes 0x65 (pos old.x -ℤ pos 8) (pos new.y -ℤ pos 6) new.z 18 1 low)
    | inr other ↦ elim (Bool-cases (ltb old.y new.y)) [
      | inl south ↦
          rw (other, south)
            (slice_bytes 0x67 (pos old.x -ℤ pos 8) (pos new.y +ℤ pos 7) new.z 18 1 low)
      | inr level ↦ rw (other, level) (unfold strips_bytes in refl)
    ]
  ]

  east_west_bytes :
      (old new : Coords)
      → new.z ≤ 17
      → east_west src cs old new ≡ some (strips_bytes src cs (columns old new))
  unfolding columns
  east_west_bytes old new low = elim (Bool-cases (ltb old.x new.x)) [
    | inl east ↦ rw east (slice_bytes 0x66 (pos new.x +ℤ pos 9) (pos new.y -ℤ pos 6) new.z 1 14 low)
    | inr other ↦ elim (Bool-cases (ltb new.x old.x)) [
      | inl west ↦
          rw (other, west)
            (slice_bytes 0x68 (pos new.x -ℤ pos 8) (pos new.y -ℤ pos 6) new.z 1 14 low)
      | inr level ↦ rw (other, level) (unfold strips_bytes in refl)
    ]
  ]

  strips_bytes-append :
      (ss ts : List Strip)
      → strips_bytes src cs (ss ++ ts) ≡ strips_bytes src cs ss ++ strips_bytes src cs ts
  unfolding strips_bytes
  strips_bytes-append [] ts = refl
  strips_bytes-append (s ∷ ss) ts =
      ap (λ b. (s.opcode ∷ stream (map (seen src cs) s.spots) (negsuc 0)) ++ b)
        (strips_bytes-append ss ts)
      ∙ sym (
          append_assoc (s.opcode ∷ stream (map (seen src cs) s.spots) (negsuc 0))
            (strips_bytes src cs ss) (strips_bytes src cs ts))

  pub step_bytes :
      (id : ℕ) (old new : Coords)
      → new.z ≡ old.z
      → new.z ≤ 17
      → walk_update src cs id old new
        ≡ some (creature_move id new ++ strips_bytes src cs (rows old new ++ columns old new))
  unfolding walk_update
  step_bytes id old new level low =
      let same : (new.z == old.z) ≡ true = ground arith in
      let above : (old.z == 7 && leb 8 new.z) ≡ false = ground arith in
      let up : ltb old.z new.z ≡ false = ground arith in
      let down : ltb new.z old.z ≡ false = ground arith in
      let moved : Bytes = creature_move id new in
      let parts : walk_update src cs id old new
          ≡ extend (extend (some (moved ++ [])) (north_south src cs old new))
              (east_west src cs old new) =
        rw (same, above, up, down) refl in
      parts
      ∙ ap₂ (λ a b. extend (extend (some (moved ++ [])) a) b) (north_south_bytes old new low)
          (east_west_bytes old new low)
      ∙ ap (λ b. some (moved ++ b)) (sym (strips_bytes-append (rows old new) (columns old new)))
