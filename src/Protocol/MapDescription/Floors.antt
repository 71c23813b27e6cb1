-- ===== src/Protocol/MapDescription/Floors.antt =====
-- Which floors a description walks, and what a client decodes from a whole description.
use package.oxidia.Prelude.{
  ℕ, zero, suc, ◌+◌, ◌-◌, ◌≤◌, ◌<◌, ◌≡◌, sym, ap, ap₂, true, ◌∙◌, List, [], ◌∷◌, ◌++◌, map, some,
  arith, if◌then◌else◌, ltb, ltb→lt, false, ◌==◌, min, Bool-cases, inl, inr,
}
use mathlib.Core.Option
use package.oxidia.Prelude.Int.{ℤ, pos, negsuc, ◌+ℤ◌, ◌-ℤ◌}
use package.oxidia.Protocol.Bytes.{Bytes}
use package.oxidia.Protocol.MapDescription.{
  TileSource, PlacedCreature, floor_description, floor_loop, floor_range, floor_fuel,
  get_map_description, flush_out,
}
use package.oxidia.Protocol.MapDescription.Stream.{
  Spot, seen, row_spots, visit, visit_append, row_loop-visit, visit-stream, stream,
}

unfoldable pub up_floors : ℕ → ℕ → List ℤ
up_floors a zero = pos a ∷ []
up_floors a (suc n) = pos a ∷ up_floors (a + 1) n

unfoldable pub down_floors : ℕ → List ℤ
down_floors zero = pos 0 ∷ []
down_floors (suc n) = pos (suc n) ∷ down_floors n

-- From floor 7 up to the sky, or two floors either way below ground, no deeper than 15.
unfoldable pub visible_floors : ℕ → List ℤ
visible_floors z = if ltb 7 z then up_floors (z - 2) (min (z + 2) 15 - (z - 2)) else down_floors 7

pos_up : (a : ℕ) → pos a +ℤ pos 1 ≡ pos (a + 1)
unfolding ◌+ℤ◌
pos_up a = ground arith

pos_down : (n : ℕ) → pos (suc n) +ℤ negsuc 0 ≡ pos n
unfolding ◌+ℤ◌
pos_down n = ground arith

module _ (ax ay : ℤ) (z : ℤ) (w h : ℕ) where
  unfoldable pub floor_spots : List ℤ → List Spot
  floor_spots [] = []
  floor_spots (nz ∷ fs) = row_spots w 0 h ax ay nz (z -ℤ nz) ++ floor_spots fs

module _ (src : TileSource) (cs : List PlacedCreature) (ax ay z : ℤ) (w h : ℕ) where
  step_lem :
      (nz : ℤ) (fs : List ℤ) (out : Bytes × ℤ)
      → visit src cs
          (floor_spots ax ay z w h fs)
          (floor_description src cs ax ay nz (z -ℤ nz) w h out)
        ≡ visit src cs (floor_spots ax ay z w h (nz ∷ fs)) out
  unfolding floor_spots floor_description
  step_lem nz fs out =
      ap (visit src cs (floor_spots ax ay z w h fs))
        (row_loop-visit src cs w 0 h ax ay nz (z -ℤ nz) out)
      ∙ sym (
          visit_append src cs (row_spots w 0 h ax ay nz (z -ℤ nz)) (floor_spots ax ay z w h fs) out)

  last_lem :
      (nz : ℤ) (out : Bytes × ℤ)
      → floor_description src cs ax ay nz (z -ℤ nz) w h out
        ≡ visit src cs (floor_spots ax ay z w h (nz ∷ [])) out
  last_lem nz out = unfold floor_spots visit in step_lem nz [] out

  floor_loop_up :
      (n a fuel : ℕ) (out : Bytes × ℤ)
      → n < fuel
      → floor_loop src cs fuel (pos a) (pos (a + n)) (pos 1) ax ay z w h out
        ≡ some (visit src cs (floor_spots ax ay z w h (up_floors a n)) out)
  unfolding floor_loop up_floors
  floor_loop_up n a zero out f = absurd (omega arith)
  floor_loop_up zero a (suc fuel) out f =
      let here : (a == a + 0) ≡ true = ground arith in rw here (ap some (last_lem (pos a) out))
  floor_loop_up (suc n) a (suc fuel) out f =
      let on : (a == a + suc n) ≡ false = ground arith in
      let out' = floor_description src cs ax ay (pos a) (z -ℤ pos a) w h out in
      rw on (
        ap₂ (λ x y. floor_loop src cs fuel x (pos y) (pos 1) ax ay z w h out') (pos_up a)
          (omega arith)
        ∙ floor_loop_up n (a + 1) fuel out' (omega arith)
        ∙ ap some (step_lem (pos a) (up_floors (a + 1) n) out))

  floor_loop_down :
      (n fuel : ℕ) (out : Bytes × ℤ)
      → n < fuel
      → floor_loop src cs fuel (pos n) (pos 0) (negsuc 0) ax ay z w h out
        ≡ some (visit src cs (floor_spots ax ay z w h (down_floors n)) out)
  unfolding floor_loop down_floors
  floor_loop_down n zero out f = absurd (omega arith)
  floor_loop_down zero (suc fuel) out f = ap some (last_lem (pos 0) out)
  floor_loop_down (suc n) (suc fuel) out f =
      let on : (suc n == 0) ≡ false = ground arith in
      let out' = floor_description src cs ax ay (pos (suc n)) (z -ℤ pos (suc n)) w h out in
      rw on (
        ap (λ x. floor_loop src cs fuel x (pos 0) (negsuc 0) ax ay z w h out') (pos_down n)
        ∙ floor_loop_down n fuel out' (omega arith)
        ∙ ap some (step_lem (pos (suc n)) (down_floors n) out))

floor_range_under :
    (z : ℕ)
    → 7 < z
    → z ≤ 17
    → floor_range (pos z) ≡ (pos (z - 2), pos (z - 2 + (min (z + 2) 15 - (z - 2))), pos 1)
unfolding floor_range ◌+ℤ◌ ◌-ℤ◌
floor_range_under z h k = ground arith

floor_range_over : (z : ℕ) → z ≤ 7 → floor_range (pos z) ≡ (pos 7, pos 0, negsuc 0)
unfolding floor_range
floor_range_over z h = ground arith

module _ (src : TileSource) (cs : List PlacedCreature) (ax ay : ℤ) (z w h : ℕ) (buf : Bytes) where
  visits :
      (fs : List ℤ)
      → let (startz, endz, zstep) = floor_range (pos z) in
        floor_loop src cs floor_fuel startz endz zstep ax ay (pos z) w h (buf, negsuc 0)
          ≡ some (visit src cs (floor_spots ax ay (pos z) w h fs) (buf, negsuc 0))
        → get_map_description src cs ax ay (pos z) w h buf
          ≡ some (buf ++ stream (map (seen src cs) (floor_spots ax ay (pos z) w h fs)) (negsuc 0))
  unfolding get_map_description
  visits fs e =
      ap (Option.map flush_out) e
      ∙ ap some (visit-stream src cs (floor_spots ax ay (pos z) w h fs) buf (negsuc 0))

  -- What `get_map_description` appends to a buffer for a centre on a floor up to 17: the stream of
  -- what is seen on the visible floors, floor by floor and column by column.
  pub get_map_description_lem :
      z ≤ 17
      → get_map_description src cs ax ay (pos z) w h buf
        ≡ some (
            buf
            ++ stream
                (map (seen src cs) (floor_spots ax ay (pos z) w h (visible_floors z)))
                (negsuc 0))
  unfolding visible_floors
  get_map_description_lem low = elim (Bool-cases (ltb 7 z)) [
    | inl under ↦
        let deep : 7 < z = ltb→lt 7 z under in
        let n = min (z + 2) 15 - (z - 2) in
        rw under (
          visits (up_floors (z - 2) n) (
            rw (floor_range_under z deep low) (
              floor_loop_up src cs ax ay (pos z) w h n (z - 2) floor_fuel (buf, negsuc 0)
                (omega arith))))
    | inr over ↦ rw over (
        visits (down_floors 7) (
          rw (floor_range_over z (ground arith))
            (floor_loop_down src cs ax ay (pos z) w h 7 floor_fuel (buf, negsuc 0) (omega arith))))
  ]
