-- ===== src/Protocol/MapDescription/Client.antt =====
-- The two encoders against the client: what it decodes from a full description and from a slice.
use package.oxidia.Prelude.{
  ℕ, zero, suc, ◌+◌, ◌*◌, ◌≤◌, ◌≡◌, refl, sym, ap, ◌∙◌, List, [], ◌∷◌, ◌++◌, map, Option, some,
  arith, length, All, length-append, length-map,
}
use package.oxidia.Prelude.Int.{ℤ, pos, negsuc, ◌-ℤ◌}
use package.oxidia.Protocol.Bytes.{Bytes, u16_bytes}
use package.oxidia.Protocol.MapDescription.{
  TileSource, PlacedCreature, Center, encode, encode_slice,
}
use package.oxidia.Protocol.MapDescription.Stream.{seen, column_spots, row_spots, stream}
use package.oxidia.Protocol.MapDescription.Decoder.{decode, TileIsReadable}
use package.oxidia.Protocol.MapDescription.RoundTrip.{decode-stream}
use package.oxidia.Protocol.MapDescription.Floors.{
  floor_spots, visible_floors, get_map_description_lem,
}

length-column_spots :
    (left nx ny : ℕ) (ax ay nz offset : ℤ) → length (column_spots left nx ny ax ay nz offset) ≡ left
unfolding column_spots
length-column_spots zero nx ny ax ay nz offset = refl
length-column_spots (suc left) nx ny ax ay nz offset =
    ap suc (length-column_spots left nx (ny + 1) ax ay nz offset)

length-row_spots :
    (left nx h : ℕ) (ax ay nz offset : ℤ) → length (row_spots left nx h ax ay nz offset) ≡ left * h
unfolding row_spots
length-row_spots zero nx h ax ay nz offset = omega arith
length-row_spots (suc left) nx h ax ay nz offset = omega (
  arith,
  length-append (column_spots h nx 0 ax ay nz offset) (row_spots left (nx + 1) h ax ay nz offset),
  length-column_spots h nx 0 ax ay nz offset,
  length-row_spots left (nx + 1) h ax ay nz offset,
)

pub length-floor_spots :
    (ax ay z : ℤ) (w h : ℕ) (fs : List ℤ)
    → length (floor_spots ax ay z w h fs) ≡ length fs * (w * h)
unfolding floor_spots
length-floor_spots ax ay z w h [] = omega arith
length-floor_spots ax ay z w h (nz ∷ fs) = omega (
  arith,
  length-append (row_spots w 0 h ax ay nz (z -ℤ nz)) (floor_spots ax ay z w h fs),
  length-row_spots w 0 h ax ay nz (z -ℤ nz),
  length-floor_spots ax ay z w h fs,
)

module _ (get_thing : Bytes → Option (Bytes × Bytes)) where
  decodes :
      (src : TileSource) (cs : List PlacedCreature) (ax ay : ℤ) (z w h : ℕ)
      → let spots = floor_spots ax ay (pos z) w h (visible_floors z) in
        All (TileIsReadable get_thing) (map (seen src cs) spots)
        → decode get_thing
            (length (visible_floors z) * (w * h))
            0
            (stream (map (seen src cs) spots) (negsuc 0))
          ≡ some (map (seen src cs) spots)
  decodes src cs ax ay z w h ok =
      let fs = visible_floors z in
      let spots = floor_spots ax ay (pos z) w h fs in
      let tiles = map (seen src cs) spots in
      ap (λ n. decode get_thing n 0 (stream tiles (negsuc 0)))
        (sym (length-floor_spots ax ay (pos z) w h fs) ∙ sym (length-map spots (seen src cs)))
      ∙ decode-stream get_thing tiles ok

  -- For a centre on a floor up to 17, with things that the client can cut off one from another: the
  -- packet `0x64` is made, and behind its opcode and the centre the client's pass over the 18 by 14
  -- positions of each visible floor finds, in the same order, exactly what the encoder shows of each:
  -- at most ten items below, the creatures, and the items above that still fit under ten things.
  pub encode-decode :
      (src : TileSource) (cs : List PlacedCreature) (c : Center)
      → let spots =
          floor_spots (pos c.x -ℤ pos 8) (pos c.y -ℤ pos 6) (pos c.z) 18 14 (visible_floors c.z) in
        c.z ≤ 17
        → All (TileIsReadable get_thing) (map (seen src cs) spots)
        → (body : Bytes) × (encode c src cs
            ≡ some (0x64 ∷ (u16_bytes c.x ++ (u16_bytes c.y ++ (c.z ∷ body)))))
          × (decode get_thing (length (visible_floors c.z) * (18 * 14)) 0 body
              ≡ some (map (seen src cs) spots))
  unfolding encode
  encode-decode src cs c low ok =
      let ax = pos c.x -ℤ pos 8 in
      let ay = pos c.y -ℤ pos 6 in
      (
        stream (map (seen src cs) (floor_spots ax ay (pos c.z) 18 14 (visible_floors c.z)))
            (negsuc 0),
        get_map_description_lem src cs ax ay c.z 18 14 _ low,
        decodes src cs ax ay c.z 18 14 ok,
      )

  -- The same for a slice of any size at any anchor: behind its opcode there is nothing but the
  -- stream, and the client's pass finds what the encoder shows of the positions of the slice: at most
  -- ten items below, the creatures, and the items above that still fit under ten things.
  pub encode_slice-decode :
      (src : TileSource) (cs : List PlacedCreature) (opcode : ℕ) (ax ay : ℤ) (z w h : ℕ)
      → let spots = floor_spots ax ay (pos z) w h (visible_floors z) in
        z ≤ 17
        → All (TileIsReadable get_thing) (map (seen src cs) spots)
        → (body : Bytes) × (encode_slice opcode ax ay (pos z) w h src cs ≡ some (opcode ∷ body))
          × (decode get_thing (length (visible_floors z) * (w * h)) 0 body
              ≡ some (map (seen src cs) spots))
  unfolding encode_slice
  encode_slice-decode src cs opcode ax ay z w h low ok = (
    stream (map (seen src cs) (floor_spots ax ay (pos z) w h (visible_floors z))) (negsuc 0),
    get_map_description_lem src cs ax ay z w h (opcode ∷ []) low,
    decodes src cs ax ay z w h ok,
  )
