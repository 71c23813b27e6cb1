-- ===== src/Protocol/MapDescription/Tiles.antt =====
-- The bytes of one tile: an empty environment word, then one chunk for each thing on it.
use package.oxidia.Prelude.{
  ℕ, zero, suc, ◌+◌, ◌-◌, ◌≤◌, ◌≡◌, refl, sym, Bool, Option, length-map, length-take, ap, ap₂, true,
  false, min, none, some, ◌∙◌, List, [], ◌∷◌, ◌++◌, map, arith, take, length, if◌then◌else◌, ltb,
  ◌==◌, append_assoc, append-nil, Bool-cases, inl, inr, take-append, take-map, take_all,
}
use package.oxidia.Prelude.Int.{ℤ}
use package.oxidia.Protocol.Bytes.{Bytes}
use package.oxidia.Protocol.MapDescription.{
  WireItem, TileSlices, PlacedCreature, add_item, add_items, add_creatures, write_tile, stands_at,
  saturating_suc,
}

-- The chunks one after the other.
abbrev pub concat : List Bytes → Bytes
concat [] = []
concat (c ∷ cs) = c ++ concat cs

pub concat-append : (cs ds : List Bytes) → concat (cs ++ ds) ≡ concat cs ++ concat ds
concat-append [] ds = refl
concat-append (c ∷ cs) ds = rw (concat-append cs ds) (sym (append_assoc c (concat cs) (concat ds)))

unfoldable pub item_bytes : WireItem → Bytes
unfolding add_item
item_bytes item = add_item item []

add_fields_append :
    (id : ℕ) (subtype : Option ℕ) (animated : Bool) (w : Bytes)
    → let item : WireItem = record { client_id = id; subtype = subtype; animated = animated } in
      add_item item w ≡ w ++ add_item item []
unfolding add_item
add_fields_append id none true w = simp append_assoc
add_fields_append id none false w = simp append_assoc
add_fields_append id (some v) true w = simp append_assoc
add_fields_append id (some v) false w = simp append_assoc

pub add_item_append : (item : WireItem) (w : Bytes) → add_item item w ≡ w ++ item_bytes item
unfolding item_bytes
add_item_append item w = add_fields_append item.client_id item.subtype item.animated w

-- The creatures that stand on a tile, in the order of the list.
unfoldable pub creature_chunks : List PlacedCreature → ℤ → ℤ → ℤ → List Bytes
creature_chunks [] wx wy nz = []
creature_chunks (c ∷ cs) wx wy nz =
    let rest = creature_chunks cs wx wy nz in if stands_at c wx wy nz then c.bytes ∷ rest else rest

-- The chunks of a tile: at most ten items below, the creatures, and the items above that still fit
-- under ten things.
unfoldable pub tile_chunks : TileSlices → List PlacedCreature → ℤ → ℤ → ℤ → List Bytes
unfolding creature_chunks item_bytes
tile_chunks slices creatures wx wy nz =
    let below = map item_bytes (take 10 slices.pre_creature) in
    let middle = creature_chunks creatures wx wy nz in
    let above = map item_bytes (take (10 - (length below + length middle)) slices.post_creature) in
    below ++ (middle ++ above)

add_items_lem :
    (items : List WireItem) (w : Bytes) (n room : ℕ)
    → n + room ≡ 10
    → let chunks = map item_bytes (take room items) in
      add_items items (w, n) ≡ (w ++ concat chunks, n + length chunks)
unfolding add_items
add_items_lem [] w n zero h = ap₂ (λ x y. (x, y)) (sym (append-nil w)) (omega arith)
add_items_lem [] w n (suc room) h = ap₂ (λ x y. (x, y)) (sym (append-nil w)) (omega arith)
add_items_lem (x ∷ xs) w n zero h =
    let full : (n == 10) ≡ true = ground arith in
    rw full (ap₂ (λ x y. (x, y)) (sym (append-nil w)) (omega arith))
add_items_lem (x ∷ xs) w n (suc room) h =
    let free : (n == 10) ≡ false = ground arith in
    rw free (
      add_items_lem xs (add_item x w) (n + 1) room (omega arith)
      ∙ ap₂ (λ x y. (x, y))
          (ap (λ z. z ++ concat (map item_bytes (take room xs))) (add_item_append x w)
            ∙ append_assoc w (item_bytes x) _)
          (omega arith))

add_creatures_lem :
    (cs : List PlacedCreature) (wx wy nz : ℤ) (w : Bytes) (n : ℕ)
    → n ≤ 255
    → let chunks = creature_chunks cs wx wy nz in
      add_creatures cs wx wy nz (w, n) ≡ (w ++ concat chunks, min 255 (n + length chunks))
unfolding add_creatures creature_chunks
add_creatures_lem [] wx wy nz w n h = ap₂ (λ x y. (x, y)) (sym (append-nil w)) (omega arith)
add_creatures_lem (c ∷ cs) wx wy nz w n h = elim (Bool-cases (stands_at c wx wy nz)) [
  | inl here ↦ rw here (
      add_creatures_lem cs wx wy nz (w ++ c.bytes) (saturating_suc n) (ground arith)
      ∙ ap₂ (λ x y. (x, y)) (append_assoc w c.bytes _) (ground arith))
  | inr away ↦ rw away (add_creatures_lem cs wx wy nz w n h)
]

-- The items above the creatures, on the count `t` of the things written before them.
above_lem :
    (post : List WireItem) (w : Bytes) (n t : ℕ)
    → t ≡ min 255 n
    → (if ltb t 10 then (add_items post (w, t)).0 else w)
      ≡ w ++ concat (map item_bytes (take (10 - n) post))
above_lem post w n t e = elim (Bool-cases (ltb t 10)) [
  | inl few ↦ rw few (
      ap (λ p. p.0) (add_items_lem post w t (10 - t) (ground arith))
      ∙ ap (λ k. w ++ concat (map item_bytes (take (10 - k) post))) (ground arith))
  | inr full ↦
      let none_left : 10 - n ≡ 0 = ground arith in rw full (rw none_left (sym (append-nil w)))
]

-- The encoder writes a tile as an empty environment word and its chunks.
pub write_tile_lem :
    (slices : TileSlices) (cs : List PlacedCreature) (wx wy nz : ℤ) (w : Bytes)
    → write_tile slices cs wx wy nz w ≡ w ++ (0 ∷ 0 ∷ concat (tile_chunks slices cs wx wy nz))
unfolding write_tile tile_chunks
write_tile_lem slices cs wx wy nz w =
    let below = map item_bytes (take 10 slices.pre_creature) in
    let middle = creature_chunks cs wx wy nz in
    let few : length below ≤ 10 = omega (
      arith,
      length-map (take 10 slices.pre_creature) item_bytes,
      length-take 10 slices.pre_creature,
    ) in
    rw (add_items_lem slices.pre_creature (w ++ (0 ∷ 0 ∷ [])) 0 10 (omega arith)) (
      rw
        (add_creatures_lem cs wx wy nz ((w ++ (0 ∷ 0 ∷ [])) ++ concat below) (0 + length below)
          (omega arith))
        (above_lem slices.post_creature ((w ++ (0 ∷ 0 ∷ [])) ++ concat below ++ concat middle)
            (length below + length middle) (min 255 (0 + length below + length middle))
            (omega arith)
          ∙ simp (concat-append, append_assoc)))

-- All that stands on a tile, in the order in which a client shows it.
abbrev pub all_chunks : TileSlices → List PlacedCreature → ℤ → ℤ → ℤ → List Bytes
all_chunks slices creatures wx wy nz =
    map item_bytes slices.pre_creature
    ++ (creature_chunks creatures wx wy nz ++ map item_bytes slices.post_creature)

first_ten :
    (slices : TileSlices) (cs : List PlacedCreature) (wx wy nz : ℤ)
    → min 10 (length slices.pre_creature) + length (creature_chunks cs wx wy nz) ≤ 10
    → tile_chunks slices cs wx wy nz ≡ take 10 (all_chunks slices cs wx wy nz)
unfolding tile_chunks
first_ten slices cs wx wy nz h =
    let pre = slices.pre_creature in
    let post = slices.post_creature in
    let middle = creature_chunks cs wx wy nz in
    let below = map item_bytes pre in
    let above = map item_bytes post in
    let size = length-map pre item_bytes in
    let kept : length (map item_bytes (take 10 pre)) ≡ min 10 (length pre) =
      length-map (take 10 pre) item_bytes ∙ length-take 10 pre in
    let room : 10 - length below - length middle
        ≡ 10 - (length (map item_bytes (take 10 pre)) + length middle) =
      omega (arith, size, kept) in
    sym (
      take-append 10 below (middle ++ above)
      ∙ ap₂ (λ x y. x ++ y) (take-map 10 pre item_bytes)
          (take-append (10 - length below) middle above
            ∙ ap₂ (λ x y. x ++ y) (take_all (10 - length below) middle (omega (arith, size)))
                (take-map (10 - length below - length middle) post item_bytes
                  ∙ ap (λ n. map item_bytes (take n post)) room)))

-- On a tile where the items below, of which ten are written at most, and the creatures are ten things
-- or fewer, the encoder writes an empty environment word and then exactly the first ten of all that
-- stands there: the items below, then the creatures that stand on the tile, then the items above.
pub write_tile-take :
    (slices : TileSlices) (cs : List PlacedCreature) (wx wy nz : ℤ) (w : Bytes)
    → min 10 (length slices.pre_creature) + length (creature_chunks cs wx wy nz) ≤ 10
    → write_tile slices cs wx wy nz w
      ≡ w ++ (0 ∷ 0 ∷ concat (take 10 (all_chunks slices cs wx wy nz)))
write_tile-take slices cs wx wy nz w h =
    write_tile_lem slices cs wx wy nz w
    ∙ ap (λ l. w ++ (0 ∷ 0 ∷ concat l)) (first_ten slices cs wx wy nz h)
