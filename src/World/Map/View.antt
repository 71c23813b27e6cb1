-- ===== src/World/Map/View.antt =====
-- About the chunks around a place and the map description of the place: the view of
-- crates/protocol/src/map_description.rs against `chunks_around` of crates/world/src/map.rs.
use package.oxidia.Prelude.{
  ℕ, zero, suc, ◌+◌, ◌-◌, ◌/◌, ◌≤◌, ◌<◌, ◌≡◌, ap, ◌∙◌, subst, ◌⊎◌, inl, inr, min, List, ◌++◌, arith,
  ltb, Bool-cases,
}
use mathlib.Core.List.{Memᴰ}
use mathlib.Core.List.Memᴰ
use package.oxidia.Prelude.Int.{ℤ, pos, negsuc, ◌+ℤ◌, ◌-ℤ◌, int_laws, pos_part, neg_part}
use package.oxidia.World.Position.{Position}
use package.oxidia.World.Map.{
  ChunkId, chunk_id, viewport_floor_span, chunk_row, chunk_grid, chunk_floors, chunks_around,
}
use package.oxidia.Protocol.MapDescription.Stream.{Spot}
use package.oxidia.Protocol.MapDescription.Floors.{up_floors, down_floors, visible_floors}
use package.oxidia.Protocol.Walk.{Coords}
use package.oxidia.Protocol.Walk.Update.{view}
use package.oxidia.Protocol.Walk.Window.{Inside-of_member}

abbrev id_at : ℤ → ℤ → ℕ → ChunkId
id_at cx cy z = record { cx = cx; cy = cy; z = z }

abbrev pub spot_of : Position → Spot
spot_of q = record { wx = pos q.x; wy = pos q.y; wz = pos q.z }

near_cases :
    (a b : ℕ)
    → a ≤ b + 1
    → b ≤ a + 1
    → (pos a ≡ pos b +ℤ negsuc 0) ⊎ (pos a ≡ pos b +ℤ pos 0) ⊎ (pos a ≡ pos b +ℤ pos 1)
unfolding ◌+ℤ◌
near_cases a b h k = ground arith

in_row :
    (a b z : ℕ) (cy : ℤ)
    → a ≤ b + 1
    → b ≤ a + 1
    → Memᴰ (id_at (pos a) cy z) (chunk_row (pos b) cy z)
unfolding chunk_row
in_row a b z cy h k = elim (near_cases a b h k) [
  | inl e ↦ Memᴰ.head (ap (λ c. id_at c cy z) e)
  | inr (inl e) ↦ Memᴰ.tail (Memᴰ.head (ap (λ c. id_at c cy z) e))
  | inr (inr e) ↦ Memᴰ.tail (Memᴰ.tail (Memᴰ.head (ap (λ c. id_at c cy z) e)))
]

in_grid :
    (a b a' b' z : ℕ)
    → a ≤ b + 1
    → b ≤ a + 1
    → a' ≤ b' + 1
    → b' ≤ a' + 1
    → Memᴰ (id_at (pos a) (pos a') z) (chunk_grid (pos b) (pos b') z)
unfolding chunk_grid
in_grid a b a' b' z h k h' k' = elim (near_cases a' b' h' k') [
  | inl e ↦ Memᴰ.append_left (row (pos b' +ℤ pos 0) ++ row (pos b' +ℤ pos 1)) (at e)
  | inr (inl e) ↦
      Memᴰ.append_right (row (pos b' +ℤ negsuc 0)) (Memᴰ.append_left (row (pos b' +ℤ pos 1)) (at e))
  | inr (inr e) ↦
      Memᴰ.append_right (row (pos b' +ℤ negsuc 0))
        (Memᴰ.append_right (row (pos b' +ℤ pos 0)) (at e))
]
  where
    row : ℤ → List ChunkId
    row cy = chunk_row (pos b) cy z

    at : {cy : ℤ} → pos a' ≡ cy → Memᴰ (id_at (pos a) (pos a') z) (chunk_row (pos b) cy z)
    at e =
        subst (λ cy. Memᴰ (id_at (pos a) (pos a') z) (chunk_row (pos b) cy z)) e
          (in_row a b z (pos a') h k)

in_floors :
    (left : ℕ) (cx cy : ℤ) (z0 z : ℕ) (id : ChunkId)
    → z0 ≤ z
    → z < z0 + left
    → Memᴰ id (chunk_grid cx cy z)
    → Memᴰ id (chunk_floors left cx cy z0)
unfolding chunk_floors
in_floors zero cx cy z0 z id h k m = absurd (omega arith)
in_floors (suc left) cx cy z0 z id h k m = elim (Bool-cases (ltb z0 z)) [
  | inl above ↦
      Memᴰ.append_right (chunk_grid cx cy z0)
        (in_floors left cx cy (z0 + 1) z id (ground arith) (omega arith) m)
  | inr here ↦
      let e : z ≡ z0 = ground arith in
      Memᴰ.append_left (chunk_floors left cx cy (z0 + 1)) (rw e at m)
]

pub up_member :
    (a n : ℕ) (nz : ℤ) → Memᴰ nz (up_floors a n) → (f : ℕ) × (nz ≡ pos f) × (a ≤ f) × (f ≤ a + n)
unfolding up_floors
up_member a zero nz m = elim (Memᴰ.cases_cons m) [
  | inl e ↦ (a, e, omega arith, omega arith)
  | inr later ↦ absurd (Memᴰ.not-nil later)
]
up_member a (suc n) nz m = elim (Memᴰ.cases_cons m) [
  | inl e ↦ (a, e, omega arith, omega arith)
  | inr later ↦ let (f, e, h, k) = up_member (a + 1) n nz later in (f, e, omega arith, omega arith)
]

pub down_member : (n : ℕ) (nz : ℤ) → Memᴰ nz (down_floors n) → (f : ℕ) × (nz ≡ pos f) × (f ≤ n)
unfolding down_floors
down_member zero nz m = elim (Memᴰ.cases_cons m) [
  | inl e ↦ (0, e, omega arith)
  | inr later ↦ absurd (Memᴰ.not-nil later)
]
down_member (suc n) nz m = elim (Memᴰ.cases_cons m) [
  | inl e ↦ (suc n, e, omega arith)
  | inr later ↦ let (f, e, h) = down_member n nz later in (f, e, omega arith)
]

-- A floor that is sent is a floor that is kept, and at most seven away.
floor_kept :
    (z : ℕ) (nz : ℤ)
    → z ≤ 15
    → Memᴰ nz (visible_floors z)
    → (f : ℕ) × (nz ≡ pos f)
      × ((viewport_floor_span z).0 ≤ f)
      × (f ≤ (viewport_floor_span z).1)
      × (f ≤ z + 7)
      × (z ≤ f + 7)
unfolding visible_floors viewport_floor_span
floor_kept z nz low m = elim (Bool-cases (ltb 7 z)) [
  | inl under ↦
      let (f, e, h, k) = up_member (z - 2) (min (z + 2) 15 - (z - 2)) nz (rw under at m) in
      (f, e, ground arith, ground arith, ground arith, ground arith)
  | inr over ↦
      let (f, e, h) = down_member 7 nz (rw over at m) in
      (f, e, ground arith, ground arith, ground arith, ground arith)
]

shift_bounds :
    (x c i size half : ℕ) (z f : ℕ)
    → pos x ≡ pos c -ℤ pos half +ℤ pos i +ℤ (pos z -ℤ pos f)
    → i < size
    → size ≤ 18
    → half ≤ 8
    → f ≤ z + 7
    → z ≤ f + 7
    → (x / 256 ≤ c / 256 + 1) × (c / 256 ≤ x / 256 + 1)
shift_bounds x c i size half z f e h k l a b =
    let up = ap pos_part e in
    let dn = ap neg_part e in
    let flat : x + half + f ≡ c + i + z = omega int_laws in (omega arith, omega arith)

-- For a place down to floor 15: every tile of the map that its view asks for is in one of the chunks
-- that are kept around it.
pub chunks_around-view :
    (c : Coords) (q : Position)
    → c.z ≤ 15
    → Memᴰ (spot_of q) (view c)
    → Memᴰ (chunk_id q) (chunks_around (record { x = c.x; y = c.y; z = c.z }))
unfolding view chunk_id chunks_around
chunks_around-view c q low m =
    let it =
      Inside-of_member (pos c.x -ℤ pos 8) (pos c.y -ℤ pos 6) (pos c.z) 18 14 (visible_floors c.z)
        (spot_of q) m in
    let (f, is_f, above, below, near, far) = floor_kept c.z it.floor low it.visible in
    let at_floor : q.z ≡ f = ap pos_part (ap (λ (p : Spot). p.wz) it.here ∙ is_f) in
    let bx =
      shift_bounds q.x c.x it.column 18 8 c.z f (rw is_f at (ap (λ (p : Spot). p.wx) it.here))
        it.left (omega arith) (omega arith) near far in
    let by =
      shift_bounds q.y c.y it.row 14 6 c.z f (rw is_f at (ap (λ (p : Spot). p.wy) it.here)) it.low
        (omega arith) (omega arith) near far in
    let (z0, z1) = viewport_floor_span c.z in
    in_floors (z1 + 1 - z0) (pos (c.x / 256)) (pos (c.y / 256)) z0 q.z (chunk_id q) (omega arith)
      (omega arith)
      (in_grid (q.x / 256) (c.x / 256) (q.y / 256) (c.y / 256) q.z bx.0 bx.1 by.0 by.1)
