-- ===== src/Protocol/Walk/Window.antt =====
-- About the positions that a window of the map description holds, and the windows of a view before
-- and after a step.
use package.oxidia.Prelude.{
  ℕ, zero, suc, ◌+◌, ◌<◌, ◌≡◌, refl, ap, ap₂, ◌∙◌, inl, inr, List, [], ◌∷◌, arith,
}
use mathlib.Core.List.{Memᴰ}
use mathlib.Core.List.Memᴰ
use package.oxidia.Prelude.Int.{ℤ, pos, ◌+ℤ◌, ◌-ℤ◌}
use package.oxidia.Protocol.MapDescription.Stream.{Spot, column_spots, row_spots}
use package.oxidia.Protocol.MapDescription.Floors.{floor_spots}

-- The spot at column `i` and row `j` of the floor `nz`.
abbrev pub spot_at : ℤ → ℤ → ℤ → ℤ → ℕ → ℕ → Spot
spot_at ax ay nz offset i j = record {
  wx = ax +ℤ pos i +ℤ offset;
  wy = ay +ℤ pos j +ℤ offset;
  wz = nz;
}

pub record Inside (ax ay z : ℤ) (w h : ℕ) (fs : List ℤ) (p : Spot) : Type 0 where
  pub floor : ℤ
  pub visible : Memᴰ floor fs
  pub column : ℕ
  pub row : ℕ
  pub left : column < w
  pub low : row < h
  pub here : p ≡ spot_at ax ay floor (z -ℤ floor) column row

module _ (ax ay nz offset : ℤ) where
  column_member :
      (left nx ny : ℕ) (p : Spot)
      → Memᴰ p (column_spots left nx ny ax ay nz offset)
      → (j : ℕ) × (j < ny + left) × (p ≡ spot_at ax ay nz offset nx j)
  unfolding column_spots
  column_member zero nx ny p m = absurd (Memᴰ.not-nil m)
  column_member (suc left) nx ny p m = elim (Memᴰ.cases_cons m) [
    | inl e ↦ (ny, omega arith, e)
    | inr later ↦ let (j, h, e) = column_member left nx (ny + 1) p later in (j, omega arith, e)
  ]

  row_member :
      (left nx h : ℕ) (p : Spot)
      → Memᴰ p (row_spots left nx h ax ay nz offset)
      → (i : ℕ) × (j : ℕ) × (i < nx + left) × (j < h) × (p ≡ spot_at ax ay nz offset i j)
  unfolding row_spots
  row_member zero nx h p m = absurd (Memᴰ.not-nil m)
  row_member (suc left) nx h p m =
      elim (Memᴰ.append_cases (column_spots h nx 0 ax ay nz offset) m) [
        | inl here ↦
            let (j, k, e) = column_member h nx 0 p here in (nx, j, omega arith, omega arith, e)
        | inr later ↦
            let (i, j, k, l, e) = row_member left (nx + 1) h p later in (i, j, omega arith, l, e)
      ]

  member_column :
      (left nx ny k : ℕ)
      → k < left
      → Memᴰ (spot_at ax ay nz offset nx (ny + k)) (column_spots left nx ny ax ay nz offset)
  unfolding column_spots
  member_column zero nx ny k h = absurd (omega arith)
  member_column (suc left) nx ny zero h = Memᴰ.head (ap (spot_at ax ay nz offset nx) (omega arith))
  member_column (suc left) nx ny (suc k) h = Memᴰ.tail (
      Memᴰ.cast (ap (spot_at ax ay nz offset nx) (omega arith))
        (member_column left nx (ny + 1) k (omega arith)))

  member_row :
      (left nx h i j : ℕ)
      → i < left
      → j < h
      → Memᴰ (spot_at ax ay nz offset (nx + i) j) (row_spots left nx h ax ay nz offset)
  unfolding row_spots
  member_row zero nx h i j k l = absurd (omega arith)
  member_row (suc left) nx h zero j k l =
      Memᴰ.append_left (row_spots left (nx + 1) h ax ay nz offset) (
        Memᴰ.cast (ap₂ (spot_at ax ay nz offset) (omega arith) (omega arith))
          (member_column h nx 0 j l))
  member_row (suc left) nx h (suc i) j k l =
      Memᴰ.append_right (column_spots h nx 0 ax ay nz offset) (
        Memᴰ.cast (ap (λ c. spot_at ax ay nz offset c j) (omega arith))
          (member_row left (nx + 1) h i j (omega arith) l))

module _ (ax ay z : ℤ) (w h : ℕ) where
  pub Inside-of_member :
      (fs : List ℤ) (p : Spot) → Memᴰ p (floor_spots ax ay z w h fs) → Inside ax ay z w h fs p
  unfolding floor_spots
  Inside-of_member [] p m = absurd (Memᴰ.not-nil m)
  Inside-of_member (nz ∷ fs) p m = elim (Memᴰ.append_cases (row_spots w 0 h ax ay nz (z -ℤ nz)) m) [
    | inl here ↦
        let (i, j, k, l, e) = row_member ax ay nz (z -ℤ nz) w 0 h p here in
        record {
          floor = nz;
          visible = Memᴰ.head refl;
          column = i;
          row = j;
          left = omega arith;
          low = l;
          here = e;
        }
    | inr later ↦
        let it = Inside-of_member fs p later in
        record {
          floor = it.floor;
          visible = Memᴰ.tail it.visible;
          column = it.column;
          row = it.row;
          left = it.left;
          low = it.low;
          here = it.here;
        }
  ]

  floor_member :
      (fs : List ℤ) (f : ℤ) (i j : ℕ)
      → Memᴰ f fs
      → i < w
      → j < h
      → Memᴰ (spot_at ax ay f (z -ℤ f) i j) (floor_spots ax ay z w h fs)
  unfolding floor_spots
  floor_member [] f i j m k l = absurd (Memᴰ.not-nil m)
  floor_member (nz ∷ fs) f i j m k l = elim (Memᴰ.cases_cons m) [
    | inl e ↦ Memᴰ.append_left (floor_spots ax ay z w h fs) (
        Memᴰ.cast (ap₂ (λ g c. spot_at ax ay g (z -ℤ g) c j) e (omega arith))
          (member_row ax ay nz (z -ℤ nz) w 0 h i j k l))
    | inr later ↦
        Memᴰ.append_right (row_spots w 0 h ax ay nz (z -ℤ nz)) (floor_member fs f i j later k l)
  ]

  pub member_of_inside :
      (fs : List ℤ) (p : Spot) → Inside ax ay z w h fs p → Memᴰ p (floor_spots ax ay z w h fs)
  member_of_inside fs p it =
      Memᴰ.cast it.here (floor_member fs it.floor it.column it.row it.visible it.left it.low)

-- The same spot in another window, by its column and row there.
pub move-Inside :
    {ax ay ax' ay' z : ℤ} {w h w' h' : ℕ} {fs : List ℤ} {p : Spot} (it : Inside ax ay z w h fs p)
    (i j : ℕ)
    → i < w'
    → j < h'
    → ax +ℤ pos it.column ≡ ax' +ℤ pos i
    → ay +ℤ pos it.row ≡ ay' +ℤ pos j
    → Inside ax' ay' z w' h' fs p
move-Inside {z = z} it i j k l ex ey = record {
  floor = it.floor;
  visible = it.visible;
  column = i;
  row = j;
  left = k;
  low = l;
  here =
      it.here
      ∙ ap₂ (λ a b. record { wx = a +ℤ (z -ℤ it.floor); wy = b +ℤ (z -ℤ it.floor); wz = it.floor })
          ex ey;
}
