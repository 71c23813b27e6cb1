-- ===== src/Protocol/Walk/Auto.antt =====
-- The client's request to walk along a path (`parse_auto_walk`) and where the path ends
-- (`auto_walk_destination`).
use package.oxidia.Prelude.{
  ℕ, suc, ◌+◌, ◌≤◌, ◌≡◌, refl, sym, ap, ◌∙◌, List, [], ◌∷◌, ◌++◌, some, arith, ◌↔◌, zero, map,
  length, length-map, length-append, take, take_append, Bool-cases, inl, inr, ltb, ◌==◌, ◌||◌,
  false, true, subst,
}
use package.oxidia.Prelude.Int.{ℤ, pos, negsuc, ◌+ℤ◌, pos_part, +ℤ_assoc, int_laws}
use package.oxidia.World.Position.{Direction, delta}
use package.oxidia.Protocol.Bytes.{Bytes}
use package.oxidia.Protocol.Walk.{
  AutoWalkStep, filter_steps, none_if_empty, parse_auto_walk, auto_walk_delta, Coords, in_u16,
  auto_walk_destination,
}

-- The byte that a client sends for a step.
abbrev pub byte_of_step : AutoWalkStep → ℕ
byte_of_step AutoWalkStep.east = 1
byte_of_step AutoWalkStep.north_east = 2
byte_of_step AutoWalkStep.north = 3
byte_of_step AutoWalkStep.north_west = 4
byte_of_step AutoWalkStep.west = 5
byte_of_step AutoWalkStep.south_west = 6
byte_of_step AutoWalkStep.south = 7
byte_of_step AutoWalkStep.south_east = 8

filter_steps-map : (ss : List AutoWalkStep) → filter_steps (map byte_of_step ss) ≡ ss
unfolding filter_steps
filter_steps-map [] = refl
filter_steps-map (AutoWalkStep.east ∷ ss) = ap (λ t. AutoWalkStep.east ∷ t) (filter_steps-map ss)
filter_steps-map (AutoWalkStep.north_east ∷ ss) =
    ap (λ t. AutoWalkStep.north_east ∷ t) (filter_steps-map ss)
filter_steps-map (AutoWalkStep.north ∷ ss) = ap (λ t. AutoWalkStep.north ∷ t) (filter_steps-map ss)
filter_steps-map (AutoWalkStep.north_west ∷ ss) =
    ap (λ t. AutoWalkStep.north_west ∷ t) (filter_steps-map ss)
filter_steps-map (AutoWalkStep.west ∷ ss) = ap (λ t. AutoWalkStep.west ∷ t) (filter_steps-map ss)
filter_steps-map (AutoWalkStep.south_west ∷ ss) =
    ap (λ t. AutoWalkStep.south_west ∷ t) (filter_steps-map ss)
filter_steps-map (AutoWalkStep.south ∷ ss) = ap (λ t. AutoWalkStep.south ∷ t) (filter_steps-map ss)
filter_steps-map (AutoWalkStep.south_east ∷ ss) =
    ap (λ t. AutoWalkStep.south_east ∷ t) (filter_steps-map ss)

-- A path of one step at least, as a client writes it, is read back whatever follows in the packet.
pub parse_auto_walk_lem :
    (s : AutoWalkStep) (ss : List AutoWalkStep) (rest : Bytes)
    → parse_auto_walk (length (s ∷ ss) ∷ (map byte_of_step (s ∷ ss) ++ rest)) ≡ some (s ∷ ss)
unfolding parse_auto_walk
parse_auto_walk_lem s ss rest =
    let dirs = map byte_of_step (s ∷ ss) in
    let size : length dirs ≡ length (s ∷ ss) = length-map (s ∷ ss) byte_of_step in
    let enough : (length (s ∷ ss) == 0 || ltb (suc (length (dirs ++ rest))) (1 + length (s ∷ ss)))
        ≡ false =
      ground (arith, length-append dirs rest) in
    let cut : take (length (s ∷ ss)) (dirs ++ rest) ≡ dirs =
      subst (λ n. take n (dirs ++ rest) ≡ dirs) size (take_append dirs rest) in
    let back : filter_steps (take (length (s ∷ ss)) (dirs ++ rest)) ≡ s ∷ ss =
      ap filter_steps cut ∙ filter_steps-map (s ∷ ss) in
    rw enough (ap none_if_empty back)

-- The direction of the world that a step is named after.
abbrev pub direction_of : AutoWalkStep → Direction
direction_of AutoWalkStep.east = Direction.east
direction_of AutoWalkStep.north_east = Direction.north_east
direction_of AutoWalkStep.north = Direction.north
direction_of AutoWalkStep.north_west = Direction.north_west
direction_of AutoWalkStep.west = Direction.west
direction_of AutoWalkStep.south_west = Direction.south_west
direction_of AutoWalkStep.south = Direction.south
direction_of AutoWalkStep.south_east = Direction.south_east

auto_walk_delta-direction : (s : AutoWalkStep) → auto_walk_delta s ≡ delta (direction_of s)
auto_walk_delta-direction AutoWalkStep.east = refl
auto_walk_delta-direction AutoWalkStep.north_east = refl
auto_walk_delta-direction AutoWalkStep.north = refl
auto_walk_delta-direction AutoWalkStep.north_west = refl
auto_walk_delta-direction AutoWalkStep.west = refl
auto_walk_delta-direction AutoWalkStep.south_west = refl
auto_walk_delta-direction AutoWalkStep.south = refl
auto_walk_delta-direction AutoWalkStep.south_east = refl

-- The displacement of a path, by the table that the world keeps for its directions.
pub total_delta : List AutoWalkStep → ℤ × ℤ
total_delta [] = (pos 0, pos 0)
total_delta (s ∷ ss) =
    let (dx, dy) = delta (direction_of s) in let (x, y) = total_delta ss in (dx +ℤ x, dy +ℤ y)

kept : (v : ℤ) → in_u16 v ≡ true → (v ≡ pos (pos_part v)) × (pos_part v ≤ 65535)
kept (pos n) h = (refl, ground arith)
kept (negsuc n) h = absurd (ground arith)

sum_step : (q p d e : ℤ) (n : ℕ) → p +ℤ d ≡ pos n → q ≡ pos n +ℤ e → q ≡ p +ℤ (d +ℤ e)
sum_step q p d e n from to = to ∙ ap (λ t. t +ℤ e) (sym from) ∙ +ℤ_assoc p d e

-- A destination that is found is the start moved by the sum of what the world's directions of the
-- same names make of the steps, on the same floor and on the map.
pub auto_walk_destination_lem :
    (p : Coords) (ss : List AutoWalkStep) (q : Coords)
    → p.x ≤ 65535
    → p.y ≤ 65535
    → auto_walk_destination p ss ≡ some q
    → (pos q.x ≡ pos p.x +ℤ (total_delta ss).0)
      × (pos q.y ≡ pos p.y +ℤ (total_delta ss).1)
      × (q.z ≡ p.z)
      × (q.x ≤ 65535)
      × (q.y ≤ 65535)
unfolding auto_walk_destination total_delta
auto_walk_destination_lem p [] q hx hy e = unfold ◌+ℤ◌ in ground arith
auto_walk_destination_lem p (s ∷ ss) q hx hy e =
    let nx = pos p.x +ℤ (auto_walk_delta s).0 in
    let ny = pos p.y +ℤ (auto_walk_delta s).1 in
    elim (Bool-cases (in_u16 nx)) [
      | inr off ↦ absurd (ground arith)
      | inl in_x ↦ elim (Bool-cases (in_u16 ny)) [
        | inr off ↦ absurd (ground arith)
        | inl in_y ↦
            let (ex, kx) = kept nx in_x in
            let (ey, ky) = kept ny in_y in
            let next : Coords = record { x = pos_part nx; y = pos_part ny; z = p.z } in
            let later : auto_walk_destination next ss ≡ some q = rw (in_x, in_y) at e in
            let (gx, gy, gz, lx, ly) = auto_walk_destination_lem next ss q kx ky later in
            (
              sum_step (pos q.x) (pos p.x) (delta (direction_of s)).0 (total_delta ss).0
                  (pos_part nx) (ap (λ d. pos p.x +ℤ d.0) (sym (auto_walk_delta-direction s)) ∙ ex)
                  gx,
              sum_step (pos q.y) (pos p.y) (delta (direction_of s)).1 (total_delta ss).1
                  (pos_part ny) (ap (λ d. pos p.y +ℤ d.1) (sym (auto_walk_delta-direction s)) ∙ ey)
                  gy,
              gz,
              lx,
              ly,
            )
      ]
    ]

abbrev pub InU16 : ℤ → Type 0
InU16 v = (n : ℕ) × (v ≡ pos n) × (n ≤ 65535)

-- No beginning of the path leads off the map.
abbrev pub StaysOnMap : Coords → List AutoWalkStep → Type 0
StaysOnMap p ss =
    (n : ℕ)
    → InU16 (pos p.x +ℤ (total_delta (take n ss)).0)
      × InU16 (pos p.y +ℤ (total_delta (take n ss)).1)

in_u16_iff : (v : ℤ) → (in_u16 v ≡ true) ↔ InU16 v
in_u16_iff (pos n) = (λ h. (n, refl, ground arith), λ (k, e, low). ground arith)
in_u16_iff (negsuc n) = (λ h. absurd (ground arith), λ (k, e, low). absurd (ground arith))

step_coords : Coords → AutoWalkStep → Coords
step_coords p s = record {
  x = pos_part (pos p.x +ℤ (auto_walk_delta s).0);
  y = pos_part (pos p.y +ℤ (auto_walk_delta s).1);
  z = p.z;
}

-- A coordinate after one step that stays on the map, and sums from there.
module _ (c d d' : ℤ) (same : d' ≡ d) (inside : in_u16 (c +ℤ d') ≡ true) where
  here_sum : c +ℤ d ≡ pos (pos_part (c +ℤ d'))
  here_sum = ap (λ t. c +ℤ t) (sym same) ∙ (kept (c +ℤ d') inside).0

  later_sum : (e : ℤ) → pos (pos_part (c +ℤ d')) +ℤ e ≡ c +ℤ (d +ℤ e)
  later_sum e = ap (λ t. t +ℤ e) (sym here_sum) ∙ +ℤ_assoc c d e

+ℤ-zero : (v : ℤ) → v +ℤ pos 0 ≡ v
+ℤ-zero v = omega int_laws

start_stays : (p : Coords) → p.x ≤ 65535 → p.y ≤ 65535 → StaysOnMap p []
unfolding total_delta
start_stays p hx hy zero = ((p.x, +ℤ-zero (pos p.x), hx), (p.y, +ℤ-zero (pos p.y), hy))
start_stays p hx hy (suc n) = ((p.x, +ℤ-zero (pos p.x), hx), (p.y, +ℤ-zero (pos p.y), hy))

-- The first step of a path that stays on the map.
first_inside :
    (p : Coords) (s : AutoWalkStep) (ss : List AutoWalkStep)
    → StaysOnMap p (s ∷ ss)
    → (in_u16 (pos p.x +ℤ (auto_walk_delta s).0) ≡ true)
      × (in_u16 (pos p.y +ℤ (auto_walk_delta s).1) ≡ true)
unfolding total_delta
first_inside p s ss h =
    let (hx, hy) = h 1 in
    let same = auto_walk_delta-direction s in
    (
      (in_u16_iff _).1 (
          subst InU16
            (ap (λ t. pos p.x +ℤ t) (+ℤ-zero (delta (direction_of s)).0 ∙ ap (λ d. d.0) (sym same)))
            hx),
      (in_u16_iff _).1 (
          subst InU16
            (ap (λ t. pos p.y +ℤ t) (+ℤ-zero (delta (direction_of s)).1 ∙ ap (λ d. d.1) (sym same)))
            hy),
    )

-- With a first step that stays on the map, the path stays if the rest of it does.
rest_stays :
    (p : Coords) (s : AutoWalkStep) (ss : List AutoWalkStep)
    → p.x ≤ 65535
    → p.y ≤ 65535
    → in_u16 (pos p.x +ℤ (auto_walk_delta s).0) ≡ true
    → in_u16 (pos p.y +ℤ (auto_walk_delta s).1) ≡ true
    → StaysOnMap p (s ∷ ss) ↔ StaysOnMap (step_coords p s) ss
unfolding total_delta step_coords
rest_stays p s ss hx hy ix iy =
    let same = auto_walk_delta-direction s in
    let sum_x = later_sum (pos p.x) (delta (direction_of s)).0 _ (ap (λ d. d.0) same) ix in
    let sum_y = later_sum (pos p.y) (delta (direction_of s)).1 _ (ap (λ d. d.1) same) iy in
    (
      λ h n.
          let (kx, ky) = h (suc n) in
          (subst InU16 (sym (sum_x _)) kx, subst InU16 (sym (sum_y _)) ky),
      λ h n.
          elim n
            as (λ k.
              InU16 (pos p.x +ℤ (total_delta (take k (s ∷ ss))).0)
              × InU16 (pos p.y +ℤ (total_delta (take k (s ∷ ss))).1)) [
                | zero ↦ start_stays p hx hy zero
                | suc n' ↦
                    let (kx, ky) = h n' in (subst InU16 (sum_x _) kx, subst InU16 (sum_y _) ky)
              ],
    )

-- From a place on the map, a path ends at a place exactly if no beginning of it leads off the map.
pub auto_walk_destination_iff :
    (p : Coords) (ss : List AutoWalkStep)
    → p.x ≤ 65535
    → p.y ≤ 65535
    → StaysOnMap p ss ↔ ((q : Coords) × (auto_walk_destination p ss ≡ some q))
unfolding auto_walk_destination total_delta step_coords
auto_walk_destination_iff p [] hx hy = (λ h. (p, refl), λ found. start_stays p hx hy)
auto_walk_destination_iff p (s ∷ ss) hx hy =
    let nx = pos p.x +ℤ (auto_walk_delta s).0 in
    let ny = pos p.y +ℤ (auto_walk_delta s).1 in
    elim (Bool-cases (in_u16 nx)) [
      | inr off ↦ (
        λ h. let no = (first_inside p s ss h).0 in absurd (ground arith),
        λ (q, e). let no = rw off at e in absurd (ground arith),
      )
      | inl ix ↦ elim (Bool-cases (in_u16 ny)) [
        | inr off ↦ (
          λ h. let no = (first_inside p s ss h).1 in absurd (ground arith),
          λ (q, e). let no = rw (ix, off) at e in absurd (ground arith),
        )
        | inl iy ↦
            let (there, back) =
              auto_walk_destination_iff (step_coords p s) ss (kept nx ix).1 (kept ny iy).1 in
            let (rest, whole) = rest_stays p s ss hx hy ix iy in
            (
              λ h. let (q, e) = there (rest h) in (q, rw (ix, iy) e),
              λ (q, e). whole (back (q, rw (ix, iy) at e)),
            )
      ]
    ]
