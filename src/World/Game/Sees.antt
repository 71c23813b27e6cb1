-- ===== src/World/Game/Sees.antt =====
-- About who sees what: the test of the game (crates/world/src/game/mod.rs) against the view that the
-- map description sends (crates/protocol/src/map_description.rs).
use package.oxidia.Prelude.{
  ℕ, zero, suc, ◌+◌, ◌-◌, ◌≤◌, ◌≡◌, refl, sym, ap, ◌∙◌, subst, ◌↔◌, inl, inr, Bool, true, ◌&&◌,
  arith, if◌then◌else◌, ltb, leb, Bool-cases, min,
}
use mathlib.Core.List.{Memᴰ}
use package.oxidia.Prelude.Int.{ℤ, pos, negsuc, pos_part, neg_part, ◌+ℤ◌, ◌-ℤ◌, int_laws}
use package.oxidia.Protocol.MapDescription.Stream.{Spot}
use package.oxidia.Protocol.MapDescription.Floors.{visible_floors, up_floors, down_floors}
use package.oxidia.Protocol.Walk.{Coords}
use package.oxidia.Protocol.Walk.Window.{Inside-of_member, member_of_inside}
use package.oxidia.Protocol.Walk.Update.{view}
use package.oxidia.World.Position.{Position}
use package.oxidia.World.Map.Sight.{abs_diff}
use package.oxidia.World.Map.View.{spot_of, up_member, down_member}
use package.oxidia.World.Game.View.{can_see, between}

abbrev pub coords : Position → Coords
coords p = record { x = p.x; y = p.y; z = p.z }

-- A shift of `x` from `c` within a span, in numbers.
between_lem :
    (a b x c z f : ℕ)
    → between (negsuc a) (pos b) (pos x -ℤ pos c -ℤ (pos z -ℤ pos f)) ≡ true
    → (c + z ≤ x + f + a + 1) × (x + f ≤ c + z + b)
unfolding ◌-ℤ◌
between_lem a b x c z f h = ground arith

lem-between :
    (a b x c z f : ℕ)
    → c + z ≤ x + f + a + 1
    → x + f ≤ c + z + b
    → between (negsuc a) (pos b) (pos x -ℤ pos c -ℤ (pos z -ℤ pos f)) ≡ true
unfolding ◌-ℤ◌
lem-between a b x c z f h k = ground arith

member_up : (a n f : ℕ) → a ≤ f → f ≤ a + n → Memᴰ (pos f) (up_floors a n)
unfolding up_floors
member_up a zero f h k = Memᴰ.head (ap pos (omega arith))
member_up a (suc n) f h k = elim (Bool-cases (ltb a f)) [
  | inl above ↦ Memᴰ.tail (member_up (a + 1) n f (ground arith) (omega arith))
  | inr same ↦ Memᴰ.head (ap pos (ground arith))
]

member_down : (n f : ℕ) → f ≤ n → Memᴰ (pos f) (down_floors n)
unfolding down_floors
member_down zero f h = Memᴰ.head (ap pos (omega arith))
member_down (suc n) f h = elim (Bool-cases (ltb n f)) [
  | inl top ↦ Memᴰ.head (ap pos (ground arith))
  | inr below ↦ Memᴰ.tail (member_down n f (ground arith))
]

abbrev floor_test : ℕ → ℕ → Bool
floor_test z f = if leb z 7 then leb f 7 else leb (abs_diff z f) 2

floor_sent : (z f : ℕ) → f ≤ 15 → floor_test z f ≡ true → Memᴰ (pos f) (visible_floors z)
unfolding visible_floors
floor_sent z f low h = elim (Bool-cases (ltb 7 z)) [
  | inl under ↦
      rw under (member_up (z - 2) (min (z + 2) 15 - (z - 2)) f (ground arith) (ground arith))
  | inr over ↦ rw over (member_down 7 f (ground arith))
]

sent_floor :
    (z : ℕ) (nz : ℤ)
    → z ≤ 15
    → Memᴰ nz (visible_floors z)
    → (f : ℕ) × (nz ≡ pos f) × (floor_test z f ≡ true)
unfolding visible_floors
sent_floor z nz low m = elim (Bool-cases (ltb 7 z)) [
  | inl under ↦
      let (f, e, h, k) = up_member (z - 2) (min (z + 2) 15 - (z - 2)) nz (rw under at m) in
      (f, e, ground arith)
  | inr over ↦ let (f, e, h) = down_member 7 nz (rw over at m) in (f, e, ground arith)
]

-- The column of the window, and what it says in numbers.
shift_eq :
    (half x c i z f : ℕ)
    → x + half + f ≡ c + i + z
    → pos x ≡ pos c -ℤ pos half +ℤ pos i +ℤ (pos z -ℤ pos f)
shift_eq half x c i z f h = omega int_laws

eq_shift :
    (half x c i z f : ℕ)
    → pos x ≡ pos c -ℤ pos half +ℤ pos i +ℤ (pos z -ℤ pos f)
    → x + half + f ≡ c + i + z
eq_shift half x c i z f e = let up = ap pos_part e in let dn = ap neg_part e in omega int_laws

and_parts : (a b c : Bool) → (a && (b && c)) ≡ true → (a ≡ true) × (b ≡ true) × (c ≡ true)
and_parts a b c h = ground arith

seen-member : (v t : Position) → t.z ≤ 15 → can_see v t ≡ true → Memᴰ (spot_of t) (view (coords v))
unfolding can_see view
seen-member v t low h =
    let (floor, columns, rows) = and_parts (floor_test v.z t.z) _ _ h in
    let (left, right) = between_lem 7 9 t.x v.x v.z t.z columns in
    let (top, bottom) = between_lem 5 7 t.y v.y v.z t.z rows in
    let i = t.x + 8 + t.z - (v.x + v.z) in
    let j = t.y + 6 + t.z - (v.y + v.z) in
    let at_x = shift_eq 8 t.x v.x i v.z t.z (omega arith) in
    let at_y = shift_eq 6 t.y v.y j v.z t.z (omega arith) in
    member_of_inside (pos v.x -ℤ pos 8) (pos v.y -ℤ pos 6) (pos v.z) 18 14 (visible_floors v.z)
      (spot_of t)
      (record {
        floor = pos t.z;
        visible = floor_sent v.z t.z low floor;
        column = i;
        row = j;
        left = omega arith;
        low = omega arith;
        here = λ k. record { wx = at_x k; wy = at_y k; wz = pos t.z };
      })

member-seen : (v t : Position) → v.z ≤ 15 → Memᴰ (spot_of t) (view (coords v)) → can_see v t ≡ true
unfolding can_see view
member-seen v t low m =
    let it =
      Inside-of_member (pos v.x -ℤ pos 8) (pos v.y -ℤ pos 6) (pos v.z) 18 14 (visible_floors v.z)
        (spot_of t) m in
    let (f, is_f, floor) = sent_floor v.z it.floor low it.visible in
    let at_floor : t.z ≡ f = ap pos_part (ap (λ (p : Spot). p.wz) it.here ∙ is_f) in
    let ex = eq_shift 8 t.x v.x it.column v.z f (rw is_f at (ap (λ (p : Spot). p.wx) it.here)) in
    let ey = eq_shift 6 t.y v.y it.row v.z f (rw is_f at (ap (λ (p : Spot). p.wy) it.here)) in
    let left = it.left in
    let rows = it.low in
    rw
      (
        subst (λ g. floor_test v.z g ≡ true) (sym at_floor) floor,
        lem-between 7 9 t.x v.x v.z t.z (omega arith) (omega arith),
        lem-between 5 7 t.y v.y v.z t.z (omega arith) (omega arith),
      )
      refl

-- Down to floor 15: a player sees a place, and is told of what happens there, exactly if it is a
-- place of the view that the map description sends him.
pub can_see-view :
    (v t : Position)
    → v.z ≤ 15
    → t.z ≤ 15
    → (can_see v t ≡ true) ↔ Memᴰ (spot_of t) (view (coords v))
can_see-view v t vl tl = (seen-member v t tl, member-seen v t vl)
