-- ===== src/World/Position/Laws.antt =====
-- About steps between positions (crates/world/src/lib.rs).
use package.oxidia.Prelude.{ℕ, ◌<◌, ◌≡◌, ap, ◌∙◌, some, arith}
use package.oxidia.Prelude.Int.{ℤ, pos, ◌+ℤ◌, ◌-ℤ◌, int_laws}
use package.oxidia.World.Position.{Position, offset}

pub record InRange (p : Position) : Type 0 where
  pub x_u16 : p.x < 65536
  pub y_u16 : p.y < 65536
  pub z_u8 : p.z < 256

-- An offset that succeeds lands on the exact sum, in range and on the same floor; and it is refused
-- only where the sum leaves the range of a coordinate.
pub offset_lem :
    (p : Position) (dx dy : ℤ)
    → InRange p
    → ((q : Position)
        → offset p dx dy ≡ some q
        → (pos q.x ≡ pos p.x +ℤ dx) × (pos q.y ≡ pos p.y +ℤ dy) × (q.z ≡ p.z) × InRange q)
      × ((a b : ℕ)
          → pos p.x +ℤ dx ≡ pos a
          → pos p.y +ℤ dy ≡ pos b
          → a < 65536
          → b < 65536
          → offset p dx dy ≡ some (record { x = a; y = b; z = p.z }))
unfolding offset ◌+ℤ◌
offset_lem p dx dy v = (λ q e. ground arith, λ a b ea eb ha hb. rw (ea, eb) (ground arith))

-- An offset that stays on the map is undone by the opposite offset.
pub offset_back :
    (p q : Position) (dx dy : ℤ)
    → InRange p
    → offset p dx dy ≡ some q
    → offset q (pos 0 -ℤ dx) (pos 0 -ℤ dy) ≡ some p
offset_back p q dx dy v e =
    let (ex, ey, ez, w) = (offset_lem p dx dy v).0 q e in
    (offset_lem q (pos 0 -ℤ dx) (pos 0 -ℤ dy) w).1 p.x p.y (back p.x q.x dx ex) (back p.y q.y dy ey)
      v.x_u16 v.y_u16
    ∙ ap (λ z. some (record { x = p.x; y = p.y; z = z })) ez
  where
    back : (a b : ℕ) (d : ℤ) → pos b ≡ pos a +ℤ d → pos b +ℤ (pos 0 -ℤ d) ≡ pos a
    back a b d h = rw h (omega int_laws)
