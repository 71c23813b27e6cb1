-- ===== src/Protocol/MoveThing.antt =====
-- The request to move a thing (crates/protocol/src/move_thing.rs).
use package.oxidia.Prelude.{ℕ, ◌≡◌, refl, ap, ◌∷◌, ◌++◌, Option, none, some}
use package.oxidia.Protocol.Bytes.{Bytes, u16_bytes, IsU16}
use package.oxidia.Protocol.Message.{
  Read, Result, ok, err, pure, ◌>>=◌, MessageReader, new, read_u8, read_u16,
}
use package.oxidia.Protocol.Message.Reads.{
  Returns, Ahead, >>=-Returns, new-Ahead, read_u8-Returns, read_u16-Returns,
}

-- A position as it is on the wire.
pub record Place : Type 0 where
  pub x : ℕ
  pub y : ℕ
  pub z : ℕ

pub record Throw : Type 0 where
  pub source : Place
  pub sprite : ℕ
  pub from_stackpos : ℕ
  pub target : Place
  pub count : ℕ

-- The reads of the two positions.
unfoldable pub read_place : Read Place
read_place = do x ← read_u16; y ← read_u16; z ← read_u8; pure (record { x = x; y = y; z = z })

unfoldable pub read_throw : Read Throw
read_throw = do
  source ← read_place
  sprite ← read_u16
  from_stackpos ← read_u8
  target ← read_place
  count ← read_u8
  pure (record {
    source = source;
    sprite = sprite;
    from_stackpos = from_stackpos;
    target = target;
    count = count;
  })

-- `.ok()?` at each read
abbrev pub to_option : {A : Type 0} → Result A → Option A
to_option (ok v) = some v
to_option (err e) = none

unfoldable pub parse_throw : Bytes → Option Throw
parse_throw body = to_option (read_throw (new body)).0

-- What a client writes.
abbrev pub place_bytes : Place → Bytes → Bytes
place_bytes p rest = u16_bytes p.x ++ (u16_bytes p.y ++ (p.z ∷ rest))

abbrev pub throw_bytes : Throw → Bytes → Bytes
throw_bytes t rest =
    place_bytes t.source
      (u16_bytes t.sprite ++ (t.from_stackpos ∷ place_bytes t.target (t.count ∷ rest)))

abbrev pub InU16 : Place → Type 0
InU16 p = IsU16 p.x × IsU16 p.y

read_place-Returns :
    (p : Place) (rest : Bytes) (r : MessageReader)
    → InU16 p
    → Ahead (place_bytes p rest) r
    → Returns p rest (read_place r)
unfolding read_place
read_place-Returns p rest r (hx, hy) a =
    >>=-Returns read_u16 _ r (read_u16-Returns p.x (u16_bytes p.y ++ (p.z ∷ rest)) r hx a) (λ r1 a1.
      >>=-Returns read_u16 _ r1 (read_u16-Returns p.y (p.z ∷ rest) r1 hy a1) (λ r2 a2.
        >>=-Returns read_u8 _ r2 (read_u8-Returns p.z rest r2 a2)
          (λ r3 a3. record { result = refl; left = a3 })))

read_throw-Returns :
    (t : Throw) (rest : Bytes) (r : MessageReader)
    → InU16 t.source
    → IsU16 t.sprite
    → InU16 t.target
    → Ahead (throw_bytes t rest) r
    → Returns t rest (read_throw r)
unfolding read_throw
read_throw-Returns t rest r hs hp ht a =
    >>=-Returns read_place _ r
      (read_place-Returns t.source
        (u16_bytes t.sprite ++ (t.from_stackpos ∷ place_bytes t.target (t.count ∷ rest))) r hs a)
      (λ r1 a1.
        >>=-Returns read_u16 _ r1
          (read_u16-Returns t.sprite (t.from_stackpos ∷ place_bytes t.target (t.count ∷ rest)) r1 hp
            a1)
          (λ r2 a2.
            >>=-Returns read_u8 _ r2
              (read_u8-Returns t.from_stackpos (place_bytes t.target (t.count ∷ rest)) r2 a2)
              (λ r3 a3.
                >>=-Returns read_place _ r3 (read_place-Returns t.target (t.count ∷ rest) r3 ht a3)
                  (λ r4 a4.
                    >>=-Returns read_u8 _ r4 (read_u8-Returns t.count rest r4 a4)
                      (λ r5 a5. record { result = refl; left = a5 })))))

-- A request that a client writes, with its sixteen-bit values in range, is read as it was written,
-- whatever follows in the packet.
pub parse_throw-throw_bytes :
    (t : Throw) (rest : Bytes)
    → InU16 t.source
    → IsU16 t.sprite
    → InU16 t.target
    → parse_throw (throw_bytes t rest) ≡ some t
unfolding parse_throw
parse_throw-throw_bytes t rest hs hp ht =
    ap to_option
      (read_throw-Returns t rest (new (throw_bytes t rest)) hs hp ht
        (new-Ahead (throw_bytes t rest))).result
