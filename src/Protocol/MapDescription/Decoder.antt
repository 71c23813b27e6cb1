-- ===== src/Protocol/MapDescription/Decoder.antt =====
-- The client's side of the tile stream, as the tests of crates/protocol/src/map_description.rs port
-- it (`decode_stream`, `decode_slice`): one pass over a known number of positions. How the client
-- cuts one thing off the stream depends on its own item tables, which are not in the repository:
-- that is the parameter `get_thing`.
use package.oxidia.Prelude.{
  ℕ, zero, suc, ◌+◌, ◌%◌, ◌≤◌, ◌<◌, ◌≡◌, ap, ◌∙◌, List, [], ◌∷◌, ◌++◌, Option, none, some, Bool,
  arith, subst, if◌then◌else◌, leb, length, replicate, All, append_assoc, length-append, true,
  false,
}
use Prim.Native.Nat.add
use mathlib.Core.Option
use package.oxidia.Protocol.Bytes.{Bytes, u16_of}
use package.oxidia.Protocol.MapDescription.Tiles.{concat}

abbrev pub Tile : Type 0
Tile = Option (List Bytes)

abbrev pub is_marker : ℕ → ℕ → Bool
is_marker a b = leb 0xff00 (u16_of a b)

module _ (get_thing : Bytes → Option (Bytes × Bytes)) where
  -- `loop` over the things of a tile, up to the marker that holds the next count; each thing takes
  -- a byte at least, so the bytes that are left are fuel enough.
  unfoldable pub things_loop : ℕ → Bytes → Option (List Bytes × ℕ × Bytes)
  unfolding Option.bind
  things_loop zero bs = none
  things_loop (suc fuel) [] = none
  things_loop (suc fuel) (a ∷ []) = none
  things_loop (suc fuel) (a ∷ b ∷ r) =
      let next = λ (t : Bytes × Bytes).
        Option.map (λ (o : List Bytes × ℕ × Bytes). (t.0 ∷ o.0, o.1, o.2)) (things_loop fuel t.1) in
      let more = Option.bind (get_thing (a ∷ b ∷ r)) next in
      if is_marker a b then some ([], u16_of a b % 256, r) else more

  -- `while g_idx < total`, on the positions left.
  unfoldable pub decode : ℕ → ℕ → Bytes → Option (List Tile)
  unfolding Option.bind
  decode zero skip bs = some []
  decode (suc n) (suc k) bs = Option.map (λ ts. none ∷ ts) (decode n k bs)
  decode (suc n) zero [] = none
  decode (suc n) zero (a ∷ []) = none
  decode (suc n) zero (a ∷ b ∷ r) =
      let run = Option.map (λ ts. none ∷ ts) (decode n (u16_of a b % 256) r) in
      let tile =
        Option.bind (things_loop (length r) r)
          (λ o. Option.map (λ ts. some o.0 ∷ ts) (decode n o.1 o.2)) in
      if is_marker a b then run else tile

  -- The client can cut this chunk off whatever follows, and does not take it for a marker.
  pub record Readable (c : Bytes) : Type 0 where
    pub low : ℕ
    pub high : ℕ
    pub more : Bytes
    pub shape : c ≡ low ∷ high ∷ more
    pub below : u16_of low high < 0xff00
    pub splits : (rest : Bytes) → get_thing (c ++ rest) ≡ some (c, rest)

  abbrev pub TileIsReadable : Tile → Type 0
  TileIsReadable none = Unit
  TileIsReadable (some chunks) = All Readable chunks

  things_loop_marker :
      (fuel m : ℕ) (r : Bytes)
      → m < 256
      → 0 < fuel
      → things_loop fuel (m ∷ 0xff ∷ r) ≡ some ([], m, r)
  unfolding things_loop
  things_loop_marker zero m r h f = absurd (omega arith)
  things_loop_marker (suc fuel) m r h f =
      let marker : is_marker m 0xff ≡ true = ground arith in
      let low : u16_of m 0xff % 256 ≡ m = omega arith in rw marker (rw low)

  things_loop_step :
      (fuel : ℕ) (c rest : Bytes)
      → Readable c
      → things_loop (suc fuel) (c ++ rest)
        ≡ Option.map (λ (o : List Bytes × ℕ × Bytes). (c ∷ o.0, o.1, o.2)) (things_loop fuel rest)
  unfolding things_loop
  things_loop_step fuel c rest ok =
      let cut : get_thing (ok.low ∷ ok.high ∷ (ok.more ++ rest)) ≡ some (c, rest) =
        subst (λ z. get_thing (z ++ rest) ≡ some (c, rest)) ok.shape (ok.splits rest) in
      let thing : is_marker ok.low ok.high ≡ false = ground (arith, ok.below) in
      ap (λ z. things_loop (suc fuel) (z ++ rest)) ok.shape ∙ rw thing (rw (cut, Option.bind))

  things_loop_lem :
      (fuel : ℕ) (chunks : List Bytes) (m : ℕ) (r : Bytes)
      → All Readable chunks
      → length chunks < fuel
      → m < 256
      → things_loop fuel (concat chunks ++ (m ∷ 0xff ∷ r)) ≡ some (chunks, m, r)
  things_loop_lem fuel [] m r ok f h = things_loop_marker fuel m r h (omega arith)
  things_loop_lem zero (c ∷ cs) m r ok f h = absurd (omega arith)
  things_loop_lem (suc fuel) (c ∷ cs) m r (ok, oks) f h =
      ap (things_loop (suc fuel)) (append_assoc c (concat cs) (m ∷ 0xff ∷ r))
      ∙ things_loop_step fuel c (concat cs ++ (m ∷ 0xff ∷ r)) ok
      ∙ rw (things_loop_lem fuel cs m r oks (omega arith) h)

  chunks-le : (chunks : List Bytes) → All Readable chunks → length chunks ≤ length (concat chunks)
  chunks-le [] ok = omega arith
  chunks-le (c ∷ cs) (ok, oks) =
      let long : length c ≡ suc (suc (length ok.more)) = ap length ok.shape in
      omega (arith, chunks-le cs oks, length-append c (concat cs))

  -- A tile is read up to the marker behind it, and the marker is the next count.
  pub decode_tile :
      (n : ℕ) (chunks : List Bytes) (m : ℕ) (r : Bytes)
      → All Readable chunks
      → m < 256
      → decode (suc n) 0 (0 ∷ 0 ∷ (concat chunks ++ (m ∷ 0xff ∷ r)))
        ≡ Option.map (λ ts. some chunks ∷ ts) (decode n m r)
  unfolding decode
  decode_tile n chunks m r ok h =
      let tail = concat chunks ++ (m ∷ 0xff ∷ r) in
      let room : length chunks < length tail =
        omega (arith, chunks-le chunks ok, length-append (concat chunks) (m ∷ 0xff ∷ r)) in
      rw (things_loop_lem (length tail) chunks m r ok room h, Option.bind)

  pub decode_marker :
      (n m : ℕ) (r : Bytes)
      → m < 256
      → decode (suc n) 0 (m ∷ 0xff ∷ r) ≡ Option.map (λ ts. none ∷ ts) (decode n m r)
  unfolding decode
  decode_marker n m r h =
      let marker : is_marker m 0xff ≡ true = ground arith in
      let low : u16_of m 0xff % 256 ≡ m = omega arith in rw marker (rw low)

  pub decode_run :
      (c n : ℕ) (r : Bytes) {ts : List Tile}
      → decode n 0 r ≡ some ts
      → decode (c + n) c r ≡ some (replicate c none ++ ts)
  unfolding decode
  decode_run zero n r e = rw (add.zero n) e
  decode_run (suc c) n r e = rw (add.suc c n) (rw (decode_run c n r e))
