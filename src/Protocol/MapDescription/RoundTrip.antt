-- ===== src/Protocol/MapDescription/RoundTrip.antt =====
-- About the stream of crates/protocol/src/map_description.rs and the client's pass over it. The
-- induction carries the two states between the positions.
use package.oxidia.Prelude.{
  ℕ, zero, suc, ◌+◌, ◌%◌, ◌≤◌, ◌<◌, ◌≡◌, refl, sym, ap, ◌∙◌, List, [], ◌∷◌, ◌++◌, Option, none,
  some, arith, length, replicate, All, Bool-cases, inl, inr, false, ◌==◌, ==_iff,
}
use mathlib.Core.Option
use Prim.Native.Nat.add
use package.oxidia.Prelude.Int.{pos, negsuc, ◌+ℤ◌}
use package.oxidia.Protocol.Bytes.{Bytes}
use package.oxidia.Protocol.MapDescription.{flush_skip}
use package.oxidia.Protocol.MapDescription.Tiles.{concat}
use package.oxidia.Protocol.MapDescription.Stream.{stream}
use package.oxidia.Protocol.MapDescription.Decoder.{
  Tile, decode, TileIsReadable, Readable, decode_tile, decode_marker, decode_run,
}

replicate_snoc :
    (c : ℕ) (ts : List Tile) → replicate c none ++ (none ∷ ts) ≡ none ∷ (replicate c none ++ ts)
replicate_snoc zero ts = refl
replicate_snoc (suc c) ts = rw (replicate_snoc c ts)

pos_suc : (c : ℕ) → pos c +ℤ pos 1 ≡ pos (suc c)
unfolding ◌+ℤ◌
pos_suc c = ground arith

module _ (get_thing : Bytes → Option (Bytes × Bytes)) where
  -- Between a tile or nothing and the next position, with no run open.
  Fresh : List Tile → Type 0
  Fresh ts = decode get_thing (length ts) 0 (stream ts (negsuc 0)) ≡ some ts

  -- With a run of `c` empty positions open: the next two bytes close it.
  record Open (c : ℕ) (ts : List Tile) : Type 0 where
    count : ℕ
    rest : Bytes
    shape : stream ts (pos c) ≡ count ∷ 0xff ∷ rest
    byte : count < 256
    decoded : decode get_thing (c + length ts) count rest ≡ some (replicate c none ++ ts)

  Open-end : (c : ℕ) → c ≤ 0xfe → Open c []
  unfolding stream flush_skip
  Open-end c h = record {
    count = c % 256;
    rest = [];
    shape = refl;
    byte = omega arith;
    decoded =
        let small : c % 256 ≡ c = omega arith in
        rw small (decode_run get_thing c 0 [] (unfold decode in refl));
  }

  Fresh-none : (ts : List Tile) → Open 0 ts → Fresh (none ∷ ts)
  unfolding Fresh stream ◌+ℤ◌
  Fresh-none ts o = rw o.shape (
      decode_marker get_thing (length ts) o.count o.rest o.byte
      ∙ ap (Option.map (λ t. none ∷ t)) (rw (add.zero (length ts)) at o.decoded))

  Open-none : (c : ℕ) (ts : List Tile) → c < 0xfe → Open (suc c) ts → Open c (none ∷ ts)
  unfolding stream
  Open-none c ts h o =
      let part : (c == 0xfe) ≡ false = ground arith in
      record {
        count = o.count;
        rest = o.rest;
        shape = rw part (ap (stream ts) (pos_suc c) ∙ o.shape);
        byte = o.byte;
        decoded =
            ap (λ n. decode get_thing n o.count o.rest) (omega arith)
            ∙ o.decoded
            ∙ ap some (sym (replicate_snoc c ts));
      }

  Open-full : (ts : List Tile) → Fresh ts → Open 0xfe (none ∷ ts)
  unfolding stream Fresh
  Open-full ts f = record {
    count = 0xff;
    rest = stream ts (negsuc 0);
    shape = refl;
    byte = omega arith;
    decoded =
        ap (λ n. decode get_thing n 0xff (stream ts (negsuc 0))) (omega arith)
        ∙ decode_run get_thing 0xff (length ts) (stream ts (negsuc 0)) f
        ∙ ap some (sym (replicate_snoc 0xfe ts));
  }

  Fresh-some :
      (chunks : List Bytes) (ts : List Tile)
      → All (Readable get_thing) chunks
      → Open 0 ts
      → Fresh (some chunks ∷ ts)
  unfolding Fresh stream flush_skip
  Fresh-some chunks ts ok o = rw o.shape (
      decode_tile get_thing (length ts) chunks o.count o.rest ok o.byte
      ∙ ap (Option.map (λ t. some chunks ∷ t)) (rw (add.zero (length ts)) at o.decoded))

  Open-some :
      (c : ℕ) (chunks : List Bytes) (ts : List Tile)
      → c ≤ 0xfe
      → Fresh (some chunks ∷ ts)
      → Open c (some chunks ∷ ts)
  unfolding Fresh stream flush_skip
  Open-some c chunks ts h f = record {
    count = c % 256;
    rest = 0 ∷ 0 ∷ (concat chunks ++ stream ts (pos 0));
    shape = refl;
    byte = omega arith;
    decoded = let small : c % 256 ≡ c = omega arith in rw small (decode_run get_thing c _ _ f);
  }

  next_none :
      (c : ℕ) (ts : List Tile)
      → c ≤ 0xfe
      → Fresh ts
      → ((c : ℕ) → c ≤ 0xfe → Open c ts)
      → Open c (none ∷ ts)
  next_none c ts h fresh run = elim (Bool-cases (c == 0xfe)) [
    | inl full ↦ rw ((==_iff c 0xfe).0 full) (Open-full ts fresh)
    | inr part ↦ let below : c < 0xfe = ground arith in Open-none c ts below (run (suc c) below)
  ]

  both :
      (ts : List Tile)
      → All (TileIsReadable get_thing) ts
      → Fresh ts × ((c : ℕ) → c ≤ 0xfe → Open c ts)
  both [] ok = (unfold Fresh decode in refl, Open-end)
  both (none ∷ ts) (_, ok) =
      let (fresh, run) = both ts ok in
      (Fresh-none ts (run 0 (omega arith)), λ c h. next_none c ts h fresh run)
  both (some chunks ∷ ts) (here, ok) =
      let (fresh, run) = both ts ok in
      let first = Fresh-some chunks ts here (run 0 (omega arith)) in
      (first, λ c h. Open-some c chunks ts h first)

  -- The client's pass over the stream of any list of tiles, whose chunks the client can cut off, is
  -- exactly that list: no position is shifted, with runs of any length.
  pub decode-stream :
      (ts : List Tile)
      → All (TileIsReadable get_thing) ts
      → decode get_thing (length ts) 0 (stream ts (negsuc 0)) ≡ some ts
  unfolding Fresh
  decode-stream ts ok = (both ts ok).0
