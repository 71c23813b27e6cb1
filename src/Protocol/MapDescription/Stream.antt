-- ===== src/Protocol/MapDescription/Stream.antt =====
-- The loops as one pass over a list of positions, and that pass as a recursion on what stands there.
use package.oxidia.Prelude.{
  ℕ, zero, suc, ◌+◌, ◌≡◌, refl, sym, ap, ◌∙◌, List, [], ◌∷◌, ◌++◌, map, Option, none, some,
  if◌then◌else◌, append_assoc, append-nil, Bool-cases, inl, inr,
}
use mathlib.Core.Option
use package.oxidia.Prelude.Int.{ℤ, pos, negsuc, ◌+ℤ◌, eq_ℤ}
use package.oxidia.Protocol.Bytes.{Bytes}
use package.oxidia.Protocol.MapDescription.{
  TileSlices, TileSource, PlacedCreature, cell, column_loop, row_loop, flush_skip, flush_out,
}
use package.oxidia.Protocol.MapDescription.Tiles.{tile_chunks, concat, write_tile_lem}

pub record Spot : Type 0 where
  pub wx : ℤ
  pub wy : ℤ
  pub wz : ℤ

-- The things that a client is told of at a position, or that there is no tile.
unfoldable pub seen : TileSource → List PlacedCreature → Spot → Option (List Bytes)
seen src cs p = Option.map (λ s. tile_chunks s cs p.wx p.wy p.wz) (src.tile p.wx p.wy p.wz)

unfoldable pub column_spots : ℕ → ℕ → ℕ → ℤ → ℤ → ℤ → ℤ → List Spot
column_spots zero nx ny ax ay nz offset = []
column_spots (suc left) nx ny ax ay nz offset =
    record { wx = ax +ℤ pos nx +ℤ offset; wy = ay +ℤ pos ny +ℤ offset; wz = nz }
    ∷ column_spots left nx (ny + 1) ax ay nz offset

unfoldable pub row_spots : ℕ → ℕ → ℕ → ℤ → ℤ → ℤ → ℤ → List Spot
row_spots zero nx height ax ay nz offset = []
row_spots (suc left) nx height ax ay nz offset =
    column_spots height nx 0 ax ay nz offset ++ row_spots left (nx + 1) height ax ay nz offset

module _ (src : TileSource) (cs : List PlacedCreature) where
  unfoldable pub visit : List Spot → Bytes × ℤ → Bytes × ℤ
  visit [] out = out
  visit (p ∷ ps) out = visit ps (cell (src.tile p.wx p.wy p.wz) cs p.wx p.wy p.wz out)

  pub visit_append :
      (ps qs : List Spot) (out : Bytes × ℤ) → visit (ps ++ qs) out ≡ visit qs (visit ps out)
  unfolding visit
  visit_append [] qs out = refl
  visit_append (p ∷ ps) qs out = visit_append ps qs _

  column_loop-visit :
      (left nx ny : ℕ) (ax ay nz offset : ℤ) (out : Bytes × ℤ)
      → column_loop src cs left nx ny ax ay nz offset out
        ≡ visit (column_spots left nx ny ax ay nz offset) out
  unfolding visit column_loop column_spots
  column_loop-visit zero nx ny ax ay nz offset out = refl
  column_loop-visit (suc left) nx ny ax ay nz offset out =
      column_loop-visit left nx (ny + 1) ax ay nz offset _

  pub row_loop-visit :
      (left nx height : ℕ) (ax ay nz offset : ℤ) (out : Bytes × ℤ)
      → row_loop src cs left nx height ax ay nz offset out
        ≡ visit (row_spots left nx height ax ay nz offset) out
  unfolding row_loop row_spots
  row_loop-visit zero nx height ax ay nz offset out = unfold visit in refl
  row_loop-visit (suc left) nx height ax ay nz offset out =
      row_loop-visit left (nx + 1) height ax ay nz offset _
      ∙ ap (visit (row_spots left (nx + 1) height ax ay nz offset))
          (column_loop-visit height nx 0 ax ay nz offset out)
      ∙ sym (visit_append (column_spots height nx 0 ax ay nz offset) _ out)

-- The stream of a list of tiles: a run of empty positions is a counter and 0xff, a full run two
-- times 0xff, a tile its chunks; a run that is open at a tile or at the end is flushed.
unfoldable pub stream : List (Option (List Bytes)) → ℤ → Bytes
stream [] skip = flush_skip skip []
stream (some chunks ∷ ts) skip =
    flush_skip skip [] ++ (0 ∷ 0 ∷ (concat chunks ++ stream ts (pos 0)))
stream (none ∷ ts) skip =
    let rest = stream ts (negsuc 0) in
    let on = stream ts (skip +ℤ pos 1) in if eq_ℤ skip (pos 0xfe) then 0xff ∷ 0xff ∷ rest else on

flush_skip_append : (skip : ℤ) (w : Bytes) → flush_skip skip w ≡ w ++ flush_skip skip []
unfolding flush_skip
flush_skip_append (pos n) w = append_assoc w _ _
flush_skip_append (negsuc n) w = sym (append-nil w)

-- One position, with the rest of the pass as a function.
cell-stream :
    (t : Option TileSlices) (cs : List PlacedCreature) (wx wy wz : ℤ)
    (rest : List (Option (List Bytes))) (finish : Bytes × ℤ → Bytes)
    → ((w : Bytes) (skip : ℤ) → finish (w, skip) ≡ w ++ stream rest skip)
    → (w : Bytes) (skip : ℤ)
    → finish (cell t cs wx wy wz (w, skip))
      ≡ w ++ stream (Option.map (λ s. tile_chunks s cs wx wy wz) t ∷ rest) skip
unfolding cell stream
cell-stream (some s) cs wx wy wz rest finish ih w skip =
    let chunks = tile_chunks s cs wx wy wz in
    ih _ (pos 0)
    ∙ ap (λ z. z ++ stream rest (pos 0)) (write_tile_lem s cs wx wy wz (flush_skip skip w))
    ∙ ap (λ z. z ++ (0 ∷ 0 ∷ concat chunks) ++ stream rest (pos 0)) (flush_skip_append skip w)
    ∙ simp append_assoc
cell-stream none cs wx wy wz rest finish ih w skip = elim (Bool-cases (eq_ℤ skip (pos 0xfe))) [
  | inl full ↦ rw full (ih (w ++ (0xff ∷ []) ++ (0xff ∷ [])) (negsuc 0) ∙ simp append_assoc)
  | inr open_run ↦ rw open_run (ih w (skip +ℤ pos 1))
]

-- What the pass writes, with the run left open at its end flushed, is the stream of what is seen.
pub visit-stream :
    (src : TileSource) (cs : List PlacedCreature) (ps : List Spot) (w : Bytes) (skip : ℤ)
    → flush_out (visit src cs ps (w, skip)) ≡ w ++ stream (map (seen src cs) ps) skip
unfolding visit seen
visit-stream src cs [] w skip = unfold stream in flush_skip_append skip w
visit-stream src cs (p ∷ ps) w skip =
    cell-stream (src.tile p.wx p.wy p.wz) cs p.wx p.wy p.wz (map (seen src cs) ps)
      (λ o. flush_out (visit src cs ps o)) (visit-stream src cs ps) w skip
