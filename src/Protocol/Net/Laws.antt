-- ===== src/Protocol/Net/Laws.antt =====
-- About reading frames from a stream (crates/net/src/frame.rs) and its errors.
use package.oxidia.Prelude.{
  ℕ, ◌%◌, ◌<◌, ◌≤◌, ◌≡◌, refl, sym, ap, ◌∙◌, true, [], ◌∷◌, ◌++◌, Option, none, some, take, drop,
  subst, ◌≢◌, if◌then◌else◌, ltb, inl, inr, Bool-cases, length-take, arith, length, append_assoc,
  append-nil, ltb_ge, lt→ltb, take-append-drop,
}
use package.oxidia.Protocol.Bytes.{Bytes, u16_bytes, u16_of, u16_of-bytes}
use package.oxidia.Protocol.Net.{
  IoResult, unexpected_eof, invalid_data, done, io_err, Reader, Writer, max_frame, read_frame,
  write_frame, after_length, then_io, read_body,
}

-- What the bytes that are to come until the peer closes say of the next frame.
abbrev pub outcome : Bytes → IoResult (Option Bytes)
outcome [] = done none
outcome (a ∷ []) = io_err unexpected_eof
outcome (a ∷ b ∷ rest) =
    let len = u16_of a b in
    if ltb max_frame len
    then io_err (invalid_data len)
    else if ltb (length rest) len
    then io_err unexpected_eof
    else done (some (take len rest))

module _ (w : Writer) where
  open w use {W, sent, is_up}

  pub write_frame_lem :
      (inner : Bytes) (s : W)
      → is_up s ≡ true
      → length inner ≤ max_frame
      → ((write_frame w inner s).0 ≡ done tt)
        × (sent (write_frame w inner s).1 ≡ sent s ++ (u16_bytes (length inner) ++ inner))
  unfolding write_frame
  write_frame_lem inner s up fits =
      let small : length inner % 65536 ≡ length inner = omega arith in
      let a = w.writes (u16_bytes (length inner)) s up in
      let s' = (w.write_all (u16_bytes (length inner)) s).1 in
      let b = w.writes inner s' a.2 in
      let c = w.flushes (w.write_all inner s').1 b.2 in
      rw (ltb_ge max_frame (length inner) fits) (
        rw small (
          rw (a.0, then_io)
            (rw (b.0, then_io)
              (c.0, c.1 ∙ b.1 ∙ ap (λ z. z ++ inner) a.1 ∙ append_assoc (sent s) _ inner))))

module _ (r : Reader) where
  open r use {S, coming}

  pub read_frame_lem :
      (inner rest : Bytes) (s : S)
      → coming s ≡ u16_bytes (length inner) ++ (inner ++ rest)
      → length inner ≤ max_frame
      → ((read_frame r s).0 ≡ done (some inner)) × (coming (read_frame r s).1 ≡ rest)
  unfolding read_frame
  read_frame_lem inner rest s ahead fits =
      let a = r.enough (u16_bytes (length inner)) (inner ++ rest) s ahead in
      let b = r.enough inner rest (r.read_exact 2 s).1 a.1 in
      let len = u16_of-bytes (length inner) (omega arith) in
      rw (a.0, after_length)
        (rw len (rw (ltb_ge max_frame (length inner) fits) (rw (b.0, read_body) (refl, b.1))))

  -- A length above the limit is refused before the body is read.
  pub read_frame_oversized :
      (len : ℕ) (rest : Bytes) (s : S)
      → coming s ≡ u16_bytes len ++ rest
      → max_frame < len
      → len < 65536
      → ((read_frame r s).0 ≡ io_err (invalid_data len)) × (coming (read_frame r s).1 ≡ rest)
  unfolding read_frame
  read_frame_oversized len rest s ahead big u16 =
      let a = r.enough (u16_bytes len) rest s ahead in
      rw (a.0, after_length) (rw (u16_of-bytes len u16) (rw (lt→ltb max_frame len big) (refl, a.1)))

  whole_body :
      (len : ℕ) (rest : Bytes) (s : S)
      → coming s ≡ rest
      → len ≤ length rest
      → (r.read_exact len s).0 ≡ done (take len rest)
  whole_body len rest s ahead enough =
      let size : length (take len rest) ≡ len = omega (arith, length-take len rest) in
      subst (λ n. (r.read_exact n s).0 ≡ done (take len rest)) size
        (r.enough (take len rest) (drop len rest) s (ahead ∙ sym (take-append-drop len rest))).0

  outcome_of :
      (bytes : Bytes) (s : S)
      → coming s ≡ bytes
      → length bytes ≢ 1
      → (read_frame r s).0 ≡ outcome bytes
  unfolding read_frame
  outcome_of [] s ahead h = rw (r.short 2 s (rw ahead (omega arith)), after_length) refl
  outcome_of (a ∷ []) s ahead h = absurd (h refl)
  outcome_of (a ∷ b ∷ rest) s ahead h =
      let (got, left) = r.enough (a ∷ b ∷ []) rest s ahead in
      let s1 = (r.read_exact 2 s).1 in
      rw (got, after_length)
        (elim (Bool-cases (ltb max_frame (u16_of a b))) [
          | inl long ↦ rw long refl
          | inr fits ↦ rw fits (elim (Bool-cases (ltb (length rest) (u16_of a b))) [
            | inl cut ↦ rw (cut, r.short (u16_of a b) s1 (rw left (ground arith)), read_body) refl
            | inr whole ↦
                rw (whole, whole_body (u16_of a b) rest s1 left (ground arith), read_body) refl
          ])
        ])

  -- From any stream on which not exactly one byte is still to come, what is read is what the bytes to
  -- come say: a clean end gives no frame and no error; a length above the limit is refused; a body that
  -- is cut short is an early end; and a whole body is the frame.
  pub read_frame-outcome : (s : S) → length (coming s) ≢ 1 → (read_frame r s).0 ≡ outcome (coming s)
  read_frame-outcome s h = outcome_of (coming s) s refl h

-- Over a connection that is up, a frame of at most 24590 bytes that `write_frame` sends to a reader
-- which has nothing else ahead is read back whole, and exactly its bytes are consumed. A longer
-- frame is refused and nothing is sent.
pub read_frame-write_frame :
    (w : Writer) (r : Reader) (inner : Bytes) (s : Writer.W w) (t : Reader.S r)
    → w.is_up s ≡ true
    → r.coming t ≡ w.sent (write_frame w inner s).1
    → w.sent s ≡ []
    → (length inner ≤ max_frame
        → ((write_frame w inner s).0 ≡ done tt)
          × ((read_frame r t).0 ≡ done (some inner))
          × (r.coming (read_frame r t).1 ≡ []))
      × (max_frame < length inner
          → write_frame w inner s ≡ (io_err (invalid_data (length inner)), s))
read_frame-write_frame w r inner s t up linked fresh = (
  λ fits.
      let out = write_frame_lem w inner s up fits in
      let ahead : r.coming t ≡ u16_bytes (length inner) ++ (inner ++ []) =
        linked
        ∙ out.1
        ∙ ap (λ z. z ++ (u16_bytes (length inner) ++ inner)) fresh
        ∙ ap (λ z. u16_bytes (length inner) ++ z) (sym (append-nil inner)) in
      let back = read_frame_lem r inner [] t ahead fits in (out.0, back.0, back.1),
  λ big. unfold write_frame in rw (lt→ltb max_frame (length inner) big),
)
