-- ===== src/Protocol/Message/Reads.antt =====
-- What the reads of `MessageReader` return, by the bytes that the cursor has in front of it.
use package.oxidia.Prelude.{
  ℕ, ◌+◌, ◌≤◌, ◌<◌, ◌≡◌, refl, sym, ◌∙◌, ap, [], ◌∷◌, ◌++◌, arith, length, drop, length-append,
  length-drop, take_append, drop_append, drop-drop, lt→ltb, ltb_ge,
}
use package.oxidia.Protocol.Bytes.{
  Bytes, u16_bytes, u32_bytes, IsU16, IsU32, u16_of-bytes, u32_of-bytes,
}
use package.oxidia.Protocol.Message.{
  MessageReader, Result, ok, err, unexpected_eof, remaining, take_bytes, read_u8, read_u16,
  read_u32, read_string, new, Read, ◌>>=◌,
}

-- The reader has exactly the bytes `bs` left.
pub record Ahead (bs : Bytes) (r : MessageReader) : Type 0 where
  pub within : r.pos ≤ length r.buf
  pub rest : drop r.pos r.buf ≡ bs

pub new-Ahead : (bs : Bytes) → Ahead bs (new bs)
unfolding new
new-Ahead bs = record { within = omega arith; rest = refl }

pub Ahead-remaining : (bs : Bytes) (r : MessageReader) → Ahead bs r → remaining r ≡ length bs
Ahead-remaining bs r h = sym (length-drop r.pos r.buf) ∙ ap length h.rest

-- A read returned `v` and left `bs`.
pub record Returns {A : Type 0} (v : A) (bs : Bytes) (out : Result A × MessageReader) : Type 0 where
  pub result : out.0 ≡ ok v
  pub left : Ahead bs out.1

-- The bind of `Read` runs the second part where the first one stopped.
pub >>=-Returns :
    {A B : Type 0} {v : A} {w : B} {bs cs : Bytes} (m : Read A) (f : A → Read B) (r : MessageReader)
    → Returns v bs (m r)
    → ((r' : MessageReader) → Ahead bs r' → Returns w cs (f v r'))
    → Returns w cs ((m >>= f) r)
>>=-Returns m f r h k = rw h.result (k (m r).1 h.left)

pub take_bytes-Returns :
    (xs ys : Bytes) (r : MessageReader)
    → Ahead (xs ++ ys) r
    → Returns xs ys (take_bytes (length xs) r)
unfolding take_bytes
take_bytes-Returns xs ys r h =
    let total : remaining r ≡ length xs + length ys =
      Ahead-remaining (xs ++ ys) r h ∙ length-append xs ys in
    rw (ltb_ge (remaining r) (length xs) (omega arith)) (record {
      result = rw h.rest (rw (take_append xs ys));
      left = record {
        within = omega arith;
        rest = sym (drop-drop r.pos (length xs) r.buf) ∙ rw h.rest (drop_append xs ys);
      };
    })

-- With fewer bytes left than asked for, a read reports both numbers and does not move.
pub take_bytes_eof :
    (n : ℕ) (r : MessageReader)
    → remaining r < n
    → take_bytes n r ≡ (err (unexpected_eof n (remaining r)), r)
unfolding take_bytes
take_bytes_eof n r h = rw (lt→ltb (remaining r) n h)

pub read_u8-Returns :
    (v : ℕ) (ys : Bytes) (r : MessageReader) → Ahead (v ∷ ys) r → Returns v ys (read_u8 r)
unfolding read_u8
read_u8-Returns v ys r h =
    >>=-Returns (take_bytes 1) _ r (take_bytes-Returns (v ∷ []) ys r h)
      (λ r' a. record { result = refl; left = a })

pub read_u16-Returns :
    (v : ℕ) (ys : Bytes) (r : MessageReader)
    → IsU16 v
    → Ahead (u16_bytes v ++ ys) r
    → Returns v ys (read_u16 r)
unfolding read_u16
read_u16-Returns v ys r lt h =
    >>=-Returns (take_bytes 2) _ r (take_bytes-Returns (u16_bytes v) ys r h)
      (λ r' a. record { result = ap ok (u16_of-bytes v lt); left = a })

pub read_u32-Returns :
    (v : ℕ) (ys : Bytes) (r : MessageReader)
    → IsU32 v
    → Ahead (u32_bytes v ++ ys) r
    → Returns v ys (read_u32 r)
unfolding read_u32
read_u32-Returns v ys r lt h =
    >>=-Returns (take_bytes 4) _ r (take_bytes-Returns (u32_bytes v) ys r h)
      (λ r' a. record { result = ap ok (u32_of-bytes v lt); left = a })

pub read_string-Returns :
    (s ys : Bytes) (r : MessageReader)
    → length s < 65536
    → Ahead (u16_bytes (length s) ++ (s ++ ys)) r
    → Returns s ys (read_string r)
unfolding read_string
read_string-Returns s ys r lt h =
    >>=-Returns read_u16 take_bytes r (read_u16-Returns (length s) (s ++ ys) r lt h)
      (take_bytes-Returns s ys)
