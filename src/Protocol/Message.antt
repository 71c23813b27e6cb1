-- ===== src/Protocol/Message.antt =====
-- `MessageReader` and `MessageWriter` (crates/protocol/src/message.rs). A method with `&mut self`
-- returns its result with the object that it leaves; after an error the reader keeps the position
-- that it had reached.
pub mod Reads
pub mod RoundTrip
use package.oxidia.Prelude.{
  ℕ, ◌+◌, ◌-◌, ◌%◌, List, [], ◌∷◌, ◌++◌, Bool, true, false, if◌then◌else◌, ltb, length, take, drop,
  get_or,
}
use package.oxidia.Protocol.Bytes.{Bytes, u16_bytes, u32_bytes, u16_of, u32_of}

pub data ProtocolError : Type 0 where
  unexpected_eof : ℕ → ℕ → ProtocolError

pub data Result {ℓ} (A : Type ℓ) : Type ℓ where
  ok : A → Result A
  err : ProtocolError → Result A

pub record MessageReader : Type 0 where
  pub buf : Bytes
  pub pos : ℕ

abbrev pub Read : Type 0 → Type 0
Read A = MessageReader → Result A × MessageReader

abbrev pub and_then :
    {A B : Type 0} → (A → Read B) → Result A → MessageReader → Result B × MessageReader
and_then f (ok v) r = f v r
and_then f (err e) r = (err e, r)

-- `?` after a read
infixl 5 ◌>>=◌ ◌>>◌
abbrev pub ◌>>=◌ : {A B : Type 0} → Read A → (A → Read B) → Read B
◌>>=◌ m f r = and_then f (m r).0 (m r).1

abbrev pub ◌>>◌ : {A B : Type 0} → Read A → Read B → Read B
m >> k = m >>= λ _. k

abbrev pub pure : {A : Type 0} → A → Read A
pure a r = (ok a, r)

unfoldable pub new : Bytes → MessageReader
new b = record { buf = b; pos = 0 }

abbrev pub remaining : MessageReader → ℕ
remaining r = length r.buf - r.pos

unfoldable pub take_bytes : ℕ → Read Bytes
take_bytes n r =
    if ltb (remaining r) n
    then (err (unexpected_eof n (remaining r)), r)
    else (ok (take n (drop r.pos r.buf)), record r { pos = r.pos + n })

unfoldable pub read_u8 : Read ℕ
read_u8 = do b ← take_bytes 1; pure (get_or b 0 0)

unfoldable pub read_u16 : Read ℕ
read_u16 = do b ← take_bytes 2; pure (u16_of (get_or b 0 0) (get_or b 1 0))

unfoldable pub read_u32 : Read ℕ
read_u32 = do
  b ← take_bytes 4
  pure (u32_of (get_or b 0 0) (get_or b 1 0) (get_or b 2 0) (get_or b 3 0))

unfoldable pub read_string : Read Bytes
read_string = do len ← read_u16; take_bytes len

unfoldable pub read_bytes : ℕ → Read Bytes
read_bytes n = take_bytes n

-- A `MessageWriter` is its buffer.
abbrev pub MessageWriter : Type 0
MessageWriter = Bytes

abbrev pub write_u8 : ℕ → MessageWriter → MessageWriter
write_u8 v w = w ++ (v ∷ [])

abbrev pub write_u16 : ℕ → MessageWriter → MessageWriter
write_u16 v w = w ++ u16_bytes v

abbrev pub write_u32 : ℕ → MessageWriter → MessageWriter
write_u32 v w = w ++ u32_bytes v

-- `s.len() as u16` keeps the low sixteen bits.
abbrev pub write_string : Bytes → MessageWriter → MessageWriter
write_string s w = write_u16 (length s % 65536) w ++ s

abbrev pub write_bytes : Bytes → MessageWriter → MessageWriter
write_bytes b w = w ++ b
