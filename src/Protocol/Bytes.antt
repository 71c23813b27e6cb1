-- ===== src/Protocol/Bytes.antt =====
-- Bytes and little-endian words: Rust's `to_le_bytes` and `from_le_bytes` for u16 and u32. A byte
-- is a number below 256, and a buffer is a list of numbers.
use oxidia.Prelude.{ℕ, ◌+◌, ◌*◌, ◌/◌, ◌%◌, ◌^◌, ◌<◌, ◌≡◌, List, [], ◌∷◌, arith, All}

abbrev pub Bytes : Type 0
Bytes = List ℕ

abbrev pub IsByte : ℕ → Type 0
IsByte b = b < 256

abbrev pub AreBytes : Bytes → Type 0
AreBytes = All IsByte

abbrev pub IsU16 : ℕ → Type 0
IsU16 v = v < 65536

abbrev pub IsU32 : ℕ → Type 0
IsU32 v = v < 2 ^ 32

abbrev pub u16_bytes : ℕ → Bytes
u16_bytes v = v % 256 ∷ v / 256 % 256 ∷ []

abbrev pub u32_bytes : ℕ → Bytes
u32_bytes v = v % 256 ∷ v / 256 % 256 ∷ v / 65536 % 256 ∷ v / 16777216 % 256 ∷ []

abbrev pub u16_of : ℕ → ℕ → ℕ
u16_of a b = a + 256 * b

abbrev pub u32_of : ℕ → ℕ → ℕ → ℕ → ℕ
u32_of a b c d = a + 256 * b + 65536 * c + 16777216 * d

pub u16_of-bytes : (v : ℕ) → IsU16 v → u16_of (v % 256) (v / 256 % 256) ≡ v
u16_of-bytes v h = omega arith

pub u32_of-bytes :
    (v : ℕ) → IsU32 v → u32_of (v % 256) (v / 256 % 256) (v / 65536 % 256) (v / 16777216 % 256) ≡ v
u32_of-bytes v h = omega arith

pub bytes-u32_of :
    (a b c d : ℕ)
    → IsByte a
    → IsByte b
    → IsByte c
    → IsByte d
    → u32_bytes (u32_of a b c d) ≡ a ∷ b ∷ c ∷ d ∷ []
bytes-u32_of a b c d ha hb hc hd = ground arith

pub u16_bytes-AreBytes : (v : ℕ) → AreBytes (u16_bytes v)
u16_bytes-AreBytes v = omega arith

pub u32_bytes-AreBytes : (v : ℕ) → AreBytes (u32_bytes v)
u32_bytes-AreBytes v = omega arith
