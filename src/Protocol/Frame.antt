-- ===== src/Protocol/Frame.antt =====
-- The Adler-32 checksum and the inner frame that it heads (crates/protocol/src/adler.rs and
-- frame.rs): four little-endian bytes of checksum, then the payload.
pub mod Laws
use Prim.Native.Nat.{bit_or}
use package.oxidia.Prelude.{
  ℕ, ◌+◌, ◌*◌, ◌%◌, ◌^◌, Bool, List, [], ◌∷◌, ◌++◌, length, take, drop, get_or, if◌then◌else◌, ltb,
  ◌==◌, not,
}
use package.oxidia.Protocol.Bytes.{Bytes, u32_bytes, u32_of}

abbrev pub mod_adler : ℕ
mod_adler = 65521

-- The loop over the bytes, on the pair `(a, b)`.
unfoldable pub adler_loop : Bytes → ℕ → ℕ → ℕ × ℕ
adler_loop [] a b = (a, b)
adler_loop (byte ∷ rest) a b =
    let a' = (a + byte) % mod_adler in adler_loop rest a' ((b + a') % mod_adler)

-- `(b << 16) | a` on a `u32`
unfoldable pub adler32 : Bytes → ℕ
unfolding adler_loop
adler32 bytes = let (a, b) = adler_loop bytes 1 0 in bit_or (b * 2 ^ 16 % 2 ^ 32) a

abbrev pub checksum_len : ℕ
checksum_len = 4

pub data FrameError : Type 0 where
  too_short : ℕ → FrameError
  checksum_mismatch : ℕ → ℕ → FrameError

pub data Verified : Type 0 where
  payload : Bytes → Verified
  rejected : FrameError → Verified

unfoldable pub checksummed : Bytes → Bytes
checksummed p = u32_bytes (adler32 p) ++ p

-- `u32::from_le_bytes` of the four bytes of the header
unfoldable pub le_word : Bytes → ℕ
le_word h = u32_of (get_or h 0 0) (get_or h 1 0) (get_or h 2 0) (get_or h 3 0)

unfoldable pub verify : Bytes → Verified
unfolding le_word
verify inner =
    if ltb (length inner) checksum_len
    then rejected (too_short (length inner))
    else (let head = take checksum_len inner in
        let rest = drop checksum_len inner in
        let expected = le_word head in
        let actual = adler32 rest in
        if not (expected == actual)
        then rejected (checksum_mismatch expected actual)
        else payload rest)
