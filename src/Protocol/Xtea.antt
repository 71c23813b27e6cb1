-- ===== src/Protocol/Xtea.antt =====
-- The XTEA cipher and the message framing over it (crates/protocol/src/xtea.rs). A `u32` is a
-- number below 2 ^ 32 with the wrapping written out; `<<` on it drops the high bits. The 64 round
-- keys are a list, which both loops walk in pairs.
pub mod Cipher
pub mod Textbook
pub mod Framing
use Prim.Native.Nat.{bit_and, bit_xor}
use package.oxidia.Prelude.{
  ℕ, zero, suc, ◌+◌, ◌-◌, ◌*◌, ◌/◌, ◌%◌, ◌^◌, Bool, List, [], ◌∷◌, ◌++◌, length, take, drop, get_or,
  replicate, reverse, if◌then◌else◌, ltb, ◌==◌, not, ◌||◌,
}
use package.oxidia.Protocol.Bytes.{Bytes, u16_bytes, u32_bytes, u16_of, u32_of}

abbrev pub word : ℕ
word = 2 ^ 32

abbrev pub wrapping_add : ℕ → ℕ → ℕ
wrapping_add a b = (a + b) % word

abbrev pub wrapping_sub : ℕ → ℕ → ℕ
wrapping_sub a b = (a + (word - b % word)) % word

abbrev pub delta : ℕ
delta = 0x9e3779b9

abbrev pub RoundKeys : Type 0
RoundKeys = List ℕ

-- The `while` loop, on the number of pairs that are left; `sum` and `next_sum` are its variables.
pub expand_loop : ℕ → List ℕ → ℕ → ℕ → RoundKeys
expand_loop zero key sum next_sum = []
expand_loop (suc n) key sum next_sum =
    wrapping_add sum (get_or key (bit_and sum 3) 0)
    ∷ wrapping_add next_sum (get_or key (bit_and (next_sum / 2 ^ 11) 3) 0)
    ∷ expand_loop n key next_sum (wrapping_add next_sum delta)

pub expand_key : List ℕ → RoundKeys
expand_key key = expand_loop 32 key 0 (wrapping_add 0 delta)

-- `(((v << 4) ^ (v >> 5)).wrapping_add(v)) ^ key`
pub mix : ℕ → ℕ → ℕ
mix v key = bit_xor (wrapping_add (bit_xor (v * 2 ^ 4 % word) (v / 2 ^ 5)) v) key

-- The body of the inner loop on the two halves of a block.
pub encrypt_halves : ℕ → ℕ → ℕ × ℕ → ℕ × ℕ
encrypt_halves k0 k1 (left, right) =
    let left' = wrapping_add left (mix right k0) in (left', wrapping_add right (mix left' k1))

pub decrypt_halves : ℕ → ℕ → ℕ × ℕ → ℕ × ℕ
decrypt_halves k0 k1 (left, right) =
    let right' = wrapping_sub right (mix left k1) in (wrapping_sub left (mix right' k0), right')

abbrev pub write_block : ℕ × ℕ → Bytes → Bytes
write_block (left, right) rest = u32_bytes left ++ (u32_bytes right ++ rest)

-- `for block in data.chunks_exact_mut(8)`, with the body on the halves that `read_block` gives;
-- what is left over after the last whole block stays.
pub each_block : (ℕ × ℕ → ℕ × ℕ) → Bytes → Bytes
each_block f (a ∷ b ∷ c ∷ d ∷ e ∷ g ∷ h ∷ i ∷ rest) =
    write_block (f (u32_of a b c d, u32_of e g h i)) (each_block f rest)
each_block f partial = partial

-- `while i < keys.len()`, two keys at a time.
pub encrypt : Bytes → RoundKeys → Bytes
encrypt block_data (k0 ∷ k1 ∷ keys) = encrypt (each_block (encrypt_halves k0 k1) block_data) keys
encrypt block_data _ = block_data

abbrev pub pairs : RoundKeys → List (ℕ × ℕ)
pairs (k0 ∷ k1 ∷ keys) = (k0, k1) ∷ pairs keys
pairs _ = []

pub decrypt_loop : Bytes → List (ℕ × ℕ) → Bytes
decrypt_loop block_data [] = block_data
decrypt_loop block_data ((k0, k1) ∷ ks) =
    decrypt_loop (each_block (decrypt_halves k0 k1) block_data) ks

-- `for i in (1..keys.len()).rev().step_by(2)`: the pairs from the last to the first.
pub decrypt : Bytes → RoundKeys → Bytes
decrypt block_data keys = decrypt_loop block_data (reverse (pairs keys))

pub data MessageError : Type 0 where
  not_padded : ℕ → MessageError
  bad_inner_length : ℕ → ℕ → MessageError

pub data Decrypted : Type 0 where
  message : Bytes → Decrypted
  failed : MessageError → Decrypted

-- The buffer before it is encrypted: `payload.len() as u16`, the payload, and zeros.
pub padded : Bytes → Bytes
padded payload =
    let buf = u16_bytes (length payload % 65536) ++ payload in
    buf ++ replicate ((8 - length buf % 8) % 8) 0

pub encrypt_message : Bytes → RoundKeys → Bytes
encrypt_message payload keys = encrypt (padded payload) keys

-- The part of `decrypt_message` after the call of `decrypt`.
pub unpad : Bytes → Decrypted
unpad buf =
    let inner = u16_of (get_or buf 0 0) (get_or buf 1 0) in
    if ltb (length buf) (2 + inner)
    then failed (bad_inner_length inner (length buf - 2))
    else message (take inner (drop 2 buf))

pub decrypt_message : Bytes → RoundKeys → Decrypted
decrypt_message body keys =
    if length body == 0 || not (length body % 8 == 0)
    then failed (not_padded (length body))
    else unpad (decrypt body keys)
