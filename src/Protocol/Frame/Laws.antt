-- ===== src/Protocol/Frame/Laws.antt =====
-- About the checksum of crates/protocol/src/adler.rs and the sums that RFC 1950 names.
use package.oxidia.Prelude.{
  ℕ, suc, ◌+◌, ◌*◌, ◌%◌, ◌^◌, ◌≡◌, sym, ap, ap₂, ◌∙◌, inl, inr, [], ◌∷◌, ◌++◌, arith, length,
  if◌then◌else◌, not, ◌==◌, ==_refl, ==_iff, Bool-cases, ltb_ge,
}
use package.oxidia.Prelude.Bits.{bit_or_disjoint}
use package.oxidia.Protocol.Bytes.{Bytes, AreBytes, u32_of, u32_of-bytes, IsU32, bytes-u32_of}
use package.oxidia.Protocol.Frame.{
  mod_adler, adler_loop, adler32, checksummed, verify, payload, rejected, checksum_mismatch,
  checksum_len,
}

-- The sum of the bytes, and the sum of the successive values of `1 +` that sum (RFC 1950, s2).
pub byte_sum : Bytes → ℕ
byte_sum [] = 0
byte_sum (b ∷ bs) = b + byte_sum bs

-- Each byte counts once for every prefix that holds it.
pub weighted_sum : Bytes → ℕ
weighted_sum [] = 0
weighted_sum (b ∷ bs) = b * suc (length bs) + weighted_sum bs

adler_loop_lem :
    (bs : Bytes) (a b : ℕ)
    → adler_loop bs (a % mod_adler) (b % mod_adler)
      ≡ ((a + byte_sum bs) % mod_adler, (b + a * length bs + weighted_sum bs) % mod_adler)
unfolding adler_loop byte_sum weighted_sum
adler_loop_lem [] a b = ap₂ (λ x y. (x, y)) (omega arith) (omega arith)
adler_loop_lem (x ∷ bs) a b =
    let sum : (a % mod_adler + x) % mod_adler ≡ (a + x) % mod_adler = omega arith in
    let both : (b % mod_adler + (a % mod_adler + x) % mod_adler) % mod_adler
        ≡ (b + (a + x)) % mod_adler =
      omega arith in
    rw both (
      rw sum (
        adler_loop_lem bs (a + x) (b + (a + x))
        ∙ ap₂ (λ x y. (x % mod_adler, y % mod_adler)) (omega arith) (omega arith)))

-- The checksum of any bytes: the low half is one more than their sum, the high half the sum of
-- the running values of that sum, each modulo 65521.
pub adler32_lem :
    (bs : Bytes)
    → adler32 bs ≡ (length bs + weighted_sum bs) % mod_adler * 65536 + (1 + byte_sum bs) % mod_adler
unfolding adler32
adler32_lem bs =
    let low = (1 + byte_sum bs) % mod_adler in
    let high = (0 + 1 * length bs + weighted_sum bs) % mod_adler in
    let fits : high * 2 ^ 16 % 2 ^ 32 ≡ high * 2 ^ 16 = omega arith in
    rw (adler_loop_lem bs 1 0) (rw fits (bit_or_disjoint 16 high low (omega arith) ∙ omega arith))

pub adler32-IsU32 : (bs : Bytes) → IsU32 (adler32 bs)
adler32-IsU32 bs = rw (adler32_lem bs) (omega arith)

pub length-checksummed : (p : Bytes) → length (checksummed p) ≡ length p + 4
unfolding checksummed
length-checksummed p = omega arith

-- `verify` on a frame that is a header of four bytes and a payload.
verify_header :
    (a b c d : ℕ) (p : Bytes)
    → verify (a ∷ b ∷ c ∷ d ∷ p) ≡ (
        if not (u32_of a b c d == adler32 p)
        then rejected (checksum_mismatch (u32_of a b c d) (adler32 p))
        else payload p)
unfolding verify
verify_header a b c d p = rw (ltb_ge (length (a ∷ b ∷ c ∷ d ∷ p)) checksum_len (omega arith))

-- For every payload, `verify` accepts the frame that `checksummed` builds and returns the payload.
pub verify-checksummed : (p : Bytes) → verify (checksummed p) ≡ payload p
unfolding checksummed
verify-checksummed p =
    verify_header _ _ _ _ p
    ∙ rw (u32_of-bytes (adler32 p) (adler32-IsU32 p)) (rw (==_refl (adler32 p)))

-- A frame of bytes that `verify` accepts is the one that `checksummed` builds from the payload it
-- returns: no other frame passes.
pub verify_only_checksummed :
    (inner p : Bytes) → AreBytes inner → verify inner ≡ payload p → inner ≡ checksummed p
unfolding checksummed
verify_only_checksummed [] p h e = unfold verify in cc
verify_only_checksummed (a ∷ []) p h e = unfold verify in cc
verify_only_checksummed (a ∷ b ∷ []) p h e = unfold verify in cc
verify_only_checksummed (a ∷ b ∷ c ∷ []) p h e = unfold verify in cc
verify_only_checksummed (a ∷ b ∷ c ∷ d ∷ q) p h e =
    let run = sym (verify_header a b c d q) ∙ e in
    elim (Bool-cases (u32_of a b c d == adler32 q)) [
      | inl same ↦
          let here : q ≡ p = ground (arith, run) in
          rw (← here) (
            rw (← (==_iff _ _).0 same)
              (ap (λ z. z ++ q) (sym (bytes-u32_of a b c d h.0 h.1.0 h.1.1.0 h.1.1.1.0))))
      | inr other ↦ absurd (ground (arith, run))
    ]
