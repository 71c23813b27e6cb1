-- ===== src/Protocol/Xtea/Cipher.antt =====
-- About the block passes `encrypt` and `decrypt` of crates/protocol/src/xtea.rs used together.
use package.oxidia.Prelude.{
  ℕ, ◌<◌, ◌≡◌, refl, ap, ap₂, ◌∙◌, List, [], ◌∷◌, ◌++◌, arith, length, reverse, reverse-append,
  All-append,
}
use package.oxidia.Protocol.Bytes.{
  Bytes, AreBytes, IsByte, IsU32, u32_bytes, u32_of, u32_of-bytes, bytes-u32_of, u32_bytes-AreBytes,
}
use package.oxidia.Protocol.Xtea.{
  wrapping_add, wrapping_sub, word, mix, encrypt_halves, decrypt_halves, each_block, encrypt,
  decrypt, decrypt_loop, pairs, RoundKeys, write_block,
}

sub-add : (a m : ℕ) → a < word → wrapping_sub (wrapping_add a m) m ≡ a
sub-add a m h = omega arith

decrypt_halves-encrypt_halves :
    (k0 k1 : ℕ) (p : ℕ × ℕ)
    → IsU32 p.0
    → IsU32 p.1
    → decrypt_halves k0 k1 (encrypt_halves k0 k1 p) ≡ p
unfolding encrypt_halves decrypt_halves
decrypt_halves-encrypt_halves k0 k1 (l, r) hl hr =
    let l' = wrapping_add l (mix r k0) in
    let back : wrapping_sub (wrapping_add r (mix l' k1)) (mix l' k1) ≡ r = sub-add r _ hr in
    rw back (rw (sub-add l (mix r k0) hl))

pub encrypt_halves-IsU32 :
    (k0 k1 : ℕ) (p : ℕ × ℕ) → IsU32 (encrypt_halves k0 k1 p).0 × IsU32 (encrypt_halves k0 k1 p).1
unfolding encrypt_halves
encrypt_halves-IsU32 k0 k1 p = omega arith

module _ (f : ℕ × ℕ → ℕ × ℕ) where
  each_block_write :
      (p : ℕ × ℕ) (rest : Bytes)
      → IsU32 p.0
      → IsU32 p.1
      → each_block f (write_block p rest) ≡ write_block (f p) (each_block f rest)
  unfolding each_block
  each_block_write (l, r) rest hl hr =
      ap₂ (λ x y. write_block (f (x, y)) (each_block f rest)) (u32_of-bytes l hl)
        (u32_of-bytes r hr)

  pub length-each_block : (bs : Bytes) → length (each_block f bs) ≡ length bs
  unfolding each_block
  length-each_block (a ∷ b ∷ c ∷ d ∷ e ∷ p ∷ h ∷ i ∷ rest) = omega (arith, length-each_block rest)
  length-each_block _ = refl

  pub each_block-AreBytes : (bs : Bytes) → AreBytes bs → AreBytes (each_block f bs)
  unfolding each_block
  each_block-AreBytes (a ∷ b ∷ c ∷ d ∷ e ∷ p ∷ h ∷ i ∷ rest) bytes =
      let out = f (u32_of a b c d, u32_of e p h i) in
      let tail = each_block f rest in
      All-append IsByte (u32_bytes out.0) (u32_bytes out.1 ++ tail) (u32_bytes-AreBytes out.0) (
        All-append IsByte (u32_bytes out.1) tail (u32_bytes-AreBytes out.1)
          (each_block-AreBytes rest bytes.1.1.1.1.1.1.1.1))
  each_block-AreBytes _ bytes = bytes

write_block_read :
    (a b c d e p h i : ℕ) (rest : Bytes)
    → AreBytes (a ∷ b ∷ c ∷ d ∷ e ∷ p ∷ h ∷ i ∷ rest)
    → write_block (u32_of a b c d, u32_of e p h i) rest ≡ a ∷ b ∷ c ∷ d ∷ e ∷ p ∷ h ∷ i ∷ rest
write_block_read a b c d e p h i rest (ha, (hb, (hc, (hd, (he, (hp, (hh, (hi, _)))))))) =
    ap₂ (λ x y. x ++ (y ++ rest)) (bytes-u32_of a b c d ha hb hc hd)
      (bytes-u32_of e p h i he hp hh hi)

-- A body that undoes another on u32 halves undoes it on every block.
each_block-inverse :
    (f g : ℕ × ℕ → ℕ × ℕ)
    → ((p : ℕ × ℕ) → IsU32 p.0 → IsU32 p.1 → f (g p) ≡ p)
    → ((p : ℕ × ℕ) → IsU32 (g p).0 × IsU32 (g p).1)
    → (bs : Bytes) → AreBytes bs
    → each_block f (each_block g bs) ≡ bs
unfolding each_block
each_block-inverse f g inv small (a ∷ b ∷ c ∷ d ∷ e ∷ p ∷ h ∷ i ∷ rest) bytes =
    let both : ℕ × ℕ = (u32_of a b c d, u32_of e p h i) in
    let s = small both in
    each_block_write f (g both) (each_block g rest) s.0 s.1
    ∙ ap₂ write_block (inv both (omega arith) (omega arith))
        (each_block-inverse f g inv small rest bytes.1.1.1.1.1.1.1.1)
    ∙ write_block_read a b c d e p h i rest bytes
each_block-inverse f g inv small _ bytes = refl

-- Two passes over the blocks are one.
pub each_block-each_block :
    (f g : ℕ × ℕ → ℕ × ℕ)
    → ((p : ℕ × ℕ) → IsU32 (g p).0 × IsU32 (g p).1)
    → (bs : Bytes) → each_block f (each_block g bs) ≡ each_block (λ p. f (g p)) bs
unfolding each_block
each_block-each_block f g small (a ∷ b ∷ c ∷ d ∷ e ∷ p ∷ h ∷ i ∷ rest) =
    let both : ℕ × ℕ = (u32_of a b c d, u32_of e p h i) in
    let s = small both in
    each_block_write f (g both) (each_block g rest) s.0 s.1
    ∙ ap (write_block (f (g both))) (each_block-each_block f g small rest)
each_block-each_block f g small _ = refl

pub each_block_id : (bs : Bytes) → AreBytes bs → each_block (λ p. p) bs ≡ bs
unfolding each_block
each_block_id (a ∷ b ∷ c ∷ d ∷ e ∷ p ∷ h ∷ i ∷ rest) bytes =
    ap (write_block (u32_of a b c d, u32_of e p h i)) (each_block_id rest bytes.1.1.1.1.1.1.1.1)
    ∙ write_block_read a b c d e p h i rest bytes
each_block_id _ bytes = refl

pub length-encrypt : (bs : Bytes) (keys : RoundKeys) → length (encrypt bs keys) ≡ length bs
unfolding encrypt
length-encrypt bs (k0 ∷ k1 ∷ keys) =
    length-encrypt (each_block (encrypt_halves k0 k1) bs) keys ∙ length-each_block _ bs
length-encrypt bs _ = refl

pub encrypt-AreBytes : (bs : Bytes) (keys : RoundKeys) → AreBytes bs → AreBytes (encrypt bs keys)
unfolding encrypt
encrypt-AreBytes bs (k0 ∷ k1 ∷ keys) h =
    encrypt-AreBytes (each_block (encrypt_halves k0 k1) bs) keys
      (each_block-AreBytes (encrypt_halves k0 k1) bs h)
encrypt-AreBytes bs _ h = h

decrypt_loop_append :
    (bs : Bytes) (xs ys : List (ℕ × ℕ))
    → decrypt_loop bs (xs ++ ys) ≡ decrypt_loop (decrypt_loop bs xs) ys
unfolding decrypt_loop
decrypt_loop_append bs [] ys = refl
decrypt_loop_append bs ((k0, k1) ∷ xs) ys =
    decrypt_loop_append (each_block (decrypt_halves k0 k1) bs) xs ys

length-decrypt_loop : (bs : Bytes) (ks : List (ℕ × ℕ)) → length (decrypt_loop bs ks) ≡ length bs
unfolding decrypt_loop
length-decrypt_loop bs [] = refl
length-decrypt_loop bs ((k0, k1) ∷ ks) =
    length-decrypt_loop (each_block (decrypt_halves k0 k1) bs) ks ∙ length-each_block _ bs

pub length-decrypt : (bs : Bytes) (keys : RoundKeys) → length (decrypt bs keys) ≡ length bs
unfolding decrypt
length-decrypt bs keys = length-decrypt_loop bs (reverse (pairs keys))

-- Whatever the round keys, decrypting what encryption made of a buffer of bytes gives the buffer
-- back; bytes after the last whole block included.
pub decrypt-encrypt :
    (bs : Bytes) (keys : RoundKeys) → AreBytes bs → decrypt (encrypt bs keys) keys ≡ bs
unfolding encrypt decrypt decrypt_loop
decrypt-encrypt bs (k0 ∷ k1 ∷ keys) h =
    let mid = each_block (encrypt_halves k0 k1) bs in
    ap (decrypt_loop (encrypt mid keys)) (reverse-append ((k0, k1) ∷ []) (pairs keys))
    ∙ decrypt_loop_append _ (reverse (pairs keys)) ((k0, k1) ∷ [])
    ∙ ap (each_block (decrypt_halves k0 k1))
        (decrypt-encrypt mid keys (each_block-AreBytes (encrypt_halves k0 k1) bs h))
    ∙ each_block-inverse _ _ (decrypt_halves-encrypt_halves k0 k1) (encrypt_halves-IsU32 k0 k1) bs h
decrypt-encrypt bs (k0 ∷ []) h = refl
decrypt-encrypt bs [] h = refl
