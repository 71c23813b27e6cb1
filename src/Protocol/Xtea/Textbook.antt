-- ===== src/Protocol/Xtea/Textbook.antt =====
-- The key schedule against the textbook cipher (Needham and Wheeler), the independent version in
-- the tests of crates/protocol/src/xtea.rs: it has no round keys and computes the sum as it goes.
use Prim.Native.Nat.{bit_and, bit_xor}
use package.oxidia.Prelude.{
  ℕ, zero, suc, ◌*◌, ◌/◌, ◌%◌, ◌^◌, ◌≡◌, refl, sym, ap, ◌∙◌, fun_ext, List, [], ◌∷◌, get_or,
}
use package.oxidia.Protocol.Bytes.{Bytes, AreBytes}
use package.oxidia.Protocol.Xtea.{
  wrapping_add, word, delta, mix, encrypt_halves, each_block, encrypt, expand_loop, expand_key,
  RoundKeys,
}
use package.oxidia.Protocol.Xtea.Cipher.{
  each_block-each_block, each_block_id, each_block-AreBytes, encrypt_halves-IsU32,
}

-- `for _ in 0..32` of `textbook_encipher`, on the rounds left.
pub encipher_loop : ℕ → List ℕ → ℕ → ℕ × ℕ → ℕ × ℕ
encipher_loop zero key sum v = v
encipher_loop (suc n) key sum (v0, v1) =
    let v0' = wrapping_add v0 (
      bit_xor (wrapping_add (bit_xor (v1 * 2 ^ 4 % word) (v1 / 2 ^ 5)) v1)
        (wrapping_add sum (get_or key (bit_and sum 3) 0))) in
    let sum' = wrapping_add sum delta in
    let v1' = wrapping_add v1 (
      bit_xor (wrapping_add (bit_xor (v0' * 2 ^ 4 % word) (v0' / 2 ^ 5)) v0')
        (wrapping_add sum' (get_or key (bit_and (sum' / 2 ^ 11) 3) 0))) in
    encipher_loop n key sum' (v0', v1')

pub textbook_encipher : List ℕ → ℕ × ℕ → ℕ × ℕ
textbook_encipher key v = encipher_loop 32 key 0 v

-- One block under a schedule of round keys.
pub rounds : RoundKeys → ℕ × ℕ → ℕ × ℕ
rounds (k0 ∷ k1 ∷ keys) v = rounds keys (encrypt_halves k0 k1 v)
rounds _ v = v

rounds-expand_loop :
    (n : ℕ) (key : List ℕ) (sum : ℕ) (v : ℕ × ℕ)
    → rounds (expand_loop n key sum (wrapping_add sum delta)) v ≡ encipher_loop n key sum v
unfolding rounds expand_loop encipher_loop encrypt_halves mix
rounds-expand_loop zero key sum v = refl
rounds-expand_loop (suc n) key sum v = rounds-expand_loop n key (wrapping_add sum delta) _

-- `encrypt` treats the blocks one by one, each with all of its rounds.
encrypt-each_block :
    (keys : RoundKeys) (bs : Bytes) → AreBytes bs → encrypt bs keys ≡ each_block (rounds keys) bs
unfolding encrypt rounds
encrypt-each_block (k0 ∷ k1 ∷ keys) bs h =
    encrypt-each_block keys (each_block (encrypt_halves k0 k1) bs)
      (each_block-AreBytes (encrypt_halves k0 k1) bs h)
    ∙ each_block-each_block (rounds keys) (encrypt_halves k0 k1) (encrypt_halves-IsU32 k0 k1) bs
encrypt-each_block (k0 ∷ []) bs h = sym (each_block_id bs h)
encrypt-each_block [] bs h = sym (each_block_id bs h)

-- Encrypting any buffer of bytes under an expanded key is the textbook cipher on each of its
-- eight-byte blocks, in place; the bytes after the last whole block are unchanged.
pub encrypt-textbook_encipher :
    (key : List ℕ) (bs : Bytes)
    → AreBytes bs
    → encrypt bs (expand_key key) ≡ each_block (textbook_encipher key) bs
unfolding expand_key textbook_encipher
encrypt-textbook_encipher key bs h =
    encrypt-each_block (expand_key key) bs h
    ∙ ap (λ f. each_block f bs) (fun_ext (rounds-expand_loop 32 key 0))
