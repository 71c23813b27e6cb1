-- ===== src/Protocol/Xtea/Framing.antt =====
-- About `encrypt_message` and `decrypt_message` of crates/protocol/src/xtea.rs used together.
use package.oxidia.Prelude.{
  ℕ, suc, ◌+◌, ◌-◌, ◌%◌, ◌≤◌, ◌<◌, ◌≡◌, ◌⊎◌, ◌≢◌, get_or, drop, length-take, length-drop, ap, ◌∙◌,
  ◌++◌, arith, length, length-append, length-replicate, replicate, take_append, All-append, ltb_ge,
  zero,
}
use package.oxidia.Protocol.Bytes.{
  Bytes, AreBytes, IsByte, u16_bytes, u16_of, u16_of-bytes, u16_bytes-AreBytes,
}
use package.oxidia.Protocol.Xtea.{
  RoundKeys, padded, encrypt, decrypt, encrypt_message, unpad, decrypt_message, message, failed,
  not_padded,
}
use package.oxidia.Protocol.Xtea.Cipher.{length-encrypt, length-decrypt, decrypt-encrypt}

abbrev padding : Bytes → Bytes
padding p = replicate ((8 - (2 + length p) % 8) % 8) 0

padded_lem : (p : Bytes) → length p < 65536 → padded p ≡ u16_bytes (length p) ++ (p ++ padding p)
unfolding padded
padded_lem p h =
    let small : length p % 65536 ≡ length p = omega arith in
    let two : suc (suc (length p)) ≡ 2 + length p = omega arith in rw small (rw two)

zeros-AreBytes : (n : ℕ) → AreBytes (replicate n 0)
zeros-AreBytes zero = tt
zeros-AreBytes (suc n) = (omega arith, zeros-AreBytes n)

padded-AreBytes : (p : Bytes) → length p < 65536 → AreBytes p → AreBytes (padded p)
padded-AreBytes p h b = rw (padded_lem p h) (
    All-append IsByte (u16_bytes (length p)) (p ++ padding p) (u16_bytes-AreBytes (length p))
      (All-append IsByte p (padding p) b (zeros-AreBytes _)))

length-padded :
    (p : Bytes)
    → length p < 65536
    → (2 + length p ≤ length (padded p)) × (length (padded p) % 8 ≡ 0)
length-padded p h =
    let inner = length-append p (padding p) in
    let zeros = length-replicate {A = ℕ} ((8 - (2 + length p) % 8) % 8) 0 in
    rw (padded_lem p h) (omega (arith, inner, zeros), omega (arith, inner, zeros))

unpad-padded : (p : Bytes) → length p < 65536 → unpad (padded p) ≡ message p
unfolding unpad
unpad-padded p h =
    let room = (length-padded p h).0 in
    let inner = length-append p (padding p) in
    rw (padded_lem p h) (
      rw (u16_of-bytes (length p) h) (
        rw
          (ltb_ge (length (u16_bytes (length p) ++ (p ++ padding p))) (2 + length p)
            (omega (arith, inner)))
          (rw (take_append p (padding p)))))

accepts :
    (body : Bytes) (keys : RoundKeys)
    → length body % 8 ≡ 0
    → 0 < length body
    → decrypt_message body keys ≡ unpad (decrypt body keys)
unfolding decrypt_message
accepts body keys whole some_byte = ground arith

-- For a payload of bytes shorter than 65536 and any round keys: the encrypted message is a whole
-- number of eight-byte blocks, it decrypts to the payload, and it is at most nine bytes longer.
pub decrypt_message-encrypt_message :
    (p : Bytes) (keys : RoundKeys)
    → AreBytes p
    → length p < 65536
    → (length (encrypt_message p keys) % 8 ≡ 0)
      × (length (encrypt_message p keys) ≤ length p + 9)
      × (decrypt_message (encrypt_message p keys) keys ≡ message p)
unfolding encrypt_message
decrypt_message-encrypt_message p keys b h =
    let (room, whole) = length-padded p h in
    let same = length-encrypt (padded p) keys in
    let total = length-append p (padding p) in
    let zeros = length-replicate {A = ℕ} ((8 - (2 + length p) % 8) % 8) 0 in
    let size : length (padded p) ≡ 2 + length p + (8 - (2 + length p) % 8) % 8 =
      rw (padded_lem p h) (omega (arith, total, zeros)) in
    (
      omega (arith, same),
      omega (arith, same, size),
      accepts (encrypt (padded p) keys) keys (omega (arith, same)) (omega (arith, same))
          ∙ ap unpad (decrypt-encrypt (padded p) keys (padded-AreBytes p h b))
          ∙ unpad-padded p h,
    )

-- A body that is empty or no whole number of blocks is refused with its length. A payload is
-- returned only from a whole number of blocks, and it is at least two bytes shorter than the body.
pub decrypt_message_checks :
    (body : Bytes) (keys : RoundKeys)
    → ((length body ≡ 0) ⊎ (length body % 8 ≢ 0)
        → decrypt_message body keys ≡ failed (not_padded (length body)))
      × ((p : Bytes)
          → decrypt_message body keys ≡ message p
          → (length body % 8 ≡ 0) × (2 + length p ≤ length body))
unfolding decrypt_message unpad
decrypt_message_checks body keys =
    let inner = u16_of (get_or (decrypt body keys) 0 0) (get_or (decrypt body keys) 1 0) in
    (
      λ h. ground arith,
      λ p e. ground (
        arith,
        length-decrypt body keys,
        length-take inner (drop 2 (decrypt body keys)),
        length-drop 2 (decrypt body keys),
      ),
    )
