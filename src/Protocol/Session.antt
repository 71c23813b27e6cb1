-- ===== src/Protocol/Session.antt =====
-- One packet of an encrypted session (crates/server/src/game_service.rs): `send_encrypted`, and the
-- head of `reader_loop`, which takes a frame off the stream, verifies its checksum and decrypts it.
use package.oxidia.Prelude.{◌+◌, ◌≤◌, ◌≡◌, [], Option, none, some, arith, length, true}
use package.oxidia.Protocol.Bytes.{Bytes, AreBytes}
use package.oxidia.Protocol.Frame.{checksummed, verify, Verified, payload, rejected}
use package.oxidia.Protocol.Frame.Laws.{verify-checksummed, length-checksummed}
use package.oxidia.Protocol.Xtea.{
  RoundKeys, encrypt_message, decrypt_message, Decrypted, message, failed,
}
use package.oxidia.Protocol.Xtea.Framing.{decrypt_message-encrypt_message}
use package.oxidia.Protocol.Net.{
  IoError, IoResult, done, io_err, Reader, Writer, read_frame, write_frame, max_frame,
}
use package.oxidia.Protocol.Net.Laws.{read_frame-write_frame}

pub send_encrypted :
    (w : Writer) → RoundKeys → Bytes → Writer.W w → IoResult (Unit {0}) × Writer.W w
send_encrypted w keys packet s = write_frame w (checksummed (encrypt_message packet keys)) s

-- What one turn of the loop does with the stream: it leaves, goes on to the next frame, or has a
-- payload to dispatch. A read error ends the loop with `?`.
pub data Incoming : Type 0 where
  closed : Incoming
  io_failed : IoError → Incoming
  dropped : Incoming
  packet : Bytes → Incoming

abbrev pub opened : Decrypted → Incoming
opened (message p) = packet p
opened (failed e) = dropped

abbrev pub verified : RoundKeys → Verified → Incoming
verified keys (payload body) = opened (decrypt_message body keys)
verified keys (rejected e) = dropped

abbrev pub framed : RoundKeys → IoResult (Option Bytes) → Incoming
framed keys (done none) = closed
framed keys (done (some raw)) = verified keys (verify raw)
framed keys (io_err e) = io_failed e

pub receive : (r : Reader) → RoundKeys → Reader.S r → Incoming × Reader.S r
receive r keys s = (framed keys (read_frame r s).0, (read_frame r s).1)

-- A packet of bytes, short enough for its frame, that is sent over a connection that is up is what
-- the peer's loop receives under the same round keys, and nothing of it is left on the stream.
pub receive-send_encrypted :
    (w : Writer) (r : Reader) (keys : RoundKeys) (p : Bytes) (s : Writer.W w) (t : Reader.S r)
    → AreBytes p
    → length p + 13 ≤ max_frame
    → w.is_up s ≡ true
    → w.sent s ≡ []
    → r.coming t ≡ w.sent (send_encrypted w keys p s).1
    → ((send_encrypted w keys p s).0 ≡ done tt)
      × ((receive r keys t).0 ≡ packet p)
      × (r.coming (receive r keys t).1 ≡ [])
unfolding send_encrypted receive
receive-send_encrypted w r keys p s t bytes short up fresh linked =
    let cipher = decrypt_message-encrypt_message p keys bytes (omega arith) in
    let body = encrypt_message p keys in
    let size : length (checksummed body) ≡ length body + 4 = length-checksummed body in
    let io =
      (read_frame-write_frame w r (checksummed body) s t up linked fresh).0
        (omega (arith, cipher.1, size)) in
    (io.0, rw (io.1, framed) (rw (verify-checksummed body) (rw cipher.2)), io.2)
