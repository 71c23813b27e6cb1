-- ===== src/Protocol/Net.antt =====
-- The length-prefixed envelope of crates/net/src/frame.rs, over a byte stream that tokio implements.
pub mod Laws
use package.oxidia.Prelude.{
  ℕ, ◌+◌, ◌%◌, ◌<◌, ◌≡◌, Bool, true, List, ◌++◌, Option, none, some, length, get_or, if◌then◌else◌,
  ltb,
}
use package.oxidia.Protocol.Bytes.{Bytes, u16_bytes, u16_of}

pub data IoError : Type 0 where
  unexpected_eof : IoError
  invalid_data : ℕ → IoError
  other : ℕ → IoError

pub data IoResult (A : Type 0) : Type 0 where
  done : A → IoResult A
  io_err : IoError → IoResult A

-- What the code uses of tokio's `AsyncReadExt`, with the bytes that are still to come before the
-- peer closes. `read_exact` returns as many bytes as it is asked for, or fails at the end.
pub record Reader : Type 1 where
  pub S : Type 0
  pub read_exact : ℕ → S → IoResult Bytes × S
  pub coming : S → Bytes
  pub enough :
      (xs ys : Bytes) (s : S)
      → coming s ≡ xs ++ ys
      → ((read_exact (length xs) s).0 ≡ done xs) × (coming (read_exact (length xs) s).1 ≡ ys)
  pub short : (n : ℕ) (s : S) → length (coming s) < n → (read_exact n s).0 ≡ io_err unexpected_eof

-- What it uses of `AsyncWriteExt` on a connection that stays up: `write_all` then `flush` send.
pub record Writer : Type 1 where
  pub W : Type 0
  pub write_all : Bytes → W → IoResult (Unit {0}) × W
  pub flush : W → IoResult (Unit {0}) × W
  pub sent : W → Bytes
  pub is_up : W → Bool
  pub writes :
      (b : Bytes) (w : W)
      → is_up w ≡ true
      → ((write_all b w).0 ≡ done tt)
        × (sent (write_all b w).1 ≡ sent w ++ b)
        × (is_up (write_all b w).1 ≡ true)
  pub flushes : (w : W) → is_up w ≡ true → ((flush w).0 ≡ done tt) × (sent (flush w).1 ≡ sent w)

abbrev pub max_frame : ℕ
max_frame = 24590

module _ (r : Reader) where
  open r use {S, read_exact}

  -- `let mut inner = vec![0u8; len]; reader.read_exact(&mut inner).await?`
  abbrev pub read_body : IoResult Bytes → S → IoResult (Option Bytes) × S
  read_body (done inner) s = (done (some inner), s)
  read_body (io_err e) s = (io_err e, s)

  -- On the result of reading the length: only the error of an early end means "no frame".
  abbrev pub after_length : IoResult Bytes → S → IoResult (Option Bytes) × S
  after_length (io_err unexpected_eof) s = (done none, s)
  after_length (io_err (invalid_data n)) s = (io_err (invalid_data n), s)
  after_length (io_err (other n)) s = (io_err (other n), s)
  after_length (done len_buf) s =
      let len = u16_of (get_or len_buf 0 0) (get_or len_buf 1 0) in
      if ltb max_frame len
      then (io_err (invalid_data len), s)
      else read_body (read_exact len s).0 (read_exact len s).1

  pub read_frame : S → IoResult (Option Bytes) × S
  read_frame s = after_length (read_exact 2 s).0 (read_exact 2 s).1

module _ (w : Writer) where
  open w use {W, write_all, flush}

  abbrev pub then_io :
      IoResult (Unit {0}) → W → (W → IoResult (Unit {0}) × W) → IoResult (Unit {0}) × W
  then_io (done _) s k = k s
  then_io (io_err e) s k = (io_err e, s)

  pub write_frame : Bytes → W → IoResult (Unit {0}) × W
  write_frame inner s =
      if ltb max_frame (length inner)
      then (io_err (invalid_data (length inner)), s)
      else (let a = write_all (u16_bytes (length inner % 65536)) s in
          then_io a.0 a.1 (λ s'. let b = write_all inner s' in then_io b.0 b.1 flush))
