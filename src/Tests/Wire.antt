-- ===== src/Tests/Wire.antt =====
-- The wire protocol: checksum, cipher, frames and messages.
use oxidia.Prelude.{
  ℕ, ◌+◌, ◌*◌, ◌%◌, ◌<◌, ◌≤◌, ◌≡◌, refl, List, [], ◌∷◌, ◌++◌, true, some, arith, length, take, drop,
  take_append, drop_append, if◌then◌else◌, ltb, lt→ltb, length-append, ltb_ge,
}
use oxidia.Protocol.Bytes.{Bytes, AreBytes}
use oxidia.Protocol.Frame.{checksummed, adler32, adler_loop, mod_adler}
use oxidia.Protocol.Frame.Laws.{
  verify-checksummed, verify_only_checksummed, adler32_lem, byte_sum, weighted_sum,
}
use oxidia.Protocol.Xtea.{
  expand_key, encrypt, decrypt, each_block, encrypt_message, decrypt_message, message,
}
use oxidia.Protocol.Xtea.Cipher.{decrypt-encrypt}
use oxidia.Protocol.Xtea.Textbook.{textbook_encipher, encrypt-textbook_encipher}
use oxidia.Protocol.Xtea.Framing.{decrypt_message-encrypt_message}
use oxidia.Protocol.Net.{
  IoResult, done, io_err, unexpected_eof, invalid_data, Reader, Writer, read_frame, write_frame,
  max_frame,
}
use oxidia.Protocol.Net.Laws.{read_frame-write_frame, read_frame-outcome}
use oxidia.Protocol.Session.{send_encrypted, receive, packet, receive-send_encrypted}
use oxidia.Protocol.Message.{ok, new, remaining}
use oxidia.Protocol.Message.RoundTrip.{Field, write_fields, read_fields, write_fields-read_fields}
use oxidia.Protocol.MoveThing.{Throw, parse_throw, throw_bytes, parse_throw-throw_bytes}

abbrev hello : Bytes
hello = 104 ∷ 101 ∷ 108 ∷ 108 ∷ 111 ∷ []

hello-AreBytes : AreBytes hello
hello-AreBytes = omega arith

abbrev key : List ℕ
key = 1 ∷ 2 ∷ 3 ∷ 0xffffffff ∷ []

-- The value that the unit tests of adler.rs give for "Wikipedia".
adler32-Wikipedia : adler32 (87 ∷ 105 ∷ 107 ∷ 105 ∷ 112 ∷ 101 ∷ 100 ∷ 105 ∷ 97 ∷ []) ≡ 0x11e60398
unfolding adler32 adler_loop
adler32-Wikipedia = refl

adler32_lem_example :
    adler32 hello
    ≡ (length hello + weighted_sum hello) % mod_adler * 65536 + (1 + byte_sum hello) % mod_adler
adler32_lem_example = adler32_lem hello

verify_only_checksummed_example : 1 ∷ 0 ∷ 0 ∷ 0 ∷ [] ≡ checksummed []
verify_only_checksummed_example =
    verify_only_checksummed (1 ∷ 0 ∷ 0 ∷ 0 ∷ []) [] (omega arith)
      (unfold checksummed adler32 adler_loop in verify-checksummed [])

decrypt-encrypt_example : decrypt (encrypt hello (expand_key key)) (expand_key key) ≡ hello
decrypt-encrypt_example = decrypt-encrypt hello (expand_key key) hello-AreBytes

encrypt-textbook_encipher_example :
    encrypt (hello ++ hello) (expand_key key) ≡ each_block (textbook_encipher key) (hello ++ hello)
encrypt-textbook_encipher_example = encrypt-textbook_encipher key (hello ++ hello) (omega arith)

decrypt_message-encrypt_message_example :
    (length (encrypt_message hello (expand_key key)) % 8 ≡ 0)
    × (length (encrypt_message hello (expand_key key)) ≤ 14)
    × (decrypt_message (encrypt_message hello (expand_key key)) (expand_key key) ≡ message hello)
decrypt_message-encrypt_message_example =
    decrypt_message-encrypt_message hello (expand_key key) hello-AreBytes (omega arith)

-- A stream in memory: what is to come, cut at the count that is read.
abbrev read_exact : ℕ → Bytes → IoResult Bytes × Bytes
read_exact n s =
    if ltb (length s) n then (io_err unexpected_eof, s) else (done (take n s), drop n s)

read_exact_enough :
    (xs ys s : Bytes)
    → s ≡ xs ++ ys
    → ((read_exact (length xs) s).0 ≡ done xs) × ((read_exact (length xs) s).1 ≡ ys)
read_exact_enough xs ys s e =
    let long : length (xs ++ ys) ≡ length xs + length ys = length-append xs ys in
    rw e (
      rw (ltb_ge (length (xs ++ ys)) (length xs) (omega arith))
        (rw (take_append xs ys, drop_append xs ys) (refl, refl)))

read_exact_short : (n : ℕ) (s : Bytes) → length s < n → (read_exact n s).0 ≡ io_err unexpected_eof
read_exact_short n s h = rw (lt→ltb (length s) n h) refl

abbrev memory_reader : Reader
memory_reader = record {
  S = Bytes;
  read_exact = read_exact;
  coming = λ s. s;
  enough = read_exact_enough;
  short = read_exact_short;
}

abbrev memory_writer : Writer
memory_writer = record {
  W = Bytes;
  write_all = λ b w. (done tt, w ++ b);
  flush = λ w. (done tt, w);
  sent = λ w. w;
  is_up = λ w. true;
  writes = λ b w e. (refl, refl, refl);
  flushes = λ w e. (refl, refl);
}

read_frame-write_frame_example :
    (length hello ≤ max_frame
      → ((write_frame memory_writer hello []).0 ≡ done tt)
        × ((read_frame memory_reader (write_frame memory_writer hello []).1).0 ≡ done (some hello))
        × ((read_frame memory_reader (write_frame memory_writer hello []).1).1 ≡ []))
    × (max_frame < length hello
        → write_frame memory_writer hello [] ≡ (io_err (invalid_data 5), []))
read_frame-write_frame_example =
    read_frame-write_frame memory_writer memory_reader hello []
      (write_frame memory_writer hello []).1 refl refl refl

-- The stream closes after two of five bytes of the body.
read_frame-outcome_example :
    (read_frame memory_reader (5 ∷ 0 ∷ 104 ∷ 101 ∷ [])).0 ≡ io_err unexpected_eof
read_frame-outcome_example =
    read_frame-outcome memory_reader (5 ∷ 0 ∷ 104 ∷ 101 ∷ []) (λ e. absurd (omega arith))

receive-send_encrypted_example :
    ((send_encrypted memory_writer (expand_key key) hello []).0 ≡ done tt)
    × ((receive memory_reader
          (expand_key key)
          (send_encrypted memory_writer (expand_key key) hello []).1).0
        ≡ packet hello)
    × ((receive memory_reader
          (expand_key key)
          (send_encrypted memory_writer (expand_key key) hello []).1).1
        ≡ [])
receive-send_encrypted_example =
    receive-send_encrypted memory_writer memory_reader (expand_key key) hello []
      (send_encrypted memory_writer (expand_key key) hello []).1 hello-AreBytes (omega arith) refl
      refl refl

abbrev fields : List Field
fields = Field.u8 200 ∷ Field.u32 70000 ∷ Field.text hello ∷ []

write_fields-read_fields_example :
    ((read_fields fields (new (write_fields fields []))).0 ≡ ok fields)
    × (remaining (read_fields fields (new (write_fields fields []))).1 ≡ 0)
write_fields-read_fields_example = write_fields-read_fields fields (omega arith)

abbrev throw : Throw
throw = record {
  source = record { x = 1000; y = 2000; z = 7 };
  sprite = 4526;
  from_stackpos = 2;
  target = record { x = 1001; y = 2000; z = 7 };
  count = 5;
}

parse_throw-throw_bytes_example : parse_throw (throw_bytes throw hello) ≡ some throw
parse_throw-throw_bytes_example =
    parse_throw-throw_bytes throw hello (omega arith) (omega arith) (omega arith)
