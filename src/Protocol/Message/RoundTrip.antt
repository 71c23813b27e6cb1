-- ===== src/Protocol/Message/RoundTrip.antt =====
-- About a message as a sequence of fields (crates/protocol/src/message.rs), written and read.
use package.oxidia.Prelude.{
  ℕ, ◌%◌, ◌<◌, ◌≡◌, refl, sym, ◌∙◌, ap, subst, List, [], ◌∷◌, ◌++◌, arith, length, append_assoc,
  append-nil,
}
use package.oxidia.Protocol.Bytes.{Bytes, u16_bytes, IsByte, IsU16, IsU32}
use package.oxidia.Protocol.Message.{
  MessageReader, Read, ok, pure, ◌>>=◌, new, read_u8, read_u16, read_u32, read_string, read_bytes,
  take_bytes, remaining, MessageWriter, write_u8, write_u16, write_u32, write_string, write_bytes,
}
use package.oxidia.Protocol.Message.Reads.{
  Ahead, Ahead-remaining, Returns, >>=-Returns, new-Ahead, read_u8-Returns, read_u16-Returns,
  read_u32-Returns, read_string-Returns, take_bytes-Returns,
}

pub data Field : Type 0 where
  u8 u16 u32 : ℕ → Field
  text raw : Bytes → Field

-- The value fits the type of its field.
abbrev pub Fits : Field → Type 0
Fits (u8 v) = IsByte v
Fits (u16 v) = IsU16 v
Fits (u32 v) = IsU32 v
Fits (text s) = length s < 65536
Fits (raw b) = Unit

abbrev pub AllFit : List Field → Type 0
AllFit [] = Unit
AllFit (f ∷ fs) = Fits f × AllFit fs

pub write_field : Field → MessageWriter → MessageWriter
write_field (u8 v) w = write_u8 v w
write_field (u16 v) w = write_u16 v w
write_field (u32 v) w = write_u32 v w
write_field (text s) w = write_string s w
write_field (raw b) w = write_bytes b w

pub write_fields : List Field → MessageWriter → MessageWriter
write_fields [] w = w
write_fields (f ∷ fs) w = write_fields fs (write_field f w)

-- Reads a field of the same kind; of raw bytes as many.
pub read_field : Field → Read Field
read_field (u8 _) = do v ← read_u8; pure (u8 v)
read_field (u16 _) = do v ← read_u16; pure (u16 v)
read_field (u32 _) = do v ← read_u32; pure (u32 v)
read_field (text _) = do s ← read_string; pure (text s)
read_field (raw b) = do c ← read_bytes (length b); pure (raw c)

pub read_fields : List Field → Read (List Field)
read_fields [] = pure []
read_fields (f ∷ fs) = do v ← read_field f; vs ← read_fields fs; pure (v ∷ vs)

write_field_append : (f : Field) (w : Bytes) → write_field f w ≡ w ++ write_field f []
unfolding write_field
write_field_append (u8 v) w = refl
write_field_append (u16 v) w = refl
write_field_append (u32 v) w = refl
write_field_append (text s) w = append_assoc w _ s
write_field_append (raw b) w = refl

write_fields_append : (fs : List Field) (w : Bytes) → write_fields fs w ≡ w ++ write_fields fs []
unfolding write_fields
write_fields_append [] w = rw (append-nil w)
write_fields_append (f ∷ fs) w =
    write_fields_append fs (write_field f w)
    ∙ ap (λ z. z ++ write_fields fs []) (write_field_append f w)
    ∙ append_assoc w _ _
    ∙ ap (λ z. w ++ z) (sym (write_fields_append fs (write_field f [])))

wrap-Returns :
    {A : Type 0} {v : A} {bs : Bytes} (c : A → Field) (m : Read A) (r : MessageReader)
    → Returns v bs (m r)
    → Returns (c v) bs ((m >>= λ a. pure (c a)) r)
wrap-Returns c m r t = >>=-Returns m _ r t (λ r' a. record { result = refl; left = a })

read_field-Returns :
    (f : Field) (ys : Bytes) (r : MessageReader)
    → Fits f
    → Ahead (write_field f [] ++ ys) r
    → Returns f ys (read_field f r)
unfolding write_field read_field read_bytes
read_field-Returns (u8 v) ys r fit h = wrap-Returns u8 read_u8 r (read_u8-Returns v ys r h)
read_field-Returns (u16 v) ys r fit h = wrap-Returns u16 read_u16 r (read_u16-Returns v ys r fit h)
read_field-Returns (u32 v) ys r fit h = wrap-Returns u32 read_u32 r (read_u32-Returns v ys r fit h)
read_field-Returns (text s) ys r fit h =
    let small : length s % 65536 ≡ length s = omega arith in
    wrap-Returns text read_string r
      (read_string-Returns s ys r fit (subst (λ n. Ahead (u16_bytes n ++ (s ++ ys)) r) small h))
read_field-Returns (raw b) ys r fit h =
    wrap-Returns raw (take_bytes (length b)) r (take_bytes-Returns b ys r h)

read_fields-Returns :
    (fs : List Field) (ys : Bytes) (r : MessageReader)
    → AllFit fs
    → Ahead (write_fields fs [] ++ ys) r
    → Returns fs ys (read_fields fs r)
unfolding write_fields read_fields
read_fields-Returns [] ys r fit h = record { result = refl; left = h }
read_fields-Returns (f ∷ fs) ys r fit h =
    let split : write_fields fs (write_field f []) ++ ys
        ≡ write_field f [] ++ (write_fields fs [] ++ ys) =
      ap (λ z. z ++ ys) (write_fields_append fs (write_field f []))
      ∙ append_assoc (write_field f []) _ ys in
    >>=-Returns (read_field f) _ r
      (read_field-Returns f (write_fields fs [] ++ ys) r fit.0 (subst (λ z. Ahead z r) split h))
      (λ r' a.
        >>=-Returns (read_fields fs) _ r' (read_fields-Returns fs ys r' fit.1 a)
          (λ r'' b. record { result = refl; left = b }))

-- Any sequence of fields whose values fit their types, written one after the other by the writer,
-- is read back by a reader over the buffer: the same fields in the same order, and no byte is left.
pub write_fields-read_fields :
    (fs : List Field)
    → AllFit fs
    → let out = read_fields fs (new (write_fields fs [])) in (out.0 ≡ ok fs) × (remaining out.1 ≡ 0)
write_fields-read_fields fs fit =
    let t =
      read_fields-Returns fs [] (new (write_fields fs [])) fit
        (rw (append-nil (write_fields fs [])) (new-Ahead (write_fields fs []))) in
    (t.result, Ahead-remaining [] _ t.left)
