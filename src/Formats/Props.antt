-- ===== src/Formats/Props.antt =====
-- The cursor over a node's properties (crates/formats/src/props.rs). A method with `&mut self`
-- returns its result with the cursor that it leaves. A string is its bytes: the lossy reading as
-- UTF-8 is not modelled.
use package.oxidia.Prelude.{
  ℕ, ◌+◌, ◌-◌, Option, none, some, if◌then◌else◌, leb, length, take, drop, get_elem?, get_or,
}
use package.oxidia.Protocol.Bytes.{Bytes, u16_of, u32_of}
use package.oxidia.Formats.Error.{What, FormatError, Outcome}

pub record PropReader : Type 0 where
  pub data_bytes : Bytes
  pub at : ℕ

abbrev pub Read : Type 0 → Type 0
Read A = PropReader → Outcome A × PropReader

abbrev pub then_read :
    {A B : Type 0} → (A → Read B) → Outcome A → PropReader → Outcome B × PropReader
then_read f (Outcome.done v) r = f v r
then_read f (Outcome.failed e) r = (Outcome.failed e, r)
then_read f Outcome.out_of_fuel r = (Outcome.out_of_fuel, r)

infixl 5 ◌>>=◌
abbrev pub ◌>>=◌ : {A B : Type 0} → Read A → (A → Read B) → Read B
◌>>=◌ m f r = then_read f (m r).0 (m r).1

abbrev pub pure : {A : Type 0} → A → Read A
pure a r = (Outcome.done a, r)

pub new : Bytes → PropReader
new bs = record { data_bytes = bs; at = 0 }

pub remaining : PropReader → ℕ
remaining r = length r.data_bytes - r.at

unfoldable pub take_bytes : ℕ → What → Read Bytes
take_bytes n what r =
    if leb (r.at + n) (length r.data_bytes)
    then (Outcome.done (take n (drop r.at r.data_bytes)), record r { at = r.at + n })
    else (Outcome.failed (FormatError.unexpected_eof what), r)

abbrev first_byte : Option ℕ → Read ℕ
first_byte none r = (Outcome.failed (FormatError.unexpected_eof What.u8), r)
first_byte (some b) r = (Outcome.done b, record r { at = r.at + 1 })

unfoldable pub read_u8 : Read ℕ
read_u8 r = first_byte (get_elem? r.data_bytes r.at) r

unfoldable pub read_u16 : Read ℕ
read_u16 = do b ← take_bytes 2 What.u16; pure (u16_of (get_or b 0 0) (get_or b 1 0))

unfoldable pub read_u32 : Read ℕ
read_u32 = do
  b ← take_bytes 4 What.u32
  pure (u32_of (get_or b 0 0) (get_or b 1 0) (get_or b 2 0) (get_or b 3 0))

unfoldable pub read_string : Read Bytes
read_string = do len ← read_u16; take_bytes len What.string

unfoldable pub skip : ℕ → Read Unit
skip n = do b ← take_bytes n What.skip; pure tt
