-- ===== src/Formats/Error.antt =====
-- `FormatError` (crates/formats/src/lib.rs), and what a parser gives. A message is a constructor.
pub data What : Type 0 where
  node_header node_body child_type escaped_byte root_start u8 u16 u32 string skip : What

pub data FormatError : Type 0 where
  unexpected_eof : What → FormatError
  invalid_node : What → FormatError

-- `out_of_fuel` is a run that is longer than its fuel; the source has no such result.
pub data Outcome (A : Type 0) : Type 0 where
  done : A → Outcome A
  failed : FormatError → Outcome A
  out_of_fuel : Outcome A

-- `?`
abbrev pub and_then : {A B : Type 0} → Outcome A → (A → Outcome B) → Outcome B
and_then (done a) k = k a
and_then (failed e) k = failed e
and_then out_of_fuel k = out_of_fuel
