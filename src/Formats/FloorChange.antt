-- ===== src/Formats/FloorChange.antt =====
-- The floor-change flags of an item (crates/formats/src/items_xml.rs): one bit each in a u8.
use package.oxidia.Prelude.{ℕ, Bool, not, ◌&&◌, ◌==◌}
use Prim.Native.Nat.{bit_and, bit_or}

pub record FloorChange : Type 0 where
  pub bits : ℕ

abbrev pub no_flags : FloorChange
no_flags = record { bits = 0 }

abbrev pub down : FloorChange
down = record { bits = 1 }

abbrev pub north : FloorChange
north = record { bits = 2 }

abbrev pub south : FloorChange
south = record { bits = 4 }

abbrev pub east : FloorChange
east = record { bits = 8 }

abbrev pub west : FloorChange
west = record { bits = 16 }

abbrev pub south_alt : FloorChange
south_alt = record { bits = 32 }

abbrev pub east_alt : FloorChange
east_alt = record { bits = 64 }

-- All bits of a flag are set, and the flag is not empty.
unfoldable pub contains : FloorChange → FloorChange → Bool
contains f other = not (other.bits == 0) && bit_and f.bits other.bits == other.bits

unfoldable pub insert : FloorChange → FloorChange → FloorChange
insert f other = record { bits = bit_or f.bits other.bits }

unfoldable pub is_empty : FloorChange → Bool
is_empty f = f.bits == 0
