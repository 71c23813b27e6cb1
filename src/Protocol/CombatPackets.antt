-- ===== src/Protocol/CombatPackets.antt =====
-- The packets of combat (crates/protocol/src/combat_packets.rs), without the f64 of health_percent.
use package.oxidia.Prelude.{ℕ, ◌≡◌, refl, ap, [], ◌∷◌, ◌++◌, Option, none, some}
use package.oxidia.Protocol.Bytes.{Bytes, u32_of, u32_bytes, IsU32, u32_of-bytes}
use package.oxidia.Protocol.Message.{write_u8, write_u16, write_u32, write_string}

abbrev pub creature_health : ℕ → ℕ → Bytes
creature_health creature_id percent = write_u8 percent (write_u32 creature_id (write_u8 0x8c []))

abbrev pub death_window : ℕ → Bytes
death_window unfair_fight_reduction = 0x28 ∷ 0 ∷ unfair_fight_reduction ∷ []

pub damage_text : ℕ → ℕ → ℕ → ℕ → ℕ → ℕ → Bytes → Bytes
damage_text mode x y z value color text =
    let w = write_u8 z (write_u16 y (write_u16 x (write_u8 mode (write_u8 0xb4 [])))) in
    write_string text (write_u8 0 (write_u32 0 (write_u8 color (write_u32 value w))))

unfoldable pub parse_attack : Bytes → Option ℕ
parse_attack (a ∷ b ∷ c ∷ d ∷ rest) = some (u32_of a b c d)
parse_attack _ = none

-- The id of a creature that a client writes is read back, whatever follows; a body of fewer than four
-- bytes has none.
pub parse_attack_lem :
    (id : ℕ) (rest : Bytes)
    → IsU32 id
    → (parse_attack (u32_bytes id ++ rest) ≡ some id)
      × ((a b c : ℕ)
          → (parse_attack [] ≡ none)
            × (parse_attack (a ∷ []) ≡ none)
            × (parse_attack (a ∷ b ∷ []) ≡ none)
            × (parse_attack (a ∷ b ∷ c ∷ []) ≡ none))
unfolding parse_attack
parse_attack_lem id rest h = (ap some (u32_of-bytes id h), λ a b c. (refl, refl, refl, refl))
