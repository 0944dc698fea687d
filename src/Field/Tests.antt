-- ===== src/Field/Tests.antt =====
-- Runs of the field encodings, and the theorems at concrete values.
use stellar_mosaic.Prelude.{ℕ, zero, suc, ◌≡◌, refl, some, arith, length, replicate}
use stellar_mosaic.Prelude.Int.{negsuc}
use stellar_mosaic.Text.{codes, big_int, to_digits, read_digits}
use stellar_mosaic.Field.{
  canonical, to_big_int, field_text, to_field_hex, text_field_hex, field_to_bytes32,
}
use stellar_mosaic.Field.Encoding.{to_big_int-to_field_hex}
use stellar_mosaic.Field.Bytes.{AreBytes, be_value, field_to_bytes32_lem}

tests :
    (canonical (negsuc 0)
      ≡ 21888242871839275222246405745257275088548364400416034343698204186575808495616)
    × (text_field_hex (codes "10")
        ≡ some (codes "0x000000000000000000000000000000000000000000000000000000000000000a"))
    × (text_field_hex (codes "0xA") ≡ text_field_hex (codes "10"))
unfolding canonical to_big_int field_text text_field_hex big_int to_digits read_digits
tests = (refl, refl, refl)

to_big_int-to_field_hex_example :
    (length (to_field_hex (negsuc 4)) ≡ 66)
    × (to_big_int (to_field_hex (negsuc 4)) ≡ some (canonical (negsuc 4)))
to_big_int-to_field_hex_example = to_big_int-to_field_hex (negsuc 4)

field_to_bytes32_lem_example :
    AreBytes (field_to_bytes32 (negsuc 0))
    × (length (field_to_bytes32 (negsuc 0)) ≡ 32)
    × (be_value 0 (field_to_bytes32 (negsuc 0)) ≡ canonical (negsuc 0))
field_to_bytes32_lem_example = field_to_bytes32_lem (negsuc 0)

full_bytes : (n : ℕ) → AreBytes (replicate n 255)
full_bytes zero = tt
full_bytes (suc n) = (omega arith, full_bytes n)
