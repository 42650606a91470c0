-- ===== src/Various/Hex/RoundTrip.antt =====
-- Client/various_functions.cpp: an ID survives being written as hexadecimal text.
use secure_file_transfer_sys.Base.{
  ℕ, ◌*◌, ◌/◌, ◌%◌, ◌<◌, ◌≡◌, refl, ap₂, arith, true, [], ◌∷◌, ◌==◌, ==_iff, all_below,
  all_below_sound, All, length,
}
use secure_file_transfer_sys.Runtime.{Bytes}
use secure_file_transfer_sys.Various.Hex.{
  convert_string_to_hex, convert_hex_to_bytes, hex_digit, strtol_16, to_char,
}

-- Every byte, by evaluation.
byte_table :
    all_below 256 (λ b. to_char (strtol_16 (hex_digit (b / 16) ∷ hex_digit (b % 16) ∷ [])) == b)
    ≡ true
unfolding all_below strtol_16 hex_digit
byte_table = refl

byte_lem :
    (b : ℕ) → b < 256 → to_char (strtol_16 (hex_digit (b / 16) ∷ hex_digit (b % 16) ∷ [])) ≡ b
byte_lem b h = (==_iff _ b).0 (all_below_sound 256 _ b byte_table h)

pub convert_hex_to_bytes-convert_string_to_hex :
    (text : Bytes)
    → All (λ b. b < 256) text
    → convert_hex_to_bytes (convert_string_to_hex text) ≡ text
unfolding convert_hex_to_bytes convert_string_to_hex
convert_hex_to_bytes-convert_string_to_hex [] h = refl
convert_hex_to_bytes-convert_string_to_hex (b ∷ text) (byte, h) =
    ap₂ (λ x xs. x ∷ xs) (byte_lem b byte) (convert_hex_to_bytes-convert_string_to_hex text h)

-- Two digits for a byte.
pub length-convert_string_to_hex :
    (text : Bytes) → length (convert_string_to_hex text) ≡ 2 * length text
unfolding convert_string_to_hex
length-convert_string_to_hex [] = refl
length-convert_string_to_hex (b ∷ text) = omega (arith, length-convert_string_to_hex text)
