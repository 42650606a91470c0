-- ===== src/Server/Text/Laws.antt =====
-- Names and numbers on the wire as the server reads and writes them.
use secure_file_transfer_sys.Base.{
  ℕ, zero, suc, ◌-◌, ◌^◌, ◌<◌, ◌≡◌, refl, arith, true, some, [], ◌∷◌, ◌++◌, length, replicate,
  Option-cases, inl, inr,
}
use secure_file_transfer_sys.Runtime.{Bytes}
use secure_file_transfer_sys.Wire.{u16_bytes, u32_bytes, text_field}
use secure_file_transfer_sys.Answer.Checks.{HasNoNull}
use secure_file_transfer_sys.Server.Text.{
  utf8_next, is_utf8_from, is_utf8, remove_null, decode_name, convert_byte_to_int,
  convert_int_to_byte,
}

remove_null-zeros : (n : ℕ) → remove_null (replicate n 0) ≡ []
unfolding remove_null
remove_null-zeros zero = refl
remove_null-zeros (suc n) = remove_null-zeros n

remove_null-padded : (s : Bytes) (n : ℕ) → HasNoNull s → remove_null (s ++ replicate n 0) ≡ s
unfolding remove_null
remove_null-padded [] n h = remove_null-zeros n
remove_null-padded (c ∷ s) n h = ground (arith, remove_null-padded s n h.1)

zeros-is_utf8 : (n low high : ℕ) → is_utf8_from 0 low high (replicate n 0) ≡ true
unfolding is_utf8_from
zeros-is_utf8 zero low high = refl
zeros-is_utf8 (suc n) low high = zeros-is_utf8 n 0x80 0xbf

padded-is_utf8 :
    (s : Bytes) (n k low high : ℕ)
    → is_utf8_from k low high s ≡ true
    → is_utf8_from k low high (s ++ replicate n 0) ≡ true
unfolding is_utf8_from
padded-is_utf8 [] n zero low high h = zeros-is_utf8 n low high
padded-is_utf8 [] n (suc k) low high h = ground arith
padded-is_utf8 (c ∷ s) n k low high h = elim (Option-cases (utf8_next k low high c)) [
  | inl e ↦ cc
  | inr ((k', low', high'), e) ↦ ground (arith, e, padded-is_utf8 s n k' low' high')
]

-- A name that is UTF-8 and has no zero comes out of its field.
pub decode_name-text_field :
    (name : Bytes)
    → is_utf8 name ≡ true
    → HasNoNull name
    → decode_name (text_field name) ≡ some name
unfolding decode_name is_utf8
decode_name-text_field name utf free =
    rw
      (
        padded-is_utf8 name (255 - length name) 0 0x80 0xbf utf,
        remove_null-padded name (255 - length name) free,
      )
      refl

pub convert_byte_to_int-u16 : (x : ℕ) → x < 2 ^ 16 → convert_byte_to_int (u16_bytes x) ≡ x
unfolding convert_byte_to_int
convert_byte_to_int-u16 x h = omega arith

pub convert_byte_to_int-u32 : (x : ℕ) → x < 2 ^ 32 → convert_byte_to_int (u32_bytes x) ≡ x
unfolding convert_byte_to_int
convert_byte_to_int-u32 x h = omega arith

pub convert_int_to_byte-u16 : (x : ℕ) → x < 2 ^ 16 → convert_int_to_byte x 2 ≡ some (u16_bytes x)
unfolding convert_int_to_byte
convert_int_to_byte-u16 x h = ground arith

pub convert_int_to_byte-u32 : (x : ℕ) → x < 2 ^ 32 → convert_int_to_byte x 4 ≡ some (u32_bytes x)
unfolding convert_int_to_byte
convert_int_to_byte-u32 x h = ground arith
