-- ===== src/Server/Text.antt =====
-- Python's `bytes` and `str` as the server uses them. A `str` is its UTF-8 text.
pub mod Laws
use secure_file_transfer_sys.Base.{
  ℕ, zero, suc, ◌+◌, ◌-◌, ◌*◌, ◌/◌, ◌%◌, ◌^◌, Bool, true, false, ◌&&◌, Option, none, some, [], ◌∷◌,
  ◌++◌, ◌==◌, leb, ltb, if◌then◌else◌, length, replicate,
}
use secure_file_transfer_sys.Runtime.{Bytes}

-- What a first byte asks for: how many bytes follow, and the bounds of the next one.
abbrev pub lead : ℕ → Option (ℕ × ℕ × ℕ)
lead b =
    if ltb b 0x80
    then some (0, 0x80, 0xbf)
    else if ltb b 0xc2
    then none
    else if ltb b 0xe0
    then some (1, 0x80, 0xbf)
    else if b == 0xe0
    then some (2, 0xa0, 0xbf)
    else if b == 0xed
    then some (2, 0x80, 0x9f)
    else if ltb b 0xf0
    then some (2, 0x80, 0xbf)
    else if b == 0xf0
    then some (3, 0x90, 0xbf)
    else if ltb b 0xf4
    then some (3, 0x80, 0xbf)
    else if b == 0xf4
    then some (3, 0x80, 0x8f)
    else none

-- The state after one byte: how many bytes must follow, and the bounds of the next one.
abbrev pub utf8_next : ℕ → ℕ → ℕ → ℕ → Option (ℕ × ℕ × ℕ)
utf8_next zero low high b = lead b
utf8_next (suc n) low high b = if leb low b && leb b high then some (n, 0x80, 0xbf) else none

-- Whether `decode('utf-8')` accepts the rest of a text: no overlong form, surrogate or cut character.
unfoldable pub is_utf8_from : ℕ → ℕ → ℕ → Bytes → Bool
is_utf8_from n low high [] = n == 0
is_utf8_from n low high (b ∷ rest) = elim (utf8_next n low high b) [
  | none ↦ false
  | some (n', low', high') ↦ is_utf8_from n' low' high' rest
]

unfoldable pub is_utf8 : Bytes → Bool
unfolding is_utf8_from
is_utf8 text = is_utf8_from 0 0x80 0xbf text

-- `replace('\0', '')`
unfoldable pub remove_null : Bytes → Bytes
remove_null [] = []
remove_null (c ∷ cs) = if c == 0 then remove_null cs else c ∷ remove_null cs

-- `text.decode('utf-8').replace('\0', '')`
unfoldable pub decode_name : Bytes → Option Bytes
decode_name text = if is_utf8 text then some (remove_null text) else none

-- `convert_byte_to_int`
unfoldable pub convert_byte_to_int : Bytes → ℕ
convert_byte_to_int [] = 0
convert_byte_to_int (b ∷ bs) = b + 256 * convert_byte_to_int bs

unfoldable pub little : ℕ → ℕ → Bytes
little n zero = []
little n (suc size) = n % 256 ∷ little (n / 256) size

-- `convert_int_to_byte`: a number that does not fit raises `OverflowError`.
unfoldable pub convert_int_to_byte : ℕ → ℕ → Option Bytes
unfolding little
convert_int_to_byte n size = if ltb n (256 ^ size) then some (little n size) else none

-- `text.ljust(size, b'\0')`
unfoldable pub ljust : Bytes → ℕ → Bytes
ljust text size = text ++ replicate (size - length text) 0
