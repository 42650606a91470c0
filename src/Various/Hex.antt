-- ===== src/Various/Hex.antt =====
-- Client/various_functions.cpp: texts of hexadecimal digits, two for a byte.
pub mod RoundTrip
use secure_file_transfer_sys.Base.{
  ℕ, ◌+◌, ◌-◌, ◌*◌, ◌/◌, ◌%◌, Bool, ◌&&◌, ◌||◌, Option, none, some, [], ◌∷◌, ◌==◌, leb, ltb,
  if◌then◌else◌,
}
use secure_file_transfer_sys.Base.Int.{ℤ, pos, negsuc, ◌-ℤ◌}
use secure_file_transfer_sys.Runtime.{Bytes}

-- A digit as `std::hex` prints it.
unfoldable pub hex_digit : ℕ → ℕ
hex_digit n = if ltb n 10 then b'0' + n else b'a' + n - 10

-- `setw(2)` and `setfill('0')` give every byte two digits.
unfoldable pub convert_string_to_hex : Bytes → Bytes
unfolding hex_digit
convert_string_to_hex [] = []
convert_string_to_hex (b ∷ bs) = hex_digit (b / 16) ∷ hex_digit (b % 16) ∷ convert_string_to_hex bs

-- What `strtol` in base 16 reads: the value of a digit, a run of digits, and then the optional
-- prefix, sign and white space before them. Two characters cannot overflow a `long`.
unfoldable pub digit_value : ℕ → Option ℕ
digit_value c =
    if leb b'0' c && leb c b'9'
    then some (c - b'0')
    else if leb b'a' c && leb c b'f'
    then some (c - b'a' + 10)
    else if leb b'A' c && leb c b'F'
    then some (c - b'A' + 10)
    else none

unfoldable pub digits_value : ℕ → Bytes → ℕ
unfolding digit_value
digits_value acc [] = acc
digits_value acc (c ∷ cs) = elim (digit_value c) [
  | none ↦ acc
  | some d ↦ digits_value (acc * 16 + d) cs
]

abbrev is_x : ℕ → Bool
is_x c = c == b'x' || c == b'X'

unfoldable pub unsigned_value : Bytes → ℕ
unfolding digits_value
unsigned_value [] = 0
unsigned_value (a ∷ []) = digits_value 0 (a ∷ [])
unsigned_value (a ∷ x ∷ cs) =
    if a == b'0' && is_x x then digits_value 0 cs else digits_value 0 (a ∷ x ∷ cs)

unfoldable pub signed_value : Bytes → ℤ
unfolding unsigned_value ◌-ℤ◌
signed_value [] = pos 0
signed_value (c ∷ cs) =
    if c == b'-'
    then pos 0 -ℤ pos (unsigned_value cs)
    else if c == b'+'
    then pos (unsigned_value cs)
    else pos (unsigned_value (c ∷ cs))

abbrev is_space : ℕ → Bool
is_space c = c == 32 || leb 9 c && leb c 13

unfoldable pub strtol_16 : Bytes → ℤ
unfolding signed_value
strtol_16 [] = pos 0
strtol_16 (c ∷ cs) = if is_space c then strtol_16 cs else signed_value (c ∷ cs)

-- The conversion of a `long` to `char` keeps the low eight bits.
abbrev to_char : ℤ → ℕ
to_char (pos n) = n % 256
to_char (negsuc n) = 255 - n % 256

-- The last character of a text of odd length stands alone.
unfoldable pub convert_hex_to_bytes : Bytes → Bytes
unfolding strtol_16
convert_hex_to_bytes [] = []
convert_hex_to_bytes (a ∷ []) = to_char (strtol_16 (a ∷ [])) ∷ []
convert_hex_to_bytes (a ∷ b ∷ rest) = to_char (strtol_16 (a ∷ b ∷ [])) ∷ convert_hex_to_bytes rest
