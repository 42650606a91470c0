-- ===== src/Cksum/Spec.antt =====
-- The checksum of POSIX `cksum`, bit by bit: division of the text, followed by the bytes of its
-- length, by a polynomial of degree 32 over two elements. It does not mention the tables.
use secure_file_transfer_sys.Base.{
  ℕ, ◌-◌, ◌*◌, ◌/◌, ◌%◌, ◌^◌, ◌<◌, ◌≡◌, [], ◌∷◌, ltb, if◌then◌else◌,
}
use secure_file_transfer_sys.Base.Bits.{bit_xor}
use secure_file_transfer_sys.Runtime.{Bytes}

-- The generator, less its leading term.
abbrev pub polynomial : ℕ
polynomial = 0x04c11db7

-- One more bit of the text: the remainder doubles, and is reduced if it has outgrown 32 bits.
unfoldable pub shift_bit : ℕ → ℕ
shift_bit s = if ltb s (2 ^ 31) then 2 * s else bit_xor (2 * s - 2 ^ 32) polynomial

unfoldable pub shift_byte : ℕ → ℕ
unfolding shift_bit
shift_byte s =
    shift_bit (shift_bit (shift_bit (shift_bit (shift_bit (shift_bit (shift_bit (shift_bit s)))))))

unfoldable pub remainder : ℕ → Bytes → ℕ
unfolding shift_byte
remainder s [] = s
remainder s (b ∷ bs) = remainder (shift_byte (bit_xor s (b * 2 ^ 24))) bs

-- The bytes of `n`, the lowest first, with no zero at the end.
abbrev pub IsOctets : ℕ → Bytes → Type 0
IsOctets n [] = n ≡ 0
IsOctets n (d ∷ ds) = (0 < n) × (d ≡ n % 256) × IsOctets (n / 256) ds
