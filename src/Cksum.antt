-- ===== src/Cksum.antt =====
-- Client/cksum_new.cpp: the checksum that client and server compare. `unsigned long` has 32 bits
-- where this client is built; the masks make the result the same where it has 64.
pub mod Tables
pub mod Spec
pub mod Table
pub mod Linear
pub mod Bitwise
pub mod Value
mod Checks
use secure_file_transfer_sys.Base.{
  ℕ, ◌+◌, ◌-◌, ◌*◌, ◌/◌, ◌%◌, ◌^◌, ◌<◌, arith, List, [], ◌∷◌, Option, none, some, get_or, length,
  ltb, if◌then◌else◌,
}
use secure_file_transfer_sys.Base.Bits.{bit_xor}
use secure_file_transfer_sys.Base.Order.{lt_wf}
use secure_file_transfer_sys.Runtime.{Bytes, Run, ◌>>=◌, read_file, defined}
use Tables.{crctab_0, crctab_1, crctab_2, crctab_3, crctab_4, crctab_5, crctab_6, crctab_7}
use mathlib.Core.Logic.{dite}
use mathlib.Core.WellFounded.{Acc}
use native.Mathlib.Decide.{dec_lt}

-- The macro `UNSIGNED`: the low 32 bits.
abbrev pub mask_32 : ℕ → ℕ
mask_32 n = n % 2 ^ 32

unfoldable pub crctab : List (List ℕ)
unfolding crctab_0 crctab_1 crctab_2 crctab_3 crctab_4 crctab_5 crctab_6 crctab_7
crctab = crctab_0 ∷ crctab_1 ∷ crctab_2 ∷ crctab_3 ∷ crctab_4 ∷ crctab_5 ∷ crctab_6 ∷ crctab_7 ∷ []

-- The body of both loops, for one byte.
unfoldable pub crc_round : ℕ → ℕ → ℕ
unfolding crctab
crc_round s byte =
    bit_xor (mask_32 (s * 2 ^ 8)) (get_or (get_or crctab 0 []) (bit_xor (s / 2 ^ 24) byte) 0)

-- The loop over the text. Its counter `i` is an `int`: that it grows out of its range is undefined.
unfoldable pub crc_bytes : ℕ → ℕ → Bytes → Option ℕ
unfolding crc_round
crc_bytes i s [] = some s
crc_bytes i s (b ∷ bs) =
    let rest = crc_bytes (i + 1) (crc_round s b) bs in if ltb (i + 1) (2 ^ 31) then rest else none

pub byte_shrinks : (n : ℕ) → 0 < n → n / 2 ^ 8 < n
byte_shrinks n h = omega arith

-- `while (n)`: the bytes of the length, the lowest first.
unfoldable pub crc_length : ℕ → (n : ℕ) → Acc ◌<◌ n → ℕ
unfolding crc_round
crc_length s n (Acc.intro _ smaller) =
    dite (dec_lt 0 n)
      (λ more. crc_length (crc_round s (n % 256)) (n / 2 ^ 8) (smaller _ (byte_shrinks n more)))
      (λ _. s)

-- What follows the loop over the text, for a text of `n` bytes.
unfoldable pub crc_end : ℕ → ℕ → ℕ
unfolding crc_length lt_wf dec_lt
crc_end s n = mask_32 (2 ^ 32 - 1 - mask_32 (crc_length s n (lt_wf.apply n)))

-- `memcrc(b, n)` where `b` holds `n` bytes.
unfoldable pub memcrc : Bytes → Option ℕ
unfolding crc_bytes
memcrc b = elim (crc_bytes 0 0 b) [ none ↦ none | some s ↦ some (crc_end s (length b)) ]

-- `readfile`: -1 as an `unsigned long` if there is no such file.
unfoldable readfile : Bytes → Run ℕ
readfile fname = do
  content ← read_file fname
  defined (elim content [ none ↦ some (2 ^ 32 - 1) | some b ↦ memcrc b ])
