-- ===== src/Cksum/Bitwise.antt =====
-- The table-driven loops compute the bit by bit remainder.
use mathlib.Core.WellFounded.{Acc}
use native.Mathlib.Nat.{add-zero}
use secure_file_transfer_sys.Base.{
  ℕ, some, ◌+◌, ◌-◌, ◌*◌, ◌/◌, ◌%◌, ◌^◌, ◌<◌, ◌≡◌, refl, ap, ◌∙◌, arith, [], ◌∷◌, ◌++◌, get_or,
  length, All,
}
use secure_file_transfer_sys.Base.Bits.{
  bit_xor, zero-xor, xor-zero, xor_comm, xor_fields, xor-lt_pow,
}
use secure_file_transfer_sys.Base.Order.{lt_wf}
use secure_file_transfer_sys.Runtime.{Bytes}
use secure_file_transfer_sys.Cksum.{mask_32, crctab, crc_round, crc_length, crc_end, memcrc}
use secure_file_transfer_sys.Cksum.Value.{crc_text, checksum, memcrc-checksum}
use secure_file_transfer_sys.Cksum.Spec.{shift_byte, remainder, IsOctets}
use secure_file_transfer_sys.Cksum.Table.{crctab_lem}
use secure_file_transfer_sys.Cksum.Linear.{shift_byte-lt, shift_byte-xor, shift_byte_low}

module _ (s b : ℕ) (word : s < 2 ^ 32) (byte : b < 256) where
  index_lem : bit_xor (s / 2 ^ 24) b < 256
  index_lem = xor-lt_pow 8 (s / 2 ^ 24) b (omega arith) byte

  split : bit_xor s (b * 2 ^ 24) ≡ bit_xor (bit_xor (s / 2 ^ 24) b * 2 ^ 24) (s % 2 ^ 24)
  split = joined s (s / 2 ^ 24) (s % 2 ^ 24) (omega arith) (omega arith)
    where
      joined :
          (x q r : ℕ)
          → x ≡ q * 2 ^ 24 + r
          → r < 2 ^ 24
          → bit_xor x (b * 2 ^ 24) ≡ bit_xor (bit_xor q b * 2 ^ 24) r
      joined x q r e h = rw e (
          cc (
            add-zero (b * 2 ^ 24),
            add-zero (bit_xor q b * 2 ^ 24),
            nothing r,
            xor_fields 24 q r b 0 h (omega arith),
            xor_comm r 0,
            xor-zero (bit_xor q b),
            xor_fields 24 (bit_xor q b) 0 0 r (omega arith) h,
          ))
        where
          nothing : (y : ℕ) → 0 * 2 ^ 24 + y ≡ y
          nothing y = omega arith

  entry :
      get_or (get_or crctab 0 []) (bit_xor (s / 2 ^ 24) b) 0
      ≡ shift_byte (bit_xor (s / 2 ^ 24) b * 2 ^ 24)
  entry =
      crctab_lem 0 (bit_xor (s / 2 ^ 24) b) (omega arith) index_lem
      ∙ unfold remainder in ap shift_byte (zero-xor _)

  -- One table look-up does eight steps.
  crc_round-shift_byte : crc_round s b ≡ shift_byte (bit_xor s (b * 2 ^ 24))
  unfolding crc_round
  crc_round-shift_byte = cc (
    entry,
    split,
    shift_byte-xor (bit_xor (s / 2 ^ 24) b * 2 ^ 24) (s % 2 ^ 24) (omega (arith, index_lem))
        (omega arith),
    shift_byte_low (s % 2 ^ 24) (omega arith),
    xor_comm (mask_32 (s * 2 ^ 8)) (shift_byte (bit_xor (s / 2 ^ 24) b * 2 ^ 24)),
    moved s,
  )
    where
      moved : (x : ℕ) → mask_32 (x * 2 ^ 8) ≡ x % 2 ^ 24 * 256
      moved x = omega arith

  crc_round-lt : crc_round s b < 2 ^ 32
  crc_round-lt =
      rw crc_round-shift_byte (shift_byte-lt _ (xor-lt_pow 32 s (b * 2 ^ 24) word (omega arith)))

abbrev pub IsByte : ℕ → Type 0
IsByte b = b < 256

crc_text-remainder :
    (bs : Bytes) (s : ℕ)
    → All IsByte bs
    → s < 2 ^ 32
    → (crc_text s bs ≡ remainder s bs) × (crc_text s bs < 2 ^ 32)
unfolding crc_text remainder
crc_text-remainder [] s h word = (refl, word)
crc_text-remainder (b ∷ bs) s h word =
    let (same, bound) = crc_text-remainder bs (crc_round s b) h.1 (crc_round-lt s b word h.0) in
    (same ∙ ap (λ x. remainder x bs) (crc_round-shift_byte s b word h.0), bound)

crc_length-remainder :
    (ds : Bytes) (s n : ℕ) (w : Acc ◌<◌ n)
    → IsOctets n ds
    → s < 2 ^ 32
    → (crc_length s n w ≡ remainder s ds) × (crc_length s n w < 2 ^ 32)
unfolding crc_length remainder
crc_length-remainder [] s n (Acc.intro _ smaller) e word = grind arith
crc_length-remainder (d ∷ ds) s n (Acc.intro _ smaller) (more, e, rest) word = grind (
  arith,
  λ (w : Acc ◌<◌ (n / 256)).
      crc_length-remainder ds (crc_round s d) (n / 256) w rest
        (crc_round-lt s d word (omega arith)),
  crc_round-shift_byte s d word (omega arith),
)

remainder-append : (s : ℕ) (xs ys : Bytes) → remainder s (xs ++ ys) ≡ remainder (remainder s xs) ys
unfolding remainder
remainder-append s [] ys = refl
remainder-append s (x ∷ xs) ys = remainder-append (shift_byte (bit_xor s (x * 2 ^ 24))) xs ys

-- On every text of less than 2^31 bytes, `memcrc` is defined, and it is the complement of the bit by
-- bit remainder of the text followed by the bytes of its length.
pub memcrc-remainder :
    (b octets : Bytes)
    → length b < 2 ^ 31
    → All IsByte b
    → IsOctets (length b) octets
    → memcrc b ≡ some (2 ^ 32 - 1 - remainder 0 (b ++ octets))
unfolding crc_end checksum
memcrc-remainder b octets fits bytes h =
    let (first, bound) = crc_text-remainder b 0 bytes (omega arith) in
    let (second, bound') =
      crc_length-remainder octets (crc_text 0 b) (length b) (lt_wf.apply (length b)) h bound in
    memcrc-checksum b fits
    ∙ ap some (
        omega (
          arith,
          second,
          bound',
          ap (λ (s : ℕ). remainder s octets) first,
          remainder-append 0 b octets,
        ))
