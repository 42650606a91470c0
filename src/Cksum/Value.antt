-- ===== src/Cksum/Value.antt =====
-- Client/cksum_new.cpp: the checksum as a number, for a text that the counter of the loop can pass.
use secure_file_transfer_sys.Base.{
  ℕ, ◌+◌, ◌^◌, ◌<◌, ◌≡◌, refl, arith, true, some, [], ◌∷◌, length, ltb,
}
use secure_file_transfer_sys.Runtime.{Bytes}
use secure_file_transfer_sys.Cksum.{crc_round, crc_bytes, crc_end, memcrc}

unfoldable pub crc_text : ℕ → Bytes → ℕ
crc_text s [] = s
crc_text s (b ∷ bs) = crc_text (crc_round s b) bs

unfoldable pub checksum : Bytes → ℕ
checksum b = crc_end (crc_text 0 b) (length b)

crc_bytes-crc_text :
    (i s : ℕ) (bs : Bytes) → i + length bs < 2 ^ 31 → crc_bytes i s bs ≡ some (crc_text s bs)
unfolding crc_bytes crc_text
crc_bytes-crc_text i s [] h = refl
crc_bytes-crc_text i s (b ∷ bs) h =
    rw (in_range, crc_bytes-crc_text (i + 1) (crc_round s b) bs (omega arith)) refl
  where
    in_range : ltb (i + 1) (2 ^ 31) ≡ true
    in_range = ground arith

pub memcrc-checksum : (b : Bytes) → length b < 2 ^ 31 → memcrc b ≡ some (checksum b)
unfolding memcrc checksum
memcrc-checksum b h = rw (crc_bytes-crc_text 0 0 b (omega arith), memcrc) refl
