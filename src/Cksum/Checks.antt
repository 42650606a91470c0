-- ===== src/Cksum/Checks.antt =====
-- Runs of the checksum: the empty text and the nine digits, as `cksum` of POSIX prints them.
use secure_file_transfer_sys.Base.{◌≡◌, some, refl, [], ◌∷◌}
use secure_file_transfer_sys.Cksum.{crc_end, memcrc}

memcrc_empty : memcrc [] ≡ some 4294967295
unfolding memcrc crc_end
memcrc_empty = refl

memcrc_digits : memcrc (49 ∷ 50 ∷ 51 ∷ 52 ∷ 53 ∷ 54 ∷ 55 ∷ 56 ∷ 57 ∷ []) ≡ some 930766865
unfolding memcrc crc_end
memcrc_digits = refl
