-- ===== src/Server/Checksum/Same.antt =====
-- Server/cksum.py against Client/cksum_new.cpp.
use mathlib.Core.Logic.{dite}
use mathlib.Core.WellFounded.{Acc}
use native.Mathlib.Decide.{dec_lt}
use secure_file_transfer_sys.Base.{
  ℕ, ◌-◌, ◌*◌, ◌/◌, ◌%◌, ◌^◌, ◌<◌, ◌≡◌, refl, ap, sym, some, ◌∙◌, [], ◌∷◌, get_or, length,
}
use secure_file_transfer_sys.Base.Bits.{bit_xor}
use secure_file_transfer_sys.Base.Order.{lt_wf}
use secure_file_transfer_sys.Runtime.{Bytes}
use secure_file_transfer_sys.Cksum.Tables.Row0.{crctab_0}
use secure_file_transfer_sys.Cksum.{byte_shrinks}
use secure_file_transfer_sys.Cksum
use secure_file_transfer_sys.Cksum.Value
use secure_file_transfer_sys.Cksum.Value.{crc_text, checksum}
use secure_file_transfer_sys.Server.Checksum.{crctab, next_crc, crc_of_text, crc_of_length, memcrc}

same_table : crctab ≡ get_or Cksum.crctab 0 []
unfolding crctab Cksum.crctab crctab_0
same_table = refl

next_crc-crc_round : (s ch : ℕ) → next_crc s ch ≡ Cksum.crc_round s ch
unfolding next_crc Cksum.crc_round
next_crc-crc_round s ch =
    ap (λ t. bit_xor ((s * 2 ^ 8) % 2 ^ 32) (get_or t (bit_xor (s / 2 ^ 24) ch) 0)) same_table

crc_of_text-crc_text : (b : Bytes) (s : ℕ) → crc_of_text s b ≡ crc_text s b
unfolding crc_of_text crc_text
crc_of_text-crc_text [] s = refl
crc_of_text-crc_text (ch ∷ b) s =
    ap (λ t. crc_of_text t b) (next_crc-crc_round s ch)
    ∙ crc_of_text-crc_text b (Cksum.crc_round s ch)

crc_of_length-crc_length : (s n : ℕ) (w : Acc ◌<◌ n) → crc_of_length s n w ≡ Cksum.crc_length s n w
unfolding crc_of_length Cksum.crc_length
crc_of_length-crc_length s n (Acc.intro _ smaller) =
    elim (dec_lt 0 n)
      as (λ d.
        dite d
          (λ more.
            crc_of_length (next_crc s (n % 256)) (n / 2 ^ 8) (smaller _ (byte_shrinks n more)))
          (λ _. s)
        ≡ dite d
            (λ more.
              Cksum.crc_length (Cksum.crc_round s (n % 256)) (n / 2 ^ 8)
                (smaller _ (byte_shrinks n more)))
            (λ _. s)) [
              | yes more ↦
                  ap (λ t. crc_of_length t (n / 2 ^ 8) (smaller _ (byte_shrinks n more)))
                    (next_crc-crc_round s (n % 256))
                  ∙ crc_of_length-crc_length (Cksum.crc_round s (n % 256)) (n / 2 ^ 8)
                      (smaller _ (byte_shrinks n more))
              | no _ ↦ refl
            ]

pub memcrc-checksum : (b : Bytes) → memcrc b ≡ checksum b
unfolding memcrc checksum Cksum.crc_end
memcrc-checksum b =
    ap (λ t. (2 ^ 32 - 1 - t % 2 ^ 32) % 2 ^ 32)
      (ap (λ t. crc_of_length t (length b) (lt_wf.apply (length b))) (crc_of_text-crc_text b 0)
        ∙ crc_of_length-crc_length (crc_text 0 b) (length b) (lt_wf.apply (length b)))

-- On every text of less than 2^31 bytes the client's checksum is defined, and it is the checksum that
-- the server computes.
pub memcrc-memcrc : (b : Bytes) → length b < 2 ^ 31 → Cksum.memcrc b ≡ some (memcrc b)
memcrc-memcrc b fits = Value.memcrc-checksum b fits ∙ ap some (sym (memcrc-checksum b))
