-- ===== src/Answer/Fields.antt =====
-- Client/answer.cpp: the numbers of an answer, under the laws of Boost.Endian.
use secure_file_transfer_sys.Base.{
  ℕ, ◌/◌, ◌%◌, ◌^◌, ◌<◌, ◌≡◌, ◌≢◌, refl, ◌∙◌, arith, false, [], ◌∷◌, ◌++◌, ◌==◌,
}
use secure_file_transfer_sys.Base.Int.{pos, to_int_fits}
use secure_file_transfer_sys.Runtime.{Bytes, World, done, exited}
use secure_file_transfer_sys.Runtime.Laws.{reading}
use secure_file_transfer_sys.Library.{Library, BoostLaws}
use secure_file_transfer_sys.Wire.{u16_bytes, u32_bytes}
use secure_file_transfer_sys.Answer.{get_header_from_server, get_number}
use secure_file_transfer_sys.Answer.Checks.{read_or_exit_lem}

-- The seven bytes in front of every answer.
abbrev pub header_bytes : ℕ → ℕ → ℕ → Bytes
header_bytes version code size = version ∷ (u16_bytes code ++ u32_bytes size)

module _ (lib : Library) (laws : BoostLaws lib) where
  pub value-u16_bytes : (x : ℕ) → x < 2 ^ 16 → lib.little_uint16_value (u16_bytes x) ≡ x
  value-u16_bytes x h =
      laws.value_u16 (x % 256) (x / 256 % 256) (omega arith) (omega arith) ∙ omega arith

  pub value-u32_bytes : (x : ℕ) → x < 2 ^ 32 → lib.little_uint32_value (u32_bytes x) ≡ x
  value-u32_bytes x h =
      laws.value_u32 (x % 256) (x / 256 % 256) (x / 65536 % 256) (x / 16777216 % 256) (omega arith)
        (omega arith) (omega arith) (omega arith)
      ∙ omega arith

  -- A number in four bytes is read back.
  pub get_number_lem :
      (x : ℕ) (rest : Bytes) (w : World)
      → x < 2 ^ 32
      → w.inbox ≡ u32_bytes x ++ rest
      → get_number lib 4 w ≡ (done x, reading w rest)
  unfolding get_number
  get_number_lem x rest w h e =
      rw (read_or_exit_lem (u32_bytes x) rest w e, value-u32_bytes x h) refl

  -- Under the laws of Boost.Endian, a header of version 3 whose code fits 16 bits and whose size is
  -- less than 2^31 is read back, field by field.
  pub get_header_from_server_lem :
      (code size : ℕ) (rest : Bytes) (w : World)
      → code < 2 ^ 16
      → size < 2 ^ 31
      → w.inbox ≡ header_bytes 3 code size ++ rest
      → get_header_from_server lib w ≡ (
        done (record { version_field = 3; code = code; payload_size = pos size }),
        reading w rest,
      )
  unfolding get_header_from_server
  get_header_from_server_lem code size rest w hc hs e =
      rw
        (
          read_or_exit_lem (3 ∷ []) (u16_bytes code ++ (u32_bytes size ++ rest)) w e,
          read_or_exit_lem (u16_bytes code) (u32_bytes size ++ rest)
              (reading w (u16_bytes code ++ (u32_bytes size ++ rest))) refl,
          read_or_exit_lem (u32_bytes size) rest (reading w (u32_bytes size ++ rest)) refl,
          laws.value_u8 3 (omega arith),
          value-u16_bytes code hc,
          value-u32_bytes size (omega arith),
          to_int_fits size hs,
        )
        refl

  -- Under the laws of Boost.Endian, a header of another version ends the program.
  pub get_header_from_server-version :
      (version code size : ℕ) (rest : Bytes) (w : World)
      → version < 256
      → version ≢ 3
      → w.inbox ≡ header_bytes version code size ++ rest
      → get_header_from_server lib w ≡ (exited, reading w rest)
  unfolding get_header_from_server
  get_header_from_server-version version code size rest w hv other e =
      rw
        (
          read_or_exit_lem (version ∷ []) (u16_bytes code ++ (u32_bytes size ++ rest)) w e,
          read_or_exit_lem (u16_bytes code) (u32_bytes size ++ rest)
              (reading w (u16_bytes code ++ (u32_bytes size ++ rest))) refl,
          read_or_exit_lem (u32_bytes size) rest (reading w (u32_bytes size ++ rest)) refl,
          laws.value_u8 version hv,
          different,
        )
        refl
    where
      different : (version == 3) ≡ false
      different = ground arith
