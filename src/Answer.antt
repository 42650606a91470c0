-- ===== src/Answer.antt =====
-- Client/answer.h and Client/answer.cpp: reading and checking what the server answers.
pub mod Checks
pub mod Total
pub mod Fields
use secure_file_transfer_sys.Base.{ℕ, ◌^◌, [], ◌∷◌, ◌==◌, if◌then◌else◌, ltb, bytes_eq}
use secure_file_transfer_sys.Base.Int.{ℤ, pos, negsuc, to_int, ◌-ℤ◌}
use secure_file_transfer_sys.Global.{
  client_id_size, version, version_size, code_size, payload_size_size, size_32_bits,
}
use secure_file_transfer_sys.Runtime.{
  Bytes, Run, ◌>>=◌, pure, exit, or_exit, undefined, socket_read,
}
use secure_file_transfer_sys.Library.{Library}

-- The field `_payload`, which no method reads or writes, is left out.
pub record Answer : Type 0 where
  pub version_field : ℕ
  pub code : ℕ
  pub payload_size : ℤ

unfoldable pub new_answer : Answer
new_answer = record { version_field = 0; code = 0; payload_size = pos 0 }

unfoldable pub get_code : Answer → ℕ
get_code a = a.code

-- A read whose exception ends the program: the `try` blocks of answer.cpp.
unfoldable pub read_or_exit : ℕ → Run Bytes
read_or_exit n = do received ← socket_read n; or_exit received

-- `s.substr(0, s.find_first_of('\0'))`, which is the whole of `s` if it has no zero.
unfoldable pub up_to_null : Bytes → Bytes
up_to_null [] = []
up_to_null (c ∷ cs) = if c == 0 then [] else c ∷ up_to_null cs

unfoldable pub read_string_and_check : Bytes → ℕ → Run (Unit {0})
read_string_and_check expected_string size = do
  received ← read_or_exit size
  if bytes_eq (up_to_null received) expected_string then pure tt else exit

-- A string of a negative size: `length_error`, which is caught. Below -2^31 the `int` has overflowed.
abbrev read_sized : ℤ → Run Bytes
read_sized (pos n) w = read_or_exit n w
read_sized (negsuc n) w = if ltb n (2 ^ 31) then exit w else (undefined, w)

unfoldable pub get_encrypted_aes : Answer → Run Bytes
get_encrypted_aes a = read_sized (a.payload_size -ℤ pos client_id_size)

-- `getClientID`
unfoldable pub read_client_id : Run Bytes
read_client_id = read_or_exit client_id_size

module _ (lib : Library) where
  unfoldable pub get_header_from_server : Run Answer
  get_header_from_server = do
    version_bytes ← read_or_exit version_size
    code_bytes ← read_or_exit code_size
    size_bytes ← read_or_exit payload_size_size
    let server_version = lib.little_uint8_value version_bytes
    if server_version == version
        then pure (record {
          version_field = server_version;
          code = lib.little_uint16_value code_bytes;
          payload_size = to_int (lib.little_uint32_value size_bytes);
        })
        else exit

  -- The buffer holds four bytes: fewer leave some of it unset, more would overrun it.
  unfoldable pub get_number : ℕ → Run ℕ
  get_number num_of_bytes =
      if num_of_bytes == size_32_bits
      then (do received ← read_or_exit num_of_bytes; pure (lib.little_uint32_value received))
      else (λ w. (undefined, w))
