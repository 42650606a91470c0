-- ===== src/Request.antt =====
-- Client/request.h and Client/request.cpp: the request object and the message that it sends.
pub mod Layout
pub mod Fields
use secure_file_transfer_sys.Base.{
  ℕ, zero, suc, ◌+◌, ◌-◌, ◌*◌, Option, none, some, [], ◌∷◌, ◌++◌, ◌==◌, if◌then◌else◌, length, take,
  replicate, get_elem?,
}
use secure_file_transfer_sys.Base.Int.{ℤ, to_u32, to_u16}
use secure_file_transfer_sys.Global.{
  client_id_size, version, request_header_size, size_32_bits, size_16_bits,
}
use secure_file_transfer_sys.Runtime.{Bytes, Run, ◌>>=◌, pure, socket_write}
use secure_file_transfer_sys.Library.{Library}

-- The fields that are arrays hold 16, 1, 2 and 4 bytes.
pub record Request : Type 0 where
  pub num_of_failures : ℕ
  pub client_id : Bytes
  pub version_field : Bytes
  pub code : Bytes
  pub payload_size : Bytes
  pub payload : Bytes

unfoldable pub new_request : Request
new_request = record {
  num_of_failures = 0;
  client_id = replicate client_id_size 0;
  version_field = version ∷ [];
  code = 0 ∷ 0 ∷ [];
  payload_size = 0 ∷ 0 ∷ 0 ∷ 0 ∷ [];
  payload = [];
}

-- `std::string::operator[]`: the character at the size is 0, and past that is undefined behaviour.
unfoldable pub char_at : Bytes → ℕ → Option ℕ
char_at s i = if i == length s then some 0 else get_elem? s i

unfoldable pub cons_char : Option ℕ → Option Bytes → Option Bytes
cons_char none rest = none
cons_char (some c) none = none
cons_char (some c) (some cs) = some (c ∷ cs)

-- `n` rounds of a loop that reads `s[i]` and counts `i` up.
unfoldable pub chars_from : ℕ → ℕ → Bytes → Option Bytes
unfolding char_at cons_char
chars_from zero i s = some []
chars_from (suc n) i s = cons_char (char_at s i) (chars_from n (i + 1) s)

-- `getCode`: the two bytes are copied over an `int` of 0.
unfoldable pub get_code : Request → ℕ
get_code r = elim r.code [ a ∷ (b ∷ _) ↦ a + 256 * b | a ∷ [] ↦ a | [] ↦ 0 ]

abbrev with_id : Request → Option Bytes → Option Request
with_id r none = none
with_id r (some id) = some (record r { client_id = id })

-- `setClientID`: `none` is a read outside of `id`.
unfoldable pub set_client_id : Bytes → Request → Option Request
set_client_id id r = with_id r (chars_from client_id_size 0 id)

unfoldable pub append_string_payload : Bytes → ℕ → Request → Request
append_string_payload text wanted_size r = record r {
  payload = r.payload ++ (text ++ replicate (wanted_size - length text) 0);
}

unfoldable pub get_num_failures : Request → ℕ
get_num_failures r = r.num_of_failures

unfoldable pub add_failure : Request → Request
add_failure r = record r { num_of_failures = r.num_of_failures + 1 }

unfoldable pub restart_failures : Request → Request
restart_failures r = record r { num_of_failures = 0 }

unfoldable pub clear_payload : Request → Request
clear_payload r = record r { payload = [] }

abbrev with_slice : Request → Option Bytes → Option Request
with_slice r none = none
with_slice r (some part) = some (record r { payload = r.payload ++ part })

-- `appendFileSlice`: the loop runs from `begin` up to `end`.
unfoldable pub append_file_slice : Bytes → ℕ → ℕ → Request → Option Request
append_file_slice encrypted_file begin end r =
    with_slice r (chars_from (end - begin) begin encrypted_file)

-- What `send_to_server` writes: the header fields and the payload, one after the other.
unfoldable pub message : Request → Bytes
message r =
    take (request_header_size + length r.payload)
      (r.client_id ++ (r.version_field ++ (r.code ++ (r.payload_size ++ r.payload))))

-- An exception of the write is reported on the console, and the call returns.
unfoldable pub send_to_server : Request → Run (Unit {0})
send_to_server r = do sent ← socket_write (message r); pure tt

module _ (lib : Library) where
  unfoldable pub set_code : ℤ → Request → Request
  set_code code r = record r { code = lib.store_little_u16 (to_u16 code) }

  unfoldable pub set_payload_size : ℤ → Request → Request
  set_payload_size size r = record r { payload_size = lib.store_little_u32 (to_u32 size) }

  -- `content` in `appendNumberPayload`, at the sizes of the `switch` and at any other.
  unfoldable pub number_content : ℤ → ℕ → Bytes
  number_content num size =
      if size == size_32_bits
      then lib.store_little_u32 (to_u32 num)
      else if size == size_16_bits
      then lib.store_little_u16 (to_u16 num)
      else replicate size 0

  unfoldable pub append_number_payload : ℤ → ℕ → Request → Request
  append_number_payload num size r = record r { payload = r.payload ++ number_content num size }
