-- ===== src/Answer/Total.antt =====
-- Client/answer.cpp: reading an answer ends.
use secure_file_transfer_sys.Base.{ℕ, arith, ◌==◌}
use secure_file_transfer_sys.Base.Int.{ℤ, pos, negsuc, ◌-ℤ◌}
use secure_file_transfer_sys.Runtime.{Bytes}
use secure_file_transfer_sys.Runtime.Ends.{
  Ends, Any, Ends-bind, Ends-socket_read, Ends-or_exit, Ends-if, ends_rules,
}
use secure_file_transfer_sys.Library.{Library}
use secure_file_transfer_sys.Answer.{
  Answer, read_or_exit, read_string_and_check, get_encrypted_aes, read_sized, read_client_id,
  get_header_from_server, get_number,
}

pub Ends-read_or_exit : (n : ℕ) → Ends Any (read_or_exit n)
unfolding read_or_exit
Ends-read_or_exit n = Ends-bind _ _ (Ends-socket_read n) (λ received _. Ends-or_exit received)

pub Ends-read_string_and_check :
    (expected : Bytes) (size : ℕ) → Ends Any (read_string_and_check expected size)
unfolding read_string_and_check
Ends-read_string_and_check expected size =
    Ends-bind _ _ (Ends-read_or_exit size) (λ received _. search ends_rules)

Ends-read_sized : (z : ℤ) → Ends Any (read_sized z)
Ends-read_sized (pos n) = Ends-read_or_exit n
Ends-read_sized (negsuc n) = record { at = λ w. ground arith }

pub Ends-get_encrypted_aes : (a : Answer) → Ends Any (get_encrypted_aes a)
unfolding get_encrypted_aes
Ends-get_encrypted_aes a = Ends-read_sized (a.payload_size -ℤ pos 16)

pub Ends-read_client_id : Ends Any read_client_id
unfolding read_client_id
Ends-read_client_id = Ends-read_or_exit 16

pub Ends-get_header_from_server : (lib : Library) → Ends Any (get_header_from_server lib)
unfolding get_header_from_server
Ends-get_header_from_server lib = Ends-bind _ _ (Ends-read_or_exit 1) (λ a _.
    Ends-bind _ _ (Ends-read_or_exit 2)
      (λ b _. Ends-bind _ _ (Ends-read_or_exit 4) (λ c _. search ends_rules)))

pub Ends-get_number : (lib : Library) (n : ℕ) → Ends Any (get_number lib n)
unfolding get_number
Ends-get_number lib n =
    Ends-if Any (n == 4) _ _
      (λ _. Ends-bind _ _ (Ends-read_or_exit n) (λ received _. search ends_rules))
      (λ _. record { at = λ w. tt })
