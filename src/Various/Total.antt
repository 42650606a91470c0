-- ===== src/Various/Total.antt =====
-- Client/various_functions.cpp: reading and encrypting a file ends.
use secure_file_transfer_sys.Base.{arith, Option, none, some}
use secure_file_transfer_sys.Base.Int.{ℤ}
use secure_file_transfer_sys.Runtime.{Bytes}
use secure_file_transfer_sys.Runtime.Ends.{
  Ends, Any, Ends-bind, Ends-pure, Ends-exit, Ends-or_abort, Ends-read_file, Ends-write_file,
}
use secure_file_transfer_sys.Library.{Library}
use secure_file_transfer_sys.Wrappers.{aes_wrapper, rsa_private, rsa_decrypt}
use secure_file_transfer_sys.Various.{
  calculate_total_packets, found, file_by_path, read_priv_key, encrypt_file, create_me_info,
  create_priv_key_file,
}

pub Ends-calculate_total_packets : (size : ℤ) → Ends Any (calculate_total_packets size)
unfolding calculate_total_packets
Ends-calculate_total_packets size = record { at = λ w. ground arith }

Ends-found : (o : Option Bytes) → Ends Any (found o)
Ends-found none = Ends-exit Any
Ends-found (some content) = Ends-pure Any content tt

pub Ends-file_by_path : (path : Bytes) → Ends Any (file_by_path path)
unfolding file_by_path
Ends-file_by_path path = Ends-bind _ _ (Ends-read_file path) (λ content _. Ends-found content)

pub Ends-read_priv_key : (lib : Library) → Ends Any (read_priv_key lib)
unfolding read_priv_key
Ends-read_priv_key lib = Ends-bind _ _ (Ends-file_by_path _) (λ key _. Ends-pure Any _ tt)

pub Ends-encrypt_file :
    (lib : Library) (aes key file : Bytes) → Ends Any (encrypt_file lib aes key file)
unfolding encrypt_file
Ends-encrypt_file lib aes key file = Ends-bind _ _ (Ends-or_abort (rsa_private lib key)) (λ rsa _.
    Ends-bind _ _ (Ends-or_abort (rsa_decrypt lib rsa aes)) (λ decrypted _.
      Ends-bind _ _ (Ends-or_abort (aes_wrapper decrypted)) (λ wrapper _. Ends-pure Any _ tt)))

pub Ends-create_me_info :
    (lib : Library) (name key id : Bytes) → Ends Any (create_me_info lib name key id)
unfolding create_me_info
Ends-create_me_info lib name key id = Ends-write_file _ _

pub Ends-create_priv_key_file :
    (lib : Library) (key : Bytes) → Ends Any (create_priv_key_file lib key)
unfolding create_priv_key_file
Ends-create_priv_key_file lib key = Ends-write_file _ _
