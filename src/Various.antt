-- ===== src/Various.antt =====
-- Client/various_functions.cpp: the functions on sizes, paths, hexadecimal texts and files.
pub mod Hex
pub mod Paths
pub mod Packets
pub mod Total
pub mod KeyFile
use secure_file_transfer_sys.Base.{
  ℕ, suc, zero, ◌+◌, Bool, true, false, Option, none, some, List, [], ◌∷◌, ◌++◌, ◌==◌,
  if◌then◌else◌, drop,
}
use secure_file_transfer_sys.Base.Int.{ℤ, pos, negsuc, ◌+ℤ◌, quot, rem, ltb_ℤ}
use secure_file_transfer_sys.Global.{packet_max_size}
use secure_file_transfer_sys.Runtime.{
  Bytes, Run, ◌>>=◌, ◌>>◌, pure, exit, or_abort, read_file, write_file,
}
use secure_file_transfer_sys.Library.{Library, join_lines}
use secure_file_transfer_sys.Wrappers.{
  aes_wrapper, aes_encrypt, rsa_private, rsa_decrypt, encode, decode,
}
use Hex.{convert_string_to_hex}

abbrev pub is_zero : ℤ → Bool
is_zero (pos zero) = true
is_zero (pos (suc n)) = false
is_zero (negsuc n) = false

unfoldable pub calculate_total_packets : ℤ → Run ℤ
calculate_total_packets file_size =
    let total_packets = quot file_size packet_max_size in
    let total_packets' =
      if is_zero (rem file_size packet_max_size) then total_packets else total_packets +ℤ pos 1 in
    if ltb_ℤ (pos 65535) total_packets' then exit else pure total_packets'

-- `find_last_of` for one character.
unfoldable pub find_last_of : ℕ → Bytes → Option ℕ
find_last_of c [] = none
find_last_of c (x ∷ xs) = elim (find_last_of c xs) [
  | some i ↦ some (suc i)
  | none ↦ if x == c then some 0 else none
]

-- A backslash is 92.
unfoldable pub find_file_name : Bytes → Bytes
find_file_name path_to_file = elim (find_last_of 92 path_to_file) [
  | none ↦ path_to_file
  | some pos_file_name ↦ drop (pos_file_name + 1) path_to_file
]

-- "me.info", "priv.key" and "transfer.info"
abbrev pub me_info : Bytes
me_info = 109 ∷ 101 ∷ 46 ∷ 105 ∷ 110 ∷ 102 ∷ 111 ∷ []

abbrev pub priv_key : Bytes
priv_key = 112 ∷ 114 ∷ 105 ∷ 118 ∷ 46 ∷ 107 ∷ 101 ∷ 121 ∷ []

abbrev pub transfer_info : Bytes
transfer_info = 116 ∷ 114 ∷ 97 ∷ 110 ∷ 115 ∷ 102 ∷ 101 ∷ 114 ∷ 46 ∷ 105 ∷ 110 ∷ 102 ∷ 111 ∷ []

-- `getline` on what is left of a file: the line, and what is left after it. A line ends with 10.
unfoldable pub getline : Bytes → Bytes × Bytes
getline [] = ([], [])
getline (c ∷ cs) = if c == 10 then ([], cs) else (c ∷ (getline cs).0, (getline cs).1)

abbrev pub found : Option Bytes → Run Bytes
found none = exit
found (some content) = pure content

-- Without the file the program ends.
unfoldable pub file_by_path : Bytes → Run Bytes
file_by_path path = do content ← read_file path; found content

module _ (lib : Library) where
  -- The loop appends one line after the other.
  unfoldable pub read_priv_key : Run Bytes
  read_priv_key = do private_key ← file_by_path priv_key; pure (decode lib (join_lines private_key))

  -- `decrypt` and the constructors may throw, and nobody catches.
  unfoldable pub encrypt_file : Bytes → Bytes → Bytes → Run Bytes
  encrypt_file encrypted_aes private_key file = do
    priv_key_ob ← or_abort (rsa_private lib private_key)
    decrypted_aes ← or_abort (rsa_decrypt lib priv_key_ob encrypted_aes)
    aes_key_ob ← or_abort (aes_wrapper decrypted_aes)
    pure (aes_encrypt lib aes_key_ob file)

  unfoldable pub create_me_info : Bytes → Bytes → Bytes → Run (Unit {0})
  create_me_info client_name private_key client_id = write_file me_info (
      client_name
      ++ (10 ∷ (convert_string_to_hex client_id ++ (10 ∷ (encode lib private_key ++ (10 ∷ []))))))

  unfoldable pub create_priv_key_file : Bytes → Run (Unit {0})
  create_priv_key_file private_key = write_file priv_key (encode lib private_key ++ 10 ∷ [])
