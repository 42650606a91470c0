-- ===== src/ClientOb.antt =====
-- Client/client_ob.h and Client/client_ob.cpp: what the client knows about itself.
pub mod Names
use secure_file_transfer_sys.Base.{
  ℕ, zero, suc, ◌+◌, ◌-◌, ◌^◌, Option, none, some, List, [], ◌∷◌, ltb, ◌==◌, if◌then◌else◌, length,
  replicate,
}
use secure_file_transfer_sys.Global.{client_id_size, name_of_file_size}
use secure_file_transfer_sys.Runtime.{Bytes, Run, ◌>>=◌, pure, exit, defined, or_abort}

pub record Client : Type 0 where
  pub name_client : Bytes
  pub file_name : Bytes
  pub client_id : Bytes
  pub path_to_file : Bytes
  pub encrypted_aes : Bytes
  pub priv_key : Bytes
  pub crc_value : ℕ

unfoldable pub new_client : Client
new_client = record {
  name_client = [];
  file_name = [];
  client_id = [];
  path_to_file = [];
  encrypted_aes = [];
  priv_key = [];
  crc_value = 0;
}

unfoldable pub set_client_name : Bytes → Client → Client
set_client_name name c = record c { name_client = name }

-- An array of `char`; a byte of it that is not written yet is `none`.
abbrev pub CharArray : Type 0
CharArray = List (Option ℕ)

abbrev pub then_byte : Option ℕ → Option CharArray → Option CharArray
then_byte c none = none
then_byte c (some a) = some (c ∷ a)

-- `strcpy_s(array, text)` copies a C string and its final zero. An array without room for them makes
-- it call the invalid parameter handler.
unfoldable pub strcpy_s : CharArray → Bytes → Option CharArray
strcpy_s [] text = none
strcpy_s (_ ∷ array) [] = some (some 0 ∷ array)
strcpy_s (_ ∷ array) (c ∷ text) =
    let rest = strcpy_s array text in
    if c == 0 then some (some 0 ∷ array) else then_byte (some c) rest

-- `array[i] = c`
unfoldable pub put : ℕ → ℕ → CharArray → CharArray
put i c [] = []
put zero c (_ ∷ array) = some c ∷ array
put (suc i) c (b ∷ array) = b ∷ put i c array

-- The loop that pads, from `i` on, for `n` bytes.
unfoldable pub pad : ℕ → ℕ → CharArray → CharArray
unfolding put
pad zero i array = array
pad (suc n) i array = pad n (i + 1) (put i 0 array)

abbrev pub cons_text : ℕ → Option Bytes → Option Bytes
cons_text c none = none
cons_text c (some text) = some (c ∷ text)

-- `std::string(array)`: a byte that is not written, or an array without a zero, is undefined.
unfoldable pub c_string : CharArray → Option Bytes
c_string [] = none
c_string (none ∷ array) = none
c_string (some c ∷ array) =
    let rest = c_string array in if c == 0 then some [] else cons_text c rest

-- The index of the padding loop is an `int`: below 0 it would write before the array.
unfoldable pub set_file_name : Bytes → Client → Run Client
unfolding strcpy_s pad c_string
set_file_name name c = do
  copied ← or_abort (strcpy_s (replicate name_of_file_size none) name)
  text ← defined (
      if ltb (length name) (2 ^ 31)
      then c_string (pad (name_of_file_size - length name) (length name) copied)
      else none)
  pure (record c { file_name = text })

unfoldable pub set_path : Bytes → Client → Client
set_path path c = record c { path_to_file = path }

unfoldable pub set_private_key : Bytes → Client → Client
set_private_key key c = record c { priv_key = key }

unfoldable pub set_client_id : Bytes → Client → Run Client
set_client_id id c =
    if length id == client_id_size then pure (record c { client_id = id }) else exit

unfoldable pub set_encrypted_aes : Bytes → Client → Client
set_encrypted_aes aes c = record c { encrypted_aes = aes }

unfoldable pub set_crc : ℕ → Client → Client
set_crc crc_value c = record c { crc_value = crc_value }
