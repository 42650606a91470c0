-- ===== src/Server/Runtime.antt =====
-- What the server runs on: its state, how a call ends, and the monad that passes the state along.
pub mod Stays
use secure_file_transfer_sys.Base.{ℕ, Bool, Option, none, some, List}
use secure_file_transfer_sys.Runtime.{Bytes}

-- Third-party code and sources of chance: the k-th UUID, reading of the clock and random AES key;
-- PyCryptodome's import of an RSA key, OAEP encryption, AES in CBC mode with a key and an IV, and
-- removal of the padding, each of which may raise.
pub record PyLibrary : Type 0 where
  pub uuid4 : ℕ → Bytes
  pub now : ℕ → Bytes
  pub get_random_bytes : ℕ → Bytes
  pub import_key : Bytes → Option Bytes
  pub oaep_encrypt : ℕ → Bytes → Bytes → Option Bytes
  pub cbc_decrypt : Bytes → Bytes → Bytes → Option Bytes
  pub unpad : Bytes → ℕ → Option Bytes

-- Server/files.py: `File`
pub record ServerFile : Type 0 where
  pub client_id : Bytes
  pub file_name : Bytes
  pub path : Bytes
  pub valid_crc : Bool

-- Server/clients.py: `Client`
pub record ServerClient : Type 0 where
  pub client_id : Bytes
  pub client_name : Bytes
  pub public_key : Bytes
  pub last_seen_date : Bytes
  pub aes_key : Bytes
  pub files_list : List ServerFile

-- A row of the table `clients`; a row of the table `files` has the fields of `File`.
pub record ClientRow : Type 0 where
  pub client_id : Bytes
  pub client_name : Bytes
  pub public_key : Bytes
  pub last_seen_date : Bytes
  pub aes_key : Bytes

pub record State : Type 0 where
  -- the global `clients_list`, the two tables of the data base, and whether it exists
  pub clients_list : List ServerClient
  pub clients_table : List ClientRow
  pub files_table : List ServerFile
  pub has_data_base : Bool
  -- the disk: the contents of files, folders, and which paths can be written or made
  pub disk : Bytes → Option Bytes
  pub folders : Bytes → Bool
  pub can_write : Bytes → Bool
  pub can_make : Bytes → Bool
  -- how many UUIDs, readings of the clock and random values have been taken
  pub ids_made : ℕ
  pub readings : ℕ
  pub draws : ℕ
  -- the connection that is served: what has arrived and is not read, whether the client has closed
  -- it, whether the socket blocks, and what has been sent; by how much has been sent, whether the
  -- next send raises, and after how many of its bytes
  pub arrived : Bytes
  pub closed : Bool
  pub blocking : Bool
  pub sent : Bytes
  pub send_breaks : ℕ → Option ℕ

-- How a call ends: it returns, it raises an exception, or it waits for the client without end.
pub data Ended (A : Type 0) : Type 0 where
  returned : A → Ended A
  raised : Ended A
  waits : Ended A

abbrev pub Act : Type 0 → Type 0
Act A = State → Ended A × State

module _ {A : Type 0} where
  abbrev pub give : A → Act A
  give a s = (returned a, s)

  abbrev pub raise : Act A
  raise s = (raised, s)

  abbrev pub or_raise : Option A → Act A
  or_raise none s = (raised, s)
  or_raise (some a) s = (returned a, s)

abbrev pub gets : {A : Type 0} → (State → A) → Act A
gets f s = (returned (f s), s)

abbrev pub change : (State → State) → Act (Unit {0})
change f s = (returned tt, f s)

abbrev pub after : {A B : Type 0} → Ended A → (A → Act B) → Act B
after (returned a) f s = f a s
after raised f s = (raised, s)
after waits f s = (waits, s)

-- A loop that stops at the first match, with what follows where there is none.
abbrev pub if_found : {A B : Type 0} → Option B → (B → Act A) → Act A → Act A
if_found (some k) body missing s = body k s
if_found none body missing s = missing s

infixl 5 ◌>>=◌ ◌>>◌
abbrev pub ◌>>=◌ : {A B : Type 0} → Act A → (A → Act B) → Act B
◌>>=◌ m f s = let (r, s') = m s in after r f s'

abbrev pub ◌>>◌ : {B : Type 0} → Act (Unit {0}) → Act B → Act B
m >> k = m >>= λ _. k

abbrev pub rescue : {A : Type 0} → Ended A → Act A → Act A
rescue (returned a) handler s = (returned a, s)
rescue raised handler s = handler s
rescue waits handler s = (waits, s)

-- `try: m except: handler`. What `m` did before it raised stays done.
abbrev pub try_except : {A : Type 0} → Act A → Act A → Act A
try_except m handler s = let (r, s') = m s in rescue r handler s'
