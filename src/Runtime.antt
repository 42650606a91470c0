-- ===== src/Runtime.antt =====
-- What the client runs on: how a run can end, the world that it reads and changes, and the monad
-- that passes the world along. No C++ of the repository is modelled here; the socket, the file
-- system and the random generator are the environment of the program.
pub mod Laws
pub mod Ends
use secure_file_transfer_sys.Base.{
  ℕ, Bool, true, false, Option, none, some, List, [], ◌∷◌, ◌++◌, ltb, bytes_eq, if◌then◌else◌,
  length, take, drop,
}

-- Bytes are numbers below 256; `char` and `uint8_t` hold the same bytes.
abbrev pub Bytes : Type 0
Bytes = List ℕ

-- How a call ends. `exited` is `exit(1)`; `aborted` is an exception that nobody catches, or the
-- invalid parameter handler of the C runtime; `undefined` is undefined behaviour; `stuck` is no
-- outcome of the program but fuel that ran out.
pub data Outcome (A : Type 0) : Type 0 where
  done : A → Outcome A
  exited : Outcome A
  aborted : Outcome A
  undefined : Outcome A
  stuck : Outcome A

pub record World : Type 0 where
  -- what the server will still deliver before the connection ends
  pub inbox : Bytes
  -- what each write has put on the wire, oldest first
  pub outbox : List Bytes
  -- whether the k-th write goes through (`none`) or throws after so many bytes
  pub breaks : ℕ → Option ℕ
  -- whether `connect` succeeds for an address and a port
  pub reachable : Bytes → Bytes → Bool
  -- the files, as text streams show them, and whether a file can be opened for writing
  pub files : Bytes → Option Bytes
  pub writable : Bytes → Bool
  -- how often the random generators have been used
  pub keys_made : ℕ

abbrev pub Run : Type 0 → Type 0
Run A = World → Outcome A × World

module _ {A : Type 0} where
  abbrev pub pure : A → Run A
  pure a w = (done a, w)

  abbrev pub exit : Run A
  exit w = (exited, w)

  abbrev pub abort : Run A
  abort w = (aborted, w)

  abbrev pub out_of_fuel : Run A
  out_of_fuel w = (stuck, w)

  -- A read of memory that may lie outside its object.
  abbrev pub defined : Option A → Run A
  defined none w = (undefined, w)
  defined (some a) w = (done a, w)

  -- A call whose exception the caller catches and answers with `exit(1)`.
  abbrev pub or_exit : Option A → Run A
  or_exit none w = (exited, w)
  or_exit (some a) w = (done a, w)

  -- A call whose exception nobody catches.
  abbrev pub or_abort : Option A → Run A
  or_abort none w = (aborted, w)
  or_abort (some a) w = (done a, w)

abbrev pub continue : {A B : Type 0} → Outcome A → (A → Run B) → Run B
continue (done a) f w = f a w
continue exited f w = (exited, w)
continue aborted f w = (aborted, w)
continue undefined f w = (undefined, w)
continue stuck f w = (stuck, w)

infixl 5 ◌>>=◌ ◌>>◌
abbrev pub ◌>>=◌ : {A B : Type 0} → Run A → (A → Run B) → Run B
◌>>=◌ m f w = let (o, w') = m w in continue o f w'

abbrev pub ◌>>◌ : {B : Type 0} → Run (Unit {0}) → Run B → Run B
m >> k = m >>= λ _. k

-- A blocking read of exactly `n` bytes; it throws (`none`) if the connection ends before that.
unfoldable pub socket_read : ℕ → Run (Option Bytes)
socket_read n w =
    if ltb (length w.inbox) n
    then (done none, record w { inbox = [] })
    else (done (some (take n w.inbox)), record w { inbox = drop n w.inbox })

-- A write of a whole buffer: what reaches the wire, and whether the call returned.
unfoldable pub socket_write : Bytes → Run Bool
socket_write message w = elim (w.breaks (length w.outbox)) [
  | none ↦ (done true, record w { outbox = w.outbox ++ message ∷ [] })
  | some k ↦ (done false, record w { outbox = w.outbox ++ take k message ∷ [] })
]

unfoldable pub read_file : Bytes → Run (Option Bytes)
read_file name w = (done (w.files name), w)

abbrev pub update : (Bytes → Option Bytes) → Bytes → Bytes → Bytes → Option Bytes
update files name content other = if bytes_eq name other then some content else files other

-- An output stream on a file that cannot be opened drops what is written, and nobody looks.
unfoldable pub write_file : Bytes → Bytes → Run (Unit {0})
write_file name content w =
    if w.writable name
    then (done tt, record w { files = update w.files name content })
    else (done tt, w)
