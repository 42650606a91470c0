-- ===== src/Server/Tables.antt =====
-- Server/sql.py: the two tables. An insertion whose primary key is there already raises.
pub mod Reach
use secure_file_transfer_sys.Base.{
  ◌+◌, Bool, true, false, ◌&&◌, ◌||◌, List, [], ◌∷◌, ◌++◌, bytes_eq, ◌==◌, if◌then◌else◌, length,
}
use secure_file_transfer_sys.Runtime.{Bytes}
use secure_file_transfer_sys.Server.Runtime.{
  PyLibrary, ServerFile, ServerClient, ClientRow, Act, give, raise, gets, change, ◌>>=◌, ◌>>◌,
}

-- `str(datetime.now())`
unfoldable pub read_clock : PyLibrary → Act Bytes
read_clock py = do
  k ← gets (λ s. s.readings)
  change (λ s. record s { readings = s.readings + 1 })
  give (py.now k)

-- `UPDATE clients SET ... WHERE client_id = ?`
unfoldable pub update_clients : (ClientRow → ClientRow) → Bytes → List ClientRow → List ClientRow
update_clients f id [] = []
update_clients f id (row ∷ rows) =
    (if bytes_eq row.client_id id then f row else row) ∷ update_clients f id rows

unfoldable pub set_lastseen_date : PyLibrary → Bytes → Act (Unit {0})
set_lastseen_date py id = do
  date ← read_clock py
  change (λ s. record s {
    clients_table = update_clients (λ row. record row { last_seen_date = date }) id s.clients_table;
  })

unfoldable pub set_aes_key : Bytes → Bytes → Act (Unit {0})
set_aes_key key id = change (λ s. record s {
  clients_table = update_clients (λ row. record row { aes_key = key }) id s.clients_table;
})

unfoldable pub set_public_key : Bytes → Bytes → Act (Unit {0})
set_public_key key id = change (λ s. record s {
  clients_table = update_clients (λ row. record row { public_key = key }) id s.clients_table;
})

-- The row is chosen by the client alone, whatever the file.
unfoldable pub with_crc : Bytes → Bool → List ServerFile → List ServerFile
with_crc id valid [] = []
with_crc id valid (row ∷ rows) =
    (if bytes_eq row.client_id id then record row { valid_crc = valid } else row)
    ∷ with_crc id valid rows

unfoldable pub set_valid_crc : Bytes → Bool → Act (Unit {0})
set_valid_crc id valid = change (λ s. record s { files_table = with_crc id valid s.files_table })

-- The rows are chosen by the name alone, whoever the client.
unfoldable pub without_name : Bytes → List ServerFile → List ServerFile
without_name name [] = []
without_name name (row ∷ rows) =
    let rest = without_name name rows in if bytes_eq row.file_name name then rest else row ∷ rest

unfoldable pub delete_file : Bytes → Act (Unit {0})
delete_file name = do
  rows ← gets (λ s. s.files_table)
  if length (without_name name rows) == length rows
      then raise
      else change (λ s. record s { files_table = without_name name s.files_table })

unfoldable pub has_client_row : Bytes → List ClientRow → Bool
has_client_row id [] = false
has_client_row id (row ∷ rows) = bytes_eq row.client_id id || has_client_row id rows

unfoldable pub row_of : ServerClient → ClientRow
row_of c = record {
  client_id = c.client_id;
  client_name = c.client_name;
  public_key = c.public_key;
  last_seen_date = c.last_seen_date;
  aes_key = c.aes_key;
}

unfoldable pub add_client_db : ServerClient → Act (Unit {0})
add_client_db new_client = do
  rows ← gets (λ s. s.clients_table)
  if has_client_row new_client.client_id rows
      then raise
      else change (λ s. record s { clients_table = s.clients_table ++ row_of new_client ∷ [] })

unfoldable pub has_file_row : Bytes → Bytes → List ServerFile → Bool
has_file_row id name [] = false
has_file_row id name (row ∷ rows) =
    bytes_eq row.client_id id && bytes_eq row.file_name name || has_file_row id name rows

unfoldable pub add_file_db : ServerFile → Act (Unit {0})
add_file_db new_file = do
  rows ← gets (λ s. s.files_table)
  if has_file_row new_file.client_id new_file.file_name rows
      then raise
      else change (λ s. record s { files_table = s.files_table ++ new_file ∷ [] })

unfoldable pub create_data_base : Act (Unit {0})
create_data_base =
    change (λ s. record s { clients_table = []; files_table = []; has_data_base = true })
