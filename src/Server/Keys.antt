-- ===== src/Server/Keys.antt =====
-- The key exchange of Server/request.py and Server/various_functions.py.
pub mod Sealing
use secure_file_transfer_sys.Base.{ℕ, ◌+◌, ◌-◌, ◌&&◌, ◌||◌, ◌∷◌, ◌++◌, ◌==◌, if◌then◌else◌, length}
use secure_file_transfer_sys.Runtime.{Bytes}
use secure_file_transfer_sys.Server.General.{client_id_size}
use secure_file_transfer_sys.Server.Runtime.{PyLibrary, Act, returned, or_raise, ◌>>=◌, ◌>>◌}
use secure_file_transfer_sys.Server.Connection.{sendall, send_header_to_client}
use secure_file_transfer_sys.Server.Tables.{read_clock, set_lastseen_date, set_aes_key}
use secure_file_transfer_sys.Server.Registry.{client_at, change_client}

module _ (py : PyLibrary) where
  unfoldable pub last_seen : ℕ → Act (Unit {0})
  last_seen k = do
    client ← client_at k
    set_lastseen_date py client.client_id
    date ← read_clock py
    change_client (λ c. record c { last_seen_date = date }) k

  unfoldable pub draw : Act ℕ
  draw s = (returned s.draws, record s { draws = s.draws + 1 })

  unfoldable pub encrypt_by_public_key : Bytes → Bytes → Act Bytes
  encrypt_by_public_key public_key aes_key = do
    rsa_key ← or_raise (py.import_key public_key)
    d ← draw
    or_raise (py.oaep_encrypt d rsa_key aes_key)

  unfoldable pub create_send_aes : ℕ → ℕ → Act (Unit {0})
  create_send_aes code k = do
    d ← draw
    let aes_key = py.get_random_bytes d
    change_client (λ c. record c { aes_key = aes_key }) k
    client ← client_at k
    set_aes_key aes_key client.client_id
    encrypted_aes_key ← encrypt_by_public_key client.public_key aes_key
    send_header_to_client code (client_id_size + length encrypted_aes_key)
    sendall client.client_id
    sendall encrypted_aes_key
