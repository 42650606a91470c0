-- ===== src/Server/Requests.antt =====
-- Server/request.py: registration, reconnection and the public key, with `Client` of Server/clients.py.
pub mod Answers
pub mod Stable
pub mod Reconnecting
use secure_file_transfer_sys.Server.Runtime.{
  if_found, PyLibrary, ServerClient, Act, give, raise, gets, change, ◌>>=◌, ◌>>◌,
}
use secure_file_transfer_sys.Base.{
  ◌+◌, ◌-◌, ◌&&◌, ◌||◌, none, some, [], ◌∷◌, ◌++◌, ◌==◌, if◌then◌else◌,
}
use secure_file_transfer_sys.Runtime.{Bytes}
use secure_file_transfer_sys.Server.General.{
  client_name_size, client_id_size, public_key_size, registration_done_1600,
  reconnection_failed_1606, valid_reconnection_aes_1605, got_public_send_aes_1602,
}
use secure_file_transfer_sys.Server.Connection.{recv, recv_name, sendall, send_header_to_client}
use secure_file_transfer_sys.Server.Tables.{read_clock, set_public_key, add_client_db}
use secure_file_transfer_sys.Server.Registry.{find_name, client_at, change_client}
use secure_file_transfer_sys.Server.Disk.{client_folder, make_folder}
use secure_file_transfer_sys.Server.Header.{ServerRequest, check_id}
use secure_file_transfer_sys.Server.Keys.{last_seen, create_send_aes}

module _ (py : PyLibrary) where
  -- `Client(client_name)`
  unfoldable pub new_client : Bytes → Act ServerClient
  new_client client_name = do
    k ← gets (λ s. s.ids_made)
    change (λ s. record s { ids_made = s.ids_made + 1 })
    date ← read_clock py
    make_folder (client_folder client_name)
    give (record {
      client_id = py.uuid4 k;
      client_name = client_name;
      public_key = [];
      last_seen_date = date;
      aes_key = [];
      files_list = [];
    })

  unfoldable pub registration_request_825 : Act (Unit {0})
  registration_request_825 = do
    new_client_name ← recv_name client_name_size
    clients ← gets (λ s. s.clients_list)
    if_found (find_name new_client_name clients) (λ k. do last_seen py k; raise)
        (do
          client ← new_client new_client_name
          change (λ s. record s { clients_list = s.clients_list ++ client ∷ [] })
          add_client_db client
          send_header_to_client registration_done_1600 client_id_size
          sendall client.client_id)

  unfoldable pub reconnection_failed : Bytes → Act (Unit {0})
  reconnection_failed id = do
    send_header_to_client reconnection_failed_1606 client_id_size
    sendall id

  unfoldable pub reconnection_request_827 : ServerRequest → Act (Unit {0})
  reconnection_request_827 r = do
    new_client_name ← recv_name client_name_size
    clients ← gets (λ s. s.clients_list)
    if_found (find_name new_client_name clients)
        (λ k. do
          client ← client_at k
          check_id r.client_id client.client_id
          last_seen py k
          if_found (py.import_key client.public_key)
              (λ rsa_key. create_send_aes py valid_reconnection_aes_1605 k)
              (reconnection_failed client.client_id))
        (reconnection_failed r.client_id)

  unfoldable pub send_public_key_request_826 : ServerRequest → Act (Unit {0})
  send_public_key_request_826 r = do
    new_client_name ← recv_name client_name_size
    clients ← gets (λ s. s.clients_list)
    if_found (find_name new_client_name clients)
        (λ k. do
          client ← client_at k
          check_id r.client_id client.client_id
          public_key ← recv public_key_size
          change_client (λ c. record c { public_key = public_key }) k
          set_public_key public_key client.client_id
          last_seen py k
          create_send_aes py got_public_send_aes_1602 k)
        raise
