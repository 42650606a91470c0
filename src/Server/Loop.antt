-- ===== src/Server/Loop.antt =====
-- Server/server.py: the callbacks of the selector and the start of the server.
pub mod Reading
pub mod Transfer
pub mod Holding
pub mod NewFile
pub mod Verdict
pub mod Joining
pub mod Session
pub mod Returns
pub mod Consistent
pub mod Agree
pub mod Restart
pub mod Refusals
pub mod Opened
pub mod Again
pub mod Waiting
use secure_file_transfer_sys.Base.{
  ℕ, ◌+◌, Bool, true, false, not, ◌||◌, Option, none, some, List, [], ◌∷◌, ◌++◌, ◌==◌, bytes_eq,
  if◌then◌else◌,
}
use secure_file_transfer_sys.Runtime.{Bytes}
use secure_file_transfer_sys.Server.General.{
  folder, registration_request_825, registration_failed_1601, reconnection_request_827,
  send_public_key_request_826, send_file_request_828, valid_crc_request_900,
  invalid_crc_request_901, invalid_crc_4th_request_902, general_error_1607,
}
use secure_file_transfer_sys.Server.Runtime.{
  PyLibrary, ServerFile, ServerClient, ClientRow, State, Ended, Act, returned, raised, waits, give,
  raise, gets, change, try_except, ◌>>=◌, ◌>>◌,
}
use secure_file_transfer_sys.Server.Connection.{send_header_to_client, clean_buffer}
use secure_file_transfer_sys.Server.Tables.{create_data_base}
use secure_file_transfer_sys.Server.Requests.{new_client}
use secure_file_transfer_sys.Server.Requests
use secure_file_transfer_sys.Server.Files
use secure_file_transfer_sys.Server.Verdicts
use secure_file_transfer_sys.Server.Header.{ServerRequest, get_header, header_validation}
use secure_file_transfer_sys.Server.Disk.{make_folder}

-- A file of the data base goes to each client with its ID.
unfoldable pub give_file : ServerFile → List ServerClient → List ServerClient
give_file file [] = []
give_file file (c ∷ cs) =
    (if bytes_eq c.client_id file.client_id
      then record c { files_list = c.files_list ++ file ∷ [] }
      else c)
    ∷ give_file file cs

unfoldable pub load_files : List ServerFile → List ServerClient → List ServerClient
load_files [] cs = cs
load_files (file ∷ files) cs = load_files files (give_file file cs)

module _ (py : PyLibrary) where
  unfoldable pub register : Act (Unit {0})
  register =
      try_except (Requests.registration_request_825 py)
        (do clean_buffer; send_header_to_client registration_failed_1601 0)

  -- The chain of tests on the code.
  unfoldable pub dispatch : ServerRequest → Act (Unit {0})
  dispatch r =
      if r.code == registration_request_825
      then register
      else if r.code == reconnection_request_827
      then Requests.reconnection_request_827 py r
      else if r.code == send_public_key_request_826
      then Requests.send_public_key_request_826 py r
      else if r.code == send_file_request_828
      then Files.send_file_request_828 py r
      else if r.code == valid_crc_request_900
          || (r.code == invalid_crc_request_901 || r.code == invalid_crc_4th_request_902)
      then Verdicts.crc_response_900_901_902 py r
      else raise

  abbrev pub handle : Option ServerRequest → Act Bool
  handle none = give false
  handle (some r) = do header_validation r; dispatch r; give true

  -- `read`: whether the connection stays open.
  unfoldable pub read : Act Bool
  read =
      try_except (do header ← get_header; handle header)
        (do clean_buffer; send_header_to_client general_error_1607 0; give true)

  -- The clients of the data base become objects again.
  unfoldable pub load_clients : List ClientRow → Act (Unit {0})
  load_clients [] = give tt
  load_clients (row ∷ rows) = do
    made ← new_client py row.client_name
    change (λ s. record s {
      clients_list =
          s.clients_list
          ++ record made {
            client_id = row.client_id;
            public_key = row.public_key;
            last_seen_date = row.last_seen_date;
            aes_key = row.aes_key;
          }
            ∷ [];
    })
    load_clients rows

  unfoldable pub data_base_handle : Act (Unit {0})
  data_base_handle = do
    there ← gets (λ s. s.has_data_base)
    if there then give tt else create_data_base
    rows ← gets (λ s. s.clients_table)
    load_clients rows
    files ← gets (λ s. s.files_table)
    change (λ s. record s { clients_list = load_files files s.clients_list })
    make_folder folder

  -- The selector calls `read` for a connection once for each request, when it has arrived whole.
  unfoldable pub serve : List Bytes → Act (Unit {0})
  serve [] = give tt
  serve (message ∷ messages) =
      let rest = serve messages in
      do
        change (λ s. record s { arrived = s.arrived ++ message })
        open_still ← read
        if open_still then rest else give tt
