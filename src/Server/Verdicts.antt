-- ===== src/Server/Verdicts.antt =====
-- Server/request.py: the client's verdict on the checksum of a file.
pub mod Verified
use secure_file_transfer_sys.Base.{
  ℕ, ◌+◌, ◌-◌, true, false, not, ◌&&◌, ◌||◌, none, some, [], ◌∷◌, ◌++◌, ◌==◌, ltb, if◌then◌else◌,
  length, replicate, get_elem?,
}
use secure_file_transfer_sys.Runtime.{Bytes}
use secure_file_transfer_sys.Server.General.{
  client_id_size, content_size_size, orig_file_size_size, total_puckets_size, pucket_number_size,
  file_name_size, crc_size, file_received_crc_1603, thank_you_client_1604, valid_crc_request_900,
  invalid_crc_request_901, invalid_crc_4th_request_902,
}
use secure_file_transfer_sys.Server.Runtime.{
  PyLibrary, ServerFile, ServerClient, Act, give, raise, or_raise, if_found, gets, ◌>>=◌, ◌>>◌,
}
use secure_file_transfer_sys.Server.Text.{ljust}
use secure_file_transfer_sys.Server.Checksum.{memcrc}
use secure_file_transfer_sys.Server.Connection.{
  recv, recv_int, recv_name, sendall, send_int, send_header_to_client,
}
use secure_file_transfer_sys.Server.Tables.{set_valid_crc, delete_file, add_file_db}
use secure_file_transfer_sys.Server.Registry.{
  modify, remove, find_id, find_file, client_at, change_files,
}
use secure_file_transfer_sys.Server.Disk.{file_path, write_disk, append_disk, remove_disk}
use secure_file_transfer_sys.Server.Header.{ServerRequest}
use secure_file_transfer_sys.Server.Keys.{last_seen}

unfoldable pub thank_you_answer : Bytes → Act (Unit {0})
thank_you_answer id = do send_header_to_client thank_you_client_1604 client_id_size; sendall id

-- The three verdicts on a file that is not verified yet.
unfoldable pub verify_file : ℕ → ServerClient → ℕ → Act (Unit {0})
verify_file k client j = do
  change_files (modify (λ f. record f { valid_crc = true }) j) k
  set_valid_crc client.client_id true
  thank_you_answer client.client_id

unfoldable pub discard_file : ℕ → ServerClient → ℕ → ServerFile → Act (Unit {0})
discard_file k client j file = do
  remove_disk file.path
  change_files (remove j) k
  delete_file file.file_name
  thank_you_answer client.client_id

unfoldable pub crc_verdict : ServerRequest → ℕ → ServerClient → ℕ → ServerFile → Act (Unit {0})
crc_verdict r k client j file =
    if file.valid_crc
    then raise
    else if r.code == valid_crc_request_900
    then verify_file k client j
    else if r.code == invalid_crc_request_901
    then give tt
    else if r.code == invalid_crc_4th_request_902
    then discard_file k client j file
    else give tt

module _ (py : PyLibrary) where
  unfoldable pub crc_response_900_901_902 : ServerRequest → Act (Unit {0})
  crc_response_900_901_902 r = do
    file_name ← recv_name file_name_size
    clients ← gets (λ s. s.clients_list)
    if_found (find_id r.client_id clients)
        (λ k. do
          last_seen py k
          client ← client_at k
          if_found (find_file file_name client.files_list)
              (λ j. do
                file ← or_raise (get_elem? client.files_list j)
                crc_verdict r k client j file)
              raise)
        raise
