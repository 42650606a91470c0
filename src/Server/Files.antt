-- ===== src/Server/Files.antt =====
-- Server/request.py: the packets of a file.
pub mod Packets
pub mod Steps
pub mod Stable
use secure_file_transfer_sys.Base.{
  ℕ, ◌+◌, ◌-◌, true, false, not, ◌&&◌, ◌||◌, none, some, [], ◌∷◌, ◌++◌, ◌==◌, ltb, if◌then◌else◌,
  length, replicate, get_elem?,
}
use secure_file_transfer_sys.Runtime.{Bytes}
use secure_file_transfer_sys.Server.General.{
  client_id_size, content_size_size, orig_file_size_size, total_puckets_size, pucket_number_size,
  file_name_size, crc_size, file_received_crc_1603, thank_you_client_1604, valid_crc_request_900,
  invalid_crc_request_901, invalid_crc_4th_request_902,
}
use secure_file_transfer_sys.Server.Runtime.{
  PyLibrary, ServerFile, ServerClient, Act, give, raise, or_raise, if_found, gets, ◌>>=◌, ◌>>◌,
}
use secure_file_transfer_sys.Server.Text.{ljust}
use secure_file_transfer_sys.Server.Checksum.{memcrc}
use secure_file_transfer_sys.Server.Connection.{
  recv, recv_int, recv_name, sendall, send_int, send_header_to_client,
}
use secure_file_transfer_sys.Server.Tables.{set_valid_crc, delete_file, add_file_db}
use secure_file_transfer_sys.Server.Registry.{
  modify, remove, find_id, find_file, client_at, change_files,
}
use secure_file_transfer_sys.Server.Disk.{file_path, write_disk, append_disk, remove_disk}
use secure_file_transfer_sys.Server.Header.{ServerRequest}
use secure_file_transfer_sys.Server.Keys.{last_seen}

-- What `send_file_request_828` reads behind the header.
pub record Packet : Type 0 where
  pub content_size : ℕ
  pub orig_file_size : ℕ
  pub packet_number : ℕ
  pub total_packets : ℕ
  pub file_name : Bytes
  pub content : Bytes

abbrev pub fields_size : ℕ
fields_size =
    content_size_size + orig_file_size_size + pucket_number_size + total_puckets_size
    + file_name_size

-- A negative size of the content raises.
unfoldable pub recv_packet : ServerRequest → Act Packet
recv_packet r = do
  content_size ← recv_int content_size_size
  orig_file_size ← recv_int orig_file_size_size
  packet_number ← recv_int pucket_number_size
  total_packets ← recv_int total_puckets_size
  file_name ← recv_name file_name_size
  if ltb r.payload_size fields_size then raise else do
    encrypted_packet_content ← recv (r.payload_size - fields_size)
    give (record {
      content_size = content_size;
      orig_file_size = orig_file_size;
      packet_number = packet_number;
      total_packets = total_packets;
      file_name = file_name;
      content = encrypted_packet_content;
    })

module _ (py : PyLibrary) where
  unfoldable pub create_decrypted_file : Bytes → Bytes → Act Bytes
  create_decrypted_file path aes_key = do
    disk ← gets (λ s. s.disk)
    encrypted_file_content ← or_raise (disk path)
    decrypted ← or_raise (py.cbc_decrypt aes_key (replicate 16 0) encrypted_file_content)
    decrypted_content ← or_raise (py.unpad decrypted 16)
    write_disk path decrypted_content
    give decrypted_content

  unfoldable pub last_packet : ServerFile → ServerClient → ℕ → ℕ → Act (Unit {0})
  last_packet file client content_size orig_file_size = do
    decrypted_file_content ← create_decrypted_file file.path client.aes_key
    if orig_file_size == length decrypted_file_content
        then (do
          send_header_to_client file_received_crc_1603
              (client_id_size + content_size_size + file_name_size + crc_size)
          sendall client.client_id
          send_int content_size content_size_size
          sendall (ljust file.file_name file_name_size)
          send_int (memcrc decrypted_file_content) crc_size)
        else raise

  unfoldable pub finish_packet : ServerFile → ServerClient → Packet → Act (Unit {0})
  finish_packet file client p =
      if p.packet_number == p.total_packets
      then last_packet file client p.content_size p.orig_file_size
      else give tt

  -- The packet of a file that the client's list has, and of one that it has not.
  unfoldable pub known_file : ℕ → ServerClient → ℕ → Packet → Act (Unit {0})
  known_file k client j p = do
    file ← or_raise (get_elem? client.files_list j)
    let overwrite = (do
      change_files (modify (λ f. record f { valid_crc = false }) j) k
      set_valid_crc client.client_id false)
    if p.packet_number == 1 then overwrite else give tt
    finish_packet file client p

  unfoldable pub unknown_file : ℕ → ServerClient → Bytes → Packet → Act (Unit {0})
  unknown_file k client path p =
      if p.packet_number == 1
      then (do
        let new_file : ServerFile = record {
          client_id = client.client_id;
          file_name = p.file_name;
          path = path;
          valid_crc = false;
        }
        add_file_db new_file
        change_files (λ files. files ++ new_file ∷ []) k
        finish_packet new_file client p)
      else raise

  unfoldable pub send_file_request_828 : ServerRequest → Act (Unit {0})
  send_file_request_828 r = do
    p ← recv_packet r
    clients ← gets (λ s. s.clients_list)
    if_found (find_id r.client_id clients)
        (λ k. do
          client ← client_at k
          let path = file_path client.client_name p.file_name
          if p.packet_number == 1 then write_disk path p.content else append_disk path p.content
          last_seen py k
          if_found (find_file p.file_name client.files_list) (λ j. known_file k client j p)
              (unknown_file k client path p))
        raise
