-- ===== src/Server/Files/Steps.antt =====
-- Server/request.py: `send_file_request_828` on the first packet of a new file and on a later packet.
use secure_file_transfer_sys.Server.Connection.Exchange.{Sends, arriving, saying}
use secure_file_transfer_sys.Base.{
  ℕ, ◌+◌, ◌^◌, ◌<◌, ◌≡◌, ◌≢◌, refl, arith, true, false, none, some, [], ◌∷◌, ◌++◌, get_elem?,
  length, ◌==◌,
}
use secure_file_transfer_sys.Runtime.{Bytes}
use secure_file_transfer_sys.Wire.{packet_payload}
use secure_file_transfer_sys.Server.Runtime.{PyLibrary, ServerFile, ServerClient, State, returned}
use secure_file_transfer_sys.Server.Tables.{with_crc, set_valid_crc, has_file_row, add_file_db}
use secure_file_transfer_sys.Server.Registry.{
  modify, find_id, find_file, change_client, change_files,
}
use secure_file_transfer_sys.Server.Disk.{file_path, append_disk}
use secure_file_transfer_sys.Server.Header.{ServerRequest}
use secure_file_transfer_sys.Server.Keys.Sealing.{client_at_lem, seen, last_seen_lem}
use secure_file_transfer_sys.Server.Files.{
  finish_packet, known_file, unknown_file, send_file_request_828,
}
use secure_file_transfer_sys.Server.Files.Packets.{
  packet, Fits, written, write_disk_lem, received_answer, recv_packet_lem, Opens, last_packet_lem,
}

-- The client that a packet belongs to, at the position `k`, and a file of it that can be written.
pub record Target (s : State) (id name : Bytes) (k : ℕ) (c : ServerClient) : Type 0 where
  pub found : find_id id s.clients_list ≡ some k
  pub at : get_elem? s.clients_list k ≡ some c
  pub same : c.client_id ≡ id
  pub can : s.can_write (file_path c.client_name name) ≡ true

-- The object and the row of a file that is new.
abbrev pub new_file_of : ServerClient → Bytes → ServerFile
new_file_of c name = record {
  client_id = c.client_id;
  file_name = name;
  path = file_path c.client_name name;
  valid_crc = false;
}

abbrev pub filed : ℕ → ServerFile → State → State
filed k file s = record s {
  clients_list = modify (λ c. record c { files_list = c.files_list ++ file ∷ [] }) k s.clients_list;
  files_table = s.files_table ++ file ∷ [];
}

-- The file has no verdict any more; nor has any row of the client, whatever the file.
abbrev pub reopened : ℕ → ℕ → Bytes → State → State
reopened k j id s = record s {
  clients_list =
      modify
        (λ c. record c { files_list = modify (λ f. record f { valid_crc = false }) j c.files_list })
        k s.clients_list;
  files_table = with_crc id false s.files_table;
}

module _ (py : PyLibrary) where
  pub finish_packet-more :
      (file : ServerFile) (c : ServerClient) (size original number total : ℕ) (name content : Bytes)
      (s : State)
      → number < total
      → finish_packet py file c (packet size original number total name content) s
        ≡ (returned tt, s)
  unfolding finish_packet
  finish_packet-more file c size original number total name content s h = rw other refl
    where
      other : (number == total) ≡ false
      other = ground arith

  pub finish_packet-last :
      (file : ServerFile) (c : ServerClient) (size total : ℕ) (name content encrypted plain : Bytes)
      (s : State)
      → size < 2 ^ 32
      → s.disk file.path ≡ some encrypted
      → s.can_write file.path ≡ true
      → Sends s
      → Opens py c.aes_key encrypted plain
      → finish_packet py file c (packet size (length plain) total total name content) s ≡ (
        returned tt,
        saying (written file.path plain s) (received_answer c.client_id size file.file_name plain),
      )
  unfolding finish_packet
  finish_packet-last file c size total name content encrypted plain s small there can sends opens =
      rw (same total) (last_packet_lem py file c encrypted plain size s small there can sends opens)
    where
      same : (n : ℕ) → (n == n) ≡ true
      same n = ground arith

  pub send_file_request_828-later :
      (size original number total : ℕ) (name content so_far rest : Bytes) (k j : ℕ)
      (c : ServerClient) (file : ServerFile) (r : ServerRequest) (s : State)
      → Fits size original number total name
      → number ≢ 1
      → 0 < length content
      → r.payload_size ≡ 267 + length content
      → Target s r.client_id name k c
      → find_file name c.files_list ≡ some j
      → get_elem? c.files_list j ≡ some file
      → s.disk (file_path c.client_name name) ≡ some so_far
      → s.arrived ≡ packet_payload size original number total name (content ++ rest)
      → send_file_request_828 py r s
        ≡ finish_packet py file c (packet size original number total name content) (
            seen py k c.client_id
              (written (file_path c.client_name name) (so_far ++ content) (arriving s rest)))
  unfolding send_file_request_828 append_disk known_file
  send_file_request_828-later size original number total name content so_far rest k j c file r s
        fits other some_content length_ok target has_file file_at there e =
      let path = file_path c.client_name name in
      let s1 : State = arriving s rest in
      let s2 : State = written path (so_far ++ content) s1 in
      rw
        (
          recv_packet_lem size original number total name content rest r s fits some_content
              length_ok e,
          target.found,
          client_at_lem k c s1 target.at,
          not_first,
          there,
          write_disk_lem path (so_far ++ content) s1 target.can,
          last_seen_lem py k c s2 target.at,
          has_file,
          file_at,
        )
        refl
    where
      not_first : (number == 1) ≡ false
      not_first = ground arith

  pub send_file_request_828-first :
      (size original total : ℕ) (name content rest : Bytes) (k : ℕ) (c : ServerClient)
      (r : ServerRequest) (s : State)
      → Fits size original 1 total name
      → 0 < length content
      → r.payload_size ≡ 267 + length content
      → Target s r.client_id name k c
      → find_file name c.files_list ≡ none
      → has_file_row c.client_id name s.files_table ≡ false
      → s.arrived ≡ packet_payload size original 1 total name (content ++ rest)
      → send_file_request_828 py r s
        ≡ finish_packet py (new_file_of c name) c (packet size original 1 total name content) (
            filed k (new_file_of c name) (
              seen py k c.client_id
                (written (file_path c.client_name name) content (arriving s rest))))
  unfolding send_file_request_828 unknown_file add_file_db change_files change_client
  send_file_request_828-first size original total name content rest k c r s fits some_content
        length_ok target no_file no_row e =
      let path = file_path c.client_name name in
      let s1 : State = arriving s rest in
      let s2 : State = written path content s1 in
      rw
        (
          recv_packet_lem size original 1 total name content rest r s fits some_content length_ok e,
          target.found,
          client_at_lem k c s1 target.at,
          write_disk_lem path content s1 target.can,
          last_seen_lem py k c s2 target.at,
          no_file,
          no_row,
        )
        refl

  pub send_file_request_828-again :
      (size original total : ℕ) (name content rest : Bytes) (k j : ℕ) (c : ServerClient)
      (file : ServerFile) (r : ServerRequest) (s : State)
      → Fits size original 1 total name
      → 0 < length content
      → r.payload_size ≡ 267 + length content
      → Target s r.client_id name k c
      → find_file name c.files_list ≡ some j
      → get_elem? c.files_list j ≡ some file
      → s.arrived ≡ packet_payload size original 1 total name (content ++ rest)
      → send_file_request_828 py r s
        ≡ finish_packet py file c (packet size original 1 total name content) (
            reopened k j c.client_id (
              seen py k c.client_id
                (written (file_path c.client_name name) content (arriving s rest))))
  unfolding send_file_request_828 known_file change_files change_client set_valid_crc
  send_file_request_828-again size original total name content rest k j c file r s fits some_content
        length_ok target has_file file_at e =
      let path = file_path c.client_name name in
      let s1 : State = arriving s rest in
      let s2 : State = written path content s1 in
      rw
        (
          recv_packet_lem size original 1 total name content rest r s fits some_content length_ok e,
          target.found,
          client_at_lem k c s1 target.at,
          write_disk_lem path content s1 target.can,
          last_seen_lem py k c s2 target.at,
          has_file,
          file_at,
        )
        refl
