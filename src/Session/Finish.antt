-- ===== src/Session/Finish.antt =====
-- Client/client.cpp: `general_error_handle`, `crc_checking`, `the_end` and `send_file`.
pub mod Crc
use secure_file_transfer_sys.Base.{
  ℕ, zero, suc, not, ◌||◌, Option, none, some, ◌==◌, if◌then◌else◌, length,
}
use secure_file_transfer_sys.Base.Int.{ℤ, pos, to_int, to_u32}
use secure_file_transfer_sys.Global.{
  max_tries, try_again, client_id_size, content_size_size, file_name_size, crc_size,
  name_of_file_size, name_of_client_size, packet_max_size, general_error_1607,
  valid_file_and_crc_1603, thank_you_1604, send_file_828, valid_crc_900, wrong_crc_try_again_901,
  wrong_crc_4th_902,
}
use secure_file_transfer_sys.Runtime.{Run, ◌>>=◌, ◌>>◌, pure, exit, defined, out_of_fuel}
use secure_file_transfer_sys.Library.{Library}
use secure_file_transfer_sys.Request.{
  Request, new_request, set_client_id, set_code, set_payload_size, append_string_payload,
  send_to_server, clear_payload, add_failure, get_num_failures,
}
use secure_file_transfer_sys.Answer.{
  get_code, get_header_from_server, read_string_and_check, get_number,
}
use secure_file_transfer_sys.ClientOb.{Client, set_crc}
use secure_file_transfer_sys.Cksum.{memcrc}
use secure_file_transfer_sys.Various.{calculate_total_packets, file_by_path, encrypt_file}
use secure_file_transfer_sys.Session.Packets.{Transfer, Cursor, send_packets}

-- The code that is returned, and the request with one more failure. The fourth ends the program.
unfoldable pub general_error_handle : Request → Run (ℕ × Request)
general_error_handle request =
    let failed = add_failure request in
    if get_num_failures failed == max_tries then exit else pure (try_again, failed)

-- The variables of the loop when it starts.
abbrev pub first_packet : Transfer → Cursor
first_packet t = record {
  packet_number = 1;
  begin = 0;
  end = packet_max_size;
  counter = to_int (length t.encrypted_file);
}

-- The comparison of the two CRC values: the finish code, and the request that has been counted.
unfoldable pub judge_crc : Client → ℕ → Request → ℕ × Request
judge_crc client crc crc_packet_request =
    let failed = add_failure crc_packet_request in
    if client.crc_value == crc
    then (valid_crc_900, crc_packet_request)
    else if get_num_failures failed == max_tries
    then (wrong_crc_4th_902, failed)
    else (wrong_crc_try_again_901, failed)

module _ (lib : Library) where
  -- The request that answers the server's CRC; `finish_code` decides its code.
  unfoldable pub finish_with : ℕ → Client → Request → Option Request
  finish_with finish_code client finish_request =
      elim (set_client_id client.client_id finish_request) [
        | none ↦ none
        | some r ↦ some (
            append_string_payload client.file_name name_of_client_size
              (set_payload_size lib (pos name_of_file_size) (set_code lib (pos finish_code) r)))
      ]

  -- Returns the finish code, `crc_packet_request` and `finish_request`.
  unfoldable pub crc_checking : Client → Request → ℤ → Request → Run (ℕ × Request × Request)
  crc_checking client crc_packet_request encrypted_file_size finish_request = do
    answer ← get_header_from_server lib
    if get_code answer == general_error_1607
        then (do
          (code, failed) ← general_error_handle crc_packet_request
          pure (code, failed, finish_request))
        else if not (get_code answer == valid_file_and_crc_1603)
        then exit
        else do
          read_string_and_check client.client_id client_id_size
          content_size ← get_number lib content_size_size
          if not (to_u32 encrypted_file_size == content_size) then exit else do
            read_string_and_check client.file_name file_name_size
            crc ← get_number lib crc_size
            let (finish_code, counted) = judge_crc client crc crc_packet_request
            finish ← defined (finish_with finish_code client finish_request)
            send_to_server finish
            pure (finish_code, counted, finish)

  -- Both ends of the conversation only print; the last check is on the client's ID.
  unfoldable pub the_end : ℕ → Client → ℕ → Request → Run (Unit {0})
  the_end zero client result finish_request = out_of_fuel
  the_end (suc fuel) client result finish_request = do
    answer ← get_header_from_server lib
    let check = read_string_and_check client.client_id client_id_size
    let again = λ (r : Request). the_end fuel client result r
    if get_code answer == general_error_1607
        then (do
          (code, failed) ← general_error_handle finish_request
          if code == try_again then (do send_to_server failed; again failed) else check)
        else if not (get_code answer == thank_you_1604)
        then exit
        else check

  -- Reads, encrypts and announces the file: the client with its CRC, the request and the constants
  -- of the packet loop.
  unfoldable pub prepare_file : Client → Request → Run (Client × Request × Transfer)
  prepare_file client request = do
    original_file ← file_by_path client.path_to_file
    crc ← defined (memcrc original_file)
    let summed = set_crc crc client
    encrypted_file ← encrypt_file lib summed.encrypted_aes summed.priv_key original_file
    identified ← defined (set_client_id summed.client_id request)
    let coded = set_code lib (pos send_file_828) identified
    total_packets ← calculate_total_packets (to_int (length encrypted_file))
    pure (
      summed,
      coded,
      record {
        encrypted_file = encrypted_file;
        original_size = length original_file;
        file_name = summed.file_name;
        total_packets = total_packets;
      },
    )

  -- One round of the packet loop sends up to 4096 bytes, so the size is more rounds than needed.
  unfoldable pub send_all_packets : Transfer → Request → Run Request
  send_all_packets t r = send_packets lib (suc (length t.encrypted_file)) t (first_packet t) r

  -- The fuel counts the times that the file is sent.
  unfoldable pub send_file : ℕ → Client → Request → Run (Unit {0})
  send_file zero client request = out_of_fuel
  send_file (suc fuel) client request = do
    (summed, coded, t) ← prepare_file client request
    sent ← send_all_packets t coded
    (finish_code, counted, finish) ←
        crc_checking summed sent (to_int (length t.encrypted_file)) new_request
    let again = send_file fuel summed (clear_payload counted)
    if finish_code == wrong_crc_try_again_901 || finish_code == try_again
        then again
        else the_end max_tries summed finish_code finish
