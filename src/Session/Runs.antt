-- ===== src/Session/Runs.antt =====
-- Runs of the whole client against answers that are written out.
use secure_file_transfer_sys.Cksum.{crc_end, memcrc}
use secure_file_transfer_sys.Session.Packets.{advance, fill_packet, send_packets}
use secure_file_transfer_sys.Base.{◌≡◌, refl, [], ◌∷◌, length, map}
use secure_file_transfer_sys.Base.Int.{to_int, to_u16, to_u32, quot, rem, ◌+ℤ◌, ◌-ℤ◌}
use secure_file_transfer_sys.Runtime.{
  World, Outcome, done, socket_read, socket_write, read_file, write_file,
}
use secure_file_transfer_sys.Request.{
  new_request, get_code, char_at, cons_char, chars_from, set_client_id, append_string_payload,
  get_num_failures, add_failure, restart_failures, clear_payload, append_file_slice, message,
  send_to_server, set_code, set_payload_size, number_content, append_number_payload,
}
use secure_file_transfer_sys.Answer
use secure_file_transfer_sys.ClientOb
use secure_file_transfer_sys.Wrappers.{
  aes_wrapper, aes_encrypt, new_rsa_private, rsa_private, get_private_key, get_public_key,
  rsa_decrypt, encode, decode,
}
use secure_file_transfer_sys.Various.{
  calculate_total_packets, find_last_of, find_file_name, getline, file_by_path, read_priv_key,
  encrypt_file, create_me_info, create_priv_key_file,
}
use secure_file_transfer_sys.Various.Hex.{convert_string_to_hex, convert_hex_to_bytes}
use secure_file_transfer_sys.Session.Finish.{
  general_error_handle, finish_with, judge_crc, crc_checking, the_end, prepare_file,
  send_all_packets, send_file,
}
use secure_file_transfer_sys.Session.Keys.{
  get_aes_key_from_server, send_public_key, send_public_key_get_aes,
}
use secure_file_transfer_sys.Session.Connect.{
  find_char, split_details, connect, read_transfer, after_registering, registering_request,
  registering, prepare_reconnection, after_reconnection, reconnection, main,
}
use secure_file_transfer_sys.Example.{toy, world, good_answers}

-- The client with everything that it calls.
run : World → Outcome (Unit {0}) × World
unfolding main registering reconnection prepare_reconnection after_reconnection registering_request
    after_registering read_transfer connect split_details find_char send_public_key_get_aes
    send_public_key get_aes_key_from_server send_file send_all_packets prepare_file the_end
    crc_checking judge_crc finish_with general_error_handle send_packets advance fill_packet
    convert_string_to_hex convert_hex_to_bytes create_priv_key_file create_me_info encrypt_file
    read_priv_key file_by_path getline find_file_name find_last_of calculate_total_packets decode
    encode rsa_decrypt get_public_key get_private_key rsa_private new_rsa_private aes_encrypt
    aes_wrapper memcrc crc_end ClientOb.new_client ClientOb.set_client_name ClientOb.set_file_name
    ClientOb.strcpy_s ClientOb.put ClientOb.pad ClientOb.c_string ClientOb.set_path
    ClientOb.set_private_key ClientOb.set_client_id ClientOb.set_encrypted_aes ClientOb.set_crc
    Answer.new_answer Answer.get_code Answer.read_or_exit Answer.up_to_null
    Answer.read_string_and_check Answer.get_encrypted_aes Answer.read_client_id
    Answer.get_header_from_server Answer.get_number append_number_payload number_content
    set_payload_size set_code send_to_server message append_file_slice clear_payload
    restart_failures add_failure get_num_failures append_string_payload set_client_id chars_from
    cons_char char_at get_code new_request write_file read_file socket_write socket_read to_int
    to_u16 to_u32 quot rem ◌+ℤ◌ ◌-ℤ◌
run w = main toy w

-- A registration with one packet: the messages have 23 bytes and their payloads.
run_good : map length (run (world (good_answers 1602962764))).1.outbox ≡ 278 ∷ 438 ∷ 306 ∷ 278 ∷ []
unfolding run
run_good = refl

run_good_ends : (run (world (good_answers 1602962764))).0 ≡ done tt
unfolding run
run_good_ends = refl

-- With a wrong CRC the file is sent again, and here the answers end.
run_wrong_crc :
    map length (run (world (good_answers 1))).1.outbox ≡ 278 ∷ 438 ∷ 306 ∷ 278 ∷ 306 ∷ []
unfolding run
run_wrong_crc = refl
