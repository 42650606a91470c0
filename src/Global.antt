-- ===== src/Global.antt =====
-- Client/global.h: the constants of the protocol.
use secure_file_transfer_sys.Base.{ℕ}

abbrev pub version : ℕ
version = 3

abbrev pub max_tries : ℕ
max_tries = 4

abbrev pub try_again : ℕ
try_again = 0

-- `enum sizes`
abbrev pub name_of_client_max_size : ℕ
name_of_client_max_size = 100

abbrev pub name_of_client_size : ℕ
name_of_client_size = 255

abbrev pub name_of_file_size : ℕ
name_of_file_size = 255

abbrev pub payload_size_size : ℕ
payload_size_size = 4

abbrev pub code_size : ℕ
code_size = 2

abbrev pub version_size : ℕ
version_size = 1

abbrev pub client_id_size : ℕ
client_id_size = 16

abbrev pub request_header_size : ℕ
request_header_size = 23

abbrev pub packet_max_size : ℕ
packet_max_size = 4096

abbrev pub content_size_size : ℕ
content_size_size = 4

abbrev pub orig_file_size_size : ℕ
orig_file_size_size = 4

abbrev pub packet_number_size : ℕ
packet_number_size = 2

abbrev pub total_packets_size : ℕ
total_packets_size = 2

abbrev pub file_name_size : ℕ
file_name_size = 255

abbrev pub crc_size : ℕ
crc_size = 4

abbrev pub size_32_bits : ℕ
size_32_bits = 4

abbrev pub size_16_bits : ℕ
size_16_bits = 2

-- `enum Answer_codes`
abbrev pub invalid_reconnect_1606 : ℕ
invalid_reconnect_1606 = 1606

abbrev pub general_error_1607 : ℕ
general_error_1607 = 1607

abbrev pub valid_reconnect_1605 : ℕ
valid_reconnect_1605 = 1605

abbrev pub valid_file_and_crc_1603 : ℕ
valid_file_and_crc_1603 = 1603

abbrev pub thank_you_1604 : ℕ
thank_you_1604 = 1604

abbrev pub registering_failed_1601 : ℕ
registering_failed_1601 = 1601

abbrev pub registering_done_1600 : ℕ
registering_done_1600 = 1600

abbrev pub get_public_key_send_aes_1602 : ℕ
get_public_key_send_aes_1602 = 1602

-- `enum Request_codes`
abbrev pub reconnect_827 : ℕ
reconnect_827 = 827

abbrev pub send_file_828 : ℕ
send_file_828 = 828

abbrev pub valid_crc_900 : ℕ
valid_crc_900 = 900

abbrev pub wrong_crc_try_again_901 : ℕ
wrong_crc_try_again_901 = 901

abbrev pub wrong_crc_4th_902 : ℕ
wrong_crc_4th_902 = 902

abbrev pub registering_825 : ℕ
registering_825 = 825

abbrev pub send_public_key_826 : ℕ
send_public_key_826 = 826
