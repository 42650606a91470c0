-- ===== src/Server/General.antt =====
-- Server/general.py: the constants of the server.
use secure_file_transfer_sys.Base.{ℕ, [], ◌∷◌}
use secure_file_transfer_sys.Runtime.{Bytes}

-- "clients files"
abbrev pub folder : Bytes
folder = 99 ∷ 108 ∷ 105 ∷ 101 ∷ 110 ∷ 116 ∷ 115 ∷ 32 ∷ 102 ∷ 105 ∷ 108 ∷ 101 ∷ 115 ∷ []

abbrev pub version : ℕ
version = 3

-- "1256"
abbrev pub default_port_number : Bytes
default_port_number = 49 ∷ 50 ∷ 53 ∷ 54 ∷ []

abbrev pub error : ℕ
error = 1

abbrev pub end : ℕ
end = 0

abbrev pub registration_request_825 : ℕ
registration_request_825 = 825

abbrev pub registration_failed_1601 : ℕ
registration_failed_1601 = 1601

abbrev pub registration_done_1600 : ℕ
registration_done_1600 = 1600

abbrev pub reconnection_request_827 : ℕ
reconnection_request_827 = 827

abbrev pub reconnection_failed_1606 : ℕ
reconnection_failed_1606 = 1606

abbrev pub valid_reconnection_aes_1605 : ℕ
valid_reconnection_aes_1605 = 1605

abbrev pub send_public_key_request_826 : ℕ
send_public_key_request_826 = 826

abbrev pub got_public_send_aes_1602 : ℕ
got_public_send_aes_1602 = 1602

abbrev pub send_file_request_828 : ℕ
send_file_request_828 = 828

abbrev pub file_received_crc_1603 : ℕ
file_received_crc_1603 = 1603

abbrev pub valid_crc_request_900 : ℕ
valid_crc_request_900 = 900

abbrev pub thank_you_client_1604 : ℕ
thank_you_client_1604 = 1604

abbrev pub general_error_1607 : ℕ
general_error_1607 = 1607

abbrev pub invalid_crc_request_901 : ℕ
invalid_crc_request_901 = 901

abbrev pub invalid_crc_4th_request_902 : ℕ
invalid_crc_4th_request_902 = 902

abbrev pub aes_key_size : ℕ
aes_key_size = 32

abbrev pub client_name_size : ℕ
client_name_size = 255

abbrev pub client_id_size : ℕ
client_id_size = 16

abbrev pub version_size : ℕ
version_size = 1

abbrev pub code_size : ℕ
code_size = 2

abbrev pub payload_size_size : ℕ
payload_size_size = 4

abbrev pub public_key_size : ℕ
public_key_size = 160

abbrev pub content_size_size : ℕ
content_size_size = 4

abbrev pub orig_file_size_size : ℕ
orig_file_size_size = 4

abbrev pub total_puckets_size : ℕ
total_puckets_size = 2

abbrev pub pucket_number_size : ℕ
pucket_number_size = 2

abbrev pub file_name_size : ℕ
file_name_size = 255

abbrev pub crc_size : ℕ
crc_size = 4
