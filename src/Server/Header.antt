-- ===== src/Server/Header.antt =====
-- Server/request.py: a request and its header, and `check_id`.
use secure_file_transfer_sys.Base.{ℕ, Option, none, some, ◌==◌, bytes_eq, if◌then◌else◌, length}
use secure_file_transfer_sys.Runtime.{Bytes}
use secure_file_transfer_sys.Server.General.{
  client_id_size, version, version_size, code_size, payload_size_size,
}
use secure_file_transfer_sys.Server.Runtime.{Act, give, raise, ◌>>=◌}
use secure_file_transfer_sys.Server.Connection.{recv, recv_int}

pub record ServerRequest : Type 0 where
  pub client_id : Bytes
  pub version : ℕ
  pub code : ℕ
  pub payload_size : ℕ

unfoldable pub check_id : Bytes → Bytes → Act (Unit {0})
check_id old_client_id new_client_id =
    if bytes_eq old_client_id new_client_id then give tt else raise

unfoldable pub header_validation : ServerRequest → Act (Unit {0})
header_validation r = if r.version == version then give tt else raise

-- `none` is `END`: the client has sent nothing and closed the connection.
unfoldable pub get_header : Act (Option ServerRequest)
get_header = do
  byte_id_for_check ← recv client_id_size
  if length byte_id_for_check == 0 then give none else do
    version ← recv_int version_size
    code ← recv_int code_size
    payload_size ← recv_int payload_size_size
    give (
        some (record {
          client_id = byte_id_for_check;
          version = version;
          code = code;
          payload_size = payload_size;
        }))
