-- ===== src/Server/Loop/Reading.antt =====
-- Server/server.py: the callback `read`, by how the handler ends.
use secure_file_transfer_sys.Server.Connection.Exchange.{
  Sends, arriving, saying, get_header_lem, send_header_to_client_lem,
}
use secure_file_transfer_sys.Base.{ℕ, ◌^◌, ◌<◌, ◌≡◌, refl, arith, true, [], length}
use secure_file_transfer_sys.Runtime.{Bytes}
use secure_file_transfer_sys.Wire.{request_bytes}
use secure_file_transfer_sys.Answer.Fields.{header_bytes}
use secure_file_transfer_sys.Server.Runtime.{PyLibrary, State, returned, raised}
use secure_file_transfer_sys.Server.Connection.{clean_buffer}
use secure_file_transfer_sys.Server.Header.{ServerRequest, header_validation}
use secure_file_transfer_sys.Server.Loop.{dispatch, read}

abbrev pub request_of : Bytes → ℕ → ℕ → ServerRequest
request_of id code size = record { client_id = id; version = 3; code = code; payload_size = size }

-- The buffer is empty, the socket blocks, and the client has a header without a payload.
abbrev pub refusing : ℕ → State → State
refusing code s = saying (record s { arrived = []; blocking = true }) (header_bytes 3 code 0)

-- A request that the client can send: its ID, a code and a payload.
pub record IsRequest (id : Bytes) (code : ℕ) (payload : Bytes) : Type 0 where
  pub id_size : length id ≡ 16
  pub code_fits : code < 2 ^ 16
  pub payload_fits : length payload < 2 ^ 32

module _ (py : PyLibrary) where
  pub read-returned :
      (id : Bytes) (code : ℕ) (payload : Bytes) (s s' : State)
      → IsRequest id code payload
      → s.arrived ≡ request_bytes id code payload
      → dispatch py (request_of id code (length payload)) (arriving s payload) ≡ (returned tt, s')
      → read py s ≡ (returned true, s')
  unfolding read header_validation
  read-returned id code payload s s' is e ends =
      rw
        (
          get_header_lem id 3 code (length payload) payload s is.id_size (omega arith) is.code_fits
              is.payload_fits e,
          ends,
        )
        refl

  pub read-raised :
      (id : Bytes) (code : ℕ) (payload : Bytes) (s s' : State)
      → IsRequest id code payload
      → s.arrived ≡ request_bytes id code payload
      → dispatch py (request_of id code (length payload)) (arriving s payload) ≡ (raised, s')
      → Sends s'
      → read py s ≡ (returned true, refusing 1607 s')
  unfolding read header_validation clean_buffer
  read-raised id code payload s s' is e ends sends =
      rw
        (
          get_header_lem id 3 code (length payload) payload s is.id_size (omega arith) is.code_fits
              is.payload_fits e,
          ends,
          send_header_to_client_lem 1607 0 (record s' { arrived = []; blocking = true })
              (omega arith) (omega arith) sends,
        )
        refl
