-- ===== src/Server/Connection.antt =====
-- Server/answer.py, and the calls of the socket in Server/request.py and Server/various_functions.py.
pub mod Exchange
use secure_file_transfer_sys.Base.{
  ℕ, zero, ◌+◌, Bool, true, false, Option, none, some, [], ◌∷◌, ◌++◌, ◌==◌, leb, if◌then◌else◌,
  length, take, drop,
}
use secure_file_transfer_sys.Runtime.{Bytes}
use secure_file_transfer_sys.Server.General.{version, version_size, code_size, payload_size_size}
use secure_file_transfer_sys.Server.Runtime.{
  State, Act, returned, raised, waits, give, raise, or_raise, change, ◌>>=◌, ◌>>◌,
}
use secure_file_transfer_sys.Server.Text.{convert_byte_to_int, convert_int_to_byte, decode_name}

-- `conn.recv(n)` returns what is there, up to `n` bytes, and nothing once the client has closed. With
-- nothing there, a socket that does not block raises, and one that blocks waits.
unfoldable pub recv : ℕ → Act Bytes
recv n s =
    if n == 0
    then (returned [], s)
    else if leb 1 (length s.arrived)
    then (returned (take n s.arrived), record s { arrived = drop n s.arrived })
    else if s.closed
    then (returned [], s)
    else if s.blocking
    then (waits, s)
    else (raised, s)

unfoldable pub recv_int : ℕ → Act ℕ
recv_int n = do received ← recv n; give (convert_byte_to_int received)

unfoldable pub recv_name : ℕ → Act Bytes
recv_name n = do received ← recv n; or_raise (decode_name received)

-- A send that raises may have sent a part of its message.
unfoldable pub send_as_much : Option ℕ → Bytes → Act (Unit {0})
send_as_much none message s = (returned tt, record s { sent = s.sent ++ message })
send_as_much (some n) message s = (raised, record s { sent = s.sent ++ take n message })

-- `conn.sendall(message)`
unfoldable pub sendall : Bytes → Act (Unit {0})
unfolding send_as_much
sendall message s = send_as_much (s.send_breaks (length s.sent)) message s

unfoldable pub send_int : ℕ → ℕ → Act (Unit {0})
send_int n size = do text ← or_raise (convert_int_to_byte n size); sendall text

-- `Answer(code, payload_size).send_header_to_client(conn)`
unfoldable pub send_header_to_client : ℕ → ℕ → Act (Unit {0})
send_header_to_client code payload_size = do
  send_int version version_size
  send_int code code_size
  send_int payload_size payload_size_size

-- All that has arrived is dropped, and from then on the socket blocks.
unfoldable pub clean_buffer : Act (Unit {0})
clean_buffer = change (λ s. record s { arrived = []; blocking = true })
