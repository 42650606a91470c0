-- ===== src/Server/Connection/Exchange.antt =====
-- Server/request.py, Server/answer.py: what reading takes from the connection, and what sending adds.
use secure_file_transfer_sys.Base.{
  none, ℕ, ◌-◌, ◌^◌, ◌<◌, ◌≤◌, ◌≡◌, refl, sym, ap, ◌∙◌, arith, true, false, some, [], ◌∷◌, ◌++◌,
  append_assoc, ◌==◌, leb, length, length-append, take-append, drop-append, length-replicate,
  replicate,
}
use secure_file_transfer_sys.Server.Connection.{
  send_as_much, recv, recv_int, recv_name, sendall, send_int, send_header_to_client,
}
use secure_file_transfer_sys.Runtime.{Bytes}
use secure_file_transfer_sys.Wire.{u16_bytes, u32_bytes, text_field}
use secure_file_transfer_sys.Answer.Fields.{header_bytes}
use secure_file_transfer_sys.Answer.Checks.{HasNoNull}
use secure_file_transfer_sys.Server.Runtime.{State, returned}
use secure_file_transfer_sys.Server.Text.{is_utf8, convert_byte_to_int, convert_int_to_byte}
use secure_file_transfer_sys.Server.Text.Laws.{
  decode_name-text_field, convert_byte_to_int-u16, convert_byte_to_int-u32, convert_int_to_byte-u16,
  convert_int_to_byte-u32,
}
use secure_file_transfer_sys.Server.Header.{get_header}

-- What has arrived is now `rest`; `text` has been sent.
abbrev pub arriving : State → Bytes → State
arriving s rest = record s { arrived = rest }

abbrev pub saying : State → Bytes → State
saying s text = record s { sent = s.sent ++ text }

-- No send raises.
abbrev pub Sends : State → Type 0
Sends s = (n : ℕ) → s.send_breaks n ≡ none

pub sendall_lem :
    (text : Bytes) (s : State) → Sends s → sendall text s ≡ (returned tt, saying s text)
unfolding sendall send_as_much
sendall_lem text s sends = rw (sends (length s.sent), sendall, send_as_much) refl

pub recv_lem :
    (n : ℕ) (text rest : Bytes) (s : State)
    → 0 < n
    → length text ≡ n
    → s.arrived ≡ text ++ rest
    → recv n s ≡ (returned text, arriving s rest)
unfolding recv
recv_lem n text rest s h size e =
    rw (not_zero, e, some_there, sym size, take-append text rest, drop-append text rest) refl
  where
    not_zero : (n == 0) ≡ false
    not_zero = ground arith

    some_there : leb 1 (length (text ++ rest)) ≡ true
    some_there = ground (arith, length-append text rest)

pub recv_int-u16 :
    (x : ℕ) (rest : Bytes) (s : State)
    → x < 2 ^ 16
    → s.arrived ≡ u16_bytes x ++ rest
    → recv_int 2 s ≡ (returned x, arriving s rest)
unfolding recv_int
recv_int-u16 x rest s h e =
    rw (recv_lem 2 (u16_bytes x) rest s (omega arith) refl e, convert_byte_to_int-u16 x h) refl

pub recv_int-u32 :
    (x : ℕ) (rest : Bytes) (s : State)
    → x < 2 ^ 32
    → s.arrived ≡ u32_bytes x ++ rest
    → recv_int 4 s ≡ (returned x, arriving s rest)
unfolding recv_int
recv_int-u32 x rest s h e =
    rw (recv_lem 4 (u32_bytes x) rest s (omega arith) refl e, convert_byte_to_int-u32 x h) refl

-- A name that the protocol can carry: at most 255 bytes of UTF-8 without a zero.
pub record IsName (name : Bytes) : Type 0 where
  pub size : length name ≤ 255
  pub utf8 : is_utf8 name ≡ true
  pub no_null : HasNoNull name

pub recv_name_lem :
    (name rest : Bytes) (s : State)
    → IsName name
    → s.arrived ≡ text_field name ++ rest
    → recv_name 255 s ≡ (returned name, arriving s rest)
unfolding recv_name
recv_name_lem name rest s is e =
    rw
      (
        recv_lem 255 (text_field name) rest s (omega arith) field_size e,
        decode_name-text_field name is.utf8 is.no_null,
      )
      refl
  where
    field_size : length (text_field name) ≡ 255
    field_size =
        let h = is.size in
        omega (
          arith,
          length-append name (replicate (255 - length name) 0),
          length-replicate {A = ℕ} (255 - length name) 0,
        )

recv_version :
    (version : ℕ) (rest : Bytes) (s : State)
    → recv_int 1 (arriving s (version ∷ rest)) ≡ (returned version, arriving s rest)
unfolding recv_int convert_byte_to_int
recv_version version rest s =
    rw (recv_lem 1 (version ∷ []) rest (arriving s (version ∷ rest)) (omega arith) refl refl)
      (ap (λ x. (returned x, arriving s rest)) (omega arith))

-- Where a request's header has arrived, with an ID of 16 bytes and numbers that fit their fields,
-- `getHeader` returns the fields and leaves what follows.
pub get_header_lem :
    (id : Bytes) (version code size : ℕ) (rest : Bytes) (s : State)
    → length id ≡ 16
    → version < 256
    → code < 2 ^ 16
    → size < 2 ^ 32
    → s.arrived ≡ id ++ (version ∷ (u16_bytes code ++ (u32_bytes size ++ rest)))
    → get_header s ≡ (
      returned
          (some (record { client_id = id; version = version; code = code; payload_size = size })),
      arriving s rest,
    )
unfolding get_header
get_header_lem id version code size rest s id_size small small' small'' e =
    let after_code = u32_bytes size ++ rest in
    let after_version = u16_bytes code ++ after_code in
    let after_id = version ∷ after_version in
    rw
      (
        recv_lem 16 id after_id s (omega arith) id_size e,
        id_size,
        recv_version version after_version (arriving s after_id),
        recv_int-u16 code after_code (arriving s after_version) small' refl,
        recv_int-u32 size rest (arriving s after_code) small'' refl,
      )
      refl

version_byte : convert_int_to_byte 3 1 ≡ some (3 ∷ [])
unfolding convert_int_to_byte
version_byte = refl

-- Where the sends go through, an answer's header is the seven bytes of version 3 that the client reads.
pub send_header_to_client_lem :
    (code size : ℕ) (s : State)
    → code < 2 ^ 16
    → size < 2 ^ 32
    → Sends s
    → send_header_to_client code size s ≡ (returned tt, saying s (header_bytes 3 code size))
unfolding send_header_to_client send_int
send_header_to_client_lem code size s h h' sends =
    rw
      (
        version_byte,
        sendall_lem (3 ∷ []) s sends,
        convert_int_to_byte-u16 code h,
        sendall_lem (u16_bytes code) (saying s (3 ∷ [])) sends,
        convert_int_to_byte-u32 size h',
        sendall_lem (u32_bytes size) (saying (saying s (3 ∷ [])) (u16_bytes code)) sends,
      )
      (ap (λ t. (returned tt, record s { sent = t }))
        (append_assoc (s.sent ++ (3 ∷ [])) (u16_bytes code) (u32_bytes size)
          ∙ append_assoc s.sent (3 ∷ []) (u16_bytes code ++ u32_bytes size)))
