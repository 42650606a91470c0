-- ===== src/Session/Connect.antt =====
-- Client/client.cpp: `read_transfer`, `registering`, `reconnection` and `main`.
use secure_file_transfer_sys.Base.{
  ℕ, zero, suc, ◌+◌, Bool, true, false, not, ◌||◌, Option, none, some, [], ◌∷◌, ◌==◌, bytes_eq,
  if◌then◌else◌, ltb, length, take, drop, replicate,
}
use secure_file_transfer_sys.Base.Int.{pos}
use secure_file_transfer_sys.Global.{
  max_tries, try_again, name_of_client_max_size, client_id_size, name_of_client_size,
  file_name_size, general_error_1607, registering_failed_1601, registering_done_1600,
  invalid_reconnect_1606, valid_reconnect_1605, reconnect_827, registering_825,
}
use secure_file_transfer_sys.Runtime.{
  Bytes, Run, ◌>>=◌, ◌>>◌, pure, exit, abort, defined, or_abort, out_of_fuel, socket_read,
  read_file,
}
use secure_file_transfer_sys.Library.{Library}
use secure_file_transfer_sys.Request.{
  Request, new_request, set_client_id, set_code, set_payload_size, append_string_payload,
  send_to_server, clear_payload, restart_failures,
}
use secure_file_transfer_sys.Answer.{Answer, get_code, get_header_from_server, read_client_id}
use secure_file_transfer_sys.ClientOb.{
  Client, new_client, set_client_name, set_file_name, set_path, set_private_key,
}
use secure_file_transfer_sys.ClientOb
use secure_file_transfer_sys.Various.{
  find_file_name, getline, read_priv_key, transfer_info, me_info, file_by_path,
}
use secure_file_transfer_sys.Various.Hex.{convert_hex_to_bytes}
use secure_file_transfer_sys.Session.Finish.{general_error_handle, send_file}
use secure_file_transfer_sys.Session.Keys.{get_aes_key_from_server, send_public_key_get_aes}

-- `find(c)`: the first position of a character.
unfoldable pub find_char : ℕ → Bytes → Option ℕ
find_char c [] = none
find_char c (x ∷ xs) = elim (find_char c xs) [
  | none ↦ if x == c then some 0 else none
  | some i ↦ if x == c then some 0 else some (suc i)
]

-- The address and the port around the first colon, which is 58; without one, each is the whole
-- line, since `substr(0, npos)` and `substr(npos + 1)` are.
unfoldable pub split_details : Bytes → Bytes × Bytes
split_details details = elim (find_char 58 details) [
  | none ↦ (details, details)
  | some index ↦ (take index details, drop (index + 1) details)
]

-- `connect` and `resolve` throw, and nobody catches.
unfoldable pub connect : Bytes → Bytes → Run (Unit {0})
connect ip_address port w = if w.reachable ip_address port then pure tt w else abort w

unfoldable pub read_transfer : Client → Run Client
read_transfer client = do
  transfer ← file_by_path transfer_info
  let (connection_details, after_details) = getline transfer
  let (client_name, after_name) = getline after_details
  if ltb name_of_client_max_size (length client_name) then exit else do
    let named = set_client_name client_name client
    let path_to_file = (getline after_name).0
    let file_name = find_file_name path_to_file
    if length file_name == file_name_size then exit else do
      with_file ← set_file_name file_name named
      let (ip_address, port) = split_details connection_details
      connect ip_address port
      pure (set_path path_to_file with_file)

module _ (lib : Library) where
  -- What follows once the server has registered the client.
  unfoldable pub after_registering : Client → Run (Unit {0})
  after_registering client = do
    id ← read_client_id
    identified ← ClientOb.set_client_id id client
    with_key ← send_public_key_get_aes lib max_tries identified new_request
    send_file lib max_tries with_key new_request

  unfoldable pub registering_request : Client → Request → Option Request
  registering_request client request = elim (set_client_id (replicate 32 0) request) [
    | none ↦ none
    | some r ↦ some (
        append_string_payload client.name_client name_of_client_size
          (set_payload_size lib (pos name_of_client_size) (set_code lib (pos registering_825) r)))
  ]

  unfoldable pub registering : ℕ → Client → Request → Run (Unit {0})
  registering zero client request = out_of_fuel
  registering (suc fuel) client request = do
    filled ← defined (registering_request client request)
    send_to_server filled
    answer ← get_header_from_server lib
    let again = λ (r : Request). registering fuel client r
    if get_code answer == general_error_1607 || get_code answer == registering_failed_1601
        then (do
          (code, failed) ← general_error_handle filled
          if code == try_again then again (clear_payload failed) else after_registering client)
        else if not (get_code answer == registering_done_1600)
        then exit
        else after_registering client

  -- The client and the request of a reconnection, from "priv.key" and "me.info".
  unfoldable pub prepare_reconnection : Client → Request → Run (Client × Request)
  prepare_reconnection client request = do
    key ← read_priv_key lib
    let keyed = set_private_key key client
    me ← read_file me_info
    let content : Bytes = elim me [ none ↦ [] | some text ↦ text ]
    let (client_name, after_name) = getline content
    if not (bytes_eq keyed.name_client client_name) then exit else do
      let client_id_hex = (getline after_name).0
      identified ← ClientOb.set_client_id (convert_hex_to_bytes client_id_hex) keyed
      r ← defined (set_client_id identified.client_id request)
      pure (
        identified,
        append_string_payload identified.name_client name_of_client_size
            (set_payload_size lib (pos name_of_client_size) (set_code lib (pos reconnect_827) r)),
      )

  unfoldable pub after_reconnection : Client → Answer → Run (ℕ × Client × Request)
  after_reconnection client answer = do
    with_key ← get_aes_key_from_server client answer
    send_file lib max_tries with_key new_request
    pure (valid_reconnect_1605, with_key, new_request)

  -- Returns the answer's code, the client and the request. The request counts only after 1606.
  unfoldable pub reconnection : ℕ → Client → Request → Run (ℕ × Client × Request)
  reconnection zero client request = out_of_fuel
  reconnection (suc fuel) client request = do
    (identified, filled) ← prepare_reconnection client request
    send_to_server filled
    answer ← get_header_from_server lib
    let again = λ (r : Request). reconnection fuel identified r
    if get_code answer == general_error_1607
        then (do
          (code, failed) ← general_error_handle filled
          if code == try_again
              then again (clear_payload failed)
              else after_reconnection identified answer)
        else if get_code answer == invalid_reconnect_1606
        then (do
          received ← socket_read client_id_size
          ignored ← or_abort received
          pure (get_code answer, identified, restart_failures (clear_payload filled)))
        else if not (get_code answer == valid_reconnect_1605)
        then exit
        else after_reconnection identified answer

  abbrev is_some : Option Bytes → Bool
  is_some none = false
  is_some (some content) = true

  -- `main`: the file "me.info" decides, and a refused reconnection goes on to register.
  unfoldable pub main : Run (Unit {0})
  main = do
    client ← read_transfer new_client
    me ← read_file me_info
    if is_some me
        then (do
          (answer, known, request) ← reconnection max_tries client new_request
          if answer == invalid_reconnect_1606 then registering max_tries known request else pure tt)
        else registering max_tries client new_request
