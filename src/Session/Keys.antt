-- ===== src/Session/Keys.antt =====
-- Client/client.cpp: `get_aes_key_from_server` and `send_public_key_get_aes`.
use secure_file_transfer_sys.Base.{ℕ, zero, suc, ◌+◌, not, ◌==◌, if◌then◌else◌, length}
use secure_file_transfer_sys.Base.Int.{pos}
use secure_file_transfer_sys.Global.{
  try_again, client_id_size, name_of_client_size, general_error_1607, get_public_key_send_aes_1602,
  send_public_key_826,
}
use secure_file_transfer_sys.Runtime.{Run, ◌>>=◌, ◌>>◌, pure, exit, defined, out_of_fuel}
use secure_file_transfer_sys.Library.{Library}
use secure_file_transfer_sys.Wrappers.{new_rsa_private, get_private_key, get_public_key}
use secure_file_transfer_sys.Request.{
  Request, set_client_id, set_code, set_payload_size, append_string_payload, send_to_server,
  clear_payload,
}
use secure_file_transfer_sys.Answer.{
  Answer, get_code, get_header_from_server, read_string_and_check, get_encrypted_aes,
}
use secure_file_transfer_sys.ClientOb.{Client, set_private_key, set_encrypted_aes}
use secure_file_transfer_sys.Various.{create_me_info, create_priv_key_file}
use secure_file_transfer_sys.Session.Finish.{general_error_handle}

unfoldable pub get_aes_key_from_server : Client → Answer → Run Client
get_aes_key_from_server client answer = do
  read_string_and_check client.client_id client_id_size
  aes ← get_encrypted_aes answer
  pure (set_encrypted_aes aes client)

module _ (lib : Library) where
  -- The first half: new keys, the two files, and the request that is sent.
  unfoldable pub send_public_key : Client → Request → Run (Client × Request)
  send_public_key client request = do
    priv_key_ob ← new_rsa_private lib
    let keyed = set_private_key (get_private_key lib priv_key_ob) client
    create_me_info lib keyed.name_client keyed.priv_key keyed.client_id
    create_priv_key_file lib keyed.priv_key
    let public_key = get_public_key lib priv_key_ob
    identified ← defined (set_client_id keyed.client_id request)
    let sized =
        set_payload_size lib (pos (name_of_client_size + length public_key))
          (set_code lib (pos send_public_key_826) identified)
    let filled =
        append_string_payload public_key (length public_key)
          (append_string_payload keyed.name_client name_of_client_size sized)
    send_to_server filled
    pure (keyed, filled)

  unfoldable pub send_public_key_get_aes : ℕ → Client → Request → Run Client
  send_public_key_get_aes zero client request = out_of_fuel
  send_public_key_get_aes (suc fuel) client request = do
    (keyed, filled) ← send_public_key client request
    answer ← get_header_from_server lib
    let again = λ (r : Request). send_public_key_get_aes fuel keyed r
    if get_code answer == general_error_1607
        then (do
          (code, failed) ← general_error_handle filled
          if code == try_again
              then again (clear_payload failed)
              else get_aes_key_from_server keyed answer)
        else if not (get_code answer == get_public_key_send_aes_1602)
        then exit
        else get_aes_key_from_server keyed answer
