-- ===== src/Session/KeyExchange.antt =====
-- Client/client.cpp: `send_public_key_get_aes`, where the server answers with an AES key.
use secure_file_transfer_sys.Base.{
  ℕ, suc, ◌+◌, ◌-◌, ◌^◌, ◌<◌, ◌≤◌, ◌≡◌, refl, ap, ◌∙◌, arith, true, [], ◌∷◌, ◌++◌, append-nil,
  replicate, length, length-append,
}
use secure_file_transfer_sys.Base.Int.{pos, ◌-ℤ◌}
use secure_file_transfer_sys.Runtime.{Bytes, World, done, update, write_file}
use secure_file_transfer_sys.Runtime.Laws.{reading}
use secure_file_transfer_sys.Library.{Library, BoostLaws}
use secure_file_transfer_sys.Wire.{u16_bytes, u32_bytes, text_field, request_bytes}
use secure_file_transfer_sys.Wrappers.{new_rsa_private, get_private_key, get_public_key, encode}
use secure_file_transfer_sys.Request.{Request, message, append_string_payload}
use secure_file_transfer_sys.Request.Layout.{IsShaped, set_client_id_lem, message_lem}
use secure_file_transfer_sys.Request.Fields.{set_code_lem, set_payload_size_lem}
use secure_file_transfer_sys.Answer.{Answer, get_code, get_encrypted_aes}
use secure_file_transfer_sys.Answer.Checks.{read_or_exit_lem}
use secure_file_transfer_sys.Answer.Fields.{header_bytes, get_header_from_server_lem}
use secure_file_transfer_sys.ClientOb.{Client, set_private_key, set_encrypted_aes}
use secure_file_transfer_sys.Various.{me_info, priv_key, create_me_info, create_priv_key_file}
use secure_file_transfer_sys.Various.Hex.{convert_string_to_hex}
use secure_file_transfer_sys.Session.Packets.Loop.{Writes, sending, send_to_server_lem}
use secure_file_transfer_sys.Session.Finish.Crc.{IsKnown, check_id}
use secure_file_transfer_sys.Session.Registration.{length-text_field}
use secure_file_transfer_sys.Session.Keys.{
  get_aes_key_from_server, send_public_key, send_public_key_get_aes,
}

-- The client with the key that it makes next, and the world with that key in its two files.
abbrev pub keyed_of : Library → Client → World → Client
keyed_of lib client w = record client { priv_key = lib.rsa_generate w.keys_made }

abbrev pub storing : Library → Client → World → World
storing lib client w =
    let key = lib.base64_encode (lib.rsa_generate w.keys_made) in
    record w {
      keys_made = w.keys_made + 1;
      files =
          update
            (update w.files me_info (
              client.name_client
              ++ (10 ∷ (convert_string_to_hex client.client_id ++ (10 ∷ (key ++ (10 ∷ [])))))))
            priv_key (key ++ 10 ∷ []);
    }

abbrev pub key_request_of : Library → Client → World → Request → Request
key_request_of lib client w r =
    let public = lib.rsa_public_of (lib.rsa_generate w.keys_made) in
    record r {
      client_id = client.client_id;
      code = u16_bytes 826;
      payload_size = u32_bytes (255 + length public);
      payload =
          (r.payload ++ text_field client.name_client)
          ++ (public ++ replicate (length public - length public) 0);
    }

-- The message with the public key, as the protocol lays it out.
abbrev pub key_message : Library → Client → World → Bytes
key_message lib client w =
    request_bytes client.client_id 826
      (text_field client.name_client ++ lib.rsa_public_of (lib.rsa_generate w.keys_made))

not_padded : (text : Bytes) → text ++ replicate (length text - length text) 0 ≡ text
not_padded text =
    ap (λ n. text ++ replicate n 0) {x = length text - length text} {y = 0} (omega arith)
    ∙ append-nil text

key_request_of-message :
    (lib : Library) (client : Client) (w : World) (r : Request)
    → length client.client_id ≡ 16
    → length client.name_client ≤ 255
    → IsShaped r
    → r.payload ≡ []
    → message (key_request_of lib client w r) ≡ key_message lib client w
key_request_of-message lib client w r id_size fits s empty =
    let public = lib.rsa_public_of (lib.rsa_generate w.keys_made) in
    let name = text_field client.name_client in
    let laid_out : ℕ → Bytes → Bytes =
      λ n p. client.client_id ++ (3 ∷ (u16_bytes 826 ++ (u32_bytes n ++ p))) in
    message_lem (key_request_of lib client w r)
      (record { id_size = id_size; is_version = s.is_version; code_size = refl; size_size = refl })
    ∙ ap
        (λ p.
          laid_out (255 + length public)
            ((p ++ name) ++ (public ++ replicate (length public - length public) 0)))
        empty
    ∙ ap (λ p. laid_out (255 + length public) (name ++ p)) (not_padded public)
    ∙ ap (λ n. laid_out n (name ++ public))
        (omega (arith, length-append name public, length-text_field client.name_client fits))

after_id_size : (n : ℕ) → pos (16 + n) -ℤ pos 16 ≡ pos n
unfolding ◌-ℤ◌
after_id_size n = ground arith

get_encrypted_aes_lem :
    (aes rest : Bytes) (a : Answer) (w : World)
    → a.payload_size ≡ pos (16 + length aes)
    → w.inbox ≡ aes ++ rest
    → get_encrypted_aes a w ≡ (done aes, reading w rest)
unfolding get_encrypted_aes
get_encrypted_aes_lem aes rest a w size e =
    rw (size, after_id_size (length aes), read_or_exit_lem aes rest w e) refl

module _ (lib : Library) where
  new_rsa_private_lem :
      (w : World)
      → new_rsa_private lib w ≡ (
        done (record { private_key = lib.rsa_generate w.keys_made }),
        record w { keys_made = w.keys_made + 1 },
      )
  unfolding new_rsa_private
  new_rsa_private_lem w = refl

  create_me_info_lem :
      (name key id : Bytes) (w : World)
      → w.writable me_info ≡ true
      → create_me_info lib name key id w ≡ (
        done tt,
        record w {
          files = update w.files me_info (
              name
              ++ (10 ∷ (convert_string_to_hex id ++ (10 ∷ (lib.base64_encode key ++ (10 ∷ []))))));
        },
      )
  unfolding create_me_info write_file encode
  create_me_info_lem name key id w can = rw can refl

  create_priv_key_file_lem :
      (key : Bytes) (w : World)
      → w.writable priv_key ≡ true
      → create_priv_key_file lib key w
        ≡ (done tt, record w { files = update w.files priv_key (lib.base64_encode key ++ 10 ∷ []) })
  unfolding create_priv_key_file write_file encode
  create_priv_key_file_lem key w can = rw can refl

module _ (lib : Library) (laws : BoostLaws lib) where
  send_public_key_lem :
      (client : Client) (r : Request) (w : World)
      → length client.client_id ≡ 16
      → Writes w
      → w.writable me_info ≡ true
      → w.writable priv_key ≡ true
      → send_public_key lib client r w ≡ (
        done (keyed_of lib client w, key_request_of lib client w r),
        sending (storing lib client w) (message (key_request_of lib client w r) ∷ []),
      )
  unfolding send_public_key get_private_key get_public_key set_private_key append_string_payload
  send_public_key_lem client r w id_size writes can can' =
      let key = lib.rsa_generate w.keys_made in
      let w₁ : World = record w { keys_made = w.keys_made + 1 } in
      let w₂ : World = record w₁ {
        files = update w.files me_info (
            client.name_client
            ++ (10
                ∷ (convert_string_to_hex client.client_id
                    ++ (10 ∷ (lib.base64_encode key ++ (10 ∷ []))))));
      } in
      rw
        (
          new_rsa_private_lem lib w,
          create_me_info_lem lib client.name_client key client.client_id w₁ can,
          create_priv_key_file_lem lib key w₂ can',
          set_client_id_lem client.client_id r id_size,
          set_code_lem lib laws,
          set_payload_size_lem lib laws,
          send_to_server_lem (key_request_of lib client w r) (storing lib client w) writes,
        )
        refl

  get_aes_key_from_server_lem :
      (client : Client) (aes rest : Bytes) (a : Answer) (w : World)
      → IsKnown client
      → a.payload_size ≡ pos (16 + length aes)
      → w.inbox ≡ client.client_id ++ (aes ++ rest)
      → get_aes_key_from_server client a w
        ≡ (done (record client { encrypted_aes = aes }), reading w rest)
  unfolding get_aes_key_from_server set_encrypted_aes
  get_aes_key_from_server_lem client aes rest a w known size e =
      rw
        (
          check_id lib laws client known (aes ++ rest) w e,
          get_encrypted_aes_lem aes rest a (reading w (aes ++ rest)) size refl,
        )
        refl

  -- Under the laws of Boost.Endian, for a client with an ID of 16 bytes without a zero, a name of at
  -- most 255 bytes and a file name of at most 255 bytes without a zero, a fresh request, files that can
  -- be written and writes that go through, on an answer 1602 with the ID and a key,
  -- of fewer than 2^31 bytes together:
  -- the client has made one RSA key, stored it with its name and ID, and sent its public half as the
  -- protocol lays it out, and it keeps the private half and the encrypted AES key.
  pub send_public_key_get_aes_lem :
      (fuel : ℕ) (client : Client) (r : Request) (aes rest : Bytes) (w : World)
      → IsKnown client
      → length client.name_client ≤ 255
      → IsShaped r
      → r.payload ≡ []
      → Writes w
      → w.writable me_info ≡ true
      → w.writable priv_key ≡ true
      → 16 + length aes < 2 ^ 31
      → w.inbox ≡ header_bytes 3 1602 (16 + length aes) ++ (client.client_id ++ (aes ++ rest))
      → send_public_key_get_aes lib (suc fuel) client r w ≡ (
        done (record (keyed_of lib client w) { encrypted_aes = aes }),
        sending (reading (storing lib client w) rest) (key_message lib client w ∷ []),
      )
  unfolding send_public_key_get_aes get_code
  send_public_key_get_aes_lem fuel client r aes rest w known fits s empty writes can can' small e =
      let sent : World =
        sending (storing lib client w) (message (key_request_of lib client w r) ∷ []) in
      let body = client.client_id ++ (aes ++ rest) in
      let known' : IsKnown (keyed_of lib client w) = record {
        id_size = known.id_size;
        id_no_null = known.id_no_null;
        name_no_null = known.name_no_null;
        name_size = known.name_size;
      } in
      rw
        (
          send_public_key_lem client r w known.id_size writes can can',
          get_header_from_server_lem lib laws 1602 (16 + length aes) body sent (omega arith) small
              e,
          get_aes_key_from_server_lem (keyed_of lib client w) aes rest
              (record { version_field = 3; code = 1602; payload_size = pos (16 + length aes) })
              (reading sent body) known' refl refl,
          key_request_of-message lib client w r known.id_size fits s empty,
        )
        refl
