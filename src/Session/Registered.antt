-- ===== src/Session/Registered.antt =====
-- Client/client.cpp: a whole registration, from `registering` to the thanks of the server.
use secure_file_transfer_sys.Base.{
  ℕ, suc, ◌+◌, ◌*◌, ◌/◌, ◌^◌, ◌<◌, ◌≤◌, ◌≡◌, refl, sym, ap, ◌∙◌, arith, true, false, some, List, [],
  ◌∷◌, ◌++◌, append_assoc, replicate, length, bytes_eq,
}
use secure_file_transfer_sys.Runtime.{Bytes, World, done}
use secure_file_transfer_sys.Runtime.Laws.{reading}
use secure_file_transfer_sys.Library.{Library, BoostLaws}
use secure_file_transfer_sys.Wire.{text_field, request_bytes}
use secure_file_transfer_sys.Wrappers.{aes_iv}
use secure_file_transfer_sys.Request.{Request, new_request, message}
use secure_file_transfer_sys.Request.Layout.{IsShaped, new_request-IsShaped}
use secure_file_transfer_sys.Answer.{get_code, read_client_id}
use secure_file_transfer_sys.Answer.Checks.{read_or_exit_lem}
use secure_file_transfer_sys.Answer.Fields.{header_bytes, get_header_from_server_lem}
use secure_file_transfer_sys.ClientOb.{Client}
use secure_file_transfer_sys.ClientOb
use secure_file_transfer_sys.Cksum.Value.{checksum}
use secure_file_transfer_sys.Various.{me_info, priv_key}
use secure_file_transfer_sys.Session.Packets.Pieces.{IsCut, join}
use secure_file_transfer_sys.Session.Packets.Loop.{Writes, sending, send_to_server_lem}
use secure_file_transfer_sys.Session.Finish.Crc.{IsKnown, crc_answer}
use secure_file_transfer_sys.Session.Connect.{after_registering, registering}
use secure_file_transfer_sys.Session.Registration.{registering_request-message}
use secure_file_transfer_sys.Session.Round.{IsReady, round_messages}
use secure_file_transfer_sys.Session.Success.{thanks, send_file-success}
use secure_file_transfer_sys.Session.KeyExchange.{
  keyed_of, storing, key_message, send_public_key_get_aes_lem,
}

abbrev pub identified_of : Client → Bytes → Client
identified_of client id = record client { client_id = id }

-- A client, a world and a server's choices with which nothing goes wrong. The server encrypts the
-- AES key `aes` as `sealed`, for the private key that the client makes next.
pub record CanRegister (lib : Library) (client : Client) (w : World)
    (id sealed file encrypted : Bytes) : Type 0 where
  pub known : IsKnown (identified_of client id)
  pub name_fits : length client.name_client ≤ 255
  pub writes : Writes w
  pub me_info_writable : w.writable me_info ≡ true
  pub priv_key_writable : w.writable priv_key ≡ true
  pub not_me_info : bytes_eq me_info client.path_to_file ≡ false
  pub not_priv_key : bytes_eq priv_key client.path_to_file ≡ false
  pub on_disk : w.files client.path_to_file ≡ some file
  pub key : Bytes
  pub aes : Bytes
  pub loads : lib.rsa_private_load (lib.rsa_generate w.keys_made) ≡ some key
  pub opens : lib.rsa_decrypt key sealed ≡ some aes
  pub aes_size : length aes ≡ 32
  pub file_fits : length file < 2 ^ 31
  pub is_encrypted : lib.aes_cbc_encrypt aes aes_iv file ≡ encrypted
  pub fits : length encrypted ≤ 4096 * 65535
  pub sealed_fits : 16 + length sealed < 2 ^ 31

-- What the server sends after the header of its first answer.
abbrev pub good_conversation : Client → Bytes → Bytes → Bytes → Bytes → ℕ → ℕ → Bytes → Bytes
good_conversation client id sealed file encrypted size thanks_size rest =
    id
    ++ (header_bytes 3 1602 (16 + length sealed)
        ++ (id
            ++ (sealed
                ++ crc_answer size (identified_of client id) (length encrypted) (checksum file)
                    (thanks thanks_size (identified_of client id) rest))))

two_sendings : (w : World) (a b : List Bytes) → sending (sending w a) b ≡ sending w (a ++ b)
two_sendings w a b = ap (λ m. record w { outbox = m }) (append_assoc w.outbox a b)

module _ (lib : Library) (laws : BoostLaws lib) (client : Client)
    (id sealed file encrypted : Bytes) where
  -- The client that sends the file.
  abbrev ready_client : World → Client
  ready_client w = record (keyed_of lib (identified_of client id) w) { encrypted_aes = sealed }

  ready :
      (w w' : World)
      → CanRegister lib client w id sealed file encrypted
      → w'.files ≡ (storing lib (identified_of client id) w).files
      → Writes w'
      → IsReady lib (ready_client w) new_request w' file encrypted
  unfolding new_request
  ready w w' can files writes = record {
    encrypts = record {
      key = can.key;
      aes = can.aes;
      on_disk =
          ap (λ f. f client.path_to_file) files
          ∙ rw (can.not_priv_key, can.not_me_info) can.on_disk;
      loads = can.loads;
      opens = can.opens;
      aes_size = can.aes_size;
      file_fits = can.file_fits;
      is_encrypted = can.is_encrypted;
    };
    known = record {
      id_size = can.known.id_size;
      id_no_null = can.known.id_no_null;
      name_no_null = can.known.name_no_null;
      name_size = can.known.name_size;
    };
    shaped = new_request-IsShaped;
    empty = refl;
    fits = can.fits;
    writes = writes;
  }

  same_id :
      (w : World)
      → length id ≡ 16
      → ClientOb.set_client_id id client w ≡ (done (identified_of client id), w)
  unfolding ClientOb.set_client_id
  same_id w e = rw e refl

  read_client_id_lem :
      (rest : Bytes) (w : World)
      → length id ≡ 16
      → w.inbox ≡ id ++ rest
      → read_client_id w ≡ (done id, reading w rest)
  unfolding read_client_id
  read_client_id_lem rest w size e = rw (sym size) (read_or_exit_lem id rest w e)

  -- What the client has read and sent does not matter.
  at_world :
      (w : World) {inbox : Bytes} {outbox : List Bytes}
      → CanRegister lib client w id sealed file encrypted
      → CanRegister lib client
          (record w { inbox = inbox; outbox = outbox })
          id
          sealed
          file
          encrypted
  at_world w can = record {
    known = can.known;
    name_fits = can.name_fits;
    writes = can.writes;
    me_info_writable = can.me_info_writable;
    priv_key_writable = can.priv_key_writable;
    not_me_info = can.not_me_info;
    not_priv_key = can.not_priv_key;
    on_disk = can.on_disk;
    key = can.key;
    aes = can.aes;
    loads = can.loads;
    opens = can.opens;
    aes_size = can.aes_size;
    file_fits = can.file_fits;
    is_encrypted = can.is_encrypted;
    fits = can.fits;
    sealed_fits = can.sealed_fits;
  }

  after_registering_lem :
      (size thanks_size : ℕ) (rest : Bytes) (w : World)
      → CanRegister lib client w id sealed file encrypted
      → size < 2 ^ 31
      → thanks_size < 2 ^ 31
      → w.inbox ≡ good_conversation client id sealed file encrypted size thanks_size rest
      → (cut : List Bytes) × (join cut ≡ encrypted)
        × IsCut cut
        × (length cut ≡ (length encrypted + 4095) / 4096)
        × (after_registering lib client w ≡ (
          done tt,
          sending (reading (storing lib (identified_of client id) w) rest) (
              key_message lib (identified_of client id) w
              ∷ round_messages (identified_of client id) file encrypted (checksum file) 0 cut),
        ))
  unfolding after_registering
  after_registering_lem size thanks_size rest w can small small' e =
      let c : Client = identified_of client id in
      let after_keys =
        crc_answer size c (length encrypted) (checksum file) (thanks thanks_size c rest) in
      let after_id = header_bytes 3 1602 (16 + length sealed) ++ (id ++ (sealed ++ after_keys)) in
      let w₁ : World = reading w after_id in
      let w₂ : World = sending (reading (storing lib c w) after_keys) (key_message lib c w ∷ []) in
      let (cut, joined, is_cut, count, sent) =
        send_file-success lib laws 3 size thanks_size (ready_client w) new_request file encrypted
          rest w₂ (ready w w₂ can refl can.writes) small small' refl in
      (
        cut,
        joined,
        is_cut,
        count,
        rw
            (
              read_client_id_lem after_id w can.known.id_size e,
              same_id w₁ can.known.id_size,
              send_public_key_get_aes_lem lib laws 3 c new_request sealed after_keys w₁ can.known
                  can.name_fits new_request-IsShaped (unfold new_request in refl) can.writes
                  can.me_info_writable can.priv_key_writable can.sealed_fits refl,
              sent,
            )
            (unfold new_request in
              ap (λ x. (done tt, x))
                (two_sendings (reading (storing lib c w) rest) (key_message lib c w ∷ [])
                  (round_messages c file encrypted (checksum file) 0 cut))),
      )

  -- Under the laws of Boost.Endian, for a client, a world and a server with which nothing goes wrong,
  -- where the server answers a registration, the key and the file: `registering` returns, it has read
  -- exactly these answers and stored the key with the name and the ID, and it has sent the
  -- registration, the public key, the encrypted file in packets, and the request of the code 900.
  pub registering-success :
      (fuel size thanks_size : ℕ) (r : Request) (rest : Bytes) (w : World)
      → CanRegister lib client w id sealed file encrypted
      → IsShaped r
      → r.payload ≡ []
      → size < 2 ^ 31
      → thanks_size < 2 ^ 31
      → w.inbox
        ≡ header_bytes 3 1600 16
          ++ good_conversation client id sealed file encrypted size thanks_size rest
      → (cut : List Bytes) × (join cut ≡ encrypted)
        × IsCut cut
        × (length cut ≡ (length encrypted + 4095) / 4096)
        × (registering lib (suc fuel) client r w ≡ (
          done tt,
          sending (reading (storing lib (identified_of client id) w) rest) (
              request_bytes (replicate 16 0) 825 (text_field client.name_client)
              ∷ key_message lib (identified_of client id) w
              ∷ round_messages (identified_of client id) file encrypted (checksum file) 0 cut),
        ))
  unfolding registering get_code
  registering-success fuel size thanks_size r rest w can shaped empty small small' e =
      let c : Client = identified_of client id in
      let answers = good_conversation client id sealed file encrypted size thanks_size rest in
      let (filled, request, laid_out, kept) =
        registering_request-message lib laws client r can.name_fits shaped empty in
      let w₁ : World = sending w (message filled ∷ []) in
      let (cut, joined, is_cut, count, after) =
        after_registering_lem size thanks_size rest (reading w₁ answers) (at_world w can) small
          small' refl in
      let kept_world : World = reading (storing lib c w) rest in
      let later = key_message lib c w ∷ round_messages c file encrypted (checksum file) 0 cut in
      (
        cut,
        joined,
        is_cut,
        count,
        rw
            (
              request,
              send_to_server_lem filled w can.writes,
              get_header_from_server_lem lib laws 1600 16 answers w₁ (omega arith) (omega arith) e,
              after,
            )
            (ap (λ m. (done tt, sending (sending kept_world (m ∷ [])) later)) laid_out
              ∙ ap (λ x. (done tt, x))
                  (two_sendings kept_world
                    (request_bytes (replicate 16 0) 825 (text_field client.name_client) ∷ [])
                    later)),
      )
