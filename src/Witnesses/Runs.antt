-- ===== src/Witnesses/Runs.antt =====
-- The theorems on whole runs and rounds, applied at concrete inputs where their hypotheses hold.
use secure_file_transfer_sys.Session.Stored.{prepare_reconnection-storing}
use secure_file_transfer_sys.Session.Connect.{prepare_reconnection, main}
use secure_file_transfer_sys.Example.{
  toy-Base64Laws, file_request-IsShaped, known_client-IsKnown, file_path, file_request,
  id_1-HasNoNull, known_client, toy, toy-BoostLaws, id_1, world, pad_16,
}
use secure_file_transfer_sys.Runtime.Laws.{reading}
use secure_file_transfer_sys.Session.Finish.Crc.{
  count_failure, IsKnown, crc_answer, finish_request_of, verdict,
}
use secure_file_transfer_sys.Base.{
  ◌==◌, if◌then◌else◌, ◌/◌, ◌+◌, ◌≡◌, refl, arith, List, [], ◌∷◌, ◌++◌, length, replicate, ◌||◌,
}
use secure_file_transfer_sys.Runtime.{World, Bytes, done}
use secure_file_transfer_sys.Wire.{u16_bytes, u32_bytes, text_field, request_bytes}
use secure_file_transfer_sys.Request.{Request, new_request, clear_payload}
use secure_file_transfer_sys.Answer.Fields.{header_bytes}
use secure_file_transfer_sys.ClientOb.{Client}
use secure_file_transfer_sys.Cksum.Value.{checksum}
use secure_file_transfer_sys.Various.{find_file_name, find_last_of}
use secure_file_transfer_sys.Session.Packets.Pieces.{IsCut, join}
use secure_file_transfer_sys.Session.Packets.Loop.{sending}
use secure_file_transfer_sys.Session.Finish.{send_file, the_end}
use secure_file_transfer_sys.Session.Keys.{send_public_key_get_aes}
use secure_file_transfer_sys.Session.Round.{
  IsReady, summed_of, file_request_of, round_messages, send_file-round,
}
use secure_file_transfer_sys.Session.KeyExchange.{
  keyed_of, storing, key_message, send_public_key_get_aes_lem,
}
use secure_file_transfer_sys.Session.Registered.{CanRegister, identified_of, good_conversation}
use secure_file_transfer_sys.Session.FirstRun.{Configures, configured, main-success}

-- The second CRC that is wrong.
abbrev once_failed : Request
once_failed = record file_request { num_of_failures = 1 }

-- The first run of the client, with the server's good answers.
abbrev pub first_client : Client
first_client = configured (97 ∷ 98 ∷ []) file_path

abbrev pub plain : Bytes
plain = 1 ∷ 2 ∷ 3 ∷ []

abbrev first_world : World
first_world = world (
    header_bytes 3 1600 16
    ++ good_conversation first_client id_1 (replicate 32 9) plain (pad_16 plain) 279 16 [])

first_client-IsKnown : IsKnown (identified_of first_client id_1)
unfolding find_file_name find_last_of
first_client-IsKnown = record {
  id_size = refl;
  id_no_null = id_1-HasNoNull;
  name_no_null = (ground arith, tt);
  name_size = omega arith;
}

pub world-CanRegister :
    (inbox : Bytes)
    → CanRegister toy first_client (world inbox) id_1 (replicate 32 9) plain (pad_16 plain)
world-CanRegister inbox = record {
  known = first_client-IsKnown;
  name_fits = omega arith;
  writes = λ k. refl;
  me_info_writable = refl;
  priv_key_writable = refl;
  not_me_info = refl;
  not_priv_key = refl;
  on_disk = refl;
  key = 48 ∷ 130 ∷ 0 ∷ [];
  aes = replicate 32 9;
  loads = refl;
  opens = refl;
  aes_size = refl;
  file_fits = omega arith;
  is_encrypted = refl;
  fits = omega arith;
  sealed_fits = omega arith;
}

pub world-Configures :
    (inbox : Bytes) → Configures (world inbox) (49 ∷ []) (50 ∷ []) (97 ∷ 98 ∷ []) file_path
unfolding find_file_name find_last_of
world-Configures inbox = record {
  text = refl;
  address_line = ground arith;
  name_line = ground arith;
  path_line = ground arith;
  address_free = ground arith;
  name_fits = omega arith;
  file_name_fits = omega arith;
  file_name_free = (ground arith, tt);
  reachable = refl;
}

main-success_example :
    (cut : List Bytes) × (join cut ≡ pad_16 plain)
    × IsCut cut
    × (length cut ≡ (length (pad_16 plain) + 4095) / 4096)
    × (main toy first_world ≡ (
      done tt,
      sending (reading (storing toy (identified_of first_client id_1) first_world) []) (
          request_bytes (replicate 16 0) 825 (text_field (97 ∷ 98 ∷ []))
          ∷ key_message toy (identified_of first_client id_1) first_world
          ∷ round_messages
              (identified_of first_client id_1)
              plain
              (pad_16 plain)
              (checksum plain)
              0
              cut),
    ))
main-success_example =
    main-success toy toy-BoostLaws first_world (49 ∷ []) (50 ∷ []) (97 ∷ 98 ∷ []) file_path id_1
      (replicate 32 9) plain (pad_16 plain) [] 279 16 (world-Configures _) refl
      (world-CanRegister _) (omega arith) (omega arith) refl

send_public_key_get_aes_example :
    send_public_key_get_aes toy 4 known_client file_request
      (world (header_bytes 3 1602 48 ++ (id_1 ++ (replicate 32 9 ++ []))))
    ≡ (
      done (record (keyed_of toy known_client (world [])) { encrypted_aes = replicate 32 9 }),
      sending (storing toy known_client (world [])) (key_message toy known_client (world []) ∷ []),
    )
send_public_key_get_aes_example =
    send_public_key_get_aes_lem toy toy-BoostLaws 3 known_client file_request (replicate 32 9) []
      (world (header_bytes 3 1602 48 ++ (id_1 ++ (replicate 32 9 ++ [])))) known_client-IsKnown
      (omega arith) file_request-IsShaped refl (λ k. refl) refl refl (omega arith) refl

abbrev round_world : World
round_world = world (crc_answer 279 known_client (length (pad_16 plain)) 5 [])

round_world-IsReady : IsReady toy known_client once_failed round_world plain (pad_16 plain)
round_world-IsReady = record {
  encrypts = record {
    key = 48 ∷ [];
    aes = replicate 32 9;
    on_disk = refl;
    loads = refl;
    opens = refl;
    aes_size = refl;
    file_fits = omega arith;
    is_encrypted = refl;
  };
  known = known_client-IsKnown;
  shaped = record { id_size = refl; is_version = refl; code_size = refl; size_size = refl };
  empty = refl;
  fits = omega arith;
  writes = λ k. refl;
}

send_file-round_example :
    (cut : List Bytes) × (payload_size : Bytes) × (join cut ≡ pad_16 plain)
    × IsCut cut
    × (length cut ≡ (length (pad_16 plain) + 4095) / 4096)
    × (let code = verdict (checksum plain) 5 1 in
        let sent = record (file_request_of known_client once_failed) {
          payload_size = payload_size;
          payload = [];
        } in
        send_file toy 4 known_client once_failed round_world
        ≡ (if code == 901 || code == 0
              then send_file toy 3
                  (summed_of known_client plain)
                  (clear_payload (count_failure (checksum plain) 5 sent))
              else the_end toy 4
                  (summed_of known_client plain)
                  code
                  (finish_request_of code known_client new_request))
            (sending
              (reading round_world [])
              (round_messages known_client plain (pad_16 plain) 5 1 cut)))
send_file-round_example =
    send_file-round toy toy-BoostLaws 3 279 5 known_client once_failed plain (pad_16 plain) []
      round_world round_world-IsReady (omega arith) (omega arith) refl

prepare_reconnection_example :
    prepare_reconnection toy
      (record known_client { client_id = [] })
      file_request
      (storing toy known_client (world []))
    ≡ (
      done (
        record known_client { priv_key = 48 ∷ 130 ∷ 0 ∷ [] },
        record file_request {
          client_id = id_1;
          code = u16_bytes 827;
          payload_size = u32_bytes 255;
          payload = text_field (97 ∷ 98 ∷ []);
        },
      ),
      storing toy known_client (world []),
    )
prepare_reconnection_example =
    prepare_reconnection-storing toy toy-BoostLaws toy-Base64Laws known_client
      (record known_client { client_id = [] }) file_request (world []) (ground arith) refl
      (ground arith) refl
