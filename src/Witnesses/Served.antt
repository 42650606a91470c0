-- ===== src/Witnesses/Served.antt =====
-- The theorems on the server, applied at a concrete server and client.
use secure_file_transfer_sys.Base.{
  ℕ, ◌-◌, ◌≡◌, refl, arith, true, false, none, some, List, [], ◌∷◌, ◌++◌, length, replicate, take,
  length, ◌%◌,
}
use secure_file_transfer_sys.Runtime.{Bytes, World, done}
use secure_file_transfer_sys.Example.{toy, toy-BoostLaws, pad_16, id_1, file_path, world}
use secure_file_transfer_sys.Witnesses.Runs.{plain, world-CanRegister, world-Configures}
use secure_file_transfer_sys.Various.{find_file_name, find_last_of}
use secure_file_transfer_sys.Session.Connect.{main}
use secure_file_transfer_sys.Server.Runtime.{PyLibrary, State, returned}
use secure_file_transfer_sys.Server.Text.{is_utf8, is_utf8_from}
use secure_file_transfer_sys.Server.Registry.{find, find_name, find_id}
use secure_file_transfer_sys.Server.Tables.{has_client_row, has_file_row}
use secure_file_transfer_sys.Server.Connection.Exchange.{IsName, arriving, get_header_lem}
use secure_file_transfer_sys.Server.Loop.{serve, read}
use secure_file_transfer_sys.Server.Loop.Verdict.{Keeps}
use secure_file_transfer_sys.Server.Loop.Session.{
  Welcomes, server_answers, client_messages, serve-session,
}
use secure_file_transfer_sys.Wire.{request_bytes}
use secure_file_transfer_sys.Cksum
use secure_file_transfer_sys.Server.Checksum
use secure_file_transfer_sys.Server.Checksum.Same.{memcrc-memcrc}
use secure_file_transfer_sys.Server.Header.{get_header}
use secure_file_transfer_sys.Server.Keys.Sealing.{seen}
use secure_file_transfer_sys.Server.Requests.Answers.{fresh}
use secure_file_transfer_sys.Server.Loop.Reading.{refusing}
use secure_file_transfer_sys.Server.Loop.Joining.{registration_message, joined, read-taken}
use secure_file_transfer_sys.Wrappers.Buffers.{generate_key}
use secure_file_transfer_sys.Wrappers.Buffers.Keys.{words, drew_times, generate_key_lem}
use secure_file_transfer_sys.System.{main-served}

abbrev last : Bytes → ℕ
last [] = 0
last (c ∷ []) = c
last (c ∷ d ∷ rest) = last (d ∷ rest)

abbrev pub python : PyLibrary
python = record {
  uuid4 = λ k. id_1;
  now = λ k. 48 ∷ [];
  get_random_bytes = λ k. replicate 32 9;
  import_key = λ key. some key;
  oaep_encrypt = λ k key text. some text;
  cbc_decrypt = λ key iv text. some text;
  unpad = λ text size. some (take (length text - last text) text);
}

abbrev pub empty_server : State
empty_server = record {
  clients_list = [];
  clients_table = [];
  files_table = [];
  has_data_base = true;
  disk = λ path. none;
  folders = λ path. false;
  can_write = λ path. true;
  can_make = λ path. true;
  ids_made = 0;
  readings = 0;
  draws = 0;
  arrived = [];
  closed = false;
  blocking = false;
  sent = [];
  send_breaks = λ k. none;
}

pub text_ab-IsName : IsName (97 ∷ 98 ∷ [])
unfolding is_utf8 is_utf8_from
text_ab-IsName = record {
  size = omega arith;
  utf8 = refl;
  no_null = (ground arith, (ground arith, tt));
}

text_d-IsName : IsName (find_file_name file_path)
unfolding is_utf8 is_utf8_from find_file_name find_last_of
text_d-IsName = record { size = omega arith; utf8 = refl; no_null = (ground arith, tt) }

empty_server-Welcomes :
    Welcomes python empty_server
      (97 ∷ 98 ∷ [])
      (find_file_name file_path)
      (49 ∷ (48 ∷ 130 ∷ 0 ∷ replicate 156 0))
      (replicate 32 9)
      (pad_16 plain)
      plain
unfolding find_name find_id find has_client_row has_file_row
empty_server-Welcomes = record {
  admits = record {
    free = refl;
    new_id = refl;
    no_folder = refl;
    no_file = refl;
    can_make = refl;
    sends = λ n. refl;
  };
  new_id = refl;
  id_size = refl;
  no_row = refl;
  can = refl;
  key_size = refl;
  seals = record {
    rsa_key = 49 ∷ (48 ∷ 130 ∷ 0 ∷ replicate 156 0);
    imports = refl;
    encrypts = refl;
    fits = omega arith;
    sends = λ n. refl;
  };
  opens = record { padded = pad_16 plain; decrypts = refl; unpads = refl };
  nothing_else = refl;
}

abbrev served_world : World
served_world = world (server_answers id_1 (replicate 32 9) (find_file_name file_path) 16 plain)

main-served_example :
    (messages : List Bytes) × (s' : State) × ((main toy served_world).0 ≡ done tt)
    × ((main toy served_world).1.outbox ≡ served_world.outbox ++ messages)
    × ((main toy served_world).1.inbox ≡ [])
    × (serve python messages empty_server ≡ (returned tt, s'))
    × (s'.sent ≡ empty_server.sent ++ served_world.inbox)
    × Keeps id_1 (find_file_name file_path) plain s'
main-served_example =
    main-served toy toy-BoostLaws python served_world empty_server (49 ∷ []) (50 ∷ [])
      (97 ∷ 98 ∷ []) file_path (replicate 32 9) plain (pad_16 plain) (world-Configures _) refl
      (world-CanRegister _) text_ab-IsName text_d-IsName empty_server-Welcomes (omega arith) refl

memcrc-memcrc_example : Cksum.memcrc (1 ∷ 2 ∷ 3 ∷ []) ≡ some (Checksum.memcrc (1 ∷ 2 ∷ 3 ∷ []))
memcrc-memcrc_example = memcrc-memcrc (1 ∷ 2 ∷ 3 ∷ []) (omega arith)

serve-session_example :
    (s' : State) × Keeps id_1 (100 ∷ []) plain s'
    × (s'.sent ≡ empty_server.sent ++ server_answers id_1 (replicate 32 9) (100 ∷ []) 16 plain)
    × (serve python
          (client_messages id_1
            (97 ∷ 98 ∷ [])
            (100 ∷ [])
            (49 ∷ (48 ∷ 130 ∷ 0 ∷ replicate 156 0))
            16
            3
            (pad_16 plain ∷ []))
          empty_server
        ≡ (returned tt, s'))
unfolding find_file_name find_last_of
serve-session_example =
    serve-session python (97 ∷ 98 ∷ []) (100 ∷ []) (49 ∷ (48 ∷ 130 ∷ 0 ∷ replicate 156 0))
      (replicate 32 9) (pad_16 plain) plain empty_server text_ab-IsName text_d-IsName
      empty_server-Welcomes 16 (pad_16 plain ∷ []) (omega arith) (omega arith) (omega arith)
      (omega arith) ((omega arith, omega arith), tt) refl

get_header_example : get_header (arriving empty_server (request_bytes id_1 828 (7 ∷ []))) ≡ (
  returned (some (record { client_id = id_1; version = 3; code = 828; payload_size = 1 })),
  arriving empty_server (7 ∷ []),
)
get_header_example =
    get_header_lem id_1 3 828 1 (7 ∷ []) (arriving empty_server (request_bytes id_1 828 (7 ∷ [])))
      refl (omega arith) (omega arith) (omega arith) refl

abbrev pub known : State
known = joined python (97 ∷ 98 ∷ []) empty_server

read-taken_example :
    read python (record known { arrived = known.arrived ++ registration_message (97 ∷ 98 ∷ []) })
    ≡ (returned true, refusing 1601 (seen python 0 id_1 known))
unfolding find_name find
read-taken_example =
    read-taken python (97 ∷ 98 ∷ []) 0 (fresh python (97 ∷ 98 ∷ []) empty_server) known
      text_ab-IsName refl refl (λ n. refl) refl

generate_key_example :
    generate_key toy (replicate 8 0) 8 (world [])
    ≡ (done (words (λ k. k % 256 ∷ 1 ∷ 2 ∷ 3 ∷ []) 0 2), drew_times 2 (world []))
generate_key_example =
    generate_key_lem toy (λ k. k % 256 ∷ 1 ∷ 2 ∷ 3 ∷ []) (λ k. refl) (λ k. refl) 2 (replicate 8 0)
      (world []) refl
