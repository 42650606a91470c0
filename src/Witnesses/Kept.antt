-- ===== src/Witnesses/Kept.antt =====
-- The theorems on the server's state and its refusals, applied at concrete states.
use secure_file_transfer_sys.Base.{
  get_elem?, none, some, ℕ, ◌<◌, ◌≡◌, refl, arith, true, false, [], ◌∷◌, ◌++◌, length, replicate,
  map, All, bytes_eq,
}
use secure_file_transfer_sys.Wire.{text_field}
use secure_file_transfer_sys.Answer.Fields.{header_bytes}
use secure_file_transfer_sys.Example.{id_1, pad_16}
use secure_file_transfer_sys.Witnesses.Served.{python, empty_server, text_ab-IsName, known}
use secure_file_transfer_sys.Server.Runtime.{
  PyLibrary, ServerFile, ServerClient, ClientRow, State, returned,
}
use secure_file_transfer_sys.Server.Tables.{
  row_of, set_valid_crc, without_name, delete_file, has_file_row,
}
use secure_file_transfer_sys.Server.Tables.Reach.{
  rows_of, set_valid_crc-rows_of, delete_file-has_file_row,
}
use secure_file_transfer_sys.Server.Disk.{file_path}
use secure_file_transfer_sys.Server.Registry.{find, find_name, find_id, find_file}
use secure_file_transfer_sys.Server.Connection.Exchange.{arriving, saying, IsName}
use secure_file_transfer_sys.Server.Keys.Sealing.{seen, keyed}
use secure_file_transfer_sys.Server.Requests.{reconnection_request_827}
use secure_file_transfer_sys.Server.Requests.Reconnecting.{reconnection_request_827_lem}
use secure_file_transfer_sys.Witnesses.Runs.{plain}
use secure_file_transfer_sys.Server.Text.{is_utf8, is_utf8_from}
use secure_file_transfer_sys.Server.Verdicts.{crc_response_900_901_902}
use secure_file_transfer_sys.Server.Verdicts.Verified.{crc_response-902}
use secure_file_transfer_sys.Server.Loop.Holding.{Received, packet_messages}
use secure_file_transfer_sys.Server.Loop.Again.{Has, serve-again}
use secure_file_transfer_sys.Server.Loop.{read, serve, data_base_handle}
use secure_file_transfer_sys.Server.Loop.Reading.{request_of, refusing}
use secure_file_transfer_sys.Server.Loop.Refusals.{read-version}
use secure_file_transfer_sys.Server.Loop.Restart.{files_of, data_base_handle_lem}
use secure_file_transfer_sys.Server.Loop.Joining.{registration_message}
use secure_file_transfer_sys.Server.Loop.Consistent.{Consistent}
use secure_file_transfer_sys.Server.Loop.Agree.{serve-Consistent}

read-version_example :
    read python (arriving empty_server (id_1 ++ (4 ∷ 57 ∷ 3 ∷ 0 ∷ 0 ∷ 0 ∷ 0 ∷ []))) ≡ (
      returned true,
      refusing 1607 (arriving empty_server (id_1 ++ (4 ∷ 57 ∷ 3 ∷ 0 ∷ 0 ∷ 0 ∷ 0 ∷ []))),
    )
read-version_example =
    read-version python id_1 4 825 0 []
      (arriving empty_server (id_1 ++ (4 ∷ 57 ∷ 3 ∷ 0 ∷ 0 ∷ 0 ∷ 0 ∷ []))) (λ n. refl) refl
      (omega arith) (ground arith) (omega arith) (omega arith) refl

-- UUIDs that do not repeat.
abbrev counting : PyLibrary
counting = record python { uuid4 = λ k. k ∷ replicate 15 1 }

counting-differ : (j k : ℕ) → j < k → bytes_eq (counting.uuid4 j) (counting.uuid4 k) ≡ false
counting-differ j k less = ground arith

empty_server-Consistent : Consistent counting empty_server
empty_server-Consistent = record {
  same_ids = refl;
  same_names = refl;
  distinct_ids = tt;
  distinct_names = tt;
  made = tt;
}

serve-Consistent_example :
    Consistent counting
      (serve counting (registration_message (97 ∷ []) ∷ (5 ∷ []) ∷ []) empty_server).1
serve-Consistent_example =
    serve-Consistent counting counting-differ (registration_message (97 ∷ []) ∷ (5 ∷ []) ∷ [])
      empty_server empty_server-Consistent

abbrev stored_file : ServerFile
stored_file = record { client_id = id_1; file_name = 100 ∷ []; path = 101 ∷ []; valid_crc = false }

abbrev stored_client : ClientRow
stored_client = record {
  client_id = id_1;
  client_name = 97 ∷ [];
  public_key = [];
  last_seen_date = 48 ∷ [];
  aes_key = [];
}

-- A server that has stopped: one client with one file in the data base.
abbrev stopped : State
stopped = record empty_server { clients_table = stored_client ∷ []; files_table = stored_file ∷ [] }

data_base_handle_example :
    (s' : State) × (data_base_handle python stopped ≡ (returned tt, s'))
    × (map row_of s'.clients_list ≡ stopped.clients_table)
    × All (λ c. c.files_list ≡ files_of c.client_id stopped.files_table) s'.clients_list
    × (s'.clients_table ≡ stopped.clients_table)
    × (s'.files_table ≡ stopped.files_table)
data_base_handle_example = data_base_handle_lem python stopped refl refl (λ path. refl)

set_valid_crc-rows_of_example :
    map (λ row. row.valid_crc) (rows_of id_1 (set_valid_crc id_1 true stopped).1.files_table)
    ≡ replicate (length (rows_of id_1 stopped.files_table)) true
set_valid_crc-rows_of_example = set_valid_crc-rows_of id_1 true stopped

delete_file_example : has_file_row id_1 (100 ∷ []) [] ≡ false
unfolding delete_file without_name
delete_file_example =
    delete_file-has_file_row id_1 (100 ∷ []) stopped (record stopped { files_table = [] }) refl

abbrev known_client : ServerClient
known_client = record {
  client_id = id_1;
  client_name = 97 ∷ 98 ∷ [];
  public_key = [];
  last_seen_date = 48 ∷ [];
  aes_key = [];
  files_list = [];
}

reconnection_request_827_example :
    reconnection_request_827 python
      (request_of id_1 827 255)
      (arriving known (text_field (97 ∷ 98 ∷ [])))
    ≡ (
      returned tt,
      saying
          (keyed python 0 id_1 (seen python 0 id_1 (arriving known [])))
          (header_bytes 3 1605 48 ++ (id_1 ++ replicate 32 9)),
    )
unfolding find_name find
reconnection_request_827_example =
    reconnection_request_827_lem python (97 ∷ 98 ∷ []) [] (replicate 32 9) 0 known_client
      (request_of id_1 827 255) (arriving known (text_field (97 ∷ 98 ∷ []))) text_ab-IsName refl
      refl refl
      (record {
        rsa_key = [];
        imports = refl;
        encrypts = refl;
        fits = omega arith;
        sends = λ n. refl;
      })
      refl

-- A server that has a file of the client "ab", with the verdict that it is right.
abbrev had_file : ServerFile
had_file = record {
  client_id = id_1;
  file_name = 100 ∷ [];
  path = file_path (97 ∷ 98 ∷ []) (100 ∷ []);
  valid_crc = true;
}

abbrev had_client : ServerClient
had_client = record known_client { aes_key = replicate 32 9; files_list = had_file ∷ [] }

abbrev had : State
had = record empty_server {
  clients_list = had_client ∷ [];
  clients_table = row_of had_client ∷ [];
  files_table = had_file ∷ [];
  disk = λ path. some (8 ∷ []);
}

text_d-IsName : IsName (100 ∷ [])
unfolding is_utf8 is_utf8_from
text_d-IsName = record { size = omega arith; utf8 = refl; no_null = (ground arith, tt) }

had-Has : Has id_1 (100 ∷ []) (replicate 32 9) had
unfolding find_id find_file find
had-Has = record {
  k = 0;
  j = 0;
  c = had_client;
  file = had_file;
  target = record { found = refl; at = refl; same = refl; can = refl };
  has_file = refl;
  file_at = refl;
  named = refl;
  placed = refl;
  key = refl;
  nothing_else = refl;
  sends = λ n. refl;
}

serve-again_example :
    (s' : State) × Received id_1 (100 ∷ []) (replicate 32 9) plain 16 had s'
    × (serve python (packet_messages id_1 16 3 1 1 (100 ∷ []) (pad_16 plain ∷ []) ++ []) had
        ≡ serve python [] s')
serve-again_example =
    serve-again python id_1 (100 ∷ []) (replicate 32 9) plain 16 1 refl text_d-IsName (omega arith)
      (omega arith) (omega arith) (pad_16 plain) [] had [] ((omega arith, omega arith), tt) refl
      had-Has (record { padded = pad_16 plain; decrypts = refl; unpads = refl })

abbrev open_file : ServerFile
open_file = record had_file { valid_crc = false }

abbrev open_client : ServerClient
open_client = record had_client { files_list = open_file ∷ [] }

abbrev open_server : State
open_server = record had {
  clients_list = open_client ∷ [];
  files_table = open_file ∷ [];
  arrived = text_field (100 ∷ []);
}

crc_response-902_example :
    (s' : State) × (c' : ServerClient) × (crc_response_900_901_902 python
        (request_of id_1 902 255)
        open_server
      ≡ (returned tt, s'))
    × (s'.disk open_file.path ≡ none)
    × (get_elem? s'.clients_list 0 ≡ some c')
    × (c'.files_list ≡ [])
    × (has_file_row id_1 (100 ∷ []) s'.files_table ≡ false)
    × (s'.sent ≡ header_bytes 3 1604 16 ++ id_1)
unfolding has_file_row find_id find_file find
crc_response-902_example =
    crc_response-902 python id_1 (100 ∷ []) (8 ∷ []) [] 0 0 open_client open_file
      (request_of id_1 902 255) open_server text_d-IsName refl refl refl refl refl refl refl refl
      refl (λ n. refl) refl
