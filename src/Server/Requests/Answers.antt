-- ===== src/Server/Requests/Answers.antt =====
-- Server/request.py: what registering and sending a public key do to the server's state.
use secure_file_transfer_sys.Server.Connection.Exchange.{
  Sends, sendall_lem, IsName, arriving, saying, recv_lem, recv_name_lem, send_header_to_client_lem,
}
use secure_file_transfer_sys.Base.{
  ℕ, ◌+◌, ◌≡◌, refl, ap, arith, true, false, none, some, [], ◌∷◌, ◌++◌, append_assoc, get_elem?,
  length, bytes_eq, bytes_eq_refl, ◌||◌,
}
use secure_file_transfer_sys.Runtime.{Bytes}
use secure_file_transfer_sys.Wire.{text_field}
use secure_file_transfer_sys.Answer.Fields.{header_bytes}
use secure_file_transfer_sys.Server.Runtime.{PyLibrary, ServerClient, State, returned, raised}
use secure_file_transfer_sys.Server.Tables.{
  read_clock, update_clients, set_public_key, has_client_row, row_of, add_client_db,
}
use secure_file_transfer_sys.Server.Registry.{modify, find_name, change_client}
use secure_file_transfer_sys.Server.Registry.Places.{get_elem?-modify}
use secure_file_transfer_sys.Server.Disk.{client_folder, make_folder}
use secure_file_transfer_sys.Server.Header.{ServerRequest, check_id}
use secure_file_transfer_sys.Server.Keys.Sealing.{
  client_at_lem, seen, last_seen_lem, Seals, keyed, create_send_aes_lem,
}
use secure_file_transfer_sys.Server.Requests.{
  new_client, registration_request_825, send_public_key_request_826,
}

module _ (py : PyLibrary) where
  -- The object of a client that registers now.
  abbrev pub fresh : Bytes → State → ServerClient
  fresh name s = record {
    client_id = py.uuid4 s.ids_made;
    client_name = name;
    public_key = [];
    last_seen_date = py.now s.readings;
    aes_key = [];
    files_list = [];
  }

  -- A name that is free, a UUID that is new, a folder that can be made, and sends that go through.
  pub record Admits (s : State) (name : Bytes) : Type 0 where
    pub free : find_name name s.clients_list ≡ none
    pub new_id : has_client_row (py.uuid4 s.ids_made) s.clients_table ≡ false
    pub no_folder : s.folders (client_folder name) ≡ false
    pub no_file : s.disk (client_folder name) ≡ none
    pub can_make : s.can_make (client_folder name) ≡ true
    pub sends : Sends s

  abbrev pub admitted : Bytes → State → State
  admitted name s = record s {
    clients_list = s.clients_list ++ fresh name s ∷ [];
    clients_table = s.clients_table ++ row_of (fresh name s) ∷ [];
    folders = λ p. bytes_eq (client_folder name) p || s.folders p;
    ids_made = s.ids_made + 1;
    readings = s.readings + 1;
  }

  new_client_lem :
      (name : Bytes) (s : State)
      → Admits s name
      → new_client py name s ≡ (
        returned (fresh name s),
        record s {
          folders = λ p. bytes_eq (client_folder name) p || s.folders p;
          ids_made = s.ids_made + 1;
          readings = s.readings + 1;
        },
      )
  unfolding new_client read_clock make_folder
  new_client_lem name s ok = rw (ok.no_folder, ok.no_file, ok.can_make) refl

  pub registration_request_825_lem :
      (name rest : Bytes) (s : State)
      → IsName name
      → Admits s name
      → s.arrived ≡ text_field name ++ rest
      → registration_request_825 py s ≡ (
        returned tt,
        saying (admitted name (arriving s rest)) (header_bytes 3 1600 16 ++ py.uuid4 s.ids_made),
      )
  unfolding registration_request_825 add_client_db
  registration_request_825_lem name rest s is ok e =
      let s1 : State = arriving s rest in
      rw
        (
          recv_name_lem name rest s is e,
          ok.free,
          new_client_lem name s1 (record {
            free = ok.free;
            new_id = ok.new_id;
            no_folder = ok.no_folder;
            no_file = ok.no_file;
            can_make = ok.can_make;
            sends = ok.sends;
          }),
          ok.new_id,
          send_header_to_client_lem 1600 16 (admitted name s1) (omega arith) (omega arith) ok.sends,
          sendall_lem (py.uuid4 s.ids_made) (saying (admitted name s1) (header_bytes 3 1600 16))
              ok.sends,
        )
        (ap (λ t. (returned tt, record (admitted name s1) { sent = t }))
          (append_assoc s.sent (header_bytes 3 1600 16) (py.uuid4 s.ids_made)))

  -- A taken name is refused, and the client that has it counts as seen.
  pub registration_request_825-taken :
      (name rest : Bytes) (k : ℕ) (c : ServerClient) (s : State)
      → IsName name
      → find_name name s.clients_list ≡ some k
      → get_elem? s.clients_list k ≡ some c
      → s.arrived ≡ text_field name ++ rest
      → registration_request_825 py s ≡ (raised, seen py k c.client_id (arriving s rest))
  unfolding registration_request_825
  registration_request_825-taken name rest k c s is found e' e =
      rw (recv_name_lem name rest s is e, found, last_seen_lem py k c (arriving s rest) e') refl

  abbrev pub with_public_key : Bytes → ℕ → Bytes → State → State
  with_public_key key k id s = record s {
    clients_list = modify (λ c. record c { public_key = key }) k s.clients_list;
    clients_table = update_clients (λ row. record row { public_key = key }) id s.clients_table;
  }

  -- The state once a public key is accepted and before the AES key is made.
  abbrev pub accepted : Bytes → ℕ → Bytes → State → State
  accepted key k id s = seen py k id (with_public_key key k id s)

  pub send_public_key_request_826_lem :
      (name key rest sealed : Bytes) (k : ℕ) (c : ServerClient) (r : ServerRequest) (s : State)
      → IsName name
      → length key ≡ 160
      → find_name name s.clients_list ≡ some k
      → get_elem? s.clients_list k ≡ some c
      → r.client_id ≡ c.client_id
      → Seals py s key sealed
      → s.arrived ≡ text_field name ++ (key ++ rest)
      → send_public_key_request_826 py r s ≡ (
        returned tt,
        saying
            (keyed py k c.client_id (accepted key k c.client_id (arriving s rest)))
            (header_bytes 3 1602 (16 + length sealed) ++ (c.client_id ++ sealed)),
      )
  unfolding send_public_key_request_826 check_id change_client set_public_key
  send_public_key_request_826_lem name key rest sealed k c r s is size found at same seals e =
      let s1 : State = arriving s (key ++ rest) in
      let s2 : State = with_public_key key k c.client_id (arriving s rest) in
      let s3 : State = accepted key k c.client_id (arriving s rest) in
      let c2 : ServerClient = record c { public_key = key } in
      let c3 : ServerClient = record c2 { last_seen_date = py.now (s.readings + 1) } in
      let at2 : get_elem? s2.clients_list k ≡ some c2 = get_elem?-modify _ k s.clients_list c at in
      let at3 : get_elem? s3.clients_list k ≡ some c3 =
        get_elem?-modify _ k s2.clients_list c2 at2 in
      rw
        (
          recv_name_lem name (key ++ rest) s is e,
          found,
          client_at_lem k c s1 at,
          same,
          bytes_eq_refl c.client_id,
          recv_lem 160 key rest s1 (omega arith) size refl,
          last_seen_lem py k c2 s2 at2,
          create_send_aes_lem py 1602 k c3 sealed s3 (omega arith) at3 (record {
            rsa_key = seals.rsa_key;
            imports = seals.imports;
            encrypts = seals.encrypts;
            fits = seals.fits;
            sends = seals.sends;
          }),
        )
        refl
