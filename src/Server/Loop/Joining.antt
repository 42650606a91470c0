-- ===== src/Server/Loop/Joining.antt =====
-- Server/server.py, Server/request.py: a client that registers and sends its public key.
use secure_file_transfer_sys.Server.Connection.Exchange.{
  Sends, IsName, arriving, saying, send_header_to_client_lem,
}
use secure_file_transfer_sys.Base.{
  ℕ, ◌+◌, ◌≡◌, refl, sym, ap, arith, true, none, some, List, [], ◌∷◌, ◌++◌, append-nil, get_elem?,
  length, length-append, replicate, bytes_eq_refl,
}
use secure_file_transfer_sys.Runtime.{Bytes}
use secure_file_transfer_sys.Wire.{request_bytes, text_field}
use secure_file_transfer_sys.Answer.Fields.{header_bytes}
use secure_file_transfer_sys.Server.Runtime.{PyLibrary, ServerClient, State, returned}
use secure_file_transfer_sys.Server.Connection.{clean_buffer}
use secure_file_transfer_sys.Server.Registry.{find_name, find_id}
use secure_file_transfer_sys.Server.Registry.Places.{find-append}
use secure_file_transfer_sys.Server.Keys.Sealing.{seen, Seals, keyed}
use secure_file_transfer_sys.Server.Requests.Answers.{
  Admits, admitted, registration_request_825_lem, registration_request_825-taken, accepted,
  send_public_key_request_826_lem,
}
use secure_file_transfer_sys.Server.Loop.{register, dispatch, read}
use secure_file_transfer_sys.Server.Loop.Reading.{request_of, refusing, read-returned}
use secure_file_transfer_sys.Server.Loop.Verdict.{length-text_field}

pub found_new_name :
    (name : Bytes) (cs : List ServerClient) (c : ServerClient)
    → find_name name cs ≡ none
    → c.client_name ≡ name
    → find_name name (cs ++ c ∷ []) ≡ some (length cs)
unfolding find_name
found_new_name name cs c e same = find-append _ cs c e (rw same (bytes_eq_refl name))

pub found_new_id :
    (id : Bytes) (cs : List ServerClient) (c : ServerClient)
    → find_id id cs ≡ none
    → c.client_id ≡ id
    → find_id id (cs ++ c ∷ []) ≡ some (length cs)
unfolding find_id
found_new_id id cs c e same = find-append _ cs c e (rw same (bytes_eq_refl id))

-- The two requests of a new client: its name, under an ID of zeros, and its public key.
abbrev pub registration_message : Bytes → Bytes
registration_message name = request_bytes (replicate 16 0) 825 (text_field name)

abbrev pub public_key_message : Bytes → Bytes → Bytes → Bytes
public_key_message id name key = request_bytes id 826 (text_field name ++ key)

module _ (py : PyLibrary) where
  -- The state after a registration, with the answer.
  abbrev pub joined : Bytes → State → State
  joined name s =
      saying (admitted py name (arriving s [])) (header_bytes 3 1600 16 ++ py.uuid4 s.ids_made)

  pub read-joined :
      (name : Bytes) (s : State)
      → IsName name
      → Admits py s name
      → s.arrived ≡ []
      → read py (record s { arrived = s.arrived ++ registration_message name })
        ≡ (returned true, joined name s)
  unfolding dispatch register
  read-joined name s is ok empty =
      let field = text_field name in
      let s1 : State = arriving s field in
      rw empty (
        read-returned py (replicate 16 0) 825 field (arriving s (registration_message name))
          (joined name s)
          (record {
            id_size = refl;
            code_fits = omega arith;
            payload_fits = omega (arith, length-text_field name is.size);
          })
          refl
          (rw
            (registration_request_825_lem py name [] s1 is
              (record {
                free = ok.free;
                new_id = ok.new_id;
                no_folder = ok.no_folder;
                no_file = ok.no_file;
                can_make = ok.can_make;
                sends = ok.sends;
              })
              (sym (append-nil field)))
            refl))

  -- Where nothing else has arrived and the sends go through, the registration of a name of the protocol that a client has
  -- already is answered with 1601: no client is added, the client of that name counts as seen, and
  -- the socket blocks.
  pub read-taken :
      (name : Bytes) (k : ℕ) (c : ServerClient) (s : State)
      → IsName name
      → find_name name s.clients_list ≡ some k
      → get_elem? s.clients_list k ≡ some c
      → Sends s
      → s.arrived ≡ []
      → read py (record s { arrived = s.arrived ++ registration_message name })
        ≡ (returned true, refusing 1601 (seen py k c.client_id s))
  unfolding dispatch register clean_buffer
  read-taken name k c s is found at sends empty =
      let field = text_field name in
      let s1 : State = arriving s field in
      rw empty (
        read-returned py (replicate 16 0) 825 field (arriving s (registration_message name)) _
          (record {
            id_size = refl;
            code_fits = omega arith;
            payload_fits = omega (arith, length-text_field name is.size);
          })
          refl
          (rw
            (
              registration_request_825-taken py name [] k c s1 is found at (sym (append-nil field)),
              send_header_to_client_lem 1601 0
                  (record (seen py k c.client_id s) { arrived = []; blocking = true }) (omega arith)
                  (omega arith) sends,
            )
            refl))

  -- The state after a public key, with the answer.
  abbrev pub sealing : Bytes → ℕ → Bytes → Bytes → State → State
  sealing key k id sealed s =
      saying (keyed py k id (accepted py key k id (arriving s [])))
        (header_bytes 3 1602 (16 + length sealed) ++ (id ++ sealed))

  pub read-sealing :
      (name key sealed : Bytes) (k : ℕ) (c : ServerClient) (s : State)
      → IsName name
      → length key ≡ 160
      → length c.client_id ≡ 16
      → find_name name s.clients_list ≡ some k
      → get_elem? s.clients_list k ≡ some c
      → Seals py s key sealed
      → s.arrived ≡ []
      → read py (record s { arrived = s.arrived ++ public_key_message c.client_id name key })
        ≡ (returned true, sealing key k c.client_id sealed s)
  unfolding dispatch
  read-sealing name key sealed k c s is key_size id_size found at seals empty =
      let payload = text_field name ++ key in
      let s1 : State = arriving s payload in
      rw empty (
        read-returned py c.client_id 826 payload
          (arriving s (public_key_message c.client_id name key))
          (sealing key k c.client_id sealed s)
          (record {
            id_size = id_size;
            code_fits = omega arith;
            payload_fits =
                omega (arith, length-append (text_field name) key, length-text_field name is.size);
          })
          refl
          (send_public_key_request_826_lem py name key [] sealed k c
            (request_of c.client_id 826 (length payload)) s1 is key_size found at refl
            (record {
              rsa_key = seals.rsa_key;
              imports = seals.imports;
              encrypts = seals.encrypts;
              fits = seals.fits;
              sends = seals.sends;
            })
            (ap (λ t. text_field name ++ t) (sym (append-nil key)))))
