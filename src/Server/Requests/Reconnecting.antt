-- ===== src/Server/Requests/Reconnecting.antt =====
-- Server/request.py: what a reconnection does to the server's state.
use secure_file_transfer_sys.Server.Connection.Exchange.{
  sendall_lem, Sends, IsName, arriving, saying, recv_name_lem, send_header_to_client_lem,
}
use secure_file_transfer_sys.Base.{
  ℕ, ◌+◌, ◌≡◌, refl, ap, arith, false, none, some, ◌++◌, append_assoc, get_elem?, length, bytes_eq,
  bytes_eq_refl,
}
use secure_file_transfer_sys.Runtime.{Bytes}
use secure_file_transfer_sys.Wire.{text_field}
use secure_file_transfer_sys.Answer.Fields.{header_bytes}
use secure_file_transfer_sys.Server.Runtime.{PyLibrary, ServerClient, State, returned, raised}
use secure_file_transfer_sys.Server.Registry.{find_name}
use secure_file_transfer_sys.Server.Registry.Places.{get_elem?-modify}
use secure_file_transfer_sys.Server.Header.{ServerRequest, check_id}
use secure_file_transfer_sys.Server.Keys.Sealing.{
  client_at_lem, seen, last_seen_lem, Seals, keyed, create_send_aes_lem,
}
use secure_file_transfer_sys.Server.Requests.{reconnection_failed, reconnection_request_827}

module _ (py : PyLibrary) where
  reconnection_failed_lem :
      (id : Bytes) (s : State)
      → Sends s
      → reconnection_failed py id s ≡ (returned tt, saying s (header_bytes 3 1606 16 ++ id))
  unfolding reconnection_failed
  reconnection_failed_lem id s sends =
      rw
        (
          send_header_to_client_lem 1606 16 s (omega arith) (omega arith) sends,
          sendall_lem id (saying s (header_bytes 3 1606 16)) sends,
        )
        (ap (λ t. (returned tt, record s { sent = t }))
          (append_assoc s.sent (header_bytes 3 1606 16) id))

  -- Where the sends go through, a client that is not registered is answered with 1606 and the ID that it sent, and nothing changes.
  pub reconnection_request_827-unknown :
      (name rest : Bytes) (r : ServerRequest) (s : State)
      → IsName name
      → Sends s
      → find_name name s.clients_list ≡ none
      → s.arrived ≡ text_field name ++ rest
      → reconnection_request_827 py r s
        ≡ (returned tt, saying (arriving s rest) (header_bytes 3 1606 16 ++ r.client_id))
  unfolding reconnection_request_827
  reconnection_request_827-unknown name rest r s is sends missing e =
      rw (recv_name_lem name rest s is e, missing)
        (reconnection_failed_lem r.client_id (arriving s rest) sends)

  -- Where the sends go through, a registered client that sends its own ID, and whose public key can be read and seals the new AES
  -- key, is answered with 1605, its ID and the sealed key; the key is stored in the object and in its
  -- row, and the client counts as seen.
  pub reconnection_request_827_lem :
      (name rest sealed : Bytes) (k : ℕ) (c : ServerClient) (r : ServerRequest) (s : State)
      → IsName name
      → find_name name s.clients_list ≡ some k
      → get_elem? s.clients_list k ≡ some c
      → r.client_id ≡ c.client_id
      → Seals py s c.public_key sealed
      → s.arrived ≡ text_field name ++ rest
      → reconnection_request_827 py r s ≡ (
        returned tt,
        saying
            (keyed py k c.client_id (seen py k c.client_id (arriving s rest)))
            (header_bytes 3 1605 (16 + length sealed) ++ (c.client_id ++ sealed)),
      )
  unfolding reconnection_request_827 check_id
  reconnection_request_827_lem name rest sealed k c r s is found at same seals e =
      let s1 : State = arriving s rest in
      let s2 : State = seen py k c.client_id s1 in
      let c2 : ServerClient = record c { last_seen_date = py.now (s.readings + 1) } in
      rw
        (
          recv_name_lem name rest s is e,
          found,
          client_at_lem k c s1 at,
          same,
          bytes_eq_refl c.client_id,
          last_seen_lem py k c s1 at,
          seals.imports,
          create_send_aes_lem py 1605 k c2 sealed s2 (omega arith)
              (get_elem?-modify _ k s.clients_list c at)
              (record {
                rsa_key = seals.rsa_key;
                imports = seals.imports;
                encrypts = seals.encrypts;
                fits = seals.fits;
                sends = seals.sends;
              }),
        )
        refl

  -- An ID that is not the client's raises, and no date and no key changes.
  pub reconnection_request_827-other_id :
      (name rest : Bytes) (k : ℕ) (c : ServerClient) (r : ServerRequest) (s : State)
      → IsName name
      → find_name name s.clients_list ≡ some k
      → get_elem? s.clients_list k ≡ some c
      → bytes_eq r.client_id c.client_id ≡ false
      → s.arrived ≡ text_field name ++ rest
      → reconnection_request_827 py r s ≡ (raised, arriving s rest)
  unfolding reconnection_request_827 check_id
  reconnection_request_827-other_id name rest k c r s is found at other e =
      rw (recv_name_lem name rest s is e, found, client_at_lem k c (arriving s rest) at, other) refl
