-- ===== src/Server/Keys/Sealing.antt =====
-- Server/request.py: what `last_seen` and `create_send_aes` do to the server's state.
use secure_file_transfer_sys.Server.Connection.Exchange.{
  Sends, sendall_lem, saying, send_header_to_client_lem,
}
use secure_file_transfer_sys.Base.{
  ℕ, ◌+◌, ◌^◌, ◌<◌, ◌≡◌, refl, ap, ◌∙◌, some, ◌++◌, append_assoc, get_elem?, length,
}
use secure_file_transfer_sys.Runtime.{Bytes}
use secure_file_transfer_sys.Answer.Fields.{header_bytes}
use secure_file_transfer_sys.Server.Runtime.{PyLibrary, ServerClient, State, returned}
use secure_file_transfer_sys.Server.Tables.{
  read_clock, update_clients, set_lastseen_date, set_aes_key,
}
use secure_file_transfer_sys.Server.Registry.{modify, client_at, change_client}
use secure_file_transfer_sys.Server.Registry.Places.{get_elem?-modify}
use secure_file_transfer_sys.Server.Keys.{last_seen, draw, encrypt_by_public_key, create_send_aes}

pub client_at_lem :
    (k : ℕ) (c : ServerClient) (s : State)
    → get_elem? s.clients_list k ≡ some c
    → client_at k s ≡ (returned c, s)
unfolding client_at
client_at_lem k c s e = rw e refl

module _ (py : PyLibrary) where
  -- Both the table and the object hold a new date.
  abbrev pub seen : ℕ → Bytes → State → State
  seen k id s = record s {
    clients_list =
        modify (λ c. record c { last_seen_date = py.now (s.readings + 1) }) k s.clients_list;
    clients_table =
        update_clients (λ row. record row { last_seen_date = py.now s.readings }) id
          s.clients_table;
    readings = s.readings + 1 + 1;
  }

  pub last_seen_lem :
      (k : ℕ) (c : ServerClient) (s : State)
      → get_elem? s.clients_list k ≡ some c
      → last_seen py k s ≡ (returned tt, seen k c.client_id s)
  unfolding last_seen set_lastseen_date read_clock change_client
  last_seen_lem k c s e = rw (client_at_lem k c s e) refl

  -- The key that is drawn next, the key pair's public half read as an RSA key, and the key sealed, on a
  -- connection on which no send raises.
  pub record Seals (s : State) (public_key sealed : Bytes) : Type 0 where
    pub rsa_key : Bytes
    pub imports : py.import_key public_key ≡ some rsa_key
    pub encrypts : py.oaep_encrypt (s.draws + 1) rsa_key (py.get_random_bytes s.draws) ≡ some sealed
    pub fits : 16 + length sealed < 2 ^ 32
    pub sends : Sends s

  abbrev pub keyed : ℕ → Bytes → State → State
  keyed k id s = record s {
    clients_list =
        modify (λ c. record c { aes_key = py.get_random_bytes s.draws }) k s.clients_list;
    clients_table =
        update_clients (λ row. record row { aes_key = py.get_random_bytes s.draws }) id
          s.clients_table;
    draws = s.draws + 1 + 1;
  }

  pub create_send_aes_lem :
      (code k : ℕ) (c : ServerClient) (sealed : Bytes) (s : State)
      → code < 2 ^ 16
      → get_elem? s.clients_list k ≡ some c
      → Seals s c.public_key sealed
      → create_send_aes py code k s ≡ (
        returned tt,
        saying
            (keyed k c.client_id s)
            (header_bytes 3 code (16 + length sealed) ++ (c.client_id ++ sealed)),
      )
  unfolding create_send_aes draw set_aes_key encrypt_by_public_key change_client
  create_send_aes_lem code k c sealed s small e seals =
      let aes = py.get_random_bytes s.draws in
      let f : ServerClient → ServerClient = λ c. record c { aes_key = aes } in
      let s1 : State = record s { clients_list = modify f k s.clients_list; draws = s.draws + 1 } in
      rw
        (
          client_at_lem k (f c) s1 (get_elem?-modify f k s.clients_list c e),
          seals.imports,
          seals.encrypts,
          send_header_to_client_lem code (16 + length sealed) (keyed k c.client_id s) small
              seals.fits seals.sends,
          sendall_lem c.client_id
              (saying (keyed k c.client_id s) (header_bytes 3 code (16 + length sealed)))
              seals.sends,
          sendall_lem sealed
              (saying (saying (keyed k c.client_id s) (header_bytes 3 code (16 + length sealed)))
                c.client_id)
              seals.sends,
        )
        (ap (λ t. (returned tt, record (keyed k c.client_id s) { sent = t }))
          (append_assoc (s.sent ++ header_bytes 3 code (16 + length sealed)) c.client_id sealed
            ∙ append_assoc s.sent (header_bytes 3 code (16 + length sealed))
                (c.client_id ++ sealed)))
