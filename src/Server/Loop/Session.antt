-- ===== src/Server/Loop/Session.antt =====
-- Server/server.py: the whole conversation with a new client, from its name to the thanks.
use secure_file_transfer_sys.Server.Registry.{find, find_file, find_id}
use secure_file_transfer_sys.Base.{
  ℕ, ◌+◌, ◌^◌, ◌<◌, ◌≡◌, refl, sym, ap, subst, ◌∙◌, arith, true, false, none, List, [], ◌∷◌, ◌++◌,
  append_assoc, length, All,
}
use secure_file_transfer_sys.Runtime.{Bytes}
use secure_file_transfer_sys.Wire.{request_bytes, text_field}
use secure_file_transfer_sys.Answer.Fields.{header_bytes}
use secure_file_transfer_sys.Session.Packets.Pieces.{join}
use secure_file_transfer_sys.Server.Runtime.{PyLibrary, ServerClient, State, returned}
use secure_file_transfer_sys.Server.Connection.Exchange.{IsName}
use secure_file_transfer_sys.Server.Tables.{has_file_row}
use secure_file_transfer_sys.Server.Registry.Places.{
  get_elem?-modify, find_id-modify, get_elem?-append,
}
use secure_file_transfer_sys.Server.Disk.{file_path}
use secure_file_transfer_sys.Server.Keys.Sealing.{Seals}
use secure_file_transfer_sys.Server.Requests.Answers.{fresh, Admits}
use secure_file_transfer_sys.Server.Files.Packets.{received_answer, Opens}
use secure_file_transfer_sys.Server.Loop.{serve}
use secure_file_transfer_sys.Server.Loop.Holding.{packet_messages}
use secure_file_transfer_sys.Server.Loop.Transfer.{serve-step, IsPiece}
use secure_file_transfer_sys.Server.Loop.NewFile.{Expects, serve-new_file}
use secure_file_transfer_sys.Server.Loop.Verdict.{Keeps, read-verified}
use secure_file_transfer_sys.Server.Loop.Joining.{
  found_new_name, found_new_id, registration_message, public_key_message, joined, read-joined,
  sealing, read-sealing,
}

-- A server on which nothing goes wrong with a new client `name` and its file `file_name`.
pub record Welcomes (py : PyLibrary) (s : State) (name file_name key sealed encrypted plain : Bytes)
    : Type 0 where
  pub admits : Admits py s name
  pub new_id : find_id (py.uuid4 s.ids_made) s.clients_list ≡ none
  pub id_size : length (py.uuid4 s.ids_made) ≡ 16
  pub no_row : has_file_row (py.uuid4 s.ids_made) file_name s.files_table ≡ false
  pub can : s.can_write (file_path name file_name) ≡ true
  pub key_size : length key ≡ 160
  pub seals : Seals py s key sealed
  pub opens : Opens py (py.get_random_bytes s.draws) encrypted plain
  pub nothing_else : s.arrived ≡ []

-- What such a client sends, for a file cut into pieces, and what it is answered.
abbrev pub client_messages : Bytes → Bytes → Bytes → Bytes → ℕ → ℕ → List Bytes → List Bytes
client_messages id name file_name key size original cut =
    registration_message name
    ∷ public_key_message id name key
    ∷ (packet_messages id size original (length cut) 1 file_name cut
        ++ request_bytes id 900 (text_field file_name) ∷ [])

abbrev pub server_answers : Bytes → Bytes → Bytes → ℕ → Bytes → Bytes
server_answers id sealed file_name size plain =
    (header_bytes 3 1600 16 ++ id)
    ++ ((header_bytes 3 1602 (16 + length sealed) ++ (id ++ sealed))
        ++ (received_answer id size file_name plain ++ (header_bytes 3 1604 16 ++ id)))

four_sendings : (s a b c d : Bytes) → (((s ++ a) ++ b) ++ c) ++ d ≡ s ++ (a ++ (b ++ (c ++ d)))
four_sendings s a b c d =
    append_assoc ((s ++ a) ++ b) c d
    ∙ append_assoc (s ++ a) b (c ++ d)
    ∙ append_assoc s a (b ++ (c ++ d))

module _ (py : PyLibrary) (name file_name key sealed encrypted plain : Bytes) (s : State)
    (name_ok : IsName name) (file_name_ok : IsName file_name)
    (welcome : Welcomes py s name file_name key sealed encrypted plain) where
  abbrev id : Bytes
  id = py.uuid4 s.ids_made

  abbrev place : ℕ
  place = length s.clients_list

  abbrev with_key : State
  with_key = sealing py key place id sealed (joined py name s)

  ready : Expects id file_name (py.get_random_bytes s.draws) with_key
  ready =
      let c0 : ServerClient = fresh py name s in
      let cs = s.clients_list ++ c0 ∷ [] in
      let at1 =
        get_elem?-modify (λ c. record c { public_key = key }) place cs c0
          (get_elem?-append s.clients_list c0) in
      let at2 =
        get_elem?-modify (λ c. record c { last_seen_date = py.now (s.readings + 1 + 1) }) place _ _
          at1 in
      record {
        k = place;
        c = record c0 {
          public_key = key;
          last_seen_date = py.now (s.readings + 1 + 1);
          aes_key = py.get_random_bytes s.draws;
        };
        target = record {
          found =
              find_id-modify id _ place _ (λ c. refl)
              ∙ find_id-modify id _ place _ (λ c. refl)
              ∙ find_id-modify id _ place cs (λ c. refl)
              ∙ found_new_id id s.clients_list c0 welcome.new_id refl;
          at = get_elem?-modify _ place _ _ at2;
          same = refl;
          can = welcome.can;
        };
        no_file = unfold find_file find in refl;
        no_row = welcome.no_row;
        key = refl;
        nothing_else = refl;
        sends = welcome.seals.sends;
      }

  -- On a server that welcomes a new client, sends that go through included, for names of the protocol
  -- and for a file that is cut into at least one piece of 1 to 4096 bytes and
  -- fewer than 65536 and whose sizes fit 32 bits, the requests of the client are taken one after the
  -- other: the server ends with the client's file in plain, verified, and has sent the four answers
  -- and nothing else.
  pub serve-session :
      (size : ℕ) (cut : List Bytes)
      → size < 2 ^ 32
      → length plain < 2 ^ 32
      → length cut < 2 ^ 16
      → 0 < length cut
      → All IsPiece cut
      → join cut ≡ encrypted
      → (s' : State) × Keeps (py.uuid4 s.ids_made) file_name plain s'
        × (s'.sent ≡ s.sent ++ server_answers (py.uuid4 s.ids_made) sealed file_name size plain)
        × (serve py
              (client_messages (py.uuid4 s.ids_made) name file_name key size (length plain) cut)
              s
            ≡ (returned tt, s'))
  unfolding serve
  serve-session size [] size_ok plain_ok few some_cut pieces joins = absurd (omega arith)
  serve-session size (content ∷ more) size_ok plain_ok few some_cut pieces joins =
      let verdict = request_bytes id 900 (text_field file_name) in
      let total = length (content ∷ more) in
      let packets = packet_messages id size (length plain) total 1 file_name (content ∷ more) in
      let c0 : ServerClient = fresh py name s in
      let (s3, (holds, sent3), e3) =
        serve-new_file py id file_name (py.get_random_bytes s.draws) plain size total
          welcome.id_size file_name_ok size_ok plain_ok few content more with_key (verdict ∷ [])
          pieces (omega arith) ready
          (subst (λ t. Opens py (py.get_random_bytes s.draws) t plain) (sym joins) welcome.opens) in
      let (s4, keeps, sent4, e4) =
        read-verified py id file_name (py.get_random_bytes s.draws) plain s3 welcome.id_size
          file_name_ok holds in
      (
        s4,
        keeps,
        sent4
            ∙ ap (λ t. t ++ (header_bytes 3 1604 16 ++ id)) sent3
            ∙ four_sendings s.sent (header_bytes 3 1600 16 ++ id)
                (header_bytes 3 1602 (16 + length sealed) ++ (id ++ sealed))
                (received_answer id size file_name plain) (header_bytes 3 1604 16 ++ id),
        serve-step py _ (public_key_message id name key ∷ (packets ++ verdict ∷ [])) s
              (joined py name s) (read-joined py name s name_ok welcome.admits welcome.nothing_else)
            ∙ serve-step py _ (packets ++ verdict ∷ []) (joined py name s) with_key (
                read-sealing py name key sealed place c0 (joined py name s) name_ok welcome.key_size
                  welcome.id_size (found_new_name name s.clients_list c0 welcome.admits.free refl)
                  (get_elem?-append s.clients_list c0)
                  (record {
                    rsa_key = welcome.seals.rsa_key;
                    imports = welcome.seals.imports;
                    encrypts = welcome.seals.encrypts;
                    fits = welcome.seals.fits;
                    sends = welcome.seals.sends;
                  })
                  refl)
            ∙ e3
            ∙ serve-step py _ [] s3 s4 e4,
      )
