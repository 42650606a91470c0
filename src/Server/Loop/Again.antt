-- ===== src/Server/Loop/Again.antt =====
-- Server/server.py, Server/request.py: a file that the server has already is sent again.
use secure_file_transfer_sys.Server.Connection.Exchange.{Sends, IsName, arriving}
use secure_file_transfer_sys.Base.{
  ℕ, ◌+◌, ◌^◌, ◌<◌, ◌≡◌, refl, sym, ap, ◌∙◌, arith, false, some, List, [], ◌∷◌, ◌++◌, append-nil,
  get_elem?, length, All,
}
use secure_file_transfer_sys.Runtime.{Bytes}
use secure_file_transfer_sys.Wire.{packet_payload}
use secure_file_transfer_sys.Session.Packets.Pieces.{join}
use secure_file_transfer_sys.Server.Runtime.{PyLibrary, ServerFile, ServerClient, State}
use secure_file_transfer_sys.Server.Registry.{find_file, modify}
use secure_file_transfer_sys.Server.Registry.Places.{
  get_elem?-modify, find_id-modify, find_file-modify,
}
use secure_file_transfer_sys.Server.Disk.{file_path}
use secure_file_transfer_sys.Server.Keys.Sealing.{seen}
use secure_file_transfer_sys.Server.Files.Packets.{written, Opens}
use secure_file_transfer_sys.Server.Files.Steps.{Target, send_file_request_828-again, reopened}
use secure_file_transfer_sys.Server.Loop.{serve}
use secure_file_transfer_sys.Server.Loop.Reading.{request_of}
use secure_file_transfer_sys.Server.Loop.Holding.{
  Received, Holds, packet_messages, length-packet_payload, updated,
}
use secure_file_transfer_sys.Server.Loop.Opened.{serve-opened}
use secure_file_transfer_sys.Server.Loop.Transfer.{IsPiece, fits}

-- The server knows a client and its key, and has a file of that name for it, and no send raises.
pub record Has (id name aes : Bytes) (s : State) : Type 0 where
  pub k : ℕ
  pub j : ℕ
  pub c : ServerClient
  pub file : ServerFile
  pub target : Target s id name k c
  pub has_file : find_file name c.files_list ≡ some j
  pub file_at : get_elem? c.files_list j ≡ some file
  pub named : file.file_name ≡ name
  pub placed : file.path ≡ file_path c.client_name name
  pub key : c.aes_key ≡ aes
  pub nothing_else : s.arrived ≡ []
  pub sends : Sends s

module _ (py : PyLibrary) (id name aes : Bytes) where
  -- The state once the first packet is stored.
  abbrev overwritten : (s : State) → Has id name aes s → Bytes → State
  overwritten s h content =
      reopened h.k h.j h.c.client_id (
        seen py h.k h.c.client_id
          (written (file_path h.c.client_name name) content (arriving s [])))

  unfoldable overwritten-Holds :
      (content : Bytes) (s : State) (h : Has id name aes s)
      → Holds id name aes content (overwritten s h content)
  overwritten-Holds content s h =
      let date = py.now (s.readings + 1) in
      let at1 =
        get_elem?-modify (λ c. record c { last_seen_date = date }) h.k s.clients_list h.c
          h.target.at in
      record {
        k = h.k;
        j = h.j;
        c = record h.c {
          last_seen_date = date;
          files_list = modify (λ f. record f { valid_crc = false }) h.j h.c.files_list;
        };
        file = record h.file { valid_crc = false };
        target = record {
          found =
              find_id-modify id _ h.k _ (λ c. refl)
              ∙ find_id-modify id _ h.k s.clients_list (λ c. refl)
              ∙ h.target.found;
          at = get_elem?-modify _ h.k _ _ at1;
          same = h.target.same;
          can = h.target.can;
        };
        has_file = find_file-modify name _ h.j h.c.files_list (λ f. refl) ∙ h.has_file;
        file_at = get_elem?-modify _ h.j h.c.files_list h.file h.file_at;
        named = h.named;
        placed = h.placed;
        unverified = refl;
        key = h.key;
        there = updated s.disk (file_path h.c.client_name name) content;
        nothing_else = refl;
        sends = h.sends;
      }

module _ (py : PyLibrary) (id name aes plain : Bytes) (size total : ℕ) (id_size : length id ≡ 16)
    (name_ok : IsName name) (size_ok : size < 2 ^ 32) (plain_ok : length plain < 2 ^ 32)
    (total_ok : total < 2 ^ 16) where
  -- For an ID of 16 bytes, a name of the protocol and numbers that fit their fields: where the server
  -- has the client's file already, with whatever verdict, at a path that can be written, and its sends
  -- go through, the packets of a file of that name, in pieces of 1 to 4096 bytes that the client's key
  -- opens, overwrite it. The new file in plain is on disk, its verdict is open again, and the answer
  -- 1603 carries its checksum, whatever is served after them.
  pub serve-again :
      (content : Bytes) (more : List Bytes) (s : State) (after : List Bytes)
      → All IsPiece (content ∷ more)
      → 1 + length more ≡ total
      → Has id name aes s
      → Opens py aes (join (content ∷ more)) plain
      → (s' : State) × Received id name aes plain size s s'
        × (serve py
              (packet_messages id size (length plain) total 1 name (content ∷ more) ++ after)
              s
            ≡ serve py after s')
  unfolding overwritten-Holds
  serve-again content more s after (piece, pieces) count h opens =
      let payload = packet_payload size (length plain) 1 total name content in
      serve-opened py id name aes plain size total id_size name_ok size_ok plain_ok total_ok content
        more s (overwritten py id name aes s h content) after h.nothing_else
        (record {
          c = h.c;
          file = h.file;
          holds = overwritten-Holds py id name aes content s h;
          same = h.target.same;
          key = h.key;
          named = h.named;
          placed = h.placed;
          unsaid = refl;
          handler =
              send_file_request_828-again py size (length plain) total name content [] h.k h.j h.c
                h.file (request_of id 828 (length payload)) (arriving s payload)
                (fits py id name aes size (length plain) total id_size name_ok size_ok plain_ok
                  total_ok 1 (omega arith))
                piece.0
                (length-packet_payload size (length plain) 1 total name content name_ok.size)
                (record {
                  found = h.target.found;
                  at = h.target.at;
                  same = h.target.same;
                  can = h.target.can;
                })
                h.has_file h.file_at
                (ap (λ t. packet_payload size (length plain) 1 total name t)
                  (sym (append-nil content)));
        })
        (piece, pieces) count opens
