-- ===== src/Server/Loop/NewFile.antt =====
-- Server/server.py, Server/request.py: a whole file that the server does not have yet.
use secure_file_transfer_sys.Server.Connection.Exchange.{Sends, IsName, arriving}
use secure_file_transfer_sys.Base.{
  ℕ, ◌+◌, ◌^◌, ◌<◌, ◌≡◌, refl, sym, ap, ◌∙◌, arith, false, none, some, List, [], ◌∷◌, ◌++◌,
  append-nil, length, All, bytes_eq_refl,
}
use secure_file_transfer_sys.Runtime.{Bytes}
use secure_file_transfer_sys.Wire.{packet_payload}
use secure_file_transfer_sys.Session.Packets.Pieces.{join}
use secure_file_transfer_sys.Server.Runtime.{PyLibrary, ServerFile, ServerClient, State}
use secure_file_transfer_sys.Server.Tables.{has_file_row}
use secure_file_transfer_sys.Server.Registry.{find_file}
use secure_file_transfer_sys.Server.Registry.Places.{
  get_elem?-modify, find_id-modify, find-append, get_elem?-append,
}
use secure_file_transfer_sys.Server.Disk.{file_path}
use secure_file_transfer_sys.Server.Keys.Sealing.{seen}
use secure_file_transfer_sys.Server.Files.Packets.{written, Opens}
use secure_file_transfer_sys.Server.Files.Steps.{
  Target, new_file_of, filed, send_file_request_828-first,
}
use secure_file_transfer_sys.Server.Loop.{serve}
use secure_file_transfer_sys.Server.Loop.Reading.{request_of}
use secure_file_transfer_sys.Server.Loop.Holding.{
  Received, Holds, packet_messages, length-packet_payload, updated,
}
use secure_file_transfer_sys.Server.Loop.Opened.{serve-opened}
use secure_file_transfer_sys.Server.Loop.Transfer.{IsPiece, fits}

-- The server knows a client and its key, and has no file of that name for it, and no send raises.
pub record Expects (id name aes : Bytes) (s : State) : Type 0 where
  pub k : ℕ
  pub c : ServerClient
  pub target : Target s id name k c
  pub no_file : find_file name c.files_list ≡ none
  pub no_row : has_file_row c.client_id name s.files_table ≡ false
  pub key : c.aes_key ≡ aes
  pub nothing_else : s.arrived ≡ []
  pub sends : Sends s

found_at_end :
    (name : Bytes) (files : List ServerFile) (file : ServerFile)
    → find_file name files ≡ none
    → file.file_name ≡ name
    → find_file name (files ++ file ∷ []) ≡ some (length files)
unfolding find_file
found_at_end name files file e same = find-append _ files file e (rw same (bytes_eq_refl name))

module _ (py : PyLibrary) (id name aes : Bytes) where
  -- The state once the first packet is stored.
  abbrev opened : (s : State) → Expects id name aes s → Bytes → State
  opened s h content =
      filed h.k (new_file_of h.c name) (
        seen py h.k h.c.client_id
          (written (file_path h.c.client_name name) content (arriving s [])))

  unfoldable opened-Holds :
      (content : Bytes) (s : State) (h : Expects id name aes s)
      → Holds id name aes content (opened s h content)
  opened-Holds content s h =
      let date = py.now (s.readings + 1) in
      let at1 =
        get_elem?-modify (λ c. record c { last_seen_date = date }) h.k s.clients_list h.c
          h.target.at in
      record {
        k = h.k;
        j = length h.c.files_list;
        c = record h.c {
          last_seen_date = date;
          files_list = h.c.files_list ++ new_file_of h.c name ∷ [];
        };
        file = new_file_of h.c name;
        target = record {
          found =
              find_id-modify id _ h.k _ (λ c. refl)
              ∙ find_id-modify id _ h.k s.clients_list (λ c. refl)
              ∙ h.target.found;
          at = get_elem?-modify _ h.k _ _ at1;
          same = h.target.same;
          can = h.target.can;
        };
        has_file = found_at_end name h.c.files_list (new_file_of h.c name) h.no_file refl;
        file_at = get_elem?-append h.c.files_list (new_file_of h.c name);
        named = refl;
        placed = refl;
        unverified = refl;
        key = h.key;
        there = updated s.disk (file_path h.c.client_name name) content;
        nothing_else = refl;
        sends = h.sends;
      }

module _ (py : PyLibrary) (id name aes plain : Bytes) (size total : ℕ) (id_size : length id ≡ 16)
    (name_ok : IsName name) (size_ok : size < 2 ^ 32) (plain_ok : length plain < 2 ^ 32)
    (total_ok : total < 2 ^ 16) where
  -- The packets of a file that is new, in their order, whatever is served after them: the decrypted
  -- file is on disk, and the answer 1603 carries its checksum.
  pub serve-new_file :
      (content : Bytes) (more : List Bytes) (s : State) (after : List Bytes)
      → All IsPiece (content ∷ more)
      → 1 + length more ≡ total
      → Expects id name aes s
      → Opens py aes (join (content ∷ more)) plain
      → (s' : State) × Received id name aes plain size s s'
        × (serve py
              (packet_messages id size (length plain) total 1 name (content ∷ more) ++ after)
              s
            ≡ serve py after s')
  unfolding opened-Holds
  serve-new_file content more s after (piece, pieces) count h opens =
      let payload = packet_payload size (length plain) 1 total name content in
      serve-opened py id name aes plain size total id_size name_ok size_ok plain_ok total_ok content
        more s (opened py id name aes s h content) after h.nothing_else
        (record {
          c = h.c;
          file = new_file_of h.c name;
          holds = opened-Holds py id name aes content s h;
          same = h.target.same;
          key = h.key;
          named = refl;
          placed = refl;
          unsaid = refl;
          handler =
              send_file_request_828-first py size (length plain) total name content [] h.k h.c
                (request_of id 828 (length payload)) (arriving s payload)
                (fits py id name aes size (length plain) total id_size name_ok size_ok plain_ok
                  total_ok 1 (omega arith))
                piece.0
                (length-packet_payload size (length plain) 1 total name content name_ok.size)
                (record {
                  found = h.target.found;
                  at = h.target.at;
                  same = h.target.same;
                  can = h.target.can;
                })
                h.no_file h.no_row
                (ap (λ t. packet_payload size (length plain) 1 total name t)
                  (sym (append-nil content)));
        })
        (piece, pieces) count opens
