-- ===== src/Server/Loop/Holding.antt =====
-- What the server's state says of a file of which a part has arrived.
use secure_file_transfer_sys.Server.Connection.Exchange.{Sends, arriving, saying}
use secure_file_transfer_sys.Base.{
  ◌-◌, ℕ, ◌+◌, ◌≤◌, ◌≡◌, refl, ◌∙◌, arith, false, some, List, [], ◌∷◌, ◌++◌, get_elem?, length,
  length-append, length-replicate, replicate, bytes_eq_refl,
}
use secure_file_transfer_sys.Runtime.{Bytes, update}
use secure_file_transfer_sys.Wire.{request_bytes, packet_payload, text_field}
use secure_file_transfer_sys.Server.Runtime.{PyLibrary, ServerFile, ServerClient, State}
use secure_file_transfer_sys.Server.Registry.{find_file}
use secure_file_transfer_sys.Server.Registry.Places.{get_elem?-modify, find_id-modify}
use secure_file_transfer_sys.Server.Disk.{file_path}
use secure_file_transfer_sys.Server.Keys.Sealing.{seen}
use secure_file_transfer_sys.Server.Files.Packets.{written, received_answer}
use secure_file_transfer_sys.Server.Files.Steps.{Target}

-- The server has a part of a client's file: the client, its file with no verdict, and the contents; and
-- no send raises.
pub record Holds (id name aes so_far : Bytes) (s : State) : Type 0 where
  pub k : ℕ
  pub j : ℕ
  pub c : ServerClient
  pub file : ServerFile
  pub target : Target s id name k c
  pub has_file : find_file name c.files_list ≡ some j
  pub file_at : get_elem? c.files_list j ≡ some file
  pub named : file.file_name ≡ name
  pub placed : file.path ≡ file_path c.client_name name
  pub unverified : file.valid_crc ≡ false
  pub key : c.aes_key ≡ aes
  pub there : s.disk (file_path c.client_name name) ≡ some so_far
  pub nothing_else : s.arrived ≡ []
  pub sends : Sends s

abbrev pub packet_message : Bytes → ℕ → ℕ → ℕ → ℕ → Bytes → Bytes → Bytes
packet_message id size original number total name content =
    request_bytes id 828 (packet_payload size original number total name content)

abbrev pub packet_messages : Bytes → ℕ → ℕ → ℕ → ℕ → Bytes → List Bytes → List Bytes
packet_messages id size original total number name [] = []
packet_messages id size original total number name (c ∷ r) =
    packet_message id size original number total name c
    ∷ packet_messages id size original total (number + 1) name r

pub length-packet_payload :
    (size original number total : ℕ) (name content : Bytes)
    → length name ≤ 255
    → length (packet_payload size original number total name content) ≡ 267 + length content
length-packet_payload size original number total name content h = omega (
  arith,
  length-append (text_field name) content,
  length-append name (replicate (255 - length name) 0),
  length-replicate {A = ℕ} (255 - length name) 0,
)

pub updated :
    (files : Bytes → _) (path content : Bytes) → update files path content path ≡ some content
updated files path content = rw (bytes_eq_refl path) refl

module _ (py : PyLibrary) (id name aes : Bytes) where
  -- The state once the client has been seen and its file has a new content.
  abbrev pub stored : {so_far : Bytes} (s : State) → Holds id name aes so_far s → Bytes → State
  stored s h content =
      seen py h.k h.c.client_id (written (file_path h.c.client_name name) content (arriving s []))

  unfoldable pub stored-Holds :
      (so_far content : Bytes) (s : State) (h : Holds id name aes so_far s)
      → Holds id name aes content (stored s h content)
  stored-Holds so_far content s h = record {
    k = h.k;
    j = h.j;
    c = record h.c { last_seen_date = py.now (s.readings + 1) };
    file = h.file;
    target = record {
      found = find_id-modify id _ h.k s.clients_list (λ c. refl) ∙ h.target.found;
      at = get_elem?-modify _ h.k s.clients_list h.c h.target.at;
      same = h.target.same;
      can = h.target.can;
    };
    has_file = h.has_file;
    file_at = h.file_at;
    named = h.named;
    placed = h.placed;
    unverified = h.unverified;
    key = h.key;
    there = updated s.disk (file_path h.c.client_name name) content;
    nothing_else = refl;
    sends = h.sends;
  }

  pub rewritten-Holds :
      (so_far content text : Bytes) (s : State) (h : Holds id name aes so_far s)
      → Holds id name aes content (saying (written h.file.path content s) text)
  rewritten-Holds so_far content text s h = record {
    k = h.k;
    j = h.j;
    c = h.c;
    file = h.file;
    target = record {
      found = h.target.found;
      at = h.target.at;
      same = h.target.same;
      can = h.target.can;
    };
    has_file = h.has_file;
    file_at = h.file_at;
    named = h.named;
    placed = h.placed;
    unverified = h.unverified;
    key = h.key;
    there = rw h.placed (updated s.disk (file_path h.c.client_name name) content);
    nothing_else = h.nothing_else;
    sends = h.sends;
  }

-- The whole file is on the server's disk, and the answer 1603 has been sent.
abbrev pub Received : Bytes → Bytes → Bytes → Bytes → ℕ → State → State → Type 0
Received id name aes plain size s s' =
    Holds id name aes plain s' × (s'.sent ≡ s.sent ++ received_answer id size name plain)
