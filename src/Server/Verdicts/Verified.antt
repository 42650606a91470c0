-- ===== src/Server/Verdicts/Verified.antt =====
-- Server/request.py: the client's verdict on a file that has arrived.
use secure_file_transfer_sys.Server.Tables.Reach.{no_row_left, length-without_name-has_file_row}
use secure_file_transfer_sys.Server.Registry.Places.{
  remove-take-drop, find_file-name, get_elem?-modify,
}
use secure_file_transfer_sys.Base.{
  bytes_eq_refl, ◌∙◌, drop, take, none, ℕ, ◌+◌, ◌≡◌, refl, ap, arith, true, false, some, ◌++◌,
  append_assoc, get_elem?, length, ◌==◌, if◌then◌else◌, bytes_eq,
}
use secure_file_transfer_sys.Server.Connection.Exchange.{
  sendall_lem, Sends, IsName, arriving, saying, recv_name_lem, send_header_to_client_lem,
}
use secure_file_transfer_sys.Runtime.{Bytes}
use secure_file_transfer_sys.Wire.{text_field}
use secure_file_transfer_sys.Answer.Fields.{header_bytes}
use secure_file_transfer_sys.Server.Runtime.{PyLibrary, ServerFile, ServerClient, State, returned}
use secure_file_transfer_sys.Server.Tables.{
  with_crc, set_valid_crc, without_name, delete_file, has_file_row,
}
use secure_file_transfer_sys.Server.Registry.{
  modify, find_id, find_file, change_client, change_files, remove,
}
use secure_file_transfer_sys.Server.Header.{ServerRequest}
use secure_file_transfer_sys.Server.Keys.Sealing.{client_at_lem, seen, last_seen_lem}
use secure_file_transfer_sys.Server.Disk.{remove_disk}
use secure_file_transfer_sys.Server.Verdicts.{
  discard_file, thank_you_answer, verify_file, crc_verdict, crc_response_900_901_902,
}

pub thank_you_answer_lem :
    (id : Bytes) (s : State)
    → Sends s
    → thank_you_answer id s ≡ (returned tt, saying s (header_bytes 3 1604 16 ++ id))
unfolding thank_you_answer
thank_you_answer_lem id s sends =
    rw
      (
        send_header_to_client_lem 1604 16 s (omega arith) (omega arith) sends,
        sendall_lem id (saying s (header_bytes 3 1604 16)) sends,
      )
      (ap (λ t. (returned tt, record s { sent = t }))
        (append_assoc s.sent (header_bytes 3 1604 16) id))

-- The file of the client is verified; so is each of its rows, whatever the file.
abbrev pub verified : ℕ → ℕ → Bytes → State → State
verified k j id s = record s {
  clients_list =
      modify
        (λ c. record c { files_list = modify (λ f. record f { valid_crc = true }) j c.files_list })
        k s.clients_list;
  files_table = with_crc id true s.files_table;
}

-- What the verdict 900, 901 or another code does to a file with no verdict.
pub crc_verdict-900 :
    (r : ServerRequest) (k j : ℕ) (c : ServerClient) (file : ServerFile) (s : State)
    → r.code ≡ 900
    → file.valid_crc ≡ false
    → Sends s
    → crc_verdict r k c j file s
      ≡ (returned tt, saying (verified k j c.client_id s) (header_bytes 3 1604 16 ++ c.client_id))
unfolding crc_verdict verify_file change_files change_client set_valid_crc
crc_verdict-900 r k j c file s is unverified sends =
    rw (unverified, is, thank_you_answer_lem c.client_id (verified k j c.client_id s) sends) refl

pub crc_verdict-901 :
    (r : ServerRequest) (k j : ℕ) (c : ServerClient) (file : ServerFile) (s : State)
    → r.code ≡ 901
    → file.valid_crc ≡ false
    → crc_verdict r k c j file s ≡ (returned tt, s)
unfolding crc_verdict
crc_verdict-901 r k j c file s is unverified = rw (unverified, is) refl

-- The file is gone from the disk, from the client's list, and from the table under every client.
abbrev pub discarded : ℕ → ℕ → ServerFile → State → State
discarded k j file s = record s {
  disk = λ p. if bytes_eq file.path p then none else s.disk p;
  clients_list = modify (λ c. record c { files_list = remove j c.files_list }) k s.clients_list;
  files_table = without_name file.file_name s.files_table;
}

crc_verdict-902 :
    (r : ServerRequest) (k j : ℕ) (c : ServerClient) (file : ServerFile) (content : Bytes)
    (s : State)
    → r.code ≡ 902
    → file.valid_crc ≡ false
    → s.disk file.path ≡ some content
    → s.can_write file.path ≡ true
    → has_file_row c.client_id file.file_name s.files_table ≡ true
    → Sends s
    → crc_verdict r k c j file s
      ≡ (returned tt, saying (discarded k j file s) (header_bytes 3 1604 16 ++ c.client_id))
unfolding crc_verdict discard_file remove_disk change_files change_client delete_file
crc_verdict-902 r k j c file content s is unverified there can row sends =
    rw
      (
        unverified,
        is,
        there,
        can,
        fewer,
        thank_you_answer_lem c.client_id (discarded k j file s) sends,
      )
      refl
  where
    fewer : (length (without_name file.file_name s.files_table) == length s.files_table) ≡ false
    fewer =
        ground
          (arith, length-without_name-has_file_row c.client_id file.file_name s.files_table row)

module _ (py : PyLibrary) where
  -- A verdict goes to the file that it names, of the client whose ID it carries.
  pub crc_response_900_901_902_lem :
      (name rest : Bytes) (k j : ℕ) (c : ServerClient) (file : ServerFile) (r : ServerRequest)
      (s : State)
      → IsName name
      → find_id r.client_id s.clients_list ≡ some k
      → get_elem? s.clients_list k ≡ some c
      → find_file name c.files_list ≡ some j
      → get_elem? c.files_list j ≡ some file
      → s.arrived ≡ text_field name ++ rest
      → crc_response_900_901_902 py r s
        ≡ crc_verdict r k
            (record c { last_seen_date = py.now (s.readings + 1) })
            j
            file
            (seen py k c.client_id (arriving s rest))
  unfolding crc_response_900_901_902
  crc_response_900_901_902_lem name rest k j c file r s is found at has_file file_at e =
      let s1 : State = arriving s rest in
      let s2 : State = seen py k c.client_id s1 in
      let c2 : ServerClient = record c { last_seen_date = py.now (s.readings + 1) } in
      rw
        (
          recv_name_lem name rest s is e,
          found,
          last_seen_lem py k c s1 at,
          client_at_lem k c2 s2 (get_elem?-modify _ k s.clients_list c at),
          has_file,
          file_at,
        )
        refl

  -- Where the sends go through, on the verdict 902 on a file that is found in its client's list with
  -- no verdict, is on the disk, can be removed and has a row: the file is not on the disk any more, its
  -- client's list is what stood before it and behind it, no client has a row with its name, and the
  -- thanks 1604 with the client's ID have been sent.
  pub crc_response-902 :
      (owner name content rest : Bytes) (k j : ℕ) (c : ServerClient) (file : ServerFile)
      (r : ServerRequest) (s : State)
      → IsName name
      → r.code ≡ 902
      → find_id r.client_id s.clients_list ≡ some k
      → get_elem? s.clients_list k ≡ some c
      → find_file name c.files_list ≡ some j
      → get_elem? c.files_list j ≡ some file
      → file.valid_crc ≡ false
      → s.disk file.path ≡ some content
      → s.can_write file.path ≡ true
      → has_file_row c.client_id name s.files_table ≡ true
      → Sends s
      → s.arrived ≡ text_field name ++ rest
      → (s' : State) × (c' : ServerClient) × (crc_response_900_901_902 py r s ≡ (returned tt, s'))
        × (s'.disk file.path ≡ none)
        × (get_elem? s'.clients_list k ≡ some c')
        × (c'.files_list ≡ take j c.files_list ++ drop (j + 1) c.files_list)
        × (has_file_row owner name s'.files_table ≡ false)
        × (s'.sent ≡ s.sent ++ (header_bytes 3 1604 16 ++ c.client_id))
  crc_response-902 owner name content rest k j c file r s is code found at has_file file_at
        unverified there can row sends e =
      let named : file.file_name ≡ name =
        find_file-name name c.files_list j file has_file file_at in
      let s1 : State = seen py k c.client_id (arriving s rest) in
      let c1 : ServerClient = record c { last_seen_date = py.now (s.readings + 1) } in
      (
        saying (discarded k j file s1) (header_bytes 3 1604 16 ++ c.client_id),
        record c1 { files_list = remove j c.files_list },
        crc_response_900_901_902_lem name rest k j c file r s is found at has_file file_at e
            ∙ crc_verdict-902 r k j c1 file content s1 code unverified there can (rw named row)
                sends,
        rw (bytes_eq_refl file.path) refl,
        get_elem?-modify _ k _ _ (get_elem?-modify _ k s.clients_list c at),
        remove-take-drop j c.files_list,
        rw named (no_row_left owner name s.files_table),
        refl,
      )
