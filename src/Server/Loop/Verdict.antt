-- ===== src/Server/Loop/Verdict.antt =====
-- Server/server.py, Server/request.py: the client's verdict on a whole file.
use secure_file_transfer_sys.Base.{
  ℕ, ◌+◌, ◌-◌, ◌≤◌, ◌≡◌, refl, sym, ap, ◌∙◌, arith, true, some, [], ◌++◌, append-nil, length,
  length-append, length-replicate, replicate, get_elem?,
}
use secure_file_transfer_sys.Runtime.{Bytes}
use secure_file_transfer_sys.Wire.{request_bytes, text_field}
use secure_file_transfer_sys.Answer.Fields.{header_bytes}
use secure_file_transfer_sys.Server.Runtime.{PyLibrary, ServerFile, ServerClient, State, returned}
use secure_file_transfer_sys.Server.Connection.Exchange.{IsName, arriving, saying}
use secure_file_transfer_sys.Server.Registry.{modify, find_id, find_file}
use secure_file_transfer_sys.Server.Registry.Places.{
  get_elem?-modify, find_id-modify, find_file-modify,
}
use secure_file_transfer_sys.Server.Disk.{file_path}
use secure_file_transfer_sys.Server.Keys.Sealing.{seen}
use secure_file_transfer_sys.Server.Verdicts.Verified.{
  verified, crc_verdict-900, crc_response_900_901_902_lem,
}
use secure_file_transfer_sys.Server.Loop.{dispatch, read}
use secure_file_transfer_sys.Server.Loop.Reading.{request_of, read-returned}
use secure_file_transfer_sys.Server.Loop.Holding.{Holds}

pub length-text_field : (name : Bytes) → length name ≤ 255 → length (text_field name) ≡ 255
length-text_field name h = omega (
  arith,
  length-append name (replicate (255 - length name) 0),
  length-replicate {A = ℕ} (255 - length name) 0,
)

-- A client's file on the server's disk, with the verdict that its checksum is right.
pub record Keeps (id name plain : Bytes) (s : State) : Type 0 where
  pub k : ℕ
  pub j : ℕ
  pub c : ServerClient
  pub file : ServerFile
  pub found : find_id id s.clients_list ≡ some k
  pub at : get_elem? s.clients_list k ≡ some c
  pub same : c.client_id ≡ id
  pub has_file : find_file name c.files_list ≡ some j
  pub file_at : get_elem? c.files_list j ≡ some file
  pub verdict : file.valid_crc ≡ true
  pub there : s.disk (file_path c.client_name name) ≡ some plain

module _ (py : PyLibrary) (id name aes plain : Bytes) where
  abbrev judged : (s : State) → Holds id name aes plain s → State
  judged s h = verified h.k h.j h.c.client_id (seen py h.k h.c.client_id (arriving s []))

  judged-Keeps :
      (text : Bytes) (s : State) (h : Holds id name aes plain s)
      → Keeps id name plain (saying (judged s h) text)
  judged-Keeps text s h =
      let date = py.now (s.readings + 1) in
      let at1 =
        get_elem?-modify (λ c. record c { last_seen_date = date }) h.k s.clients_list h.c
          h.target.at in
      record {
        k = h.k;
        j = h.j;
        c = record h.c {
          last_seen_date = date;
          files_list = modify (λ f. record f { valid_crc = true }) h.j h.c.files_list;
        };
        file = record h.file { valid_crc = true };
        found =
            find_id-modify id _ h.k _ (λ c. refl)
            ∙ find_id-modify id _ h.k s.clients_list (λ c. refl)
            ∙ h.target.found;
        at = get_elem?-modify _ h.k _ _ at1;
        same = h.target.same;
        has_file = find_file-modify name _ h.j h.c.files_list (λ f. refl) ∙ h.has_file;
        file_at = get_elem?-modify _ h.j h.c.files_list h.file h.file_at;
        verdict = refl;
        there = h.there;
      }

  -- The verdict 900 is answered with the thanks 1604, and the file is verified from then on.
  pub read-verified :
      (s : State)
      → length id ≡ 16
      → IsName name
      → Holds id name aes plain s
      → (s' : State) × Keeps id name plain s'
        × (s'.sent ≡ s.sent ++ (header_bytes 3 1604 16 ++ id))
        × (read py (record s { arrived = s.arrived ++ request_bytes id 900 (text_field name) })
            ≡ (returned true, s'))
  unfolding dispatch
  read-verified s id_size is h =
      let field = text_field name in
      let c2 : ServerClient = record h.c { last_seen_date = py.now (s.readings + 1) } in
      let r = request_of id 900 (length field) in
      (
        saying (judged s h) (header_bytes 3 1604 16 ++ h.c.client_id),
        judged-Keeps _ s h,
        ap (λ i. s.sent ++ (header_bytes 3 1604 16 ++ i)) h.target.same,
        rw h.nothing_else (
            read-returned py id 900 field (arriving s (request_bytes id 900 field)) _
              (record {
                id_size = id_size;
                code_fits = omega arith;
                payload_fits = omega (arith, length-text_field name is.size);
              })
              refl
              (crc_response_900_901_902_lem py name [] h.k h.j h.c h.file r (arriving s field) is
                  h.target.found h.target.at h.has_file h.file_at (sym (append-nil field))
                ∙ crc_verdict-900 r h.k h.j c2 h.file (seen py h.k h.c.client_id (arriving s []))
                    refl h.unverified h.sends)),
      )
