-- ===== src/Server/Loop/Transfer.antt =====
-- Server/server.py, Server/request.py: the packets of a file after the first.
use secure_file_transfer_sys.Base.{
  ℕ, ◌+◌, ◌^◌, ◌<◌, ◌≤◌, ◌≡◌, ◌≢◌, refl, sym, ap, ◌∙◌, subst, arith, true, List, [], ◌∷◌, ◌++◌,
  append_assoc, append-nil, length, All,
}
use secure_file_transfer_sys.Runtime.{Bytes}
use secure_file_transfer_sys.Wire.{request_bytes, packet_payload}
use secure_file_transfer_sys.Session.Packets.Pieces.{join}
use secure_file_transfer_sys.Server.Runtime.{PyLibrary, State, returned}
use secure_file_transfer_sys.Server.Connection.Exchange.{IsName, arriving, saying}
use secure_file_transfer_sys.Server.Disk.{file_path}
use secure_file_transfer_sys.Server.Files.{finish_packet}
use secure_file_transfer_sys.Server.Files.Packets.{packet, Fits, written, received_answer, Opens}
use secure_file_transfer_sys.Server.Files.Steps.{
  finish_packet-more, finish_packet-last, send_file_request_828-later,
}
use secure_file_transfer_sys.Server.Loop.{dispatch, read, serve}
use secure_file_transfer_sys.Server.Loop.Reading.{request_of, IsRequest, read-returned}
use secure_file_transfer_sys.Server.Loop.Holding.{
  Received, Holds, packet_message, packet_messages, length-packet_payload, updated, stored,
  stored-Holds, rewritten-Holds,
}

pub serve-step :
    (py : PyLibrary) (message : Bytes) (messages : List Bytes) (s s' : State)
    → read py (record s { arrived = s.arrived ++ message }) ≡ (returned true, s')
    → serve py (message ∷ messages) s ≡ serve py messages s'
unfolding serve
serve-step py message messages s s' e = rw e refl

-- A piece of a file that a packet carries.
abbrev pub IsPiece : Bytes → Type 0
IsPiece content = (0 < length content) × (length content ≤ 4096)

module _ (py : PyLibrary) (id name aes : Bytes) (size original total : ℕ) (id_size : length id ≡ 16)
    (name_ok : IsName name) (size_ok : size < 2 ^ 32) (original_ok : original < 2 ^ 32)
    (total_ok : total < 2 ^ 16) where
  pub fits : (number : ℕ) → number ≤ total → Fits size original number total name
  fits number h = record {
    size_fits = size_ok;
    original_fits = original_ok;
    number_fits = omega arith;
    total_fits = total_ok;
    name_fits = name_ok;
  }

  pub is_request :
      (number : ℕ) (content : Bytes)
      → length content ≤ 4096
      → IsRequest id 828 (packet_payload size original number total name content)
  is_request number content short = record {
    id_size = id_size;
    code_fits = omega arith;
    payload_fits =
        omega (arith, length-packet_payload size original number total name content name_ok.size);
  }

  -- A later packet: what is left to say is how `finish_packet` ends.
  read-later :
      (number : ℕ) (so_far content : Bytes) (s s' : State) (h : Holds id name aes so_far s)
      → number ≢ 1
      → number ≤ total
      → 0 < length content
      → length content ≤ 4096
      → finish_packet py h.file h.c
          (packet size original number total name content)
          (stored py id name aes s h (so_far ++ content))
        ≡ (returned tt, s')
      → read py (record s {
        arrived = s.arrived ++ packet_message id size original number total name content;
      })
        ≡ (returned true, s')
  unfolding dispatch
  read-later number so_far content s s' h other in_range some_content short ends =
      let payload = packet_payload size original number total name content in
      rw h.nothing_else (
        read-returned py id 828 payload (arriving s (request_bytes id 828 payload)) s'
          (is_request number content short) refl
          (send_file_request_828-later py size original number total name content so_far [] h.k h.j
              h.c h.file (request_of id 828 (length payload)) (arriving s payload)
              (fits number in_range) other some_content
              (length-packet_payload size original number total name content name_ok.size)
              (record {
                found = h.target.found;
                at = h.target.at;
                same = h.target.same;
                can = h.target.can;
              })
              h.has_file h.file_at h.there
              (ap (λ t. packet_payload size original number total name t)
                (sym (append-nil content)))
            ∙ ends))

  read-more :
      (number : ℕ) (so_far content : Bytes) (s : State) (h : Holds id name aes so_far s)
      → number ≢ 1
      → number < total
      → IsPiece content
      → read py (record s {
        arrived = s.arrived ++ packet_message id size original number total name content;
      })
        ≡ (returned true, stored py id name aes s h (so_far ++ content))
  read-more number so_far content s h other in_range (some_content, short) =
      read-later number so_far content s (stored py id name aes s h (so_far ++ content)) h other
        (omega arith) some_content short
        (finish_packet-more py h.file h.c size original number total name content _ in_range)

module _ (py : PyLibrary) (id name aes plain : Bytes) (size total : ℕ) (id_size : length id ≡ 16)
    (name_ok : IsName name) (size_ok : size < 2 ^ 32) (plain_ok : length plain < 2 ^ 32)
    (total_ok : total < 2 ^ 16) where
  read-last :
      (so_far content : Bytes) (s : State)
      → Holds id name aes so_far s
      → 1 < total
      → IsPiece content
      → Opens py aes (so_far ++ content) plain
      → (s' : State) × Received id name aes plain size s s'
        × (read py (record s {
          arrived = s.arrived ++ packet_message id size (length plain) total total name content;
        })
            ≡ (returned true, s'))
  unfolding stored-Holds
  read-last so_far content s h many (some_content, short) opens =
      let whole = so_far ++ content in
      let s1 : State = stored py id name aes s h whole in
      let h1 = stored-Holds py id name aes so_far whole s h in
      let text = received_answer h.c.client_id size h.file.file_name plain in
      (
        saying (written h.file.path plain s1) text,
        (rewritten-Holds py id name aes whole plain text s1 h1, rw (h.target.same, h.named) refl),
        read-later py id name aes size (length plain) total id_size name_ok size_ok plain_ok
            total_ok total so_far content s _ h (omega arith) (omega arith) some_content short
            (finish_packet-last py h.file h.c size total name content whole plain s1 size_ok
              (rw h.placed (updated s.disk (file_path h.c.client_name name) whole))
              (rw h.placed h.target.can) h.sends (rw h.key opens)),
      )

  -- The packets from the second on.
  pub serve-later :
      (content : Bytes) (more : List Bytes) (number : ℕ) (so_far : Bytes) (s : State)
      (after : List Bytes)
      → All IsPiece (content ∷ more)
      → 1 < number
      → number + length more ≡ total
      → Holds id name aes so_far s
      → Opens py aes (so_far ++ join (content ∷ more)) plain
      → (s' : State) × Received id name aes plain size s s'
        × (serve py
              (packet_messages id size (length plain) total number name (content ∷ more) ++ after)
              s
            ≡ serve py after s')
  unfolding serve
  serve-later content [] number so_far s after (piece, done) later count h opens =
      let last : number ≡ total = omega arith in
      let (s', received, e) =
        read-last so_far content s h (omega arith) piece
          (subst (λ t. Opens py aes (so_far ++ t) plain) (append-nil content) opens) in
      (s', received, serve-step py _ after s s' (rw last e))
  serve-later content (d ∷ more) number so_far s after (piece, pieces) later count h opens =
      let whole = so_far ++ content in
      let s1 : State = stored py id name aes s h whole in
      let (s', received, e) =
        serve-later d more (number + 1) whole s1 after pieces (omega arith) (omega arith)
          (stored-Holds py id name aes so_far whole s h)
          (subst (λ t. Opens py aes t plain) (sym (append_assoc so_far content (join (d ∷ more))))
            opens) in
      (
        s',
        received,
        serve-step py _
              (packet_messages id size (length plain) total (number + 1) name (d ∷ more) ++ after) s
              s1
              (read-more py id name aes size (length plain) total id_size name_ok size_ok plain_ok
                total_ok number so_far content s h (omega arith) (omega arith) piece)
            ∙ e,
      )
