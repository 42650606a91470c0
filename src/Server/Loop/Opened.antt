-- ===== src/Server/Loop/Opened.antt =====
-- Server/server.py, Server/request.py: a whole file, from the state that its first packet leaves.
use secure_file_transfer_sys.Base.{
  ℕ, ◌+◌, ◌^◌, ◌<◌, ◌≡◌, refl, sym, ap, ◌∙◌, subst, arith, true, List, [], ◌∷◌, ◌++◌, append-nil,
  length, All,
}
use secure_file_transfer_sys.Runtime.{Bytes}
use secure_file_transfer_sys.Wire.{request_bytes, packet_payload}
use secure_file_transfer_sys.Session.Packets.Pieces.{join}
use secure_file_transfer_sys.Server.Runtime.{PyLibrary, ServerFile, ServerClient, State, returned}
use secure_file_transfer_sys.Server.Connection.Exchange.{IsName, arriving, saying}
use secure_file_transfer_sys.Server.Disk.{file_path}
use secure_file_transfer_sys.Server.Files.{finish_packet, send_file_request_828}
use secure_file_transfer_sys.Server.Files.Packets.{packet, written, received_answer, Opens}
use secure_file_transfer_sys.Server.Files.Steps.{finish_packet-more, finish_packet-last}
use secure_file_transfer_sys.Server.Loop.{dispatch, read, serve}
use secure_file_transfer_sys.Server.Loop.Reading.{request_of, read-returned}
use secure_file_transfer_sys.Server.Loop.Holding.{
  Received, Holds, packet_message, packet_messages, rewritten-Holds,
}
use secure_file_transfer_sys.Server.Loop.Transfer.{serve-step, IsPiece, is_request, serve-later}

module _ (py : PyLibrary) (id name aes plain : Bytes) (size total : ℕ) (id_size : length id ≡ 16)
    (name_ok : IsName name) (size_ok : size < 2 ^ 32) (plain_ok : length plain < 2 ^ 32)
    (total_ok : total < 2 ^ 16) where
  abbrev first_payload : Bytes → Bytes
  first_payload content = packet_payload size (length plain) 1 total name content

  read-first :
      (content : Bytes) (s s' : State)
      → s.arrived ≡ []
      → IsPiece content
      → send_file_request_828 py
          (request_of id 828 (length (first_payload content)))
          (arriving s (first_payload content))
        ≡ (returned tt, s')
      → read py (record s {
        arrived = s.arrived ++ packet_message id size (length plain) 1 total name content;
      })
        ≡ (returned true, s')
  unfolding dispatch
  read-first content s s' empty (some_content, short) ends =
      let payload = first_payload content in
      rw empty (
        read-returned py id 828 payload (arriving s (request_bytes id 828 payload)) s'
          (is_request py id name aes size (length plain) total id_size name_ok size_ok plain_ok
            total_ok 1 content short)
          refl ends)

  -- The state after the first packet but for what `finish_packet` does: which client and which file it
  -- is called with, and that it is the rest of the handler.
  pub record Opening (content : Bytes) (s s1 : State) : Type 0 where
    pub c : ServerClient
    pub file : ServerFile
    pub holds : Holds id name aes content s1
    pub same : c.client_id ≡ id
    pub key : c.aes_key ≡ aes
    pub named : file.file_name ≡ name
    pub placed : file.path ≡ file_path holds.c.client_name name
    pub unsaid : s1.sent ≡ s.sent
    pub handler :
        send_file_request_828 py
          (request_of id 828 (length (first_payload content)))
          (arriving s (first_payload content))
        ≡ finish_packet py file c (packet size (length plain) 1 total name content) s1

  read-only :
      (content : Bytes) (s s1 : State)
      → s.arrived ≡ []
      → Opening content s s1
      → total ≡ 1
      → IsPiece content
      → Opens py aes content plain
      → (s' : State) × Received id name aes plain size s s'
        × (read py (record s {
          arrived = s.arrived ++ packet_message id size (length plain) 1 total name content;
        })
            ≡ (returned true, s'))
  read-only content s s1 empty o one piece opens =
      let h1 = o.holds in
      let text = received_answer o.c.client_id size o.file.file_name plain in
      (
        saying (written h1.file.path plain s1) text,
        (
          rewritten-Holds py id name aes content plain text s1 h1,
          ap (λ t. t ++ text) o.unsaid ∙ rw (o.same, o.named) refl,
        ),
        read-first content s _ empty piece (
            o.handler
            ∙ rw one (
                finish_packet-last py o.file o.c size 1 name content content plain s1 size_ok
                  (rw o.placed h1.there) (rw o.placed h1.target.can) h1.sends (rw o.key opens))
            ∙ ap (λ p. (returned tt, saying (written p plain s1) text)) (o.placed ∙ sym h1.placed)),
      )

  -- The packets of a file, in their order, whatever is served after them: the decrypted file is on
  -- disk, and the answer 1603 carries its checksum.
  pub serve-opened :
      (content : Bytes) (more : List Bytes) (s s1 : State) (after : List Bytes)
      → s.arrived ≡ []
      → Opening content s s1
      → All IsPiece (content ∷ more)
      → 1 + length more ≡ total
      → Opens py aes (join (content ∷ more)) plain
      → (s' : State) × Received id name aes plain size s s'
        × (serve py
              (packet_messages id size (length plain) total 1 name (content ∷ more) ++ after)
              s
            ≡ serve py after s')
  unfolding serve
  serve-opened content [] s s1 after empty o (piece, done) count opens =
      let (s', received, e) =
        read-only content s s1 empty o (omega arith) piece
          (subst (λ t. Opens py aes t plain) (append-nil content) opens) in
      (s', received, serve-step py _ after s s' e)
  serve-opened content (d ∷ more) s s1 after empty o (piece, pieces) count opens =
      let (s', (holds, sent), e) =
        serve-later py id name aes plain size total id_size name_ok size_ok plain_ok total_ok d more
          2 content s1 after pieces (omega arith) (omega arith) o.holds opens in
      (
        s',
        (holds, sent ∙ ap (λ t. t ++ received_answer id size name plain) o.unsaid),
        serve-step py _ (packet_messages id size (length plain) total 2 name (d ∷ more) ++ after) s
              s1
              (read-first content s s1 empty piece (
                o.handler
                ∙ finish_packet-more py o.file o.c size (length plain) 1 total name content s1
                    (omega arith)))
            ∙ e,
      )
