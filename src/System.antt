-- ===== src/System.antt =====
-- The client of Client/ and the server of Server/ together: a first run.
use secure_file_transfer_sys.Base.{
  ℕ, ◌+◌, ◌/◌, ◌<◌, ◌≤◌, ◌≡◌, refl, sym, ap, ap₂, ◌∙◌, arith, none, List, [], ◌∷◌, ◌++◌,
  append_assoc, append-nil, length, All,
}
use secure_file_transfer_sys.Runtime.{Bytes, World, done}
use secure_file_transfer_sys.Library.{Library, BoostLaws}
use secure_file_transfer_sys.Wire.{u16_bytes, u32_bytes, request_bytes, text_field, packet_payload}
use secure_file_transfer_sys.Request.{new_request, message}
use secure_file_transfer_sys.Request.Layout.{message_lem}
use secure_file_transfer_sys.Answer.Fields.{header_bytes}
use secure_file_transfer_sys.ClientOb.{Client}
use secure_file_transfer_sys.Cksum.Value.{checksum}
use secure_file_transfer_sys.Various.{find_file_name, me_info}
use secure_file_transfer_sys.Session.Packets.{Transfer}
use secure_file_transfer_sys.Session.Packets.Pieces.{IsCut}
use secure_file_transfer_sys.Session.Packets.Loop.{packets}
use secure_file_transfer_sys.Session.Finish.Crc.{finish_request_of, verdict}
use secure_file_transfer_sys.Session.Connect.{main}
use secure_file_transfer_sys.Session.Round.{round_messages, transfer_of}
use secure_file_transfer_sys.Session.Success.{same_crc}
use secure_file_transfer_sys.Session.Registered.{CanRegister, identified_of, good_conversation}
use secure_file_transfer_sys.Session.FirstRun.{Configures, configured, main-success}
use secure_file_transfer_sys.Server.Checksum.Same.{memcrc-checksum}
use secure_file_transfer_sys.Server.Runtime.{PyLibrary, State, returned}
use secure_file_transfer_sys.Server.Connection.Exchange.{IsName}
use secure_file_transfer_sys.Server.Loop.{serve}
use secure_file_transfer_sys.Server.Loop.Holding.{packet_messages}
use secure_file_transfer_sys.Server.Loop.Transfer.{IsPiece}
use secure_file_transfer_sys.Server.Loop.Verdict.{length-text_field, Keeps}
use secure_file_transfer_sys.Server.Loop.Joining.{registration_message, public_key_message}
use secure_file_transfer_sys.Server.Loop.Session.{
  Welcomes, client_messages, server_answers, serve-session,
}

-- The packets that the client sends are those that the server's theorems speak of.
packets-packet_messages :
    (id : Bytes) (t : Transfer) (total number : ℕ) (cut : List Bytes)
    → packets id t total number cut
      ≡ packet_messages id (length t.encrypted_file) t.original_size total number t.file_name cut
packets-packet_messages id t total number [] = refl
packets-packet_messages id t total number (c ∷ r) =
    ap
      (λ l.
        request_bytes id 828
          (packet_payload (length t.encrypted_file) t.original_size number total t.file_name c)
        ∷ l)
      (packets-packet_messages id t total (number + 1) r)

IsCut-pieces : (cut : List Bytes) → IsCut cut → All IsPiece cut
IsCut-pieces [] is = tt
IsCut-pieces (c ∷ []) (some_left, short) = ((omega arith, short), tt)
IsCut-pieces (c ∷ d ∷ r) (full, is) = ((omega arith, omega arith), IsCut-pieces (d ∷ r) is)

four_answers :
    (a id b sealed c n f crc d : Bytes)
    → (a ++ id) ++ ((b ++ (id ++ sealed)) ++ ((c ++ (id ++ (n ++ (f ++ crc)))) ++ (d ++ id)))
      ≡ a
        ++ (id
            ++ (b ++ (id ++ (sealed ++ (c ++ (id ++ (n ++ (f ++ (crc ++ (d ++ (id ++ [])))))))))))
four_answers a id b sealed c n f crc d = simp (append_assoc, append-nil)

-- What the server answers is what the client waits for.
good_conversation-server_answers :
    (name path id sealed file encrypted : Bytes)
    → server_answers id sealed (find_file_name path) (length encrypted) file
      ≡ header_bytes 3 1600 16
        ++ good_conversation (configured name path) id sealed file encrypted 279 16 []
good_conversation-server_answers name path id sealed file encrypted = rw (memcrc-checksum file) (
    four_answers (header_bytes 3 1600 16) id (header_bytes 3 1602 (16 + length sealed)) sealed
      (header_bytes 3 1603 279) (u32_bytes (length encrypted)) (text_field (find_file_name path))
      (u32_bytes (checksum file)) (header_bytes 3 1604 16))

-- The request of the verdict, as the client builds it and as the protocol lays it out.
verdict-message :
    (client : Client) (crc : ℕ)
    → length client.client_id ≡ 16
    → length client.file_name ≤ 255
    → message (finish_request_of (verdict crc crc 0) client new_request)
      ≡ request_bytes client.client_id 900 (text_field client.file_name)
unfolding new_request
verdict-message client crc id_size fits = rw (same_crc crc 0) (
    message_lem (finish_request_of 900 client new_request)
      (record { id_size = id_size; is_version = refl; code_size = refl; size_size = refl })
    ∙ ap
        (λ n.
          client.client_id ++ (3 ∷ (u16_bytes 900 ++ (u32_bytes n ++ text_field client.file_name))))
        (sym (length-text_field client.file_name fits)))

same_messages :
    (client : Client) (file encrypted : Bytes) (cut : List Bytes) (first second : Bytes)
    → length client.client_id ≡ 16
    → length client.file_name ≤ 255
    → length cut ≡ (length encrypted + 4095) / 4096
    → first ∷ second ∷ round_messages client file encrypted (checksum file) 0 cut
      ≡ first
        ∷ second
        ∷ (packet_messages client.client_id
              (length encrypted)
              (length file)
              (length cut)
              1
              client.file_name
              cut
            ++ request_bytes client.client_id 900 (text_field client.file_name) ∷ [])
same_messages client file encrypted cut first second id_size fits count =
    ap₂ (λ p v. first ∷ second ∷ (p ++ v ∷ []))
      (packets-packet_messages client.client_id (transfer_of client file encrypted)
          ((length encrypted + 4095) / 4096) 1 cut
        ∙ ap
            (λ n.
              packet_messages client.client_id (length encrypted) (length file) n 1 client.file_name
                cut)
            (sym count))
      (verdict-message client (checksum file) id_size fits)

-- Under the laws of Boost.Endian, for a client and a server on which a first run goes right (the
-- configuration is accepted, the two names are UTF-8 without a zero, the UUID that is drawn has 16 bytes
-- and no zero, the client's name is free, files and folders can be written, the sends of both go
-- through, the file has less than 2^31 bytes, its encrypted form is not empty and fits 65535 packets,
-- and the ciphers of the two undo each other on this file and this key): where the client receives exactly what the
-- server sends, `main` returns, the server takes all that the client has sent without an error, and
-- it ends with the client's file in plain, verified, all of its answers read.
pub main-served :
    (lib : Library) (laws : BoostLaws lib) (py : PyLibrary) (w : World) (s : State)
    (address port name path sealed file encrypted : Bytes)
    → Configures w address port name path
    → w.files me_info ≡ none
    → CanRegister lib (configured name path) w (py.uuid4 s.ids_made) sealed file encrypted
    → IsName name
    → IsName (find_file_name path)
    → Welcomes py s name
        (find_file_name path)
        (lib.rsa_public_of (lib.rsa_generate w.keys_made))
        sealed
        encrypted
        file
    → 0 < length encrypted
    → w.inbox
      ≡ server_answers (py.uuid4 s.ids_made) sealed (find_file_name path) (length encrypted) file
    → (messages : List Bytes) × (s' : State) × ((main lib w).0 ≡ done tt)
      × ((main lib w).1.outbox ≡ w.outbox ++ messages)
      × ((main lib w).1.inbox ≡ [])
      × (serve py messages s ≡ (returned tt, s'))
      × (s'.sent ≡ s.sent ++ w.inbox)
      × Keeps (py.uuid4 s.ids_made) (find_file_name path) file s'
main-served lib laws py w s address port name path sealed file encrypted conf first can name_ok
      file_name_ok welcome some_file answers =
    let id = py.uuid4 s.ids_made in
    let file_name = find_file_name path in
    let key = lib.rsa_public_of (lib.rsa_generate w.keys_made) in
    let fits = can.fits in
    let file_fits = can.file_fits in
    let (cut, joined, is_cut, count, run) =
      main-success lib laws w address port name path id sealed file encrypted [] 279 16 conf first
        can (omega arith) (omega arith)
        (answers ∙ good_conversation-server_answers name path id sealed file encrypted) in
    let (s', keeps, sent, served) =
      serve-session py name file_name key sealed encrypted file s name_ok file_name_ok welcome
        (length encrypted) cut (omega arith) (omega arith) (omega arith) (omega arith)
        (IsCut-pieces cut is_cut) joined in
    (
      client_messages id name file_name key (length encrypted) (length file) cut,
      s',
      ap (λ r. r.0) run,
      ap (λ r. r.1.outbox) run
          ∙ ap (λ m. w.outbox ++ m)
              (same_messages (identified_of (configured name path) id) file encrypted cut
                (registration_message name) (public_key_message id name key) welcome.id_size
                file_name_ok.size count),
      ap (λ r. r.1.inbox) run,
      served,
      sent ∙ ap (λ t. s.sent ++ t) (sym answers),
      keeps,
    )
