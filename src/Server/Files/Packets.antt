-- ===== src/Server/Files/Packets.antt =====
-- Server/request.py: what one packet of a file does to the server's state.
use secure_file_transfer_sys.Server.Connection.Exchange.{
  sendall_lem, Sends, IsName, arriving, saying, recv_lem, recv_int-u16, recv_int-u32, recv_name_lem,
  send_header_to_client_lem,
}
use secure_file_transfer_sys.Base.{
  ℕ, ◌+◌, ◌-◌, ◌^◌, ◌<◌, ◌≡◌, refl, ap, ◌∙◌, arith, true, false, some, ◌++◌, append_assoc, length,
  replicate, ◌==◌, ltb,
}
use secure_file_transfer_sys.Runtime.{Bytes, update}
use secure_file_transfer_sys.Wire.{u16_bytes, u32_bytes, text_field, packet_payload}
use secure_file_transfer_sys.Answer.Fields.{header_bytes}
use secure_file_transfer_sys.Server.Runtime.{PyLibrary, ServerFile, ServerClient, State, returned}
use secure_file_transfer_sys.Server.Text.{ljust}
use secure_file_transfer_sys.Server.Text.Laws.{convert_int_to_byte-u32}
use secure_file_transfer_sys.Server.Checksum.{memcrc}
use secure_file_transfer_sys.Server.Connection.{send_int}
use secure_file_transfer_sys.Server.Disk.{write_disk}
use secure_file_transfer_sys.Server.Header.{ServerRequest}
use secure_file_transfer_sys.Server.Files.{Packet, recv_packet, create_decrypted_file, last_packet}

abbrev pub packet : ℕ → ℕ → ℕ → ℕ → Bytes → Bytes → Packet
packet size original number total name content = record {
  content_size = size;
  orig_file_size = original;
  packet_number = number;
  total_packets = total;
  file_name = name;
  content = content;
}

-- The numbers of a packet fit their fields.
pub record Fits (size original number total : ℕ) (name : Bytes) : Type 0 where
  pub size_fits : size < 2 ^ 32
  pub original_fits : original < 2 ^ 32
  pub number_fits : number < 2 ^ 16
  pub total_fits : total < 2 ^ 16
  pub name_fits : IsName name

pub memcrc-word : (b : Bytes) → memcrc b < 2 ^ 32
unfolding memcrc
memcrc-word b = omega arith

abbrev pub written : Bytes → Bytes → State → State
written path content s = record s { disk = update s.disk path content }

pub write_disk_lem :
    (path content : Bytes) (s : State)
    → s.can_write path ≡ true
    → write_disk path content s ≡ (returned tt, written path content s)
unfolding write_disk
write_disk_lem path content s e = rw e refl

-- The answer to the last packet of a file.
abbrev pub received_answer : Bytes → ℕ → Bytes → Bytes → Bytes
received_answer id size name plain =
    header_bytes 3 1603 279
    ++ (id ++ (u32_bytes size ++ (text_field name ++ u32_bytes (memcrc plain))))

five_sendings :
    (a b c d e f : Bytes) → ((((a ++ b) ++ c) ++ d) ++ e) ++ f ≡ a ++ (b ++ (c ++ (d ++ (e ++ f))))
five_sendings a b c d e f =
    append_assoc (((a ++ b) ++ c) ++ d) e f
    ∙ append_assoc ((a ++ b) ++ c) d (e ++ f)
    ∙ append_assoc (a ++ b) c (d ++ (e ++ f))
    ∙ append_assoc a b (c ++ (d ++ (e ++ f)))

pub recv_packet_lem :
    (size original number total : ℕ) (name content rest : Bytes) (r : ServerRequest) (s : State)
    → Fits size original number total name
    → 0 < length content
    → r.payload_size ≡ 267 + length content
    → s.arrived ≡ packet_payload size original number total name (content ++ rest)
    → recv_packet r s ≡ (returned (packet size original number total name content), arriving s rest)
unfolding recv_packet
recv_packet_lem size original number total name content rest r s fits some_content length_ok e =
    let after_total = text_field name ++ (content ++ rest) in
    let after_number = u16_bytes total ++ after_total in
    let after_original = u16_bytes number ++ after_number in
    let after_size = u32_bytes original ++ after_original in
    rw
      (
        recv_int-u32 size after_size s fits.size_fits e,
        recv_int-u32 original after_original (arriving s after_size) fits.original_fits refl,
        recv_int-u16 number after_number (arriving s after_original) fits.number_fits refl,
        recv_int-u16 total after_total (arriving s after_number) fits.total_fits refl,
        recv_name_lem name (content ++ rest) (arriving s after_total) fits.name_fits refl,
        long_enough,
        recv_lem (r.payload_size - 267) content rest (arriving s (content ++ rest)) (omega arith)
            (omega arith) refl,
      )
      refl
  where
    long_enough : ltb r.payload_size 267 ≡ false
    long_enough = ground arith

module _ (py : PyLibrary) where
  -- What the key makes of the encrypted file.
  pub record Opens (aes encrypted plain : Bytes) : Type 0 where
    pub padded : Bytes
    pub decrypts : py.cbc_decrypt aes (replicate 16 0) encrypted ≡ some padded
    pub unpads : py.unpad padded 16 ≡ some plain

  pub create_decrypted_file_lem :
      (path aes encrypted plain : Bytes) (s : State)
      → s.disk path ≡ some encrypted
      → s.can_write path ≡ true
      → Opens aes encrypted plain
      → create_decrypted_file py path aes s ≡ (returned plain, written path plain s)
  unfolding create_decrypted_file
  create_decrypted_file_lem path aes encrypted plain s there can opens =
      rw (there, opens.decrypts, opens.unpads, write_disk_lem path plain s can) refl

  pub last_packet_lem :
      (file : ServerFile) (client : ServerClient) (encrypted plain : Bytes) (size : ℕ) (s : State)
      → size < 2 ^ 32
      → s.disk file.path ≡ some encrypted
      → s.can_write file.path ≡ true
      → Sends s
      → Opens client.aes_key encrypted plain
      → last_packet py file client size (length plain) s ≡ (
        returned tt,
        saying
            (written file.path plain s)
            (received_answer client.client_id size file.file_name plain),
      )
  unfolding last_packet send_int ljust
  last_packet_lem file client encrypted plain size s small there can sends opens =
      let s1 : State = saying (written file.path plain s) (header_bytes 3 1603 279) in
      let s2 : State = saying s1 client.client_id in
      let s3 : State = saying s2 (u32_bytes size) in
      let s4 : State = saying s3 (text_field file.file_name) in
      rw
        (
          create_decrypted_file_lem file.path client.aes_key encrypted plain s there can opens,
          same_size (length plain),
          send_header_to_client_lem 1603 279 (written file.path plain s) (omega arith) (omega arith)
              sends,
          sendall_lem client.client_id s1 sends,
          convert_int_to_byte-u32 size small,
          sendall_lem (u32_bytes size) s2 sends,
          sendall_lem (text_field file.file_name) s3 sends,
          convert_int_to_byte-u32 (memcrc plain) (memcrc-word plain),
          sendall_lem (u32_bytes (memcrc plain)) s4 sends,
        )
        (ap (λ t. (returned tt, record (written file.path plain s) { sent = t }))
          (five_sendings s.sent (header_bytes 3 1603 279) client.client_id (u32_bytes size)
            (text_field file.file_name) (u32_bytes (memcrc plain))))
    where
      same_size : (n : ℕ) → (n == n) ≡ true
      same_size n = ground arith
