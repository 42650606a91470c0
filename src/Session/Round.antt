-- ===== src/Session/Round.antt =====
-- Client/client.cpp: one time that `send_file` sends the file, up to the verdict on the checksum.
use secure_file_transfer_sys.Base.{
  ◌∙◌, take, ap, take-ge, ℕ, suc, ◌+◌, ◌*◌, ◌/◌, ◌^◌, ◌≤◌, ◌<◌, ◌≡◌, refl, arith, some, List, [],
  ◌∷◌, ◌++◌, append_assoc, length, true, leb, ◌==◌, ◌||◌, if◌then◌else◌,
}
use secure_file_transfer_sys.Base.Int.{pos, to_int_fits}
use secure_file_transfer_sys.Runtime.{Bytes, World, done, read_file}
use secure_file_transfer_sys.Runtime.Laws.{reading}
use secure_file_transfer_sys.Library.{Library, BoostLaws}
use secure_file_transfer_sys.Wire.{u16_bytes}
use secure_file_transfer_sys.Wrappers.{aes_wrapper, aes_encrypt, aes_iv, rsa_private, rsa_decrypt}
use secure_file_transfer_sys.Request.{Request, new_request, message, clear_payload}
use secure_file_transfer_sys.Request.Layout.{IsShaped, set_client_id_lem}
use secure_file_transfer_sys.Request.Fields.{set_code_lem}
use secure_file_transfer_sys.ClientOb.{Client, set_crc}
use secure_file_transfer_sys.Cksum.{crc_end}
use secure_file_transfer_sys.Cksum.Value.{checksum, memcrc-checksum}
use secure_file_transfer_sys.Various.{file_by_path, encrypt_file}
use secure_file_transfer_sys.Various.Packets.{calculate_total_packets_lem}
use secure_file_transfer_sys.Session.Packets.{Transfer}
use secure_file_transfer_sys.Session.Packets.Pieces.{IsCut, join}
use secure_file_transfer_sys.Session.Packets.Loop.{Writes, sending, packets}
use secure_file_transfer_sys.Session.Finish.{prepare_file, the_end, send_file}
use secure_file_transfer_sys.Session.Finish.Crc.{
  IsKnown, finish_request_of, verdict, count_failure, crc_answer, crc_checking_lem,
}
use secure_file_transfer_sys.Session.Sending.{send_all_packets_lem}

pub file_by_path_lem :
    (path file : Bytes) (w : World)
    → w.files path ≡ some file
    → file_by_path path w ≡ (done file, w)
unfolding file_by_path read_file
file_by_path_lem path file w e = rw e refl

-- The file on disk, and what the keys make of it.
pub record Encrypts (lib : Library) (client : Client) (w : World) (file encrypted : Bytes)
    : Type 0 where
  pub key : Bytes
  pub aes : Bytes
  pub on_disk : w.files client.path_to_file ≡ some file
  pub loads : lib.rsa_private_load client.priv_key ≡ some key
  pub opens : lib.rsa_decrypt key client.encrypted_aes ≡ some aes
  pub aes_size : length aes ≡ 32
  pub file_fits : length file < 2 ^ 31
  pub is_encrypted : lib.aes_cbc_encrypt aes aes_iv file ≡ encrypted

-- The client and the constants of the loop, once the file has been read.
abbrev pub summed_of : Client → Bytes → Client
summed_of client file = record client { crc_value = checksum file }

abbrev pub transfer_of : Client → Bytes → Bytes → Transfer
transfer_of client file encrypted = record {
  encrypted_file = encrypted;
  original_size = length file;
  file_name = client.file_name;
  total_packets = pos ((length encrypted + 4095) / 4096);
}

abbrev pub file_request_of : Client → Request → Request
file_request_of client r = record r { client_id = client.client_id; code = u16_bytes 828 }

-- A text whose length fits the parameter is encrypted whole.
aes_encrypt_lem :
    (lib : Library) (key text : Bytes)
    → length text < 2 ^ 31
    → aes_encrypt lib (record { key = key }) text ≡ lib.aes_cbc_encrypt key aes_iv text
unfolding aes_encrypt
aes_encrypt_lem lib key text fits = ap (lib.aes_cbc_encrypt key aes_iv) (
    ap (λ n. take n text) {y = length text} (omega arith)
    ∙ take-ge (length text) text (omega arith))

module _ (lib : Library) (client : Client) (file encrypted : Bytes) (w : World)
    (enc : Encrypts lib client w file encrypted) where
  encrypt_file_lem :
      encrypt_file lib client.encrypted_aes client.priv_key file w ≡ (done encrypted, w)
  unfolding encrypt_file rsa_private rsa_decrypt aes_wrapper
  encrypt_file_lem =
      rw
        (
          enc.loads,
          enc.opens,
          enc.aes_size,
          aes_encrypt_lem lib enc.aes file enc.file_fits,
          enc.is_encrypted,
        )
        refl

  prepare_file_lem :
      (laws : BoostLaws lib) (r : Request)
      → length client.client_id ≡ 16
      → length encrypted ≤ 4096 * 65535
      → prepare_file lib client r w ≡ (
        done (summed_of client file, file_request_of client r, transfer_of client file encrypted),
        w,
      )
  unfolding prepare_file set_crc
  prepare_file_lem laws r id_size fits =
      rw
        (
          file_by_path_lem client.path_to_file file w enc.on_disk,
          memcrc-checksum file enc.file_fits,
          encrypt_file_lem,
          set_client_id_lem client.client_id r id_size,
          calculate_total_packets_lem (length encrypted) w (omega arith),
          small,
          set_code_lem lib laws,
        )
        refl
    where
      small : leb (length encrypted) (4096 * 65535) ≡ true
      small = ground arith

pub checksum-lt : (file : Bytes) → checksum file < 2 ^ 32
unfolding checksum crc_end
checksum-lt file = omega arith

-- What holds where a round of `send_file` starts: a client and a request that are in order, and an
-- encrypted file that 65535 packets can hold.
pub record IsReady (lib : Library) (client : Client) (r : Request) (w : World)
    (file encrypted : Bytes) : Type 0 where
  pub encrypts : Encrypts lib client w file encrypted
  pub known : IsKnown client
  pub shaped : IsShaped r
  pub empty : r.payload ≡ []
  pub fits : length encrypted ≤ 4096 * 65535
  pub writes : Writes w

-- The packets of a round, and the request that answers the server's checksum.
abbrev pub round_messages : Client → Bytes → Bytes → ℕ → ℕ → List Bytes → List Bytes
round_messages client file encrypted crc failures cut =
    packets client.client_id (transfer_of client file encrypted) ((length encrypted + 4095) / 4096)
      1 cut
    ++ message (finish_request_of (verdict (checksum file) crc failures) client new_request) ∷ []

module _ (lib : Library) (laws : BoostLaws lib) where
  -- Under the laws of Boost.Endian, from a client that is ready (its ID and file name have no zero
  -- byte, its keys can be read, writes go through, and its file has less than 2^31 bytes and fits 65535
  -- packets once it is encrypted), on an answer 1603 with the client's
  -- ID, the encrypted size, the file name and any CRC: the client has sent the whole encrypted file
  -- in packets and the request of the verdict on the CRC. On the verdict 901 it sends the file again
  -- with one more failure, else it goes on to the last exchange, and in both it knows the file's CRC.
  pub send_file-round :
      (fuel size crc : ℕ) (client : Client) (r : Request) (file encrypted rest : Bytes) (w : World)
      → IsReady lib client r w file encrypted
      → size < 2 ^ 31
      → crc < 2 ^ 32
      → w.inbox ≡ crc_answer size client (length encrypted) crc rest
      → (cut : List Bytes) × (payload_size : Bytes) × (join cut ≡ encrypted)
        × IsCut cut
        × (length cut ≡ (length encrypted + 4095) / 4096)
        × (let code = verdict (checksum file) crc r.num_of_failures in
            let sent = record (file_request_of client r) {
              payload_size = payload_size;
              payload = [];
            } in
            send_file lib (suc fuel) client r w
            ≡ (if code == 901 || code == 0
                  then send_file lib fuel
                      (summed_of client file)
                      (clear_payload (count_failure (checksum file) crc sent))
                  else the_end lib 4
                      (summed_of client file)
                      code
                      (finish_request_of code client new_request))
                (sending
                  (reading w rest)
                  (round_messages client file encrypted crc r.num_of_failures cut)))
  unfolding send_file
  send_file-round fuel size crc client r file encrypted rest w ready small word answers =
      let t : Transfer = transfer_of client file encrypted in
      let coded : Request = file_request_of client r in
      let (cut, payload_size, joined, is_cut, count, sent) =
        send_all_packets_lem lib laws t ((length encrypted + 4095) / 4096) coded w refl refl
          ready.fits ready.known.name_size
          (record {
            id_size = ready.known.id_size;
            is_version = ready.shaped.is_version;
            code_size = refl;
            size_size = ready.shaped.size_size;
          })
          refl ready.empty ready.writes in
      let after : Request = record coded { payload_size = payload_size; payload = [] } in
      let w' : World =
        sending w (packets client.client_id t ((length encrypted + 4095) / 4096) 1 cut) in
      let known' : IsKnown (summed_of client file) = record {
        id_size = ready.known.id_size;
        id_no_null = ready.known.id_no_null;
        name_no_null = ready.known.name_no_null;
        name_size = ready.known.name_size;
      } in
      (
        cut,
        payload_size,
        joined,
        is_cut,
        count,
        rw
            (
              prepare_file_lem lib client file encrypted w ready.encrypts laws r ready.known.id_size
                  ready.fits,
              sent,
              to_int_fits (length encrypted) (let fits = ready.fits in omega arith),
              crc_checking_lem lib laws (summed_of client file) known' size (length encrypted) crc
                  rest after new_request w' small (let fits = ready.fits in omega arith) word
                  answers ready.writes,
              append_assoc w.outbox
                  (packets client.client_id t ((length encrypted + 4095) / 4096) 1 cut)
                  (message (
                      finish_request_of (verdict (checksum file) crc r.num_of_failures) client
                        new_request)
                    ∷ []),
            )
            refl,
      )
