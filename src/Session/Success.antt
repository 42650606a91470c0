-- ===== src/Session/Success.antt =====
-- Client/client.cpp: a file that arrives, from `send_file` to the thanks of the server.
use secure_file_transfer_sys.Base.{
  ℕ, suc, ◌+◌, ◌/◌, ◌^◌, ◌<◌, ◌≡◌, refl, arith, List, ◌++◌, length, ◌==◌, ◌||◌, if◌then◌else◌, ◌∙◌,
  ap,
}
use secure_file_transfer_sys.Runtime.{Bytes, World, Run, done}
use secure_file_transfer_sys.Runtime.Laws.{reading}
use secure_file_transfer_sys.Library.{Library, BoostLaws}
use secure_file_transfer_sys.Request.{Request}
use secure_file_transfer_sys.Answer.{get_code}
use secure_file_transfer_sys.Answer.Fields.{header_bytes, get_header_from_server_lem}
use secure_file_transfer_sys.ClientOb.{Client}
use secure_file_transfer_sys.Cksum.Value.{checksum}
use secure_file_transfer_sys.Session.Packets.Pieces.{IsCut, join}
use secure_file_transfer_sys.Session.Packets.Loop.{sending}
use secure_file_transfer_sys.Session.Finish.{the_end, send_file}
use secure_file_transfer_sys.Session.Finish.Crc.{IsKnown, crc_answer, verdict, check_id}
use secure_file_transfer_sys.Session.Round.{
  IsReady, summed_of, round_messages, checksum-lt, send_file-round,
}

-- The thanks of the server, and what follows it.
abbrev pub thanks : ℕ → Client → Bytes → Bytes
thanks size client rest = header_bytes 3 1604 size ++ (client.client_id ++ rest)

IsKnown-summed_of :
    (client : Client) (file : Bytes) → IsKnown client → IsKnown (summed_of client file)
IsKnown-summed_of client file known = record {
  id_size = known.id_size;
  id_no_null = known.id_no_null;
  name_no_null = known.name_no_null;
  name_size = known.name_size;
}

goes_on :
    (code : ℕ) (m n : Run (Unit {0})) → code ≡ 900 → (if code == 901 || code == 0 then m else n) ≡ n
goes_on code m n e = ground arith

pub same_crc : (crc failures : ℕ) → verdict crc crc failures ≡ 900
same_crc crc failures = ground arith

module _ (lib : Library) (laws : BoostLaws lib) where
  the_end_lem :
      (fuel size result : ℕ) (client : Client) (r : Request) (rest : Bytes) (w : World)
      → IsKnown client
      → size < 2 ^ 31
      → w.inbox ≡ thanks size client rest
      → the_end lib (suc fuel) client result r w ≡ (done tt, reading w rest)
  unfolding the_end get_code
  the_end_lem fuel size result client r rest w known small e =
      rw
        (
          get_header_from_server_lem lib laws 1604 size (client.client_id ++ rest) w (omega arith)
              small e,
          check_id lib laws client known rest (reading w (client.client_id ++ rest)) refl,
        )
        refl

  -- Under the laws of Boost.Endian, for a client that is ready, where the server answers with the CRC
  -- of the file and then with its thanks: `send_file` returns, it has read exactly those two answers,
  -- and it has sent the encrypted file in packets and then one request of the code 900.
  pub send_file-success :
      (fuel size thanks_size : ℕ) (client : Client) (r : Request) (file encrypted rest : Bytes)
      (w : World)
      → IsReady lib client r w file encrypted
      → size < 2 ^ 31
      → thanks_size < 2 ^ 31
      → w.inbox
        ≡ crc_answer size client (length encrypted) (checksum file) (thanks thanks_size client rest)
      → (cut : List Bytes) × (join cut ≡ encrypted)
        × IsCut cut
        × (length cut ≡ (length encrypted + 4095) / 4096)
        × (send_file lib (suc fuel) client r w ≡ (
          done tt,
          sending
              (reading w rest)
              (round_messages client file encrypted (checksum file) r.num_of_failures cut),
        ))
  send_file-success fuel size thanks_size client r file encrypted rest w ready small small' e =
      let (cut, payload_size, joined, is_cut, count, round) =
        send_file-round lib laws fuel size (checksum file) client r file encrypted
          (thanks thanks_size client rest) w ready small (checksum-lt file) e in
      let crc = checksum file in
      let sent : World =
        sending (reading w (thanks thanks_size client rest))
          (round_messages client file encrypted crc r.num_of_failures cut) in
      (
        cut,
        joined,
        is_cut,
        count,
        round
            ∙ ap (λ m. m sent)
                (goes_on (verdict crc crc r.num_of_failures) _ _ (same_crc crc r.num_of_failures))
            ∙ the_end_lem 3 thanks_size _ (summed_of client file) _ rest sent
                (IsKnown-summed_of client file ready.known) small' refl,
      )
