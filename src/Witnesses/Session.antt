-- ===== src/Witnesses/Session.antt =====
-- The theorems on the session, applied at concrete inputs where their hypotheses hold.
use secure_file_transfer_sys.Example.{
  file_request-IsShaped, known_client-IsKnown, file_request, known_client, toy, toy-BoostLaws, id_1,
  good_answers, world,
}
use secure_file_transfer_sys.Base.{
  ℕ, ◌-◌, ◌^◌, ◌≡◌, ◌≢◌, refl, arith, some, List, [], ◌∷◌, ◌++◌, length, replicate,
  length-replicate,
}
use secure_file_transfer_sys.Base.Int.{ℤ, pos, to_int, to_u16, to_u32}
use secure_file_transfer_sys.Runtime.{Bytes, done, stuck}
use secure_file_transfer_sys.Wire.{u16_bytes, u32_bytes, text_field, request_bytes}
use secure_file_transfer_sys.Request.{
  Request, new_request, message, set_client_id, chars_from, cons_char, char_at, set_code,
  set_payload_size, append_string_payload,
}
use secure_file_transfer_sys.Request.Layout.{new_request-IsShaped}
use secure_file_transfer_sys.Answer.Fields.{header_bytes}
use secure_file_transfer_sys.Various.{calculate_total_packets}
use secure_file_transfer_sys.Session.Packets.{Transfer}
use secure_file_transfer_sys.Session.Packets.Pieces.{IsCut, join}
use secure_file_transfer_sys.Session.Packets.Loop.{sending, packets}
use secure_file_transfer_sys.Session.Finish.{send_all_packets, crc_checking}
use secure_file_transfer_sys.Session.Finish.Crc.{crc_answer, finish_request_of, crc_checking_lem}
use secure_file_transfer_sys.Session.Connect.{main, registering_request, registering}
use secure_file_transfer_sys.Session.Registration.{registering_request-message}
use secure_file_transfer_sys.Session.Sending.{send_all_packets_lem, send_all_packets_huge}
use secure_file_transfer_sys.Session.Ending.{main-ne-stuck}
use secure_file_transfer_sys.Session.Retries.{failed, crc_checking-error, registering-refused}

-- A file of 5000 bytes, which takes two packets.
abbrev two_packets : Transfer
two_packets = record {
  encrypted_file = replicate 5000 7;
  original_size = 4990;
  file_name = 100 ∷ [];
  total_packets = pos 2;
}

send_all_packets_example :
    (cut : List Bytes) × (size : Bytes) × (join cut ≡ two_packets.encrypted_file)
    × IsCut cut
    × (length cut ≡ 2)
    × (send_all_packets toy two_packets file_request (world []) ≡ (
      done (record file_request { payload_size = size; payload = [] }),
      sending (world []) (packets id_1 two_packets 2 1 cut),
    ))
send_all_packets_example =
    send_all_packets_lem toy toy-BoostLaws two_packets 2 file_request (world []) refl refl
      (omega arith) (omega arith) file_request-IsShaped refl refl (λ k. refl)

-- Shut, since a text this long is not to be written out.
unfoldable zeros : ℕ → Bytes
zeros n = replicate n 0

length-zeros : (n : ℕ) → length (zeros n) ≡ n
unfolding zeros
length-zeros n = length-replicate {A = ℕ} n 0

abbrev huge : Transfer
huge = record {
  encrypted_file = zeros (2 ^ 31);
  original_size = 2 ^ 31 - 16;
  file_name = 100 ∷ [];
  total_packets = pos 0;
}

send_all_packets_huge_example :
    ((total : ℤ) × (calculate_total_packets (to_int (length huge.encrypted_file)) (world [])
        ≡ (done total, world [])))
    × (send_all_packets toy huge file_request (world []) ≡ (done file_request, world []))
send_all_packets_huge_example =
    send_all_packets_huge toy huge file_request (world []) (omega (arith, length-zeros (2 ^ 31)))
      (omega (arith, length-zeros (2 ^ 31)))

main_example : (main toy (world (good_answers 1))).0 ≢ stuck
main_example = main-ne-stuck toy (world (good_answers 1))

-- The second CRC that is wrong.
abbrev once_failed : Request
once_failed = record file_request { num_of_failures = 1 }

crc_checking_example :
    crc_checking toy known_client once_failed
      (pos 16)
      new_request
      (world (crc_answer 279 known_client 16 5 []))
    ≡ (
      done (
        901,
        record file_request { num_of_failures = 2 },
        finish_request_of 901 known_client new_request,
      ),
      sending (world []) (message (finish_request_of 901 known_client new_request) ∷ []),
    )
crc_checking_example =
    crc_checking_lem toy toy-BoostLaws known_client known_client-IsKnown 279 16 5 [] once_failed
      new_request (world (crc_answer 279 known_client 16 5 [])) (omega arith) (omega arith)
      (omega arith) refl (λ k. refl)

crc_checking-error_example :
    crc_checking toy known_client once_failed
      (pos 16)
      new_request
      (world (header_bytes 3 1607 0 ++ 8 ∷ []))
    ≡ (done (0, record file_request { num_of_failures = 2 }, new_request), world (8 ∷ []))
crc_checking-error_example =
    crc_checking-error toy toy-BoostLaws 0 (omega arith) known_client (pos 16) (8 ∷ []) once_failed
      new_request (world (header_bytes 3 1607 0 ++ 8 ∷ [])) refl

-- The request that the first registration sends.
abbrev registration : Request
registration = record {
  num_of_failures = 0;
  client_id = replicate 16 0;
  version_field = 3 ∷ [];
  code = u16_bytes 825;
  payload_size = u32_bytes 255;
  payload = text_field (97 ∷ 98 ∷ []);
}

registration_lem : registering_request toy known_client new_request ≡ some registration
unfolding registering_request new_request set_client_id chars_from cons_char char_at set_code
    set_payload_size append_string_payload to_u16 to_u32
registration_lem = refl

registering_request_example :
    (filled : Request) × (registering_request toy known_client new_request ≡ some filled)
    × (message filled ≡ request_bytes (replicate 16 0) 825 (text_field (97 ∷ 98 ∷ [])))
    × (filled.num_of_failures ≡ 0)
unfolding new_request
registering_request_example =
    registering_request-message toy toy-BoostLaws known_client new_request (omega arith)
      new_request-IsShaped refl

registering-refused_example :
    registering toy 4 known_client new_request (world (header_bytes 3 1601 0 ++ 8 ∷ []))
    ≡ registering toy 3 known_client
        (record (failed registration) { payload = [] })
        (sending (world (8 ∷ [])) (message registration ∷ []))
registering-refused_example =
    registering-refused toy toy-BoostLaws 0 (omega arith) 3 1601 known_client (8 ∷ []) new_request
      registration (world (header_bytes 3 1601 0 ++ 8 ∷ [])) registration_lem refl (omega arith)
      (λ k. refl) refl
