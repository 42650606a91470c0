-- ===== src/Server/Files/Stable.antt =====
-- Server/request.py: the handlers of packets and verdicts keep what their parts keep.
use secure_file_transfer_sys.Base.{ℕ, ◌==◌, length, replicate}
use secure_file_transfer_sys.Runtime.{Bytes}
use secure_file_transfer_sys.Server.Runtime.{PyLibrary, ServerFile, ServerClient, State}
use secure_file_transfer_sys.Server.Runtime.Stays.{
  Stays, Stays-give, Stays-raise, Stays-or_raise, Stays-if, Stays-if_found, Stays-bind,
}
use secure_file_transfer_sys.Server.Registry.{find_id, find_file}
use secure_file_transfer_sys.Server.Header.{ServerRequest}
use secure_file_transfer_sys.Server.Requests.Stable.{
  Stable, Stays-recv_name, Stays-sendall, Stays-send_int, Stays-send_header, Stays-client_at,
  Stays-change_files, Stays-set_valid_crc, Stays-add_file_db, Stays-write_disk, Stays-append_disk,
}
use secure_file_transfer_sys.Server.Requests.Stable.Handlers.{
  Stays-crc_verdict, Stays-recv_packet, Stays-last_seen,
}
use secure_file_transfer_sys.Server.Files.{
  Packet, create_decrypted_file, last_packet, finish_packet, known_file, unknown_file,
  send_file_request_828,
}
use secure_file_transfer_sys.Server.Verdicts.{crc_response_900_901_902}

module _ (W : Type 0) (P : State → Type 0) (st : Stable W P) (py : PyLibrary) where
  Stays-create_decrypted_file : (path aes : Bytes) → Stays W P (create_decrypted_file py path aes)
  unfolding create_decrypted_file
  Stays-create_decrypted_file path aes = record {
    at = λ s p.
        (Stays-bind W P (Stays-or_raise W P (s.disk path)) (λ encrypted.
            Stays-bind W P (Stays-or_raise W P (py.cbc_decrypt aes (replicate 16 0) encrypted))
              (λ decrypted. Stays-bind W P (Stays-or_raise W P (py.unpad decrypted 16)) (λ content.
                Stays-bind W P (Stays-write_disk W P st path content)
                  (λ _. Stays-give W P content))))).at
          s p;
  }

  Stays-last_packet :
      (file : ServerFile) (c : ServerClient) (size original : ℕ)
      → Stays W P (last_packet py file c size original)
  unfolding last_packet
  Stays-last_packet file c size original =
      Stays-bind W P (Stays-create_decrypted_file _ _) (λ content.
        Stays-if W P (original == length content)
          (Stays-bind W P (Stays-send_header W P st _ _) (λ _.
            Stays-bind W P (Stays-sendall W P st _) (λ _.
              Stays-bind W P (Stays-send_int W P st _ _)
                (λ _. Stays-bind W P (Stays-sendall W P st _) (λ _. Stays-send_int W P st _ _)))))
          (Stays-raise W P))

  Stays-finish_packet :
      (file : ServerFile) (c : ServerClient) (packet : Packet)
      → Stays W P (finish_packet py file c packet)
  unfolding finish_packet
  Stays-finish_packet file c packet =
      Stays-if W P (packet.packet_number == packet.total_packets) (Stays-last_packet _ _ _ _)
        (Stays-give W P tt)

  Stays-known_file :
      (k : ℕ) (c : ServerClient) (j : ℕ) (packet : Packet) → Stays W P (known_file py k c j packet)
  unfolding known_file
  Stays-known_file k c j packet = Stays-bind W P (Stays-or_raise W P _) (λ file.
      Stays-bind W P
        (Stays-if W P (packet.packet_number == 1)
          (Stays-bind W P (Stays-change_files W P st _ k) (λ _. Stays-set_valid_crc W P st _ _))
          (Stays-give W P tt))
        (λ _. Stays-finish_packet file c packet))

  Stays-unknown_file :
      (k : ℕ) (c : ServerClient) (path : Bytes) (packet : Packet)
      → Stays W P (unknown_file py k c path packet)
  unfolding unknown_file
  Stays-unknown_file k c path packet =
      Stays-if W P (packet.packet_number == 1)
        (Stays-bind W P (Stays-add_file_db W P st _) (λ _.
          Stays-bind W P (Stays-change_files W P st _ k) (λ _. Stays-finish_packet _ c packet)))
        (Stays-raise W P)

  pub Stays-send_file_request_828 : (r : ServerRequest) → Stays W P (send_file_request_828 py r)
  unfolding send_file_request_828
  Stays-send_file_request_828 r = Stays-bind W P (Stays-recv_packet W P st r) (λ packet. record {
    at = λ s p.
        (Stays-if_found W P (find_id r.client_id s.clients_list)
            (λ k. Stays-bind W P (Stays-client_at W P st k) (λ c.
              Stays-bind W P
                (Stays-if W P (packet.packet_number == 1) (Stays-write_disk W P st _ _)
                  (Stays-append_disk W P st _ _))
                (λ _. Stays-bind W P (Stays-last_seen W P st py k) (λ _.
                  Stays-if_found W P (find_file packet.file_name c.files_list)
                    (λ j. Stays-known_file k c j packet) (Stays-unknown_file k c _ packet)))))
            (Stays-raise W P)).at
          s p;
  })

  pub Stays-crc_response_900_901_902 :
      (r : ServerRequest) → Stays W P (crc_response_900_901_902 py r)
  unfolding crc_response_900_901_902
  Stays-crc_response_900_901_902 r = Stays-bind W P (Stays-recv_name W P st _) (λ name. record {
    at = λ s p.
        (Stays-if_found W P (find_id r.client_id s.clients_list)
            (λ k. Stays-bind W P (Stays-last_seen W P st py k) (λ _.
              Stays-bind W P (Stays-client_at W P st k) (λ c.
                Stays-if_found W P (find_file name c.files_list)
                  (λ j.
                    Stays-bind W P (Stays-or_raise W P _)
                      (λ file. Stays-crc_verdict W P st r k j c file))
                  (Stays-raise W P))))
            (Stays-raise W P)).at
          s p;
  })
