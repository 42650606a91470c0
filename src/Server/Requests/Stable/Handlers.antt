-- ===== src/Server/Requests/Stable/Handlers.antt =====
-- Server/request.py: the handlers keep what their parts keep.
use secure_file_transfer_sys.Base.{ℕ, refl, ◌==◌, ltb}
use secure_file_transfer_sys.Runtime.{Bytes}
use secure_file_transfer_sys.Server.Runtime.{PyLibrary, ServerFile, ServerClient, State}
use secure_file_transfer_sys.Server.Runtime.Stays.{
  Stays, Stays-give, Stays-raise, Stays-or_raise, Stays-if, Stays-if_found, Stays-bind,
}
use secure_file_transfer_sys.Server.Tables.{read_clock, set_lastseen_date}
use secure_file_transfer_sys.Server.Registry.{find_name}
use secure_file_transfer_sys.Server.Header.{ServerRequest}
use secure_file_transfer_sys.Server.Keys.{last_seen, draw, encrypt_by_public_key, create_send_aes}
use secure_file_transfer_sys.Server.Requests.{
  reconnection_failed, reconnection_request_827, send_public_key_request_826,
}
use secure_file_transfer_sys.Server.Requests.Stable.{
  Stable, Stays-recv, Stays-recv_int, Stays-recv_name, Stays-sendall, Stays-send_header,
  Stays-client_at, Stays-change_client, Stays-change_files, Stays-change_rows, Stays-set_aes_key,
  Stays-set_public_key, Stays-set_valid_crc, Stays-delete_file, Stays-remove_disk, Stays-check_id,
}
use secure_file_transfer_sys.Server.Files.{recv_packet}
use secure_file_transfer_sys.Server.Verdicts.{
  thank_you_answer, verify_file, discard_file, crc_verdict,
}

module _ (W : Type 0) (P : State → Type 0) (st : Stable W P) where
  pub Stays-thank_you_answer : (id : Bytes) → Stays W P (thank_you_answer id)
  unfolding thank_you_answer
  Stays-thank_you_answer id =
      Stays-bind W P (Stays-send_header W P st _ _) (λ _. Stays-sendall W P st id)

  pub Stays-crc_verdict :
      (r : ServerRequest) (k j : ℕ) (c : ServerClient) (file : ServerFile)
      → Stays W P (crc_verdict r k c j file)
  unfolding crc_verdict verify_file discard_file
  Stays-crc_verdict r k j c file = Stays-if W P file.valid_crc (Stays-raise W P) (
      Stays-if W P (r.code == 900)
        (Stays-bind W P (Stays-change_files W P st _ k) (λ _.
          Stays-bind W P (Stays-set_valid_crc W P st _ _)
            (λ _. Stays-thank_you_answer c.client_id)))
        (Stays-if W P (r.code == 901) (Stays-give W P tt) (
          Stays-if W P (r.code == 902)
            (Stays-bind W P (Stays-remove_disk W P st _) (λ _.
              Stays-bind W P (Stays-change_files W P st _ k) (λ _.
                Stays-bind W P (Stays-delete_file W P st _)
                  (λ _. Stays-thank_you_answer c.client_id))))
            (Stays-give W P tt))))

  pub Stays-recv_packet : (r : ServerRequest) → Stays W P (recv_packet r)
  unfolding recv_packet
  Stays-recv_packet r = Stays-bind W P (Stays-recv_int W P st _) (λ size.
      Stays-bind W P (Stays-recv_int W P st _) (λ original.
        Stays-bind W P (Stays-recv_int W P st _) (λ number.
          Stays-bind W P (Stays-recv_int W P st _) (λ total.
            Stays-bind W P (Stays-recv_name W P st _) (λ name.
              Stays-if W P (ltb r.payload_size 267) (Stays-raise W P)
                (Stays-bind W P (Stays-recv W P st _) (λ content. Stays-give W P _)))))))

module _ (W : Type 0) (P : State → Type 0) (st : Stable W P) (py : PyLibrary) where
  pub Stays-read_clock : Stays W P (read_clock py)
  unfolding read_clock
  Stays-read_clock = record { at = λ s p. (tt, st.clock _ s p) }

  pub Stays-last_seen : (k : ℕ) → Stays W P (last_seen py k)
  unfolding last_seen set_lastseen_date
  Stays-last_seen k = Stays-bind W P (Stays-client_at W P st k) (λ c.
      Stays-bind W P
        (Stays-bind W P Stays-read_clock (λ date.
          Stays-change_rows W P st (λ row. record row { last_seen_date = date }) c.client_id
            (record { id = λ c. refl; name = λ c. refl })))
        (λ _. Stays-bind W P Stays-read_clock (λ date.
          Stays-change_client W P st (λ c. record c { last_seen_date = date }) k
            (record { id = λ c. refl; name = λ c. refl }))))

  Stays-draw : Stays W P (draw py)
  unfolding draw
  Stays-draw = record { at = λ s p. (tt, st.chance _ s p) }

  Stays-encrypt_by_public_key : (key aes : Bytes) → Stays W P (encrypt_by_public_key py key aes)
  unfolding encrypt_by_public_key
  Stays-encrypt_by_public_key key aes =
      Stays-bind W P (Stays-or_raise W P _)
        (λ rsa. Stays-bind W P Stays-draw (λ d. Stays-or_raise W P _))

  pub Stays-create_send_aes : (code k : ℕ) → Stays W P (create_send_aes py code k)
  unfolding create_send_aes
  Stays-create_send_aes code k = Stays-bind W P Stays-draw (λ d.
      Stays-bind W P
        (Stays-change_client W P st (λ c. record c { aes_key = py.get_random_bytes d }) k
          (record { id = λ c. refl; name = λ c. refl }))
        (λ _. Stays-bind W P (Stays-client_at W P st k) (λ c.
          Stays-bind W P (Stays-set_aes_key W P st _ _) (λ _.
            Stays-bind W P (Stays-encrypt_by_public_key _ _) (λ sealed.
              Stays-bind W P (Stays-send_header W P st _ _)
                (λ _. Stays-bind W P (Stays-sendall W P st _) (λ _. Stays-sendall W P st _)))))))

  pub Stays-reconnection_failed : (id : Bytes) → Stays W P (reconnection_failed py id)
  unfolding reconnection_failed
  Stays-reconnection_failed id =
      Stays-bind W P (Stays-send_header W P st _ _) (λ _. Stays-sendall W P st id)

  pub Stays-reconnection_request_827 :
      (r : ServerRequest) → Stays W P (reconnection_request_827 py r)
  unfolding reconnection_request_827
  Stays-reconnection_request_827 r = Stays-bind W P (Stays-recv_name W P st _) (λ name. record {
    at = λ s p.
        (Stays-if_found W P (find_name name s.clients_list)
            (λ k. Stays-bind W P (Stays-client_at W P st k) (λ c.
              Stays-bind W P (Stays-check_id W P st _ _) (λ _.
                Stays-bind W P (Stays-last_seen k) (λ _.
                  Stays-if_found W P (py.import_key c.public_key) (λ rsa. Stays-create_send_aes _ k)
                    (Stays-reconnection_failed _)))))
            (Stays-reconnection_failed _)).at
          s p;
  })

  pub Stays-send_public_key_request_826 :
      (r : ServerRequest) → Stays W P (send_public_key_request_826 py r)
  unfolding send_public_key_request_826
  Stays-send_public_key_request_826 r = Stays-bind W P (Stays-recv_name W P st _) (λ name. record {
    at = λ s p.
        (Stays-if_found W P (find_name name s.clients_list)
            (λ k. Stays-bind W P (Stays-client_at W P st k) (λ c.
              Stays-bind W P (Stays-check_id W P st _ _) (λ _.
                Stays-bind W P (Stays-recv W P st _) (λ key.
                  Stays-bind W P
                    (Stays-change_client W P st (λ c. record c { public_key = key }) k
                      (record { id = λ c. refl; name = λ c. refl }))
                    (λ _. Stays-bind W P (Stays-set_public_key W P st _ _) (λ _.
                      Stays-bind W P (Stays-last_seen k) (λ _. Stays-create_send_aes _ k)))))))
            (Stays-raise W P)).at
          s p;
  })
