-- ===== src/Session/Ending.antt =====
-- Client/client.cpp: registering, reconnecting and `main` end.
use secure_file_transfer_sys.Base.{
  ◌-◌, ◌^◌, if◌then◌else◌, replicate, ℕ, zero, suc, ◌≡◌, ◌≢◌, refl, subst, arith, not, ◌||◌, Option,
  none, some, ◌==◌, bytes_eq, length, [], ltb,
}
use secure_file_transfer_sys.Runtime.{Bytes, World, stuck}
use secure_file_transfer_sys.Runtime.Ends.{
  Ends, Good, Any, Ends-bind, Ends-if, Ends-pure, Ends-exit, Ends-defined, Ends-or_abort,
  Ends-socket_read, Ends-read_file,
}
use secure_file_transfer_sys.Library.{Library}
use secure_file_transfer_sys.Wrappers.{new_rsa_private, get_private_key}
use secure_file_transfer_sys.Request.{
  Request, new_request, clear_payload, restart_failures, set_client_id, set_code, set_payload_size,
  append_string_payload,
}
use secure_file_transfer_sys.Answer.{Answer, get_code}
use secure_file_transfer_sys.Answer.Total.{
  Ends-get_header_from_server, Ends-read_string_and_check, Ends-get_encrypted_aes,
  Ends-read_client_id,
}
use secure_file_transfer_sys.ClientOb.{Client, new_client}
use secure_file_transfer_sys.ClientOb
use secure_file_transfer_sys.Various.{getline, find_file_name}
use secure_file_transfer_sys.Various.Total.{
  Ends-file_by_path, Ends-read_priv_key, Ends-create_me_info, Ends-create_priv_key_file,
}
use secure_file_transfer_sys.Session.Keys.{
  get_aes_key_from_server, send_public_key, send_public_key_get_aes,
}
use secure_file_transfer_sys.Session.Connect.{
  connect, read_transfer, after_registering, registering_request, registering, prepare_reconnection,
  after_reconnection, reconnection, main,
}
use secure_file_transfer_sys.Session.Total.{
  CanRetry, Enough, Ends-send_to_server, Ends-general_error_handle, Ends-send_file, repeated, fresh,
  failures_0, set_client_id-failures,
}

Ends-new_rsa_private : (lib : Library) → Ends Any (new_rsa_private lib)
unfolding new_rsa_private
Ends-new_rsa_private lib = record { at = λ w. ground arith }

Ends-get_aes_key_from_server :
    (client : Client) (a : Answer) → Ends Any (get_aes_key_from_server client a)
unfolding get_aes_key_from_server
Ends-get_aes_key_from_server client a =
    Ends-bind _ _ (Ends-read_string_and_check client.client_id 16)
      (λ _ _. Ends-bind _ _ (Ends-get_encrypted_aes a) (λ aes _. Ends-pure Any _ tt))

-- The count of failures stays what it was.
abbrev Keeps : Request → Client × Request → Type 0
Keeps r (client, filled) = filled.num_of_failures ≡ r.num_of_failures

Ends-send_public_key :
    (lib : Library) (client : Client) (r : Request) → Ends (Keeps r) (send_public_key lib client r)
unfolding send_public_key set_code set_payload_size append_string_payload
Ends-send_public_key lib client r = Ends-bind _ _ (Ends-new_rsa_private lib) (λ rsa _.
    let keyed = ClientOb.set_private_key (get_private_key lib rsa) client in
    Ends-bind _ _ (Ends-create_me_info lib keyed.name_client keyed.priv_key keyed.client_id) (λ _ _.
      Ends-bind _ _ (Ends-create_priv_key_file lib keyed.priv_key) (λ _ _.
        Ends-bind _ _ (Ends-defined (set_client_id keyed.client_id r)) (λ identified e.
          Ends-bind _ _ (Ends-send_to_server _) (λ _ _.
            Ends-pure (Keeps r) _ (set_client_id-failures keyed.client_id r identified e))))))

Ends-send_public_key_get_aes :
    (lib : Library) (fuel : ℕ) (client : Client) (r : Request)
    → CanRetry r
    → Enough fuel r
    → Ends Any (send_public_key_get_aes lib fuel client r)
unfolding send_public_key_get_aes
Ends-send_public_key_get_aes lib zero client r can enough = absurd (omega arith)
Ends-send_public_key_get_aes lib (suc fuel) client r can enough =
    Ends-bind _ _ (Ends-send_public_key lib client r) (λ p q.
      Ends-bind _ _ (Ends-get_header_from_server lib) (λ answer _.
        Ends-if Any (get_code answer == 1607) _ _
          (λ _. Ends-bind _ _ (Ends-general_error_handle p.1) (λ f k.
            Ends-if Any (f.0 == 0) _ _
              (λ _.
                Ends-send_public_key_get_aes lib fuel p.0 (clear_payload f.1)
                  (repeated r p.1 f.1 fuel can enough q (k.1, k.2)).0
                  (repeated r p.1 f.1 fuel can enough q (k.1, k.2)).1)
              (λ _. Ends-get_aes_key_from_server p.0 answer)))
          (λ _.
            Ends-if Any (not (get_code answer == 1602)) _ _ (λ _. Ends-exit Any)
              (λ _. Ends-get_aes_key_from_server p.0 answer))))

Ends-set_client_id : (id : Bytes) (client : Client) → Ends Any (ClientOb.set_client_id id client)
unfolding ClientOb.set_client_id
Ends-set_client_id id client =
    Ends-if Any (length id == 16) _ _ (λ _. Ends-pure Any _ tt) (λ _. Ends-exit Any)

Ends-after_registering : (lib : Library) (client : Client) → Ends Any (after_registering lib client)
unfolding after_registering
Ends-after_registering lib client =
    let new = fresh new_request failures_0 in
    Ends-bind _ _ Ends-read_client_id (λ id _.
      Ends-bind _ _ (Ends-set_client_id id client) (λ identified _.
        Ends-bind _ _ (Ends-send_public_key_get_aes lib 4 identified new_request new.0 new.1)
          (λ with_key _. Ends-send_file lib 4 with_key new_request new.0 new.1)))

registering_request-failures :
    (lib : Library) (client : Client) (r r' : Request)
    → registering_request lib client r ≡ some r'
    → r'.num_of_failures ≡ r.num_of_failures
unfolding registering_request set_client_id set_code set_payload_size append_string_payload
registering_request-failures lib client r r' e = ground arith

-- A request that has attempts left registers, fails or ends the program within them.
pub Ends-registering :
    (lib : Library) (fuel : ℕ) (client : Client) (r : Request)
    → CanRetry r
    → Enough fuel r
    → Ends Any (registering lib fuel client r)
unfolding registering
Ends-registering lib zero client r can enough = absurd (omega arith)
Ends-registering lib (suc fuel) client r can enough =
    Ends-bind _ _ (Ends-defined (registering_request lib client r)) (λ filled e.
      Ends-bind _ _ (Ends-send_to_server filled) (λ _ _.
        Ends-bind _ _ (Ends-get_header_from_server lib) (λ answer _.
          Ends-if Any (get_code answer == 1607 || get_code answer == 1601) _ _
            (λ _. Ends-bind _ _ (Ends-general_error_handle filled) (λ f k.
              let left =
                repeated r filled f.1 fuel can enough
                  (registering_request-failures lib client r filled e) (k.1, k.2) in
              Ends-if Any (f.0 == 0) _ _
                (λ _. Ends-registering lib fuel client (clear_payload f.1) left.0 left.1)
                (λ _. Ends-after_registering lib client)))
            (λ _.
              Ends-if Any (not (get_code answer == 1600)) _ _ (λ _. Ends-exit Any)
                (λ _. Ends-after_registering lib client)))))

abbrev text_or_empty : Option Bytes → Bytes
text_or_empty none = []
text_or_empty (some text) = text

Ends-prepare_reconnection :
    (lib : Library) (client : Client) (r : Request)
    → Ends (Keeps r) (prepare_reconnection lib client r)
unfolding prepare_reconnection set_code set_payload_size append_string_payload
Ends-prepare_reconnection lib client r = Ends-bind _ _ (Ends-read_priv_key lib) (λ key _.
    Ends-bind _ _ (Ends-read_file _) (λ me _.
      let keyed = ClientOb.set_private_key key client in
      let name = (getline (text_or_empty me)).0 in
      Ends-if (Keeps r) (not (bytes_eq keyed.name_client name)) _ _ (λ _. Ends-exit (Keeps r))
        (λ _. Ends-bind _ _ (Ends-set_client_id _ _) (λ identified _.
          Ends-bind _ _ (Ends-defined (set_client_id identified.client_id r)) (λ coded e.
            Ends-pure (Keeps r) _ (set_client_id-failures identified.client_id r coded e))))))

-- The request that `main` registers with has no failure.
abbrev Fresh : ℕ × Client × Request → Type 0
Fresh (code, client, r) = r.num_of_failures ≡ 0

Ends-after_reconnection :
    (lib : Library) (client : Client) (a : Answer) → Ends Fresh (after_reconnection lib client a)
unfolding after_reconnection
Ends-after_reconnection lib client a =
    let new = fresh new_request failures_0 in
    Ends-bind _ _ (Ends-get_aes_key_from_server client a) (λ with_key _.
      Ends-bind _ _ (Ends-send_file lib 4 with_key new_request new.0 new.1)
        (λ _ _. Ends-pure Fresh _ failures_0))

Ends-reconnection :
    (lib : Library) (fuel : ℕ) (client : Client) (r : Request)
    → CanRetry r
    → Enough fuel r
    → Ends Fresh (reconnection lib fuel client r)
unfolding reconnection restart_failures
Ends-reconnection lib zero client r can enough = absurd (omega arith)
Ends-reconnection lib (suc fuel) client r can enough =
    Ends-bind _ _ (Ends-prepare_reconnection lib client r) (λ p q.
      Ends-bind _ _ (Ends-send_to_server p.1) (λ _ _.
        Ends-bind _ _ (Ends-get_header_from_server lib) (λ answer _.
          Ends-if Fresh (get_code answer == 1607) _ _
            (λ _. Ends-bind _ _ (Ends-general_error_handle p.1) (λ f k.
              let left = repeated r p.1 f.1 fuel can enough q (k.1, k.2) in
              Ends-if Fresh (f.0 == 0) _ _
                (λ _. Ends-reconnection lib fuel p.0 (clear_payload f.1) left.0 left.1)
                (λ _. Ends-after_reconnection lib p.0 answer)))
            (λ _.
              Ends-if Fresh (get_code answer == 1606) _ _
                (λ _. Ends-bind _ _ (Ends-socket_read 16) (λ received _.
                  Ends-bind _ _ (Ends-or_abort received) (λ _ _. Ends-pure Fresh _ refl)))
                (λ _.
                  Ends-if Fresh (not (get_code answer == 1605)) _ _ (λ _. Ends-exit Fresh)
                    (λ _. Ends-after_reconnection lib p.0 answer))))))

Ends-connect : (address port : Bytes) → Ends Any (connect address port)
unfolding connect
Ends-connect address port = record { at = λ w. ground arith }

Ends-set_file_name :
    (name : Bytes) (client : Client) → Ends Any (ClientOb.set_file_name name client)
unfolding ClientOb.set_file_name
Ends-set_file_name name client =
    Ends-bind _ _ (Ends-or_abort (ClientOb.strcpy_s (replicate 255 none) name)) (λ copied _.
      Ends-bind _ _
        (Ends-defined (
          if ltb (length name) (2 ^ 31)
          then ClientOb.c_string (ClientOb.pad (255 - length name) (length name) copied)
          else none))
        (λ text _. Ends-pure Any (record client { file_name = text }) tt))

Ends-read_transfer : (client : Client) → Ends Any (read_transfer client)
unfolding read_transfer
Ends-read_transfer client = Ends-bind _ _ (Ends-file_by_path _) (λ transfer _.
    let after = (getline transfer).1 in
    let file_name = find_file_name (getline (getline after).1).0 in
    Ends-if Any (ltb 100 (length (getline after).0)) _ _ (λ _. Ends-exit Any)
      (λ _.
        Ends-if Any (length file_name == 255) _ _ (λ _. Ends-exit Any)
          (λ _.
            Ends-bind _ _ (Ends-set_file_name _ _)
              (λ with_file _. Ends-bind _ _ (Ends-connect _ _) (λ _ _. Ends-pure Any _ tt)))))

Ends-main : (lib : Library) → Ends Any (main lib)
unfolding main
Ends-main lib =
    let new = fresh new_request failures_0 in
    Ends-bind _ _ (Ends-read_transfer new_client) (λ client _.
      Ends-bind _ _ (Ends-read_file _) (λ me _.
        Ends-if Any _ _ _
          (λ _. Ends-bind _ _ (Ends-reconnection lib 4 client new_request new.0 new.1) (λ p q.
            let left = fresh p.2 q in
            Ends-if Any (p.0 == 1606) _ _ (λ _. Ends-registering lib 4 p.1 p.2 left.0 left.1)
              (λ _. Ends-pure Any tt tt)))
          (λ _. Ends-registering lib 4 client new_request new.0 new.1)))

-- The client program never runs out of the fuel that it starts its retries and its packet loop
-- with: whatever the files, the server's answers and the keys are, it returns, exits, aborts or
-- meets undefined behaviour.
pub main-ne-stuck : (lib : Library) (w : World) → (main lib w).0 ≢ stuck
main-ne-stuck lib w e = subst (Good Any) e ((Ends-main lib).at w)
