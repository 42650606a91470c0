-- ===== src/Session/Total.antt =====
-- Client/client.cpp: the retries and the loops end. A request counts at most three failures and
-- goes on, so four attempts are enough fuel.
use secure_file_transfer_sys.Base.{
  ℕ, zero, suc, ◌+◌, ◌≤◌, ◌<◌, ◌≡◌, ◌≢◌, refl, ◌∙◌, arith, true, not, ◌||◌, some, ◌==◌, length,
}
use secure_file_transfer_sys.Base.Int.{ℤ, pos, pos_part, ltb_ℤ, ◌-ℤ◌, to_int}
use secure_file_transfer_sys.Runtime.{Bytes, ◌>>=◌, ◌>>◌, pure, defined}
use secure_file_transfer_sys.Runtime.Ends.{
  Ends, Any, Ends-bind, Ends-if, Ends-pure, Ends-exit, Ends-defined, Ends-socket_write, ends_rules,
}
use secure_file_transfer_sys.Library.{Library}
use secure_file_transfer_sys.Request.{
  Request, new_request, send_to_server, add_failure, get_num_failures, clear_payload, set_client_id,
  set_code, set_payload_size, append_number_payload, append_string_payload, append_file_slice,
}
use secure_file_transfer_sys.Answer.{get_code}
use secure_file_transfer_sys.Answer.Total.{
  Ends-get_header_from_server, Ends-read_string_and_check, Ends-get_number,
}
use secure_file_transfer_sys.ClientOb.{Client, set_crc}
use secure_file_transfer_sys.Cksum.{memcrc}
use secure_file_transfer_sys.Various.Total.{
  Ends-file_by_path, Ends-encrypt_file, Ends-calculate_total_packets,
}
use secure_file_transfer_sys.Session.Packets.{Transfer, Cursor, advance, fill_packet, send_packets}
use secure_file_transfer_sys.Session.Finish.{
  general_error_handle, finish_with, judge_crc, crc_checking, the_end, prepare_file,
  send_all_packets, send_file,
}

-- A request that may still be repeated.
abbrev pub CanRetry : Request → Type 0
CanRetry r = r.num_of_failures ≤ 3

-- The fuel covers the attempts that are left.
abbrev pub Enough : ℕ → Request → Type 0
Enough fuel r = 4 ≤ fuel + r.num_of_failures

pub Ends-send_to_server : (r : Request) → Ends Any (send_to_server r)
unfolding send_to_server
Ends-send_to_server r = Ends-bind _ _ (Ends-socket_write _) (λ sent _. search ends_rules)

-- After a general error the request has one more failure, and may still be repeated.
abbrev pub Failed : Request → ℕ × Request → Type 0
Failed r (code, failed) =
    (code ≡ 0) × (failed.num_of_failures ≡ r.num_of_failures + 1) × (failed.num_of_failures ≢ 4)

pub Ends-general_error_handle : (r : Request) → Ends (Failed r) (general_error_handle r)
unfolding general_error_handle add_failure get_num_failures
Ends-general_error_handle r =
    Ends-if (Failed r) (r.num_of_failures + 1 == 4) _ _ (λ _. Ends-exit (Failed r))
      (λ ne. Ends-pure (Failed r) _ (ground arith))

-- A code that makes `send_file` repeat comes with a request that counts one failure more.
abbrev Counted : Request → ℕ × Request × Request → Type 0
Counted r (code, counted, finish) =
    ((code == 901 || code == 0) ≡ true
      → (counted.num_of_failures ≡ r.num_of_failures + 1) × (counted.num_of_failures ≢ 4))
    × (finish.num_of_failures ≡ 0)

judge_crc-Counted :
    (client : Client) (crc : ℕ) (r finish : Request)
    → finish.num_of_failures ≡ 0
    → Counted r ((judge_crc client crc r).0, (judge_crc client crc r).1, finish)
unfolding judge_crc add_failure get_num_failures
judge_crc-Counted client crc r finish h = ground arith

finish_with-failures :
    (lib : Library) (code : ℕ) (client : Client) (r r' : Request)
    → finish_with lib code client r ≡ some r'
    → r'.num_of_failures ≡ r.num_of_failures
unfolding finish_with set_client_id set_code set_payload_size append_string_payload
finish_with-failures lib code client r r' e = ground arith

-- The rest of `crc_checking` once the server's CRC is read.
Ends-answer_crc :
    (lib : Library) (client : Client) (crc : ℕ) (r finish : Request)
    → finish.num_of_failures ≡ 0
    → Ends (Counted r) (do
      filled ← defined (finish_with lib (judge_crc client crc r).0 client finish)
      send_to_server filled
      pure ((judge_crc client crc r).0, (judge_crc client crc r).1, filled))
Ends-answer_crc lib client crc r finish h =
    let j = judge_crc client crc r in
    Ends-bind _ (λ filled. send_to_server filled >> pure (j.0, j.1, filled))
      (Ends-defined (finish_with lib j.0 client finish))
      (λ filled e.
        Ends-bind _ (λ _. pure (j.0, j.1, filled)) (Ends-send_to_server filled)
          (λ _ _.
            Ends-pure (Counted r) (j.0, j.1, filled)
              (judge_crc-Counted client crc r filled
                (finish_with-failures lib j.0 client finish filled e ∙ h))))

pub Ends-crc_checking :
    (lib : Library) (client : Client) (r : Request) (size : ℤ) (finish : Request)
    → finish.num_of_failures ≡ 0
    → Ends (Counted r) (crc_checking lib client r size finish)
unfolding crc_checking
Ends-crc_checking lib client r size finish h =
    let Q = Counted r in
    Ends-bind _ _ (Ends-get_header_from_server lib) (λ answer _.
      Ends-if Q (get_code answer == 1607) _ _
        (λ _.
          Ends-bind _ _ (Ends-general_error_handle r)
            (λ p q. Ends-pure Q (p.0, p.1, finish) ((λ _. (q.1, q.2)), h)))
        (λ _.
          Ends-if Q (not (get_code answer == 1603)) _ _ (λ _. Ends-exit Q)
            (λ _. Ends-bind _ _ (Ends-read_string_and_check client.client_id 16) (λ _ _.
              Ends-bind _ _ (Ends-get_number lib 4) (λ content_size _.
                Ends-if Q _ _ _ (λ _. Ends-exit Q)
                  (λ _. Ends-bind _ _ (Ends-read_string_and_check client.file_name 255) (λ _ _.
                    Ends-bind _ _ (Ends-get_number lib 4)
                      (λ crc _. Ends-answer_crc lib client crc r finish h))))))))

-- The last exchange ends within the attempts that its request has left.
pub Ends-the_end :
    (lib : Library) (fuel : ℕ) (client : Client) (result : ℕ) (r : Request)
    → CanRetry r
    → Enough fuel r
    → Ends Any (the_end lib fuel client result r)
unfolding the_end
Ends-the_end lib zero client result r can enough = absurd (omega arith)
Ends-the_end lib (suc fuel) client result r can enough =
    Ends-bind _ _ (Ends-get_header_from_server lib) (λ answer _.
      Ends-if Any (get_code answer == 1607) _ _
        (λ _. Ends-bind _ _ (Ends-general_error_handle r) (λ p q.
          Ends-if Any (p.0 == 0) _ _
            (λ _.
              Ends-bind _ _ (Ends-send_to_server p.1)
                (λ _ _. Ends-the_end lib fuel client result p.1 (omega arith) (omega arith)))
            (λ _. Ends-read_string_and_check client.client_id 16)))
        (λ _.
          Ends-if Any (not (get_code answer == 1604)) _ _ (λ _. Ends-exit Any)
            (λ _. Ends-read_string_and_check client.client_id 16)))

fill_packet-failures :
    (lib : Library) (t : Transfer) (c : Cursor) (r r' : Request)
    → fill_packet lib t c r ≡ some r'
    → r'.num_of_failures ≡ r.num_of_failures
unfolding fill_packet set_payload_size append_number_payload append_string_payload append_file_slice
fill_packet-failures lib t c r r' e = ground arith

pub clear_payload-failures : (r : Request) → (clear_payload r).num_of_failures ≡ r.num_of_failures
unfolding clear_payload
clear_payload-failures r = refl

-- Each round takes 4096 from the counter, so more rounds than its value are enough.
counter-advance :
    (c next : Cursor) (fuel : ℕ)
    → advance c ≡ some next
    → ltb_ℤ (pos 0) c.counter ≡ true
    → pos_part c.counter < suc fuel
    → pos_part next.counter < fuel
unfolding ◌-ℤ◌ advance
counter-advance c next fuel e more h = ground arith

Ends-send_packets :
    (lib : Library) (fuel n : ℕ) (t : Transfer) (c : Cursor) (r : Request)
    → r.num_of_failures ≡ n
    → pos_part c.counter < fuel
    → Ends (λ r'. r'.num_of_failures ≡ n) (send_packets lib fuel t c r)
unfolding send_packets
Ends-send_packets lib zero n t c r k h = absurd (omega arith)
Ends-send_packets lib (suc fuel) n t c r k h =
    let Q = λ (r' : Request). r'.num_of_failures ≡ n in
    Ends-if Q (ltb_ℤ (pos 0) c.counter) _ _
      (λ more. Ends-bind _ _ (Ends-defined (fill_packet lib t c r)) (λ filled e.
        Ends-bind _ _ (Ends-send_to_server filled) (λ _ _.
          Ends-bind _ _ (Ends-defined (advance c)) (λ next moves.
            Ends-send_packets lib fuel n t next (clear_payload filled)
              (clear_payload-failures filled ∙ fill_packet-failures lib t c r filled e ∙ k)
              (counter-advance c next fuel moves more h)))))
      (λ _. Ends-pure Q r k)

pos_part-to_int : (n : ℕ) → pos_part (to_int n) ≤ n
unfolding to_int
pos_part-to_int n = ground arith

pub Ends-send_all_packets :
    (lib : Library) (t : Transfer) (r : Request)
    → Ends (λ r'. r'.num_of_failures ≡ r.num_of_failures) (send_all_packets lib t r)
unfolding send_all_packets
Ends-send_all_packets lib t r =
    Ends-send_packets lib _ r.num_of_failures t _ r refl
      (let e = pos_part-to_int (length t.encrypted_file) in omega arith)

-- Preparing the file keeps the count of failures.
abbrev Prepared : Request → Client × Request × Transfer → Type 0
Prepared r (summed, coded, t) = coded.num_of_failures ≡ r.num_of_failures

pub set_client_id-failures :
    (id : Bytes) (r r' : Request)
    → set_client_id id r ≡ some r'
    → r'.num_of_failures ≡ r.num_of_failures
unfolding set_client_id
set_client_id-failures id r r' e = ground arith

pub set_code-failures :
    (lib : Library) (z : ℤ) (r : Request) → (set_code lib z r).num_of_failures ≡ r.num_of_failures
unfolding set_code
set_code-failures lib z r = refl

pub Ends-prepare_file :
    (lib : Library) (client : Client) (r : Request) → Ends (Prepared r) (prepare_file lib client r)
unfolding prepare_file
Ends-prepare_file lib client r = Ends-bind _ _ (Ends-file_by_path client.path_to_file) (λ file _.
    Ends-bind _ _ (Ends-defined (memcrc file)) (λ crc _.
      let summed = set_crc crc client in
      Ends-bind _ _ (Ends-encrypt_file lib summed.encrypted_aes summed.priv_key file) (λ coded _.
        Ends-bind _ _ (Ends-defined (set_client_id summed.client_id r)) (λ identified e.
          Ends-bind _ _ (Ends-calculate_total_packets (to_int (length coded))) (λ total _.
            Ends-pure (Prepared r) _ (
              set_code-failures lib (pos 828) identified
              ∙ set_client_id-failures summed.client_id r identified e))))))

pub failures_0 : new_request.num_of_failures ≡ 0
unfolding new_request
failures_0 = refl

pub repeated :
    (r sent counted : Request) (fuel : ℕ)
    → CanRetry r
    → Enough (suc fuel) r
    → sent.num_of_failures ≡ r.num_of_failures
    → (counted.num_of_failures ≡ sent.num_of_failures + 1) × (counted.num_of_failures ≢ 4)
    → CanRetry (clear_payload counted) × Enough fuel (clear_payload counted)
unfolding clear_payload
repeated r sent counted fuel can enough s k = ground arith

pub fresh : (r : Request) → r.num_of_failures ≡ 0 → CanRetry r × Enough 4 r
fresh r e = ground arith

-- Each time that the file is sent again the request counts one failure more.
pub Ends-send_file :
    (lib : Library) (fuel : ℕ) (client : Client) (r : Request)
    → CanRetry r
    → Enough fuel r
    → Ends Any (send_file lib fuel client r)
unfolding send_file
Ends-send_file lib zero client r can enough = absurd (omega arith)
Ends-send_file lib (suc fuel) client r can enough =
    Ends-bind _ _ (Ends-prepare_file lib client r) (λ p q.
      Ends-bind _ _ (Ends-send_all_packets lib p.2 p.1) (λ sent s.
        Ends-bind _ _
          (Ends-crc_checking lib p.0 sent (to_int (length p.2.encrypted_file)) new_request
            failures_0)
          (λ a k.
            Ends-if Any (a.0 == 901 || a.0 == 0) _ _
              (λ e.
                Ends-send_file lib fuel p.0 (clear_payload a.1)
                  (repeated r sent a.1 fuel can enough (s ∙ q) (k.0 e)).0
                  (repeated r sent a.1 fuel can enough (s ∙ q) (k.0 e)).1)
              (λ _. Ends-the_end lib 4 p.0 a.0 a.2 (fresh a.2 k.1).0 (fresh a.2 k.1).1))))
