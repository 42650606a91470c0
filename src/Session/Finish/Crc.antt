-- ===== src/Session/Finish/Crc.antt =====
-- Client/client.cpp: `crc_checking`, on an answer that is well formed and on a general error.
use secure_file_transfer_sys.Base.{
  ℕ, ◌+◌, ◌-◌, ◌^◌, ◌≤◌, ◌<◌, ◌≡◌, refl, sym, ap, ◌∙◌, arith, true, some, [], ◌∷◌, ◌++◌, append-nil,
  length, ◌==◌, if◌then◌else◌,
}
use secure_file_transfer_sys.Base.Int.{pos, to_u32}
use secure_file_transfer_sys.Runtime.{Bytes, World, done}
use secure_file_transfer_sys.Runtime.Laws.{reading}
use secure_file_transfer_sys.Library.{Library, BoostLaws}
use secure_file_transfer_sys.Wire.{u16_bytes, u32_bytes, text_field}
use secure_file_transfer_sys.Request.{
  Request, message, append_string_payload, add_failure, get_num_failures,
}
use secure_file_transfer_sys.Request.Layout.{set_client_id_lem}
use secure_file_transfer_sys.Request.Fields.{set_code_lem, set_payload_size_lem}
use secure_file_transfer_sys.Answer.{get_code, read_string_and_check}
use secure_file_transfer_sys.Answer.Checks.{HasNoNull, read_string_and_check-padded}
use secure_file_transfer_sys.Answer.Fields.{
  header_bytes, get_number_lem, get_header_from_server_lem,
}
use secure_file_transfer_sys.ClientOb.{Client}
use secure_file_transfer_sys.Session.Packets.Loop.{Writes, sending, send_to_server_lem}
use secure_file_transfer_sys.Session.Finish.{finish_with, judge_crc, crc_checking}

-- A client with an ID and a file name that the checks on answers can accept.
pub record IsKnown (client : Client) : Type 0 where
  pub id_size : length client.client_id ≡ 16
  pub id_no_null : HasNoNull client.client_id
  pub name_no_null : HasNoNull client.file_name
  pub name_size : length client.file_name ≤ 255

-- The request that is sent after the CRC has been compared.
abbrev pub finish_request_of : ℕ → Client → Request → Request
finish_request_of finish_code client r = record r {
  client_id = client.client_id;
  code = u16_bytes finish_code;
  payload_size = u32_bytes 255;
  payload = r.payload ++ text_field client.file_name;
}

-- What the protocol asks of the client: the code of the finish request, from the two CRC values
-- and the failures so far.
abbrev pub verdict : ℕ → ℕ → ℕ → ℕ
verdict own received failures = if own == received then 900 else if failures == 3 then 902 else 901

abbrev pub count_failure : ℕ → ℕ → Request → Request
count_failure own received r =
    if own == received then r else record r { num_of_failures = r.num_of_failures + 1 }

-- The answer 1603 to a file, and what follows it.
abbrev pub crc_answer : ℕ → Client → ℕ → ℕ → Bytes → Bytes
crc_answer payload_size client content_size crc rest =
    header_bytes 3 1603 payload_size
    ++ (client.client_id
        ++ (u32_bytes content_size ++ (text_field client.file_name ++ (u32_bytes crc ++ rest))))

module _ (lib : Library) (laws : BoostLaws lib) (client : Client) (known : IsKnown client) where
  finish_with_lem :
      (finish_code : ℕ) (r : Request)
      → finish_with lib finish_code client r ≡ some (finish_request_of finish_code client r)
  unfolding finish_with append_string_payload
  finish_with_lem finish_code r =
      rw (set_client_id_lem client.client_id r known.id_size, finish_with)
        (simp (set_code_lem lib laws, set_payload_size_lem lib laws))

  judge_crc_lem :
      (crc : ℕ) (r : Request)
      → judge_crc client crc r
        ≡ (verdict client.crc_value crc r.num_of_failures, count_failure client.crc_value crc r)
  unfolding judge_crc add_failure get_num_failures
  judge_crc_lem crc r = ground arith

  pub check_id :
      (rest : Bytes) (w : World)
      → w.inbox ≡ client.client_id ++ rest
      → read_string_and_check client.client_id 16 w ≡ (done tt, reading w rest)
  check_id rest w e =
      ap (λ n. read_string_and_check client.client_id n w) {x = 16}
        {y = length client.client_id + 0} (omega (arith, known.id_size))
      ∙ read_string_and_check-padded client.client_id rest 0 w known.id_no_null
          (e ∙ ap (λ s. s ++ rest) (sym (append-nil client.client_id)))

  check_name :
      (rest : Bytes) (w : World)
      → w.inbox ≡ text_field client.file_name ++ rest
      → read_string_and_check client.file_name 255 w ≡ (done tt, reading w rest)
  check_name rest w e =
      ap (λ n. read_string_and_check client.file_name n w) {x = 255}
        {y = length client.file_name + (255 - length client.file_name)}
        (omega (arith, known.name_size))
      ∙ read_string_and_check-padded client.file_name rest (255 - length client.file_name) w
          known.name_no_null e

  same_size : (n : ℕ) → n < 2 ^ 32 → (to_u32 (pos n) == n) ≡ true
  unfolding to_u32
  same_size n h = ground arith

  -- For a client with an ID and a file name that the checks accept, on an answer 1603 with that ID,
  -- the content size and that name, in numbers that fit their fields, where the writes go through
  -- and Boost.Endian keeps its laws: the client sends the finish request with the code of the
  -- verdict on the two CRC values (900 if they are equal, 902 on the fourth failure, 901 before), and
  -- returns that code and the request, which has one more failure unless they are equal.
  pub crc_checking_lem :
      (payload_size content_size crc : ℕ) (rest : Bytes) (r finish : Request) (w : World)
      → payload_size < 2 ^ 31
      → content_size < 2 ^ 32
      → crc < 2 ^ 32
      → w.inbox ≡ crc_answer payload_size client content_size crc rest
      → Writes w
      → let code = verdict client.crc_value crc r.num_of_failures in
        crc_checking lib client r (pos content_size) finish w ≡ (
          done (code, count_failure client.crc_value crc r, finish_request_of code client finish),
          sending (reading w rest) (message (finish_request_of code client finish) ∷ []),
        )
  unfolding crc_checking get_code
  crc_checking_lem payload_size content_size crc rest r finish w hp hn hc e writes =
      let after_crc = rest in
      let after_name = u32_bytes crc ++ after_crc in
      let after_size = text_field client.file_name ++ after_name in
      let after_id = u32_bytes content_size ++ after_size in
      let after_header = client.client_id ++ after_id in
      rw
        (
          get_header_from_server_lem lib laws 1603 payload_size after_header w (omega arith) hp e,
          check_id after_id (reading w after_header) refl,
          get_number_lem lib laws content_size after_size (reading w after_id) hn refl,
          same_size content_size hn,
          check_name after_name (reading w after_size) refl,
          get_number_lem lib laws crc after_crc (reading w after_name) hc refl,
          judge_crc_lem crc r,
          finish_with_lem (verdict client.crc_value crc r.num_of_failures) finish,
          send_to_server_lem
              (finish_request_of (verdict client.crc_value crc r.num_of_failures) client finish)
              (reading w rest) writes,
        )
        refl
