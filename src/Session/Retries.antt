-- ===== src/Session/Retries.antt =====
-- Client/client.cpp: what a general error of the server does to a request.
use secure_file_transfer_sys.Base.{
  ℕ, suc, ◌+◌, ◌^◌, ◌<◌, ◌≡◌, inl, inr, refl, arith, true, [], ◌∷◌, ◌++◌, ◌==◌, ◌||◌, if◌then◌else◌,
  some, Bool-cases,
}
use secure_file_transfer_sys.Base.Int.{ℤ}
use secure_file_transfer_sys.Runtime.{Bytes, World, done, exited}
use secure_file_transfer_sys.Runtime.Laws.{reading}
use secure_file_transfer_sys.Library.{Library, BoostLaws}
use secure_file_transfer_sys.Request.{
  Request, message, add_failure, get_num_failures, clear_payload,
}
use secure_file_transfer_sys.Answer.{get_code}
use secure_file_transfer_sys.Answer.Fields.{header_bytes, get_header_from_server_lem}
use secure_file_transfer_sys.ClientOb.{Client}
use secure_file_transfer_sys.Session.Packets.Loop.{Writes, sending, send_to_server_lem}
use secure_file_transfer_sys.Session.Finish.{general_error_handle, crc_checking}
use secure_file_transfer_sys.Session.Connect.{registering_request, registering}

abbrev pub failed : Request → Request
failed r = record r { num_of_failures = r.num_of_failures + 1 }

general_error_handle_lem :
    (r : Request) (w : World)
    → general_error_handle r w ≡ (if r.num_of_failures == 3 then exited else done (0, failed r), w)
unfolding general_error_handle add_failure get_num_failures
general_error_handle_lem r w = ground arith

module _ (lib : Library) (laws : BoostLaws lib) (size : ℕ) (small : size < 2 ^ 31) where
  -- Under the laws of Boost.Endian, on the answer 1607 to a file, the program ends if this is the request's fourth failure; if not,
  -- `crc_checking` sends nothing, counts the failure and returns the code that repeats the file.
  pub crc_checking-error :
      (client : Client) (content_size : ℤ) (rest : Bytes) (r finish : Request) (w : World)
      → w.inbox ≡ header_bytes 3 1607 size ++ rest
      → crc_checking lib client r content_size finish w
        ≡ (if r.num_of_failures == 3 then exited else done (0, failed r, finish), reading w rest)
  unfolding crc_checking get_code
  crc_checking-error client content_size rest r finish w e =
      elim (Bool-cases (r.num_of_failures == 3)) [
        | inl last ↦
            rw
              (
                get_header_from_server_lem lib laws 1607 size rest w (omega arith) small e,
                general_error_handle_lem r (reading w rest),
                last,
              )
              refl
        | inr more ↦
            rw
              (
                get_header_from_server_lem lib laws 1607 size rest w (omega arith) small e,
                general_error_handle_lem r (reading w rest),
                more,
              )
              refl
      ]

  -- Under the laws of Boost.Endian, where the writes go through: a registration that the server
  -- refuses, with 1601 or 1607, has sent its message; the fourth refusal ends the program, and after
  -- another the client registers again with a request without payload and with one more failure.
  pub registering-refused :
      (fuel code : ℕ) (client : Client) (rest : Bytes) (r filled : Request) (w : World)
      → registering_request lib client r ≡ some filled
      → (code == 1607 || code == 1601) ≡ true
      → code < 2 ^ 16
      → Writes w
      → w.inbox ≡ header_bytes 3 code size ++ rest
      → let w' = reading (sending w (message filled ∷ [])) rest in
        registering lib (suc fuel) client r w ≡ (
          if filled.num_of_failures == 3
          then (exited, w')
          else registering lib fuel client (record (failed filled) { payload = [] }) w')
  unfolding registering get_code clear_payload
  registering-refused fuel code client rest r filled w request refusal word writes e =
      let w' = reading (sending w (message filled ∷ [])) rest in
      elim (Bool-cases (filled.num_of_failures == 3)) [
        | inl last ↦
            rw
              (
                request,
                send_to_server_lem filled w writes,
                get_header_from_server_lem lib laws code size rest (sending w (message filled ∷ []))
                    word small e,
                refusal,
                general_error_handle_lem filled w',
                last,
              )
              refl
        | inr more ↦
            rw
              (
                request,
                send_to_server_lem filled w writes,
                get_header_from_server_lem lib laws code size rest (sending w (message filled ∷ []))
                    word small e,
                refusal,
                general_error_handle_lem filled w',
                more,
              )
              refl
      ]
