-- ===== src/Server/Loop/Refusals.antt =====
-- Server/server.py: requests that the server refuses.
use secure_file_transfer_sys.Server.Connection.Exchange.{
  Sends, arriving, get_header_lem, send_header_to_client_lem,
}
use secure_file_transfer_sys.Base.{
  ℕ, ◌^◌, ◌<◌, ◌≡◌, ◌≢◌, refl, arith, true, false, [], ◌∷◌, ◌++◌, All, ◌==◌, length,
}
use secure_file_transfer_sys.Runtime.{Bytes}
use secure_file_transfer_sys.Wire.{u16_bytes, u32_bytes, request_bytes}
use secure_file_transfer_sys.Server.Runtime.{PyLibrary, State, returned, raised}
use secure_file_transfer_sys.Server.Connection.{clean_buffer}
use secure_file_transfer_sys.Server.Header.{header_validation}
use secure_file_transfer_sys.Server.Loop.{dispatch, read}
use secure_file_transfer_sys.Server.Loop.Reading.{request_of, refusing, IsRequest, read-raised}

module _ (py : PyLibrary) where
  -- Where the sends go through, a request of another version is answered with 1607, its bytes are
  -- dropped, and nothing else of the server's state changes but that the socket blocks.
  pub read-version :
      (id : Bytes) (version code size : ℕ) (payload : Bytes) (s : State)
      → Sends s
      → length id ≡ 16
      → version < 256
      → version ≢ 3
      → code < 2 ^ 16
      → size < 2 ^ 32
      → s.arrived ≡ id ++ (version ∷ (u16_bytes code ++ (u32_bytes size ++ payload)))
      → read py s ≡ (returned true, refusing 1607 s)
  unfolding read header_validation clean_buffer
  read-version id version code size payload s sends id_size small other small' small'' e =
      rw
        (
          get_header_lem id version code size payload s id_size small small' small'' e,
          not_3,
          send_header_to_client_lem 1607 0 (record s { arrived = []; blocking = true })
              (omega arith) (omega arith) sends,
        )
        refl
    where
      not_3 : (version == 3) ≡ false
      not_3 = ground arith

  -- So is a request of a code that the protocol does not have.
  pub read-unknown_code :
      (id : Bytes) (code : ℕ) (payload : Bytes) (s : State)
      → Sends s
      → IsRequest id code payload
      → All (λ c. code ≢ c) (825 ∷ 827 ∷ 826 ∷ 828 ∷ 900 ∷ 901 ∷ 902 ∷ [])
      → s.arrived ≡ request_bytes id code payload
      → read py s ≡ (returned true, refusing 1607 s)
  unfolding dispatch
  read-unknown_code id code payload s sends is others e =
      read-raised py id code payload s (arriving s payload) is e raises sends
    where
      raises :
          dispatch py (request_of id code (length payload)) (arriving s payload)
          ≡ (raised, arriving s payload)
      raises = ground arith
