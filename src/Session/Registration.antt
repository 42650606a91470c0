-- ===== src/Session/Registration.antt =====
-- Client/client.cpp: the message that `registering` sends, against the layout of the protocol.
use secure_file_transfer_sys.Base.{
  ℕ, ◌-◌, ◌≤◌, ◌≡◌, refl, sym, ap, ◌∙◌, arith, some, [], ◌∷◌, ◌++◌, length, length-append,
  length-replicate, replicate,
}
use secure_file_transfer_sys.Runtime.{Bytes}
use secure_file_transfer_sys.Library.{Library, BoostLaws}
use secure_file_transfer_sys.Wire.{u16_bytes, u32_bytes, text_field, request_bytes}
use secure_file_transfer_sys.Request.{Request, set_client_id, append_string_payload, message}
use secure_file_transfer_sys.Request.Layout.{IsShaped, message_lem, chars_from_lem}
use secure_file_transfer_sys.Request.Fields.{set_code_lem, set_payload_size_lem}
use secure_file_transfer_sys.ClientOb.{Client}
use secure_file_transfer_sys.Session.Connect.{registering_request}

-- The request with the client's name in it.
abbrev registration_of : Client → Request → Request
registration_of client r = record r {
  client_id = replicate 16 0;
  code = u16_bytes 825;
  payload_size = u32_bytes 255;
  payload = r.payload ++ text_field client.name_client;
}

pub length-text_field : (text : Bytes) → length text ≤ 255 → length (text_field text) ≡ 255
length-text_field text h = omega (
  arith,
  length-append text (replicate (255 - length text) 0),
  length-replicate {A = ℕ} (255 - length text) 0,
)

no_id :
    (r : Request)
    → set_client_id (replicate 32 0) r ≡ some (record r { client_id = replicate 16 0 })
unfolding set_client_id
no_id r = ground (arith, chars_from_lem 16 0 (replicate 32 0) (omega arith))

registration_of-IsShaped :
    (client : Client) (r : Request) → IsShaped r → IsShaped (registration_of client r)
registration_of-IsShaped client r s = record {
  id_size = refl;
  is_version = s.is_version;
  code_size = refl;
  size_size = refl;
}

module _ (lib : Library) (laws : BoostLaws lib) where
  registering_request_lem :
      (client : Client) (r : Request)
      → registering_request lib client r ≡ some (registration_of client r)
  unfolding registering_request append_string_payload
  registering_request_lem client r =
      rw (no_id r, registering_request)
        (simp (set_code_lem lib laws, set_payload_size_lem lib laws))

  -- Under the laws of Boost.Endian, for a name of at most 255 bytes and a request whose arrays have
  -- their sizes and whose payload is empty: the message of a registration is that of the protocol, with an ID of zeros, the code 825 and the name in its field, and it
  -- keeps the count of failures.
  pub registering_request-message :
      (client : Client) (r : Request)
      → length client.name_client ≤ 255
      → IsShaped r
      → r.payload ≡ []
      → (filled : Request) × (registering_request lib client r ≡ some filled)
        × (message filled ≡ request_bytes (replicate 16 0) 825 (text_field client.name_client))
        × (filled.num_of_failures ≡ r.num_of_failures)
  registering_request-message client r fits s empty = (
    registration_of client r,
    registering_request_lem client r,
    message_lem (registration_of client r) (registration_of-IsShaped client r s)
        ∙ ap
            (λ p.
              replicate 16 0
              ++ (3 ∷ (u16_bytes 825 ++ (u32_bytes 255 ++ (p ++ text_field client.name_client)))))
            empty
        ∙ ap
            (λ n.
              replicate 16 0
              ++ (3 ∷ (u16_bytes 825 ++ (u32_bytes n ++ text_field client.name_client))))
            (sym (length-text_field client.name_client fits)),
    refl,
  )
