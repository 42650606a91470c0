-- ===== src/Session/Stored.antt =====
-- Client/client.cpp: `reconnection` finds what a first run has stored.
use secure_file_transfer_sys.Base.{
  ℕ, ◌/◌, ◌%◌, ◌<◌, ◌≡◌, ◌≢◌, refl, arith, [], ◌∷◌, ◌++◌, length, bytes_eq_refl, All,
}
use secure_file_transfer_sys.Runtime.{Bytes, World, done, read_file}
use secure_file_transfer_sys.Library.{Library, BoostLaws, Base64Laws}
use secure_file_transfer_sys.Wire.{u16_bytes, u32_bytes, text_field}
use secure_file_transfer_sys.Request.{Request, append_string_payload}
use secure_file_transfer_sys.Request.Layout.{set_client_id_lem}
use secure_file_transfer_sys.Request.Fields.{set_code_lem, set_payload_size_lem}
use secure_file_transfer_sys.ClientOb.{Client, set_private_key}
use secure_file_transfer_sys.ClientOb
use secure_file_transfer_sys.Various.KeyFile.{read_priv_key_lem}
use secure_file_transfer_sys.Various.Paths.{IsFree}
use secure_file_transfer_sys.Various.Hex.{hex_digit, convert_string_to_hex}
use secure_file_transfer_sys.Various.Hex.RoundTrip.{convert_hex_to_bytes-convert_string_to_hex}
use secure_file_transfer_sys.Session.Connect.{prepare_reconnection}
use secure_file_transfer_sys.Session.KeyExchange.{storing}
use secure_file_transfer_sys.Session.FirstRun.{getline_lem}

hex_digit-ne : (n : ℕ) → hex_digit n ≢ 10
unfolding hex_digit
hex_digit-ne n = ground arith

convert_string_to_hex-IsFree : (text : Bytes) → IsFree 10 (convert_string_to_hex text)
unfolding convert_string_to_hex
convert_string_to_hex-IsFree [] = tt
convert_string_to_hex-IsFree (b ∷ text) =
    (hex_digit-ne (b / 16), (hex_digit-ne (b % 16), convert_string_to_hex-IsFree text))

set_client_id_16 :
    (id : Bytes) (client : Client) (w : World)
    → length id ≡ 16
    → ClientOb.set_client_id id client w ≡ (done (record client { client_id = id }), w)
unfolding ClientOb.set_client_id
set_client_id_16 id client w e = rw e refl

-- Under the laws of Boost.Endian and Base64, in a world where a client whose name is one line has
-- stored its key, its name and its ID of 16 bytes: a client of the same name that prepares a
-- reconnection takes the same ID and the same key from the files, and its request has that ID, the
-- code 827 and the name.
pub prepare_reconnection-storing :
    (lib : Library) (laws : BoostLaws lib) (base64 : Base64Laws lib) (before client : Client)
    (r : Request) (w : World)
    → IsFree 10 before.name_client
    → length before.client_id ≡ 16
    → All (λ b. b < 256) before.client_id
    → client.name_client ≡ before.name_client
    → prepare_reconnection lib client r (storing lib before w) ≡ (
      done (
        record client { priv_key = lib.rsa_generate w.keys_made; client_id = before.client_id },
        record r {
          client_id = before.client_id;
          code = u16_bytes 827;
          payload_size = u32_bytes 255;
          payload = r.payload ++ text_field before.name_client;
        },
      ),
      storing lib before w,
    )
unfolding prepare_reconnection read_file set_private_key append_string_payload
prepare_reconnection-storing lib laws base64 before client r w line id_size bytes same =
    let w' : World = storing lib before w in
    let key = lib.rsa_generate w.keys_made in
    let keyed : Client = record client { name_client = before.name_client; priv_key = key } in
    let hex = convert_string_to_hex before.client_id in
    let after_hex = lib.base64_encode key ++ (10 ∷ []) in
    rw
      (
        same,
        read_priv_key_lem lib base64 key w' refl,
        getline_lem before.name_client (hex ++ (10 ∷ after_hex)) line,
        bytes_eq_refl before.name_client,
        getline_lem hex after_hex (convert_string_to_hex-IsFree before.client_id),
        convert_hex_to_bytes-convert_string_to_hex before.client_id bytes,
        set_client_id_16 before.client_id keyed w' id_size,
        set_client_id_lem before.client_id r id_size,
        set_code_lem lib laws,
        set_payload_size_lem lib laws,
      )
      refl
