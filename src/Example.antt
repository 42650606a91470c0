-- ===== src/Example.antt =====
-- A concrete library and a concrete world, on which theorems are applied and the client is run.
-- The ciphers leave the text as it is; the padding and the texts of keys have real shapes.
use secure_file_transfer_sys.Base.{
  ℕ, ◌+◌, ◌-◌, ◌*◌, ◌%◌, ◌≡◌, refl, ap, arith, true, Option, none, some, [], ◌∷◌, ◌++◌, map, length,
  replicate, bytes_eq, if◌then◌else◌,
}
use secure_file_transfer_sys.Runtime.{Bytes, World}
use secure_file_transfer_sys.Library.{Library, BoostLaws, Base64Laws, join_lines}
use secure_file_transfer_sys.Wire.{u16_bytes, u32_bytes}
use secure_file_transfer_sys.Various.{transfer_info}
use secure_file_transfer_sys.Request.{Request}
use secure_file_transfer_sys.Request.Layout.{IsShaped}
use secure_file_transfer_sys.ClientOb.{Client}
use secure_file_transfer_sys.Answer.Checks.{HasNoNull}
use secure_file_transfer_sys.Session.Finish.Crc.{IsKnown}

abbrev pub byte_0 : Bytes → ℕ
byte_0 [] = 0
byte_0 (a ∷ b) = a

abbrev pub rest : Bytes → Bytes
rest [] = []
rest (a ∷ b) = b

abbrev pub pad_16 : Bytes → Bytes
pad_16 text = text ++ replicate (16 - length text % 16) (16 - length text % 16)

abbrev pub toy : Library
toy = record {
  store_little_u16 = u16_bytes;
  store_little_u32 = u32_bytes;
  little_uint8_value = byte_0;
  little_uint16_value = λ b. byte_0 b + 256 * byte_0 (rest b);
  little_uint32_value = λ b.
      byte_0 b
      + 256 * byte_0 (rest b)
      + 65536 * byte_0 (rest (rest b))
      + 16777216 * byte_0 (rest (rest (rest b)));
  rsa_generate = λ k. 48 ∷ 130 ∷ k ∷ [];
  rsa_private_load = λ key. some key;
  rsa_public_load = λ key. some key;
  rsa_public_of = λ key. 49 ∷ (key ++ replicate (159 - length key) 0);
  rsa_encrypt = λ k key plain. some plain;
  rdrand32 = λ k. some (k % 256 ∷ 1 ∷ 2 ∷ 3 ∷ []);
  rsa_decrypt = λ key cipher. some cipher;
  aes_cbc_encrypt = λ key iv plain. pad_16 plain;
  aes_cbc_decrypt = λ key iv cipher. some cipher;
  base64_encode = map (λ b. b + 11);
  base64_decode = λ text. map (λ b. b - 11) (join_lines text);
}

pub toy-BoostLaws : BoostLaws toy
toy-BoostLaws = record {
  store_u16 = λ x. refl;
  store_u32 = λ x. refl;
  value_u8 = λ a h. refl;
  value_u16 = λ a b h k. refl;
  value_u32 = λ a b c d h k l m. refl;
}

pub toy-Base64Laws : Base64Laws toy
toy-Base64Laws = record {
  decode_skips_lines = λ x. ap (map (λ b. b - 11)) (join_lines_twice x);
  decode-encode = decode_encoded;
}
  where
    join_lines_twice : (x : Bytes) → join_lines (join_lines x) ≡ join_lines x
    join_lines_twice [] = refl
    join_lines_twice (c ∷ cs) = ground (arith, join_lines_twice cs)

    decode_encoded : (x : Bytes) → map (λ b. b - 11) (join_lines (map (λ b. b + 11) x)) ≡ x
    decode_encoded [] = refl
    decode_encoded (c ∷ cs) = ground (arith, decode_encoded cs)

abbrev pub id_1 : Bytes
id_1 = 1 ∷ 2 ∷ 3 ∷ 4 ∷ 5 ∷ 6 ∷ 7 ∷ 8 ∷ 9 ∷ 10 ∷ 11 ∷ 12 ∷ 13 ∷ 14 ∷ 15 ∷ 16 ∷ []

abbrev pub header : ℕ → ℕ → Bytes
header code size = 3 ∷ (u16_bytes code ++ u32_bytes size)

-- "1:2", "ab" and "c\d", on three lines.
abbrev pub transfer_text : Bytes
transfer_text = 49 ∷ 58 ∷ 50 ∷ 10 ∷ 97 ∷ 98 ∷ 10 ∷ 99 ∷ 92 ∷ 100 ∷ 10 ∷ []

abbrev pub file_path : Bytes
file_path = 99 ∷ 92 ∷ 100 ∷ []

abbrev pub example_files : Bytes → Option Bytes
example_files name =
    if bytes_eq name transfer_info
    then some transfer_text
    else if bytes_eq name file_path
    then some (1 ∷ 2 ∷ 3 ∷ [])
    else none

-- A server that answers as this client hopes, with the CRC that is given.
abbrev pub good_answers : ℕ → Bytes
good_answers crc =
    header 1600 16
    ++ (id_1
        ++ (header 1602 48
            ++ (id_1
                ++ (replicate 32 9
                    ++ (header 1603 279
                        ++ (id_1
                            ++ (u32_bytes 16
                                ++ (100 ∷ replicate 254 0
                                    ++ (u32_bytes crc ++ (header 1604 16 ++ id_1))))))))))

abbrev pub world : Bytes → World
world inbox = record {
  inbox = inbox;
  outbox = [];
  breaks = λ k. none;
  reachable = λ ip port. true;
  files = example_files;
  writable = λ name. true;
  keys_made = 0;
}

abbrev pub file_request : Request
file_request = record {
  num_of_failures = 0;
  client_id = id_1;
  version_field = 3 ∷ [];
  code = u16_bytes 828;
  payload_size = 0 ∷ 0 ∷ 0 ∷ 0 ∷ [];
  payload = [];
}

pub file_request-IsShaped : IsShaped file_request
file_request-IsShaped = record {
  id_size = refl;
  is_version = refl;
  code_size = refl;
  size_size = refl;
}

abbrev pub known_client : Client
known_client = record {
  name_client = 97 ∷ 98 ∷ [];
  file_name = 100 ∷ [];
  client_id = id_1;
  path_to_file = 99 ∷ 92 ∷ 100 ∷ [];
  encrypted_aes = replicate 32 9;
  priv_key = 48 ∷ [];
  crc_value = 1602962764;
}

pub id_1-HasNoNull : HasNoNull id_1
id_1-HasNoNull = ground arith

pub known_client-IsKnown : IsKnown known_client
known_client-IsKnown = record {
  id_size = refl;
  id_no_null = id_1-HasNoNull;
  name_no_null = (ground arith, tt);
  name_size = omega arith;
}
