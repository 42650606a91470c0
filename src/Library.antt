-- ===== src/Library.antt =====
-- The third-party code that the client calls, as parameters of the model: Crypto++ (RSA, AES in CBC
-- mode with a zero IV, Base64) and Boost.Endian. `BoostLaws` and `Base64Laws` state documented
-- behaviour, and are hypotheses of the theorems that need them.
use secure_file_transfer_sys.Base.{
  ℕ, ◌+◌, ◌*◌, ◌/◌, ◌%◌, ◌<◌, ◌≡◌, Option, [], ◌∷◌, ◌==◌, if◌then◌else◌,
}
use secure_file_transfer_sys.Runtime.{Bytes}

pub record Library : Type 0 where
  -- `store_little_u16` and `store_little_u32`
  pub store_little_u16 : ℕ → Bytes
  pub store_little_u32 : ℕ → Bytes
  -- `value()` of `little_uint8_buf_t`, `little_uint16_buf_t` and `little_uint32_buf_t`
  pub little_uint8_value : Bytes → ℕ
  pub little_uint16_value : Bytes → ℕ
  pub little_uint32_value : Bytes → ℕ
  -- the private key that the k-th `PrivateKey::Initialize` makes, as `Save` writes it
  pub rsa_generate : ℕ → Bytes
  -- `PrivateKey::Load` and `PublicKey::Load`, which may throw, and then `Save`
  pub rsa_private_load : Bytes → Option Bytes
  pub rsa_public_load : Bytes → Option Bytes
  -- `RSAFunction(private).Save`
  pub rsa_public_of : Bytes → Bytes
  -- OAEP with SHA, with the k-th draw from the pool; encryption of a text that is too long and
  -- decryption may throw
  pub rsa_encrypt : ℕ → Bytes → Bytes → Option Bytes
  pub rsa_decrypt : Bytes → Bytes → Option Bytes
  -- AES-256 in CBC mode with padding, from a key, an IV and a text; decryption may throw
  pub aes_cbc_encrypt : Bytes → Bytes → Bytes → Bytes
  pub aes_cbc_decrypt : Bytes → Bytes → Bytes → Option Bytes
  -- the four bytes of the k-th `_rdrand32_step`, or nothing where it fails
  pub rdrand32 : ℕ → Option Bytes
  -- `Base64Encoder` and `Base64Decoder`
  pub base64_encode : Bytes → Bytes
  pub base64_decode : Bytes → Bytes

-- The least significant byte comes first.
pub record BoostLaws (lib : Library) : Type 0 where
  pub store_u16 : (x : ℕ) → lib.store_little_u16 x ≡ x % 256 ∷ x / 256 % 256 ∷ []
  pub store_u32 :
      (x : ℕ)
      → lib.store_little_u32 x ≡ x % 256 ∷ x / 256 % 256 ∷ x / 65536 % 256 ∷ x / 16777216 % 256 ∷ []
  pub value_u8 : (a : ℕ) → a < 256 → lib.little_uint8_value (a ∷ []) ≡ a
  pub value_u16 : (a b : ℕ) → a < 256 → b < 256 → lib.little_uint16_value (a ∷ b ∷ []) ≡ a + 256 * b
  pub value_u32 :
      (a b c d : ℕ)
      → a < 256
      → b < 256
      → c < 256
      → d < 256
      → lib.little_uint32_value (a ∷ b ∷ c ∷ d ∷ []) ≡ a + 256 * b + 65536 * c + 16777216 * d

-- A text without its line ends, as the repeated `getline` of the client joins it.
abbrev pub join_lines : Bytes → Bytes
join_lines [] = []
join_lines (c ∷ cs) = if c == 10 then join_lines cs else c ∷ join_lines cs

-- The decoder skips line ends, and undoes the encoder.
pub record Base64Laws (lib : Library) : Type 0 where
  pub decode_skips_lines : (x : Bytes) → lib.base64_decode (join_lines x) ≡ lib.base64_decode x
  pub decode-encode : (x : Bytes) → lib.base64_decode (lib.base64_encode x) ≡ x
