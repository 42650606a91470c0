-- ===== src/Wrappers.antt =====
-- Client/AESWrapper, Client/RSAWrapper and Client/Base64Wrapper: thin classes over Crypto++, which
-- is a parameter. `none` is an exception.
pub mod Buffers
use secure_file_transfer_sys.Base.{
  ◌^◌, ◌%◌, take, ℕ, ◌+◌, Option, none, some, ◌==◌, if◌then◌else◌, length, replicate,
}
use secure_file_transfer_sys.Runtime.{Bytes, Run, done}
use secure_file_transfer_sys.Library.{Library}

-- `AESWrapper::DEFAULT_KEYLENGTH` and `CryptoPP::AES::BLOCKSIZE`
abbrev pub default_keylength : ℕ
default_keylength = 32

abbrev pub aes_iv : Bytes
aes_iv = replicate 16 0

pub record AesWrapper : Type 0 where
  pub key : Bytes

-- The constructor from a key throws `length_error` unless the key has 32 bytes.
unfoldable pub aes_wrapper : Bytes → Option AesWrapper
aes_wrapper key = if length key == default_keylength then some (record { key = key }) else none

pub record RsaPrivateWrapper : Type 0 where
  pub private_key : Bytes

module _ (lib : Library) where
  unfoldable pub aes_encrypt : AesWrapper → Bytes → Bytes
  aes_encrypt aes plain = lib.aes_cbc_encrypt aes.key aes_iv (take (length plain % 2 ^ 32) plain)

  unfoldable pub aes_decrypt : AesWrapper → Bytes → Option Bytes
  aes_decrypt aes cipher = lib.aes_cbc_decrypt aes.key aes_iv cipher

  -- `RSAPrivateWrapper()` makes a fresh key.
  unfoldable pub new_rsa_private : Run RsaPrivateWrapper
  new_rsa_private w = (
    done (record { private_key = lib.rsa_generate w.keys_made }),
    record w { keys_made = w.keys_made + 1 },
  )

  abbrev wrap_private : Option Bytes → Option RsaPrivateWrapper
  wrap_private none = none
  wrap_private (some key) = some (record { private_key = key })

  -- `RSAPrivateWrapper(key)`
  unfoldable pub rsa_private : Bytes → Option RsaPrivateWrapper
  rsa_private key = wrap_private (lib.rsa_private_load key)

  unfoldable pub get_private_key : RsaPrivateWrapper → Bytes
  get_private_key rsa = rsa.private_key

  unfoldable pub get_public_key : RsaPrivateWrapper → Bytes
  get_public_key rsa = lib.rsa_public_of rsa.private_key

  unfoldable pub rsa_decrypt : RsaPrivateWrapper → Bytes → Option Bytes
  rsa_decrypt rsa cipher = lib.rsa_decrypt rsa.private_key cipher

  -- `Base64Wrapper::encode` and `decode`
  unfoldable pub encode : Bytes → Bytes
  encode text = lib.base64_encode text

  unfoldable pub decode : Bytes → Bytes
  decode text = lib.base64_decode text
