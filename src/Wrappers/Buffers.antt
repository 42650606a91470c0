-- ===== src/Wrappers/Buffers.antt =====
-- Client/AESWrapper and Client/RSAWrapper: what the client does not call, the public key and the
-- overloads on a pointer and a length. A pointer is the buffer that it points to.
pub mod Keys
use secure_file_transfer_sys.Base.{
  ℕ, zero, suc, ◌+◌, ◌/◌, Option, none, some, [], ◌∷◌, ◌++◌, leb, if◌then◌else◌, length, take, drop,
}
use secure_file_transfer_sys.Runtime.{Bytes, World, Run, done, ◌>>=◌, pure, defined, or_abort}
use secure_file_transfer_sys.Library.{Library}
use secure_file_transfer_sys.Wrappers.{
  AesWrapper, RsaPrivateWrapper, default_keylength, rsa_private, get_private_key, get_public_key,
  rsa_decrypt,
}

abbrev pub keysize : ℕ
keysize = 160

abbrev pub bits : ℕ
bits = 1024

pub record RsaPublicWrapper : Type 0 where
  pub public_key : Bytes

-- The `n` bytes behind a pointer.
unfoldable pub chars_of : Bytes → ℕ → Run Bytes
chars_of buffer n = defined (if leb n (length buffer) then some (take n buffer) else none)

-- `ArraySink`: what fits into `n` bytes is written to the buffer, and the rest is dropped.
unfoldable pub array_sink : Bytes → Bytes → ℕ → Run Bytes
array_sink text buffer n =
    let written = take n text in
    defined (
      if leb (length written) (length buffer)
      then some (written ++ drop (length written) buffer)
      else none)

-- The loop of `GenerateKey` over the words of four bytes from `i` on. A failed draw stores 0.
unfoldable pub put_word : Option Bytes → ℕ → Bytes → Option Bytes
put_word drawn i buffer =
    if leb (i + 4) (length buffer)
    then some (
        take i buffer
        ++ (elim drawn [ none ↦ 0 ∷ 0 ∷ 0 ∷ 0 ∷ [] | some word ↦ word ] ++ drop (i + 4) buffer))
    else none

-- The draws of the random generator are counted in the world.
abbrev pub drew : World → World
drew w = record w { keys_made = w.keys_made + 1 }

module _ (lib : Library) where
  unfoldable pub generate_words : ℕ → ℕ → Bytes → Run Bytes
  generate_words zero i buffer w = (done buffer, w)
  generate_words (suc n) i buffer w =
      (do
        filled ← defined (put_word (lib.rdrand32 w.keys_made) i buffer)
        generate_words n (i + 4) filled)
        (drew w)

  -- `GenerateKey`: as many words as it takes to pass `n`.
  unfoldable pub generate_key : Bytes → ℕ → Run Bytes
  generate_key buffer n = generate_words ((n + 3) / 4) 0 buffer

  -- `AESWrapper()` fills the 32 bytes of its array, which hold what memory held.
  unfoldable pub new_aes_wrapper : Bytes → Run AesWrapper
  new_aes_wrapper memory = do
    key ← generate_key memory default_keylength
    pure (record { key = key })

  abbrev wrap_public : Option Bytes → Option RsaPublicWrapper
  wrap_public none = none
  wrap_public (some key) = some (record { public_key = key })

  -- `RSAPublicWrapper(key)` and `RSAPublicWrapper(key, length)`
  unfoldable pub rsa_public : Bytes → Option RsaPublicWrapper
  rsa_public key = wrap_public (lib.rsa_public_load key)

  unfoldable pub rsa_public_chars : Bytes → ℕ → Run RsaPublicWrapper
  rsa_public_chars key n = do text ← chars_of key n; or_abort (rsa_public text)

  unfoldable pub saved_public_key : RsaPublicWrapper → Bytes
  saved_public_key rsa = rsa.public_key

  unfoldable pub saved_public_key_chars : RsaPublicWrapper → Bytes → ℕ → Run Bytes
  saved_public_key_chars rsa keyout n = array_sink rsa.public_key keyout n

  unfoldable pub rsa_encrypt : RsaPublicWrapper → Bytes → Run Bytes
  rsa_encrypt rsa plain w = or_abort (lib.rsa_encrypt w.keys_made rsa.public_key plain) (drew w)

  unfoldable pub rsa_encrypt_chars : RsaPublicWrapper → Bytes → ℕ → Run Bytes
  rsa_encrypt_chars rsa plain n = do text ← chars_of plain n; rsa_encrypt rsa text

  -- `RSAPrivateWrapper(key, length)` and the overloads of its methods
  unfoldable pub rsa_private_chars : Bytes → ℕ → Run RsaPrivateWrapper
  rsa_private_chars key n = do text ← chars_of key n; or_abort (rsa_private lib text)

  unfoldable pub get_private_key_chars : RsaPrivateWrapper → Bytes → ℕ → Run Bytes
  get_private_key_chars rsa keyout n = array_sink (get_private_key lib rsa) keyout n

  unfoldable pub get_public_key_chars : RsaPrivateWrapper → Bytes → ℕ → Run Bytes
  get_public_key_chars rsa keyout n = array_sink (get_public_key lib rsa) keyout n

  unfoldable pub rsa_decrypt_chars : RsaPrivateWrapper → Bytes → ℕ → Run Bytes
  rsa_decrypt_chars rsa cipher n = do text ← chars_of cipher n; or_abort (rsa_decrypt lib rsa text)

unfoldable pub get_key : AesWrapper → Bytes
get_key aes = aes.key
