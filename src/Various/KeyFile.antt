-- ===== src/Various/KeyFile.antt =====
-- Client/various_functions.cpp: the private key on disk.
use secure_file_transfer_sys.Base.{some, ◌≡◌, refl, ap, ◌∙◌, arith, true, [], ◌∷◌, ◌++◌}
use secure_file_transfer_sys.Runtime.{Bytes, World, done, update, ◌>>◌, read_file, write_file}
use secure_file_transfer_sys.Library.{Library, Base64Laws, join_lines}
use secure_file_transfer_sys.Wrappers.{encode, decode}
use secure_file_transfer_sys.Various.{priv_key, file_by_path, read_priv_key, create_priv_key_file}

join_lines-end : (text : Bytes) → join_lines (text ++ 10 ∷ []) ≡ join_lines text
join_lines-end [] = refl
join_lines-end (c ∷ text) = ground (arith, join_lines-end text)

decode-encode_line :
    (lib : Library)
    → Base64Laws lib
    → (key : Bytes) → lib.base64_decode (join_lines (lib.base64_encode key ++ 10 ∷ [])) ≡ key
decode-encode_line lib laws key =
    ap lib.base64_decode (join_lines-end (lib.base64_encode key))
    ∙ laws.decode_skips_lines (lib.base64_encode key)
    ∙ laws.decode-encode key

pub read_priv_key_lem :
    (lib : Library)
    → Base64Laws lib
    → (key : Bytes) (w : World) → w.files priv_key ≡ some (lib.base64_encode key ++ 10 ∷ [])
    → read_priv_key lib w ≡ (done key, w)
unfolding read_priv_key file_by_path read_file decode
read_priv_key_lem lib laws key w e = rw (e, decode-encode_line lib laws key) refl

-- Under the laws of Base64, where "priv.key" can be written, `read_priv_key` returns the key that `create_priv_key_file` has
-- written, and leaves every other file as it was.
pub read_priv_key-create_priv_key_file :
    (lib : Library) (laws : Base64Laws lib) (key : Bytes) (w : World)
    → w.writable priv_key ≡ true
    → (create_priv_key_file lib key >> read_priv_key lib) w
      ≡ (done key, record w { files = update w.files priv_key (lib.base64_encode key ++ 10 ∷ []) })
unfolding create_priv_key_file read_priv_key file_by_path read_file write_file encode decode
read_priv_key-create_priv_key_file lib laws key w can =
    rw (can, decode-encode_line lib laws key) refl
