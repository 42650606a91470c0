-- ===== src/Witnesses/Parts.antt =====
-- The theorems on the parts of the client, applied at concrete inputs where their hypotheses hold.
use secure_file_transfer_sys.Example.{
  file_request, known_client, toy, toy-BoostLaws, toy-Base64Laws, world,
}
use secure_file_transfer_sys.Base.{
  ◌-◌, ◌^◌, ◌≡◌, ◌⊎◌, refl, arith, some, [], ◌∷◌, ◌++◌, replicate, get_or,
}
use secure_file_transfer_sys.Base.Int.{pos, to_int}
use secure_file_transfer_sys.Runtime.{Bytes, done, exited, aborted, update, ◌>>◌}
use secure_file_transfer_sys.Request.{append_file_slice}
use secure_file_transfer_sys.Request.Layout.{append_file_slice_lem}
use secure_file_transfer_sys.Answer.{up_to_null, read_string_and_check, get_header_from_server}
use secure_file_transfer_sys.Answer.Checks.{
  HasNoNull, read_string_and_check_lem, read_string_and_check-null,
}
use secure_file_transfer_sys.Answer.Fields.{
  header_bytes, get_header_from_server_lem, get_header_from_server-version,
}
use secure_file_transfer_sys.ClientOb.{set_file_name}
use secure_file_transfer_sys.ClientOb.Names.{set_file_name_lem}
use secure_file_transfer_sys.Cksum.{crctab, memcrc}
use secure_file_transfer_sys.Cksum.Spec.{remainder}
use secure_file_transfer_sys.Cksum.Table.{crctab_lem}
use secure_file_transfer_sys.Cksum.Bitwise.{memcrc-remainder}
use secure_file_transfer_sys.Various.{
  calculate_total_packets, find_file_name, priv_key, create_priv_key_file, read_priv_key,
}
use secure_file_transfer_sys.Various.Packets.{calculate_total_packets_lem}
use secure_file_transfer_sys.Various.Paths.{IsFree, find_file_name_lem}
use secure_file_transfer_sys.Various.KeyFile.{read_priv_key-create_priv_key_file}

memcrc_example :
    memcrc (49 ∷ 50 ∷ 51 ∷ []) ≡ some (2 ^ 32 - 1 - remainder 0 (49 ∷ 50 ∷ 51 ∷ 3 ∷ []))
memcrc_example =
    memcrc-remainder (49 ∷ 50 ∷ 51 ∷ []) (3 ∷ []) (omega arith)
      (omega arith, (omega arith, (omega arith, tt))) (omega arith, refl, refl)

crctab_example : get_or (get_or crctab 1 []) 2 0 ≡ remainder 0 (2 ∷ 0 ∷ [])
crctab_example = crctab_lem 1 2 (omega arith) (omega arith)

read_string_and_check_example :
    read_string_and_check (97 ∷ []) 3 (world (97 ∷ 0 ∷ 5 ∷ 8 ∷ [])) ≡ (done tt, world (8 ∷ []))
unfolding up_to_null
read_string_and_check_example =
    read_string_and_check_lem (97 ∷ []) (97 ∷ []) (0 ∷ 5 ∷ []) (8 ∷ [])
      (world (97 ∷ 0 ∷ 5 ∷ 8 ∷ [])) (ground arith, tt) refl refl

with_null : ¬ HasNoNull (97 ∷ 0 ∷ [])
with_null h = h.1.0 refl

read_string_and_check-null_example :
    (read_string_and_check (97 ∷ 0 ∷ []) 2 (world (97 ∷ 0 ∷ []))).0 ≡ exited
read_string_and_check-null_example =
    read_string_and_check-null (97 ∷ 0 ∷ []) 2 (world (97 ∷ 0 ∷ [])) with_null

get_header_from_server_example :
    get_header_from_server toy (world (header_bytes 3 1603 279 ++ 8 ∷ []))
    ≡ (done (record { version_field = 3; code = 1603; payload_size = pos 279 }), world (8 ∷ []))
get_header_from_server_example =
    get_header_from_server_lem toy toy-BoostLaws 1603 279 (8 ∷ [])
      (world (header_bytes 3 1603 279 ++ 8 ∷ [])) (omega arith) (omega arith) refl

get_header_from_server-version_example :
    get_header_from_server toy (world (header_bytes 2 1603 279 ++ 8 ∷ []))
    ≡ (exited, world (8 ∷ []))
get_header_from_server-version_example =
    get_header_from_server-version toy toy-BoostLaws 2 1603 279 (8 ∷ [])
      (world (header_bytes 2 1603 279 ++ 8 ∷ [])) (omega arith) (ground arith) refl

calculate_total_packets_example :
    calculate_total_packets (to_int 4097) (world []) ≡ (done (pos 2), world [])
calculate_total_packets_example = calculate_total_packets_lem 4097 (world []) (omega arith)

find_file_name_example :
    IsFree 92 (find_file_name (99 ∷ 92 ∷ 100 ∷ []))
    × ((99 ∷ 92 ∷ 100 ∷ [] ≡ find_file_name (99 ∷ 92 ∷ 100 ∷ []))
        ⊎ ((front : Bytes) × (99 ∷ 92 ∷ 100 ∷ []
              ≡ front ++ (92 ∷ find_file_name (99 ∷ 92 ∷ 100 ∷ [])))))
find_file_name_example = find_file_name_lem (99 ∷ 92 ∷ 100 ∷ [])

append_file_slice_example :
    append_file_slice (1 ∷ 2 ∷ 3 ∷ 4 ∷ []) 1 3 file_request
    ≡ some (record file_request { payload = 2 ∷ 3 ∷ [] })
append_file_slice_example =
    append_file_slice_lem (1 ∷ 2 ∷ 3 ∷ 4 ∷ []) 1 3 file_request (omega arith) (omega arith)

read_priv_key_example : (create_priv_key_file toy (5 ∷ 6 ∷ []) >> read_priv_key toy) (world []) ≡ (
  done (5 ∷ 6 ∷ []),
  record (world []) { files = update (world []).files priv_key (16 ∷ 17 ∷ 10 ∷ []) },
)
read_priv_key_example =
    read_priv_key-create_priv_key_file toy toy-Base64Laws (5 ∷ 6 ∷ []) (world []) refl

set_file_name_example :
    set_file_name (replicate 255 97) known_client (world []) ≡ (aborted, world [])
set_file_name_example = set_file_name_lem (replicate 255 97) known_client (world []) (ground arith)
