-- ===== src/Session/FirstRun.antt =====
-- Client/client.cpp: reading "transfer.info", and `main` where there is no "me.info".
use secure_file_transfer_sys.Base.{
  ℕ, suc, ◌+◌, ◌/◌, ◌^◌, ◌<◌, ◌≤◌, ◌≡◌, refl, ap, ◌∙◌, arith, true, false, none, some, List, [],
  ◌∷◌, ◌++◌, replicate, length, drop, take-append, ◌==◌, ltb,
}
use secure_file_transfer_sys.Runtime.{Bytes, World, done, read_file}
use secure_file_transfer_sys.Runtime.Laws.{reading}
use secure_file_transfer_sys.Library.{Library, BoostLaws}
use secure_file_transfer_sys.Wire.{text_field, request_bytes}
use secure_file_transfer_sys.Request.{new_request}
use secure_file_transfer_sys.Request.Layout.{new_request-IsShaped}
use secure_file_transfer_sys.Answer.Checks.{HasNoNull}
use secure_file_transfer_sys.Answer.Fields.{header_bytes}
use secure_file_transfer_sys.ClientOb.{Client, new_client, set_client_name, set_path}
use secure_file_transfer_sys.ClientOb.Names.{set_file_name_lem}
use secure_file_transfer_sys.Cksum.Value.{checksum}
use secure_file_transfer_sys.Various.{getline, find_file_name, transfer_info, me_info}
use secure_file_transfer_sys.Various.Paths.{IsFree}
use secure_file_transfer_sys.Session.Packets.Pieces.{IsCut, join}
use secure_file_transfer_sys.Session.Packets.Loop.{sending}
use secure_file_transfer_sys.Session.Connect.{
  find_char, split_details, connect, read_transfer, main,
}
use secure_file_transfer_sys.Session.Round.{file_by_path_lem, round_messages}
use secure_file_transfer_sys.Session.KeyExchange.{storing, key_message}
use secure_file_transfer_sys.Session.Registered.{
  CanRegister, identified_of, good_conversation, registering-success,
}

pub getline_lem : (line rest : Bytes) → IsFree 10 line → getline (line ++ 10 ∷ rest) ≡ (line, rest)
unfolding getline
getline_lem [] rest free = refl
getline_lem (c ∷ line) rest free = ground (arith, getline_lem line rest free.1)

find_char_lem :
    (c : ℕ) (front rest : Bytes)
    → IsFree c front
    → find_char c (front ++ c ∷ rest) ≡ some (length front)
unfolding find_char
find_char_lem c [] rest free = ground arith
find_char_lem c (x ∷ front) rest free = ground (arith, find_char_lem c front rest free.1)

drop_one : (front rest : Bytes) (c : ℕ) → drop (length front + 1) (front ++ c ∷ rest) ≡ rest
drop_one [] rest c = refl
drop_one (x ∷ front) rest c =
    ap (λ k. drop k (x ∷ (front ++ c ∷ rest))) (plus (length front)) ∙ drop_one front rest c
  where
    plus : (k : ℕ) → suc k + 1 ≡ suc (k + 1)
    plus k = omega arith

-- The first line is cut at its first colon.
pub split_details_lem :
    (address port : Bytes)
    → IsFree 58 address
    → split_details (address ++ 58 ∷ port) ≡ (address, port)
unfolding split_details
split_details_lem address port free =
    rw
      (
        find_char_lem 58 address port free,
        take-append address (58 ∷ port),
        drop_one address port 58,
        split_details,
      )
      refl

-- What "transfer.info" says, and that the client accepts it.
pub record Configures (w : World) (address port name path : Bytes) : Type 0 where
  pub text :
      w.files transfer_info
      ≡ some ((address ++ 58 ∷ port) ++ (10 ∷ (name ++ (10 ∷ (path ++ (10 ∷ []))))))
  pub address_line : IsFree 10 (address ++ 58 ∷ port)
  pub name_line : IsFree 10 name
  pub path_line : IsFree 10 path
  pub address_free : IsFree 58 address
  pub name_fits : length name ≤ 100
  pub file_name_fits : length (find_file_name path) ≤ 254
  pub file_name_free : HasNoNull (find_file_name path)
  pub reachable : w.reachable address port ≡ true

abbrev pub configured : Bytes → Bytes → Client
configured name path = record {
  name_client = name;
  file_name = find_file_name path;
  client_id = [];
  path_to_file = path;
  encrypted_aes = [];
  priv_key = [];
  crc_value = 0;
}

connect_lem :
    (address port : Bytes) (w : World)
    → w.reachable address port ≡ true
    → connect address port w ≡ (done tt, w)
unfolding connect
connect_lem address port w e = rw e refl

read_transfer_lem :
    (w : World) (address port name path : Bytes)
    → Configures w address port name path
    → read_transfer new_client w ≡ (done (configured name path), w)
unfolding read_transfer set_client_name set_path new_client
read_transfer_lem w address port name path can =
    let details = address ++ 58 ∷ port in
    rw
      (
        file_by_path_lem transfer_info _ w can.text,
        getline_lem details (name ++ (10 ∷ (path ++ (10 ∷ [])))) can.address_line,
        getline_lem name (path ++ (10 ∷ [])) can.name_line,
        getline_lem path [] can.path_line,
        name_ok,
        not_255,
        set_file_name_lem (find_file_name path) (set_client_name name new_client) w
            can.file_name_free,
        short,
        split_details_lem address port can.address_free,
        connect_lem address port w can.reachable,
      )
      refl
  where
    name_ok : ltb 100 (length name) ≡ false
    name_ok = let h = can.name_fits in ground arith

    not_255 : (length (find_file_name path) == 255) ≡ false
    not_255 = let h = can.file_name_fits in ground arith

    short : ltb (length (find_file_name path)) 255 ≡ true
    short = let h = can.file_name_fits in ground arith

-- Under the laws of Boost.Endian, where "transfer.info" is accepted, there is no "me.info" and nothing
-- goes wrong with a registration (the ID has no zero byte, files can be written, writes go through, the
-- keys can be read, the file has less than 2^31 bytes and fits 65535 packets once it is encrypted), on
-- the answers of a server that takes each request and computes the same checksum: `main` returns, it has sent the registration, the public key, the
-- encrypted file in packets and the request of the code 900, and it has stored the key, the name
-- and the ID.
pub main-success :
    (lib : Library) (laws : BoostLaws lib) (w : World)
    (address port name path id sealed file encrypted rest : Bytes) (size thanks_size : ℕ)
    → Configures w address port name path
    → w.files me_info ≡ none
    → CanRegister lib (configured name path) w id sealed file encrypted
    → size < 2 ^ 31
    → thanks_size < 2 ^ 31
    → w.inbox
      ≡ header_bytes 3 1600 16
        ++ good_conversation (configured name path) id sealed file encrypted size thanks_size rest
    → (cut : List Bytes) × (join cut ≡ encrypted)
      × IsCut cut
      × (length cut ≡ (length encrypted + 4095) / 4096)
      × (main lib w ≡ (
        done tt,
        sending (reading (storing lib (identified_of (configured name path) id) w) rest) (
            request_bytes (replicate 16 0) 825 (text_field name)
            ∷ key_message lib (identified_of (configured name path) id) w
            ∷ round_messages
                (identified_of (configured name path) id)
                file
                encrypted
                (checksum file)
                0
                cut),
      ))
unfolding main read_file
main-success lib laws w address port name path id sealed file encrypted rest size thanks_size conf
      first can small small' e =
    let (cut, joined, is_cut, count, registered) =
      registering-success lib laws (configured name path) id sealed file encrypted 3 size
        thanks_size new_request rest w can new_request-IsShaped (unfold new_request in refl) small
        small' e in
    (
      cut,
      joined,
      is_cut,
      count,
      rw (read_transfer_lem w address port name path conf, first) registered,
    )
