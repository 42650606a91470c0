-- ===== src/Server/Loop/Restart.antt =====
-- Server/server.py: `data_base_handle` against the tables.
use secure_file_transfer_sys.Base.{
  ℕ, ◌+◌, ◌≡◌, refl, sym, ap, ap₂, ◌∙◌, Bool, true, false, List, [], ◌∷◌, ◌++◌, append_assoc,
  append-nil, map, All, if◌then◌else◌, bytes_eq, ◌||◌, Bool-cases, inl, inr,
}
use secure_file_transfer_sys.Runtime.{Bytes}
use secure_file_transfer_sys.Server.General.{folder}
use secure_file_transfer_sys.Server.Runtime.{
  PyLibrary, ServerFile, ServerClient, ClientRow, State, returned, give,
}
use secure_file_transfer_sys.Server.Tables.{read_clock, row_of, create_data_base}
use secure_file_transfer_sys.Server.Disk.{exists, client_folder, make_folder}
use secure_file_transfer_sys.Server.Requests.{new_client}
use secure_file_transfer_sys.Server.Loop.{load_clients, give_file, load_files, data_base_handle}

-- The rows of the table `files` that belong to a client.
unfoldable pub files_of : Bytes → List ServerFile → List ServerFile
files_of id [] = []
files_of id (file ∷ files) =
    let rest = files_of id files in if bytes_eq id file.client_id then file ∷ rest else rest

-- The object that a row describes, without its files.
abbrev client_of : ClientRow → ServerClient
client_of row = record {
  client_id = row.client_id;
  client_name = row.client_name;
  public_key = row.public_key;
  last_seen_date = row.last_seen_date;
  aes_key = row.aes_key;
  files_list = [];
}

abbrev with_files : List ServerFile → ServerClient → ServerClient
with_files files c = record c { files_list = c.files_list ++ files_of c.client_id files }

module _ (file : ServerFile) (files : List ServerFile) (c : ServerClient) where
  given :
      (b : Bool)
      → bytes_eq c.client_id file.client_id ≡ b
      → with_files files (if b then record c { files_list = c.files_list ++ file ∷ [] } else c)
        ≡ with_files (file ∷ files) c
  unfolding files_of
  given true e =
      ap (λ l. record c { files_list = l })
        (append_assoc c.files_list (file ∷ []) (files_of c.client_id files) ∙ rw e refl)
  given false e = rw e refl

with_files-give_file :
    (file : ServerFile) (files : List ServerFile) (cs : List ServerClient)
    → map (with_files files) (give_file file cs) ≡ map (with_files (file ∷ files)) cs
unfolding give_file
with_files-give_file file files [] = refl
with_files-give_file file files (c ∷ cs) =
    ap₂ (λ y ys. y ∷ ys) (given file files c (bytes_eq c.client_id file.client_id) refl)
      (with_files-give_file file files cs)

no_files : (cs : List ServerClient) → map (with_files []) cs ≡ cs
unfolding files_of
no_files [] = refl
no_files (c ∷ cs) =
    ap₂ (λ y ys. y ∷ ys) (ap (λ l. record c { files_list = l }) (append-nil c.files_list))
      (no_files cs)

load_files_lem :
    (files : List ServerFile) (cs : List ServerClient)
    → load_files files cs ≡ map (with_files files) cs
unfolding load_files
load_files_lem [] cs = sym (no_files cs)
load_files_lem (file ∷ files) cs =
    load_files_lem files (give_file file cs) ∙ with_files-give_file file files cs

make_folder_lem :
    (path : Bytes) (s : State)
    → s.can_make path ≡ true
    → (places : Bytes → Bool) × (make_folder path s ≡ (returned tt, record s { folders = places }))
unfolding make_folder
make_folder_lem path s can = elim (Bool-cases (s.folders path || exists (s.disk path))) [
  | inl there ↦ (s.folders, rw there refl)
  | inr missing ↦ ((λ p. bytes_eq path p || s.folders p), rw (missing, can) refl)
]

-- What the start changes.
abbrev loaded : List ServerClient → (Bytes → Bool) → ℕ → ℕ → State → State
loaded cs places made read s = record s {
  clients_list = cs;
  folders = places;
  ids_made = made;
  readings = read;
}

module _ (py : PyLibrary) where
  load_clients_lem :
      (rows : List ClientRow) (s : State)
      → ((path : Bytes) → s.can_make path ≡ true)
      → (places : Bytes → Bool) × (made : ℕ) × (read : ℕ) × (load_clients py rows s
          ≡ (returned tt, loaded (s.clients_list ++ map client_of rows) places made read s))
  unfolding load_clients new_client read_clock
  load_clients_lem [] s can = (
    s.folders,
    s.ids_made,
    s.readings,
    ap (λ l. (returned tt, record s { clients_list = l })) (sym (append-nil s.clients_list)),
  )
  load_clients_lem (row ∷ rows) s can =
      let s1 : State = record s { ids_made = s.ids_made + 1; readings = s.readings + 1 } in
      let (places, e) = make_folder_lem (client_folder row.client_name) s1 (can _) in
      let s2 : State = record s1 {
        folders = places;
        clients_list = s.clients_list ++ client_of row ∷ [];
      } in
      let (places', made, read, e') = load_clients_lem rows s2 can in
      (
        places',
        made,
        read,
        rw e (
            e'
            ∙ ap (λ l. (returned tt, loaded l places' made read s))
                (append_assoc s.clients_list (client_of row ∷ []) (map client_of rows))),
      )

  described :
      (rows : List ClientRow) (files : List ServerFile)
      → (map row_of (map (with_files files) (map client_of rows)) ≡ rows)
        × All
            (λ c. c.files_list ≡ files_of c.client_id files)
            (map (with_files files) (map client_of rows))
  unfolding row_of
  described [] files = (refl, tt)
  described (row ∷ rows) files =
      let (same, all) = described rows files in (ap (λ l. row ∷ l) same, (refl, all))

  -- Where the data base exists and every folder can be made, a server that starts with no clients ends
  -- with what its data base holds: its objects are the rows of the clients' table in their order, each
  -- with just the rows of its files, and the tables are as they were.
  pub data_base_handle_lem :
      (s : State)
      → s.has_data_base ≡ true
      → s.clients_list ≡ []
      → ((path : Bytes) → s.can_make path ≡ true)
      → (s' : State) × (data_base_handle py s ≡ (returned tt, s'))
        × (map row_of s'.clients_list ≡ s.clients_table)
        × All (λ c. c.files_list ≡ files_of c.client_id s.files_table) s'.clients_list
        × (s'.clients_table ≡ s.clients_table)
        × (s'.files_table ≡ s.files_table)
  unfolding data_base_handle
  data_base_handle_lem s there empty can =
      let (places, made, read, e) = load_clients_lem s.clients_table s can in
      let objects = map client_of s.clients_table in
      let skip : (if s.has_data_base then give tt else create_data_base) s ≡ (returned tt, s) =
        ap (λ b. (if b then give tt else create_data_base) s) there in
      let started : load_clients py s.clients_table s
          ≡ (returned tt, loaded objects places made read s) =
        e ∙ ap (λ l. (returned tt, loaded (l ++ objects) places made read s)) empty in
      let cs = map (with_files s.files_table) (map client_of s.clients_table) in
      let (places', e') = make_folder_lem folder (loaded cs places made read s) (can folder) in
      let (same, all) = described s.clients_table s.files_table in
      (
        loaded cs places' made read s,
        rw (skip, started, load_files_lem s.files_table (map client_of s.clients_table), e') refl,
        same,
        all,
        refl,
        refl,
      )
