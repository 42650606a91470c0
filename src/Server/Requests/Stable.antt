-- ===== src/Server/Requests/Stable.antt =====
-- Server/*.py: what a predicate has to bear so that the parts of the handlers keep it.
pub mod Handlers
use secure_file_transfer_sys.Server.Connection.{
  send_as_much, recv, recv_int, recv_name, sendall, send_int, send_header_to_client,
}
use secure_file_transfer_sys.Server.Runtime.{
  returned, PyLibrary, ServerFile, ServerClient, ClientRow, State, Act, give, or_raise, raise,
  raised,
}
use secure_file_transfer_sys.Base.{
  ℕ, ◌+◌, ◌≡◌, refl, Bool, true, false, Option, none, some, List, [], ◌&&◌, ◌||◌, ◌∷◌, ◌++◌,
  if◌then◌else◌, bytes_eq, ◌==◌, leb, length,
}
use secure_file_transfer_sys.Runtime.{Bytes}
use secure_file_transfer_sys.Server.Runtime.Stays.{
  Stays, Kept-if, Stays-give, Stays-raise, Stays-or_raise, Stays-gets, Stays-if, Stays-change,
  Stays-bind,
}
use secure_file_transfer_sys.Server.Text.{convert_byte_to_int, convert_int_to_byte, decode_name}
use secure_file_transfer_sys.Server.Connection.Exchange.{arriving, saying}
use secure_file_transfer_sys.Server.Tables.{
  read_clock, update_clients, set_lastseen_date, set_aes_key, set_public_key, set_valid_crc,
  without_name, delete_file, has_file_row, add_file_db,
}
use secure_file_transfer_sys.Server.Registry.{modify, client_at, change_client, change_files}
use secure_file_transfer_sys.Server.Disk.{
  exists, write_disk, append_disk, remove_disk, make_folder, make_folder,
}
use secure_file_transfer_sys.Server.Header.{check_id}
use secure_file_transfer_sys.Server.Keys.{last_seen, draw, encrypt_by_public_key, create_send_aes}

-- A change of a client that keeps its ID and its name.
pub record KeepsName (f : ServerClient → ServerClient) : Type 0 where
  pub id : (c : ServerClient) → (f c).client_id ≡ c.client_id
  pub name : (c : ServerClient) → (f c).client_name ≡ c.client_name

pub record KeepsRow (f : ClientRow → ClientRow) : Type 0 where
  pub id : (c : ClientRow) → (f c).client_id ≡ c.client_id
  pub name : (c : ClientRow) → (f c).client_name ≡ c.client_name

pub record Stable (W : Type 0) (P : State → Type 0) : Type 0 where
  pub may_wait : (s : State) → P s → s.blocking ≡ true → W
  pub arrives : (t : Bytes) (s : State) → P s → P (arriving s t)
  pub says : (t : Bytes) (s : State) → P s → P (saying s t)
  pub clients :
      (f : ServerClient → ServerClient) (k : ℕ)
      → KeepsName f
      → (s : State) → P s
      → P (record s { clients_list = modify f k s.clients_list })
  pub rows :
      (f : ClientRow → ClientRow) (id : Bytes)
      → KeepsRow f
      → (s : State) → P s
      → P (record s { clients_table = update_clients f id s.clients_table })
  pub files : (t : List ServerFile) (s : State) → P s → P (record s { files_table = t })
  pub clock : (n : ℕ) (s : State) → P s → P (record s { readings = n })
  pub chance : (n : ℕ) (s : State) → P s → P (record s { draws = n })
  pub places : (f : Bytes → Bool) (s : State) → P s → P (record s { folders = f })
  pub disks : (d : Bytes → Option Bytes) (s : State) → P s → P (record s { disk = d })

module _ (W : Type 0) (P : State → Type 0) (st : Stable W P) where
  pub Stays-recv : (n : ℕ) → Stays W P (recv n)
  unfolding recv
  Stays-recv n = record {
    at = λ s p.
        Kept-if W P (n == 0) _ _ (λ _. (tt, p))
          (λ _.
            Kept-if W P (leb 1 (length s.arrived)) _ _ (λ _. (tt, st.arrives _ s p))
              (λ _.
                Kept-if W P s.closed _ _ (λ _. (tt, p))
                  (λ _. Kept-if W P s.blocking _ _ (λ b. (st.may_wait s p b, p)) (λ _. (tt, p)))));
  }

  pub Stays-recv_int : (n : ℕ) → Stays W P (recv_int n)
  unfolding recv_int
  Stays-recv_int n = Stays-bind W P (Stays-recv n) (λ t. Stays-give W P _)

  pub Stays-recv_name : (n : ℕ) → Stays W P (recv_name n)
  unfolding recv_name
  Stays-recv_name n = Stays-bind W P (Stays-recv n) (λ t. Stays-or_raise W P _)

  Stays-send_as_much : (o : Option ℕ) (t : Bytes) → Stays W P (send_as_much o t)
  unfolding send_as_much
  Stays-send_as_much none t = record { at = λ s p. (tt, st.says t s p) }
  Stays-send_as_much (some n) t = record { at = λ s p. (tt, st.says _ s p) }

  pub Stays-sendall : (t : Bytes) → Stays W P (sendall t)
  unfolding sendall
  Stays-sendall t = record { at = λ s p. (Stays-send_as_much _ t).at s p }

  pub Stays-send_int : (n size : ℕ) → Stays W P (send_int n size)
  unfolding send_int
  Stays-send_int n size = Stays-bind W P (Stays-or_raise W P _) (λ t. Stays-sendall t)

  pub Stays-send_header : (code size : ℕ) → Stays W P (send_header_to_client code size)
  unfolding send_header_to_client
  Stays-send_header code size =
      Stays-bind W P (Stays-send_int _ _)
        (λ _. Stays-bind W P (Stays-send_int _ _) (λ _. Stays-send_int _ _))

  pub Stays-client_at : (k : ℕ) → Stays W P (client_at k)
  unfolding client_at
  Stays-client_at k = record { at = λ s p. (Stays-or_raise W P _).at s p }

  pub Stays-change_client :
      (f : ServerClient → ServerClient) (k : ℕ) → KeepsName f → Stays W P (change_client f k)
  unfolding change_client
  Stays-change_client f k keeps = Stays-change W P _ (st.clients f k keeps)

  pub Stays-change_files :
      (f : List ServerFile → List ServerFile) (k : ℕ) → Stays W P (change_files f k)
  unfolding change_files
  Stays-change_files f k = Stays-change_client _ k (record { id = λ c. refl; name = λ c. refl })

  pub Stays-change_rows :
      (f : ClientRow → ClientRow) (id : Bytes)
      → KeepsRow f
      → Stays W P
          (λ s. (returned tt, record s { clients_table = update_clients f id s.clients_table }))
  Stays-change_rows f id keeps = Stays-change W P _ (st.rows f id keeps)

  pub Stays-set_aes_key : (key id : Bytes) → Stays W P (set_aes_key key id)
  unfolding set_aes_key
  Stays-set_aes_key key id = Stays-change_rows _ id (record { id = λ c. refl; name = λ c. refl })

  pub Stays-set_public_key : (key id : Bytes) → Stays W P (set_public_key key id)
  unfolding set_public_key
  Stays-set_public_key key id = Stays-change_rows _ id (record { id = λ c. refl; name = λ c. refl })

  pub Stays-set_valid_crc : (id : Bytes) (valid : Bool) → Stays W P (set_valid_crc id valid)
  unfolding set_valid_crc
  Stays-set_valid_crc id valid = Stays-change W P _ (λ s p. st.files _ s p)

  pub Stays-delete_file : (name : Bytes) → Stays W P (delete_file name)
  unfolding delete_file
  Stays-delete_file name = record {
    at = λ s p.
        (Stays-if W P (length (without_name name s.files_table) == length s.files_table)
            (Stays-raise W P) (Stays-change W P _ (λ s p. st.files _ s p))).at
          s p;
  }

  pub Stays-add_file_db : (file : ServerFile) → Stays W P (add_file_db file)
  unfolding add_file_db
  Stays-add_file_db file = record {
    at = λ s p.
        (Stays-if W P (has_file_row file.client_id file.file_name s.files_table) (Stays-raise W P)
            (Stays-change W P _ (λ s p. st.files _ s p))).at
          s p;
  }

  pub Stays-write_disk : (path content : Bytes) → Stays W P (write_disk path content)
  unfolding write_disk
  Stays-write_disk path content = record {
    at = λ s p. Kept-if W P (s.can_write path) _ _ (λ _. (tt, st.disks _ s p)) (λ _. (tt, p));
  }

  pub Stays-append_disk : (path content : Bytes) → Stays W P (append_disk path content)
  unfolding append_disk
  Stays-append_disk path content = record { at = λ s p. (Stays-write_disk path _).at s p }

  pub Stays-remove_disk : (path : Bytes) → Stays W P (remove_disk path)
  unfolding remove_disk
  Stays-remove_disk path = record {
    at = λ s p.
        Kept-if W P (exists (s.disk path) && s.can_write path)
          (returned tt, record s { disk = λ p. if bytes_eq path p then none else s.disk p })
          (raised, s) (λ _. (tt, st.disks _ s p)) (λ _. (tt, p));
  }

  pub Stays-check_id : (a b : Bytes) → Stays W P (check_id a b)
  unfolding check_id
  Stays-check_id a b = Stays-if W P (bytes_eq a b) (Stays-give W P tt) (Stays-raise W P)

  pub Stays-make_folder : (path : Bytes) → Stays W P (make_folder path)
  unfolding make_folder
  Stays-make_folder path = record {
    at = λ s p.
        Kept-if W P (s.folders path || exists (s.disk path)) _ _ (λ _. (tt, p))
          (λ _.
            Kept-if W P (s.can_make path)
              (returned tt, record s { folders = λ p. bytes_eq path p || s.folders p }) (raised, s)
              (λ _. (tt, st.places _ s p)) (λ _. (tt, p)));
  }
