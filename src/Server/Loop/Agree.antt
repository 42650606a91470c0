-- ===== src/Server/Loop/Agree.antt =====
-- Server/server.py: the agreement of objects and data base under the handlers.
use secure_file_transfer_sys.Base.{
  ℕ, ◌+◌, ◌<◌, ◌≡◌, refl, sym, ap, ◌∙◌, subst, arith, Bool, true, false, Option, none, some, List,
  [], ◌∷◌, ◌++◌, map, All, bytes_eq, ◌||◌, ◌==◌, Bool-cases, Option-cases, inl, inr, ◌⊎◌,
}
use secure_file_transfer_sys.Runtime.{Bytes}
use secure_file_transfer_sys.Server.Runtime.{
  PyLibrary, ServerClient, State, returned, raised, change, ◌>>=◌, ◌>>◌,
}
use secure_file_transfer_sys.Server.Runtime.Stays.{
  Kept, Stays, Stays-give, Stays-raise, Stays-if, Stays-change, Stays-bind, Stays-try,
}
use secure_file_transfer_sys.Server.Connection.{clean_buffer, sendall, send_header_to_client}
use secure_file_transfer_sys.Server.Tables.{read_clock, row_of, has_client_row, add_client_db}
use secure_file_transfer_sys.Server.Registry.{find_name}
use secure_file_transfer_sys.Server.Disk.{exists, client_folder, make_folder}
use secure_file_transfer_sys.Server.Header.{ServerRequest, header_validation}
use secure_file_transfer_sys.Server.Requests.{new_client, registration_request_825}
use secure_file_transfer_sys.Server.Requests.Answers.{fresh}
use secure_file_transfer_sys.Server.Requests.Stable.{
  Stays-recv_name, Stays-sendall, Stays-send_header,
}
use secure_file_transfer_sys.Server.Requests.Stable.Handlers.{
  Stays-last_seen, Stays-reconnection_request_827, Stays-send_public_key_request_826,
}
use secure_file_transfer_sys.Server.Files.Stable.{
  Stays-send_file_request_828, Stays-crc_response_900_901_902,
}
use secure_file_transfer_sys.Server.Loop.{register, dispatch, handle, read, serve}
use secure_file_transfer_sys.Server.Loop.Returns.{Stays-get_header}
use secure_file_transfer_sys.Server.Loop.Consistent.{
  ids, names, Differ, NoTwo, IsMade, Consistent, Consistent-same, Consistent-Stable, NoTwo-append,
  All-append, All-map, find_name-none, no_row,
}

map-append_one :
    {A B : Type 0} (g : A → B) (xs : List A) (x : A) → map g (xs ++ x ∷ []) ≡ map g xs ++ g x ∷ []
map-append_one g [] x = refl
map-append_one g (y ∷ xs) x = ap (λ l. g y ∷ l) (map-append_one g xs x)

-- However `os.mkdir` ends, only the folders can have changed.
make_folder-ends :
    (path : Bytes) (s : State)
    → (places : Bytes → Bool) × ((make_folder path s ≡ (returned tt, record s { folders = places }))
        ⊎ (make_folder path s ≡ (raised, record s { folders = places })))
unfolding make_folder
make_folder-ends path s = elim (Bool-cases (s.folders path || exists (s.disk path))) [
  | inl there ↦ (s.folders, inl (rw there refl))
  | inr missing ↦ elim (Bool-cases (s.can_make path)) [
    | inl can ↦ ((λ p. bytes_eq path p || s.folders p), inl (rw (missing, can) refl))
    | inr cannot ↦ (s.folders, inr (rw (missing, cannot) refl))
  ]
]

module _ (py : PyLibrary) where
  -- The state once a client object has been made.
  abbrev made_client : (Bytes → Bool) → State → State
  made_client places s = record s {
    folders = places;
    ids_made = s.ids_made + 1;
    readings = s.readings + 1;
  }

  new_client-ends :
      (name : Bytes) (s : State)
      → (places : Bytes → Bool) × ((new_client py name s
            ≡ (returned (fresh py name s), made_client places s))
          ⊎ (new_client py name s ≡ (raised, made_client places s)))
  unfolding new_client read_clock
  new_client-ends name s =
      let s1 : State = record s { ids_made = s.ids_made + 1; readings = s.readings + 1 } in
      let (places, ends) = make_folder-ends (client_folder name) s1 in
      (places, elim ends [ inl e ↦ inl (rw e refl) | inr e ↦ inr (rw e refl) ])

  made_client-Consistent :
      (places : Bytes → Bool) (s : State) → Consistent py s → Consistent py (made_client places s)
  made_client-Consistent places s h = record {
    same_ids = h.same_ids;
    same_names = h.same_names;
    distinct_ids = h.distinct_ids;
    distinct_names = h.distinct_names;
    made = All-map _ _ (ids s.clients_list) (λ i (k, less, e). (k, omega arith, e)) h.made;
  }

module _ (py : PyLibrary)
    (differ : (j k : ℕ) → j < k → bytes_eq (py.uuid4 j) (py.uuid4 k) ≡ false) where
  new_id :
      (s : State) → Consistent py s → All (λ y. Differ (py.uuid4 s.ids_made) y) (ids s.clients_list)
  new_id s h =
      All-map _ _ (ids s.clients_list) (λ i (k, less, e). rw e (differ k s.ids_made less)) h.made

  abbrev with_client : Bytes → (Bytes → Bool) → State → State
  with_client name places s = record (made_client py places s) {
    clients_list = s.clients_list ++ fresh py name s ∷ [];
    clients_table = s.clients_table ++ row_of (fresh py name s) ∷ [];
  }

  with_client-Consistent :
      (name : Bytes) (places : Bytes → Bool) (s : State)
      → find_name name s.clients_list ≡ none
      → Consistent py s
      → Consistent py (with_client name places s)
  unfolding row_of
  with_client-Consistent name places s free h =
      let c : ServerClient = fresh py name s in
      let i = map-append_one (λ c. c.client_id) s.clients_list c in
      let n = map-append_one (λ c. c.client_name) s.clients_list c in
      let id = py.uuid4 s.ids_made in
      record {
        same_ids =
            i
            ∙ ap (λ l. l ++ id ∷ []) h.same_ids
            ∙ sym (map-append_one (λ r. r.client_id) s.clients_table (row_of c));
        same_names =
            n
            ∙ ap (λ l. l ++ name ∷ []) h.same_names
            ∙ sym (map-append_one (λ r. r.client_name) s.clients_table (row_of c));
        distinct_ids =
            subst NoTwo (sym i) (NoTwo-append (ids s.clients_list) id h.distinct_ids (new_id s h));
        distinct_names = subst NoTwo (sym n) (
            NoTwo-append (names s.clients_list) name h.distinct_names
              (find_name-none name s.clients_list free));
        made =
            subst (λ l. All (IsMade py (s.ids_made + 1)) l) (sym i)
              (All-append _ (ids s.clients_list) id (made_client-Consistent py places s h).made
                (s.ids_made, omega arith, refl));
      }

  abbrev P : State → Type 0
  P = Consistent py

  -- A free name: the client is in the list and in the table, or in neither.
  admitting :
      (name : Bytes) (s : State)
      → find_name name s.clients_list ≡ none
      → P s
      → Kept Unit P (
          (do
            client ← new_client py name
            change (λ s. record s { clients_list = s.clients_list ++ client ∷ [] })
            add_client_db client
            send_header_to_client 1600 16
            sendall client.client_id)
            s)
  unfolding add_client_db
  admitting name s free h =
      let st = Consistent-Stable py in
      let id = py.uuid4 s.ids_made in
      let absent : has_client_row id s.clients_table ≡ false =
        no_row id s.clients_table (subst (λ l. All (λ y. Differ id y) l) h.same_ids (new_id s h)) in
      let (places, ends) = new_client-ends py name s in
      elim ends [
        | inr e ↦ rw e (tt, made_client-Consistent py places s h)
        | inl e ↦
            rw (e, absent)
              ((Stays-bind Unit P (Stays-send_header Unit P st 1600 16)
                  (λ _. Stays-sendall Unit P st (py.uuid4 s.ids_made))).at
                (with_client name places s) (with_client-Consistent name places s free h))
      ]

  Stays-registration_request_825 : Stays Unit P (registration_request_825 py)
  unfolding registration_request_825
  Stays-registration_request_825 =
      let st = Consistent-Stable py in
      Stays-bind Unit P (Stays-recv_name Unit P st 255) (λ name. record {
        at = λ s h. elim (Option-cases (find_name name s.clients_list)) [
          | inl free ↦ rw free (admitting name s free h)
          | inr (k, found) ↦ rw found (
              (Stays-bind Unit P (Stays-last_seen Unit P st py k) (λ _. Stays-raise Unit P)).at s h)
        ];
      })

  Stays-refuse : (code : ℕ) → Stays Unit P (do clean_buffer; send_header_to_client code 0)
  unfolding clean_buffer
  Stays-refuse code =
      Stays-bind Unit P
        (Stays-change Unit P _ (λ s h. Consistent-same py s _ refl refl refl refl refl h))
        (λ _. Stays-send_header Unit P (Consistent-Stable py) code 0)

  Stays-dispatch : (r : ServerRequest) → Stays Unit P (dispatch py r)
  unfolding dispatch register
  Stays-dispatch r =
      let st = Consistent-Stable py in
      Stays-if Unit P (r.code == 825)
        (Stays-try Unit P Stays-registration_request_825 (Stays-refuse 1601))
        (Stays-if Unit P (r.code == 827) (Stays-reconnection_request_827 Unit P st py r) (
          Stays-if Unit P (r.code == 826) (Stays-send_public_key_request_826 Unit P st py r) (
            Stays-if Unit P (r.code == 828) (Stays-send_file_request_828 Unit P st py r) (
              Stays-if Unit P (r.code == 900 || (r.code == 901 || r.code == 902))
                (Stays-crc_response_900_901_902 Unit P st py r) (Stays-raise Unit P)))))

  Stays-handle : (header : Option ServerRequest) → Stays Unit P (handle py header)
  unfolding header_validation
  Stays-handle none = Stays-give Unit P false
  Stays-handle (some r) =
      Stays-bind Unit P
        (Stays-if Unit P (r.version == 3) (Stays-give Unit P tt) (Stays-raise Unit P))
        (λ _. Stays-bind Unit P (Stays-dispatch r) (λ _. Stays-give Unit P true))

  Stays-read : Stays Unit P (read py)
  unfolding read clean_buffer
  Stays-read =
      let st = Consistent-Stable py in
      Stays-try Unit P (Stays-bind Unit P (Stays-get_header Unit P st) Stays-handle) (
        Stays-bind Unit P
          (Stays-change Unit P _ (λ s h. Consistent-same py s _ refl refl refl refl refl h))
          (λ _.
            Stays-bind Unit P (Stays-send_header Unit P st 1607 0) (λ _. Stays-give Unit P true)))

  Stays-serve : (messages : List Bytes) → Stays Unit P (serve py messages)
  unfolding serve
  Stays-serve [] = Stays-give Unit P tt
  Stays-serve (message ∷ messages) =
      Stays-bind Unit P
        (Stays-change Unit P _ (λ s h. Consistent-same py s _ refl refl refl refl refl h))
        (λ _.
          Stays-bind Unit P Stays-read (λ open_still.
            Stays-if Unit P open_still (Stays-serve messages) (Stays-give Unit P tt)))

  -- Where no UUID repeats, the server's objects and the clients' table agree after any sequence of
  -- messages, well-formed or not, if they agreed before: the same IDs and names in the same order, and
  -- no two clients with the same ID or the same name.
  pub serve-Consistent :
      (messages : List Bytes) (s : State) → Consistent py s → Consistent py (serve py messages s).1
  serve-Consistent messages s h = ((Stays-serve messages).at s h).1
