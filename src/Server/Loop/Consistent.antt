-- ===== src/Server/Loop/Consistent.antt =====
-- Server/clients.py, Server/sql.py: the list of objects and the table of clients agree.
use secure_file_transfer_sys.Base.{
  ℕ, ◌<◌, ◌≡◌, refl, sym, ap, ap₂, ◌∙◌, subst, Bool, true, false, none, List, [], ◌∷◌, ◌++◌, map,
  All, if◌then◌else◌, bytes_eq, zero, suc,
}
use secure_file_transfer_sys.Runtime.{Bytes}
use secure_file_transfer_sys.Server.Runtime.{PyLibrary, ServerClient, ClientRow, State}
use secure_file_transfer_sys.Server.Tables.{update_clients, has_client_row}
use secure_file_transfer_sys.Server.Registry.{find, modify, find_name}
use secure_file_transfer_sys.Server.Registry.Places.{not_here}
use secure_file_transfer_sys.Server.Requests.Stable.{Stable}

abbrev pub ids : List ServerClient → List Bytes
ids = map (λ c. c.client_id)

abbrev pub names : List ServerClient → List Bytes
names = map (λ c. c.client_name)

abbrev pub row_ids : List ClientRow → List Bytes
row_ids = map (λ row. row.client_id)

abbrev pub row_names : List ClientRow → List Bytes
row_names = map (λ row. row.client_name)

-- No text stands twice in the list.
abbrev pub Differ : Bytes → Bytes → Type 0
Differ x y = bytes_eq y x ≡ false

abbrev pub NoTwo : List Bytes → Type 0
NoTwo [] = Unit
NoTwo (x ∷ xs) = All (λ y. Differ y x) xs × NoTwo xs

-- An ID that has been made.
abbrev pub IsMade : PyLibrary → ℕ → Bytes → Type 0
IsMade py n id = (k : ℕ) × (k < n) × (id ≡ py.uuid4 k)

-- The objects and the rows have the same IDs and the same names in the same order, no two of them
-- share an ID or a name, and every ID is a UUID that has been made.
pub record Consistent (py : PyLibrary) (s : State) : Type 0 where
  pub same_ids : ids s.clients_list ≡ row_ids s.clients_table
  pub same_names : names s.clients_list ≡ row_names s.clients_table
  pub distinct_ids : NoTwo (ids s.clients_list)
  pub distinct_names : NoTwo (names s.clients_list)
  pub made : All (IsMade py s.ids_made) (ids s.clients_list)

map-modify :
    {A B : Type 0} (g : A → B) (f : A → A) (k : ℕ) (xs : List A)
    → ((x : A) → g (f x) ≡ g x)
    → map g (modify f k xs) ≡ map g xs
unfolding modify
map-modify g f k [] same = refl
map-modify g f zero (x ∷ xs) same = ap (λ y. y ∷ map g xs) (same x)
map-modify g f (suc k) (x ∷ xs) same = ap (λ ys. g x ∷ ys) (map-modify g f k xs same)

chosen :
    {B : Type 0} (g : ClientRow → B) (f : ClientRow → ClientRow) (b : Bool) (row : ClientRow)
    → ((x : ClientRow) → g (f x) ≡ g x)
    → g (if b then f row else row) ≡ g row
chosen g f true row same = same row
chosen g f false row same = refl

map-update_clients :
    {B : Type 0} (g : ClientRow → B) (f : ClientRow → ClientRow) (id : Bytes)
    (rows : List ClientRow)
    → ((x : ClientRow) → g (f x) ≡ g x)
    → map g (update_clients f id rows) ≡ map g rows
unfolding update_clients
map-update_clients g f id [] same = refl
map-update_clients g f id (row ∷ rows) same =
    ap₂ (λ y ys. y ∷ ys) (chosen g f (bytes_eq row.client_id id) row same)
      (map-update_clients g f id rows same)

module _ (py : PyLibrary) where
  -- What counts of the state is its lists of IDs and names.
  pub Consistent-same :
      (s s' : State)
      → ids s'.clients_list ≡ ids s.clients_list
      → names s'.clients_list ≡ names s.clients_list
      → row_ids s'.clients_table ≡ row_ids s.clients_table
      → row_names s'.clients_table ≡ row_names s.clients_table
      → s'.ids_made ≡ s.ids_made
      → Consistent py s
      → Consistent py s'
  Consistent-same s s' i n ri rn m h = record {
    same_ids = i ∙ h.same_ids ∙ sym ri;
    same_names = n ∙ h.same_names ∙ sym rn;
    distinct_ids = subst NoTwo (sym i) h.distinct_ids;
    distinct_names = subst NoTwo (sym n) h.distinct_names;
    made =
        subst (λ l. All (IsMade py s'.ids_made) l) (sym i)
          (subst (λ k. All (IsMade py k) (ids s.clients_list)) (sym m) h.made);
  }

  pub Consistent-Stable : Stable Unit (Consistent py)
  Consistent-Stable = record {
    may_wait = λ s h b. tt;
    arrives = λ t s h. Consistent-same s _ refl refl refl refl refl h;
    says = λ t s h. Consistent-same s _ refl refl refl refl refl h;
    clients = λ f k keeps s h.
        Consistent-same s _ (map-modify _ f k s.clients_list keeps.id)
          (map-modify _ f k s.clients_list keeps.name) refl refl refl h;
    rows = λ f id keeps s h.
        Consistent-same s _ refl refl (map-update_clients _ f id s.clients_table keeps.id)
          (map-update_clients _ f id s.clients_table keeps.name) refl h;
    files = λ t s h. Consistent-same s _ refl refl refl refl refl h;
    clock = λ n s h. Consistent-same s _ refl refl refl refl refl h;
    chance = λ n s h. Consistent-same s _ refl refl refl refl refl h;
    places = λ f s h. Consistent-same s _ refl refl refl refl refl h;
    disks = λ d s h. Consistent-same s _ refl refl refl refl refl h;
  }

pub NoTwo-append :
    (xs : List Bytes) (x : Bytes) → NoTwo xs → All (λ y. Differ x y) xs → NoTwo (xs ++ x ∷ [])
NoTwo-append [] x two differ = (tt, tt)
NoTwo-append (y ∷ xs) x (others, two) (differ, more) =
    (all_append xs others, NoTwo-append xs x two more)
  where
    all_append : (zs : List Bytes) → All (λ z. Differ z y) zs → All (λ z. Differ z y) (zs ++ x ∷ [])
    all_append [] all = (differ, tt)
    all_append (z ∷ zs) (first, all) = (first, all_append zs all)

pub All-append :
    {A : Type 0} (Q : A → Type 0) (xs : List A) (x : A) → All Q xs → Q x → All Q (xs ++ x ∷ [])
All-append Q [] x all q = (q, tt)
All-append Q (y ∷ xs) x (p, all) q = (p, All-append Q xs x all q)

pub All-map :
    {A : Type 0} (Q R : A → Type 0) (xs : List A) → ((x : A) → Q x → R x) → All Q xs → All R xs
All-map Q R [] f all = tt
All-map Q R (x ∷ xs) f (q, all) = (f x q, All-map Q R xs f all)

-- A name that is not found differs from all names.
pub find_name-none :
    (name : Bytes) (cs : List ServerClient)
    → find_name name cs ≡ none
    → All (λ y. Differ name y) (names cs)
unfolding find_name find
find_name-none name [] e = tt
find_name-none name (c ∷ cs) e =
    let (other, later) = not_here (bytes_eq c.client_name name) (find _ cs) e in
    (other, find_name-none name cs later)

pub no_row :
    (id : Bytes) (rows : List ClientRow)
    → All (λ y. Differ id y) (row_ids rows)
    → has_client_row id rows ≡ false
unfolding has_client_row
no_row id [] all = refl
no_row id (row ∷ rows) (differ, all) = rw (differ, no_row id rows all) refl
