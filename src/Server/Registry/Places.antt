-- ===== src/Server/Registry/Places.antt =====
-- Server/request.py: a client that is found stays where it is when the objects change.
use secure_file_transfer_sys.Base.{
  ◌∙◌, drop-ge, ◌+◌, Option-cases, drop, inr, inl, take, Bool-cases, bytes_eq→eq, bytes_eq, ℕ, zero,
  suc, ◌≡◌, refl, ap, arith, Bool, true, false, Option, none, some, List, [], ◌∷◌, ◌++◌, get_elem?,
  length, if◌then◌else◌,
}
use secure_file_transfer_sys.Server.Registry.{remove, find, modify, find_name, find_id, find_file}
use secure_file_transfer_sys.Runtime.{Bytes}
use secure_file_transfer_sys.Server.Runtime.{ServerFile, ServerClient}

pub not_here :
    (b : Bool) (o : Option ℕ)
    → (if b then some 0 else elim o [ none ↦ none | some i ↦ some (suc i) ]) ≡ none
    → (b ≡ false) × (o ≡ none)
not_here true o e = cc
not_here false none e = (refl, refl)
not_here false (some i) e = cc

module _ {A : Type 0} where
  pub get_elem?-modify :
      (f : A → A) (k : ℕ) (xs : List A) (x : A)
      → get_elem? xs k ≡ some x
      → get_elem? (modify f k xs) k ≡ some (f x)
  unfolding modify
  get_elem?-modify f k [] x e = cc
  get_elem?-modify f zero (y ∷ xs) x e = ground (arith, e)
  get_elem?-modify f (suc k) (y ∷ xs) x e = get_elem?-modify f k xs x e

  pub find-modify :
      (p : A → Bool) (f : A → A) (k : ℕ) (xs : List A)
      → ((x : A) → p (f x) ≡ p x)
      → find p (modify f k xs) ≡ find p xs
  unfolding find modify
  find-modify p f k [] same = refl
  find-modify p f zero (x ∷ xs) same = rw (same x) refl
  find-modify p f (suc k) (x ∷ xs) same = rw (find-modify p f k xs same) refl

  pub modify-modify :
      (f g : A → A) (k : ℕ) (xs : List A) → modify f k (modify g k xs) ≡ modify (λ x. f (g x)) k xs
  unfolding modify
  modify-modify f g k [] = refl
  modify-modify f g zero (x ∷ xs) = refl
  modify-modify f g (suc k) (x ∷ xs) = ap (λ r. x ∷ r) (modify-modify f g k xs)

  -- A new element at the end is found where nothing was found before.
  pub find-append :
      (p : A → Bool) (xs : List A) (x : A)
      → find p xs ≡ none
      → p x ≡ true
      → find p (xs ++ x ∷ []) ≡ some (length xs)
  unfolding find
  find-append p [] x e h = rw h refl
  find-append p (y ∷ xs) x e h =
      let (other, later) = not_here (p y) (find p xs) e in
      rw (other, find-append p xs x later h) refl

  pub get_elem?-append : (xs : List A) (x : A) → get_elem? (xs ++ x ∷ []) (length xs) ≡ some x
  get_elem?-append [] x = refl
  get_elem?-append (y ∷ xs) x = get_elem?-append xs x

pub find_id-modify :
    (id : Bytes) (f : ServerClient → ServerClient) (k : ℕ) (xs : List ServerClient)
    → ((c : ServerClient) → (f c).client_id ≡ c.client_id)
    → find_id id (modify f k xs) ≡ find_id id xs
unfolding find_id
find_id-modify id f k xs same =
    find-modify (λ c. bytes_eq c.client_id id) f k xs (λ c. ap (λ i. bytes_eq i id) (same c))

pub find_name-modify :
    (name : Bytes) (f : ServerClient → ServerClient) (k : ℕ) (xs : List ServerClient)
    → ((c : ServerClient) → (f c).client_name ≡ c.client_name)
    → find_name name (modify f k xs) ≡ find_name name xs
unfolding find_name
find_name-modify name f k xs same =
    find-modify (λ c. bytes_eq c.client_name name) f k xs (λ c. ap (λ i. bytes_eq i name) (same c))

pub find_file-modify :
    (name : Bytes) (f : ServerFile → ServerFile) (k : ℕ) (xs : List ServerFile)
    → ((x : ServerFile) → (f x).file_name ≡ x.file_name)
    → find_file name (modify f k xs) ≡ find_file name xs
unfolding find_file
find_file-modify name f k xs same =
    find-modify (λ x. bytes_eq x.file_name name) f k xs (λ x. ap (λ n. bytes_eq n name) (same x))

-- What is found passes the test.
found_passes :
    {A : Type 0} (p : A → Bool) (xs : List A) (i : ℕ) (x : A)
    → find p xs ≡ some i
    → get_elem? xs i ≡ some x
    → p x ≡ true
unfolding find
found_passes p [] i x e at = cc
found_passes p (y ∷ xs) i x e at = elim (Bool-cases (p y)) [
  | inl found ↦ ground (arith, e, at, found)
  | inr no_match ↦ elim (Option-cases (find p xs)) [
    | inl missing ↦ ground (arith, e, at, no_match, missing)
    | inr (j, later) ↦ ground (arith, e, at, no_match, later, found_passes p xs j x later)
  ]
]

pub find_file-name :
    (name : Bytes) (files : List ServerFile) (j : ℕ) (file : ServerFile)
    → find_file name files ≡ some j
    → get_elem? files j ≡ some file
    → file.file_name ≡ name
unfolding find_file
find_file-name name files j file e at =
    bytes_eq→eq file.file_name name
      (found_passes (λ (f : ServerFile). bytes_eq f.file_name name) files j file e at)

-- What is left in front of a position and behind it.
pub remove-take-drop :
    {A : Type 0} (i : ℕ) (xs : List A) → remove i xs ≡ take i xs ++ drop (i + 1) xs
unfolding remove
remove-take-drop zero [] = refl
remove-take-drop {A} (suc i) [] = rw (drop-ge {A = A} (suc i + 1) [] (omega arith)) refl
remove-take-drop zero (x ∷ xs) = refl
remove-take-drop (suc i) (x ∷ xs) =
    ap (λ r. x ∷ r) (remove-take-drop i xs)
    ∙ ap (λ n. x ∷ (take i xs ++ drop n (x ∷ xs))) {x = suc (i + 1)} {y = suc i + 1} (omega arith)
