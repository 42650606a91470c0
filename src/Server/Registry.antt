-- ===== src/Server/Registry.antt =====
-- The lists of Server/request.py: the loops that look for a client or a file, and changes of what
-- they find.
pub mod Places
use secure_file_transfer_sys.Base.{
  ℕ, zero, suc, ◌+◌, ◌-◌, Bool, ◌&&◌, ◌||◌, Option, none, some, List, [], ◌∷◌, ◌++◌, ◌==◌, bytes_eq,
  if◌then◌else◌, get_elem?,
}
use secure_file_transfer_sys.Runtime.{Bytes}
use secure_file_transfer_sys.Server.Runtime.{
  ServerFile, ServerClient, Act, or_raise, change, ◌>>=◌, ◌>>◌,
}

module _ {A : Type 0} where
  -- The position of the first element that a loop with `if` and `break` stops at.
  unfoldable pub find : (A → Bool) → List A → Option ℕ
  find p [] = none
  find p (x ∷ xs) = if p x then some 0 else elim (find p xs) [ none ↦ none | some i ↦ some (suc i) ]

  -- A change of the object that stands at a position.
  unfoldable pub modify : (A → A) → ℕ → List A → List A
  modify f i [] = []
  modify f zero (x ∷ xs) = f x ∷ xs
  modify f (suc i) (x ∷ xs) = x ∷ modify f i xs

  unfoldable pub remove : ℕ → List A → List A
  remove i [] = []
  remove zero (x ∷ xs) = xs
  remove (suc i) (x ∷ xs) = x ∷ remove i xs

unfoldable pub find_name : Bytes → List ServerClient → Option ℕ
unfolding find
find_name name = find (λ c. bytes_eq c.client_name name)

unfoldable pub find_id : Bytes → List ServerClient → Option ℕ
unfolding find
find_id id = find (λ c. bytes_eq c.client_id id)

unfoldable pub find_file : Bytes → List ServerFile → Option ℕ
unfolding find
find_file name = find (λ f. bytes_eq f.file_name name)

-- The objects of `clients_list` are shared: a handler changes them in their place.
unfoldable pub client_at : ℕ → Act ServerClient
client_at k s = or_raise (get_elem? s.clients_list k) s

unfoldable pub change_client : (ServerClient → ServerClient) → ℕ → Act (Unit {0})
change_client f k = change (λ s. record s { clients_list = modify f k s.clients_list })

unfoldable pub change_files : (List ServerFile → List ServerFile) → ℕ → Act (Unit {0})
change_files f = change_client (λ c. record c { files_list = f c.files_list })
