-- ===== src/Server/Tables/Reach.antt =====
-- Server/sql.py: which rows the statements on the table `files` reach.
use secure_file_transfer_sys.Base.{
  ◌≡◌, refl, sym, ap, ◌∙◌, Bool, true, false, List, [], ◌∷◌, map, length, replicate, if◌then◌else◌,
  bytes_eq, ◌==◌, ◌&&◌, ◌||◌, Bool-cases, inl, inr, ◌≤◌, ◌<◌, arith,
}
use secure_file_transfer_sys.Runtime.{Bytes}
use secure_file_transfer_sys.Server.Runtime.{ServerFile, State, Ended, returned, raised}
use secure_file_transfer_sys.Server.Tables.{
  with_crc, set_valid_crc, without_name, delete_file, has_file_row,
}

-- The rows of a client.
unfoldable pub rows_of : Bytes → List ServerFile → List ServerFile
rows_of id [] = []
rows_of id (row ∷ rows) =
    let rest = rows_of id rows in if bytes_eq row.client_id id then row ∷ rest else rest

with_crc-rows_of :
    (id : Bytes) (valid : Bool) (rows : List ServerFile)
    → map (λ row. row.valid_crc) (rows_of id (with_crc id valid rows))
      ≡ replicate (length (rows_of id rows)) valid
unfolding rows_of with_crc
with_crc-rows_of id valid [] = refl
with_crc-rows_of id valid (row ∷ rows) = elim (Bool-cases (bytes_eq row.client_id id)) [
  | inl e ↦ rw (e, e) (ap (λ l. valid ∷ l) (with_crc-rows_of id valid rows))
  | inr e ↦ rw (e, e) (with_crc-rows_of id valid rows)
]

-- `set_valid_crc` gives its value to every row of the client, whatever the file.
pub set_valid_crc-rows_of :
    (id : Bytes) (valid : Bool) (s : State)
    → map (λ row. row.valid_crc) (rows_of id (set_valid_crc id valid s).1.files_table)
      ≡ replicate (length (rows_of id s.files_table)) valid
unfolding set_valid_crc
set_valid_crc-rows_of id valid s = with_crc-rows_of id valid s.files_table

neither : (b : Bool) → (b && false || false) ≡ false
neither true = refl
neither false = refl

pub no_row_left :
    (id name : Bytes) (rows : List ServerFile)
    → has_file_row id name (without_name name rows) ≡ false
unfolding has_file_row without_name
no_row_left id name [] = refl
no_row_left id name (row ∷ rows) = elim (Bool-cases (bytes_eq row.file_name name)) [
  | inl e ↦ rw e (no_row_left id name rows)
  | inr e ↦ rw (e, e, no_row_left id name rows) (neither (bytes_eq row.client_id id))
]

returned-ne-raised : ◌≡◌ {A = Ended (Unit {0})} (returned tt) raised → ⊥
returned-ne-raised e = cc

-- Where `delete_file` returns, no client has a row with that name any more.
pub delete_file-has_file_row :
    (id name : Bytes) (s s' : State)
    → delete_file name s ≡ (returned tt, s')
    → has_file_row id name s'.files_table ≡ false
unfolding delete_file
delete_file-has_file_row id name s s' e =
    elim (Bool-cases (length (without_name name s.files_table) == length s.files_table)) [
      | inl same ↦
          let stopped : delete_file name s ≡ (raised, s) = rw same refl in
          absurd (returned-ne-raised (sym (ap (λ r. r.0) e) ∙ ap (λ r. r.0) stopped))
      | inr other ↦
          ap (λ r. has_file_row id name r.1.files_table) (sym e)
          ∙ rw other (no_row_left id name s.files_table)
    ]

length-without_name :
    (name : Bytes) (rows : List ServerFile) → length (without_name name rows) ≤ length rows
unfolding without_name
length-without_name name [] = omega arith
length-without_name name (row ∷ rows) = elim (Bool-cases (bytes_eq row.file_name name)) [
  | inl e ↦ rw e (omega (arith, length-without_name name rows))
  | inr e ↦ rw e (omega (arith, length-without_name name rows))
]

no_other : (a : Bool) (b : Bool) → (a && false || b) ≡ b
no_other true b = refl
no_other false b = refl

-- Where a client has a row with that name, a row goes.
pub length-without_name-has_file_row :
    (id name : Bytes) (rows : List ServerFile)
    → has_file_row id name rows ≡ true
    → length (without_name name rows) < length rows
unfolding has_file_row without_name
length-without_name-has_file_row id name [] h = cc
length-without_name-has_file_row id name (row ∷ rows) h =
    elim (Bool-cases (bytes_eq row.file_name name)) [
      | inl e ↦ rw e (omega (arith, length-without_name name rows))
      | inr e ↦
          let later : has_file_row id name rows ≡ true =
            sym (no_other (bytes_eq row.client_id id) (has_file_row id name rows))
            ∙ ap (λ b. bytes_eq row.client_id id && b || has_file_row id name rows) (sym e)
            ∙ h in
          rw e (omega (arith, length-without_name-has_file_row id name rows later))
    ]
