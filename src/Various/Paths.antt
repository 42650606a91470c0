-- ===== src/Various/Paths.antt =====
-- Client/various_functions.cpp: the file name at the end of a path.
use secure_file_transfer_sys.Base.{
  ℕ, suc, ◌+◌, ◌≡◌, ◌≢◌, ◌⊎◌, inl, inr, refl, sym, ap, ◌∙◌, arith, Option, none, some, [], ◌∷◌,
  ◌++◌, ◌==◌, ==_iff, Bool-cases, if◌then◌else◌, All, drop,
}
use secure_file_transfer_sys.Runtime.{Bytes}
use secure_file_transfer_sys.Various.{find_last_of, find_file_name}

abbrev pub IsFree : ℕ → Bytes → Type 0
IsFree c s = All (λ x. x ≢ c) s

-- Where the last one is, or that there is none.
abbrev Last : ℕ → Bytes → Option ℕ → Type 0
Last c s none = IsFree c s
Last c s (some i) =
    (front : Bytes) × (s ≡ front ++ (c ∷ drop (i + 1) s)) × IsFree c (drop (i + 1) s)

find_last_of-Last : (c : ℕ) (s : Bytes) → Last c s (find_last_of c s)
unfolding find_last_of
find_last_of-Last c [] = tt
find_last_of-Last c (x ∷ s) = go (find_last_of c s) (find_last_of-Last c s)
  where
    next : (i : ℕ) → drop (suc i + 1) (x ∷ s) ≡ drop (i + 1) s
    next i = ap (λ k. drop k (x ∷ s)) {x = suc i + 1} {y = suc (i + 1)} (omega arith)

    go :
        (o : Option ℕ)
        → Last c s o
        → Last c (x ∷ s) (elim o [ some i ↦ some (suc i) | none ↦ if x == c then some 0 else none ])
    go none free = elim (Bool-cases (x == c)) [
      | inl e ↦ rw e ([], ap (λ y. y ∷ s) ((==_iff x c).0 e), free)
      | inr e ↦ rw e ((λ same. cc ((==_iff x c).1 same)), free)
    ]
    go (some i) (front, e, free) = (
      x ∷ front,
      ap (λ r. x ∷ r) (e ∙ ap (λ d. front ++ (c ∷ d)) (sym (next i))),
      rw (next i) free,
    )

-- The file name has no backslash, and it is the whole path or what follows a backslash in it.
pub find_file_name_lem :
    (path : Bytes)
    → IsFree 92 (find_file_name path)
      × ((path ≡ find_file_name path)
          ⊎ ((front : Bytes) × (path ≡ front ++ (92 ∷ find_file_name path))))
unfolding find_file_name
find_file_name_lem path = go (find_last_of 92 path) (find_last_of-Last 92 path)
  where
    go :
        (o : Option ℕ)
        → Last 92 path o
        → let name : Bytes = elim o [ none ↦ path | some i ↦ drop (i + 1) path ] in
          IsFree 92 name × ((path ≡ name) ⊎ ((front : Bytes) × (path ≡ front ++ (92 ∷ name))))
    go none free = (free, inl refl)
    go (some i) (front, e, free) = (free, inr (front, e))
