-- ===== src/ClientOb/Names.antt =====
-- Client/client_ob.cpp: which file names fit the array that `setFileName` copies into.
use secure_file_transfer_sys.Base.{
  ℕ, zero, suc, ◌+◌, ◌-◌, ◌^◌, ◌<◌, ◌≤◌, ◌≡◌, refl, ap, ◌∙◌, arith, Option, true, none, some, [],
  ◌∷◌, length, ltb, if◌then◌else◌, Bool-cases, inl, inr, length-replicate, replicate,
}
use secure_file_transfer_sys.Runtime.{Bytes, World, done, aborted}
use secure_file_transfer_sys.Answer.Checks.{HasNoNull}
use secure_file_transfer_sys.ClientOb.{
  Client, CharArray, strcpy_s, put, pad, c_string, set_file_name,
}

-- An array that holds a text, its final zero, and then anything.
abbrev stored : Bytes → CharArray → CharArray
stored [] rest = some 0 ∷ rest
stored (c ∷ text) rest = some c ∷ stored text rest

strcpy_s-stored :
    (text : Bytes) (array : CharArray)
    → HasNoNull text
    → length text < length array
    → (rest : CharArray) × (strcpy_s array text ≡ some (stored text rest))
unfolding strcpy_s
strcpy_s-stored text [] h fits = absurd (omega arith)
strcpy_s-stored [] (b ∷ array) h fits = (array, refl)
strcpy_s-stored (c ∷ text) (b ∷ array) (not_zero, h) fits =
    let (rest, copied) = strcpy_s-stored text array h (omega arith) in
    (rest, ground (arith, not_zero, copied))

strcpy_s-long :
    (text : Bytes) (array : CharArray)
    → HasNoNull text
    → length array ≤ length text
    → strcpy_s array text ≡ none
unfolding strcpy_s
strcpy_s-long text [] h long = refl
strcpy_s-long [] (b ∷ array) h long = absurd (omega arith)
strcpy_s-long (c ∷ text) (b ∷ array) (not_zero, h) long =
    ground (arith, not_zero, strcpy_s-long text array h (omega arith))

-- A zero that is written behind the text leaves the text.
put-stored :
    (text : Bytes) (rest : CharArray) (i : ℕ)
    → length text ≤ i
    → (rest' : CharArray) × (put i 0 (stored text rest) ≡ stored text rest')
unfolding put
put-stored [] rest zero h = (rest, refl)
put-stored [] rest (suc i) h = (put i 0 rest, refl)
put-stored (c ∷ text) rest zero h = absurd (omega arith)
put-stored (c ∷ text) rest (suc i) h =
    let (rest', e) = put-stored text rest i (omega arith) in (rest', ap (λ a. some c ∷ a) e)

pad-stored :
    (n i : ℕ) (text : Bytes) (rest : CharArray)
    → length text ≤ i
    → (rest' : CharArray) × (pad n i (stored text rest) ≡ stored text rest')
unfolding pad
pad-stored zero i text rest h = (rest, refl)
pad-stored (suc n) i text rest h =
    let (rest1, e) = put-stored text rest i h in
    let (rest2, e') = pad-stored n (i + 1) text rest1 (omega arith) in
    (rest2, ap (pad n (i + 1)) e ∙ e')

c_string-stored :
    (text : Bytes) (rest : CharArray) → HasNoNull text → c_string (stored text rest) ≡ some text
unfolding c_string
c_string-stored [] rest h = refl
c_string-stored (c ∷ text) rest (not_zero, h) =
    ground (arith, not_zero, c_string-stored text rest h)

fits_array :
    (name : Bytes) (client : Client) (w : World)
    → HasNoNull name
    → length name < 255
    → set_file_name name client w ≡ (done (record client { file_name = name }), w)
unfolding set_file_name
fits_array name client w h fits =
    let (rest, copied) =
      strcpy_s-stored name (replicate 255 none) h
        (omega (arith, length-replicate {A = Option ℕ} 255 none)) in
    let (rest', padded) = pad-stored (255 - length name) (length name) name rest (omega arith) in
    rw (copied, positive, padded, c_string-stored name rest' h) refl
  where
    positive : ltb (length name) (2 ^ 31) ≡ true
    positive = ground arith

-- A name without zeros is kept whole if it has at most 254 bytes; a longer one aborts the program.
pub set_file_name_lem :
    (name : Bytes) (client : Client) (w : World)
    → HasNoNull name
    → set_file_name name client w
      ≡ (if ltb (length name) 255 then done (record client { file_name = name }) else aborted, w)
unfolding set_file_name
set_file_name_lem name client w h = elim (Bool-cases (ltb (length name) 255)) [
  | inl fits ↦ fits_array name client w h (ground (arith, fits)) ∙ rw fits refl
  | inr long ↦
      rw
        (
          long,
          strcpy_s-long name (replicate 255 none) h
              (ground (arith, long, length-replicate {A = Option ℕ} 255 none)),
        )
        refl
]
