-- ===== src/Session/Packets/Pieces.antt =====
-- A file cut into pieces of 4096 bytes: what the packets of a transfer are to carry.
use secure_file_transfer_sys.Base.{
  ℕ, zero, suc, ◌+◌, ◌/◌, ◌≤◌, ◌<◌, ◌≡◌, refl, ap, ◌∙◌, arith, List, [], ◌∷◌, ◌++◌, length,
  length-take, length-drop, take, take-append-drop, drop,
}
use secure_file_transfer_sys.Runtime.{Bytes}

-- Pieces of 4096 bytes, but for the last, which has at least one.
abbrev pub IsCut : List Bytes → Type 0
IsCut [] = Unit
IsCut (c ∷ []) = (1 ≤ length c) × (length c ≤ 4096)
IsCut (c ∷ d ∷ r) = (length c ≡ 4096) × IsCut (d ∷ r)

abbrev pub join : List Bytes → Bytes
join [] = []
join (c ∷ r) = c ++ join r

-- The pieces of what is left of the file, and how many there are.
unfoldable pub pieces : ℕ → Bytes → List Bytes
pieces zero rest = []
pieces (suc fuel) [] = []
pieces (suc fuel) (x ∷ rest) = take 4096 (x ∷ rest) ∷ pieces fuel (drop 4096 (x ∷ rest))

pub pieces-suc :
    (fuel : ℕ) (rest : Bytes)
    → 0 < length rest
    → pieces (suc fuel) rest ≡ take 4096 rest ∷ pieces fuel (drop 4096 rest)
unfolding pieces
pieces-suc fuel [] h = absurd (omega arith)
pieces-suc fuel (x ∷ rest) h = refl

pub pieces-join : (fuel : ℕ) (rest : Bytes) → length rest ≤ fuel → join (pieces fuel rest) ≡ rest
unfolding pieces
pieces-join zero [] h = refl
pieces-join zero (x ∷ rest) h = absurd (omega arith)
pieces-join (suc fuel) [] h = refl
pieces-join (suc fuel) (x ∷ rest) h =
    ap (λ r. take 4096 (x ∷ rest) ++ r)
      (pieces-join fuel (drop 4096 (x ∷ rest)) (omega (arith, length-drop 4096 (x ∷ rest))))
    ∙ take-append-drop 4096 (x ∷ rest)

pub length-pieces :
    (fuel : ℕ) (rest : Bytes)
    → length rest ≤ fuel
    → length (pieces fuel rest) ≡ (length rest + 4095) / 4096
unfolding pieces
length-pieces zero [] h = refl
length-pieces zero (x ∷ rest) h = absurd (omega arith)
length-pieces (suc fuel) [] h = refl
length-pieces (suc fuel) (x ∷ rest) h = omega (
  arith,
  length-drop 4096 (x ∷ rest),
  length-pieces fuel (drop 4096 (x ∷ rest)) (omega (arith, length-drop 4096 (x ∷ rest))),
)

IsCut-cons :
    (c : Bytes) (r : List Bytes)
    → (1 ≤ length c) × (length c ≤ 4096)
    → (0 < length r → length c ≡ 4096)
    → IsCut r
    → IsCut (c ∷ r)
IsCut-cons c [] small full cut = small
IsCut-cons c (d ∷ r) small full cut = (full (omega arith), cut)

pub pieces-IsCut : (fuel : ℕ) (rest : Bytes) → length rest ≤ fuel → IsCut (pieces fuel rest)
pieces-IsCut zero rest h = unfold pieces in tt
pieces-IsCut (suc fuel) [] h = unfold pieces in tt
pieces-IsCut (suc fuel) (x ∷ rest) h =
    let taken = length-take 4096 (x ∷ rest) in
    let dropped = length-drop 4096 (x ∷ rest) in
    rw (pieces-suc fuel (x ∷ rest) (omega arith)) (
      IsCut-cons (take 4096 (x ∷ rest)) (pieces fuel (drop 4096 (x ∷ rest))) (omega (arith, taken))
        (λ some_left. omega (
          arith,
          taken,
          dropped,
          some_left,
          length-pieces fuel (drop 4096 (x ∷ rest)) (omega (arith, dropped)),
        ))
        (pieces-IsCut fuel (drop 4096 (x ∷ rest)) (omega (arith, dropped))))
