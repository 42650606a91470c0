-- ===== src/Cksum/Table.antt =====
-- What the entries of `crctab` are: each row is the one above it, one byte further.
use secure_file_transfer_sys.Base.{
  ℕ, zero, suc, ◌+◌, ◌*◌, ◌^◌, ◌<◌, ◌≡◌, refl, sym, ap, ◌∙◌, arith, List, [], ◌∷◌, map, get_or,
  length, replicate,
}
use secure_file_transfer_sys.Base.Bits.{bit_xor, zero-xor, xor-zero}
use secure_file_transfer_sys.Cksum.{crctab}
use secure_file_transfer_sys.Cksum.Spec.{shift_byte, remainder}
use secure_file_transfer_sys.Cksum.Tables.{
  crctab_0, crctab_1, crctab_2, crctab_3, crctab_4, crctab_5, crctab_6, crctab_7,
}

get_or-map :
    (f : ℕ → ℕ) (xs : List ℕ) (i : ℕ) → i < length xs → get_or (map f xs) i 0 ≡ f (get_or xs i 0)
get_or-map f [] i h = absurd (omega arith)
get_or-map f (x ∷ xs) zero h = refl
get_or-map f (x ∷ xs) (suc i) h = get_or-map f xs i (omega arith)

count_up : ℕ → ℕ → List ℕ
count_up zero i = []
count_up (suc n) i = i ∷ count_up n (i + 1)

get_or-count_up : (n i j : ℕ) → j < n → get_or (count_up n i) j 0 ≡ i + j
unfolding count_up
get_or-count_up zero i j h = absurd (omega arith)
get_or-count_up (suc n) i zero h = omega arith
get_or-count_up (suc n) i (suc j) h = omega (arith, get_or-count_up n (i + 1) j (omega arith))

position : (n j : ℕ) → j < n → get_or (count_up n 0) j 0 ≡ j
position n j h = omega (arith, get_or-count_up n 0 j h)

length-count_up : (n i : ℕ) → length (count_up n i) ≡ n
unfolding count_up
length-count_up zero i = refl
length-count_up (suc n) i = ap suc (length-count_up n (i + 1))

row_0 : map (λ i. shift_byte (i * 2 ^ 24)) (count_up 256 0) ≡ crctab_0
unfolding shift_byte count_up crctab_0
row_0 = refl

row_1 : map shift_byte crctab_0 ≡ crctab_1
unfolding shift_byte crctab_0 crctab_1
row_1 = refl

row_2 : map shift_byte crctab_1 ≡ crctab_2
unfolding shift_byte crctab_1 crctab_2
row_2 = refl

row_3 : map shift_byte crctab_2 ≡ crctab_3
unfolding shift_byte crctab_2 crctab_3
row_3 = refl

row_4 : map shift_byte crctab_3 ≡ crctab_4
unfolding shift_byte crctab_3 crctab_4
row_4 = refl

row_5 : map shift_byte crctab_4 ≡ crctab_5
unfolding shift_byte crctab_4 crctab_5
row_5 = refl

row_6 : map shift_byte crctab_5 ≡ crctab_6
unfolding shift_byte crctab_5 crctab_6
row_6 = refl

row_7 : map shift_byte crctab_6 ≡ crctab_7
unfolding shift_byte crctab_6 crctab_7
row_7 = refl

remainder_zero :
    (k s : ℕ) → remainder s (replicate (suc k) 0) ≡ shift_byte (remainder s (replicate k 0))
unfolding remainder
remainder_zero zero s = ap shift_byte (xor-zero s)
remainder_zero (suc k) s = remainder_zero k (shift_byte (bit_xor s (0 * 2 ^ 24)))

module _ (i : ℕ) (small : i < 256) where
  abbrev shifted : ℕ → ℕ
  shifted k = remainder (shift_byte (i * 2 ^ 24)) (replicate k 0)

  next_row :
      (k : ℕ) (row next : List ℕ)
      → map shift_byte row ≡ next
      → length row ≡ 256
      → get_or row i 0 ≡ shifted k
      → get_or next i 0 ≡ shifted (suc k)
  next_row k row next e size h = rw e at in_map
    where
      in_map : get_or (map shift_byte row) i 0 ≡ shifted (suc k)
      in_map =
          get_or-map shift_byte row i (omega arith)
          ∙ ap shift_byte h
          ∙ sym (remainder_zero k (shift_byte (i * 2 ^ 24)))

  entry_0 : get_or crctab_0 i 0 ≡ shifted 0
  entry_0 =
      ap (λ row. get_or row i 0) (sym row_0)
      ∙ get_or-map (λ j. shift_byte (j * 2 ^ 24)) (count_up 256 0) i
          (omega (arith, length-count_up 256 0))
      ∙ ap (λ j. shift_byte (j * 2 ^ 24)) (position 256 i small)
      ∙ unfold remainder in refl

  entry_1 : get_or crctab_1 i 0 ≡ shifted 1
  entry_1 = next_row 0 crctab_0 crctab_1 row_1 (unfold crctab_0 in refl) entry_0

  entry_2 : get_or crctab_2 i 0 ≡ shifted 2
  entry_2 = next_row 1 crctab_1 crctab_2 row_2 (unfold crctab_1 in refl) entry_1

  entry_3 : get_or crctab_3 i 0 ≡ shifted 3
  entry_3 = next_row 2 crctab_2 crctab_3 row_3 (unfold crctab_2 in refl) entry_2

  entry_4 : get_or crctab_4 i 0 ≡ shifted 4
  entry_4 = next_row 3 crctab_3 crctab_4 row_4 (unfold crctab_3 in refl) entry_3

  entry_5 : get_or crctab_5 i 0 ≡ shifted 5
  entry_5 = next_row 4 crctab_4 crctab_5 row_5 (unfold crctab_4 in refl) entry_4

  entry_6 : get_or crctab_6 i 0 ≡ shifted 6
  entry_6 = next_row 5 crctab_5 crctab_6 row_6 (unfold crctab_5 in refl) entry_5

  entry_7 : get_or crctab_7 i 0 ≡ shifted 7
  entry_7 = next_row 6 crctab_6 crctab_7 row_7 (unfold crctab_6 in refl) entry_6

-- Entry `i` of row `k` is the remainder of the byte `i` followed by `k` zero bytes.
pub crctab_lem :
    (k i : ℕ) → k < 8 → i < 256 → get_or (get_or crctab k []) i 0 ≡ remainder 0 (i ∷ replicate k 0)
unfolding crctab
crctab_lem k i below small = row k below ∙ sym start
  where
    start : remainder 0 (i ∷ replicate k 0) ≡ shifted i small k
    start = unfold remainder in ap (λ s. remainder (shift_byte s) (replicate k 0)) (zero-xor _)

    row : (j : ℕ) → j < 8 → get_or (get_or crctab j []) i 0 ≡ shifted i small j
    row zero h = entry_0 i small
    row (suc zero) h = entry_1 i small
    row (suc (suc zero)) h = entry_2 i small
    row (suc (suc (suc zero))) h = entry_3 i small
    row (suc (suc (suc (suc zero)))) h = entry_4 i small
    row (suc (suc (suc (suc (suc zero))))) h = entry_5 i small
    row (suc (suc (suc (suc (suc (suc zero)))))) h = entry_6 i small
    row (suc (suc (suc (suc (suc (suc (suc zero))))))) h = entry_7 i small
    row (suc (suc (suc (suc (suc (suc (suc (suc j)))))))) h = absurd (omega arith)
