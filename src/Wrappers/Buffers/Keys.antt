-- ===== src/Wrappers/Buffers/Keys.antt =====
-- Client/AESWrapper.cpp: a random key.
use secure_file_transfer_sys.Base.{
  ap₂, drop-drop, ℕ, zero, suc, ◌+◌, ◌*◌, ◌≤◌, ◌≡◌, refl, sym, ap, ◌∙◌, arith, true, some, [], ◌∷◌,
  ◌++◌, append_assoc, leb, length, length-append, length-drop, drop, take-append, drop-append,
}
use secure_file_transfer_sys.Runtime.{Bytes, World, done}
use secure_file_transfer_sys.Library.{Library}
use secure_file_transfer_sys.Wrappers.Buffers.{put_word, generate_words, generate_key, drew}

-- What `n` draws give, from the k-th on.
abbrev pub words : (ℕ → Bytes) → ℕ → ℕ → Bytes
words word k zero = []
words word k (suc n) = word k ++ words word (k + 1) n

abbrev pub drew_times : ℕ → World → World
drew_times n w = record w { keys_made = w.keys_made + n }

put_word_lem :
    (word front back : Bytes)
    → 4 ≤ length back
    → put_word (some word) (length front) (front ++ back) ≡ some (front ++ (word ++ drop 4 back))
unfolding put_word
put_word_lem word front back h = rw (enough, take-append front back, drop_more) refl
  where
    enough : leb (length front + 4) (length (front ++ back)) ≡ true
    enough = ground (arith, length-append front back)

    drop_more : drop (length front + 4) (front ++ back) ≡ drop 4 back
    drop_more =
        sym (drop-drop (length front) 4 (front ++ back)) ∙ ap (drop 4) (drop-append front back)

module _ (lib : Library) (word : ℕ → Bytes) (drawn : (k : ℕ) → lib.rdrand32 k ≡ some (word k))
    (size : (k : ℕ) → length (word k) ≡ 4) where
  generate_words_lem :
      (n : ℕ) (front back : Bytes) (w : World)
      → length back ≡ 4 * n
      → generate_words lib n (length front) (front ++ back) w
        ≡ (done (front ++ words word w.keys_made n), drew_times n w)
  unfolding generate_words
  generate_words_lem zero front [] w e =
      ap (λ k. (done (front ++ []), record w { keys_made = k })) (omega arith)
  generate_words_lem zero front (b ∷ back) w e = absurd (omega arith)
  generate_words_lem (suc n) front back w e =
      let k = w.keys_made in
      let longer = front ++ word k in
      rw (drawn k, put_word_lem (word k) front back (omega arith))
        (ap₂ (λ i t. generate_words lib n i t (drew w))
            (omega (arith, length-append front (word k), size k))
            (sym (append_assoc front (word k) (drop 4 back)))
          ∙ generate_words_lem n longer (drop 4 back) (drew w) (omega (arith, length-drop 4 back))
          ∙ ap₂ (λ t m. (done t, record w { keys_made = m }))
              (append_assoc front (word k) (words word (k + 1) n)) (omega arith))

  -- Where every draw gives four bytes, a key of whole words is made of the draws alone, one after the
  -- other, and nothing of the memory that it is written to remains.
  pub generate_key_lem :
      (n : ℕ) (memory : Bytes) (w : World)
      → length memory ≡ 4 * n
      → generate_key lib memory (4 * n) w ≡ (done (words word w.keys_made n), drew_times n w)
  unfolding generate_key
  generate_key_lem n memory w e =
      ap (λ k. generate_words lib k 0 memory w) (omega arith) ∙ generate_words_lem n [] memory w e
