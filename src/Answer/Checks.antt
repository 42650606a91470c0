-- ===== src/Answer/Checks.antt =====
-- Client/answer.cpp: which answers the checks accept.
use native.Mathlib.Decide.{dec_lt}
use secure_file_transfer_sys.Base.{
  ℕ, get_or, zero, suc, ◌+◌, ◌<◌, ◌≡◌, ◌≢◌, refl, sym, ap, ◌∙◌, subst, arith, false, [], ◌∷◌, ◌++◌,
  length, All, Bool-cases, length-append, length-take, length-replicate, replicate, take, drop,
  take-append-drop, bytes_eq, bytes_eq_refl, bytes_eq_ne, if◌then◌else◌, inl, inr,
}
use secure_file_transfer_sys.Runtime.{Bytes, World, done, exited}
use secure_file_transfer_sys.Runtime.Laws.{reading, socket_read-some, socket_read-none}
use secure_file_transfer_sys.Answer.{read_or_exit, up_to_null, read_string_and_check}

pub read_or_exit_lem :
    (text rest : Bytes) (w : World)
    → w.inbox ≡ text ++ rest
    → read_or_exit (length text) w ≡ (done text, reading w rest)
unfolding read_or_exit
read_or_exit_lem text rest w e = rw (socket_read-some text rest w e) refl

pub read_or_exit-short :
    (n : ℕ) (w : World) → length w.inbox < n → read_or_exit n w ≡ (exited, reading w [])
unfolding read_or_exit
read_or_exit-short n w h = rw (socket_read-none n w h) refl

-- No byte of a text is 0.
abbrev pub HasNoNull : Bytes → Type 0
HasNoNull s = All (λ c. c ≢ 0) s

pub up_to_null-HasNoNull : (s : Bytes) → HasNoNull (up_to_null s)
unfolding up_to_null
up_to_null-HasNoNull [] = tt
up_to_null-HasNoNull (c ∷ s) = ground (arith, up_to_null-HasNoNull s)

pub up_to_null-whole : (s : Bytes) → HasNoNull s → up_to_null s ≡ s
unfolding up_to_null
up_to_null-whole [] h = refl
up_to_null-whole (c ∷ s) h = ground (arith, up_to_null-whole s h.1)

up_to_null-zeros : (n : ℕ) → up_to_null (replicate n 0) ≡ []
unfolding up_to_null
up_to_null-zeros zero = refl
up_to_null-zeros (suc n) = refl

pub up_to_null-padded : (s : Bytes) (n : ℕ) → HasNoNull s → up_to_null (s ++ replicate n 0) ≡ s
unfolding up_to_null
up_to_null-padded [] n h = up_to_null-zeros n
up_to_null-padded (c ∷ s) n h = ground (arith, up_to_null-padded s n h.1)

check_received :
    (expected received rest : Bytes) (w : World)
    → w.inbox ≡ received ++ rest
    → read_string_and_check expected (length received) w
      ≡ (if bytes_eq (up_to_null received) expected then done tt else exited, reading w rest)
unfolding read_string_and_check
check_received expected received rest w e =
    elim (Bool-cases (bytes_eq (up_to_null received) expected)) [
      | inl same ↦ rw (read_or_exit_lem received rest w e, same) refl
      | inr other ↦ rw (read_or_exit_lem received rest w e, other) refl
    ]

up_to_null-front :
    (front tail : Bytes)
    → HasNoNull front
    → get_or tail 0 0 ≡ 0
    → up_to_null (front ++ tail) ≡ front
unfolding up_to_null
up_to_null-front [] [] h ends = refl
up_to_null-front [] (c ∷ tail) h ends = ground (arith, ends)
up_to_null-front (c ∷ front) tail h ends = ground (arith, up_to_null-front front tail h.1 ends)

-- Where the bytes to come begin with `front`, which has no zero, and with a `tail` that is empty or
-- begins with a zero, the check of as many bytes takes both, and it accepts exactly if `front` is the
-- expected string.
pub read_string_and_check_lem :
    (expected front tail rest : Bytes) (w : World)
    → HasNoNull front
    → get_or tail 0 0 ≡ 0
    → w.inbox ≡ (front ++ tail) ++ rest
    → read_string_and_check expected (length (front ++ tail)) w
      ≡ (if bytes_eq front expected then done tt else exited, reading w rest)
read_string_and_check_lem expected front tail rest w no_zero ends e =
    check_received expected (front ++ tail) rest w e
    ∙ ap (λ s. (if bytes_eq s expected then done tt else exited, reading w rest))
        (up_to_null-front front tail no_zero ends)

pub read_string_and_check-short :
    (expected : Bytes) (size : ℕ) (w : World)
    → length w.inbox < size
    → read_string_and_check expected size w ≡ (exited, reading w [])
unfolding read_string_and_check
read_string_and_check-short expected size w h = rw (read_or_exit-short size w h) refl

-- An expected text with a zero byte is refused, whatever the server sends, the same text included.
pub read_string_and_check-null :
    (expected : Bytes) (size : ℕ) (w : World)
    → ¬ HasNoNull expected
    → (read_string_and_check expected size w).0 ≡ exited
read_string_and_check-null expected size w has_null = elim (dec_lt (length w.inbox) size) [
  | yes short ↦ ap (λ r. r.0) (read_string_and_check-short expected size w short)
  | no enough ↦
      let received = take size w.inbox in
      let different : bytes_eq (up_to_null received) expected ≡ false =
        bytes_eq_ne _ _ (λ same. has_null (subst HasNoNull same (up_to_null-HasNoNull received))) in
      let full : length received ≡ size = omega (arith, length-take size w.inbox) in
      ap (λ n. (read_string_and_check expected n w).0) (sym full)
      ∙ ap (λ r. r.0)
          (check_received expected received (drop size w.inbox) w
            (sym (take-append-drop size w.inbox)))
      ∙ rw different refl
]

-- A text without zeros that comes padded is accepted.
pub read_string_and_check-padded :
    (text rest : Bytes) (n : ℕ) (w : World)
    → HasNoNull text
    → w.inbox ≡ (text ++ replicate n 0) ++ rest
    → read_string_and_check text (length text + n) w ≡ (done tt, reading w rest)
read_string_and_check-padded text rest n w h e =
    ap (λ k. read_string_and_check text k w) {x = length text + n}
      {y = length (text ++ replicate n 0)}
      (omega (arith, length-append text (replicate n 0), length-replicate {A = ℕ} n 0))
    ∙ check_received text (text ++ replicate n 0) rest w e
    ∙ rw (up_to_null-padded text n h, bytes_eq_refl text) refl
