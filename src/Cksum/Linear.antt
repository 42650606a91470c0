-- ===== src/Cksum/Linear.antt =====
-- The bit by bit steps of the checksum commute with `bit_xor`, and so do eight of them.
use native.Mathlib.Nat.{pow-suc}
use secure_file_transfer_sys.Base.{
  ℕ, zero, suc, ◌+◌, ◌*◌, ◌/◌, ◌%◌, ◌^◌, ◌<◌, ◌≡◌, refl, sym, ap, ◌∙◌, arith,
}
use secure_file_transfer_sys.Base.Bits.{
  bit_xor, zero-xor, xor-zero, xor_self, xor_regroup, xor_fields, xor-lt_pow,
}
use secure_file_transfer_sys.Cksum.Spec.{polynomial, shift_bit, shift_byte}

-- On a 32-bit number, cut into its top bit and the other 31, the step has no test.
shift_bit_fields :
    (q r : ℕ) → q < 2 → r < 2 ^ 31 → shift_bit (q * 2 ^ 31 + r) ≡ bit_xor (2 * r) (q * polynomial)
unfolding shift_bit
shift_bit_fields zero r h small = ground (arith, xor-zero (2 * r))
shift_bit_fields (suc zero) r h small = ground arith
shift_bit_fields (suc (suc q)) r h small = absurd (omega arith)

shift_bit_cut :
    (x : ℕ) → x < 2 ^ 32 → shift_bit x ≡ bit_xor (2 * (x % 2 ^ 31)) (x / 2 ^ 31 * polynomial)
shift_bit_cut x h =
    ap shift_bit cut ∙ shift_bit_fields (x / 2 ^ 31) (x % 2 ^ 31) (omega arith) (omega arith)
  where
    cut : x ≡ x / 2 ^ 31 * 2 ^ 31 + x % 2 ^ 31
    cut = omega arith

bit-mul-lt : (q : ℕ) → q < 2 → q * polynomial < 2 ^ 32
bit-mul-lt q h = omega arith

shift_bit-lt : (x : ℕ) → x < 2 ^ 32 → shift_bit x < 2 ^ 32
shift_bit-lt x h = rw (shift_bit_cut x h) (
    xor-lt_pow 32 (2 * (x % 2 ^ 31)) (x / 2 ^ 31 * polynomial) (omega arith)
      (bit-mul-lt (x / 2 ^ 31) (omega arith)))

double_xor : (a b : ℕ) → bit_xor (2 * a) (2 * b) ≡ 2 * bit_xor a b
double_xor a b = omega (
  arith,
  xor_fields 1 a 0 b 0 (omega arith) (omega arith),
  xor_self 0,
  ap (λ (x : ℕ). bit_xor x (2 * b)) (double a),
  ap (λ (x : ℕ). bit_xor (a * 2 ^ 1 + 0) x) (double b),
)
  where
    double : (n : ℕ) → 2 * n ≡ n * 2 ^ 1 + 0
    double n = omega arith

bits_xor : (p q c : ℕ) → p < 2 → q < 2 → bit_xor (p * c) (q * c) ≡ bit_xor p q * c
bits_xor zero q c h k = ground (arith, zero-xor (q * c), zero-xor q)
bits_xor (suc zero) zero c h k = ground (arith, xor-zero c)
bits_xor (suc zero) (suc zero) c h k = ground (arith, xor_self c)
bits_xor (suc zero) (suc (suc q)) c h k = absurd (omega arith)
bits_xor (suc (suc p)) q c h k = absurd (omega arith)

-- The step is linear: it commutes with `bit_xor`.
shift_bit-xor :
    (x y : ℕ)
    → x < 2 ^ 32
    → y < 2 ^ 32
    → shift_bit (bit_xor x y) ≡ bit_xor (shift_bit x) (shift_bit y)
shift_bit-xor x y h k =
    let p = x / 2 ^ 31 in
    let q = y / 2 ^ 31 in
    let r = x % 2 ^ 31 in
    let r' = y % 2 ^ 31 in
    cc (
      fields p r q r' x y (omega arith) (omega arith) (omega arith) (omega arith),
      shift_bit_fields (bit_xor p q) (bit_xor r r') (xor-lt_pow 1 p q (omega arith) (omega arith))
          (xor-lt_pow 31 r r' (omega arith) (omega arith)),
      shift_bit_cut x h,
      shift_bit_cut y k,
      xor_regroup (2 * r) (p * polynomial) (2 * r') (q * polynomial),
      double_xor r r',
      bits_xor p q polynomial (omega arith) (omega arith),
    )
  where
    fields :
        (p r q r' x y : ℕ)
        → x ≡ p * 2 ^ 31 + r
        → y ≡ q * 2 ^ 31 + r'
        → r < 2 ^ 31
        → r' < 2 ^ 31
        → bit_xor x y ≡ bit_xor p q * 2 ^ 31 + bit_xor r r'
    fields p r q r' x y e f s s' = rw (e, f) (xor_fields 31 p r q r' s s')

times : ℕ → ℕ → ℕ
times zero x = x
times (suc n) x = shift_bit (times n x)

shift_byte-times : (x : ℕ) → shift_byte x ≡ times 8 x
unfolding shift_byte times
shift_byte-times x = refl

times-lt : (n x : ℕ) → x < 2 ^ 32 → times n x < 2 ^ 32
unfolding times
times-lt zero x h = h
times-lt (suc n) x h = shift_bit-lt (times n x) (times-lt n x h)

times-xor :
    (n x y : ℕ) → x < 2 ^ 32 → y < 2 ^ 32 → times n (bit_xor x y) ≡ bit_xor (times n x) (times n y)
unfolding times
times-xor zero x y h k = refl
times-xor (suc n) x y h k =
    ap shift_bit (times-xor n x y h k)
    ∙ shift_bit-xor (times n x) (times n y) (times-lt n x h) (times-lt n y k)

pub shift_byte-lt : (x : ℕ) → x < 2 ^ 32 → shift_byte x < 2 ^ 32
shift_byte-lt x h = rw shift_byte-times (times-lt 8 x h)

pub shift_byte-xor :
    (x y : ℕ)
    → x < 2 ^ 32
    → y < 2 ^ 32
    → shift_byte (bit_xor x y) ≡ bit_xor (shift_byte x) (shift_byte y)
shift_byte-xor x y h k =
    cc (times-xor 8 x y h k, shift_byte-times x, shift_byte-times y, shift_byte-times (bit_xor x y))

shift_bit_low : (x : ℕ) → x < 2 ^ 31 → shift_bit x ≡ 2 * x
unfolding shift_bit
shift_bit_low x h = ground arith

-- A number below 2^(32 - n) only moves up.
times_low : (n x : ℕ) → x * 2 ^ n < 2 ^ 32 → times n x ≡ x * 2 ^ n
unfolding times
times_low zero x h = omega arith
times_low (suc n) x h =
    let doubled : x * 2 ^ suc n ≡ 2 * (x * 2 ^ n) =
      omega (arith, ap (λ (t : ℕ). x * t) (pow-suc 2 n)) in
    rw (times_low n x (omega arith)) (shift_bit_low (x * 2 ^ n) (omega arith) ∙ sym doubled)

pub shift_byte_low : (x : ℕ) → x < 2 ^ 24 → shift_byte x ≡ x * 256
shift_byte_low x h = shift_byte-times x ∙ times_low 8 x (omega arith)
