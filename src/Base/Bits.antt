-- ===== src/Base/Bits.antt =====
-- `bit_xor` of natural numbers as addition of binary digits without carry.
use Prim.Native.Nat.{digits, differ, bit_xor-bitwise}
pub use Prim.Native.Nat.{bit_xor}
use native.Mathlib.Nat.{le_refl, pow-suc}
use secure_file_transfer_sys.Base.{
  ℕ, zero, suc, ◌+◌, ◌*◌, ◌/◌, ◌%◌, ◌^◌, ◌≤◌, ◌<◌, ◌≡◌, refl, sym, ap, ◌∙◌, arith,
}

-- The recursion that `bit_xor` stands for, once its fuel covers the first number.
abbrev xor_fuel : ℕ → ℕ → ℕ → ℕ
xor_fuel n a b = digits (λ c. c) differ n a b

xor_fuel_enough : (n m a b : ℕ) → a ≤ n → a ≤ m → xor_fuel n a b ≡ xor_fuel m a b
xor_fuel_enough zero zero a b p q = refl
xor_fuel_enough zero (suc m) zero b p q = refl
xor_fuel_enough zero (suc m) (suc a) b p q = absurd (omega arith)
xor_fuel_enough (suc n) zero zero b p q = refl
xor_fuel_enough (suc n) zero (suc a) b p q = absurd (omega arith)
xor_fuel_enough (suc n) (suc m) zero b p q = refl
xor_fuel_enough (suc n) (suc m) (suc a) b p q =
    rw (xor_fuel_enough n m (suc a / 2) (b / 2) (omega arith) (omega arith))

pub zero-xor : (b : ℕ) → bit_xor 0 b ≡ b
zero-xor b = bit_xor-bitwise 0 b

differ-digits : (x y : ℕ) → x < 2 → y < 2 → differ x y ≡ (x + y) % 2
differ-digits zero y p q = omega arith
differ-digits (suc x) zero p q = omega arith
differ-digits (suc zero) (suc y) p q = omega arith
differ-digits (suc (suc x)) (suc y) p q = absurd (omega arith)

differ-mod : (a b : ℕ) → differ (a % 2) (b % 2) ≡ (a + b) % 2
differ-mod a b = omega (arith, differ-digits (a % 2) (b % 2) (omega arith) (omega arith))

-- The lowest digit, and the digits above it.
pub bit_xor_step : (a b : ℕ) → bit_xor a b ≡ bit_xor (a / 2) (b / 2) * 2 + (a + b) % 2
bit_xor_step zero b = omega (arith, zero-xor b, zero-xor (b / 2))
bit_xor_step (suc a) b = omega (
  arith,
  bit_xor-bitwise (suc a) b,
  bit_xor-bitwise (suc a / 2) (b / 2),
  differ-mod (suc a) b,
  xor_fuel_enough a (suc a / 2) (suc a / 2) (b / 2) (omega arith) (le_refl _),
)

-- Each law goes from the halves to the numbers; `k` bounds the first one.
xor-zero_upto : (k a : ℕ) → a ≤ k → bit_xor a 0 ≡ a
xor-zero_upto k zero h = zero-xor 0
xor-zero_upto zero (suc a) h = absurd (omega arith)
xor-zero_upto (suc k) (suc a) h =
    omega (arith, bit_xor_step (suc a) 0, xor-zero_upto k (suc a / 2) (omega arith))

pub xor-zero : (a : ℕ) → bit_xor a 0 ≡ a
xor-zero a = xor-zero_upto a a (le_refl _)

xor_comm_upto : (k a b : ℕ) → a ≤ k → bit_xor a b ≡ bit_xor b a
xor_comm_upto k zero b h = zero-xor b ∙ sym (xor-zero b)
xor_comm_upto zero (suc a) b h = absurd (omega arith)
xor_comm_upto (suc k) (suc a) b h = omega (
  arith,
  bit_xor_step (suc a) b,
  bit_xor_step b (suc a),
  xor_comm_upto k (suc a / 2) (b / 2) (omega arith),
)

pub xor_comm : (a b : ℕ) → bit_xor a b ≡ bit_xor b a
xor_comm a b = xor_comm_upto a a b (le_refl _)

halves : (a b : ℕ) → (bit_xor a b / 2 ≡ bit_xor (a / 2) (b / 2)) × (bit_xor a b % 2 ≡ (a + b) % 2)
halves a b = omega (arith, bit_xor_step a b)

xor_assoc_upto : (k a b c : ℕ) → a ≤ k → bit_xor (bit_xor a b) c ≡ bit_xor a (bit_xor b c)
xor_assoc_upto k zero b c h = ap (λ x. bit_xor x c) (zero-xor b) ∙ sym (zero-xor (bit_xor b c))
xor_assoc_upto zero (suc a) b c h = absurd (omega arith)
xor_assoc_upto (suc k) (suc a) b c h = omega (
  arith,
  bit_xor_step (bit_xor (suc a) b) c,
  bit_xor_step (suc a) (bit_xor b c),
  halves (suc a) b,
  halves b c,
  ap (λ (x : ℕ). bit_xor x (c / 2)) (halves (suc a) b).0,
  ap (λ (x : ℕ). bit_xor (suc a / 2) x) (halves b c).0,
  xor_assoc_upto k (suc a / 2) (b / 2) (c / 2) (omega arith),
)

pub xor_assoc : (a b c : ℕ) → bit_xor (bit_xor a b) c ≡ bit_xor a (bit_xor b c)
xor_assoc a b c = xor_assoc_upto a a b c (le_refl _)

xor_self_upto : (k a : ℕ) → a ≤ k → bit_xor a a ≡ 0
xor_self_upto k zero h = zero-xor 0
xor_self_upto zero (suc a) h = absurd (omega arith)
xor_self_upto (suc k) (suc a) h =
    omega (arith, bit_xor_step (suc a) (suc a), xor_self_upto k (suc a / 2) (omega arith))

pub xor_self : (a : ℕ) → bit_xor a a ≡ 0
xor_self a = xor_self_upto a a (le_refl _)

-- The four parts regroup, as those of a sum do.
pub xor_regroup :
    (a b c d : ℕ) → bit_xor (bit_xor a b) (bit_xor c d) ≡ bit_xor (bit_xor a c) (bit_xor b d)
xor_regroup a b c d = cc (
  xor_assoc a b (bit_xor c d),
  xor_assoc b c d,
  xor_comm b c,
  xor_assoc c b d,
  xor_assoc a c (bit_xor b d),
)

double-pow : (q k : ℕ) → q * 2 ^ suc k ≡ 2 * (q * 2 ^ k)
double-pow q k = omega (arith, ap (λ (x : ℕ). q * x) (pow-suc 2 k))

-- The operation works on the fields above and below any bit, each by itself.
pub xor_fields :
    (k q r q' r' : ℕ)
    → r < 2 ^ k
    → r' < 2 ^ k
    → bit_xor (q * 2 ^ k + r) (q' * 2 ^ k + r') ≡ bit_xor q q' * 2 ^ k + bit_xor r r'
xor_fields zero q r q' r' p p' = ground (arith, zero-xor 0)
xor_fields (suc k) q r q' r' p p' = ground (
  arith,
  bit_xor_step (q * 2 ^ suc k + r) (q' * 2 ^ suc k + r'),
  bit_xor_step r r',
  double-pow q k,
  double-pow q' k,
  double-pow (bit_xor q q') k,
  pow-suc 2 k,
  xor_fields k q (r / 2) q' (r' / 2),
)

pub xor-lt_pow : (k a b : ℕ) → a < 2 ^ k → b < 2 ^ k → bit_xor a b < 2 ^ k
xor-lt_pow zero a b p q = ground (arith, zero-xor 0)
xor-lt_pow (suc k) a b p q = omega (
  arith,
  bit_xor_step a b,
  pow-suc 2 k,
  xor-lt_pow k (a / 2) (b / 2) (omega (arith, pow-suc 2 k)) (omega (arith, pow-suc 2 k)),
)
