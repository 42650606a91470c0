-- ===== src/Server/Runtime/Stays.antt =====
-- What a call keeps of the server's state, and whether it can wait, put together by rules.
use secure_file_transfer_sys.Base.{◌≡◌, refl, Bool, true, false, Option, none, some, if◌then◌else◌}
use secure_file_transfer_sys.Server.Runtime.{
  State, Ended, Act, returned, raised, waits, give, raise, or_raise, if_found, gets, change, after,
  rescue, try_except, ◌>>=◌,
}

-- A call may wait where `W` holds.
abbrev pub Ends : {A : Type 0} → Type 0 → Ended A → Type 0
Ends W (returned a) = Unit
Ends W raised = Unit
Ends W waits = W

abbrev pub Kept : Type 0 → (State → Type 0) → {A : Type 0} → Ended A × State → Type 0
Kept W P (r, s) = Ends W r × P s

-- A test inside a call.
pub Kept-if :
    (W : Type 0) (P : State → Type 0) {A : Type 0} (b : Bool) (x y : Ended A × State)
    → (b ≡ true → Kept W P x)
    → (b ≡ false → Kept W P y)
    → Kept W P (if b then x else y)
Kept-if W P true x y first second = first refl
Kept-if W P false x y first second = second refl

-- From a state with `P`, the call ends in a state with `P`.
pub record Stays (W : Type 0) (P : State → Type 0) {A : Type 0} (m : Act A) : Type 0 where
  pub at : (s : State) → P s → Kept W P (m s)

module _ (W : Type 0) (P : State → Type 0) {A : Type 0} where
  pub Stays-give : (a : A) → Stays W P (give a)
  Stays-give a = record { at = λ s p. (tt, p) }

  pub Stays-raise : Stays W P (raise {A = A})
  Stays-raise = record { at = λ s p. (tt, p) }

  pub Stays-or_raise : (o : Option A) → Stays W P (or_raise o)
  Stays-or_raise none = record { at = λ s p. (tt, p) }
  Stays-or_raise (some a) = record { at = λ s p. (tt, p) }

  pub Stays-gets : (f : State → A) → Stays W P (gets f)
  Stays-gets f = record { at = λ s p. (tt, p) }

  pub Stays-if :
      (b : Bool) {m n : Act A} → Stays W P m → Stays W P n → Stays W P (if b then m else n)
  Stays-if true m n = m
  Stays-if false m n = n

  pub Stays-if_found :
      {B : Type 0} (o : Option B) {f : B → Act A} {m : Act A}
      → ((b : B) → Stays W P (f b))
      → Stays W P m
      → Stays W P (if_found o f m)
  Stays-if_found none f m = record { at = λ s p. m.at s p }
  Stays-if_found (some b) f m = record { at = λ s p. (f b).at s p }

  rescued :
      (r : Ended A) (s : State) {handler : Act A}
      → Stays W P handler
      → Ends W r × P s
      → Ends W (rescue r handler s).0 × P (rescue r handler s).1
  rescued (returned a) s h (ends, p) = (tt, p)
  rescued raised s h (ends, p) = h.at s p
  rescued waits s h (ends, p) = (ends, p)

  pub Stays-try :
      {m handler : Act A} → Stays W P m → Stays W P handler → Stays W P (try_except m handler)
  Stays-try m handler = record { at = λ s p. rescued _ _ handler (m.at s p) }

pub Stays-change :
    (W : Type 0) (P : State → Type 0) (f : State → State)
    → ((s : State) → P s → P (f s))
    → Stays W P (change f)
Stays-change W P f keeps = record { at = λ s p. (tt, keeps s p) }

module _ (W : Type 0) (P : State → Type 0) {A B : Type 0} where
  after-Stays :
      (r : Ended A) (s : State) {f : A → Act B}
      → ((a : A) → Stays W P (f a))
      → Ends W r × P s
      → Ends W (after r f s).0 × P (after r f s).1
  after-Stays (returned a) s f (ends, p) = (f a).at s p
  after-Stays raised s f (ends, p) = (tt, p)
  after-Stays waits s f (ends, p) = (ends, p)

  pub Stays-bind :
      {m : Act A} {f : A → Act B} → Stays W P m → ((a : A) → Stays W P (f a)) → Stays W P (m >>= f)
  Stays-bind m f = record { at = λ s p. after-Stays _ _ f (m.at s p) }
