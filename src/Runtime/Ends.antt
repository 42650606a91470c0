-- ===== src/Runtime/Ends.antt =====
-- That a call ends: in no world it runs out of fuel, and what it returns has a property.
use secure_file_transfer_sys.Base.{
  ℕ, arith, ◌≡◌, refl, Bool, true, false, Option, none, some, if◌then◌else◌,
}
use secure_file_transfer_sys.Runtime.{
  Bytes, World, Run, Outcome, done, exited, aborted, undefined, stuck, pure, exit, abort, defined,
  or_exit, or_abort, ◌>>=◌, continue, socket_read, socket_write, read_file, write_file,
}

abbrev pub Good : {A : Type 0} → (A → Type 0) → Outcome A → Type 0
Good Q (done a) = Q a
Good Q exited = Unit
Good Q aborted = Unit
Good Q undefined = Unit
Good Q stuck = ⊥

pub record Ends {A : Type 0} (Q : A → Type 0) (m : Run A) : Type 0 where
  pub at : (w : World) → Good Q (m w).0

abbrev pub Any : {A : Type 0} → A → Type 0
Any a = Unit {0}

module _ {A : Type 0} where
  pub Ends-pure : (Q : A → Type 0) (a : A) → Q a → Ends Q (pure a)
  Ends-pure Q a q = record { at = λ w. q }

  pub Ends-exit : (Q : A → Type 0) → Ends Q (exit {A = A})
  Ends-exit Q = record { at = λ w. tt }

  pub Ends-abort : (Q : A → Type 0) → Ends Q (abort {A = A})
  Ends-abort Q = record { at = λ w. tt }

  pub Ends-defined : (o : Option A) → Ends (λ a. o ≡ some a) (defined o)
  Ends-defined none = record { at = λ w. tt }
  Ends-defined (some a) = record { at = λ w. refl }

  pub Ends-or_exit : (o : Option A) → Ends Any (or_exit o)
  Ends-or_exit none = record { at = λ w. tt }
  Ends-or_exit (some a) = record { at = λ w. tt }

  pub Ends-or_abort : (o : Option A) → Ends Any (or_abort o)
  Ends-or_abort none = record { at = λ w. tt }
  Ends-or_abort (some a) = record { at = λ w. tt }

  pub Ends-if :
      (Q : A → Type 0) (b : Bool) (m n : Run A)
      → (b ≡ true → Ends Q m)
      → (b ≡ false → Ends Q n)
      → Ends Q (if b then m else n)
  Ends-if Q true m n hm hn = hm refl
  Ends-if Q false m n hm hn = hn refl

module _ {A B : Type 0} where
  Good-continue :
      (Q : A → Type 0) (R : B → Type 0) (o : Outcome A) (f : A → Run B) (w : World)
      → Good Q o
      → ((a : A) → Q a → Ends R (f a))
      → Good R (continue o f w).0
  Good-continue Q R (done a) f w q h = (h a q).at w
  Good-continue Q R exited f w q h = tt
  Good-continue Q R aborted f w q h = tt
  Good-continue Q R undefined f w q h = tt
  Good-continue Q R stuck f w q h = absurd q

  pub Ends-bind :
      {Q : A → Type 0} {R : B → Type 0} (m : Run A) (f : A → Run B)
      → Ends Q m
      → ((a : A) → Q a → Ends R (f a))
      → Ends R (m >>= f)
  Ends-bind {Q} {R} m f hm hf = record {
    at = λ w. Good-continue Q R (m w).0 f (m w).1 (hm.at w) hf;
  }

pub Ends-socket_read : (n : ℕ) → Ends Any (socket_read n)
unfolding socket_read
Ends-socket_read n = record { at = λ w. ground arith }

pub Ends-socket_write : (message : Bytes) → Ends Any (socket_write message)
unfolding socket_write
Ends-socket_write message = record { at = λ w. ground arith }

pub Ends-read_file : (name : Bytes) → Ends Any (read_file name)
unfolding read_file
Ends-read_file name = record { at = λ w. tt }

pub Ends-write_file : (name content : Bytes) → Ends Any (write_file name content)
unfolding write_file
Ends-write_file name content = record { at = λ w. ground arith }

pub ruleset ends_rules = (
  Ends-socket_read, Ends-socket_write, Ends-read_file, Ends-write_file, Ends-pure, Ends-exit,
  Ends-abort, Ends-or_exit, Ends-or_abort, Ends-if, Ends-bind,
)
