-- ===== src/Runtime/Laws.antt =====
-- How a sequence of two calls runs, by how the first one ends, and what reads and writes do.
use secure_file_transfer_sys.Base.{
  ℕ, ◌<◌, ◌≡◌, refl, ap, arith, false, none, some, [], ◌++◌, length, length-append, take-append,
  drop-append, ltb, lt→ltb,
}
use secure_file_transfer_sys.Runtime.{Bytes, World, Run, done, exited, ◌>>=◌, continue, socket_read}

abbrev pub reading : World → Bytes → World
reading w rest = record w { inbox = rest }

module _ {A B : Type 0} where
  -- A call that returns passes its value and its world on.
  pub >>=-done :
      (m : Run A) (f : A → Run B) (w : World) {a : A} {w' : World}
      → m w ≡ (done a, w')
      → (m >>= f) w ≡ f a w'
  >>=-done m f w e = ap (λ r. continue r.0 f r.1) e

  pub >>=-exited :
      (m : Run A) (f : A → Run B) (w : World) {w' : World}
      → m w ≡ (exited, w')
      → (m >>= f) w ≡ (exited, w')
  >>=-exited m f w e = ap (λ r. continue r.0 f r.1) e

pub socket_read-some :
    (text rest : Bytes) (w : World)
    → w.inbox ≡ text ++ rest
    → socket_read (length text) w ≡ (done (some text), reading w rest)
unfolding socket_read
socket_read-some text rest w e = rw (e, enough, take-append text rest, drop-append text rest) refl
  where
    enough : ltb (length (text ++ rest)) (length text) ≡ false
    enough = ground (arith, length-append text rest)

pub socket_read-none :
    (n : ℕ) (w : World) → length w.inbox < n → socket_read n w ≡ (done none, reading w [])
unfolding socket_read
socket_read-none n w h = rw (lt→ltb _ _ h) refl
