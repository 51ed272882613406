-- ===== src/Exec/Yields.antt =====
-- Code that comes back, and what it comes back with.
use fans.Exec.{Exec, Outcome, done, exits, hangs, ◌>>=◌}
use fans.Exec.Total.{Always}
use fans.Exec.Succeeds.{Succeeds}

abbrev pub Yields : {S A : Type 0} → (A → S → Type 0) → Outcome (A × S) → Type 0
Yields P (done (a, t)) = P a t
Yields P (exits e) = ⊥
Yields P hangs = ⊥

module _ {S A : Type 0} where
  -- What holds of every result, of code that has one.
  pub Yields-of :
      (P : A → S → Type 0) (Q : A → Type 0) (o : Outcome (A × S))
      → Always P o
      → Succeeds Q o
      → Yields P o
  Yields-of P Q (done (a, t)) h k = h
  Yields-of P Q (exits e) h k = k
  Yields-of P Q hangs h k = k

  pub Yields-map :
      (P Q : A → S → Type 0) (o : Outcome (A × S))
      → Yields P o
      → ((a : A) (t : S) → P a t → Q a t)
      → Yields Q o
  Yields-map P Q (done (a, t)) h k = k a t h
  Yields-map P Q (exits e) h k = h
  Yields-map P Q hangs h k = h

module _ {S A B : Type 0} where
  Yields-then :
      (P : A → S → Type 0) (Q : B → S → Type 0) (f : A → Exec S B) (o : Outcome (A × S))
      → Yields P o
      → ((a : A) (t : S) → P a t → Yields Q (f a t))
      → Yields Q (elim o [ done (a, t) ↦ f a t | exits e ↦ exits e | hangs ↦ hangs ])
  Yields-then P Q f (done (a, t)) h k = k a t h
  Yields-then P Q f (exits e) h k = absurd h
  Yields-then P Q f hangs h k = absurd h

  pub Yields-bind :
      (P : A → S → Type 0) (Q : B → S → Type 0) (m : Exec S A) (f : A → Exec S B) (s : S)
      → Yields P (m s)
      → ((a : A) (t : S) → P a t → Yields Q (f a t))
      → Yields Q ((m >>= f) s)
  Yields-bind P Q m f s h k = Yields-then P Q f (m s) h k
