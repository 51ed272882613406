-- ===== src/Exec/Gives.antt =====
-- Predicates of the values that code comes back with, whether it comes back or not.
use fans.Base.{Bool, true, false, if◌then◌else◌}
use fans.Exec.{Exec, Outcome, Fault, done, exits, hangs, pure, exit, ◌>>=◌}
use fans.Exec.Total.{Always}

abbrev pub Partly : {S A : Type 0} → (A → Type 0) → Outcome (A × S) → Type 0
Partly P (done (a, t)) = P a
Partly P (exits e) = Unit
Partly P hangs = Unit

pub record Gives {S A : Type 0} (P : A → Type 0) (m : Exec S A) : Type 0 where
  pub run : (s : S) → Partly P (m s)

module _ {S A : Type 0} (P : A → Type 0) where
  pub Gives-pure : (a : A) → P a → Gives {S = S} P (pure a)
  Gives-pure a h = record { run = λ s. h }

  pub Gives-exit : (e : Fault) → Gives {S = S} P (exit e)
  Gives-exit e = record { run = λ s. tt }

  pub Gives-if : (b : Bool) (m n : Exec S A) → Gives P m → Gives P n → Gives P (if b then m else n)
  Gives-if true m n h k = h
  Gives-if false m n h k = k

  -- With what is known of the state that comes back.
  pub Always-Gives :
      (R : S → Type 0) (o : Outcome (A × S))
      → Always (λ _ t. R t) o
      → Partly P o
      → Always (λ a t. P a × R t) o
  Always-Gives R (done (a, t)) h k = (k, h)
  Always-Gives R (exits e) h k = tt
  Always-Gives R hangs h k = absurd h

module _ {S A B : Type 0} (P : A → Type 0) (Q : B → Type 0) where
  Partly-then :
      (f : A → Exec S B) (o : Outcome (A × S))
      → Partly P o
      → ((a : A) → P a → Gives Q (f a))
      → Partly Q (elim o [ done (a, t) ↦ f a t | exits e ↦ exits e | hangs ↦ hangs ])
  Partly-then f (done (a, t)) h k = (k a h).run t
  Partly-then f (exits e) h k = tt
  Partly-then f hangs h k = tt

  pub Gives-bind :
      (m : Exec S A) (f : A → Exec S B)
      → Gives P m
      → ((a : A) → P a → Gives Q (f a))
      → Gives Q (m >>= f)
  Gives-bind m f h k = record { run = λ s. Partly-then f (m s) (h.run s) k }

module _ {S A B : Type 0} (Q : B → Type 0) where
  anything : (o : Outcome (A × S)) → Partly (λ (a : A). Unit {0}) o
  anything (done (a, t)) = tt
  anything (exits e) = tt
  anything hangs = tt

  -- Code that follows code of which nothing is known.
  pub Gives-after :
      (m : Exec S A) (f : A → Exec S B) → ((a : A) → Gives Q (f a)) → Gives Q (m >>= f)
  Gives-after m f k =
      Gives-bind (λ a. Unit {0}) Q m f (record { run = λ s. anything (m s) }) (λ a _. k a)
