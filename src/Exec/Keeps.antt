-- ===== src/Exec/Keeps.antt =====
-- Code that comes back with a value, from every state in which an invariant holds, and keeps it.
use fans.Base.{Bool, true, false, if◌then◌else◌, ◌≡◌, refl}
use fans.Exec.{Exec, Outcome, done, exits, hangs, pure, ◌>>=◌}

abbrev pub Returned : {S A : Type 0} → (S → Type 0) → (A → Type 0) → Outcome (A × S) → Type 0
Returned I Q (done (a, t)) = Q a × I t
Returned I Q (exits e) = ⊥
Returned I Q hangs = ⊥

pub record Keeps {S A : Type 0} (I : S → Type 0) (Q : A → Type 0) (m : Exec S A) : Type 0 where
  pub run : (s : S) → I s → Returned I Q (m s)

module _ {S A : Type 0} (I : S → Type 0) where
  pub Keeps-pure : (Q : A → Type 0) (a : A) → Q a → Keeps I Q (pure a)
  Keeps-pure Q a h = record { run = λ s i. (h, i) }

  pub Keeps-if :
      (Q : A → Type 0) (b : Bool) (m n : Exec S A)
      → (b ≡ true → Keeps I Q m)
      → (b ≡ false → Keeps I Q n)
      → Keeps I Q (if b then m else n)
  Keeps-if Q true m n h k = h refl
  Keeps-if Q false m n h k = k refl

  Returned-map :
      (P Q : A → Type 0) (o : Outcome (A × S))
      → Returned I P o
      → ((a : A) → P a → Q a)
      → Returned I Q o
  Returned-map P Q (done (a, t)) h k = (k a h.0, h.1)
  Returned-map P Q (exits e) h k = h
  Returned-map P Q hangs h k = h

  pub Keeps-map :
      (P Q : A → Type 0) (m : Exec S A) → Keeps I P m → ((a : A) → P a → Q a) → Keeps I Q m
  Keeps-map P Q m h k = record { run = λ s i. Returned-map P Q (m s) (h.run s i) k }

module _ {S A B : Type 0} (I : S → Type 0) where
  Returned-then :
      (P : A → Type 0) (Q : B → Type 0) (f : A → Exec S B) (o : Outcome (A × S))
      → Returned I P o
      → ((a : A) → P a → Keeps I Q (f a))
      → Returned I Q (elim o [ done (a, t) ↦ f a t | exits e ↦ exits e | hangs ↦ hangs ])
  Returned-then P Q f (done (a, t)) h k = (k a h.0).run t h.1
  Returned-then P Q f (exits e) h k = absurd h
  Returned-then P Q f hangs h k = absurd h

  pub Keeps-bind :
      (P : A → Type 0) (Q : B → Type 0) (m : Exec S A) (f : A → Exec S B)
      → Keeps I P m
      → ((a : A) → P a → Keeps I Q (f a))
      → Keeps I Q (m >>= f)
  Keeps-bind P Q m f h k = record { run = λ s i. Returned-then P Q f (m s) (h.run s i) k }
