-- ===== src/Exec/Succeeds.antt =====
-- Code that comes back with a value, without exit(0) and without running out of fuel.
use fans.Base.{Bool, true, false, if◌then◌else◌, ◌≡◌, refl}
use fans.Exec.{Exec, Outcome, done, exits, hangs, pure, ◌>>=◌}

abbrev pub Succeeds : {S A : Type 0} → (A → Type 0) → Outcome (A × S) → Type 0
Succeeds Q (done (a, t)) = Q a
Succeeds Q (exits e) = ⊥
Succeeds Q hangs = ⊥

-- It does from every state.
pub record Sure {S A : Type 0} (Q : A → Type 0) (m : Exec S A) : Type 0 where
  pub run : (s : S) → Succeeds Q (m s)

module _ {S A : Type 0} where
  pub Sure-pure : (Q : A → Type 0) (a : A) → Q a → Sure {S = S} Q (pure a)
  Sure-pure Q a h = record { run = λ s. h }

  pub Sure-if :
      (Q : A → Type 0) (b : Bool) (m n : Exec S A)
      → (b ≡ true → Sure Q m)
      → (b ≡ false → Sure Q n)
      → Sure Q (if b then m else n)
  Sure-if Q true m n h k = h refl
  Sure-if Q false m n h k = k refl

module _ {S A B : Type 0} where
  Succeeds-then :
      (P : A → Type 0) (Q : B → Type 0) (f : A → Exec S B) (o : Outcome (A × S))
      → Succeeds P o
      → ((a : A) → P a → Sure Q (f a))
      → Succeeds Q (elim o [ done (a, t) ↦ f a t | exits e ↦ exits e | hangs ↦ hangs ])
  Succeeds-then P Q f (done (a, t)) h k = (k a h).run t
  Succeeds-then P Q f (exits e) h k = absurd h
  Succeeds-then P Q f hangs h k = absurd h

  pub Sure-bind :
      (P : A → Type 0) (Q : B → Type 0) (m : Exec S A) (f : A → Exec S B)
      → Sure P m
      → ((a : A) → P a → Sure Q (f a))
      → Sure Q (m >>= f)
  Sure-bind P Q m f h k = record { run = λ s. Succeeds-then P Q f (m s) (h.run s) k }

module _ {S A : Type 0} where
  Succeeds-map :
      (P Q : A → Type 0) (o : Outcome (A × S)) → Succeeds P o → ((a : A) → P a → Q a) → Succeeds Q o
  Succeeds-map P Q (done (a, t)) h k = k a h
  Succeeds-map P Q (exits e) h k = h
  Succeeds-map P Q hangs h k = h

  pub Sure-map : (P Q : A → Type 0) (m : Exec S A) → Sure P m → ((a : A) → P a → Q a) → Sure Q m
  Sure-map P Q m h k = record { run = λ s. Succeeds-map P Q (m s) (h.run s) k }
