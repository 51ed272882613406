-- ===== src/Exec/Total.antt =====
-- Code that never runs out of fuel and relates the state after it to the state before it.
use fans.Base.{◌≡◌, refl, Bool, true, false, if◌then◌else◌, Option, none, some}
use fans.Exec.{Exec, Outcome, done, exits, hangs, Fault, pure, exit, gets, modify, ◌>>=◌}

-- What holds of the value and the state that come back; exit(0) satisfies it, running out of fuel
-- does not.
abbrev pub Always : {S A : Type 0} → (A → S → Type 0) → Outcome (A × S) → Type 0
Always Q (done (a, t)) = Q a t
Always Q (exits e) = Unit
Always Q hangs = ⊥

module _ {S A : Type 0} where
  pub Always-map :
      (P Q : A → S → Type 0) (o : Outcome (A × S))
      → Always P o
      → ((a : A) (t : S) → P a t → Q a t)
      → Always Q o
  Always-map P Q (done (a, t)) h f = f a t h
  Always-map P Q (exits e) h f = tt
  Always-map P Q hangs h f = h

  pub Always-if :
      (Q : A → S → Type 0) (b : Bool) (m n : Exec S A) (s : S)
      → (b ≡ true → Always Q (m s))
      → (b ≡ false → Always Q (n s))
      → Always Q ((if b then m else n) s)
  Always-if Q true m n s h k = h refl
  Always-if Q false m n s h k = k refl

module _ {S A B : Type 0} where
  Always-then :
      (P : A → S → Type 0) (Q : B → S → Type 0) (f : A → Exec S B) (o : Outcome (A × S))
      → Always P o
      → ((a : A) (t : S) → P a t → Always Q (f a t))
      → Always Q (elim o [ done (a, t) ↦ f a t | exits e ↦ exits e | hangs ↦ hangs ])
  Always-then P Q f (done (a, t)) h k = k a t h
  Always-then P Q f (exits e) h k = tt
  Always-then P Q f hangs h k = absurd h

  pub Always-bind :
      (P : A → S → Type 0) (Q : B → S → Type 0) (m : Exec S A) (f : A → Exec S B) (s : S)
      → Always P (m s)
      → ((a : A) (t : S) → P a t → Always Q (f a t))
      → Always Q ((m >>= f) s)
  Always-bind P Q m f s h k = Always-then P Q f (m s) h k

-- What follows code that comes back.
pub bind-done :
    {S A B : Type 0} (m : Exec S A) (f : A → Exec S B) (s t : S) (a : A)
    → m s ≡ done (a, t)
    → (m >>= f) s ≡ f a t
bind-done m f s t a e = rw (e, ◌>>=◌) refl

pub record IsPreorder {S : Type 0} (R : S → S → Type 0) : Type 0 where
  pub reflexive : (s : S) → R s s
  pub transitive : (s t u : S) → R s t → R t u → R s u

pub record Total {S A : Type 0} (R : S → S → Type 0) (m : Exec S A) : Type 0 where
  pub run : (s : S) → Always (λ _ t. R s t) (m s)

module _ {S A : Type 0} {R : S → S → Type 0} ⦃p : IsPreorder R⦄ where
  pub Total-pure : (a : A) → Total R (pure a)
  Total-pure a = record { run = p.reflexive }

  pub Total-exit : (e : Fault) → Total R (exit {A = A} e)
  Total-exit e = record { run = λ s. tt }

  pub Total-gets : (f : S → A) → Total R (gets f)
  Total-gets f = record { run = p.reflexive }

  pub Total-if :
      (b : Bool) (m n : Exec S A)
      → (b ≡ true → Total R m)
      → (b ≡ false → Total R n)
      → Total R (if b then m else n)
  Total-if true m n h k = h refl
  Total-if false m n h k = k refl

module _ {S : Type 0} {R : S → S → Type 0} where
  pub Total-modify : (f : S → S) → ((s : S) → R s (f s)) → Total R (modify f)
  Total-modify f h = record { run = h }

module _ {S A B : Type 0} {R : S → S → Type 0} ⦃p : IsPreorder R⦄ where
  pub Total-bind :
      (m : Exec S A) (f : A → Exec S B) → Total R m → ((a : A) → Total R (f a)) → Total R (m >>= f)
  Total-bind m f h k = record {
    run = λ s.
        Always-bind (λ _ t. R s t) (λ _ t. R s t) m f s (h.run s)
          (λ a t r.
            Always-map (λ _ u. R t u) (λ _ u. R s u) (f a t) ((k a).run t)
              (λ b u q. p.transitive s t u r q));
  }

  -- In code that branches on an optional value.
  pub Total-option :
      (o : Option A) (m : Exec S B) (f : A → Exec S B)
      → Total R m
      → ((a : A) → Total R (f a))
      → Total R (elim o [ none ↦ m | some a ↦ f a ])
  Total-option none m f h k = h
  Total-option (some a) m f h k = k a

pub ruleset total_rules = (Total-pure, Total-exit, Total-gets, Total-if, Total-bind, Total-option)
