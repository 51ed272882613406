-- ===== src/Parcel/Reset.antt =====
-- resetConstraints and eraseStructStatus of parcel_reader_writer.cpp.
use mathlib.Core.Path.{subst}
use mathlib.Core.Bool.{true≢false}
use fans.Base.{
  List, [], ◌∷◌, All, ℕ, zero, suc, ◌-◌, ◌<◌, ◌≡◌, refl, sym, ◌∙◌, Bool, true, false, ◌||◌, none,
  if◌then◌else◌, arith, inl, inr, Bool-cases, length, take, length-take,
}
use fans.Base.Text.{Text, codes, text_eq, text_eq_iff, is_prefix}
use fans.Base.Map.{get, erase, get-erase, get-erase_prefix}
use fans.Exec.{done}
use fans.Exec.Total.{bind-done}
use fans.State.{State}
use fans.Parcel.Store.{ends_with, reset_constraints, reset_all, erase_struct_status}
use fans.Parcel.Grows.{ends_with-length}

abbrev pub is_operand : Text → Bool
is_operand c = ends_with c (codes "_lhs") || ends_with c (codes "_rhs")

-- A constraint and those that it is an operand of, by their names.
pub data Ancestor : Text → Text → Type 0 where
  self : (c : Text) → Ancestor c c
  parent : (c k : Text) → is_operand c ≡ true → Ancestor (take (length c - 4) c) k → Ancestor c k

-- The statuses of `t` are those of `s` without those of `c` and of what it is an operand of.
pub record Resets (c : Text) (s t : State) : Type 0 where
  pub forgets : (k : Text) → Ancestor c k → get k t.constraint_status ≡ none
  pub keeps : (k : Text) → ¬ Ancestor c k → get k t.constraint_status ≡ get k s.constraint_status
  pub adds_none : (k : Text) → get k s.constraint_status ≡ none → get k t.constraint_status ≡ none

abbrev without : Text → State → State
without c s = record s { constraint_status = erase c s.constraint_status }

erased : (c : Text) (s : State) → get c (without c s).constraint_status ≡ none
erased c s = ground (arith, get-erase c c s.constraint_status, text_eq_iff c c)

unerased :
    (c k : Text) (s : State)
    → ¬ Ancestor c k
    → get k (without c s).constraint_status ≡ get k s.constraint_status
unerased c k s h = elim (Bool-cases (text_eq c k)) [
  | inl e ↦ absurd (h (subst (λ x. Ancestor c x) ((text_eq_iff c k).0 e) (self c)))
  | inr e ↦ ground (arith, get-erase c k s.constraint_status, e)
]

still_none :
    (c k : Text) (s : State)
    → get k s.constraint_status ≡ none
    → get k (without c s).constraint_status ≡ none
still_none c k s h = ground (arith, get-erase c k s.constraint_status, h)

no_parent :
    (c k : Text) (s : State)
    → is_operand c ≡ false
    → Ancestor c k
    → get k (without c s).constraint_status ≡ none
no_parent c _ s e (self _) = erased c s
no_parent c k s e (parent _ _ up a) = absurd (true≢false (sym up ∙ e))

Resets-last : (c : Text) (s : State) → is_operand c ≡ false → Resets c s (without c s)
Resets-last c s e = record {
  forgets = λ k a. no_parent c k s e a;
  keeps = λ k h. unerased c k s h;
  adds_none = λ k h. still_none c k s h;
}

with_parent :
    (c k : Text) (s t : State)
    → Resets (take (length c - 4) c) (without c s) t
    → Ancestor c k
    → get k t.constraint_status ≡ none
with_parent c _ s t r (self _) = r.adds_none c (erased c s)
with_parent c k s t r (parent _ _ up a) = r.forgets k a

Resets-more :
    (c : Text) (s t : State)
    → is_operand c ≡ true
    → Resets (take (length c - 4) c) (without c s) t
    → Resets c s t
Resets-more c s t e r = record {
  forgets = λ k a. with_parent c k s t r a;
  keeps = λ k h. r.keeps k (λ a. h (parent c k e a)) ∙ unerased c k s h;
  adds_none = λ k h. r.adds_none k (still_none c k s h);
}

-- With a fuel greater than the length of its name, resetConstraints comes back; it forgets the
-- status of the constraint and of every constraint that it is an operand of, and keeps all others.
pub reset_constraints_lem :
    (fuel : ℕ) (c : Text) (s : State)
    → length c < fuel
    → (t : State) × (reset_constraints fuel c s ≡ done (tt, t)) × Resets c s t
unfolding reset_constraints
reset_constraints_lem zero c s h = absurd (omega arith)
reset_constraints_lem (suc fuel) c s h =
    let next = reset_constraints_lem fuel (take (length c - 4) c) (without c s) in
    elim (Bool-cases (is_operand c)) [
      | inr e ↦ (without c s, rw e refl, Resets-last c s e)
      | inl e ↦
          let rest = next (omega (arith, ends_with-length c e, length-take (length c - 4) c)) in
          (rest.0, rw e rest.1, Resets-more c s rest.0 e rest.2)
    ]

-- The same for a list of constraints.
pub record ResetsAll (cs : List Text) (s t : State) : Type 0 where
  pub forgets : All (λ c. (k : Text) → Ancestor c k → get k t.constraint_status ≡ none) cs
  pub keeps :
      (k : Text)
      → All (λ c. ¬ Ancestor c k) cs
      → get k t.constraint_status ≡ get k s.constraint_status
  pub adds_none : (k : Text) → get k s.constraint_status ≡ none → get k t.constraint_status ≡ none

ResetsAll-cons :
    (c : Text) (cs : List Text) (s t u : State)
    → Resets c s t
    → ResetsAll cs t u
    → ResetsAll (c ∷ cs) s u
ResetsAll-cons c cs s t u first rest = record {
  forgets = (λ k a. rest.adds_none k (first.forgets k a), rest.forgets);
  keeps = λ k h. rest.keeps k h.1 ∙ first.keeps k h.0;
  adds_none = λ k h. rest.adds_none k (first.adds_none k h);
}

pub reset_all_lem :
    (cs : List Text) (s : State) → (t : State) × (reset_all cs s ≡ done (tt, t)) × ResetsAll cs s t
unfolding reset_all
reset_all_lem [] s = (s, refl, record { forgets = tt; keeps = λ k h. refl; adds_none = λ k h. h })
reset_all_lem (c ∷ cs) s =
    let first = reset_constraints_lem (suc (length c)) c s (omega arith) in
    let rest = reset_all_lem cs first.0 in
    (
      rest.0,
      bind-done (reset_constraints (suc (length c)) c) (λ _. reset_all cs) s first.0 tt first.1
          ∙ rest.1,
      ResetsAll-cons c cs s first.0 rest.0 first.2 rest.2,
    )

-- eraseStructStatus returns. It forgets every variable and every constraint whose name begins with
-- the prefix, and keeps all others.
pub erase_struct_status_lem :
    (p k : Text) (s : State)
    → (t : State) × (erase_struct_status p s ≡ done (tt, t))
      × (get k t.is_var_cached ≡ (if is_prefix p k then none else get k s.is_var_cached))
      × (get k t.constraint_status ≡ (if is_prefix p k then none else get k s.constraint_status))
unfolding erase_struct_status
erase_struct_status_lem p k s =
    (_, refl, get-erase_prefix p k s.is_var_cached, get-erase_prefix p k s.constraint_status)
