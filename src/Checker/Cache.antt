-- ===== src/Checker/Cache.antt =====
-- The cache constraintStatus of `check` of constraint_checker.cpp.
use mathlib.Core.Path.{subst}
use fans.Base.{ℕ, zero, suc, ◌+◌, ◌≤◌, ◌≡◌, refl, Bool, none, some, arith, inl, inr, Option-cases}
use fans.Base.Map.{get, get-put_self}
use fans.Exec.{Outcome, done, exits, hangs, ◌>>=◌}
use fans.Exec.{Exec, pure}
use fans.Base.Map.{put}
use fans.Exec.Total.{bind-done}
use fans.Base.{true, false, ◌∙◌, ◌&&◌, ◌||◌, if◌then◌else◌}
use fans.Base.Text.{codes, text_eq}
use fans.Model.{lhs, rhs}
use fans.Checker.{check_and, check_or}
use fans.Exec.Total.{Always, Always-map}
use fans.Model.{Node, attrs, depth, Tables}
use fans.State.{State}
use fans.Parcel.Grows.{Grows}
use fans.Checker.{Floats, check, check_opcode, cache_status}
use fans.Checker.Total.{check-Total}

-- The status that is kept for a constraint.
abbrev pub Remembers : Node → Bool → State → Type 0
Remembers c b t = get (attrs c).name t.constraint_status ≡ some b

module _ (floats : Floats) (m : Tables) where
  -- A constraint that has a status is not checked again.
  pub check-known :
      (fuel : ℕ) (c : Node) (b : Bool) (t : State)
      → Remembers c b t
      → check floats m (suc fuel) c t ≡ done (b, t)
  unfolding check
  check-known fuel c b t e = rw (e, check) refl

  check-unknown :
      (fuel : ℕ) (c : Node) (s : State)
      → get (attrs c).name s.constraint_status ≡ none
      → check floats m (suc fuel) c s
        ≡ (check_opcode floats m (check floats m fuel) c >>= cache_status floats m c) s
  unfolding check
  check-unknown fuel c s e = rw (e, check) refl

  after_cache :
      (P : Bool → State → Type 0) (c : Node) (x o : Outcome (Bool × State))
      → x
        ≡ (elim o [ done (b, t) ↦ cache_status floats m c b t | exits e ↦ exits e | hangs ↦ hangs ])
      → Always P x
      → Always (λ b t. Remembers c b t) x
  after_cache P c x (done (b, t)) e h = rw e (get-put_self (attrs c).name b t.constraint_status)
  after_cache P c x (exits f) e h = rw e tt
  after_cache P c x hangs e h = absurd (subst (λ y. Always P y) e h)

  remembers :
      (fuel : ℕ) (c : Node) (s : State)
      → depth c + 3 ≤ suc fuel
      → Always (λ b t. Remembers c b t) (check floats m (suc fuel) c s)
  remembers fuel c s h =
      let total = (check-Total floats m (suc fuel) c h).run s in
      elim (Option-cases (get (attrs c).name s.constraint_status)) [
        | inl e ↦
            after_cache (λ _ t. Grows s t) c _ (check_opcode floats m (check floats m fuel) c s)
              (check-unknown fuel c s e) total
        | inr (b, e) ↦ rw (check-known fuel c b s e) e
      ]

  -- With the depth of the constraint and three more as fuel, `check` comes back or ends the
  -- process. If it comes back with a status, this status is kept for the constraint, and in every
  -- state where it is, a further check returns it and changes nothing.
  pub check-Cached :
      (fuel : ℕ) (c : Node) (s : State)
      → depth c + 3 ≤ fuel
      → Always
          (λ b t.
            Remembers c b t
            × ((u : State) → Remembers c b u → check floats m fuel c u ≡ done (b, u)))
          (check floats m fuel c s)
  check-Cached zero c s h = absurd (omega arith)
  check-Cached (suc fuel) c s h =
      Always-map (λ b t. Remembers c b t) _ _ (remembers fuel c s h)
        (λ b t e. (e, λ u k. check-known fuel c b u k))

  opcode_and :
      (again : Node → Exec State Bool) (c : Node) (s : State)
      → (attrs c).opcode ≡ codes "&&"
      → check_opcode floats m again c s ≡ check_and floats m again c s
  unfolding check_opcode text_eq
  opcode_and again c s e = rw e refl

  opcode_or :
      (again : Node → Exec State Bool) (c : Node) (s : State)
      → (attrs c).opcode ≡ codes "||"
      → check_opcode floats m again c s ≡ check_or floats m again c s
  unfolding check_opcode text_eq
  opcode_or again c s e = rw e refl

  module _ (again : Node → Exec State Bool) (c : Node) (a b : Bool) (s : State)
      (on_left : again (lhs c) s ≡ done (a, s)) (on_right : again (rhs c) s ≡ done (b, s)) where
    and_value : check_and floats m again c s ≡ done (a && b, s)
    unfolding check_and
    and_value =
        bind-done (again (lhs c)) (λ left. if left then again (rhs c) else pure false) s s a on_left
        ∙ by_left a
      where
        by_left : (x : Bool) → (if x then again (rhs c) else pure false) s ≡ done (x && b, s)
        by_left true = on_right
        by_left false = refl

    or_value : check_or floats m again c s ≡ done (a || b, s)
    unfolding check_or
    or_value =
        bind-done (again (lhs c)) (λ left. if left then pure true else again (rhs c)) s s a on_left
        ∙ by_left a
      where
        by_left : (x : Bool) → (if x then pure true else again (rhs c)) s ≡ done (x || b, s)
        by_left true = refl
        by_left false = on_right

  -- A connective that has no status yet, over operands that have one, gets the conjunction or the
  -- disjunction of theirs, by its opcode; `check` returns it and keeps it, and changes nothing else.
  pub check-connective :
      (fuel : ℕ) (c : Node) (a b : Bool) (s : State)
      → get (attrs c).name s.constraint_status ≡ none
      → Remembers (lhs c) a s
      → Remembers (rhs c) b s
      → ((attrs c).opcode ≡ codes "&&"
          → check floats m (suc (suc fuel)) c s
            ≡ done (
              a && b,
              record s { constraint_status = put (attrs c).name (a && b) s.constraint_status },
            ))
        × ((attrs c).opcode ≡ codes "||"
            → check floats m (suc (suc fuel)) c s
              ≡ done (
                a || b,
                record s { constraint_status = put (attrs c).name (a || b) s.constraint_status },
              ))
  check-connective fuel c a b s fresh left right =
      let again = check floats m (suc fuel) in
      let on_left = check-known fuel (lhs c) a s left in
      let on_right = check-known fuel (rhs c) b s right in
      let checked = check-unknown (suc fuel) c s fresh in
      (
        λ e.
            checked
            ∙ bind-done (check_opcode floats m again c) (cache_status floats m c) s s (a && b)
                (opcode_and again c s e ∙ and_value again c a b s on_left on_right),
        λ e.
            checked
            ∙ bind-done (check_opcode floats m again c) (cache_status floats m c) s s (a || b)
                (opcode_or again c s e ∙ or_value again c a b s on_left on_right),
      )
