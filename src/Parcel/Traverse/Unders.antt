-- ===== src/Parcel/Traverse/Unders.antt =====
-- When a variable is written or read: checkUnderConstraint and readWriteItem.
use fans.Base.{
  ℕ, zero, suc, ◌<◌, ◌≡◌, ap, refl, ◌∙◌, Bool, true, false, not, ◌&&◌, List, [], ◌∷◌, some, arith,
  if◌then◌else◌, get_or, All,
}
use fans.Base.Text.{Text}
use fans.Exec.Total.{bind-done}
use fans.Exec.{Exec, done, pure}
use fans.Model.{null, Tables, Under, null_variable}
use fans.State.{State}
use fans.Parcel.Lookup.{constraint_idx}
use fans.Checker.{Floats, check_name}
use fans.Checker.Cache.{Remembers, check-known}
use fans.Parcel.Traverse.{check_fuel, check_unders, check_under_constraint, read_write_item}

-- The constraint of the entry has the status in the cache.
abbrev pub HasStatus : Tables → State → (Under → Bool) → Under → Type 0
HasStatus m s status u =
    (i : ℕ) × (constraint_idx m u.name ≡ some i)
    × Remembers (get_or m.constraint i null) (status u) s

-- Every entry has the status that it expects.
abbrev pub all_met : (Under → Bool) → List Under → Bool
all_met status [] = true
all_met status (u ∷ us) = (if u.status then status u else not (status u)) && all_met status us

and_met : (p flag q : Bool) → ((if p then flag else false) && q) ≡ (flag && (p && q))
and_met true flag q = refl
and_met false true q = refl
and_met false false q = refl

nothing_left : (flag : Bool) (s : State) → pure flag s ≡ done (flag && true, s)
nothing_left true s = refl
nothing_left false s = refl

applied :
    (b : Bool) (m : Exec State (Unit {0})) (s : State)
    → (if b then m else pure tt) s ≡ (if b then m s else done (tt, s))
applied true m s = refl
applied false m s = refl

module _ (floats : Floats) (m : Tables) (item : ℕ → Exec State (Unit {0})) where
  check_name-known :
      (fuel : ℕ) (name : Text) (i : ℕ) (b : Bool) (s : State)
      → 0 < fuel
      → constraint_idx m name ≡ some i
      → Remembers (get_or m.constraint i null) b s
      → check_name floats m fuel name s ≡ done (b, s)
  unfolding check_name
  check_name-known zero name i b s h e r = absurd (omega arith)
  check_name-known (suc fuel) name i b s h e r =
      rw (e, check_name) (check-known floats m fuel (get_or m.constraint i null) b s r)

  check_unders-known :
      (status : Under → Bool) (us : List Under) (flag : Bool) (s : State)
      → All (HasStatus m s status) us
      → check_unders floats m item us flag s ≡ done (flag && all_met status us, s)
  unfolding check_unders
  check_unders-known status [] flag s h = nothing_left flag s
  check_unders-known status (u ∷ us) flag s h =
      bind-done (check_name floats m (check_fuel floats m item) u.name) _ s s (status u)
        (check_name-known _ u.name h.0.0 (status u) s (omega arith) h.0.1 h.0.2)
      ∙ check_unders-known status us _ s h.1
      ∙ ap (λ b. done (b, s))
          (and_met (if u.status then status u else not (status u)) flag (all_met status us))

  -- If every constraint that a variable is under has a status in the cache, the variable is handled
  -- exactly if each of these statuses is the expected one; otherwise nothing happens.
  pub read_write_item_lem :
      (i : ℕ) (status : Under → Bool) (s : State)
      → All (HasStatus m s status) (get_or m.variable i null_variable).under_constraint
      → read_write_item floats m item i s ≡ (
          if all_met status (get_or m.variable i null_variable).under_constraint
          then item i s
          else done (tt, s))
  unfolding read_write_item check_under_constraint
  read_write_item_lem i status s h =
      let us = (get_or m.variable i null_variable).under_constraint in
      bind-done (check_unders floats m item us true) _ s s (all_met status us)
        (check_unders-known status us true s h)
      ∙ applied (all_met status us) (item i) s
