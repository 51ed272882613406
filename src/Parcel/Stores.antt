-- ===== src/Parcel/Stores.antt =====
-- storeValue of parcel_reader_writer.cpp, for a variable of the table.
use fans.Base.{
  ℕ, zero, suc, ◌-◌, ◌<◌, ◌≡◌, ◌||◌, List, [], ◌∷◌, some, arith, length, take, length-take, get_or,
  true,
}
use fans.Base.Text.{Text, codes}
use fans.Exec.{modify}
use fans.Exec.Succeeds.{Succeeds, Sure, Sure-pure, Sure-if, Sure-bind}
use fans.Exec.Yields.{Yields, Yields-of}
use fans.Model.{Tables, null_variable}
use fans.State.{State}
use fans.Parcel.Lookup.{var_idx}
use fans.Parcel.Store.{
  ends_with, reset_constraints, reset_all, reset_self_constraints, Value, set_value, mark_cached,
  store_value,
}
use fans.Parcel.Grows.{ends_with-length}
use fans.Parcel.RoundTrip.{OnlyStatus, reset_self_constraints-OnlyStatus}

abbrev Ended : Unit {0} → Type 0
Ended a = Unit

modify-Sure : (f : State → State) → Sure Ended (modify f)
modify-Sure f = record { run = λ s. tt }

reset_constraints-Sure :
    (fuel : ℕ) (c : Text) → length c < fuel → Sure Ended (reset_constraints fuel c)
unfolding reset_constraints
reset_constraints-Sure zero c h = absurd (omega arith)
reset_constraints-Sure (suc fuel) c h = Sure-bind Ended Ended _ _ (modify-Sure _) (λ _ _.
    Sure-if Ended _ _ _
      (λ (e : (ends_with c (codes "_lhs") || ends_with c (codes "_rhs")) ≡ true).
        reset_constraints-Sure fuel (take (length c - 4) c)
          (omega (arith, ends_with-length c e, length-take (length c - 4) c)))
      (λ _. Sure-pure _ _ tt))

reset_all-Sure : (cs : List Text) → Sure Ended (reset_all cs)
unfolding reset_all
reset_all-Sure [] = Sure-pure _ _ tt
reset_all-Sure (c ∷ cs) =
    Sure-bind Ended Ended _ _ (reset_constraints-Sure (suc (length c)) c (omega arith))
      (λ _ _. reset_all-Sure cs)

module _ (m : Tables) (x : Text) (i : ℕ) (known : var_idx m x ≡ some i) where
  reset_self_constraints-Succeeds : (s : State) → Succeeds Ended (reset_self_constraints m x s)
  unfolding reset_self_constraints
  reset_self_constraints-Succeeds s =
      rw known ((reset_all-Sure (get_or m.variable i null_variable).self_constraint).run s)

  pub reset_self_constraints-Yields :
      (s : State) → Yields (λ _ t. OnlyStatus s t) (reset_self_constraints m x s)
  reset_self_constraints-Yields s =
      Yields-of _ Ended _ ((reset_self_constraints-OnlyStatus m x).run s)
        (reset_self_constraints-Succeeds s)

  pub store_value-Yields :
      (v : Value) (s : State)
      → Yields (λ _ t. OnlyStatus (set_value x v (mark_cached x s)) t) (store_value m x v s)
  unfolding store_value
  store_value-Yields v s = reset_self_constraints-Yields (set_value x v (mark_cached x s))
