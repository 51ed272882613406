-- ===== src/Parcel/Traverse/Dependency.antt =====
-- readWriteItem of parcel_reader_writer.cpp and isDependency.
use fans.Base.{ℕ, ◌≡◌, refl, ◌∙◌, Bool, true, List, [], ◌∷◌, arith}
use fans.Exec.{Exec, pure}
use fans.Exec.Total.{Always-map, IsPreorder, Total, Total-bind, Total-if, Total-pure}
use fans.Model.{Under, Tables}
use fans.State.{State}
use fans.Checker.{Floats}
use fans.Checker.Total.{check_name-Total}
use fans.Parcel.Grows.{Grows}
use fans.Parcel.Traverse.{check_unders, check_under_constraint, read_write_item}

pub record SameDependency (s t : State) : Type 0 where
  pub same : t.is_dependency ≡ s.is_dependency

instance pub SameDependency-preorder : IsPreorder SameDependency
SameDependency-preorder = record {
  reflexive = λ s. record { same = refl };
  transitive = λ s t u g h. record { same = h.same ∙ g.same };
}

pub keeps_dependency : {A : Type 0} (m : Exec State A) → Total Grows m → Total SameDependency m
keeps_dependency m h = record {
  run = λ s.
      Always-map (λ _ t. Grows s t) (λ _ t. SameDependency s t) (m s) (h.run s)
        (λ _ t g. record { same = g.is_dependency });
}

module _ (floats : Floats) (m : Tables) (item : ℕ → Exec State (Unit {0}))
    (item_keeps : (i : ℕ) → Total SameDependency (item i)) where
  check_unders-SameDependency :
      (us : List Under) (flag : Bool) → Total SameDependency (check_unders floats m item us flag)
  unfolding check_unders
  check_unders-SameDependency [] flag = Total-pure flag
  check_unders-SameDependency (u ∷ us) flag =
      Total-bind _ _ (keeps_dependency _ (check_name-Total floats m _ u.name (omega arith)))
        (λ b. check_unders-SameDependency us _)

  pub read_write_item-SameDependency :
      (i : ℕ) → Total SameDependency (read_write_item floats m item i)
  unfolding read_write_item check_under_constraint
  read_write_item-SameDependency i =
      Total-bind _ _ (check_unders-SameDependency _ true)
        (λ b. Total-if b (item i) (pure tt) (λ _. item_keeps i) (λ _. Total-pure tt))
