-- ===== src/Tests/Check.antt =====
-- Checks of constraints.
use fans.Base.{◌≡◌, [], ◌∷◌, arith}
use fans.Exec.{done}
use fans.Exec.Total.{Always, Total}
use fans.State.{State}
use fans.Parcel.Grows.{Grows}
use fans.Checker.{check}
use fans.Checker.Total.{check-Total}
use fans.Base.{◌&&◌, ◌||◌, All, get_or, find_index, if◌then◌else◌}
use fans.Base.Text.{text_eq, is_prefix}
use fans.Base.Map.{get, put}
use fans.Exec.{pure}
use fans.Model.{attrs, Tables, Under, null_variable}
use fans.Parcel.Lookup.{constraint_idx}
use fans.Parcel.Traverse.{read_write_item}
use fans.Parcel.Traverse.Unders.{HasStatus, all_met, read_write_item_lem}
use fans.Tests.{size}
use fans.Base.{ℕ, Bool, true, false, refl}
use fans.Exec.{Exec}
use fans.Base.Text.{codes}
use fans.Checker.Cache.{check-connective}
use fans.Checker.Cache.{Remembers, check-Cached}
use fans.Tests.{bit_patterns, tables, start_state, both}

check-Total_example : Total Grows (check bit_patterns tables 6 both)
check-Total_example = check-Total bit_patterns tables 6 both (omega arith)

check-Cached_example :
    Always
      (λ b t.
        Remembers both b t
        × ((u : State) → Remembers both b u → check bit_patterns tables 6 both u ≡ done (b, u)))
      (check bit_patterns tables 6 both start_state)
check-Cached_example = check-Cached bit_patterns tables 6 both start_state (omega arith)

-- Both operands of the conjunction have a status.
abbrev operands_known : State
operands_known = record start_state {
  constraint_status = (codes "constraint0", true) ∷ (codes "constraint1_rhs", false) ∷ [];
}

check-connective_example :
    ((attrs both).opcode ≡ codes "&&"
      → check bit_patterns tables 2 both operands_known
        ≡ done (
          true && false,
          record operands_known {
            constraint_status =
                put (codes "constraint1") (true && false) operands_known.constraint_status;
          },
        ))
    × ((attrs both).opcode ≡ codes "||"
        → check bit_patterns tables 2 both operands_known
          ≡ done (
            true || false,
            record operands_known {
              constraint_status =
                  put (codes "constraint1") (true || false) operands_known.constraint_status;
            },
          ))
unfolding get text_eq
check-connective_example =
    check-connective bit_patterns tables 0 both true false operands_known refl refl refl

-- The variable is written if constraint0 holds.
abbrev guarded : Tables
guarded = record tables {
  variable =
      record size { under_constraint = record { name = codes "constraint0"; status = true } ∷ [] }
      ∷ [];
}

abbrev write_nothing : ℕ → Exec State (Unit {0})
write_nothing i = pure tt

abbrev always_true : Under → Bool
always_true u = true

guarded_status :
    All
      (HasStatus guarded operands_known always_true)
      (get_or guarded.variable 0 null_variable).under_constraint
unfolding constraint_idx find_index is_prefix get text_eq
guarded_status = ((0, refl, refl), tt)

read_write_item_example : read_write_item bit_patterns guarded write_nothing 0 operands_known ≡ (
    if all_met always_true (get_or guarded.variable 0 null_variable).under_constraint
    then write_nothing 0 operands_known
    else done (tt, operands_known))
read_write_item_example =
    read_write_item_lem bit_patterns guarded write_nothing 0 always_true operands_known
      guarded_status
