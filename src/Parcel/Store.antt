-- ===== src/Parcel/Store.antt =====
-- Storing a value and resetting the constraints that depend on it.
use fans.Base.{
  ℕ, zero, suc, ◌-◌, Bool, true, false, ◌||◌, List, [], ◌∷◌, if◌then◌else◌, length, get_or, take,
  drop, ltb,
}
use fans.Base.Text.{Text, codes, text_eq}
use fans.Base.Int.{ℤ, to_i32}
use fans.Base.Map.{erase, put, erase_prefix}
use fans.Exec.{Exec, pure, exit, fuel_out, modify, ◌>>=◌, ◌>>◌, bad_counter_type}
use fans.Model.{Tables, null_variable, no_loop, Loop}
use fans.State.{State}
use fans.VarType.{VarType, is_type, int32_type, uint32_type, uint64_type}
use fans.TypeMap.{type_at}
use fans.Parcel.Lookup.{get_var_idx}

-- bool endsWith(const string &a, const string &b)
unfoldable pub ends_with : Text → Text → Bool
ends_with a b =
    if ltb (length a) (length b) then false else text_eq (drop (length a - length b) a) b

-- void resetConstraints(string constraint): each round takes four bytes off the name.
unfoldable pub reset_constraints : ℕ → Text → Exec State (Unit {0})
unfolding ends_with
reset_constraints zero c = fuel_out
reset_constraints (suc fuel) c =
    let rest = reset_constraints fuel (take (length c - 4) c) in
    modify (λ s. record s { constraint_status = erase c s.constraint_status })
    >> (if ends_with c (codes "_lhs") || ends_with c (codes "_rhs") then rest else pure tt)

-- The loop of resetSelfConstraints. The length of a name is enough fuel for it.
unfoldable pub reset_all : List Text → Exec State (Unit {0})
reset_all [] = pure tt
reset_all (c ∷ cs) = reset_constraints (suc (length c)) c >> reset_all cs

-- void resetSelfConstraints(string varName)
unfoldable pub reset_self_constraints : Tables → Text → Exec State (Unit {0})
unfolding reset_all
reset_self_constraints m var_name = do
  idx ← get_var_idx m var_name
  reset_all (get_or m.variable idx null_variable).self_constraint

-- The overloads of storeValue. Floats are bit patterns.
pub data Value : Type 0 where
  i32 i64 : ℤ → Value
  u32 u64 float double : ℕ → Value
  boolean : Bool → Value
  text : Text → Value

abbrev pub set_value : Text → Value → State → State
set_value x (i32 v) s = record s { int_map = put x v s.int_map }
set_value x (i64 v) s = record s { int64_map = put x v s.int64_map }
set_value x (u32 v) s = record s { uint_map = put x v s.uint_map }
set_value x (u64 v) s = record s { uint64_map = put x v s.uint64_map }
set_value x (float v) s = record s { float_map = put x v s.float_map }
set_value x (double v) s = record s { double_map = put x v s.double_map }
set_value x (boolean v) s = record s { bool_map = put x v s.bool_map }
set_value x (text v) s = record s { string_map = put x v s.string_map }

abbrev pub mark_cached : Text → State → State
mark_cached x s = record s { is_var_cached = put x true s.is_var_cached }

-- void storeValue(string varName, T value)
unfoldable pub store_value : Tables → Text → Value → Exec State (Unit {0})
unfolding reset_self_constraints
store_value m var_name value = do
  modify (mark_cached var_name)
  modify (set_value var_name value)
  reset_self_constraints m var_name

-- The overload that the type of the counter selects.
unfoldable pub store_counter : Tables → Loop → ℕ → VarType → Exec State (Unit {0})
unfolding store_value
store_counter m l counter_value counter_type =
    if is_type counter_type int32_type
    then store_value m l.counter_name (i32 (to_i32 counter_value))
    else if is_type counter_type uint32_type
    then store_value m l.counter_name (u32 counter_value)
    else if is_type counter_type uint64_type
    then store_value m l.counter_name (u64 counter_value)
    else exit bad_counter_type

-- void setLoopCounter(uint32_t loopIdx, uint32_t counterValue)
unfoldable pub set_loop_counter : Tables → ℕ → ℕ → Exec State (Unit {0})
unfolding type_at store_counter
set_loop_counter m loop_idx counter_value = do
  counter_type ← type_at (get_or m.loop loop_idx no_loop).counter_type
  store_counter m (get_or m.loop loop_idx no_loop) counter_value counter_type

-- void eraseStructStatus(string prefix)
unfoldable pub erase_struct_status : Text → Exec State (Unit {0})
erase_struct_status prefix = modify (λ s. record s {
  is_var_cached = erase_prefix prefix s.is_var_cached;
  constraint_status = erase_prefix prefix s.constraint_status;
})
