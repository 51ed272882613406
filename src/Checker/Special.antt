-- ===== src/Checker/Special.antt =====
-- fuzzer-engine/fuzzer/src/constraint_checker.cpp: values that come from a constraint instead of a
-- generator, and the number of tries. The overloads of getValueFromSpecialSelfConstraint differ in
-- the type of the value alone, which is the argument of type `Kind`.
use fans.Base.{
  ℕ, suc, ◌+◌, Bool, false, not, ◌&&◌, ◌||◌, List, [], ◌∷◌, Option, none, some, if◌then◌else◌,
  length, get_or,
}
use fans.Base.Text.{codes, text_eq, contains}
use fans.Base.Int.{pos}
use fans.Exec.{Exec, pure, exit, ◌>>=◌, bad_special_opcode}
use fans.Random.{random_uint64, random_float}
use fans.Model.{Scalar, Node, null, attrs, lhs, rhs, depth, Tables}
use fans.State.{State, draw}
use fans.Parcel.Lookup.{get_var_cached_status}
use fans.Parcel.Store.{Value, i32, i64, u32, u64, float, double, boolean, text}
use fans.Checker.{Floats, check}

-- int32_t, uint32_t, int64_t, unsigned long, string, float, double and bool
pub data Kind : Type 0 where
  int_kind uint_kind int64_kind uint64_kind string_kind float_kind double_kind bool_kind : Kind

-- constraint["rhs"]["value"].asInt() and so on
abbrev pub literal : Kind → Scalar → Value
literal int_kind v = i32 v.as_int
literal uint_kind v = u32 v.as_uint
literal int64_kind v = i64 v.as_int64
literal uint64_kind v = u64 v.as_uint64
literal string_kind v = text v.as_string
literal float_kind v = float v.as_float
literal double_kind v = double v.as_double
literal bool_kind v = boolean v.as_bool

-- 0, "" or false
abbrev pub zero_of : Kind → Value
zero_of int_kind = i32 (pos 0)
zero_of uint_kind = u32 0
zero_of int64_kind = i64 (pos 0)
zero_of uint64_kind = u64 0
zero_of string_kind = text []
zero_of float_kind = float 0
zero_of double_kind = double 0
zero_of bool_kind = boolean false

abbrev pub is_equality : Node → Bool
is_equality c = contains (attrs c).opcode (codes "==")

abbrev is_special : Node → Bool
is_special c = is_equality c || text_eq (attrs c).opcode (codes "!") || text_eq (attrs c).opcode []

-- The positions, from `i` on, of the constraints with such an opcode.
pub special_positions : ℕ → List Node → List ℕ
special_positions i [] = []
special_positions i (c ∷ cs) =
    let rest = special_positions (suc i) cs in if is_special c then i ∷ rest else rest

-- int32_t getSpecialSelfConstraintIdx(vector<Json::Value> constraintSet); `none` is -1.
unfoldable pub pick_position : List ℕ → Exec State (Option ℕ)
pick_position [] = pure none
pick_position (p ∷ ps) = do
  idx ← draw (random_uint64 0 (length ps))
  pure (some (get_or (p ∷ ps) idx 0))

abbrev get_special_self_constraint_idx : List Node → Exec State (Option ℕ)
get_special_self_constraint_idx cs = pick_position (special_positions 0 cs)

-- Whether randomFloat(0, 1) stays within the probability of the constraint.
unfoldable pub by_probability : Node → Exec State Bool
by_probability c = do r ← draw random_float; pure (not ((attrs c).probability.exceeded_by r))

module _ (floats : Floats) (m : Tables) where
  -- bool shouldGenerateValueFromSpecialSelfConstraint(const Json::Value &constraint)
  unfoldable pub should_generate : Node → Exec State Bool
  should_generate c s =
      let left = get_var_cached_status (attrs (lhs c)) s.is_var_cached in
      let right = get_var_cached_status (attrs (rhs c)) s.is_var_cached in
      (if (if is_equality c then left && right else left)
          then check floats m (depth c + 3) c
          else by_probability c)
        s

  -- The value that a special constraint asks for.
  unfoldable pub special_value : Kind → Node → Exec State (Option Value)
  special_value kind c =
      if is_equality c
      then pure (some (literal kind (attrs (rhs c)).value))
      else if text_eq (attrs c).opcode [] || text_eq (attrs c).opcode (codes "!")
      then pure (some (zero_of kind))
      else exit bad_special_opcode

  unfoldable pub value_at : Kind → List Node → Option ℕ → Exec State (Option Value)
  value_at kind cs none = pure none
  value_at kind cs (some i) = do
    generated ← should_generate (get_or cs i null)
    if generated then special_value kind (get_or cs i null) else pure none

  -- bool getValueFromSpecialSelfConstraint(vector<Json::Value> constraintSet, T &value); `none` is
  -- false.
  unfoldable pub get_value_from_special_self_constraint :
      Kind → List Node → Exec State (Option Value)
  get_value_from_special_self_constraint kind cs =
      get_special_self_constraint_idx cs >>= value_at kind cs

-- uint32_t getTryCount(vector<Json::Value> constraintSet): prob * 100, for a prob of 0.5 if there is
-- no constraint.
abbrev pub get_try_count : List Node → ℕ
get_try_count [] = 50
get_try_count (c ∷ cs) = (attrs c).probability.percent
