-- ===== src/Checker.antt =====
-- fuzzer-engine/fuzzer/src/constraint_checker.cpp: `check` and what it calls. The member `random` of
-- the checker is written and never read, and is left out.
pub mod Total
pub mod Operands
pub mod Special
pub mod Cache
use Prim.Native.Nat.{bit_and}
use fans.Base.{
  ℕ, zero, suc, ◌==◌, Bool, true, false, not, ◌&&◌, ◌||◌, List, [], ◌∷◌, Option, none, some,
  if◌then◌else◌, get_or,
}
use fans.Base.Text.{Text, codes, text_eq, contains, text_ltb}
use fans.Base.Int.{ℤ, pos, ltb_ℤ, leb_ℤ, eq_ℤ, to_u64, to_u32, to_i64}
use fans.Base.Map.{Map, get, put, at}
use fans.Exec.{
  Exec, done, pure, exit, fuel_out, gets, ◌>>=◌, ◌>>◌, bad_opcode, bad_operand_type, bad_constraint,
  bad_not_type, bad_self_type,
}
use fans.Random.{n_out_of}
use fans.Model.{Attrs, Node, null, attrs, lhs, rhs, Tables}
use fans.State.{State, draw}
use fans.VarType.{
  VarType, is_type, integer_literal, int32_type, uint32_type, int64_type, uint64_type, float_type,
  string16_type, string8_type, cstring_type, bool_type,
}
use fans.TypeMap.{type_at}
use fans.Parcel.Lookup.{get_var_cached_status, get_counter_loop_idx, get_constraint_idx}
use fans.Parcel.Store.{set_loop_counter}

-- The comparison of two floats, and the cast of one to uint64_t, on their bit patterns.
pub record Floats : Type 0 where
  pub lt : ℕ → ℕ → Bool
  pub le : ℕ → ℕ → Bool
  pub eq : ℕ → ℕ → Bool
  pub to_uint64 : ℕ → ℕ

-- What `compare` uses of its type: the order, equality, and the cast to uint64_t.
pub record Order (A : Type 0) : Type 0 where
  pub lt : A → A → Bool
  pub le : A → A → Bool
  pub eq : A → A → Bool
  pub bits : A → ℕ

abbrev int_order : Order ℤ
int_order = record { lt = ltb_ℤ; le = leb_ℤ; eq = eq_ℤ; bits = to_u64 }

abbrev pub float_order : Floats → Order ℕ
float_order f = record { lt = f.lt; le = f.le; eq = f.eq; bits = f.to_uint64 }

-- The six relations that numbers and strings share; `none` is any other opcode.
relation : {A : Type 0} → Order A → Text → A → A → Option Bool
relation o opcode left right =
    if text_eq opcode (codes "<")
    then some (o.lt left right)
    else if text_eq opcode (codes "<=")
    then some (o.le left right)
    else if text_eq opcode (codes "==") || text_eq opcode (codes "operator==")
    then some (o.eq left right)
    else if text_eq opcode (codes ">=")
    then some (o.le right left)
    else if text_eq opcode (codes ">")
    then some (o.lt right left)
    else if text_eq opcode (codes "!=") || text_eq opcode (codes "operator!=")
    then some (not (o.eq left right))
    else none

-- template <T1, T2> bool compare(string opcode, const T1 &left, const T2 &right), at the common
-- type to which C++ converts the two operands.
pub compare : {A : Type 0} → Order A → Text → A → A → Exec State Bool
compare o opcode left right = elim (relation o opcode left right) [
  | some b ↦ pure b
  | none ↦
      if text_eq opcode (codes "&")
      then pure (not (bit_and (o.bits left) (o.bits right) == 0))
      else exit bad_opcode
]

-- The type of an operand, which has to be in varTypeMap.
pub operand_type : Text → Exec State VarType
operand_type t s = elim (get t s.types) [ some v ↦ pure v s | none ↦ exit bad_operand_type s ]

-- The operands of a comparison of numbers, after the conversions that the cast expressions and the
-- maps of each branch make; `none` is a pair of types that no branch of numbers takes.
pub int_operands : VarType → VarType → Attrs → Attrs → State → Option (ℤ × ℤ)
int_operands lt rt l r s =
    let li = at l.name (pos 0) s.int_map in
    let ri = at r.name (pos 0) s.int_map in
    let lu = at l.name 0 s.uint_map in
    let ru = at r.name 0 s.uint_map in
    let ll = at l.name (pos 0) s.int64_map in
    let rl = at r.name (pos 0) s.int64_map in
    let lw = at l.name 0 s.uint64_map in
    let rw64 = at r.name 0 s.uint64_map in
    if is_type lt int32_type && is_type rt int32_type
    then some (li, ri)
    else if is_type lt uint32_type && is_type rt uint32_type
    then some (pos lu, pos ru)
    else if is_type lt int32_type && is_type rt integer_literal
    then some (li, r.value.as_int)
    else if is_type lt int32_type && is_type rt uint64_type
    then some (pos (to_u64 li), pos rw64)
    else if is_type lt uint32_type && is_type rt integer_literal
    then some (pos lu, pos r.value.as_uint)
    else if is_type lt uint32_type && is_type rt int32_type
    then some (pos lu, pos (to_u32 ri))
    else if is_type lt uint32_type && is_type rt int64_type
    then some (pos lu, rl)
    else if is_type lt int64_type && is_type rt int64_type
    then some (ll, rl)
    else if is_type lt uint64_type && is_type rt uint64_type
    then some (pos lw, pos rw64)
    else if is_type lt uint64_type && is_type rt int64_type
    then some (pos lw, pos (to_u64 rl))
    else if is_type lt uint64_type && is_type rt integer_literal
    then some (pos lw, pos r.value.as_uint64)
    else if is_type lt int64_type && is_type rt integer_literal
    then some (ll, r.value.as_int64)
    else if is_type lt uint64_type && is_type rt int32_type
    then some (pos lw, pos (to_u64 ri))
    else if is_type lt uint64_type && is_type rt uint32_type
    then some (pos lw, pos ru)
    else if is_type lt integer_literal && is_type rt uint32_type
    then some (pos l.value.as_uint, pos ru)
    else if is_type lt integer_literal && is_type rt int32_type
    then some (l.value.as_int, ri)
    else none

abbrev is_string : VarType → Bool
is_string t = is_type t string16_type || is_type t string8_type || is_type t cstring_type

abbrev string_operand : Attrs → State → Text
string_operand v s = if v.has_value then v.value.as_string else at v.name [] s.string_map

abbrev string_order : Order Text
string_order = record { lt = text_ltb; le = λ a b. not (text_ltb b a); eq = text_eq; bits = λ _. 0 }

-- The branch of two cached operands.
pub compare_cached : Floats → Text → VarType → VarType → Attrs → Attrs → Exec State Bool
compare_cached floats opcode lt rt l r s = elim (int_operands lt rt l r s) [
  | some (a, b) ↦ compare int_order opcode a b s
  | none ↦
      if is_type lt float_type && is_type rt float_type
      then compare (float_order floats) opcode (at l.name 0 s.float_map) (at r.name 0 s.float_map) s
      else if is_string lt
      then elim (relation string_order opcode (string_operand l s) (string_operand r s)) [
        | some b ↦ pure b s
        | none ↦ exit bad_opcode s
      ]
      else exit bad_constraint s
]

pub compare_values : Floats → Node → Exec State Bool
unfolding operand_type
compare_values floats c = do
  lhs_type ← operand_type (attrs (lhs c)).type
  rhs_type ← operand_type (attrs (rhs c)).type
  compare_cached floats (attrs c).opcode lhs_type rhs_type (attrs (lhs c)) (attrs (rhs c))

-- nOutOf(constraint["probability"].asFloat() * 10, 10)
abbrev pub guess : Node → Exec State Bool
guess c = draw (n_out_of (attrs c).probability.tenths 10)

-- Whether a cached variable counts as true; `none` is a type that has no truth value.
pub truth : VarType → Attrs → State → Option Bool
truth int32_type v s = some (not (eq_ℤ (at v.name (pos 0) s.int_map) (pos 0)))
truth uint32_type v s = some (not (at v.name 0 s.uint_map == 0))
truth uint64_type v s = some (not (at v.name 0 s.uint64_map == 0))
truth int64_type v s = some (not (to_u64 (at v.name (pos 0) s.int64_map) == 0))
truth bool_type v s = some (at v.name false s.bool_map)
truth string8_type v s = some (not (text_eq (at v.name [] s.string_map) (codes "NULL")))
truth string16_type v s = some (not (text_eq (at v.name [] s.string_map) (codes "NULL")))
truth cstring_type v s = some (not (text_eq (at v.name [] s.string_map) (codes "NULL")))
truth _ v s = none

-- The tests of checkNot and checkSelf on a cached variable, by its truth value.
pub not_of : Text → Option Bool → Exec State Bool
not_of type none =
    if contains type (codes "android::GraphicBuffer") then pure true else exit bad_not_type
not_of type (some b) = pure (not b)

pub self_of : Text → Option Bool → Exec State Bool
self_of type none =
    if contains type (codes "android::GraphicBuffer") then pure true else exit bad_self_type
self_of type (some b) = pure b

pub truth_of : Attrs → (Option Bool → Exec State Bool) → Exec State Bool
truth_of v judge = do var_type ← type_at v.type; o ← gets (truth var_type v); judge o

-- bool checkNot(Json::Value constraint)
pub check_not : Node → Exec State Bool
check_not c s =
    let v = attrs (lhs c) in
    if get_var_cached_status v s.is_var_cached then truth_of v (not_of v.type) s else guess c s

-- bool checkSelf(Json::Value constraint)
pub check_self : Node → Exec State Bool
check_self c s =
    let v = attrs (lhs c) in
    if get_var_cached_status v s.is_var_cached then truth_of v (self_of v.type) s else guess c s

-- The loop that counts with an operand, if the operand has no value yet.
pub counter_of : Tables → Attrs → State → Option ℕ
counter_of m v s =
    if get_var_cached_status v s.is_var_cached then none else get_counter_loop_idx m v.name

module _ (floats : Floats) (m : Tables) where
  -- An operand without a value: a loop counter is set to 0 and the constraint checked again, and
  -- any other makes the result a guess. `again` is this->check.
  pub check_uncached : (Node → Exec State Bool) → Node → Exec State Bool
  check_uncached again c s = elim (counter_of m (attrs (lhs c)) s) [
    | some j ↦ (set_loop_counter m j 0 >> again c) s
    | none ↦ elim (counter_of m (attrs (rhs c)) s) [
      | some j ↦ (set_loop_counter m j 0 >> again c) s
      | none ↦ guess c s
    ]
  ]

  -- The branch of the opcodes <, <=, ==, >=, > and !=.
  pub check_comparison : (Node → Exec State Bool) → Node → Exec State Bool
  check_comparison again c s =
      if get_var_cached_status (attrs (lhs c)) s.is_var_cached
        && get_var_cached_status (attrs (rhs c)) s.is_var_cached
      then compare_values floats c s
      else check_uncached again c s

  -- The second operand of && and || is checked only where the first does not decide.
  pub check_and : (Node → Exec State Bool) → Node → Exec State Bool
  check_and again c = do left ← again (lhs c); if left then again (rhs c) else pure false

  pub check_or : (Node → Exec State Bool) → Node → Exec State Bool
  check_or again c = do left ← again (lhs c); if left then pure true else again (rhs c)

  pub check_opcode : (Node → Exec State Bool) → Node → Exec State Bool
  check_opcode again c =
      if text_eq (attrs c).opcode (codes "!")
      then check_not c
      else if text_eq (attrs c).opcode []
      then check_self c
      else if text_eq (attrs c).opcode (codes "&&")
      then check_and again c
      else if text_eq (attrs c).opcode (codes "||")
      then check_or again c
      else check_comparison again c

  abbrev pub cache_status : Node → Bool → Exec State Bool
  cache_status c status s =
      done (status, record s { constraint_status = put (attrs c).name status s.constraint_status })

  -- bool check(const Json::Value &constraint)
  pub check : ℕ → Node → Exec State Bool
  check zero c s = fuel_out s
  check (suc fuel) c s = elim (get (attrs c).name s.constraint_status) [
    | some status ↦ pure status s
    | none ↦ (check_opcode (check fuel) c >>= cache_status c) s
  ]

  -- bool check(const string &constraintName)
  unfoldable pub check_name : ℕ → Text → Exec State Bool
  check_name fuel constraint_name = do
    idx ← get_constraint_idx m constraint_name
    check fuel (get_or m.constraint idx null)

  -- The loop of checkConstraintSet.
  pub check_constraint_set : ℕ → List Node → Exec State Bool
  check_constraint_set fuel [] = pure true
  check_constraint_set fuel (c ∷ cs) =
      let rest = check_constraint_set fuel cs in
      do satisfied ← check fuel c; if satisfied then rest else pure false
