-- ===== src/Parcel/Lookup.antt =====
-- The parts of parcel_reader_writer.cpp that search the tables and change nothing but default
-- entries of a map.
use fans.Base.{
  ℕ, suc, ◌==◌, Bool, true, false, not, ◌&&◌, ◌||◌, List, [], ◌∷◌, Option, none, some,
  if◌then◌else◌, get_or, find_index,
}
use fans.Base.Text.{Text, codes, text_eq, is_prefix}
use fans.Base.Int.{ℤ, pos, negsuc, to_i64}
use fans.Base.Map.{Map, put, at}
use fans.Exec.{
  Exec, Fault, pure, exit, gets, modify, ◌>>=◌, ◌>>◌, no_variable, no_constraint, bad_value_type,
}
use fans.Model.{Attrs, attrs, Variable, Loop, Tables, size_of, fixed, null_variable}
use fans.State.{State}
use fans.VarType.{
  VarType, integer_literal, int32_type, uint32_type, int64_type, uint64_type, bool_type,
}
use fans.TypeMap.{get_var_type_enum}

-- uint32_t getVarIdx(string varName)
unfoldable pub var_idx : Tables → Text → Option ℕ
var_idx m var_name = find_index (λ v. text_eq var_name v.name) m.variable

abbrev pub found : {A : Type 0} → Fault → Option A → Exec State A
found e none = exit e
found e (some a) = pure a

abbrev pub get_var_idx : Tables → Text → Exec State ℕ
get_var_idx m var_name = found no_variable (var_idx m var_name)

-- uint32_t getConstraintIdx(string constraintName): the first entry whose name begins the name.
unfoldable pub constraint_idx : Tables → Text → Option ℕ
constraint_idx m constraint_name =
    find_index (λ c. is_prefix (attrs c).name constraint_name) m.constraint

abbrev pub get_constraint_idx : Tables → Text → Exec State ℕ
get_constraint_idx m constraint_name = found no_constraint (constraint_idx m constraint_name)

-- int32_t getCounterLoopIdx(string counterName); `none` is -1.
unfoldable pub get_counter_loop_idx : Tables → Text → Option ℕ
get_counter_loop_idx m counter_name = find_index (λ l. text_eq l.counter_name counter_name) m.loop

-- The inner loop of getValidLoopIdxOf: the first entry from `j` on that has the name and is not
-- being visited.
unfoldable pub unvisited_loop : (ℕ → Bool) → Text → ℕ → List Loop → Option ℕ
unvisited_loop visit name j [] = none
unvisited_loop visit name j (l ∷ ls) =
    let rest = unvisited_loop visit name (suc j) ls in
    if text_eq name l.name && not (visit j) then some j else rest

unfoldable pub valid_loop_in : (ℕ → Bool) → List Text → List Loop → Option ℕ
valid_loop_in visit [] loops = none
valid_loop_in visit (name ∷ names) loops =
    let rest = valid_loop_in visit names loops in
    elim (unvisited_loop visit name 0 loops) [ some j ↦ some j | none ↦ rest ]

-- int32_t getValidLoopIdxOf(string varName); `none` is -1.
unfoldable pub get_valid_loop_idx_of : Tables → Text → Exec State (Option ℕ)
get_valid_loop_idx_of m var_name = do
  idx ← get_var_idx m var_name
  gets (λ s. valid_loop_in s.loop_visit (get_or m.variable idx null_variable).loop m.loop)

-- bool getVarCachedStatus(const Json::Value &variable)
unfoldable pub get_var_cached_status : Attrs → Map Bool → Bool
get_var_cached_status v is_var_cached =
    text_eq v.type (codes "IntegerLiteral") || v.has_value || at v.name false is_var_cached

abbrev pub bool_to_ℤ : Bool → ℤ
bool_to_ℤ true = pos 1
bool_to_ℤ false = pos 0

-- The value of a cached variable, by its type.
unfoldable pub cached_value : VarType → Attrs → Exec State ℤ
cached_value int32_type v s = pure (at v.name (pos 0) s.int_map) s
cached_value uint32_type v s = pure (pos (at v.name 0 s.uint_map)) s
cached_value int64_type v s = pure (at v.name (pos 0) s.int64_map) s
cached_value uint64_type v s = pure (to_i64 (at v.name 0 s.uint64_map)) s
cached_value integer_literal v s = pure v.value.as_int s
cached_value bool_type v s = pure (bool_to_ℤ (at v.name false s.bool_map)) s
cached_value _ v s = exit bad_value_type s

-- The value of a variable that is not cached: that of a literal, or -1.
pub uncached_value : VarType → Attrs → ℤ
uncached_value integer_literal v = v.value.as_int
uncached_value bool_type v = if v.has_value then bool_to_ℤ v.value.as_bool else negsuc 0
uncached_value _ v = negsuc 0

-- int64_t getVarValue(const Json::Value &var): `isVarCached[varName]` adds a missing key.
unfoldable pub get_var_value : Attrs → Exec State ℤ
unfolding cached_value uncached_value get_var_type_enum
get_var_value v = do
  var_type ← get_var_type_enum v.type
  cached ← gets (λ s. at v.name false s.is_var_cached)
  modify (λ s. record s { is_var_cached = put v.name cached s.is_var_cached })
  if cached then cached_value var_type v else pure (uncached_value var_type v)

-- int64_t getVarValue(string varName)
unfoldable pub get_value_of : Tables → Text → Exec State ℤ
unfolding get_var_value
get_value_of m x = do
  idx ← get_var_idx m x
  get_var_value (get_or m.variable idx null_variable).attrs

-- int64_t getVarSize(const Json::Value &var)
unfoldable pub get_var_size : Tables → Variable → Exec State ℤ
unfolding get_var_value
get_var_size m var = elim var.size [
  | size_of size_name ↦ (do
    idx ← get_var_idx m size_name
    get_var_value (get_or m.variable idx null_variable).attrs)
  | fixed n ↦ pure n
]

-- bool isDependencyItem(uint32_t idx)
unfoldable pub is_dependency_item : ℕ → State → Bool
is_dependency_item idx s = (idx == s.depend_idx) || s.is_dependency
