-- ===== src/TypeMap.antt =====
-- fuzzer-engine/fuzzer/src/types/types.cpp: the global `varTypeMap`.
pub mod Aliases
use fans.Base.{
  ◌+◌, ◌≡◌, refl, Bool, ◌&&◌, ◌||◌, List, [], ◌∷◌, Option, none, some, if◌then◌else◌, ◌==◌, arith,
  inl, inr, Bool-cases, Option-cases, true, false,
}
use fans.Base.Text.{Text, codes, contains, text_eq, text_eq_iff}
use fans.Base.Map.{Map, get, put, get-put}
use fans.Exec.{Exec, pure, exit, unknown_type}
use fans.State.{State}
use fans.VarType.{
  VarType, array_type, blob_type, bool_type, cstring_type, double_type, file_descriptor_type,
  float_type, function_type, int16_type, int32_type, int64_type, int8_type, integer_literal,
  string16_type, string8_type, strong_binder_type, uint16_type, uint32_type, uint64_type,
  uint8_type,
}

-- The assignments at the head of `initVarTypeMap`, in their order.
abbrev builtin_types : List (Text × VarType)
builtin_types =
    (codes "IntegerLiteral", integer_literal)
    ∷ (codes "char", int8_type)
    ∷ (codes "unsigned char", uint8_type)
    ∷ (codes "short", int16_type)
    ∷ (codes "unsigned short", uint16_type)
    ∷ (codes "int", int32_type)
    ∷ (codes "int32_t", int32_type)
    ∷ (codes "::android::status_t", int32_type)
    ∷ (codes "uint32_t", uint32_type)
    ∷ (codes "unsigned int", uint32_type)
    ∷ (codes "const int64_t", int64_type)
    ∷ (codes "int64_t", int64_type)
    ∷ (codes "long", int64_type)
    ∷ (codes "long long", int64_type)
    ∷ (codes "uint64_t", uint64_type)
    ∷ (codes "unsigned long", uint64_type)
    ∷ (codes "unsigned long long", uint64_type)
    ∷ (codes "float", float_type)
    ∷ (codes "FloatingLiteral", float_type)
    ∷ (codes "class android::half", float_type)
    ∷ (codes "double", double_type)
    ∷ (codes "android::String16", string16_type)
    ∷ (codes "class android::String16", string16_type)
    ∷ (codes "char16_t *", string16_type)
    ∷ (codes "android::String8", string8_type)
    ∷ (codes "class android::String8", string8_type)
    ∷ (codes "const class android::String8", string8_type)
    ∷ (codes "string", cstring_type)
    ∷ (codes "std::string", cstring_type)
    ∷ (codes "char *", cstring_type)
    ∷ (codes "const char *", cstring_type)
    ∷ (codes "unsigned char *", cstring_type)
    ∷ (codes "FileDescriptor", file_descriptor_type)
    ∷ (codes "_Bool", bool_type)
    ∷ (codes "bool", bool_type)
    ∷ (codes "FileDescriptor", file_descriptor_type)
    ∷ (codes "Function", function_type)
    ∷ (codes "class android::Parcel::Blob", blob_type)
    ∷ []

assign_all : List (Text × VarType) → Map VarType → Map VarType
assign_all [] m = m
assign_all ((t, v) ∷ rest) m = assign_all rest (put t v m)

-- A line "type+under" of typemap.txt at its first plus sign. A line without one is its own `under`,
-- since npos + 1 is 0.
unfoldable pub before_plus : Text → Text
before_plus [] = []
before_plus (c ∷ s) = let rest = before_plus s in if c == b'+' then [] else c ∷ rest

unfoldable pub after_plus : Text → Option Text
after_plus [] = none
after_plus (c ∷ s) = let rest = after_plus s in if c == b'+' then some s else rest

abbrev pub under_of : Text → Text
under_of line = elim (after_plus line) [ none ↦ line | some u ↦ u ]

-- The body of the loop over the lines: only a type that is not recorded is added.
pub add_alias : Text → Text → Map VarType → Map VarType
add_alias type under m = elim (get type m) [
  | some _ ↦ m
  | none ↦ elim (get under m) [ none ↦ m | some v ↦ put type v m ]
]

abbrev pub add_line : Text → Map VarType → Map VarType
add_line [] m = m
add_line (c ∷ s) m = add_alias (before_plus (c ∷ s)) (under_of (c ∷ s)) m

pub load_type_map : List Text → Map VarType → Map VarType
load_type_map [] m = m
load_type_map (line ∷ lines) m = load_type_map lines (add_line line m)

-- initVarTypeMap(), given the lines of typemap.txt
init_var_type_map : List Text → Map VarType → Map VarType
unfolding assign_all load_type_map
init_var_type_map lines m = load_type_map lines (assign_all builtin_types m)

-- VarType getVarTypeEnum(string varType), on the map; `none` is its exit(0).
abbrev pub type_of : Map VarType → Text → Option VarType
type_of types t = elim (get t types) [
  | some v ↦ some v
  | none ↦
      if contains t (codes "vector<")
        || contains t (codes "Vector<")
        || contains t (codes "[")
        || contains t (codes "*")
      then some array_type
      else if contains t (codes "sp<") && contains t (codes "::I")
      then some strong_binder_type
      else none
]

unfoldable pub get_var_type_enum : Text → Exec State VarType
get_var_type_enum t s = elim (type_of s.types t) [ some v ↦ pure v s | none ↦ exit unknown_type s ]

-- varTypeMap[t]: a type that is missing is added with the enumerator 0.
unfoldable pub type_at : Text → Exec State VarType
type_at t s = elim (get t s.types) [
  | some v ↦ pure v s
  | none ↦ pure integer_literal (record s { types = put t integer_literal s.types })
]
