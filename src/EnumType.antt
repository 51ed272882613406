-- ===== src/EnumType.antt =====
-- fuzzer-engine/fuzzer/src/types/enum_type.cpp: values of enumerations, and the type to which the
-- name in the first line of an enumeration's file promotes it. The loop over the directory is I/O
-- and is not modelled; the table that it fills is an argument.
use fans.Base.{
  ℕ, Bool, false, ◌||◌, List, [], ◌∷◌, ◌++◌, Option, none, some, if◌then◌else◌, length, get_or,
}
use Prim.Native.String.{String}
use fans.Base.Text.{Text, codes, text_eq, contains}
use fans.Base.Map.{Map, get}
use fans.Exec.{Exec, pure, exit, ◌>>=◌, unknown_enum}
use fans.Random.{Rng, random_uint64}
use fans.VarType.{
  VarType, int8_type, uint8_type, uint16_type, int32_type, int64_type, uint32_type, uint64_type,
}

abbrev pub uint64_max : ℕ
uint64_max = 18446744073709551615

-- enumInfo[varType][idx] for a random idx
unfoldable pub one_of : List ℕ → Exec Rng ℕ
one_of [] = random_uint64 0 uint64_max
one_of (v ∷ vs) = do idx ← random_uint64 0 (length vs); pure (get_or (v ∷ vs) idx 0)

-- int64_t randomEnum(string varType). The values are 64-bit patterns.
unfoldable pub random_enum : Map (List ℕ) → Text → Exec Rng ℕ
random_enum enum_info var_type = elim (get var_type enum_info) [
  | some values ↦ one_of values
  | none ↦ elim (get (codes "enum " ++ var_type) enum_info) [
    | some values ↦ one_of values
    | none ↦ exit unknown_enum
  ]
]

abbrev any_of : Text → List String → Bool
any_of t [] = false
any_of t (x ∷ xs) = text_eq t (codes x) || any_of t xs

-- The branches of initEnumInfo on the promotion type; `none` skips the file.
promote : Text → Option VarType
promote t =
    if any_of t ("int32_t" ∷ "int" ∷ "std::int32_t" ∷ [])
    then some int32_type
    else if any_of t ("unsigned int" ∷ "uint32_t" ∷ "size_t" ∷ [])
    then some uint32_type
    else if any_of t ("uint64_t" ∷ "unsigned long long" ∷ "__u64" ∷ "unsigned long" ∷ [])
    then some uint64_type
    else if any_of t ("int64_t" ∷ "long long" ∷ "long" ∷ [])
    then some int64_type
    else if contains t (codes "dependent")
    then some int64_type
    else if any_of t ("uint8_t" ∷ "unsigned char" ∷ [])
    then some uint8_type
    else if any_of t ("char" ∷ [])
    then some int8_type
    else if any_of t ("uint16_t" ∷ [])
    then some uint16_type
    else if any_of t ("android::vintf::RuntimeInfo::FetchFlags" ∷ [])
    then some uint32_type
    else if any_of t ("google::protobuf::internal::AtomicWord" ∷ [])
    then some int32_type
    else none
