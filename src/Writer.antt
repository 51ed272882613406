-- ===== src/Writer.antt =====
-- fuzzer-engine/fuzzer/src/parcel_writer.cpp: the generation of the value of one variable, and the
-- bytes that a raw structure gets.
pub mod Total
pub mod Bytes
pub mod Items
pub mod Kinds
pub mod Writes
use fans.Base.{
  ℕ, zero, suc, ◌+◌, ◌-◌, ◌==◌, ◌%◌, Bool, true, false, List, [], ◌∷◌, ◌++◌, Option, none, some,
  if◌then◌else◌, length, replicate,
}
use fans.Base.Text.{Text}
use fans.Exec.{Exec, pure, ◌>>=◌, ◌>>◌}
use fans.Model.{Node, Tables, Variable, max_depth}
use fans.State.{State}
use fans.Parcel.Store.{Value, store_value}
use fans.Parcel.Select.{select_one_self_constraint}
use fans.Checker.{Floats, check_constraint_set}
use fans.Checker.Special.{Kind, get_value_from_special_self_constraint, get_try_count}

module _ (floats : Floats) (m : Tables) (var : Variable) (produce : Exec State Value) where
  -- The loop of generate: `tries` are left, and `value` is what the variable holds so far.
  pub try_generate : List Node → ℕ → Value → Exec State Value
  try_generate cs zero value = pure value
  try_generate cs (suc tries) value =
      let again = try_generate cs tries in
      do
        next ← produce
        store_value m var.name next
        satisfied ← check_constraint_set floats m (max_depth cs + 3) cs
        if satisfied then pure next else again next

  pub generate_for : List Node → Value → Option Value → Exec State Value
  generate_for cs uninitialised (some value) = store_value m var.name value >> pure value
  generate_for cs uninitialised none = try_generate cs (get_try_count cs) uninitialised

  -- template <typename T> T generate(BaseType<T> *type), where `produce` is type->generate() and
  -- `uninitialised` is what `T value;` holds before it is assigned.
  pub generate : Kind → Value → Exec State Value
  generate kind uninitialised = do
    self_constraint ← select_one_self_constraint m var
    special ← get_value_from_special_self_constraint floats m kind self_constraint
    generate_for self_constraint uninitialised special

-- strncpy(dest, buffer, len) of a buffer of `len` bytes: what follows a 0 byte is 0.
pub strncpy : List ℕ → List ℕ
strncpy [] = []
strncpy (b ∷ bs) = let rest = strncpy bs in b ∷ (if b == 0 then replicate (length bs) 0 else rest)

-- void writeRawToData(const void *buffer, size_t len)
abbrev pub write_raw_to_data : List ℕ → List ℕ → List ℕ
write_raw_to_data buffer raw_data = raw_data ++ strncpy buffer
