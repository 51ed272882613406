-- ===== src/Exec.antt =====
-- Code that changes a state and may call exit(0), and the ways to reason about it.
--
-- `FUZZER_LOGE(...); exit(0);` ends the process: it is the outcome `exits` with the reason that the
-- message names. `hangs` is a loop of the model that ran out of fuel.
pub mod Total
pub mod Succeeds
pub mod Keeps
pub mod Yields
pub mod Gives

pub data Fault : Type 0 where
  -- random.cpp: uniform_int_distribution with min > max is undefined
  undefined_range : Fault
  -- int_type.h, enum_type.cpp
  bad_probability unknown_enum : Fault
  -- parcel_reader_writer.cpp
  no_variable no_constraint bad_counter_type bad_inc_opcode bad_value_type not_reading : Fault
  -- constraint_checker.cpp
  bad_opcode bad_operand_type bad_constraint bad_not_type bad_self_type bad_special_opcode : Fault
  -- types.cpp, array_type.cpp, structure_type.h, function_type.h, function_type.cpp
  unknown_type bad_array_type no_structure bad_item no_function bad_argument : Fault
  -- dependency_solver.cpp
  no_transaction bad_dependency_type : Fault
  -- a read outside an array
  out_of_bounds : Fault
  -- string_type.cpp: getifaddrs failed
  no_interfaces : Fault
  -- parcel_reader.cpp, parcel_writer.cpp
  unreadable raw_mode not_raw unsized : Fault

pub data Outcome {ℓ} (A : Type ℓ) : Type ℓ where
  done : A → Outcome A
  exits : Fault → Outcome A
  hangs : Outcome A

abbrev pub Exec {ℓ} : Type ℓ → Type ℓ → Type ℓ
Exec S A = S → Outcome (A × S)

module _ {ℓ} {S A : Type ℓ} where
  abbrev pub pure : A → Exec S A
  pure a s = done (a, s)

  abbrev pub exit : Fault → Exec S A
  exit f s = exits f

  abbrev pub fuel_out : Exec S A
  fuel_out s = hangs

module _ {ℓ} {S : Type ℓ} where
  abbrev pub modify : (S → S) → Exec {ℓ} S (Unit {ℓ})
  modify f s = done (tt, f s)

  abbrev pub gets : {A : Type ℓ} → (S → A) → Exec S A
  gets f s = done (f s, s)

infixl 5 ◌>>=◌ ◌>>◌
abbrev pub ◌>>=◌ {ℓ} : {S A B : Type ℓ} → Exec S A → (A → Exec S B) → Exec S B
◌>>=◌ m f s = elim (m s) [ done (a, t) ↦ f a t | exits e ↦ exits e | hangs ↦ hangs ]

abbrev pub ◌>>◌ {ℓ} : {S A B : Type ℓ} → Exec S A → Exec S B → Exec S B
m >> k = m >>= λ _. k
