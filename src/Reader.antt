-- ===== src/Reader.antt =====
-- fuzzer-engine/fuzzer/src/parcel_reader.cpp: the reading of one variable from the reply, and its
-- copy to the parcel of the transaction that depends on it.
--
-- The readers of structures, arrays, functions and blobs are the record `Parts`. isRaw is set before
-- a reader is made and does not change while it reads.
pub mod Transfers
pub mod Copies
pub mod Total
use fans.Base.{
  ℕ, ◌^◌, ◌==◌, Bool, true, false, List, [], ◌∷◌, Option, none, some, if◌then◌else◌, get_or,
}
use fans.Base.Text.{Text, codes, text_eq, c_str}
use fans.Base.Int.{ℤ, pos, negsuc, to_i32, to_u32, to_u64}
use fans.Exec.{
  Exec, done, exits, pure, exit, modify, ◌>>=◌, ◌>>◌, unreadable, raw_mode, unsized, no_structure,
}
use fans.VarType.{
  VarType, integer_literal, uint8_type, int8_type, int16_type, uint16_type, int32_type, int64_type,
  uint32_type, uint64_type, file_descriptor_type, float_type, double_type, string16_type,
  string8_type, cstring_type, strong_binder_type, bool_type, parcel_structure_type,
  flattenable_structure_type, light_flattenable_structure_type, raw_structure_type, union_type,
  array_type, function_type, blob_type,
}
use fans.Calls.{
  Call, Read, Reply, write_int32, write_int64, write_uint32, write_uint64, write_float,
  write_double, write_bool, write_string16, write_string8, write_cstring, write_file_descriptor,
  write_bytes, read_int32, read_uint32, read_int64, read_uint64, read_float, read_double, read_bool,
  read_string16, read_string8, read_cstring, read_utf8_from_utf16, read_file_descriptor,
  read_strong_binder, read_exception_code, peek_byte, read_bytes,
}
use fans.Model.{Tables, Variable, null_variable}
use fans.State.{State}
use fans.TypeMap.{get_var_type_enum}
use fans.Parcel.Lookup.{get_var_size}
use fans.Parcel.Store.{
  Value, i32, u32, i64, u64, float, double, boolean, text, store_value, reset_self_constraints,
}

-- read of StructureType, readFlattenable, readLightFlattenable, and read of ArrayType, FunctionType
-- and BlobType, for a variable; and whether a table of structures has a type, without which the
-- constructor of StructureType ends the process.
pub record Parts : Type 0 where
  pub read_structure : Variable → Exec State (Unit {0})
  pub read_flattenable : Variable → Exec State (Unit {0})
  pub read_light_flattenable : Variable → Exec State (Unit {0})
  pub read_array : Variable → Exec State (Unit {0})
  pub read_function : Variable → Exec State (Unit {0})
  pub read_blob : Variable → Exec State (Unit {0})
  pub is_structure : Text → Bool

-- A call on the reply.
abbrev pub ask : {A : Type 0} → Read → (List Read → A) → Exec State A
ask call answer s = done (answer s.reply, record s { reply = call ∷ s.reply })

-- void checkIsRaw()
unfoldable pub check_is_raw : Exec State (Unit {0})
check_is_raw s = if s.is_raw then exits raw_mode else done (tt, s)

-- if (parcelReaderWriter->isDependency) targetParcel->write...(value);
abbrev pub forward : Call → Exec State (Unit {0})
forward call = modify (λ s. if s.is_dependency then record s { target = call ∷ s.target } else s)

-- A string that may be NULL.
abbrev pub or_empty : Option Text → Text
or_empty none = []
or_empty (some s) = c_str s

module _ (m : Tables) (replies : Reply) (parts : Parts) (variable : Variable) where
  -- What the readers of numbers and strings do: a call on the reply, the value that is stored, and
  -- the call on the target parcel.
  unfoldable pub read_plain :
      {A : Type 0} → Read → (List Read → A) → (A → Value) → (A → Call) → Exec State (Unit {0})
  read_plain call answer stored copied = do
    check_is_raw
    value ← ask call answer
    store_value m variable.name (stored value)
    forward (copied value)

  -- void readInt32() and so on
  abbrev pub read_int32_value : Exec State (Unit {0})
  read_int32_value = read_plain read_int32 replies.int32 i32 write_int32

  abbrev pub read_uint32_value : Exec State (Unit {0})
  read_uint32_value = read_plain read_uint32 replies.uint32 u32 write_uint32

  abbrev pub read_int64_value : Exec State (Unit {0})
  read_int64_value = read_plain read_int64 replies.int64 i64 write_int64

  abbrev pub read_uint64_value : Exec State (Unit {0})
  read_uint64_value = read_plain read_uint64 replies.uint64 u64 write_uint64

  abbrev pub read_float_value : Exec State (Unit {0})
  read_float_value = read_plain read_float replies.float float write_float

  abbrev pub read_double_value : Exec State (Unit {0})
  read_double_value = read_plain read_double replies.double double write_double

  abbrev pub read_string16_value : Exec State (Unit {0})
  read_string16_value =
      read_plain read_string16 replies.string16 (λ v. text (c_str (replies.to_utf8 v)))
        write_string16

  abbrev pub read_string8_value : Exec State (Unit {0})
  read_string8_value = read_plain read_string8 replies.string8 (λ v. text (c_str v)) write_string8

  abbrev pub read_file_descriptor_value : Exec State (Unit {0})
  read_file_descriptor_value =
      read_plain read_file_descriptor replies.file_descriptor i32
        (λ fd. write_file_descriptor fd false)

  -- void readCString()
  unfoldable pub read_cstring_value : Exec State (Unit {0})
  read_cstring_value =
      if variable.members.utf8
      then read_plain read_utf8_from_utf16 replies.utf8_from_utf16 text
          (λ v. write_cstring (c_str v))
      else read_plain read_cstring (λ calls. or_empty (replies.cstring calls)) text
          (λ v. write_cstring (c_str v))

  -- void readBool()
  unfoldable pub read_bool_value : Exec State (Unit {0})
  read_bool_value =
      if variable.members.flattenable
      then read_plain peek_byte replies.first_byte boolean write_bool
      else read_plain read_bool replies.bool boolean write_bool

  -- void readIntegerLiteral()
  abbrev pub read_integer_literal : Exec State (Unit {0})
  read_integer_literal = ask read_int32 replies.int32 >> pure tt

  abbrev keep_binder : Option ℕ → State → State
  keep_binder b s = if s.is_dependency then record s { binder = b } else s

  -- void readStrongBinder()
  unfoldable pub read_binder : Exec State (Unit {0})
  read_binder = do
    check_is_raw
    b ← ask read_strong_binder replies.strong_binder
    modify (keep_binder b)

  -- void readParcelStructure()
  unfoldable pub read_parcel_structure : Exec State (Unit {0})
  read_parcel_structure =
      if text_eq variable.type (codes "class android::binder::Status")
      then (do
        e ← ask read_exception_code replies.exception_code
        modify (λ s. record s { exception_code = e })
        store_value m (codes "mException") (i32 (pos 0)))
      else if variable.members.have_parcelable
      then (ask read_int32 replies.int32 >> parts.read_structure variable)
      else parts.read_structure variable

  -- The bytes of a raw structure of varSize bytes; a negative size is too large for resize.
  unfoldable pub read_raw_bytes : ℤ → Exec State (Unit {0})
  read_raw_bytes (pos n) = do
    buffer ← ask (read_bytes n) replies.bytes
    forward (write_bytes buffer)
  read_raw_bytes (negsuc n) = exit unsized

  -- void readRawStructure()
  unfoldable pub read_raw_structure : Exec State (Unit {0})
  read_raw_structure =
      if parts.is_structure variable.type
      then (do size ← get_var_size m variable; read_raw_bytes (to_i32 (to_u64 size)))
      else exit no_structure

  -- The switch of read.
  unfoldable pub read_by_type : VarType → Exec State (Unit {0})
  read_by_type int8_type = exit unreadable
  read_by_type uint8_type = exit unreadable
  read_by_type int16_type = exit unreadable
  read_by_type uint16_type = exit unreadable
  read_by_type int32_type = read_int32_value
  read_by_type uint32_type = read_uint32_value
  read_by_type int64_type = read_int64_value
  read_by_type uint64_type = read_uint64_value
  read_by_type string16_type = read_string16_value
  read_by_type string8_type = read_string8_value
  read_by_type cstring_type = read_cstring_value
  read_by_type file_descriptor_type = read_file_descriptor_value
  read_by_type float_type = read_float_value
  read_by_type double_type = read_double_value
  read_by_type bool_type = read_bool_value
  read_by_type parcel_structure_type = read_parcel_structure
  read_by_type flattenable_structure_type = parts.read_flattenable variable
  read_by_type light_flattenable_structure_type = parts.read_light_flattenable variable
  read_by_type raw_structure_type = read_raw_structure
  read_by_type union_type = exit unreadable
  read_by_type strong_binder_type = read_binder
  read_by_type array_type = parts.read_array variable
  read_by_type function_type = parts.read_function variable
  read_by_type blob_type = parts.read_blob variable
  read_by_type integer_literal = read_integer_literal

  -- void read()
  unfoldable pub read : Exec State (Unit {0})
  read = do
    type ← get_var_type_enum variable.type
    read_by_type type
    reset_self_constraints m variable.name

-- The use of the reader in readWriteItem.
abbrev pub read_item : Tables → Reply → Parts → ℕ → Exec State (Unit {0})
read_item m replies parts i = read m replies parts (get_or m.variable i null_variable)
