-- ===== src/Writer/Items.antt =====
-- fuzzer-engine/fuzzer/src/parcel_writer.cpp: the writing of one variable, into the data parcel or,
-- inside a raw structure, into its buffer.
--
-- The generators of structures, unions, arrays, functions, blobs, files and binders, and the solver
-- of dependencies, are the record `Parts`.
use fans.Base.{
  ℕ, zero, suc, ◌+◌, ◌/◌, ◌%◌, Bool, true, false, List, [], ◌∷◌, Option, if◌then◌else◌, ltb, get_or,
}
use fans.Base.Text.{Text, codes, text_eq, c_str}
use fans.Base.Int.{ℤ, pos, to_i32, to_u32, to_i64, to_u64}
use fans.Base.Map.{put}
use fans.Exec.{Exec, pure, exit, modify, ◌>>=◌, ◌>>◌, raw_mode, not_raw}
use fans.Random.{random_uint64, n_out_of}
use fans.Scalars.{generate_bool, generate_float, generate_double}
use fans.VarType.{
  VarType, integer_literal, uint8_type, int8_type, int16_type, uint16_type, int32_type, int64_type,
  uint32_type, uint64_type, file_descriptor_type, float_type, double_type, string16_type,
  string8_type, cstring_type, strong_binder_type, bool_type, parcel_structure_type,
  flattenable_structure_type, light_flattenable_structure_type, raw_structure_type, union_type,
  array_type, function_type, blob_type, is_type,
}
use fans.Calls.{
  Call, write_int32, write_int64, write_uint32, write_uint64, write_float, write_double, write_bool,
  write_string16, write_interface_token, write_string8, write_cstring, write_utf8_as_utf16,
  write_file_descriptor, write_strong_binder, write_bytes, poke_byte,
}
use fans.Model.{Tables, Variable, null_variable}
use fans.State.{State, draw, draw_text}
use fans.TypeMap.{get_var_type_enum}
use fans.Parcel.Store.{
  Value, i32, u32, i64, u64, float, double, boolean, text, store_value, reset_self_constraints,
  erase_struct_status,
}
use fans.Checker.{Floats}
use fans.Checker.Special.{
  Kind, int_kind, uint_kind, int64_kind, uint64_kind, string_kind, float_kind, double_kind,
  bool_kind,
}
use fans.IntType.Choices.{generate_int}
use fans.Strings.{Seeds}
use fans.Strings.Choice.{generate_string}
use fans.Writer.{generate, write_raw_to_data}

pub record Parts : Type 0 where
  -- generate, generateFlattenable, generateLightFlattenable and generateRaw of StructureType
  pub write_structure : Variable → Exec State (Unit {0})
  pub write_flattenable : Variable → Exec State (Unit {0})
  pub write_light_flattenable : Variable → Exec State (Unit {0})
  pub raw_structure : Variable → Exec State (List ℕ)
  -- generateRaw of UnionType and ArrayType, generate of ArrayType, FunctionType and BlobType
  pub raw_union : Variable → Exec State (List ℕ)
  pub raw_array : Variable → Exec State (List ℕ)
  pub write_array : Variable → Exec State (Unit {0})
  pub write_function : Variable → Exec State (Unit {0})
  pub write_blob : Variable → Exec State (Unit {0})
  -- generate of FDType and BinderType
  pub generate_fd : Variable → Exec State ℤ
  pub generate_binder : Variable → Exec State (Option ℕ)
  -- a DependencySolver for a binder or not: canUseDependency, and solve with its binder
  pub can_use_dependency : Bool → Variable → Exec State Bool
  pub solve : Bool → Variable → Exec State (Option ℕ)
  -- String16(const char *)
  pub to_utf16 : Text → List ℕ
  -- what `T value;` holds before it is assigned
  pub uninitialised : Kind → Value

-- The bytes of a number, the lowest first.
unfoldable pub little_endian : ℕ → ℕ → List ℕ
little_endian zero v = []
little_endian (suc n) v = (v % 256) ∷ little_endian n (v / 256)

-- writeRawToData((void *)&value, sizeof(value)); a bool is written as a uint32_t.
unfoldable pub bytes_of : Value → List ℕ
bytes_of (i32 n) = little_endian 4 (to_u32 n)
bytes_of (u32 n) = little_endian 4 n
bytes_of (i64 n) = little_endian 8 (to_u64 n)
bytes_of (u64 n) = little_endian 8 n
bytes_of (float n) = little_endian 4 n
bytes_of (double n) = little_endian 8 n
bytes_of (boolean b) = little_endian 4 (if b then 1 else 0)
bytes_of (text t) = []

-- data->writeInt32(value) and so on, by the type of the value.
unfoldable pub call_of : Value → Call
call_of (i32 n) = write_int32 n
call_of (u32 n) = write_uint32 n
call_of (i64 n) = write_int64 n
call_of (u64 n) = write_uint64 n
call_of (float n) = write_float n
call_of (double n) = write_double n
call_of (boolean b) = write_bool b
call_of (text t) = write_cstring t

abbrev pub text_of : Value → Text
text_of (text t) = t
text_of _ = []

abbrev pub int_of : Value → ℤ
int_of (i32 n) = n
int_of _ = pos 0

-- A call on the data parcel, and bytes for the buffer of the raw structure.
abbrev pub put_call : Call → Exec State (Unit {0})
put_call call = modify (λ s. record s { written = call ∷ s.written })

abbrev pub put_raw : List ℕ → Exec State (Unit {0})
put_raw bytes = modify (λ s. record s { raw_data = write_raw_to_data bytes s.raw_data })

-- if (isRaw) ... else ...
unfoldable pub by_mode : Exec State (Unit {0}) → Exec State (Unit {0}) → Exec State (Unit {0})
by_mode raw parcel s = if s.is_raw then raw s else parcel s

module _ (floats : Floats) (m : Tables) (seeds : Seeds) (patience : ℕ) (parts : Parts)
    (variable : Variable) where
  -- IntType<T>::generate, for a T of `width` bits
  abbrev pub draw_int : ℕ → Exec State ℕ
  draw_int width =
      draw (generate_int seeds.platform seeds.enum_info width variable.name variable.type)

  -- type->generate() of the types that parcel_writer.cpp generates values of
  unfoldable pub produce : Kind → Exec State Value
  produce int_kind = do v ← draw_int 32; pure (i32 (to_i32 v))
  produce uint_kind = do v ← draw_int 32; pure (u32 v)
  produce int64_kind = do v ← draw_int 64; pure (i64 (to_i64 v))
  produce uint64_kind = do v ← draw_int 64; pure (u64 v)
  produce string_kind = do
    t ← draw_text (generate_string patience seeds variable.name)
    pure (text t)
  produce float_kind = do v ← draw generate_float; pure (float v)
  produce double_kind = do v ← draw generate_double; pure (double v)
  produce bool_kind = do b ← draw generate_bool; pure (boolean b)

  abbrev pub generate_kind : Kind → Exec State Value
  generate_kind kind = generate floats m variable (produce kind) kind (parts.uninitialised kind)

  -- writeInt8, writeUint8, writeInt16 and writeUint16, for numbers of `size` bytes
  unfoldable pub write_small : ℕ → ℕ → Exec State (Unit {0})
  write_small size width = do
    v ← draw_int width
    by_mode (put_raw (little_endian size v)) (exit not_raw)

  -- writeInt32, writeUint32, writeInt64, writeUint64, writeFloat and writeDouble
  unfoldable pub write_number : Kind → Exec State (Unit {0})
  write_number kind = do
    v ← generate_kind kind
    by_mode (put_raw (bytes_of v)) (put_call (call_of v))

  -- void writeBool()
  unfoldable pub write_boolean : Exec State (Unit {0})
  write_boolean = do
    v ← generate_kind bool_kind
    by_mode (put_raw (bytes_of v)) (
        if variable.members.flattenable
        then (do tmp ← draw (random_uint64 0 255); put_call (poke_byte tmp))
        else put_call (call_of v))

  -- void writeString16()
  unfoldable pub write_text16 : Exec State (Unit {0})
  write_text16 =
      if text_eq variable.name (codes "ServiceInterfaceDescriptor")
      then (do
        token ← (λ s. pure s.interface_token s)
        by_mode (exit raw_mode) (put_call (write_interface_token (parts.to_utf16 (c_str token))))
        store_value m variable.name (text token))
      else (do
        v ← generate_kind string_kind
        by_mode (exit raw_mode) (put_call (write_string16 (parts.to_utf16 (c_str (text_of v))))))

  -- void writeString8()
  unfoldable pub write_text8 : Exec State (Unit {0})
  write_text8 = do
    v ← generate_kind string_kind
    by_mode (exit raw_mode) (put_call (write_string8 (c_str (text_of v))))

  -- void writeCString()
  unfoldable pub write_c_text : Exec State (Unit {0})
  write_c_text = do
    v ← generate_kind string_kind
    by_mode (exit raw_mode) (
        put_call (
          if variable.members.utf8
          then write_utf8_as_utf16 (text_of v)
          else write_cstring (c_str (text_of v))))

  -- void writeFileDescriptor(): inside a flattenable they are only counted.
  abbrev count_fd : State → State
  count_fd s = record s { fd_count = (s.fd_count + 1) % 4294967296 }

  abbrev write_fd : Exec State (Unit {0})
  write_fd = do
    fd ←
        generate floats m variable (parts.generate_fd variable >>= λ n. pure (i32 n)) int_kind
          (parts.uninitialised int_kind)
    put_call (write_file_descriptor (int_of fd) variable.members.take_ownership)

  unfoldable pub write_file : Exec State (Unit {0})
  write_file =
      by_mode (exit raw_mode)
        (λ s. if ltb 0 s.flattenable_level then modify count_fd s else write_fd s)

  -- void writeStrongBinder()
  unfoldable pub write_binder : Exec State (Unit {0})
  write_binder = do
    b ← parts.generate_binder variable
    by_mode (exit raw_mode) (put_call (write_strong_binder b))

  -- void writeParcelStructure() and the two for flattenables
  unfoldable pub write_parcel_structure : Exec State (Unit {0})
  write_parcel_structure = do
    (if variable.members.have_parcelable then put_call (write_int32 (pos 1)) else pure tt)
    parts.write_structure variable
    erase_struct_status variable.type

  unfoldable pub write_flattenable_structure : Exec State (Unit {0})
  write_flattenable_structure =
      parts.write_flattenable variable >> erase_struct_status variable.type

  unfoldable pub write_light_flattenable_structure : Exec State (Unit {0})
  write_light_flattenable_structure =
      parts.write_light_flattenable variable >> erase_struct_status variable.type

  -- void writeRawStructure()
  unfoldable pub write_raw_structure : Exec State (Unit {0})
  write_raw_structure = do
    bytes ← parts.raw_structure variable
    by_mode (put_raw bytes) (put_call (write_bytes bytes))
    erase_struct_status variable.type

  -- void writeUnion()
  unfoldable pub write_union : Exec State (Unit {0})
  write_union = do
    bytes ← parts.raw_union variable
    by_mode (put_raw bytes) (put_call (write_bytes bytes))

  -- void writeFunction()
  unfoldable pub write_function_call : Exec State (Unit {0})
  write_function_call =
      parts.write_function variable >> erase_struct_status variable.members.func_name

  -- void writeArray() and void writeBlob()
  unfoldable pub write_array_items : Exec State (Unit {0})
  write_array_items =
      by_mode (do bytes ← parts.raw_array variable; put_raw bytes) (parts.write_array variable)

  unfoldable pub write_blob_bytes : Exec State (Unit {0})
  write_blob_bytes = by_mode (exit raw_mode) (parts.write_blob variable)

  -- void generateManually(VarType varTypeEnum)
  unfoldable pub generate_manually : VarType → Exec State (Unit {0})
  generate_manually int8_type = write_small 1 8
  generate_manually uint8_type = write_small 1 8
  generate_manually int16_type = write_small 2 16
  generate_manually uint16_type = write_small 2 16
  generate_manually int32_type = write_number int_kind
  generate_manually uint32_type = write_number uint_kind
  generate_manually int64_type = write_number int64_kind
  generate_manually uint64_type = write_number uint64_kind
  generate_manually string16_type = write_text16
  generate_manually string8_type = write_text8
  generate_manually cstring_type = write_c_text
  generate_manually file_descriptor_type = write_file
  generate_manually float_type = write_number float_kind
  generate_manually double_type = write_number double_kind
  generate_manually bool_type = write_boolean
  generate_manually parcel_structure_type = write_parcel_structure
  generate_manually flattenable_structure_type = write_flattenable_structure
  generate_manually light_flattenable_structure_type = write_light_flattenable_structure
  generate_manually raw_structure_type = write_raw_structure
  generate_manually union_type = write_union
  generate_manually strong_binder_type = write_binder
  generate_manually array_type = write_array_items
  generate_manually function_type = write_function_call
  generate_manually blob_type = write_blob_bytes
  generate_manually integer_literal = put_call (write_int32 variable.value.as_int)

  -- The branches of write for a variable with dependencies.
  unfoldable pub solve_dependency : VarType → Exec State (Unit {0})
  solve_dependency type =
      if is_type type strong_binder_type
      then (do
        can ← parts.can_use_dependency true variable
        if can
            then (do b ← parts.solve true variable; put_call (write_strong_binder b))
            else generate_manually type)
      else (do
        can ← parts.can_use_dependency false variable
        if can then (parts.solve false variable >> pure tt) else generate_manually type)

  unfoldable pub write_by_type : VarType → Exec State (Unit {0})
  write_by_type type =
      if ltb 0 variable.members.dependencies
      then (do
        depends ← draw (n_out_of 7 10)
        if depends then solve_dependency type else generate_manually type)
      else generate_manually type

  -- void write()
  unfoldable pub write : Exec State (Unit {0})
  write = do
    modify (λ s. record s { is_var_cached = put variable.name false s.is_var_cached })
    type ← get_var_type_enum variable.type
    write_by_type type
    reset_self_constraints m variable.name

-- The use of the writer in readWriteItem.
abbrev pub write_item : Floats → Tables → Seeds → ℕ → Parts → ℕ → Exec State (Unit {0})
write_item floats m seeds patience parts i =
    write floats m seeds patience parts (get_or m.variable i null_variable)
