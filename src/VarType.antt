-- ===== src/VarType.antt =====
-- fuzzer-engine/fuzzer/include/fuzzer/types/types.h: `VarType`, in the order of the enum.
use fans.Base.{ℕ, Bool, ◌==◌}

pub data VarType : Type 0 where
  integer_literal uint8_type int8_type int16_type uint16_type int32_type int64_type : VarType
  uint32_type uint64_type file_descriptor_type float_type double_type : VarType
  string16_type string8_type cstring_type strong_binder_type bool_type : VarType
  parcel_structure_type flattenable_structure_type light_flattenable_structure_type : VarType
  raw_structure_type union_type array_type function_type blob_type : VarType

-- The value of the enumerator.
abbrev ordinal : VarType → ℕ
ordinal integer_literal = 0
ordinal uint8_type = 1
ordinal int8_type = 2
ordinal int16_type = 3
ordinal uint16_type = 4
ordinal int32_type = 5
ordinal int64_type = 6
ordinal uint32_type = 7
ordinal uint64_type = 8
ordinal file_descriptor_type = 9
ordinal float_type = 10
ordinal double_type = 11
ordinal string16_type = 12
ordinal string8_type = 13
ordinal cstring_type = 14
ordinal strong_binder_type = 15
ordinal bool_type = 16
ordinal parcel_structure_type = 17
ordinal flattenable_structure_type = 18
ordinal light_flattenable_structure_type = 19
ordinal raw_structure_type = 20
ordinal union_type = 21
ordinal array_type = 22
ordinal function_type = 23
ordinal blob_type = 24

abbrev pub is_type : VarType → VarType → Bool
is_type a b = ordinal a == ordinal b
