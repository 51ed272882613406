-- ===== src/Calls.antt =====
-- What the program asks of android::Parcel: the calls that write, and those that read.
--
-- The class is Android's. A parcel that is written is the list of the calls made on it, and what a
-- call that reads answers may depend on all the calls before it, so that nothing is assumed of it.
use fans.Base.{ℕ, Bool, List, Option}
use fans.Base.Text.{Text}
use fans.Base.Int.{ℤ}

-- Floats are bit patterns, a string of 16-bit characters is the list of these, a binder is a number
-- and NULL is `none`. `write_bytes` is write(buffer, len). `poke_byte` is memcpy to data() of one
-- byte and the step of the position over it, and `write_inplace` is writeInplace(len) with the memcpy
-- to what it returns.
pub data Call : Type 0 where
  write_int32 write_int64 : ℤ → Call
  write_uint32 write_uint64 write_float write_double : ℕ → Call
  write_bool : Bool → Call
  write_string16 write_interface_token : List ℕ → Call
  write_string8 write_cstring write_utf8_as_utf16 : Text → Call
  write_file_descriptor : ℤ → Bool → Call
  write_strong_binder : Option ℕ → Call
  write_bytes : List ℕ → Call
  poke_byte : ℕ → Call
  set_data_position : ℕ → Call
  write_inplace : List ℕ → Call
  write_dup_file_descriptor : ℤ → Call

pub data Read : Type 0 where
  read_int32 read_uint32 read_int64 read_uint64 read_float read_double read_bool : Read
  read_string16 read_string8 read_cstring read_utf8_from_utf16 : Read
  read_file_descriptor read_strong_binder read_exception_code peek_byte : Read
  read_byte_vector : Read
  read_bytes read_blob read_inplace : ℕ → Read

-- The answers, given the calls that were made before, the last first.
pub record Reply : Type 0 where
  pub int32 : List Read → ℤ
  pub uint32 : List Read → ℕ
  pub int64 : List Read → ℤ
  pub uint64 : List Read → ℕ
  pub float : List Read → ℕ
  pub double : List Read → ℕ
  pub bool : List Read → Bool
  pub string16 : List Read → List ℕ
  pub string8 : List Read → Text
  pub cstring : List Read → Option Text
  pub utf8_from_utf16 : List Read → Text
  pub file_descriptor : List Read → ℤ
  pub strong_binder : List Read → Option ℕ
  pub exception_code : List Read → ℤ
  pub first_byte : List Read → Bool
  pub bytes : List Read → List ℕ
  pub byte_vector : List Read → List ℕ
  pub blob : List Read → List ℕ
  pub inplace : List Read → List ℕ
  -- String8(String16)
  pub to_utf8 : List ℕ → Text
