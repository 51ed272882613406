-- ===== src/Tests/Items.antt =====
-- The properties of the reader and the writer of one variable at concrete inputs.
use fans.Base.{find_index, refl, true, false, [], ◌∷◌, none, arith, length}
use fans.Base.Text.{codes, text_eq}
use fans.Base.Int.{pos}
use fans.Base.Map.{get}
use fans.Exec.{pure}
use fans.Exec.Total.{Always, Total-pure}
use fans.Exec.Yields.{Yields}
use fans.VarType.{int32_type}
use fans.Calls.{Reply, read_int32, write_int32}
use fans.State.{State}
use fans.Parcel.Lookup.{var_idx}
use fans.Parcel.Store.{i32}
use fans.Parcel.Traverse.{start}
use fans.Parcel.Traverse.Walks.{Walks, Walks-preorder}
use fans.Checker.Special.{int_kind, zero_of}
use fans.Reader
use fans.Reader.{read, read_item}
use fans.Reader.Transfers.{Copies, of_int32}
use fans.Reader.Copies.{read_refines}
use fans.Reader.Total.{start_read}
use fans.Writer.Items
use fans.Writer.Items.{generate_manually}
use fans.Writer.Kinds.{is_int}
use fans.Writer.Writes.{Wrote, int32_number, generate_manually_number}
use fans.Tests.{bit_patterns, tables, size, start_state}
use fans.Tests.Strings.{seeds}

-- The n-th call is answered with n.
abbrev pub replies : Reply
replies = record {
  int32 = λ calls. pos (length calls);
  uint32 = λ calls. length calls;
  int64 = λ calls. pos (length calls);
  uint64 = λ calls. length calls;
  float = λ calls. length calls;
  double = λ calls. length calls;
  bool = λ calls. true;
  string16 = λ calls. codes "a";
  string8 = λ calls. codes "a";
  cstring = λ calls. none;
  utf8_from_utf16 = λ calls. codes "a";
  file_descriptor = λ calls. pos 3;
  strong_binder = λ calls. none;
  exception_code = λ calls. pos 0;
  first_byte = λ calls. true;
  bytes = λ calls. 1 ∷ [];
  byte_vector = λ calls. 1 ∷ [];
  blob = λ calls. 1 ∷ [];
  inplace = λ calls. 1 ∷ [];
  to_utf8 = λ s. s;
}

abbrev reader_parts : Reader.Parts
reader_parts = record {
  read_structure = λ v. pure tt;
  read_flattenable = λ v. pure tt;
  read_light_flattenable = λ v. pure tt;
  read_array = λ v. pure tt;
  read_function = λ v. pure tt;
  read_blob = λ v. pure tt;
  is_structure = λ t. true;
}

abbrev writer_parts : Items.Parts
writer_parts = record {
  write_structure = λ v. pure tt;
  write_flattenable = λ v. pure tt;
  write_light_flattenable = λ v. pure tt;
  raw_structure = λ v. pure [];
  raw_union = λ v. pure [];
  raw_array = λ v. pure [];
  write_array = λ v. pure tt;
  write_function = λ v. pure tt;
  write_blob = λ v. pure tt;
  generate_fd = λ v. pure (pos 3);
  generate_binder = λ v. pure none;
  can_use_dependency = λ b v. pure false;
  solve = λ b v. pure none;
  to_utf16 = λ s. s;
  uninitialised = zero_of;
}

abbrev depending : State
depending = record start_state { is_dependency = true }

read_refines_example :
    Yields
      (λ _ t. Copies (codes "size") read_int32 (i32 (pos 0)) (write_int32 (pos 0)) depending t)
      (read tables replies reader_parts size depending)
unfolding var_idx get text_eq find_index
read_refines_example =
    read_refines tables replies reader_parts size 0 refl depending int32_type read_int32
      (i32 (pos 0)) (write_int32 (pos 0)) refl refl of_int32

start_read_example :
    Always
      (λ _ t. Walks start_state t)
      (start bit_patterns tables (read_item tables replies reader_parts) start_state)
start_read_example =
    start_read bit_patterns tables replies reader_parts start_state
      (record {
        structure = λ v. Total-pure tt;
        flattenable = λ v. Total-pure tt;
        light_flattenable = λ v. Total-pure tt;
        array = λ v. Total-pure tt;
        function = λ v. Total-pure tt;
        blob = λ v. Total-pure tt;
      })
      (omega arith)

generate_manually_number_example :
    Always
      (λ _ t. Wrote int_kind 4 start_state t)
      (generate_manually bit_patterns tables seeds 1 writer_parts size int32_type start_state)
unfolding get text_eq
generate_manually_number_example =
    generate_manually_number bit_patterns tables seeds 1 writer_parts size
      (refl, (refl, (refl, (refl, (refl, (refl, (refl, (refl, (refl, (refl, (refl, tt)))))))))))
      refl int32_type int_kind 4 start_state int32_number (is_int (pos 0))
