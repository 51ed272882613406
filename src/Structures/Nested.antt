-- ===== src/Structures/Nested.antt =====
-- fuzzer-engine/fuzzer/include/fuzzer/types/structure_type.h and
-- fuzzer-engine/fuzzer/src/types/structure_type.cpp: structures, which are written and read by a
-- reader-writer of their own.
--
-- `start`, the walk of such a reader-writer over its tables, is an argument. `position` is what
-- dataPosition() answers after the calls on the data parcel, the last first.
pub mod Lengths
pub mod Flattenable
use fans.Base.{
  ℕ, zero, suc, ◌+◌, ◌-◌, ◌*◌, ◌/◌, ◌%◌, ◌==◌, Bool, true, false, not, List, [], ◌∷◌, Option, none,
  some, if◌then◌else◌,
}
use fans.Base.Text.{Text, codes, text_eq}
use fans.Base.Int.{ℤ, pos, to_u32, to_i32}
use fans.Base.Map.{Map, get}
use fans.Exec.{
  Exec, done, exits, hangs, pure, exit, modify, gets, ◌>>=◌, ◌>>◌, no_structure, unsized,
}
use fans.Calls.{
  Call, Read, Reply, write_int32, set_data_position, write_inplace, write_dup_file_descriptor,
  read_int32, read_inplace, read_file_descriptor,
}
use fans.Model.{Tables}
use fans.State.{State, Operation, write_data, read_reply, fresh, draw}
use fans.IntType.{generate_size}
use fans.Parcel.Store.{i32, store_value}
use fans.Reader.{ask, forward}
use fans.Writer.Items.{put_call}
use fans.Structures.{Uuid, write_audio_uuid}

-- info["data"], info["reply"], structure["variable"] and so on, and structure["fixed"]
pub record Structure : Type 0 where
  pub data_parcel : List Text
  pub reply_parcel : List Text
  pub tables : Tables
  pub fixed : Option ℤ

-- parcelableStructureDataInfo and so on
pub record StructureInfo : Type 0 where
  pub parcelable_data : Map Structure
  pub parcelable_reply : Map Structure
  pub light_flattenable_data : Map Structure
  pub light_flattenable_reply : Map Structure
  pub flattenable_data : Map Structure
  pub flattenable_reply : Map Structure
  pub raw : Map Structure

-- The first map that has the type.
unfoldable pub first_of : List (Map Structure) → Text → Option Structure
first_of [] type = none
first_of (map ∷ maps) type =
    let rest = first_of maps type in elim (get type map) [ none ↦ rest | some found ↦ some found ]

abbrev pub infos : StructureInfo → Operation → List (Map Structure)
infos info write_data =
    info.parcelable_data ∷ info.light_flattenable_data ∷ info.flattenable_data ∷ info.raw ∷ []
infos info read_reply =
    info.parcelable_reply ∷ info.light_flattenable_reply ∷ info.flattenable_reply ∷ info.raw ∷ []

-- Of a type of raw structures, the reply is the data.
abbrev pub with_raw_reply : StructureInfo → Text → Structure → Structure
with_raw_reply info type found = elim (get type info.raw) [
  | none ↦ found
  | some raw ↦ record found { reply_parcel = found.data_parcel }
]

-- StructureType::StructureType
unfoldable pub find_structure : StructureInfo → Text → Exec State Structure
find_structure info type s = elim (first_of (infos info s.operation) type) [
  | none ↦ exits no_structure
  | some found ↦ done (with_raw_reply info type found, s)
]

-- A new reader-writer on the data parcel, after initWrite.
abbrev pub writer_in : List Text → State → State
writer_in parcel s = record (fresh write_data s.types parcel s.rng s.chars) { written = s.written }

-- What its run leaves to the reader-writer that started it.
abbrev pub after_writer : State → State → State
after_writer s t = record s { types = t.types; rng = t.rng; chars = t.chars; written = t.written }

-- A new reader-writer on the reply, after initRead, with the target parcel if something depends on
-- the structure.
abbrev pub reader_in : List Text → State → State
reader_in parcel s = record (fresh read_reply s.types parcel s.rng s.chars) {
  reply = s.reply;
  is_dependency = s.is_dependency;
  target = if s.is_dependency then s.target else [];
}

abbrev pub after_reader : State → State → State
after_reader s t = record s {
  types = t.types;
  rng = t.rng;
  chars = t.chars;
  reply = t.reply;
  target = if s.is_dependency then t.target else s.target;
}

-- Code of a new reader-writer, with what is done to the one that started it.
abbrev pub nested :
    {A : Type 0}
    → (State → State)
    → (State → State → State)
    → (State → A)
    → Exec State (Unit {0})
    → Exec State A
nested enter leave result run s = elim (run (enter s)) [
  | done (_, t) ↦ done (result t, leave s t)
  | exits e ↦ exits e
  | hangs ↦ hangs
]

-- uint32_t fixed, from structure["fixed"].asInt()
abbrev pub fixed_of : Structure → Exec State ℕ
fixed_of structure = elim structure.fixed [ none ↦ exit no_structure | some n ↦ pure (to_u32 n) ]

abbrev pub is_frame_stats : Text → Bool
is_frame_stats type = text_eq type (codes "class android::FrameStats")

-- currPos - startPos on uint32_t
abbrev pub distance : ℕ → ℕ → ℕ
distance start current = (current + (4294967296 - start)) % 4294967296

-- A number of fds, written as duplicates.
unfoldable pub write_new_fds : Exec State ℤ → ℕ → Exec State (Unit {0})
write_new_fds generate_fd zero = pure tt
write_new_fds generate_fd (suc n) = do
  fd ← generate_fd
  put_call (write_dup_file_descriptor fd)
  write_new_fds generate_fd n

unfoldable pub copy_fds : List ℤ → Exec State (Unit {0})
copy_fds [] = pure tt
copy_fds (fd ∷ fds) = forward (write_dup_file_descriptor fd) >> copy_fds fds

unfoldable pub read_fds : Reply → ℕ → Exec State (List ℤ)
read_fds replies zero = pure []
read_fds replies (suc n) = do
  fd ← ask read_file_descriptor replies.file_descriptor
  fds ← read_fds replies n
  pure (fd ∷ fds)

module _ (start : Tables → Exec State (Unit {0})) (m : Tables) (position : List Call → ℕ)
    (structure : Structure) (var_type : Text) where
  -- dataPosition(), as a uint32_t
  abbrev pub data_position : Exec State ℕ
  data_position = gets (λ s. position s.written % 4294967296)

  -- void StructureType::generate()
  unfoldable pub generate_structure : Exec State (Unit {0})
  generate_structure =
      nested (writer_in structure.data_parcel) after_writer (λ t. tt) (start structure.tables)

  -- void StructureType::read()
  unfoldable pub read_structure : Exec State (Unit {0})
  read_structure =
      nested (reader_in structure.reply_parcel) after_reader (λ t. tt) (start structure.tables)

  -- void StructureType::generateRaw(vector<uint8_t> *rawData), for an empty buffer
  unfoldable pub generate_raw_structure : Uuid → Exec State (List ℕ)
  generate_raw_structure uninitialised =
      if text_eq var_type (codes "struct audio_uuid_s")
      then (write_audio_uuid uninitialised >> pure [])
      else nested (λ s. record (writer_in structure.data_parcel s) { is_raw = true }) after_writer
          (λ t. t.raw_data) (start structure.tables)

  -- if (varType == "class android::FrameStats") of generateLightFlattenable
  unfoldable pub draw_frame_count : Exec State (Unit {0})
  draw_frame_count =
      if is_frame_stats var_type
      then (do
        count ← draw generate_size
        store_value m (codes "frameCount") (i32 (to_i32 (count % 4294967296))))
      else pure tt

  -- The fixing of the length that was written at `start_pos`.
  abbrev pub fix_length : ℕ → Exec State (Unit {0})
  fix_length start_pos = do
    put_call (set_data_position start_pos)
    curr_pos ← data_position
    put_call (write_int32 (to_i32 (distance start_pos curr_pos)))
    put_call (set_data_position curr_pos)

  -- The position of the length, and a length of 0 for the time being.
  abbrev pub begin_length : ℕ → Exec State ℕ
  begin_length fixed =
      if fixed == 0 then (do p ← data_position; put_call (write_int32 (pos 0)); pure p) else pure 0

  -- void StructureType::generateLightFlattenable()
  unfoldable pub generate_light_flattenable : Exec State (Unit {0})
  generate_light_flattenable = do
    fixed ← fixed_of structure
    start_pos ← begin_length fixed
    draw_frame_count
    generate_structure
    if fixed == 0 then fix_length start_pos else pure tt

  -- if (varType == "class android::FrameStats") of readLightFlattenable
  unfoldable pub read_frame_count : ℕ → Exec State (Unit {0})
  read_frame_count size =
      let rest = distance 8 size in
      if is_frame_stats var_type
      then (if rest % 24 == 0
          then store_value m (codes "frameCount") (i32 (to_i32 (rest / 24)))
          else exit unsized)
      else pure tt

  -- void StructureType::readLightFlattenable()
  unfoldable pub read_light_flattenable : Reply → Exec State (Unit {0})
  read_light_flattenable replies = do
    fixed ← fixed_of structure
    size ← (if fixed == 0 then (do n ← ask read_int32 replies.int32; pure (to_u32 n)) else pure 0)
    read_frame_count size
    read_structure

  -- The walk of generateFlattenable, which takes the nested level there and back.
  unfoldable pub generate_nested_flattenable : Exec State (Unit {0})
  generate_nested_flattenable =
      nested
        (λ s. record (writer_in structure.data_parcel s) {
          flattenable_level = s.flattenable_level;
        })
        (λ s t. record (after_writer s t) { flattenable_level = t.flattenable_level }) (λ t. tt)
        (start structure.tables)

  -- The fixing of the length and of the number of file descriptors.
  unfoldable pub fix_flattenable : Exec State ℤ → ℕ → ℕ → Exec State (Unit {0})
  fix_flattenable generate_fd start_pos start_fd_count = do
    put_call (set_data_position start_pos)
    curr_pos ← data_position
    put_call (write_int32 (to_i32 (distance start_pos curr_pos)))
    fd_count ← gets (λ s. distance start_fd_count s.fd_count)
    put_call (write_int32 (to_i32 fd_count))
    put_call (set_data_position curr_pos)
    write_new_fds generate_fd fd_count

  -- void StructureType::generateFlattenable()
  unfoldable pub generate_flattenable : Exec State ℤ → Exec State (Unit {0})
  generate_flattenable generate_fd = do
    modify (λ s. record s { flattenable_level = (s.flattenable_level + 1) % 4294967296 })
    start_pos ← data_position
    start_fd_count ← gets (λ s. s.fd_count)
    put_call (write_int32 (pos 0))
    put_call (write_int32 (pos 0))
    generate_nested_flattenable
    modify (λ s. record s { flattenable_level = distance 1 s.flattenable_level })
    level ← gets (λ s. s.flattenable_level)
    if level == 0 then fix_flattenable generate_fd start_pos start_fd_count else pure tt

-- void StructureType::readFlattenable()
unfoldable pub read_flattenable : Reply → Exec State (Unit {0})
read_flattenable replies = do
  buf_len ← ask read_int32 replies.int32
  fd_count ← ask read_int32 replies.int32
  buffer ← ask (read_inplace (to_u32 buf_len)) replies.inplace
  fds ← read_fds replies (to_u32 fd_count)
  forward (write_int32 (to_i32 (to_u32 buf_len)))
  forward (write_int32 (to_i32 (to_u32 fd_count)))
  forward (write_inplace buffer)
  copy_fds fds
