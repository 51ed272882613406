-- ===== src/Functions.antt =====
-- fuzzer-engine/fuzzer/include/fuzzer/types/function_type.h and
-- fuzzer-engine/fuzzer/src/types/function_type.cpp: functions that a transaction calls with its
-- parcel, which are written and read by a reader-writer of their own.
--
-- `start`, the walk of such a reader-writer over its tables, is an argument.
pub mod Arguments
use fans.Base.{
  ℕ, zero, suc, ◌==◌, Bool, true, false, not, ◌||◌, List, [], ◌∷◌, ◌++◌, Option, none, some,
  if◌then◌else◌, ltb, get_or, length,
}
use fans.Base.Text.{Text, codes}
use fans.Base.Int.{ℤ, pos, to_u32, to_u64, to_i32}
use fans.Base.Map.{Map, get}
use fans.Exec.{Exec, done, exits, hangs, pure, exit, ◌>>=◌, ◌>>◌, no_function, bad_argument}
use fans.Random.{random_uint64}
use fans.Model.{Tables}
use fans.State.{State, draw}
use fans.Parcel.Lookup.{get_value_of}
use fans.Parcel.Store.{Value, i32, boolean, store_value}
use fans.IntType.Names.{named, mentions}
use fans.Structures.Nested.{writer_in, after_writer, reader_in, after_reader, nested}

pub record Arg : Type 0 where
  pub name : Text
  pub type : Text

-- An index out of range is a null value, whose members are "".
abbrev pub null_arg : Arg
null_arg = record { name = []; type = [] }

-- info["data"], info["reply"], function["variable"] and so on, and function["argv"]
pub record Function : Type 0 where
  pub data_parcel : List Text
  pub reply_parcel : List Text
  pub tables : Tables
  pub argv : List Arg

abbrev null_function : Function
null_function = record {
  data_parcel = [];
  reply_parcel = [];
  tables = record { variable = []; loop = []; constraint = [] };
  argv = [];
}

-- uint64_t flag = randomUInt64(0, 1); if (flag == 0) ...
abbrev one_of : Text → Text → Exec State Text
one_of a b = do flag ← draw (random_uint64 0 1); if flag == 0 then pure a else pure b

-- The key of functionInfo for a function that has no entry under its own name.
unfoldable pub fallback : Text → Exec State Text
fallback name =
    if named name "android::IMediaPlayer::invoke"
    then one_of
        (codes
          "android::NuPlayer2Driver::invoke+android::status_t (const class android::Parcel &, class android::Parcel *)")
        (codes
          "android::NuPlayerDriver::invoke+android::status_t (const class android::Parcel &, class android::Parcel *)")
    else if named name "android::IMediaPlayer::setMetadataFilter"
    then pure (
        codes
          "android::MediaPlayerService::Client::setMetadataFilter+android::status_t (const class android::Parcel &)")
    else if named name "android::IMediaPlayer::setParameter"
    then pure (
        codes
          "android::MediaPlayerService::Client::setParameter+android::status_t (int, const class android::Parcel &)")
    else if named name "android::MediaPlayerBase::setParameter"
    then one_of
        (codes
          "android::NuPlayerDriver::setParameter+android::status_t (int, const class android::Parcel &)")
        (codes
          "android::NuPlayer2Driver::setParameter+android::status_t (int, const class android::Parcel &)")
    else if named name "android::MediaPlayerService::Client::setAudioAttributes_l"
    then pure (codes "(anonymous namespace)::unmarshallAudioAttributes")
    else if named name "android::IMediaPlayer::getMetadata"
    then pure (
        codes
          "android::MediaPlayerService::Client::getMetadata+android::status_t (_Bool, _Bool, class android::Parcel *)")
    else if named name "android::MediaPlayerBase::getMetadata"
    then one_of
        (codes
          "android::NuPlayerDriver::getMetadata+android::status_t (const media::class Metadata::Filter &, class android::Parcel *)")
        (codes
          "android::NuPlayer2Driver::getMetadata+android::status_t (const media::class Metadata::Filter &, class android::Parcel *)")
    else if named name "android::IMediaPlayer::getParameter"
    then pure (
        codes
          "android::MediaPlayerService::Client::getParameter+android::status_t (int, class android::Parcel *)")
    else if named name "android::MediaPlayerBase::getParameter"
    then one_of
        (codes
          "android::NuPlayerDriver::getParameter+android::status_t (int, class android::Parcel *)")
        (codes
          "android::NuPlayer2Driver::getParameter+android::status_t (int, class android::Parcel *)")
    else if named name "android::IMediaPlayerService::pullBatteryData"
    then pure (
        codes
          "android::MediaPlayerService::BatteryTracker::pullBatteryData+android::status_t (class android::Parcel *)")
    else if named name "android::IMediaExtractor::getMetrics"
    then pure (
        codes
          "android::RemoteMediaExtractor::getMetrics+android::status_t (class android::Parcel *)")
    else if named name "android::IMediaRecorder::getMetrics"
    then pure (
        codes
          "android::StagefrightRecorder::getMetrics+android::status_t (class android::Parcel *)")
    else exit no_function

abbrev or_null : Option Function → Function
or_null none = null_function
or_null (some f) = f

-- FunctionType::FunctionType
unfoldable pub find_function : Map Function → Text → Text → Exec State Function
find_function info name signature = elim (get (name ++ codes "+" ++ signature) info) [
  | some f ↦ pure f
  | none ↦ (do key ← fallback name; pure (or_null (get key info)))
]

-- What initArgv does with an argument, by its type.
pub data Handling : Type 0 where
  skipped as_bool as_int unsupported : Handling

unfoldable pub handling : Text → Handling
handling type =
    if mentions type "android::Parcel" || mentions type "*" || mentions type "<"
    then skipped
    else if named type "android::status_t"
    then skipped
    else if named type "_Bool"
    then as_bool
    else if named type "int"
    then as_int
    else if named type "struct android::hardware::hidl_vec<unsigned char>"
    then skipped
    else unsupported

-- The tables of the reader-writer of the caller, and of that of the function. The code runs in the
-- state of the first and takes and returns that of the second, `child`.
module _ (m own : Tables) where
  -- parcelReaderWriter->storeValue(argName, value)
  abbrev pub store_in : State → Text → Value → Exec State State
  store_in child x v s = elim (store_value own x v child) [
    | done (_, t) ↦ done (t, s)
    | exits e ↦ exits e
    | hangs ↦ hangs
  ]

  unfoldable pub copy_arg : Arg → Handling → Arg → State → Exec State State
  copy_arg parent skipped arg child = pure child
  copy_arg parent as_bool arg child = do
    v ← get_value_of m parent.name
    store_in child arg.name (boolean (not (to_u64 v == 0)))
  copy_arg parent as_int arg child = do
    v ← get_value_of m parent.name
    store_in child arg.name (i32 (to_i32 (to_u32 v)))
  copy_arg parent unsupported arg child = exit bad_argument

  -- The loop of initArgv, from argument `i` on.
  unfoldable pub copy_args : List Arg → List Arg → ℕ → State → Exec State State
  copy_args [] argv i child = pure child
  copy_args (parent ∷ parents) argv i child = do
    next ← copy_arg parent (handling parent.type) (get_or argv i null_arg) child
    copy_args parents argv (suc i) next

  -- void FunctionType::initArgv(ParcelReaderWriter *parcelReaderWriter)
  unfoldable pub init_argv : Text → List Arg → List Arg → State → Exec State State
  init_argv func_name parent_argv argv child = do
    next ← copy_args parent_argv argv 0 child
    if ltb (length parent_argv) (length argv)
        then (if named func_name "keystore::readKeymasterBlob"
            then store_in next (get_or argv 1 null_arg).name (boolean true)
            else exit bad_argument)
        else pure next

module _ (start : Tables → Exec State (Unit {0})) (m : Tables) (func_name : Text)
    (parent_argv : List Arg) (function : Function) where
  -- A walk of a new reader-writer that begins in a given state.
  abbrev pub run_from : State → (State → State → State) → Exec State (Unit {0})
  run_from child leave = nested (λ s. child) leave (λ t. tt) (start function.tables)

  -- void FunctionType::generate()
  unfoldable pub generate_function : Exec State (Unit {0})
  generate_function = do
    begun ← (λ s. done (writer_in function.data_parcel s, s))
    child ← init_argv m function.tables func_name parent_argv function.argv begun
    run_from child after_writer

  -- void FunctionType::read()
  unfoldable pub read_function : Exec State (Unit {0})
  read_function = do
    begun ← (λ s. done (reader_in function.reply_parcel s, s))
    child ← init_argv m function.tables func_name parent_argv function.argv begun
    run_from child after_reader
