-- ===== src/Arrays.antt =====
-- fuzzer-engine/fuzzer/src/types/array_type.cpp and blob_type.cpp: the writing and reading of arrays
-- and blobs.
--
-- The handling of one variable, `item`, and the solver of dependencies are arguments.
pub mod Dependency
pub mod Bytes
use fans.Base.{
  ℕ, zero, suc, ◌+◌, ◌-◌, ◌*◌, ◌%◌, ◌^◌, ◌==◌, Bool, true, false, ◌||◌, List, [], ◌∷◌, ◌++◌, Option,
  if◌then◌else◌, ltb, leb, get_or, replicate, take, length,
}
use fans.Base.Text.{Text, codes, text_eq}
use fans.Base.Int.{ℤ, pos, negsuc, to_u32, to_u64, to_i32}
use fans.Exec.{
  Exec, pure, exit, modify, gets, ◌>>=◌, ◌>>◌, bad_array_type, bad_item, unsized, out_of_bounds,
}
use fans.Random.{random_uint64, n_out_of}
use fans.Calls.{
  Reply, write_bytes, write_uint32, write_int32, write_file_descriptor, read_byte_vector,
  read_bytes, read_blob, read_uint32,
}
use fans.Model.{Tables, Variable, null_variable}
use fans.State.{State, draw, uint32_max}
use fans.Parcel.Lookup.{get_var_idx, get_var_size, get_value_of}
use fans.Parcel.Traverse.{read_write_item}
use fans.Checker.{Floats}
use fans.IntType.{generate_size}
use fans.IntType.Names.{named, mentions}
use fans.Reader.{ask, forward}
use fans.Writer.Items.{put_call}

-- #define MAX_ARRAY_SIZE 65537
abbrev pub max_array_size : ℕ
max_array_size = 65537

-- static const uint8_t possibleUUID[3][16]
abbrev possible_uuid : List (List ℕ)
possible_uuid =
    (0x10 ∷ 0x77 ∷ 0xEF ∷ 0xEC ∷ 0xC0 ∷ 0xB2 ∷ 0x4D ∷ 0x02 ∷ 0xAC ∷ 0xE3 ∷ 0x3C ∷ 0x1E ∷ 0x52 ∷ 0xE2
      ∷ 0xFB ∷ 0x4B ∷ [])
    ∷ (0xE2 ∷ 0x71 ∷ 0x9D ∷ 0x58 ∷ 0xA9 ∷ 0x85 ∷ 0xB3 ∷ 0xC9 ∷ 0x78 ∷ 0x1A ∷ 0xB0 ∷ 0x30 ∷ 0xAF
        ∷ 0x78 ∷ 0xD3 ∷ 0x0E ∷ [])
    ∷ (0xed ∷ 0xef ∷ 0x8b ∷ 0xa9 ∷ 0x79 ∷ 0xd6 ∷ 0x4a ∷ 0xce ∷ 0xa3 ∷ 0xc8 ∷ 0x27 ∷ 0xdc ∷ 0xd5
        ∷ 0x1d ∷ 0x21 ∷ 0xed ∷ [])
    ∷ []

-- varType.find("vector<") != npos || varType.find("Vector<") != npos
abbrev pub is_vector : Text → Bool
is_vector t = mentions t "vector<" || mentions t "Vector<"

-- The names of the vectors whose size is not in the parcel.
abbrev pub has_known_size : Text → Bool
has_known_size x =
    named x "desiredPresentTimesNano"
    || named x "actualPresentTimesNano"
    || named x "frameReadyTimesNano"

-- The types of arrays of bytes in generate, and in the second branch of read.
abbrev pub is_byte_array : Text → Bool
is_byte_array t =
    mentions t "vector<int8_t>"
    || mentions t "vector<char>"
    || mentions t "vector<unsigned char>"
    || mentions t "vector<uint8_t>"
    || mentions t "Vector<unsigned char>"
    || mentions t "uint8_t ["
    || mentions t "int8_t ["
    || mentions t "char ["
    || named t "void *"
    || mentions t "char *"

abbrev pub is_byte_vector : Text → Bool
is_byte_vector t = mentions t "vector<unsigned char>" || mentions t "Vector<unsigned char>"

abbrev pub is_byte_buffer : Text → Bool
is_byte_buffer t =
    mentions t "int8_t [" || mentions t "char [" || named t "void *" || mentions t "char *"

-- i < varSize && i < MAX_ARRAY_SIZE
abbrev pub cut_count : ℕ → ℕ
cut_count n = if ltb n max_array_size then n else max_array_size

-- The last index that read draws, for an array of n items; n - 1 is a uint32_t.
abbrev pub last_index : ℕ → ℕ
last_index n = if leb max_array_size n then max_array_size - 1 else (n + 4294967295) % 4294967296

-- (uint32_t)IntType<uint32_t>::generateSize()
abbrev pub random_size : Exec State ℕ
random_size = do n ← draw generate_size; pure (n % 4294967296)

-- The bytes (int8_t)randomUInt64(0, 255) of a loop.
unfoldable pub random_bytes : ℕ → Exec State (List ℕ)
random_bytes zero = pure []
random_bytes (suc n) = do b ← draw (random_uint64 0 255); bs ← random_bytes n; pure (b ∷ bs)

-- The solver of a dependency of an item: canUseDependency, and solve.
pub record Solver : Type 0 where
  pub can_use_dependency : Variable → Exec State Bool
  pub solve : Variable → Exec State (Unit {0})

module _ (floats : Floats) (m : Tables) (item : ℕ → Exec State (Unit {0})) (solver : Solver)
    (replies : Reply) (variable : Variable) where
  -- getVarIdx(varName) + 1, the entry after that of the array
  unfoldable pub item_idx : Exec State ℕ
  item_idx = do i ← get_var_idx m variable.name; pure (i + 1)

  abbrev pub item_at : ℕ → Variable
  item_at i = get_or m.variable i null_variable

  abbrev pub declared_size : Exec State ℕ
  declared_size = do n ← get_var_size m variable; pure (to_u32 n)

  abbrev pub known_size : Exec State ℕ
  known_size = do n ← get_value_of m variable.name; pure (to_u32 n)

  -- The size of a vector that is written before it.
  unfoldable pub vector_size : Exec State ℕ
  vector_size = do
    semantic ← draw (n_out_of 7 10)
    if semantic
        then (if mentions variable.type "in_mac"
            then pure 6
            else if mentions variable.type "in_params"
            then pure 4
            else if named variable.name "in_tlsFingerprints"
            then pure 0
            else random_size)
        else random_size

  unfoldable pub array_size : Exec State ℕ
  array_size =
      if is_vector variable.type
      then (if has_known_size variable.name
          then known_size
          else (do n ← vector_size; put_call (write_uint32 n); pure n))
      else if mentions variable.type "[" || mentions variable.type "*"
      then declared_size
      else exit bad_array_type

  unfoldable pub write_random_bytes : ℕ → Exec State (Unit {0})
  write_random_bytes n = do tmp ← random_bytes (cut_count n); put_call (write_bytes tmp)

  -- One item of the loop of generate.
  unfoldable pub write_array_item : ℕ → Exec State (Unit {0})
  write_array_item i =
      if ltb 0 (item_at i).members.dependencies
      then (do
        can ← solver.can_use_dependency (item_at i)
        if can then solver.solve (item_at i) else read_write_item floats m item i)
      else read_write_item floats m item i

  unfoldable pub write_items : ℕ → ℕ → Exec State (Unit {0})
  write_items zero i = pure tt
  write_items (suc n) i = write_array_item i >> write_items n i

  -- void ArrayType::generate()
  unfoldable pub generate_array : Exec State (Unit {0})
  generate_array =
      if named variable.name "uuid"
      then (do idx ← draw (random_uint64 0 2); put_call (write_bytes (get_or possible_uuid idx [])))
      else (do
        n ← array_size
        if is_byte_array variable.type
            then write_random_bytes n
            else (do i ← item_idx; write_items (cut_count n) i))

  -- void ArrayType::generateRaw(vector<uint8_t> *rawData): the items go to the buffer of the
  -- reader-writer, and rawData stays as it is.
  unfoldable pub raw_items : ℕ → ℕ → Exec State (Unit {0})
  raw_items zero i = pure tt
  raw_items (suc n) i =
      (if ltb 0 (item_at i).members.dependencies
        then exit bad_item
        else read_write_item floats m item i)
      >> raw_items n i

  unfoldable pub generate_raw_array : Exec State (List ℕ)
  generate_raw_array = do
    n ← declared_size
    (if n == uint32_max then exit unsized else pure tt)
    i ← item_idx
    raw_items n i
    pure []

  -- The size of an array that is read item by item.
  unfoldable pub read_size : Exec State ℕ
  read_size =
      if mentions variable.type "[" || mentions variable.type "*"
      then declared_size
      else if is_vector variable.type
      then (if has_known_size variable.name then known_size else ask read_uint32 replies.uint32)
      else exit bad_array_type

  -- The item that another variable depends on: isDependency is taken back until it is reached.
  unfoldable pub choose_dependency : ℕ → Exec State ℕ
  choose_dependency n s =
      (if s.is_dependency
          then (do
            idx ← draw (random_uint64 0 (last_index n))
            modify (λ t. record t { is_dependency = false })
            pure idx)
          else pure uint32_max)
        s

  -- The loop of read from item `i` on, with `n` items left.
  unfoldable pub read_items : ℕ → ℕ → ℕ → ℕ → Exec State (Unit {0})
  read_items chosen j zero i = pure tt
  read_items chosen j (suc n) i =
      let rest = read_items chosen j n (suc i) in
      do
        modify (λ s. if i == chosen then record s { is_dependency = true } else s)
        read_write_item floats m item j
        reached ← gets (λ s. s.is_dependency)
        if reached then pure tt else rest

  abbrev pub check_item : ℕ → Exec State (Unit {0})
  check_item j =
      if text_eq (item_at j).name (variable.name ++ codes "::item") then pure tt else exit bad_item

  -- What read does with an array of n items.
  unfoldable pub read_array_items : ℕ → Exec State (Unit {0})
  read_array_items n = do
    chosen ← choose_dependency n
    j ← item_idx
    check_item j
    read_items chosen j (cut_count n) 0

  -- void ArrayType::read()
  unfoldable pub read_array : Exec State (Unit {0})
  read_array =
      if is_byte_vector variable.type
      then (do tmp ← ask read_byte_vector replies.byte_vector; forward (write_bytes tmp))
      else if is_byte_buffer variable.type
      then (do
        n ← declared_size
        tmp ← ask (read_bytes (cut_count n)) replies.bytes
        forward (write_bytes tmp))
      else (do n ← read_size; read_array_items n)

-- #define BLOB_INPLACE_LIMIT of Android, as blob_type.cpp writes it
abbrev inplace_limit : ℕ
inplace_limit = 16384

-- void BlobType::generate(), for a blob of blobSize bytes and FDType("in", "int").generate()
unfoldable pub generate_blob : ℕ → Exec State ℤ → Exec State (Unit {0})
generate_blob blob_size generate_fd = do
  blob_type ← (if leb blob_size inplace_limit then pure 0 else draw (random_uint64 1 2))
  put_call (write_int32 (pos blob_type))
  if blob_type == 0
      then (do tmp ← random_bytes blob_size; put_call (write_bytes tmp))
      else (do fd ← generate_fd; put_call (write_file_descriptor fd false))

-- void BlobType::read()
unfoldable pub read_blob_bytes : Reply → ℕ → Exec State (Unit {0})
read_blob_bytes replies blob_size = do
  blob ← ask (read_blob blob_size) replies.blob
  dependency ← gets (λ s. s.is_dependency)
  if dependency
      then (if ltb inplace_limit blob_size
          then exit unsized
          else forward (write_bytes (take blob_size blob)))
      else pure tt
