-- ===== src/Reader/Total.antt =====
-- parcel_reader.cpp: that a reader comes back, and the walk over a reply with it.
use fans.Base.{
  ℕ, ◌<◌, refl, Bool, true, false, List, ◌∷◌, Option, if◌then◌else◌, length, inl, inr, Option-cases,
  get_or,
}
use fans.Base.Text.{Text, codes, text_eq}
use fans.Base.Int.{ℤ, pos, negsuc}
use fans.Exec.{done, exits, pure, modify, gets, ◌>>=◌, raw_mode}
use fans.Base.Map.{at, put}
use fans.Exec.Total.{
  Always, Total, Total-pure, Total-exit, Total-if, Total-bind, Total-modify, Total-gets,
}
use fans.VarType.{
  VarType, integer_literal, uint8_type, int8_type, int16_type, uint16_type, int32_type, int64_type,
  uint32_type, uint64_type, file_descriptor_type, float_type, double_type, string16_type,
  string8_type, cstring_type, strong_binder_type, bool_type, parcel_structure_type,
  flattenable_structure_type, light_flattenable_structure_type, raw_structure_type, union_type,
  array_type, function_type, blob_type,
}
use fans.Calls.{
  Call, Read, Reply, read_exception_code, read_int32, read_strong_binder, read_bytes, write_bytes,
}
use fans.Model.{Attrs, Tables, Variable, Size, null_variable, size_of, fixed}
use fans.State.{State}
use fans.Checker.{Floats}
use fans.TypeMap.{type_of, get_var_type_enum}
use fans.Parcel.Lookup.{get_var_size, get_var_value, cached_value, uncached_value, get_var_idx}
use fans.Parcel.Store.{Value, i32}
use fans.Parcel.Grows.{store_value-Total, reset_self_constraints-Total, get_var_idx-Total}
use fans.Parcel.Traverse.{start}
use fans.Parcel.Traverse.Walks.{Walks, Walks-preorder}
use fans.Parcel.Traverse.Rounds.{walks}
use fans.Parcel.Traverse.Start.{start-Total}
use fans.Reader.{
  Parts, ask, check_is_raw, forward, read_plain, read_cstring_value, read_bool_value, read_binder,
  read_parcel_structure, read_raw_bytes, read_raw_structure, read_by_type, read, read_item,
}

-- The readers that are not in parcel_reader.cpp come back or end the process, and leave alone what
-- the walk relies on.
pub record PartsWalk (parts : Parts) : Type 0 where
  pub structure : (v : Variable) → Total Walks (parts.read_structure v)
  pub flattenable : (v : Variable) → Total Walks (parts.read_flattenable v)
  pub light_flattenable : (v : Variable) → Total Walks (parts.read_light_flattenable v)
  pub array : (v : Variable) → Total Walks (parts.read_array v)
  pub function : (v : Variable) → Total Walks (parts.read_function v)
  pub blob : (v : Variable) → Total Walks (parts.read_blob v)

-- A change that the walk does not see.
unseen : (f : State → State) → ((s : State) → Walks s (f s)) → Total Walks (modify f)
unseen f h = Total-modify f h

ask-Walks : {A : Type 0} (call : Read) (answer : List Read → A) → Total Walks (ask call answer)
ask-Walks call answer = record {
  run = λ s. record { parcel = refl; operation = refl; depend_idx = refl; loop_visit = λ j. refl };
}

check_is_raw-Walks : Total Walks check_is_raw
unfolding check_is_raw
check_is_raw-Walks = record { run = λ s. stops s s.is_raw }
  where
    stops :
        (s : State) (b : Bool)
        → Always (λ _ t. Walks s t) (if b then exits raw_mode else done (tt, s))
    stops s true = tt
    stops s false = Walks-preorder.reflexive s

forward-Walks : (call : Call) → Total Walks (forward call)
forward-Walks call = unseen _ (λ s. copied s s.is_dependency)
  where
    copied :
        (s : State) (b : Bool) → Walks s (if b then record s { target = call ∷ s.target } else s)
    copied s true = record {
      parcel = refl;
      operation = refl;
      depend_idx = refl;
      loop_visit = λ j. refl;
    }
    copied s false = Walks-preorder.reflexive s

get_var_type_enum-Walks : (x : Text) → Total Walks (get_var_type_enum x)
unfolding get_var_type_enum
get_var_type_enum-Walks x = record {
  run = λ s. elim (Option-cases (type_of s.types x)) [
    | inl e ↦ rw (e, get_var_type_enum) (tt {0})
    | inr (v, e) ↦ rw (e, get_var_type_enum) (Walks-preorder.reflexive s)
  ];
}

cached_value-Walks : (type : VarType) (a : Attrs) → Total Walks (cached_value type a)
unfolding cached_value
cached_value-Walks int32_type a = record { run = Walks-preorder.reflexive }
cached_value-Walks uint32_type a = record { run = Walks-preorder.reflexive }
cached_value-Walks int64_type a = record { run = Walks-preorder.reflexive }
cached_value-Walks uint64_type a = record { run = Walks-preorder.reflexive }
cached_value-Walks integer_literal a = record { run = Walks-preorder.reflexive }
cached_value-Walks bool_type a = record { run = Walks-preorder.reflexive }
cached_value-Walks _ a = record { run = λ s. tt }

get_var_value-Walks : (a : Attrs) → Total Walks (get_var_value a)
unfolding get_var_value
get_var_value-Walks a = Total-bind _ _ (get_var_type_enum-Walks a.type) (λ type.
    Total-bind (gets (λ s. at a.name false s.is_var_cached)) _ (Total-gets _) (λ cached.
      Total-bind _ _
        (unseen (λ s. record s { is_var_cached = put a.name cached s.is_var_cached })
          (λ s. record {
            parcel = refl;
            operation = refl;
            depend_idx = refl;
            loop_visit = λ j. refl;
          }))
        (λ _.
          Total-if cached (cached_value type a) (pure (uncached_value type a))
            (λ _. cached_value-Walks type a) (λ _. Total-pure (uncached_value type a)))))

module _ (m : Tables) (replies : Reply) (parts : Parts) (parts_walk : PartsWalk parts)
    (variable : Variable) where
  read_plain-Walks :
      {A : Type 0} (call : Read) (answer : List Read → A) (stored : A → Value) (copied : A → Call)
      → Total Walks (read_plain m replies parts variable call answer stored copied)
  unfolding read_plain
  read_plain-Walks call answer stored copied = Total-bind _ _ check_is_raw-Walks (λ _.
      Total-bind _ _ (ask-Walks call answer) (λ value.
        Total-bind _ _ (walks _ (store_value-Total m variable.name (stored value)))
          (λ _. forward-Walks (copied value))))

  read_binder-Walks : Total Walks (read_binder m replies parts variable)
  unfolding read_binder
  read_binder-Walks = Total-bind _ _ check_is_raw-Walks (λ _.
      Total-bind _ _ (ask-Walks read_strong_binder replies.strong_binder)
        (λ b. unseen _ (λ s. kept s b s.is_dependency)))
    where
      kept :
          (s : State) (b : Option ℕ) (d : Bool) → Walks s (if d then record s { binder = b } else s)
      kept s b true = record {
        parcel = refl;
        operation = refl;
        depend_idx = refl;
        loop_visit = λ j. refl;
      }
      kept s b false = Walks-preorder.reflexive s

  read_parcel_structure-Walks : Total Walks (read_parcel_structure m replies parts variable)
  unfolding read_parcel_structure
  read_parcel_structure-Walks =
      Total-if (text_eq variable.type (codes "class android::binder::Status")) _ _
        (λ _. Total-bind _ _ (ask-Walks read_exception_code replies.exception_code) (λ e.
          Total-bind _ _
            (unseen (λ s. record s { exception_code = e })
              (λ s. record {
                parcel = refl;
                operation = refl;
                depend_idx = refl;
                loop_visit = λ j. refl;
              }))
            (λ _. walks _ (store_value-Total m (codes "mException") (i32 (pos 0))))))
        (λ _.
          Total-if variable.members.have_parcelable _ _
            (λ _.
              Total-bind _ _ (ask-Walks read_int32 replies.int32)
                (λ _. parts_walk.structure variable))
            (λ _. parts_walk.structure variable))

  read_raw_bytes-Walks : (n : ℤ) → Total Walks (read_raw_bytes m replies parts variable n)
  unfolding read_raw_bytes
  read_raw_bytes-Walks (pos n) =
      Total-bind _ _ (ask-Walks (read_bytes n) replies.bytes)
        (λ buffer. forward-Walks (write_bytes buffer))
  read_raw_bytes-Walks (negsuc n) = Total-exit _

  get_var_size-Walks : Total Walks (get_var_size m variable)
  unfolding get_var_size
  get_var_size-Walks = of_size variable.size
    where
      of_size :
          (size : Size)
          → Total Walks (elim size [
            | size_of name ↦
                (get_var_idx m name >>= λ idx.
                get_var_value (get_or m.variable idx null_variable).attrs)
            | fixed n ↦ pure n
          ])
      of_size (size_of name) =
          Total-bind _ _ (walks _ (get_var_idx-Total m name)) (λ idx. get_var_value-Walks _)
      of_size (fixed n) = Total-pure n

  read_raw_structure-Walks : Total Walks (read_raw_structure m replies parts variable)
  unfolding read_raw_structure
  read_raw_structure-Walks =
      Total-if (parts.is_structure variable.type) _ _
        (λ _. Total-bind _ _ get_var_size-Walks (λ size. read_raw_bytes-Walks _))
        (λ _. Total-exit _)

  read_by_type-Walks : (type : VarType) → Total Walks (read_by_type m replies parts variable type)
  unfolding read_by_type read_cstring_value read_bool_value
  read_by_type-Walks int8_type = Total-exit _
  read_by_type-Walks uint8_type = Total-exit _
  read_by_type-Walks int16_type = Total-exit _
  read_by_type-Walks uint16_type = Total-exit _
  read_by_type-Walks int32_type = read_plain-Walks _ _ _ _
  read_by_type-Walks uint32_type = read_plain-Walks _ _ _ _
  read_by_type-Walks int64_type = read_plain-Walks _ _ _ _
  read_by_type-Walks uint64_type = read_plain-Walks _ _ _ _
  read_by_type-Walks string16_type = read_plain-Walks _ _ _ _
  read_by_type-Walks string8_type = read_plain-Walks _ _ _ _
  read_by_type-Walks cstring_type =
      Total-if variable.members.utf8 _ _ (λ _. read_plain-Walks _ _ _ _)
        (λ _. read_plain-Walks _ _ _ _)
  read_by_type-Walks file_descriptor_type = read_plain-Walks _ _ _ _
  read_by_type-Walks float_type = read_plain-Walks _ _ _ _
  read_by_type-Walks double_type = read_plain-Walks _ _ _ _
  read_by_type-Walks bool_type =
      Total-if variable.members.flattenable _ _ (λ _. read_plain-Walks _ _ _ _)
        (λ _. read_plain-Walks _ _ _ _)
  read_by_type-Walks parcel_structure_type = read_parcel_structure-Walks
  read_by_type-Walks flattenable_structure_type = parts_walk.flattenable variable
  read_by_type-Walks light_flattenable_structure_type = parts_walk.light_flattenable variable
  read_by_type-Walks raw_structure_type = read_raw_structure-Walks
  read_by_type-Walks union_type = Total-exit _
  read_by_type-Walks strong_binder_type = read_binder-Walks
  read_by_type-Walks array_type = parts_walk.array variable
  read_by_type-Walks function_type = parts_walk.function variable
  read_by_type-Walks blob_type = parts_walk.blob variable
  read_by_type-Walks integer_literal =
      Total-bind _ _ (ask-Walks read_int32 replies.int32) (λ _. Total-pure tt)

  read-Walks : Total Walks (read m replies parts variable)
  unfolding read
  read-Walks = Total-bind _ _ (get_var_type_enum-Walks variable.type) (λ type.
      Total-bind _ _ (read_by_type-Walks type)
        (λ _. walks _ (reset_self_constraints-Total m variable.name)))

-- The walk over a parcel of fewer than 2^32 entries with ParcelReader::read as the handling of a
-- variable comes back or ends the process, if the readers of structures, arrays, functions and
-- blobs do; it leaves the parcel, the mode and the dependency as they were, and every loop as
-- visited as before.
pub start_read :
    (floats : Floats) (m : Tables) (replies : Reply) (parts : Parts) (s : State)
    → PartsWalk parts
    → length s.parcel < 4294967296
    → Always (λ _ t. Walks s t) (start floats m (read_item m replies parts) s)
start_read floats m replies parts s parts_walk few =
    start-Total floats m (read_item m replies parts)
      (λ i. read-Walks m replies parts parts_walk (get_or m.variable i null_variable)) s few
