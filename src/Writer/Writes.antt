-- ===== src/Writer/Writes.antt =====
-- parcel_writer.cpp: what the writing of a number does to the data parcel and to the buffer of a raw
-- structure.
use fans.Base.{
  List, [], ◌++◌, ◌<◌, ◌==◌, replicate, ℕ, zero, suc, ◌/◌, ◌≡◌, refl, sym, ap, ◌∙◌, Bool, true,
  false, ◌∷◌, if◌then◌else◌, length, All, arith,
}
use fans.Base.Text.{codes}
use fans.Base.Int.{ℤ, to_u32, to_u64}
use fans.Exec.{Exec, Outcome, done, exits, hangs, pure}
use fans.Exec.Total.{Always, Always-bind, Total, Total-bind, Total-pure}
use fans.Exec.Succeeds.{Sure, Succeeds}
use fans.Exec.Gives.{Always-Gives}
use fans.Random.{Rng, random_float, random_double}
use fans.VarType.{
  VarType, int32_type, int64_type, uint32_type, uint64_type, float_type, double_type,
}
use fans.Calls.{
  Call, write_int32, write_int64, write_uint32, write_uint64, write_float, write_double,
}
use fans.Model.{Tables, Variable}
use fans.State.{State, draw}
use fans.Parcel.Store.{Value, i32, u32, i64, u64, float, double}
use fans.Parcel.Grows.{Grows, Grows-preorder}
use fans.Checker.{Floats}
use fans.Checker.Special.{
  Kind, int_kind, uint_kind, int64_kind, uint64_kind, float_kind, double_kind,
}
use fans.IntType.Names.{named}
use fans.IntType.Choices.{is_enum, generate_int}
use fans.IntType.Draws.{enum_names, generate_int-Sure}
use fans.Strings.{Seeds}
use fans.Writer.Total.{draws, generate-Total}
use fans.Writer.{strncpy}
use fans.Writer.Bytes.{length-strncpy}
use fans.Writer.Items.{
  Parts, little_endian, bytes_of, call_of, put_call, put_raw, by_mode, produce, generate_kind,
  write_number, generate_manually,
}
use fans.Writer.Kinds.{
  IsKind, is_int, is_uint, is_int64, is_uint64, is_float, is_double, produce-Gives, generate-Gives,
}

-- The types of numbers, the kinds of their values and their sizes.
pub data IsNumber : VarType → Kind → ℕ → Type 0 where
  int32_number : IsNumber int32_type int_kind 4
  uint32_number : IsNumber uint32_type uint_kind 4
  int64_number : IsNumber int64_type int64_kind 8
  uint64_number : IsNumber uint64_type uint64_kind 8
  float_number : IsNumber float_type float_kind 4
  double_number : IsNumber double_type double_kind 8

-- The value of a number of a kind, and the call that writes it.
pub data Writes : Kind → Value → Call → Type 0 where
  writes_int32 : (n : ℤ) → Writes int_kind (i32 n) (write_int32 n)
  writes_uint32 : (n : ℕ) → Writes uint_kind (u32 n) (write_uint32 n)
  writes_int64 : (n : ℤ) → Writes int64_kind (i64 n) (write_int64 n)
  writes_uint64 : (n : ℕ) → Writes uint64_kind (u64 n) (write_uint64 n)
  writes_float : (n : ℕ) → Writes float_kind (float n) (write_float n)
  writes_double : (n : ℕ) → Writes double_kind (double n) (write_double n)

-- The second list has the bytes of the first up to its first 0, and 0 from there on.
pub data Truncated : List ℕ → List ℕ → Type 0 where
  ends : Truncated [] []
  stops : (bs : List ℕ) → Truncated (0 ∷ bs) (0 ∷ replicate (length bs) 0)
  goes_on : (b : ℕ) (bs cs : List ℕ) → 0 < b → Truncated bs cs → Truncated (b ∷ bs) (b ∷ cs)

-- Outside raw mode the data parcel gets one call, which writes a number of the kind, and the buffer
-- nothing. In raw mode the data parcel gets no call, and the buffer as many bytes as the number has:
-- those of a number of the kind up to the first 0 among them, and 0 from there on.
pub data Wrote (kind : Kind) (size : ℕ) (s t : State) : Type 0 where
  in_parcel :
      (v : Value) (call : Call)
      → s.is_raw ≡ false
      → Writes kind v call
      → t.written ≡ call ∷ s.written
      → t.raw_data ≡ s.raw_data
      → Wrote kind size s t
  in_buffer :
      (v : Value) (call : Call) (added : List ℕ)
      → s.is_raw ≡ true
      → Writes kind v call
      → t.written ≡ s.written
      → t.raw_data ≡ s.raw_data ++ added
      → Truncated (bytes_of v) added
      → length added ≡ size
      → Wrote kind size s t

not_zero : (b : ℕ) → (suc b == 0) ≡ false
not_zero b = ground arith

Truncated-strncpy : (bs : List ℕ) → Truncated bs (strncpy bs)
unfolding strncpy
Truncated-strncpy [] = ends
Truncated-strncpy (zero ∷ bs) = stops bs
Truncated-strncpy (suc b ∷ bs) =
    rw (not_zero b) (goes_on (suc b) bs (strncpy bs) (omega arith) (Truncated-strncpy bs))

length-little_endian : (n v : ℕ) → length (little_endian n v) ≡ n
unfolding little_endian
length-little_endian zero v = refl
length-little_endian (suc n) v = ap suc (length-little_endian n (v / 256))

bytes_of-size :
    {type : VarType} {kind : Kind} {size : ℕ} {v : Value}
    → IsNumber type kind size
    → IsKind kind v
    → length (bytes_of v) ≡ size
unfolding bytes_of
bytes_of-size int32_number (is_int n) = length-little_endian 4 (to_u32 n)
bytes_of-size uint32_number (is_uint n) = length-little_endian 4 n
bytes_of-size int64_number (is_int64 n) = length-little_endian 8 (to_u64 n)
bytes_of-size uint64_number (is_uint64 n) = length-little_endian 8 n
bytes_of-size float_number (is_float n) = length-little_endian 4 n
bytes_of-size double_number (is_double n) = length-little_endian 8 n

call_of-Writes :
    {type : VarType} {kind : Kind} {size : ℕ} {v : Value}
    → IsNumber type kind size
    → IsKind kind v
    → Writes kind v (call_of v)
unfolding call_of
call_of-Writes int32_number (is_int n) = writes_int32 n
call_of-Writes uint32_number (is_uint n) = writes_uint32 n
call_of-Writes int64_number (is_int64 n) = writes_int64 n
call_of-Writes uint64_number (is_uint64 n) = writes_uint64 n
call_of-Writes float_number (is_float n) = writes_float n
call_of-Writes double_number (is_double n) = writes_double n

-- The end of the writing of a value.
by_mode-Wrote :
    (type : VarType) (kind : Kind) (size : ℕ) (v : Value) (s t : State) (raw : Bool)
    → IsNumber type kind size
    → IsKind kind v
    → Grows s t
    → t.is_raw ≡ raw
    → Always
        (λ _ u. Wrote kind size s u)
        (if raw then put_raw (bytes_of v) t else put_call (call_of v) t)
by_mode-Wrote type kind size v s t true number good g e =
    in_buffer v (call_of v) (strncpy (bytes_of v)) (sym (ap (λ o. o.3) g.others_same) ∙ e)
      (call_of-Writes number good) (ap (λ o. o.0) g.others_same)
      (ap (λ o. o.4 ++ strncpy (bytes_of v)) g.others_same) (Truncated-strncpy (bytes_of v))
      (length-strncpy (bytes_of v) ∙ bytes_of-size number good)
by_mode-Wrote type kind size v s t false number good g e =
    in_parcel v (call_of v) (sym (ap (λ o. o.3) g.others_same) ∙ e) (call_of-Writes number good)
      (ap (λ o. call_of v ∷ o.0) g.others_same) (ap (λ o. o.4) g.others_same)

pub Total-Sure :
    {A : Type 0} (Q : A → Type 0) (d : Exec Rng A) → Sure Q d → Total {S = Rng} (λ _ _. Unit {0}) d
Total-Sure {A} Q d h = record { run = λ r. returned (d r) (h.run r) }
  where
    returned : (o : Outcome (A × Rng)) → Succeeds Q o → Always (λ _ _. Unit {0}) o
    returned (done (a, r)) k = tt
    returned (exits e) k = tt
    returned hangs k = absurd k

module _ (floats : Floats) (m : Tables) (seeds : Seeds) (patience : ℕ) (parts : Parts)
    (variable : Variable)
    (known : All (λ name. is_enum seeds.enum_info (codes name) ≡ true) enum_names)
    (no_sensor : named variable.name "sensor" ≡ false) where
  draw_int-Total :
      (width : ℕ)
      → Total Grows
          (draw (generate_int seeds.platform seeds.enum_info width variable.name variable.type))
  draw_int-Total width = draws _ (
      Total-Sure _ _ (
        generate_int-Sure seeds.platform seeds.enum_info width variable.name variable.type known
          no_sensor))

  produce-Total :
      {type : VarType} {kind : Kind} {size : ℕ}
      → IsNumber type kind size
      → Total Grows (produce floats m seeds patience parts variable kind)
  unfolding produce
  produce-Total int32_number = Total-bind _ _ (draw_int-Total 32) (λ v. Total-pure _)
  produce-Total uint32_number = Total-bind _ _ (draw_int-Total 32) (λ v. Total-pure _)
  produce-Total int64_number = Total-bind _ _ (draw_int-Total 64) (λ v. Total-pure _)
  produce-Total uint64_number = Total-bind _ _ (draw_int-Total 64) (λ v. Total-pure _)
  produce-Total float_number =
      Total-bind (draw random_float) (λ v. pure (float v))
        (draws random_float (record { run = λ r. tt {0} })) (λ v. Total-pure _)
  produce-Total double_number =
      Total-bind (draw random_double) (λ v. pure (double v))
        (draws random_double (record { run = λ r. tt {0} })) (λ v. Total-pure _)

  write_number-Wrote :
      (type : VarType) (kind : Kind) (size : ℕ) (s : State)
      → IsNumber type kind size
      → IsKind kind (parts.uninitialised kind)
      → Always
          (λ _ u. Wrote kind size s u)
          (write_number floats m seeds patience parts variable kind s)
  unfolding write_number by_mode
  write_number-Wrote type kind size s number start =
      Always-bind (λ v t. IsKind kind v × Grows s t) (λ _ u. Wrote kind size s u)
        (generate_kind floats m seeds patience parts variable kind) _ s
        (Always-Gives (IsKind kind) (Grows s) _
          ((generate-Total floats m variable (produce floats m seeds patience parts variable kind)
              (produce-Total number) kind (parts.uninitialised kind)).run
            s)
          ((generate-Gives floats m variable (produce floats m seeds patience parts variable kind)
              kind (produce-Gives floats m seeds patience parts variable kind)
              (parts.uninitialised kind) start).run
            s))
        (λ v t h. by_mode-Wrote type kind size v s t t.is_raw number h.0 h.1 refl)

  manually :
      (type : VarType) (kind : Kind) (size : ℕ) (s : State)
      → IsNumber type kind size
      → Always
          (λ _ u. Wrote kind size s u)
          (write_number floats m seeds patience parts variable kind s)
      → Always
          (λ _ u. Wrote kind size s u)
          (generate_manually floats m seeds patience parts variable type s)
  unfolding generate_manually
  manually _ _ _ s int32_number h = h
  manually _ _ _ s uint32_number h = h
  manually _ _ _ s int64_number h = h
  manually _ _ _ s uint64_number h = h
  manually _ _ _ s float_number h = h
  manually _ _ _ s double_number h = h

  -- The writing of a variable whose type is that of an integer of 32 or 64 bits, a float or a double
  -- comes back or ends the process, if the enumerations that the generator of integers names are
  -- known, the variable is not called "sensor" and what is not initialised has the type of the
  -- number. If it comes back outside raw mode, the data parcel has got one call, which writes a
  -- number of the type, and the buffer of the raw structure is as it was. In raw mode the data
  -- parcel has got no call, and the buffer four or eight bytes, the size of the type: the little-endian
  -- bytes of a number of the type up to the first 0 among them, and 0 from there on.
  pub generate_manually_number :
      (type : VarType) (kind : Kind) (size : ℕ) (s : State)
      → IsNumber type kind size
      → IsKind kind (parts.uninitialised kind)
      → Always
          (λ _ u. Wrote kind size s u)
          (generate_manually floats m seeds patience parts variable type s)
  generate_manually_number type kind size s number start =
      manually type kind size s number (write_number-Wrote type kind size s number start)
