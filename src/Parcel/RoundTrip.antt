-- ===== src/Parcel/RoundTrip.antt =====
-- storeValue and getVarValue of parcel_reader_writer.cpp.
use mathlib.Core.Path.{subst}
use fans.Base.{
  ℕ, zero, suc, ◌≡◌, refl, ◌∙◌, ap, Bool, true, false, List, [], ◌∷◌, Option, none, some, arith,
  length, take, length-take, ◌-◌, ◌<◌, if◌then◌else◌,
}
use fans.Base.Text.{Text}
use fans.Base.Int.{ℤ, pos, to_i64}
use fans.Base.Map.{Map, get, put, at, get-put_self}
use fans.Exec.{no_variable, modify, Exec, done, pure, gets, ◌>>=◌, ◌>>◌}
use fans.Exec.Total.{bind-done}
use fans.Exec.Total.{
  Always, IsPreorder, Total, Total-bind, Total-pure, Total-exit, Total-if, Total-modify,
}
use fans.Model.{Attrs, Tables, null_variable}
use fans.Base.{get_or}
use fans.State.{State}
use fans.VarType.{VarType, int32_type, uint32_type, int64_type, uint64_type, bool_type}
use fans.TypeMap.{get_var_type_enum}
use fans.Parcel.Lookup.{
  get_var_value, cached_value, uncached_value, bool_to_ℤ, get_var_idx, found, var_idx,
}
use fans.Parcel.Store.{
  reset_constraints, reset_all, reset_self_constraints, Value, i32, i64, u32, u64, float, double,
  boolean, text, set_value, mark_cached, store_value,
}
use fans.Parcel.Reset.{is_operand, ResetsAll, reset_all_lem}
use fans.Parcel.Grows.{ends_with-length}

-- Nothing but the statuses of constraints differs.
pub record OnlyStatus (s t : State) : Type 0 where
  pub same : t ≡ record s { constraint_status = t.constraint_status }

instance OnlyStatus-preorder : IsPreorder OnlyStatus
OnlyStatus-preorder = record {
  reflexive = λ s. record { same = refl };
  transitive = λ s t u g h. record {
    same = h.same ∙ ap (λ (x : State). record x { constraint_status = u.constraint_status }) g.same;
  };
}

reset_constraints-OnlyStatus :
    (fuel : ℕ) (c : Text) → length c < fuel → Total OnlyStatus (reset_constraints fuel c)
unfolding reset_constraints
reset_constraints-OnlyStatus zero c h = absurd (omega arith)
reset_constraints-OnlyStatus (suc fuel) c h =
    Total-bind _ _ (Total-modify _ (λ s. record { same = refl })) (λ _.
      Total-if _ _ _
        (λ (e : is_operand c ≡ true).
          reset_constraints-OnlyStatus fuel (take (length c - 4) c)
            (omega (arith, ends_with-length c e, length-take (length c - 4) c)))
        (λ _. Total-pure tt))

reset_all-OnlyStatus : (cs : List Text) → Total OnlyStatus (reset_all cs)
unfolding reset_all
reset_all-OnlyStatus [] = Total-pure tt
reset_all-OnlyStatus (c ∷ cs) =
    Total-bind _ _ (reset_constraints-OnlyStatus (suc (length c)) c (omega arith))
      (λ _. reset_all-OnlyStatus cs)

var_idx-OnlyStatus : (m : Tables) (x : Text) → Total OnlyStatus (get_var_idx m x)
var_idx-OnlyStatus m x = of_option (var_idx m x)
  where
    of_option : (o : Option ℕ) → Total OnlyStatus (found no_variable o)
    of_option none = Total-exit no_variable
    of_option (some i) = Total-pure i

pub reset_self_constraints-OnlyStatus :
    (m : Tables) (x : Text) → Total OnlyStatus (reset_self_constraints m x)
unfolding reset_self_constraints
reset_self_constraints-OnlyStatus m x =
    Total-bind (get_var_idx m x) _ (var_idx-OnlyStatus m x) (λ i. reset_all-OnlyStatus _)

pub store_value-OnlyStatus :
    (m : Tables) (x : Text) (v : Value) (s : State)
    → Always (λ _ t. OnlyStatus (set_value x v (mark_cached x s)) t) (store_value m x v s)
unfolding store_value
store_value-OnlyStatus m x v s =
    (reset_self_constraints-OnlyStatus m x).run (set_value x v (mark_cached x s))

-- The types of variables that getVarValue reads as the value, and what it reads.
pub data Reads : VarType → Value → ℤ → Type 0 where
  reads_int : (n : ℤ) → Reads int32_type (i32 n) n
  reads_uint : (n : ℕ) → Reads uint32_type (u32 n) (pos n)
  reads_int64 : (n : ℤ) → Reads int64_type (i64 n) n
  reads_uint64 : (n : ℕ) → Reads uint64_type (u64 n) (to_i64 n)
  reads_bool : (b : Bool) → Reads bool_type (boolean b) (bool_to_ℤ b)

-- The map of the type of the value has it under the name.
abbrev pub Holds : Text → Value → State → Type 0
Holds x (i32 n) t = get x t.int_map ≡ some n
Holds x (u32 n) t = get x t.uint_map ≡ some n
Holds x (i64 n) t = get x t.int64_map ≡ some n
Holds x (u64 n) t = get x t.uint64_map ≡ some n
Holds x (float n) t = get x t.float_map ≡ some n
Holds x (double n) t = get x t.double_map ≡ some n
Holds x (boolean b) t = get x t.bool_map ≡ some b
Holds x (text s) t = get x t.string_map ≡ some s

pub set_value-Holds :
    (x : Text) (v : Value) (s t : State) → OnlyStatus (set_value x v s) t → Holds x v t
set_value-Holds x (i32 n) s t o =
    ap (λ (u : State). get x u.int_map) o.same ∙ get-put_self x n s.int_map
set_value-Holds x (u32 n) s t o =
    ap (λ (u : State). get x u.uint_map) o.same ∙ get-put_self x n s.uint_map
set_value-Holds x (i64 n) s t o =
    ap (λ (u : State). get x u.int64_map) o.same ∙ get-put_self x n s.int64_map
set_value-Holds x (u64 n) s t o =
    ap (λ (u : State). get x u.uint64_map) o.same ∙ get-put_self x n s.uint64_map
set_value-Holds x (float n) s t o =
    ap (λ (u : State). get x u.float_map) o.same ∙ get-put_self x n s.float_map
set_value-Holds x (double n) s t o =
    ap (λ (u : State). get x u.double_map) o.same ∙ get-put_self x n s.double_map
set_value-Holds x (boolean b) s t o =
    ap (λ (u : State). get x u.bool_map) o.same ∙ get-put_self x b s.bool_map
set_value-Holds x (text c) s t o =
    ap (λ (u : State). get x u.string_map) o.same ∙ get-put_self x c s.string_map

set_value-types : (x : Text) (v : Value) (s : State) → (set_value x v s).types ≡ s.types
set_value-types x (i32 n) s = refl
set_value-types x _ s = refl

pub set_value-is_var_cached :
    (x : Text) (v : Value) (s : State) → (set_value x v s).is_var_cached ≡ s.is_var_cached
set_value-is_var_cached x (i32 n) s = refl
set_value-is_var_cached x _ s = refl

cached_value-Reads :
    (ty : VarType) (v : Value) (n : ℤ) (a : Attrs) (t : State) (cached : Map Bool)
    → Reads ty v n
    → Holds a.name v t
    → cached_value ty a (record t { is_var_cached = cached })
      ≡ done (n, record t { is_var_cached = cached })
unfolding cached_value
cached_value-Reads _ _ _ a t cached (reads_int n) h = rw h refl
cached_value-Reads _ _ _ a t cached (reads_uint n) h = rw h refl
cached_value-Reads _ _ _ a t cached (reads_int64 n) h = rw h refl
cached_value-Reads _ _ _ a t cached (reads_uint64 n) h = rw h refl
cached_value-Reads _ _ _ a t cached (reads_bool b) h = rw h refl

get_var_type_enum-known :
    (x : Text) (ty : VarType) (t : State)
    → get x t.types ≡ some ty
    → get_var_type_enum x t ≡ done (ty, t)
unfolding get_var_type_enum
get_var_type_enum-known x ty t e = rw (e, get_var_type_enum) refl

-- getVarValue after the type of the variable is known.
abbrev read_value : Attrs → VarType → Exec State ℤ
read_value a ty = do
  cached ← gets (λ s. at a.name false s.is_var_cached)
  modify (λ s. record s { is_var_cached = put a.name cached s.is_var_cached })
  if cached then cached_value ty a else pure (uncached_value ty a)

get_var_value-Reads :
    (ty : VarType) (v : Value) (n : ℤ) (a : Attrs) (t : State)
    → Reads ty v n
    → Holds a.name v t
    → get a.type t.types ≡ some ty
    → get a.name t.is_var_cached ≡ some true
    → (u : State) × (get_var_value a t ≡ done (n, u))
unfolding get_var_value
get_var_value-Reads ty v n a t r h e k = (
  record t { is_var_cached = put a.name true t.is_var_cached },
  bind-done (get_var_type_enum a.type) (read_value a) t t ty (get_var_type_enum-known a.type ty t e)
      ∙ (rw k (cached_value-Reads ty v n a t (put a.name true t.is_var_cached) r h)),
)

pub store_value-done :
    (m : Tables) (x : Text) (v : Value) (i : ℕ) (s : State)
    → var_idx m x ≡ some i
    → (t : State) × (store_value m x v s ≡ done (tt, t))
      × ResetsAll
          (get_or m.variable i null_variable).self_constraint
          (set_value x v (mark_cached x s))
          t
unfolding store_value reset_self_constraints
store_value-done m x v i s e =
    let rest =
      reset_all_lem (get_or m.variable i null_variable).self_constraint
        (set_value x v (mark_cached x s)) in
    (rest.0, rw (e, reset_self_constraints) rest.1, rest.2)

read_back :
    (a : Attrs) (ty : VarType) (v : Value) (n : ℤ) (s t : State)
    → Reads ty v n
    → get a.type s.types ≡ some ty
    → OnlyStatus (set_value a.name v (mark_cached a.name s)) t
    → (u : State) × (get_var_value a t ≡ done (n, u))
read_back a ty v n s t r e o =
    let x = a.name in
    get_var_value-Reads ty v n a t r (set_value-Holds x v (mark_cached x s) t o)
      (ap (λ (u : State). get a.type u.types) o.same
        ∙ ap (get a.type) (set_value-types x v (mark_cached x s))
        ∙ e)
      (ap (λ (u : State). get x u.is_var_cached) o.same
        ∙ ap (get x) (set_value-is_var_cached x v (mark_cached x s))
        ∙ get-put_self x true s.is_var_cached)

-- For a variable of the table whose type, by the table of types, is that of an integer of 32 or 64
-- bits or a Boolean, and a value of this type, storeValue returns, and getVarValue of the variable
-- then returns the value as an int64_t: integers of 32 bits and int64_t as they are, a uint64_t by its
-- bit pattern, so that one from 2^63 on is negative, and a Boolean as 1 or 0.
pub store_value-get_var_value :
    (m : Tables) (a : Attrs) (i : ℕ) (ty : VarType) (v : Value) (n : ℤ) (s : State)
    → var_idx m a.name ≡ some i
    → Reads ty v n
    → get a.type s.types ≡ some ty
    → (t u : State) × (store_value m a.name v s ≡ done (tt, t)) × (get_var_value a t ≡ done (n, u))
store_value-get_var_value m a i ty v n s known r e =
    let stored = store_value-done m a.name v i s known in
    let read = read_back a ty v n s stored.0 r e (
      subst (Always (λ _ t. OnlyStatus (set_value a.name v (mark_cached a.name s)) t)) stored.1
        (store_value-OnlyStatus m a.name v s)) in
    (stored.0, read.0, stored.1, read.1)
