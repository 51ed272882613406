-- ===== src/Parcel/Updates.antt =====
-- storeValue of parcel_reader_writer.cpp, stated on one map from types and names to values.
use mathlib.Core.Option.{map}
use mathlib.Core.Path.{subst}
use fans.Base.{
  ℕ, ◌≡◌, ◌≢◌, ◌⊎◌, refl, sym, ap, ◌∙◌, Bool, true, List, Option, none, some, if◌then◌else◌, inl,
  inr, Bool-cases, All, get_or,
}
use fans.Base.Text.{Text, text_eq, text_eq_iff}
use fans.Base.Map.{Map, get, put, get-put, get-put_self}
use fans.Exec.{done}
use fans.Exec.Total.{Always}
use fans.Model.{Tables, null_variable}
use fans.State.{State}
use fans.Parcel.Lookup.{var_idx}
use fans.Parcel.Store.{
  Value, i32, i64, u32, u64, float, double, boolean, text, set_value, mark_cached, store_value,
}
use fans.Parcel.Reset.{Ancestor, ResetsAll}
use fans.Parcel.RoundTrip.{
  set_value-is_var_cached, OnlyStatus, store_value-OnlyStatus, store_value-done,
}

-- The types of the maps.
pub data Slot : Type 0 where
  int_slot uint_slot int64_slot uint64_slot float_slot double_slot bool_slot string_slot : Slot

pub slot_of : Value → Slot
slot_of (i32 n) = int_slot
slot_of (u32 n) = uint_slot
slot_of (i64 n) = int64_slot
slot_of (u64 n) = uint64_slot
slot_of (float n) = float_slot
slot_of (double n) = double_slot
slot_of (boolean b) = bool_slot
slot_of (text t) = string_slot

-- The value of a type that a state has under a name.
pub value_in : Slot → Text → State → Option Value
value_in int_slot x s = map i32 (get x s.int_map)
value_in uint_slot x s = map u32 (get x s.uint_map)
value_in int64_slot x s = map i64 (get x s.int64_map)
value_in uint64_slot x s = map u64 (get x s.uint64_map)
value_in float_slot x s = map float (get x s.float_map)
value_in double_slot x s = map double (get x s.double_map)
value_in bool_slot x s = map boolean (get x s.bool_map)
value_in string_slot x s = map text (get x s.string_map)

-- The state `s` with the maps of `t` that hold values, marks and statuses.
abbrev pub with_maps_of : State → State → State
with_maps_of t s = record s {
  is_var_cached = t.is_var_cached;
  int_map = t.int_map;
  uint_map = t.uint_map;
  int64_map = t.int64_map;
  uint64_map = t.uint64_map;
  float_map = t.float_map;
  double_map = t.double_map;
  bool_map = t.bool_map;
  string_map = t.string_map;
  constraint_status = t.constraint_status;
}

-- From `s` to `t` the variable gets the value, as one of its type, and is marked as cached; all other
-- variables, and those of that name in the maps of other types, keep their values and marks; the
-- statuses of the constraints `cs`, and of those that these are operands of, are forgotten, and all
-- others kept; the rest of the state stays.
pub record Updates (cs : List Text) (x : Text) (v : Value) (s t : State) : Type 0 where
  pub stored : value_in (slot_of v) x t ≡ some v
  pub kept :
      (slot : Slot) (y : Text)
      → (slot ≢ slot_of v) ⊎ (y ≢ x)
      → value_in slot y t ≡ value_in slot y s
  pub cached :
      (y : Text)
      → get y t.is_var_cached ≡ (if text_eq x y then some true else get y s.is_var_cached)
  pub forgotten : All (λ c. (k : Text) → Ancestor c k → get k t.constraint_status ≡ none) cs
  pub status_kept :
      (k : Text)
      → All (λ c. ¬ Ancestor c k) cs
      → get k t.constraint_status ≡ get k s.constraint_status
  pub rest : t ≡ with_maps_of t s

value_in-OnlyStatus :
    (slot : Slot) (y : Text) (s t : State) → OnlyStatus s t → value_in slot y t ≡ value_in slot y s
unfolding value_in
value_in-OnlyStatus int_slot y s t o = ap (λ (u : State). map i32 (get y u.int_map)) o.same
value_in-OnlyStatus uint_slot y s t o = ap (λ (u : State). map u32 (get y u.uint_map)) o.same
value_in-OnlyStatus int64_slot y s t o = ap (λ (u : State). map i64 (get y u.int64_map)) o.same
value_in-OnlyStatus uint64_slot y s t o = ap (λ (u : State). map u64 (get y u.uint64_map)) o.same
value_in-OnlyStatus float_slot y s t o = ap (λ (u : State). map float (get y u.float_map)) o.same
value_in-OnlyStatus double_slot y s t o = ap (λ (u : State). map double (get y u.double_map)) o.same
value_in-OnlyStatus bool_slot y s t o = ap (λ (u : State). map boolean (get y u.bool_map)) o.same
value_in-OnlyStatus string_slot y s t o = ap (λ (u : State). map text (get y u.string_map)) o.same

value_in-set_value :
    (x : Text) (v : Value) (s : State) → value_in (slot_of v) x (set_value x v s) ≡ some v
unfolding value_in slot_of
value_in-set_value x (i32 n) s = ap (map i32) (get-put_self x n s.int_map)
value_in-set_value x (u32 n) s = ap (map u32) (get-put_self x n s.uint_map)
value_in-set_value x (i64 n) s = ap (map i64) (get-put_self x n s.int64_map)
value_in-set_value x (u64 n) s = ap (map u64) (get-put_self x n s.uint64_map)
value_in-set_value x (float n) s = ap (map float) (get-put_self x n s.float_map)
value_in-set_value x (double n) s = ap (map double) (get-put_self x n s.double_map)
value_in-set_value x (boolean b) s = ap (map boolean) (get-put_self x b s.bool_map)
value_in-set_value x (text c) s = ap (map text) (get-put_self x c s.string_map)

get-put_other : {V : Type 0} (x y : Text) (v : V) (m : Map V) → y ≢ x → get y (put x v m) ≡ get y m
get-put_other x y v m h = elim (Bool-cases (text_eq x y)) [
  | inl e ↦ absurd (h (sym ((text_eq_iff x y).0 e)))
  | inr e ↦ get-put x y v m ∙ rw e refl
]

-- Another variable, in the map that the value goes to.
other_in-set_value :
    (x y : Text) (v : Value) (s : State)
    → y ≢ x
    → value_in (slot_of v) y (set_value x v s) ≡ value_in (slot_of v) y s
unfolding value_in slot_of
other_in-set_value x y (i32 n) s h = ap (map i32) (get-put_other x y n s.int_map h)
other_in-set_value x y (u32 n) s h = ap (map u32) (get-put_other x y n s.uint_map h)
other_in-set_value x y (i64 n) s h = ap (map i64) (get-put_other x y n s.int64_map h)
other_in-set_value x y (u64 n) s h = ap (map u64) (get-put_other x y n s.uint64_map h)
other_in-set_value x y (float n) s h = ap (map float) (get-put_other x y n s.float_map h)
other_in-set_value x y (double n) s h = ap (map double) (get-put_other x y n s.double_map h)
other_in-set_value x y (boolean b) s h = ap (map boolean) (get-put_other x y b s.bool_map h)
other_in-set_value x y (text c) s h = ap (map text) (get-put_other x y c s.string_map h)

-- The maps of the other types stay.
slot_in-set_value :
    (slot : Slot) (x y : Text) (v : Value) (s : State)
    → (slot ≡ slot_of v) ⊎ (value_in slot y (set_value x v s) ≡ value_in slot y s)
unfolding value_in slot_of
slot_in-set_value int_slot x y (i32 n) s = inl refl
slot_in-set_value uint_slot x y (u32 n) s = inl refl
slot_in-set_value int64_slot x y (i64 n) s = inl refl
slot_in-set_value uint64_slot x y (u64 n) s = inl refl
slot_in-set_value float_slot x y (float n) s = inl refl
slot_in-set_value double_slot x y (double n) s = inl refl
slot_in-set_value bool_slot x y (boolean b) s = inl refl
slot_in-set_value string_slot x y (text c) s = inl refl
slot_in-set_value int_slot x y _ s = inr refl
slot_in-set_value uint_slot x y _ s = inr refl
slot_in-set_value int64_slot x y _ s = inr refl
slot_in-set_value uint64_slot x y _ s = inr refl
slot_in-set_value float_slot x y _ s = inr refl
slot_in-set_value double_slot x y _ s = inr refl
slot_in-set_value bool_slot x y _ s = inr refl
slot_in-set_value string_slot x y _ s = inr refl

value_in-mark_cached :
    (slot : Slot) (x y : Text) (s : State) → value_in slot y (mark_cached x s) ≡ value_in slot y s
unfolding value_in
value_in-mark_cached int_slot x y s = refl
value_in-mark_cached _ x y s = refl

kept-set_value :
    (slot : Slot) (x y : Text) (v : Value) (s : State)
    → (slot ≢ slot_of v) ⊎ (y ≢ x)
    → value_in slot y (set_value x v s) ≡ value_in slot y s
kept-set_value slot x y v s (inr other) = elim (slot_in-set_value slot x y v s) [
  | inl e ↦
      subst (λ k. value_in k y (set_value x v s) ≡ value_in k y s) (sym e)
        (other_in-set_value x y v s other)
  | inr same ↦ same
]
kept-set_value slot x y v s (inl other) = elim (slot_in-set_value slot x y v s) [
  | inl e ↦ absurd (other e)
  | inr same ↦ same
]

set_value-constraint_status :
    (x : Text) (v : Value) (s : State)
    → (set_value x v (mark_cached x s)).constraint_status ≡ s.constraint_status
set_value-constraint_status x (i32 n) s = refl
set_value-constraint_status x _ s = refl

set_value-rest :
    (x : Text) (v : Value) (s : State) (status : Map Bool)
    → let u = record (set_value x v (mark_cached x s)) { constraint_status = status } in
      u ≡ with_maps_of u s
set_value-rest x (i32 n) s status = refl
set_value-rest x _ s status = refl

OnlyStatus-Updates :
    (cs : List Text) (x : Text) (v : Value) (s t : State)
    → OnlyStatus (set_value x v (mark_cached x s)) t
    → ResetsAll cs (set_value x v (mark_cached x s)) t
    → Updates cs x v s t
OnlyStatus-Updates cs x v s t o r =
    let marked = mark_cached x s in
    let u = set_value x v marked in
    record {
      stored = value_in-OnlyStatus (slot_of v) x u t o ∙ value_in-set_value x v marked;
      kept = λ slot y h.
          value_in-OnlyStatus slot y u t o
          ∙ kept-set_value slot x y v marked h
          ∙ value_in-mark_cached slot x y s;
      cached = λ y.
          ap (λ (w : State). get y w.is_var_cached) o.same
          ∙ ap (get y) (set_value-is_var_cached x v marked)
          ∙ get-put x y true s.is_var_cached;
      forgotten = r.forgets;
      status_kept = λ k h. r.keeps k h ∙ ap (get k) (set_value-constraint_status x v s);
      rest =
          subst (λ w. w ≡ with_maps_of w s) (sym o.same) (set_value-rest x v s t.constraint_status);
    }

-- For a variable of the table, storeValue returns. The variable then has the value, in the map of its
-- type, and is marked as cached; all other entries of the maps of values and marks are as they
-- were. The statuses of the constraints on the variable, and of those that they are operands of, are
-- forgotten, and all others kept. Nothing else changes.
pub store_value_lem :
    (m : Tables) (x : Text) (v : Value) (i : ℕ) (s : State)
    → var_idx m x ≡ some i
    → (t : State) × (store_value m x v s ≡ done (tt, t))
      × Updates (get_or m.variable i null_variable).self_constraint x v s t
store_value_lem m x v i s known =
    let stored = store_value-done m x v i s known in
    let only =
      subst (Always (λ _ t. OnlyStatus (set_value x v (mark_cached x s)) t)) stored.1
        (store_value-OnlyStatus m x v s) in
    (stored.0, stored.1, OnlyStatus-Updates _ x v s stored.0 only stored.2)
