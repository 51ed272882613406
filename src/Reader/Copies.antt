-- ===== src/Reader/Copies.antt =====
-- parcel_reader.cpp: what is read, what is stored and what is copied, for the types of numbers and
-- strings.
use mathlib.Core.Path.{subst}
use mathlib.Core.Bool.{true≢false}
use fans.Base.{ℕ, ◌≡◌, refl, sym, ap, Bool, true, false, List, [], ◌∷◌, some, if◌then◌else◌}
use fans.Base.Text.{Text, c_str, c_str-c_str}
use fans.Exec.{Exec, done, exits, raw_mode}
use fans.Exec.Total.{bind-done}
use fans.Exec.Yields.{Yields, Yields-bind, Yields-map}
use fans.VarType.{VarType}
use fans.Calls.{Call, Read, Reply, write_cstring, read_cstring}
use fans.Model.{Tables, Variable}
use fans.State.{State}
use fans.TypeMap.{type_of, get_var_type_enum}
use fans.Parcel.Lookup.{var_idx}
use fans.Parcel.Store.{Value, text, set_value, mark_cached, store_value, reset_self_constraints}
use fans.Parcel.RoundTrip.{OnlyStatus, set_value-Holds}
use fans.Parcel.Stores.{store_value-Yields, reset_self_constraints-Yields}
use fans.Reader.{
  Parts, or_empty, check_is_raw, read_plain, read_cstring_value, read_bool_value, read_by_type,
  read,
}
use fans.Reader.Transfers.{
  Transfers, Copies, of_int32, of_uint32, of_int64, of_uint64, of_float, of_double, of_string16,
  of_string8, of_file_descriptor, of_utf8, of_cstring, of_null, of_bool, of_byte, Apart-set_value,
  Apart-OnlyStatus, Copies-OnlyStatus, Copies-forward,
}

under_if :
    {A : Type 0} (P : A → State → Type 0) (b : Bool) (first second : Exec State A) (s : State)
    → b ≡ true
    → Yields P (first s)
    → Yields P ((if b then first else second) s)
under_if P true first second s e h = h
under_if P false first second s e h = absurd (true≢false (sym e))

under_else :
    {A : Type 0} (P : A → State → Type 0) (b : Bool) (first second : Exec State A) (s : State)
    → b ≡ false
    → Yields P (second s)
    → Yields P ((if b then first else second) s)
under_else P true first second s e h = absurd (true≢false e)
under_else P false first second s e h = h

check_is_raw-parcel : (s : State) → s.is_raw ≡ false → check_is_raw s ≡ done (tt, s)
unfolding check_is_raw
check_is_raw-parcel s e = ap (λ b. if b then exits raw_mode else done (tt, s)) e

module _ (m : Tables) (replies : Reply) (parts : Parts) (variable : Variable) (i : ℕ)
    (known : var_idx m variable.name ≡ some i) where
  module _ {A : Type 0} (call : Read) (answer : List Read → A) (stored : A → Value)
      (copied : A → Call) where
    read_plain-Copies :
        (s : State)
        → s.is_raw ≡ false
        → Yields
            (λ _ t.
              Copies variable.name call (stored (answer s.reply)) (copied (answer s.reply)) s t)
            (read_plain m replies parts variable call answer stored copied s)
    unfolding read_plain
    read_plain-Copies s e =
        let asked = record s { reply = call ∷ s.reply } in
        let value = stored (answer s.reply) in
        subst (Yields _) (sym (bind-done check_is_raw _ s s tt (check_is_raw-parcel s e))) (
          Yields-bind
            (λ _ u. OnlyStatus (set_value variable.name value (mark_cached variable.name asked)) u)
            _ (store_value m variable.name value) _ asked
            (store_value-Yields m variable.name i known value asked)
            (λ _ u o.
              Copies-forward variable.name call value (copied (answer s.reply)) s u
                (Apart-OnlyStatus asked _ u (Apart-set_value variable.name value asked) o)
                (set_value-Holds variable.name value (mark_cached variable.name asked) u o)))

  plain_cstring-Copies :
      (s : State) (v : Text)
      → s.is_raw ≡ false
      → or_empty (replies.cstring s.reply) ≡ v
      → c_str v ≡ v
      → Yields
          (λ _ t. Copies variable.name read_cstring (text v) (write_cstring v) s t)
          (read_plain m replies parts variable read_cstring
            (λ calls. or_empty (replies.cstring calls))
            text
            (λ v. write_cstring (c_str v))
            s)
  plain_cstring-Copies s v e k same =
      let o =
        read_plain m replies parts variable read_cstring (λ calls. or_empty (replies.cstring calls))
          text (λ v. write_cstring (c_str v)) s in
      let Done = λ (v w : Text).
        Yields (λ _ t. Copies variable.name read_cstring (text v) (write_cstring w) s t) o in
      subst (Done v) same (
        subst (λ w. Done w (c_str w)) k
          (read_plain-Copies _ _ text (λ v. write_cstring (c_str v)) s e))

  read_by_type-Copies :
      (s : State) (type : VarType) (call : Read) (value : Value) (copied : Call)
      → s.is_raw ≡ false
      → Transfers replies variable s.reply type call value copied
      → Yields
          (λ _ t. Copies variable.name call value copied s t)
          (read_by_type m replies parts variable type s)
  unfolding read_by_type read_cstring_value c_str read_bool_value
  read_by_type-Copies s _ _ _ _ e of_int32 = read_plain-Copies _ _ _ _ s e
  read_by_type-Copies s _ _ _ _ e of_uint32 = read_plain-Copies _ _ _ _ s e
  read_by_type-Copies s _ _ _ _ e of_int64 = read_plain-Copies _ _ _ _ s e
  read_by_type-Copies s _ _ _ _ e of_uint64 = read_plain-Copies _ _ _ _ s e
  read_by_type-Copies s _ _ _ _ e of_float = read_plain-Copies _ _ _ _ s e
  read_by_type-Copies s _ _ _ _ e of_double = read_plain-Copies _ _ _ _ s e
  read_by_type-Copies s _ _ _ _ e of_string16 = read_plain-Copies _ _ _ _ s e
  read_by_type-Copies s _ _ _ _ e of_string8 = read_plain-Copies _ _ _ _ s e
  read_by_type-Copies s _ _ _ _ e of_file_descriptor = read_plain-Copies _ _ _ _ s e
  read_by_type-Copies s _ _ _ _ e (of_utf8 b) = under_if _ _ _ _ s b (read_plain-Copies _ _ _ _ s e)
  read_by_type-Copies s _ _ _ _ e (of_cstring c b k) =
      under_else _ _ _ _ s b (plain_cstring-Copies s (c_str c) e (ap or_empty k) (c_str-c_str c))
  read_by_type-Copies s _ _ _ _ e (of_null b k) =
      under_else _ _ _ _ s b (plain_cstring-Copies s [] e (ap or_empty k) refl)
  read_by_type-Copies s _ _ _ _ e (of_bool b) =
      under_else _ _ _ _ s b (read_plain-Copies _ _ _ _ s e)
  read_by_type-Copies s _ _ _ _ e (of_byte b) = under_if _ _ _ _ s b (read_plain-Copies _ _ _ _ s e)

  get_var_type_enum-known :
      (s : State) (type : VarType)
      → type_of s.types variable.type ≡ some type
      → get_var_type_enum variable.type s ≡ done (type, s)
  unfolding get_var_type_enum
  get_var_type_enum-known s type e = rw (e, get_var_type_enum) refl

  -- The reading of a variable of the table comes back outside raw mode, if its type is that of an
  -- integer of 32 or 64 bits, a float, a double, a Boolean, a file descriptor, a String16, a String8
  -- or a C string, which may be NULL: it has made the one call of the type on the reply, holds the
  -- value that was answered ("" for NULL), and has copied it to the target parcel by the one call of
  -- the type if a dependency is looked for, and by none otherwise.
  pub read_refines :
      (s : State) (type : VarType) (call : Read) (value : Value) (copied : Call)
      → s.is_raw ≡ false
      → type_of s.types variable.type ≡ some type
      → Transfers replies variable s.reply type call value copied
      → Yields (λ _ t. Copies variable.name call value copied s t) (read m replies parts variable s)
  unfolding read
  read_refines s type call value copied e typed h =
      subst (Yields _)
        (sym (
          bind-done (get_var_type_enum variable.type) _ s s type
            (get_var_type_enum-known s type typed)))
        (Yields-bind _ _ (read_by_type m replies parts variable type) _ s
          (read_by_type-Copies s type call value copied e h)
          (λ _ t c.
            Yields-map _ _ (reset_self_constraints m variable.name t)
              (reset_self_constraints-Yields m variable.name i known t)
              (λ _ u o. Copies-OnlyStatus variable.name call value copied s t u c o)))
