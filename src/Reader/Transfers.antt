-- ===== src/Reader/Transfers.antt =====
-- parcel_reader.cpp: the calls that read and copy a variable, by its type, and what they do to the
-- state.
use fans.Base.Map.{get}
use fans.Base.{◌≡◌, refl, sym, ◌∙◌, ap, Bool, true, false, List, [], ◌∷◌, some, none, if◌then◌else◌}
use fans.Base.Text.{Text, c_str}
use fans.VarType.{
  VarType, int32_type, int64_type, uint32_type, uint64_type, file_descriptor_type, float_type,
  double_type, string16_type, string8_type, cstring_type, bool_type,
}
use fans.Calls.{
  Call, Read, Reply, write_int32, write_int64, write_uint32, write_uint64, write_float,
  write_double, write_bool, write_string16, write_string8, write_cstring, write_file_descriptor,
  read_int32, read_uint32, read_int64, read_uint64, read_float, read_double, read_bool,
  read_string16, read_string8, read_cstring, read_utf8_from_utf16, read_file_descriptor, peek_byte,
}
use fans.Model.{Variable}
use fans.State.{State}
use fans.Parcel.Store.{
  Value, i32, u32, i64, u64, float, double, boolean, text, set_value, mark_cached,
}
use fans.Parcel.RoundTrip.{OnlyStatus, Holds}

-- The call on the reply for a type, the value that its answer stands for, and the call that copies
-- the answer.
pub data Transfers (replies : Reply) (variable : Variable) (h : List Read)
    : VarType → Read → Value → Call → Type 0 where
  of_int32 :
      Transfers replies variable h int32_type read_int32
        (i32 (replies.int32 h))
        (write_int32 (replies.int32 h))
  of_uint32 :
      Transfers replies variable h uint32_type read_uint32
        (u32 (replies.uint32 h))
        (write_uint32 (replies.uint32 h))
  of_int64 :
      Transfers replies variable h int64_type read_int64
        (i64 (replies.int64 h))
        (write_int64 (replies.int64 h))
  of_uint64 :
      Transfers replies variable h uint64_type read_uint64
        (u64 (replies.uint64 h))
        (write_uint64 (replies.uint64 h))
  of_float :
      Transfers replies variable h float_type read_float
        (float (replies.float h))
        (write_float (replies.float h))
  of_double :
      Transfers replies variable h double_type read_double
        (double (replies.double h))
        (write_double (replies.double h))
  of_string16 :
      Transfers replies variable h string16_type read_string16
        (text (c_str (replies.to_utf8 (replies.string16 h))))
        (write_string16 (replies.string16 h))
  of_string8 :
      Transfers replies variable h string8_type read_string8
        (text (c_str (replies.string8 h)))
        (write_string8 (replies.string8 h))
  of_file_descriptor :
      Transfers replies variable h file_descriptor_type read_file_descriptor
        (i32 (replies.file_descriptor h))
        (write_file_descriptor (replies.file_descriptor h) false)
  of_utf8 :
      variable.members.utf8 ≡ true
      → Transfers replies variable h cstring_type read_utf8_from_utf16
          (text (replies.utf8_from_utf16 h))
          (write_cstring (c_str (replies.utf8_from_utf16 h)))
  of_cstring :
      (c : Text)
      → variable.members.utf8 ≡ false
      → replies.cstring h ≡ some c
      → Transfers replies variable h cstring_type read_cstring
          (text (c_str c))
          (write_cstring (c_str c))
  of_null :
      variable.members.utf8 ≡ false
      → replies.cstring h ≡ none
      → Transfers replies variable h cstring_type read_cstring (text []) (write_cstring [])
  of_bool :
      variable.members.flattenable ≡ false
      → Transfers replies variable h bool_type read_bool
          (boolean (replies.bool h))
          (write_bool (replies.bool h))
  of_byte :
      variable.members.flattenable ≡ true
      → Transfers replies variable h bool_type peek_byte
          (boolean (replies.first_byte h))
          (write_bool (replies.first_byte h))

-- One call is made on the reply, the value is held under the name of the variable, and the target
-- parcel gets one call if a dependency is looked for, and none otherwise.
pub record Copies (x : Text) (call : Read) (value : Value) (copied : Call) (s t : State)
    : Type 0 where
  pub reply : t.reply ≡ call ∷ s.reply
  pub target : t.target ≡ (if s.is_dependency then copied ∷ s.target else s.target)
  pub written : t.written ≡ s.written
  pub holds : Holds x value t

-- What a state that has stored a value shares with the one before.
pub record Apart (s t : State) : Type 0 where
  pub reply : t.reply ≡ s.reply
  pub target : t.target ≡ s.target
  pub written : t.written ≡ s.written
  pub is_dependency : t.is_dependency ≡ s.is_dependency

pub Apart-set_value : (x : Text) (v : Value) (s : State) → Apart s (set_value x v (mark_cached x s))
Apart-set_value x (i32 n) s = record {
  reply = refl;
  target = refl;
  written = refl;
  is_dependency = refl;
}
Apart-set_value x _ s = record { reply = refl; target = refl; written = refl; is_dependency = refl }

pub Apart-OnlyStatus : (s t u : State) → Apart s t → OnlyStatus t u → Apart s u
Apart-OnlyStatus s t u a o = record {
  reply = ap (λ (v : State). v.reply) o.same ∙ a.reply;
  target = ap (λ (v : State). v.target) o.same ∙ a.target;
  written = ap (λ (v : State). v.written) o.same ∙ a.written;
  is_dependency = ap (λ (v : State). v.is_dependency) o.same ∙ a.is_dependency;
}

Holds-target :
    (x : Text) (v : Value) (u : State) (calls : List Call)
    → Holds x v u
    → Holds x v (record u { target = calls })
Holds-target x (i32 n) u calls h = h
Holds-target x (u32 n) u calls h = h
Holds-target x (i64 n) u calls h = h
Holds-target x (u64 n) u calls h = h
Holds-target x (float n) u calls h = h
Holds-target x (double n) u calls h = h
Holds-target x (boolean b) u calls h = h
Holds-target x (text c) u calls h = h

Holds-OnlyStatus : (x : Text) (v : Value) (t u : State) → Holds x v t → OnlyStatus t u → Holds x v u
Holds-OnlyStatus x (i32 n) t u h o = ap (λ (w : State). get x w.int_map) o.same ∙ h
Holds-OnlyStatus x (u32 n) t u h o = ap (λ (w : State). get x w.uint_map) o.same ∙ h
Holds-OnlyStatus x (i64 n) t u h o = ap (λ (w : State). get x w.int64_map) o.same ∙ h
Holds-OnlyStatus x (u64 n) t u h o = ap (λ (w : State). get x w.uint64_map) o.same ∙ h
Holds-OnlyStatus x (float n) t u h o = ap (λ (w : State). get x w.float_map) o.same ∙ h
Holds-OnlyStatus x (double n) t u h o = ap (λ (w : State). get x w.double_map) o.same ∙ h
Holds-OnlyStatus x (boolean b) t u h o = ap (λ (w : State). get x w.bool_map) o.same ∙ h
Holds-OnlyStatus x (text c) t u h o = ap (λ (w : State). get x w.string_map) o.same ∙ h

pub Copies-OnlyStatus :
    (x : Text) (call : Read) (value : Value) (copied : Call) (s t u : State)
    → Copies x call value copied s t
    → OnlyStatus t u
    → Copies x call value copied s u
Copies-OnlyStatus x call value copied s t u c o = record {
  reply = ap (λ (w : State). w.reply) o.same ∙ c.reply;
  target = ap (λ (w : State). w.target) o.same ∙ c.target;
  written = ap (λ (w : State). w.written) o.same ∙ c.written;
  holds = Holds-OnlyStatus x value t u c.holds o;
}

-- The copy, after the value is stored.
Copies-if :
    (x : Text) (call : Read) (value : Value) (copied : Call) (s u : State) (b : Bool)
    → s.is_dependency ≡ b
    → Apart (record s { reply = call ∷ s.reply }) u
    → Holds x value u
    → Copies x call value copied s (if b then record u { target = copied ∷ u.target } else u)
Copies-if x call value copied s u true e a h = record {
  reply = a.reply;
  target =
      ap (λ calls. copied ∷ calls) a.target
      ∙ ap (λ b. if b then copied ∷ s.target else s.target) (sym e);
  written = a.written;
  holds = Holds-target x value u _ h;
}
Copies-if x call value copied s u false e a h = record {
  reply = a.reply;
  target = a.target ∙ ap (λ b. if b then copied ∷ s.target else s.target) (sym e);
  written = a.written;
  holds = h;
}

pub Copies-forward :
    (x : Text) (call : Read) (value : Value) (copied : Call) (s u : State)
    → Apart (record s { reply = call ∷ s.reply }) u
    → Holds x value u
    → Copies x call value copied s
        (if u.is_dependency then record u { target = copied ∷ u.target } else u)
Copies-forward x call value copied s u a h =
    Copies-if x call value copied s u u.is_dependency (sym a.is_dependency) a h
