-- ===== src/Tests.antt =====
-- The properties at concrete inputs. This file holds the inputs.
mod Walk
mod Store
mod Check
mod Generate
mod Service
mod Strings
mod Items
mod Arrays
mod Functions
mod Structures
use Prim.Native.String.{String}
use fans.Base.{ℕ, suc, ◌+◌, ◌*◌, map, Bool, true, false, List, [], ◌∷◌, ◌==◌, ltb, leb}
use fans.Base.Text.{Text, codes}
use fans.Base.Int.{ℤ, pos}
use fans.Base.Map.{Map}
use fans.Exec.{Exec, done}
use fans.Random.{Rng}
use fans.VarType.{VarType, int32_type, uint32_type}
use fans.Model.{
  Attrs, Scalar, Probability, Node, null, node, Variable, no_members, Loop, Tables, fixed,
  null_attrs, null_scalar,
}
use fans.State.{State, Operation, read_reply, write_data, fresh}
use fans.Checker.{Floats}
use fans.IntType.{Platform}
use fans.IntType.Draws.{enum_names}

abbrev pub counting : Rng
counting n = n

abbrev pub bit_patterns : Floats
bit_patterns = record { lt = ltb; le = leb; eq = ◌==◌; to_uint64 = λ n. n }

abbrev pub types : Map VarType
types = (codes "int32_t", int32_type) ∷ (codes "uint32_t", uint32_type) ∷ []

-- A member of the model with a name, an opcode and a type.
abbrev member : String → String → String → Attrs
member name opcode type = record null_attrs {
  name = codes name;
  opcode = codes opcode;
  type = codes type;
  has_name = true;
  probability = record { tenths = 9; percent = 90; exceeded_by = λ r. ltb 5 r };
}

abbrev literal_of : ℕ → Attrs
literal_of n = record (member "" "" "IntegerLiteral") {
  has_value = true;
  value = record null_scalar { as_int = pos n; as_uint = n };
}

-- i < 3, and its conjunction with size < 8
abbrev pub less_than_3 : Node
less_than_3 =
    node (member "constraint0" "<" "bool") (node (member "i" "" "uint32_t") null null)
      (node (literal_of 3) null null)

abbrev less_than_8 : Node
less_than_8 =
    node (member "constraint1_rhs" "<" "bool") (node (member "size" "" "int32_t") null null)
      (node (literal_of 8) null null)

abbrev pub both : Node
both = node (member "constraint1" "&&" "bool") less_than_3 less_than_8

abbrev pub item : Variable
item = record {
  attrs = member "item" "" "int32_t";
  size = fixed (pos 1);
  self_constraint = codes "constraint1_rhs" ∷ [];
  under_constraint = [];
  loop = codes "loop0" ∷ [];
  members = no_members;
}

abbrev pub size : Variable
size = record item { attrs = member "size" "" "int32_t"; loop = [] }

abbrev pub counter : Variable
counter = record size { attrs = member "i" "" "uint32_t"; self_constraint = [] }

-- for (uint32_t i = 0; i < 3; ++i)
abbrev loop0 : Loop
loop0 = record {
  name = codes "loop0";
  counter_name = codes "i";
  counter_type = codes "uint32_t";
  counter_value = 0;
  constraint = codes "constraint0";
  inc_opcode = codes "++";
}

abbrev pub tables : Tables
tables = record {
  variable = size ∷ item ∷ counter ∷ [];
  loop = loop0 ∷ [];
  constraint = less_than_3 ∷ both ∷ [];
}

abbrev pub start_state : State
start_state = fresh write_data types (codes "size" ∷ codes "item" ∷ []) counting counting

abbrev pub platform : Platform
platform = record {
  number_of_cameras = 2;
  pid = 1000;
  af_inet = 2;
  af_inet6 = 10;
  sockaddr_in_size = 16;
  inet_addr = λ a b c d. a + 256 * b + 65536 * c + 16777216 * d;
}

-- Every enumeration that is named has the values 0 and 1.
abbrev pub enums : Map (List ℕ)
enums = map (λ name. (codes name, 0 ∷ 1 ∷ [])) enum_names
