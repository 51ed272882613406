-- ===== src/Model.antt =====
-- The interface model that the fuzzer reads: the variables, loops and constraints of a transaction.
--
-- A `Json::Value` is seen through the answers of the jsoncpp accessors that the code calls on it, so
-- nothing is assumed of jsoncpp but that an accessor answers the same each time. Floats are carried
-- as bit patterns.
use Prim.Native.Nat.{max}
use fans.Base.{ℕ, suc, ◌∷◌, Bool, false, not, List, [], ◌==◌}
use fans.Base.Text.{Text}
use fans.Base.Int.{ℤ, pos}

-- The answers of `v["value"].asInt()`, `.asUInt()` and so on.
pub record Scalar : Type 0 where
  pub as_int : ℤ
  pub as_uint : ℕ
  pub as_int64 : ℤ
  pub as_uint64 : ℕ
  pub as_float : ℕ
  pub as_double : ℕ
  pub as_string : Text
  pub as_bool : Bool

-- What the code computes from `v["probability"].asFloat()`: `probability * 10` as a uint64_t,
-- `probability * 100` as a uint32_t, and whether a random float is greater.
pub record Probability : Type 0 where
  pub tenths : ℕ
  pub percent : ℕ
  pub exceeded_by : ℕ → Bool

-- The members that variables and constraints share.
pub record Attrs : Type 0 where
  pub name : Text
  pub opcode : Text
  pub type : Text
  pub has_name : Bool
  pub has_value : Bool
  pub value : Scalar
  pub probability : Probability

-- What the accessors answer on a value that is not there.
abbrev pub null_scalar : Scalar
null_scalar = record {
  as_int = pos 0;
  as_uint = 0;
  as_int64 = pos 0;
  as_uint64 = 0;
  as_float = 0;
  as_double = 0;
  as_string = [];
  as_bool = false;
}

abbrev pub null_attrs : Attrs
null_attrs = record {
  name = [];
  opcode = [];
  type = [];
  has_name = false;
  has_value = false;
  value = null_scalar;
  probability = record { tenths = 0; percent = 0; exceeded_by = λ r. not (r == 0) };
}

-- A constraint, or an operand of one, with its members "lhs" and "rhs". `null` is a missing member.
pub data Node : Type 0 where
  null : Node
  node : Attrs → Node → Node → Node

abbrev pub attrs : Node → Attrs
attrs null = null_attrs
attrs (node a l r) = a

abbrev pub lhs : Node → Node
lhs null = null
lhs (node a l r) = l

abbrev pub rhs : Node → Node
rhs null = null
rhs (node a l r) = r

-- `v["size"]`: the name of a variable, or a number.
pub data Size : Type 0 where
  size_of : Text → Size
  fixed : ℤ → Size

-- `under_constraint[i]`.
pub record Under : Type 0 where
  pub name : Text
  pub status : Bool

-- The other members of a variable, as the code tests them: utf8 and takeOwnership are the answers of
-- asBool(), `flattenable` that of isMember, `have_parcelable` whether it is 1, and `dependencies` the
-- size of "dependency".
pub record Members : Type 0 where
  pub utf8 : Bool
  pub flattenable : Bool
  pub have_parcelable : Bool
  pub take_ownership : Bool
  pub func_name : Text
  pub dependencies : ℕ

abbrev pub no_members : Members
no_members = record {
  utf8 = false;
  flattenable = false;
  have_parcelable = false;
  take_ownership = false;
  func_name = [];
  dependencies = 0;
}

-- An entry of the variable table.
pub record Variable : Type 0 where
  pub attrs : Attrs
  pub open attrs use *
  pub size : Size
  pub self_constraint : List Text
  pub under_constraint : List Under
  pub loop : List Text
  pub members : Members

-- An entry of the loop table: its members "counter", "constraint" and "inc".
pub record Loop : Type 0 where
  pub name : Text
  pub counter_name : Text
  pub counter_type : Text
  pub counter_value : ℕ
  pub constraint : Text
  pub inc_opcode : Text

-- The tables that a `ParcelReaderWriter` holds by reference.
pub record Tables : Type 0 where
  pub variable : List Variable
  pub loop : List Loop
  pub constraint : List Node

-- Entries that stand for an index out of range.
abbrev pub no_loop : Loop
no_loop = record {
  name = [];
  counter_name = [];
  counter_type = [];
  counter_value = 0;
  constraint = [];
  inc_opcode = [];
}

abbrev pub null_variable : Variable
null_variable = record {
  attrs = null_attrs;
  size = fixed (pos 0);
  self_constraint = [];
  under_constraint = [];
  loop = [];
  members = no_members;
}

-- How deep constraints nest, and the depth of the deepest of a table.
abbrev pub depth : Node → ℕ
depth null = 0
depth (node a l r) = suc (max (depth l) (depth r))

abbrev pub max_depth : List Node → ℕ
max_depth [] = 0
max_depth (c ∷ cs) = max (depth c) (max_depth cs)
