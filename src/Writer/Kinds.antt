-- ===== src/Writer/Kinds.antt =====
-- `generate` of parcel_writer.cpp: the type of the value that it returns.
use fans.Base.{ℕ, zero, suc, ◌+◌, List, [], Option, none, some, get_or, Bool, ◌||◌}
use fans.Base.Text.{Text, codes, text_eq}
use fans.Base.Int.{ℤ}
use fans.Exec.{Exec, bad_special_opcode}
use fans.Exec.Gives.{Gives, Gives-pure, Gives-exit, Gives-if, Gives-bind, Gives-after}
use fans.Random.{random_float, random_double}
use fans.Model.{Node, null, attrs, max_depth, Scalar, Tables, Variable}
use fans.State.{State, draw}
use fans.Parcel.Store.{Value, i32, u32, i64, u64, float, double, boolean, text, store_value}
use fans.Parcel.Select.{select_one_self_constraint}
use fans.Checker.{Floats, check_constraint_set}
use fans.Checker.Special.{
  Kind, int_kind, uint_kind, int64_kind, uint64_kind, string_kind, float_kind, double_kind,
  bool_kind, literal, zero_of, is_equality, pick_position, special_positions, should_generate,
  special_value, value_at, get_value_from_special_self_constraint, get_try_count,
}
use fans.Strings.{Seeds}
use fans.Writer.{try_generate, generate_for, generate}
use fans.Writer.Items.{Parts, produce}

-- The value has the type of the kind.
pub data IsKind : Kind → Value → Type 0 where
  is_int : (n : ℤ) → IsKind int_kind (i32 n)
  is_uint : (n : ℕ) → IsKind uint_kind (u32 n)
  is_int64 : (n : ℤ) → IsKind int64_kind (i64 n)
  is_uint64 : (n : ℕ) → IsKind uint64_kind (u64 n)
  is_string : (t : Text) → IsKind string_kind (text t)
  is_float : (n : ℕ) → IsKind float_kind (float n)
  is_double : (n : ℕ) → IsKind double_kind (double n)
  is_bool : (b : Bool) → IsKind bool_kind (boolean b)

abbrev IfSome : Kind → Option Value → Type 0
IfSome kind none = Unit
IfSome kind (some v) = IsKind kind v

literal-IsKind : (kind : Kind) (v : Scalar) → IsKind kind (literal kind v)
literal-IsKind int_kind v = is_int _
literal-IsKind uint_kind v = is_uint _
literal-IsKind int64_kind v = is_int64 _
literal-IsKind uint64_kind v = is_uint64 _
literal-IsKind string_kind v = is_string _
literal-IsKind float_kind v = is_float _
literal-IsKind double_kind v = is_double _
literal-IsKind bool_kind v = is_bool _

zero_of-IsKind : (kind : Kind) → IsKind kind (zero_of kind)
zero_of-IsKind int_kind = is_int _
zero_of-IsKind uint_kind = is_uint _
zero_of-IsKind int64_kind = is_int64 _
zero_of-IsKind uint64_kind = is_uint64 _
zero_of-IsKind string_kind = is_string _
zero_of-IsKind float_kind = is_float _
zero_of-IsKind double_kind = is_double _
zero_of-IsKind bool_kind = is_bool _

module _ (floats : Floats) (m : Tables) where
  special_value-Gives :
      (kind : Kind) (c : Node) → Gives (IfSome kind) (special_value floats m kind c)
  unfolding special_value
  special_value-Gives kind c =
      Gives-if (IfSome kind) (is_equality c) _ _
        (Gives-pure (IfSome kind) _ (literal-IsKind kind _))
        (Gives-if (IfSome kind)
          (text_eq (attrs c).opcode [] || text_eq (attrs c).opcode (codes "!")) _ _
          (Gives-pure (IfSome kind) _ (zero_of-IsKind kind)) (Gives-exit _ bad_special_opcode))

  value_at-Gives :
      (kind : Kind) (cs : List Node) (o : Option ℕ)
      → Gives (IfSome kind) (value_at floats m kind cs o)
  unfolding value_at
  value_at-Gives kind cs none = Gives-pure (IfSome kind) _ tt
  value_at-Gives kind cs (some i) =
      Gives-after (IfSome kind) (should_generate floats m (get_or cs i null)) _ (λ b.
        Gives-if (IfSome kind) b _ _ (special_value-Gives kind _) (Gives-pure (IfSome kind) _ tt))

  module _ (var : Variable) (made : Exec State Value) (kind : Kind)
      (made_ok : Gives (IsKind kind) made) where
    try_generate-Gives :
        (cs : List Node) (tries : ℕ) (value : Value)
        → IsKind kind value
        → Gives (IsKind kind) (try_generate floats m var made cs tries value)
    unfolding try_generate
    try_generate-Gives cs zero value h = Gives-pure _ value h
    try_generate-Gives cs (suc tries) value h =
        Gives-bind (IsKind kind) (IsKind kind) made _ made_ok (λ next good.
          Gives-after (IsKind kind) (store_value m var.name next) _ (λ _.
            Gives-after (IsKind kind) (check_constraint_set floats m (max_depth cs + 3) cs) _ (λ b.
              Gives-if (IsKind kind) b _ _ (Gives-pure _ next good)
                (try_generate-Gives cs tries next good))))

    generate_for-Gives :
        (cs : List Node) (u : Value) (o : Option Value)
        → IsKind kind u
        → IfSome kind o
        → Gives (IsKind kind) (generate_for floats m var made cs u o)
    unfolding generate_for
    generate_for-Gives cs u none h k = try_generate-Gives cs (get_try_count cs) u h
    generate_for-Gives cs u (some v) h k =
        Gives-after (IsKind kind) (store_value m var.name v) _ (λ _. Gives-pure _ v k)

    pub generate-Gives :
        (u : Value) → IsKind kind u → Gives (IsKind kind) (generate floats m var made kind u)
    unfolding generate get_value_from_special_self_constraint
    generate-Gives u h = Gives-after (IsKind kind) (select_one_self_constraint m var) _ (λ cs.
        Gives-bind (IfSome kind) (IsKind kind)
          (get_value_from_special_self_constraint floats m kind cs) _
          (Gives-after (IfSome kind) (pick_position (special_positions 0 cs)) _
            (λ o. value_at-Gives kind cs o))
          (λ o k. generate_for-Gives cs u o h k))

  pub produce-Gives :
      (seeds : Seeds) (patience : ℕ) (parts : Parts) (variable : Variable) (kind : Kind)
      → Gives (IsKind kind) (produce floats m seeds patience parts variable kind)
  unfolding produce
  produce-Gives seeds patience parts variable int_kind =
      Gives-after _ _ _ (λ v. Gives-pure _ _ (is_int _))
  produce-Gives seeds patience parts variable uint_kind =
      Gives-after _ _ _ (λ v. Gives-pure _ _ (is_uint _))
  produce-Gives seeds patience parts variable int64_kind =
      Gives-after _ _ _ (λ v. Gives-pure _ _ (is_int64 _))
  produce-Gives seeds patience parts variable uint64_kind =
      Gives-after _ _ _ (λ v. Gives-pure _ _ (is_uint64 _))
  produce-Gives seeds patience parts variable string_kind =
      Gives-after _ _ _ (λ v. Gives-pure _ _ (is_string _))
  produce-Gives seeds patience parts variable float_kind =
      Gives-after _ (draw random_float) _ (λ v. Gives-pure _ (float v) (is_float v))
  produce-Gives seeds patience parts variable double_kind =
      Gives-after _ (draw random_double) _ (λ v. Gives-pure _ (double v) (is_double v))
  produce-Gives seeds patience parts variable bool_kind =
      Gives-after _ _ _ (λ v. Gives-pure _ _ (is_bool _))
