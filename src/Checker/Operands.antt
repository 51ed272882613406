-- ===== src/Checker/Operands.antt =====
-- The operands of a constraint in constraint_checker.cpp: comparisons, tests of one variable, and the
-- values that are still missing.
use fans.Base.{
  ℕ, suc, ◌+◌, ◌≤◌, ◌≡◌, refl, Bool, true, Option, some, if◌then◌else◌, arith, inl, inr, Bool-cases,
  Option-cases, get_or, get_elem?, find_index_found, get_or-get_elem?,
}
use fans.Base.Text.{Text, text_eq, text_eq→eq}
use fans.Base.Map.{at}
use fans.Exec.{Exec, gets}
use fans.Exec.Total.{Total, Total-gets, Total-bind}
use fans.Random.{n_out_of}
use fans.Model.{Attrs, Node, attrs, lhs, rhs, Tables, Loop, no_loop}
use fans.State.{State}
use fans.VarType.{VarType}
use fans.Parcel.Lookup.{get_var_cached_status, get_counter_loop_idx}
use fans.Parcel.Grows.{Grows, Grows-preorder, Grows_of_same, Stored, type_at-Total}
use fans.Checker.{
  Floats, Order, compare, operand_type, int_operands, compare_cached, compare_values, float_order,
  not_of, self_of, truth_of, guess, truth, check_not, check_self, counter_of,
}

pub compare-Total :
    {A : Type 0} (o : Order A) (op : Text) (l r : A) → Total Grows (compare o op l r)
unfolding compare
compare-Total o op l r = record { run = λ s. ground (arith, Grows-preorder.reflexive s) }

pub guess-Total : (c : Node) → Total Grows (guess c)
unfolding n_out_of
guess-Total c = record {
  run = λ s. ground (
    arith,
    Grows_of_same s (record s { rng = λ n. s.rng (suc n) })
        (refl, refl, refl, refl, refl, refl, refl),
  );
}

pub operand_type-Total : (t : Text) → Total Grows (operand_type t)
unfolding operand_type
operand_type-Total t = record { run = λ s. ground (arith, Grows-preorder.reflexive s) }

pub compare_cached-Total :
    (f : Floats) (op : Text) (lt rt : VarType) (l r : Attrs)
    → Total Grows (compare_cached f op lt rt l r)
unfolding compare_cached
compare_cached-Total f op lt rt l r = record {
  run = λ s. elim (Option-cases (int_operands lt rt l r s)) [
    | inr (p, e) ↦ rw (e, compare_cached) ((compare-Total _ op p.0 p.1).run s)
    | inl e ↦
        rw (e, compare_cached)
          (ground (
            arith,
            (compare-Total (float_order f) op (at l.name 0 s.float_map)
                  (at r.name 0 s.float_map)).run
                s,
            Grows-preorder.reflexive s,
          ))
  ];
}

pub compare_values-Total : (f : Floats) (c : Node) → Total Grows (compare_values f c)
unfolding compare_values
compare_values-Total f c =
    Total-bind _ _ (operand_type-Total _)
      (λ lt. Total-bind _ _ (operand_type-Total _) (λ rt. compare_cached-Total f _ lt rt _ _))

pub not_of-Total : (t : Text) (o : Option Bool) → Total Grows (not_of t o)
unfolding not_of
not_of-Total t o = record { run = λ s. ground (arith, Grows-preorder.reflexive s) }

pub self_of-Total : (t : Text) (o : Option Bool) → Total Grows (self_of t o)
unfolding self_of
self_of-Total t o = record { run = λ s. ground (arith, Grows-preorder.reflexive s) }

pub truth_of-Total :
    (v : Attrs) (judge : Option Bool → Exec State Bool)
    → ((o : Option Bool) → Total Grows (judge o))
    → Total Grows (truth_of v judge)
unfolding truth_of
truth_of-Total v judge h =
    Total-bind _ _ (type_at-Total v.type)
      (λ t. Total-bind (gets (truth t v)) judge (Total-gets (truth t v)) h)

pub check_not-Total : (c : Node) → Total Grows (check_not c)
unfolding check_not
check_not-Total c = record {
  run = λ s. ground (
    arith,
    (truth_of-Total (attrs (lhs c)) _ (not_of-Total (attrs (lhs c)).type)).run s,
    (guess-Total c).run s,
  );
}

pub check_self-Total : (c : Node) → Total Grows (check_self c)
unfolding check_self
check_self-Total c = record {
  run = λ s. ground (
    arith,
    (truth_of-Total (attrs (lhs c)) _ (self_of-Total (attrs (lhs c)).type)).run s,
    (guess-Total c).run s,
  );
}

-- How many operands of a comparison have no value yet.
abbrev pub missing : Attrs → State → ℕ
missing v s = if get_var_cached_status v s.is_var_cached then 0 else 1

abbrev pub operands_missing : Node → State → ℕ
operands_missing c s = missing (attrs (lhs c)) s + missing (attrs (rhs c)) s

pub missing-le : (v : Attrs) (s t : State) → Grows s t → missing v t ≤ missing v s
missing-le v s t g = ground (arith, g.cached v)

pub missing-Stored :
    (v : Attrs) (x : Text) (s t : State) → v.name ≡ x → Stored x s t → missing v t ≡ 0
missing-Stored v x s t e st = rw (st.stored v e)

-- A counter is looked up by the name of the operand.
pub counter_of-name :
    (m : Tables) (v : Attrs) (s : State) (j : ℕ)
    → counter_of m v s ≡ some j
    → (v.name ≡ (get_or m.loop j no_loop).counter_name) × (missing v s ≡ 1)
unfolding get_counter_loop_idx counter_of
counter_of-name m v s j e = elim (Bool-cases (get_var_cached_status v s.is_var_cached)) [
  | inl h ↦ absurd (ground arith)
  | inr h ↦ (counter_name-eq (find_index_found _ m.loop j (ground arith)), ground arith)
]
  where
    counter_name-eq :
        (l : Loop) × (get_elem? m.loop j ≡ some l) × (text_eq l.counter_name v.name ≡ true)
        → v.name ≡ (get_or m.loop j no_loop).counter_name
    counter_name-eq (l, e, t) =
        ground (arith, get_or-get_elem? m.loop j no_loop l e, text_eq→eq l.counter_name v.name t)
