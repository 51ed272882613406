-- ===== src/Parcel/Resolution.antt =====
-- getConstraintIdx and getTargetConstraint of parcel_reader_writer.cpp.
use fans.Base.{
  ℕ, ◌<◌, ◌≡◌, ◌↔◌, ◌⊎◌, refl, sym, Bool, true, false, some, if◌then◌else◌, arith, inl, inr,
  find_index_first, find_index_at, get_elem?,
}
use mathlib.Core.Path.{subst}
use fans.Base.Text.{Text, text_eq, text_eq_iff, is_prefix, is_prefix_refl}
use fans.Model.{Node, null, node, attrs, lhs, rhs, Tables}
use fans.Parcel.Lookup.{constraint_idx}
use fans.Parcel.Select.{get_target_constraint, is_connective, last_named}

-- The name of a constraint resolves to this constraint exactly if no earlier constraint has a name
-- that begins it.
pub constraint_idx_iff :
    (m : Tables) (x : Text) (i : ℕ) (c : Node)
    → get_elem? m.constraint i ≡ some c
    → (attrs c).name ≡ x
    → (constraint_idx m x ≡ some i) ↔ (
        (j : ℕ) (d : Node)
        → j < i
        → get_elem? m.constraint j ≡ some d
        → is_prefix (attrs d).name x ≡ false)
unfolding constraint_idx
constraint_idx_iff m x i c at_i e = (
  λ h j d less at_j.
      find_index_first (λ d. is_prefix (attrs d).name x) m.constraint i j d h less at_j,
  λ h.
      find_index_at (λ d. is_prefix (attrs d).name x) m.constraint i c at_i
        (rw e (is_prefix_refl x)) h,
)

-- A part of a constraint, as getTargetConstraint reaches it through && and ||.
pub data Part : Node → Node → Type 0 where
  whole : (c : Node) → Part c c
  left : (c d : Node) → is_connective c ≡ true → Part (lhs c) d → Part c d
  right : (c d : Node) → is_connective c ≡ true → Part (rhs c) d → Part c d

last_named_cases :
    (l r : Node)
    → (attrs (last_named l r)).has_name ≡ true
    → (last_named l r ≡ l) ⊎ (last_named l r ≡ r)
last_named_cases l r h = ground arith

-- A part of `c` that is no && or || and has the name `x`.
abbrev pub IsTarget : Text → Node → Node → Type 0
IsTarget x c d = Part c d × ((attrs d).name ≡ x) × (is_connective d ≡ false)

abbrev HasName : Node → Type 0
HasName c = (attrs c).has_name ≡ true

-- If what getTargetConstraint returns has a name, it is the name that is looked for, and what is
-- returned is a part of the constraint, reached through && and ||, that is neither of these.
pub get_target_constraint-IsTarget :
    (x : Text) (c : Node)
    → (attrs (get_target_constraint x c)).has_name ≡ true
    → IsTarget x c (get_target_constraint x c)
unfolding get_target_constraint
get_target_constraint-IsTarget x null h = cc
get_target_constraint-IsTarget x (node a l r) h =
    of_branch (is_connective (node a l r)) refl (get_target_constraint-IsTarget x l)
      (get_target_constraint-IsTarget x r) h
  where
    named :
        (b : Bool)
        → text_eq a.name x ≡ b
        → is_connective (node a l r) ≡ false
        → HasName (if b then node a l r else null)
        → IsTarget x (node a l r) (if b then node a l r else null)
    named true q e k = (whole (node a l r), (text_eq_iff a.name x).0 q, e)
    named false q e k = cc

    below :
        (tl tr : Node)
        → is_connective (node a l r) ≡ true
        → (HasName tl → IsTarget x l tl)
        → (HasName tr → IsTarget x r tr)
        → HasName (last_named tl tr)
        → IsTarget x (node a l r) (last_named tl tr)
    below tl tr e on_left on_right k = elim (last_named_cases tl tr k) [
      | inl q ↦
          let p = on_left (subst HasName q k) in
          subst (IsTarget x (node a l r)) (sym q) (left (node a l r) tl e p.0, p.1, p.2)
      | inr q ↦
          let p = on_right (subst HasName q k) in
          subst (IsTarget x (node a l r)) (sym q) (right (node a l r) tr e p.0, p.1, p.2)
    ]

    of_branch :
        {tl tr : Node} (b : Bool)
        → is_connective (node a l r) ≡ b
        → (HasName tl → IsTarget x l tl)
        → (HasName tr → IsTarget x r tr)
        → HasName (if b then last_named tl tr else (if text_eq a.name x then node a l r else null))
        → IsTarget x
            (node a l r)
            (if b then last_named tl tr else (if text_eq a.name x then node a l r else null))
    of_branch {tl} {tr} true e on_left on_right k = below tl tr e on_left on_right k
    of_branch false e on_left on_right k = named (text_eq a.name x) refl e k
