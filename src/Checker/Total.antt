-- ===== src/Checker/Total.antt =====
-- Termination of `check` of constraint_checker.cpp. A comparison is checked again only after a loop
-- counter among its operands has been set.
use fans.Base.{
  ℕ, zero, suc, ◌+◌, ◌≤◌, ◌<◌, ◌≡◌, refl, Bool, true, false, List, [], ◌∷◌, some, arith, inl, inr,
  Bool-cases, Option-cases, get_or,
}
use fans.Base.Text.{Text, codes, text_eq}
use fans.Base.Map.{get}
use fans.Exec.{Exec, pure, ◌>>=◌, no_constraint}
use fans.Exec.Total.{Always, Always-bind, Always-map, Total, Total-pure, Total-bind, Total-if}
use fans.Model.{Node, null, node, attrs, lhs, rhs, Tables, no_loop, depth, max_depth}
use fans.State.{State}
use fans.Parcel.Lookup.{get_constraint_idx, constraint_idx}
use fans.Parcel.Store.{set_loop_counter}
use fans.Parcel.Grows.{
  Grows, Grows-preorder, Grows_of_same, Stored, found-Total, set_loop_counter-Stored,
}
use fans.Checker.{
  Floats, counter_of, check_uncached, check_comparison, check_and, check_or, check_opcode,
  cache_status, check, check_name, check_constraint_set,
}
use fans.Checker.Operands.{
  guess-Total, compare_values-Total, check_not-Total, check_self-Total, operands_missing,
  missing-le, missing-Stored, counter_of-name,
}

module _ (floats : Floats) (m : Tables) where
  cache_status-Always :
      (c : Node) (b : Bool) (s t : State)
      → Grows s t
      → Always (λ _ u. Grows s u) (cache_status floats m c b t)
  cache_status-Always c b s t g =
      Grows-preorder.transitive s t _ g
        (Grows_of_same t _ (refl, refl, refl, refl, refl, refl, refl))

  -- One call, where what it does by the opcode comes back.
  check_step :
      (fuel : ℕ) (c : Node) (s : State)
      → Always (λ _ t. Grows s t) (check_opcode floats m (check floats m fuel) c s)
      → Always (λ _ t. Grows s t) (check floats m (suc fuel) c s)
  unfolding check
  check_step fuel c s h = elim (Option-cases (get (attrs c).name s.constraint_status)) [
    | inr (b, e) ↦ rw (e, check) (Grows-preorder.reflexive s)
    | inl e ↦
        rw (e, check)
          (Always-bind (λ _ t. Grows s t) (λ _ t. Grows s t)
            (check_opcode floats m (check floats m fuel) c) (cache_status floats m c) s h
            (λ b t g. cache_status-Always c b s t g))
  ]

  -- The opcodes under which `check` compares the operands.
  abbrev IsComparison : Node → Type 0
  IsComparison c =
      (text_eq (attrs c).opcode (codes "!") ≡ false)
      × (text_eq (attrs c).opcode [] ≡ false)
      × (text_eq (attrs c).opcode (codes "&&") ≡ false)
      × (text_eq (attrs c).opcode (codes "||") ≡ false)

  -- The second check starts with one operand more cached.
  module _ (fuel : ℕ) (c : Node) (s : State)
      (again : (t : State)
        → Grows s t
        → operands_missing c t < operands_missing c s
        → Always (λ _ u. Grows t u) (check floats m fuel c t)) where
    retry :
        (j : ℕ)
        → ((t : State)
            → Stored (get_or m.loop j no_loop).counter_name s t
            → operands_missing c t < operands_missing c s)
        → Always (λ _ t. Grows s t) ((set_loop_counter m j 0 >>= λ _. check floats m fuel c) s)
    retry j less =
        Always-bind (λ _ t. Stored (get_or m.loop j no_loop).counter_name s t) (λ _ u. Grows s u)
          (set_loop_counter m j 0) (λ _. check floats m fuel c) s (set_loop_counter-Stored m j 0 s)
          λ _ t st.
            Always-map (λ _ u. Grows t u) (λ _ u. Grows s u) (check floats m fuel c t)
              (again t st.grows (less t st)) (λ _ u g. Grows-preorder.transitive s t u st.grows g)

    check_uncached-Always :
        Always (λ _ t. Grows s t) (check_uncached floats m (check floats m fuel) c s)
    unfolding check_uncached
    check_uncached-Always = elim (Option-cases (counter_of m (attrs (lhs c)) s)) [
      | inr (j, e) ↦ rw (e, check_uncached) (retry j (λ t st. left_less j e t st))
      | inl e ↦ elim (Option-cases (counter_of m (attrs (rhs c)) s)) [
        | inr (j, e') ↦
            rw (e, check_uncached)
              (rw (e', check_uncached) (retry j (λ t st. right_less j e' t st)))
        | inl e' ↦ rw (e, check_uncached) (rw (e', check_uncached) ((guess-Total c).run s))
      ]
    ]
      where
        left_less :
            (j : ℕ)
            → counter_of m (attrs (lhs c)) s ≡ some j
            → (t : State) → Stored (get_or m.loop j no_loop).counter_name s t
            → operands_missing c t < operands_missing c s
        left_less j e t st =
            let (same_name, one) = counter_of-name m (attrs (lhs c)) s j e in
            omega (
              arith,
              one,
              missing-Stored (attrs (lhs c)) _ s t same_name st,
              missing-le (attrs (rhs c)) s t st.grows,
            )

        right_less :
            (j : ℕ)
            → counter_of m (attrs (rhs c)) s ≡ some j
            → (t : State) → Stored (get_or m.loop j no_loop).counter_name s t
            → operands_missing c t < operands_missing c s
        right_less j e t st =
            let (same_name, one) = counter_of-name m (attrs (rhs c)) s j e in
            omega (
              arith,
              one,
              missing-Stored (attrs (rhs c)) _ s t same_name st,
              missing-le (attrs (lhs c)) s t st.grows,
            )

    check_comparison-Always :
        Always (λ _ t. Grows s t) (check_comparison floats m (check floats m fuel) c s)
    unfolding check_comparison
    check_comparison-Always =
        ground (arith, (compare_values-Total floats c).run s, check_uncached-Always)

  -- A comparison needs one unit of fuel more than it has operands without a value.
  comparison-Always :
      (fuel : ℕ) (c : Node) (s : State)
      → IsComparison c
      → operands_missing c s < fuel
      → Always (λ _ t. Grows s t) (check floats m fuel c s)
  unfolding check_opcode
  comparison-Always zero c s p h = absurd (omega arith)
  comparison-Always (suc fuel) c s p h = check_step fuel c s (
      rw p.0 (
        rw p.1 (
          rw p.2 (
            rw p.3 (
              check_comparison-Always fuel c s
                (λ t g less. comparison-Always fuel c t p (omega arith)))))))

  check_and-Total :
      (again : Node → Exec State Bool) (c : Node)
      → Total Grows (again (lhs c))
      → Total Grows (again (rhs c))
      → Total Grows (check_and floats m again c)
  unfolding check_and
  check_and-Total again c h k =
      Total-bind (again (lhs c)) _ h
        (λ b. Total-if b (again (rhs c)) (pure false) (λ _. k) (λ _. Total-pure false))

  check_or-Total :
      (again : Node → Exec State Bool) (c : Node)
      → Total Grows (again (lhs c))
      → Total Grows (again (rhs c))
      → Total Grows (check_or floats m again c)
  unfolding check_or
  check_or-Total again c h k =
      Total-bind (again (lhs c)) _ h
        (λ b. Total-if b (pure true) (again (rhs c)) (λ _. Total-pure true) (λ _. k))

  -- The branches by the opcode, where the first four come back.
  check_opcode-Always :
      (fuel : ℕ) (c : Node) (s : State)
      → 2 < fuel
      → Total Grows (check_and floats m (check floats m fuel) c)
      → Total Grows (check_or floats m (check floats m fuel) c)
      → Always (λ _ t. Grows s t) (check_opcode floats m (check floats m fuel) c s)
  unfolding check_opcode
  check_opcode-Always fuel c s h and_total or_total =
      elim (Bool-cases (text_eq (attrs c).opcode (codes "!"))) [
        | inl e ↦ rw e ((check_not-Total c).run s)
        | inr e0 ↦ elim (Bool-cases (text_eq (attrs c).opcode [])) [
          | inl e ↦ rw e0 (rw e ((check_self-Total c).run s))
          | inr e1 ↦ elim (Bool-cases (text_eq (attrs c).opcode (codes "&&"))) [
            | inl e ↦ rw e0 (rw e1 (rw e (and_total.run s)))
            | inr e2 ↦ elim (Bool-cases (text_eq (attrs c).opcode (codes "||"))) [
              | inl e ↦ rw e0 (rw e1 (rw e2 (rw e (or_total.run s))))
              | inr e3 ↦ rw e0 (
                  rw e1 (
                    rw e2 (
                      rw e3 (
                        check_comparison-Always fuel c s (λ t g less.
                          comparison-Always fuel c t (e0, e1, e2, e3) (two_missing t less))))))
            ]
          ]
        ]
      ]
    where
      two_missing :
          (t : State) → operands_missing c t < operands_missing c s → operands_missing c t < fuel
      two_missing t less = ground arith

  -- A missing constraint has the opcode "".
  null-Always :
      (fuel : ℕ) (s : State)
      → Always (λ _ t. Grows s t) (check_opcode floats m (check floats m fuel) null s)
  unfolding check_opcode text_eq
  null-Always fuel s = (check_self-Total null).run s

  -- With the depth of the constraint and three more as fuel, `check` comes back or ends the
  -- process. If it comes back, no variable that was cached is forgotten, and the parcel, the mode,
  -- the dependency and the visits to loops are as they were.
  pub check-Total : (fuel : ℕ) (c : Node) → depth c + 3 ≤ fuel → Total Grows (check floats m fuel c)
  check-Total zero c h = absurd (omega arith)
  check-Total (suc fuel) null h = record { run = λ s. check_step fuel null s (null-Always fuel s) }
  check-Total (suc fuel) (node a l r) h =
      let left = check-Total fuel l (omega arith) in
      let right = check-Total fuel r (omega arith) in
      record {
        run = λ s. check_step fuel (node a l r) s (
            check_opcode-Always fuel (node a l r) s (omega arith)
              (check_and-Total (check floats m fuel) (node a l r) left right)
              (check_or-Total (check floats m fuel) (node a l r) left right));
      }

  get_or-depth : (cs : List Node) (i : ℕ) → depth (get_or cs i null) ≤ max_depth cs
  get_or-depth [] i = omega arith
  get_or-depth (c ∷ cs) zero = omega arith
  get_or-depth (c ∷ cs) (suc i) = omega (arith, get_or-depth cs i)

  -- So `check` of a name comes back, with fuel for the deepest constraint of the table.
  pub check_name-Total :
      (fuel : ℕ) (name : Text)
      → max_depth m.constraint + 3 ≤ fuel
      → Total Grows (check_name floats m fuel name)
  unfolding check_name
  check_name-Total fuel name h =
      Total-bind (get_constraint_idx m name) _ (found-Total no_constraint (constraint_idx m name))
        (λ i. check-Total fuel _ (omega (arith, get_or-depth m.constraint i)))

  -- With the depth of the deepest constraint and three more as fuel, checkConstraintSet comes back
  -- or ends the process. If it comes back, no variable that was cached is forgotten.
  pub check_constraint_set-Total :
      (fuel : ℕ) (cs : List Node)
      → max_depth cs + 3 ≤ fuel
      → Total Grows (check_constraint_set floats m fuel cs)
  unfolding check_constraint_set
  check_constraint_set-Total fuel [] h = Total-pure true
  check_constraint_set-Total fuel (c ∷ cs) h =
      Total-bind (check floats m fuel c) _ (check-Total fuel c (omega arith)) (λ b.
        Total-if b _ (pure false) (λ _. check_constraint_set-Total fuel cs (omega arith))
          (λ _. Total-pure false))
