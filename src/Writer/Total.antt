-- ===== src/Writer/Total.antt =====
-- `generate` of parcel_writer.cpp: its termination and the caches.
use fans.Base.{
  ℕ, zero, suc, ◌+◌, ◌<◌, refl, not, ◌&&◌, ◌||◌, Bool-cases, List, [], ◌∷◌, Option, none, some,
  arith, if◌then◌else◌, length, get_or, inl, inr, leb,
}
use fans.Base.Text.{Text, codes, text_eq}
use fans.Exec.{
  Exec, Outcome, done, exits, hangs, pure, exit, ◌>>=◌, no_constraint, bad_special_opcode,
}
use fans.Exec.Total.{
  Always, Always-bind, Always-map, Always-if, Total, Total-bind, Total-pure, Total-exit, Total-if,
}
use fans.Random.{Rng, random_uint64, random_float}
use fans.Model.{Node, null, attrs, lhs, rhs, depth, max_depth, Tables, Variable}
use fans.State.{State, draw}
use fans.Parcel.Lookup.{constraint_idx, get_var_cached_status}
use fans.Parcel.Store.{Value, store_value}
use fans.Parcel.Select.{select_among}
use fans.Parcel.Grows.{
  Grows, Grows-preorder, Grows_of_same, Stored, store_value-Total, store_value-Stored, found-Total,
}
use fans.Checker.{Floats, check, check_constraint_set}
use fans.Checker.Total.{check-Total, check_constraint_set-Total}
use fans.Checker.Special.{
  Kind, literal, zero_of, is_equality, get_value_from_special_self_constraint, get_try_count,
  special_positions, pick_position, by_probability, should_generate, special_value, value_at,
}
use fans.Writer.{try_generate, generate_for, generate}

-- A draw comes back with a new tape.
pub draws :
    {A : Type 0} (d : Exec Rng A) → Total {S = Rng} (λ _ _. Unit {0}) d → Total Grows (draw d)
draws {A = A} d h = record { run = λ s. of_outcome s (d s.rng) (h.run s.rng) }
  where
    of_outcome :
        (s : State) (o : Outcome (A × Rng))
        → Always (λ _ _. Unit {0}) o
        → Always
            (λ _ t. Grows s t)
            (elim o [
              | done (a, r) ↦ done (a, record s { rng = r })
              | exits e ↦ exits e
              | hangs ↦ hangs
            ])
    of_outcome s (done (a, r)) k = Grows_of_same s _ (refl, refl, refl, refl, refl, refl, refl)
    of_outcome s (exits e) k = tt
    of_outcome s hangs k = k

random_uint64-Total : (lo hi : ℕ) → Total {S = Rng} (λ _ _. Unit {0}) (random_uint64 lo hi)
unfolding random_uint64
random_uint64-Total lo hi = record {
  run = λ r. elim (Bool-cases (leb lo hi)) [ inl e ↦ rw e (tt {0}) | inr e ↦ rw e (tt {0}) ];
}

select_among-Total : (m : Tables) (names : List Text) → Total Grows (select_among m names)
unfolding select_among
select_among-Total m [] = Total-pure []
select_among-Total m (name ∷ names) =
    Total-bind _ _ (draws _ (random_uint64-Total 0 (length names)))
      (λ i. Total-bind _ _ (found-Total no_constraint (constraint_idx m _)) (λ j. Total-pure _))

pick_position-Total : (ps : List ℕ) → Total Grows (pick_position ps)
unfolding pick_position
pick_position-Total [] = Total-pure none
pick_position-Total (p ∷ ps) =
    Total-bind _ _ (draws _ (random_uint64-Total 0 (length ps))) (λ i. Total-pure _)

by_probability-Total : (c : Node) → Total Grows (by_probability c)
unfolding by_probability
by_probability-Total c =
    Total-bind (draw random_float) (λ r. pure (not ((attrs c).probability.exceeded_by r)))
      (draws random_float (record { run = λ r. tt {0} })) (λ r. Total-pure _)

module _ (floats : Floats) (m : Tables) where
  should_generate-Total : (c : Node) → Total Grows (should_generate floats m c)
  unfolding should_generate
  should_generate-Total c = record {
    run = λ s.
        Always-if (λ _ t. Grows s t)
          (if is_equality c
            then get_var_cached_status (attrs (lhs c)) s.is_var_cached
              && get_var_cached_status (attrs (rhs c)) s.is_var_cached
            else get_var_cached_status (attrs (lhs c)) s.is_var_cached)
          (check floats m (depth c + 3) c) (by_probability c) s
          (λ _. (check-Total floats m (depth c + 3) c (omega arith)).run s)
          (λ _. (by_probability-Total c).run s);
  }

  special_value-Total : (kind : Kind) (c : Node) → Total Grows (special_value floats m kind c)
  unfolding special_value
  special_value-Total kind c =
      Total-if (is_equality c) (pure (some (literal kind (attrs (rhs c)).value)))
        (if text_eq (attrs c).opcode [] || text_eq (attrs c).opcode (codes "!")
          then pure (some (zero_of kind))
          else exit bad_special_opcode)
        (λ _. Total-pure _)
        (λ _.
          Total-if (text_eq (attrs c).opcode [] || text_eq (attrs c).opcode (codes "!"))
            (pure (some (zero_of kind))) (exit bad_special_opcode) (λ _. Total-pure _)
            (λ _. Total-exit _))

  value_at-Total :
      (kind : Kind) (cs : List Node) (o : Option ℕ) → Total Grows (value_at floats m kind cs o)
  unfolding value_at
  value_at-Total kind cs none = Total-pure none
  value_at-Total kind cs (some i) =
      Total-bind _ _ (should_generate-Total (get_or cs i null))
        (λ b. Total-if b _ (pure none) (λ _. special_value-Total kind _) (λ _. Total-pure none))

  special-Total :
      (kind : Kind) (cs : List Node)
      → Total Grows (get_value_from_special_self_constraint floats m kind cs)
  unfolding get_value_from_special_self_constraint
  special-Total kind cs =
      Total-bind _ _ (pick_position-Total (special_positions 0 cs)) (λ o. value_at-Total kind cs o)

  module _ (var : Variable) (produce : Exec State Value) (produce_ok : Total Grows produce) where
    try_generate-Total :
        (cs : List Node) (tries : ℕ) (value : Value)
        → Total Grows (try_generate floats m var produce cs tries value)
    unfolding try_generate
    try_generate-Total cs zero value = Total-pure value
    try_generate-Total cs (suc tries) value = Total-bind produce _ produce_ok (λ next.
        Total-bind (store_value m var.name next) _ (store_value-Total m var.name next) (λ _.
          Total-bind (check_constraint_set floats m _ cs) _
            (check_constraint_set-Total floats m _ cs (omega arith))
            (λ b.
              Total-if b _ (try_generate floats m var produce cs tries next) (λ _. Total-pure next)
                (λ _. try_generate-Total cs tries next))))

    generate_for-Total :
        (cs : List Node) (u : Value) (o : Option Value)
        → Total Grows (generate_for floats m var produce cs u o)
    unfolding generate_for
    generate_for-Total cs u none = try_generate-Total cs (get_try_count cs) u
    generate_for-Total cs u (some v) =
        Total-bind (store_value m var.name v) _ (store_value-Total m var.name v) (λ _. Total-pure v)

    -- What the loop does after a value is stored.
    try_rest :
        (cs : List Node) (tries : ℕ) (next : Value)
        → Total Grows (
            check_constraint_set floats m (max_depth cs + 3) cs >>= λ b.
            if b then pure next else try_generate floats m var produce cs tries next)
    try_rest cs tries next =
        Total-bind (check_constraint_set floats m _ cs) _
          (check_constraint_set-Total floats m _ cs (omega arith))
          (λ b.
            Total-if b (pure next) (try_generate floats m var produce cs tries next)
              (λ _. Total-pure next) (λ _. try_generate-Total cs tries next))

    stays : (s t u w : State) → Grows s t → Stored var.name t u → Grows u w → Stored var.name s w
    stays s t u w g k l = record {
      grows = Grows-preorder.transitive s t w g (Grows-preorder.transitive t u w k.grows l);
      stored = λ v e. l.cached v (k.stored v e);
    }

    -- generate comes back or ends the process, if the generator of the type does, and then no
    -- variable that was cached is forgotten, if the generator forgets none.
    pub generate-Total :
        (kind : Kind) (uninitialised : Value)
        → Total Grows (generate floats m var produce kind uninitialised)
    unfolding generate
    generate-Total kind uninitialised =
        Total-bind _ _ (select_among-Total m var.self_constraint) (λ cs.
          Total-bind _ _ (special-Total kind cs) (λ o. generate_for-Total cs uninitialised o))

    -- With at least one try left, and a generator that comes back or ends the process, the loop of
    -- generate comes back or ends the process; if it comes back, its variable is cached and no
    -- other is forgotten.
    pub try_generate-Stored :
        (cs : List Node) (tries : ℕ) (value : Value) (s : State)
        → 0 < tries
        → Always (λ _ t. Stored var.name s t) (try_generate floats m var produce cs tries value s)
    unfolding try_generate
    try_generate-Stored cs zero value s h = absurd (omega arith)
    try_generate-Stored cs (suc tries) value s h =
        Always-bind (λ _ t. Grows s t) (λ _ t. Stored var.name s t) produce _ s (produce_ok.run s)
          (λ next t g.
            Always-bind (λ _ u. Stored var.name t u) (λ _ u. Stored var.name s u)
              (store_value m var.name next) _ t (store_value-Stored m var.name next t)
              (λ _ u k.
                Always-map (λ _ w. Grows u w) (λ _ w. Stored var.name s w) _
                  ((try_rest cs tries next).run u) (λ _ w l. stays s t u w g k l)))
