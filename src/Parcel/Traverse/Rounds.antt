-- ===== src/Parcel/Traverse/Rounds.antt =====
-- readWriteRange of parcel_reader_writer.cpp: its loops over the entries of a range.
use fans.Base.{
  ℕ, zero, suc, ◌+◌, ◌≤◌, ◌<◌, ◌==◌, ◌≡◌, refl, true, false, if◌then◌else◌, arith, ==_iff, length,
  get_or, drop, ltb,
}
use fans.Base.Text.{text_eq, codes}
use fans.Exec.{Exec, pure, exit, ◌>>◌, bad_inc_opcode}
use fans.Exec.Total.{Always, Always-bind, Always-if, Always-map, Total}
use fans.Model.{Tables, no_loop}
use fans.State.{State}
use fans.Checker.{Floats, check_name}
use fans.Checker.Total.{check_name-Total}
use fans.Parcel.Store.{set_loop_counter}
use fans.Parcel.Grows.{Grows, Grows-preorder, set_loop_counter-Total}
use fans.Parcel.Traverse.{
  each_from, max_count, next_counter, end_round, one_round, rounds, read_write_range,
}
use fans.Parcel.Traverse.Walks.{Walks, Walks-preorder, Walks_of_Grows}

-- Code that only grows the caches keeps the walk.
pub walks : {A : Type 0} (m : Exec State A) → Total Grows m → Total Walks m
walks m h = record {
  run = λ s.
      Always-map (λ _ t. Grows s t) (λ _ t. Walks s t) (m s) (h.run s) (λ _ t. Walks_of_Grows s t);
}

-- What comes back of one step of the walk.
pub record Advances (begin : ℕ) (s : State) (r : ℕ) (t : State) : Type 0 where
  pub walks : Walks s t
  pub positive : 0 < r
  pub fits : r ≤ suc (length (drop (suc begin) s.parcel))

-- What comes back, and with which value.
pub record Returns {A : Type 0} (a : A) (s : State) (b : A) (t : State) : Type 0 where
  pub walks : Walks s t
  pub value : b ≡ a

-- The loops over a range, given a step that comes back from every state of the walk.
module _ (step : ℕ → Exec State ℕ) (s : State)
    (step_ok : (i : ℕ) (t : State) → Walks s t → Always (λ r u. Advances i t r u) (step i t)) where
  -- No step returns 0, so that the loop runs to its end.
  each_from-Returns :
      (begin count : ℕ) (t : State)
      → Walks s t
      → Always (λ b u. Returns true s b u) (each_from step begin count t)
  unfolding each_from
  each_from-Returns begin zero t w = record { walks = w; value = refl }
  each_from-Returns begin (suc count) t w =
      let rest = each_from-Returns (suc begin) count in
      Always-bind (λ r u. Advances begin t r u) (λ b u. Returns true s b u) (step begin) _ t
        (step_ok begin t w)
        (λ r u a.
          Always-if (λ b v. Returns true s b v) (r == 0) (pure false)
            (each_from step (suc begin) count) u
            (λ e. absurd (omega (arith, a.positive, (==_iff r 0).0 e)))
            (λ _. rest u (Walks-preorder.transitive s t u w a.walks)))

  -- The loop of readWriteRange, over a table of loops.
  module _ (floats : Floats) (m : Tables) (item : ℕ → Exec State (Unit {0}))
      (begin size loop_idx : ℕ) where
    end_round-Returns :
        (count counter : ℕ) (again : Exec State ℕ) (t : State)
        → Walks s t
        → ((u : State) → Walks s u → count < max_count → Always (λ r v. Returns 1 s r v) (again u))
        → Always (λ r u. Returns 1 s r u) (end_round floats m item loop_idx count counter again t)
    unfolding end_round
    end_round-Returns count counter again t w next =
        Always-if (λ r u. Returns 1 s r u)
          (text_eq (get_or m.loop loop_idx no_loop).inc_opcode (codes "++"))
          (set_loop_counter m loop_idx (next_counter counter)
            >> (if ltb max_count (count + 1) then pure 1 else again))
          (exit bad_inc_opcode) t
          (λ _.
            Always-bind (λ _ u. Walks t u) (λ r u. Returns 1 s r u)
              (set_loop_counter m loop_idx (next_counter counter)) _ t
              ((walks _ (set_loop_counter-Total m loop_idx (next_counter counter))).run t)
              (λ _ u g.
                let g' = Walks-preorder.transitive s t u w g in
                Always-if (λ r v. Returns 1 s r v) (ltb max_count (count + 1)) (pure 1) again u
                  (λ _. record { walks = g'; value = refl })
                  (λ (e : ltb max_count (count + 1) ≡ false). next u g' (ground arith))))
          (λ _. tt {0})

    one_round-Returns :
        (count counter : ℕ) (again : Exec State ℕ) (t : State)
        → Walks s t
        → ((u : State) → Walks s u → count < max_count → Always (λ r v. Returns 1 s r v) (again u))
        → Always
            (λ r u. Returns 1 s r u)
            (one_round floats m item step begin size loop_idx count counter again t)
    unfolding one_round
    one_round-Returns count counter again t w next =
        Always-bind (λ b u. Returns true s b u) (λ r u. Returns 1 s r u) (each_from step begin size)
          _ t (each_from-Returns begin size t w)
          (λ b u g. rw g.value (end_round-Returns count counter again u g.walks next))

    -- The bound on the count is enough fuel, and the loop always returns 1.
    rounds-Returns :
        (fuel count counter : ℕ) (t : State)
        → suc max_count ≤ fuel + count
        → count ≤ max_count
        → Walks s t
        → Always
            (λ r u. Returns 1 s r u)
            (rounds floats m item step begin size loop_idx fuel count counter t)
    unfolding rounds
    rounds-Returns zero count counter t h k w = absurd (omega arith)
    rounds-Returns (suc fuel) count counter t h k w =
        let next = rounds-Returns fuel (count + 1) (next_counter counter) in
        Always-bind (λ _ u. Walks t u) (λ r u. Returns 1 s r u) (check_name floats m _ _) _ t
          ((walks _ (check_name-Total floats m _ _ (omega arith))).run t)
          (λ b u g.
            let g' = Walks-preorder.transitive s t u w g in
            Always-if (λ r v. Returns 1 s r v) b
              (one_round floats m item step begin size loop_idx count counter (
                rounds floats m item step begin size loop_idx fuel (count + 1)
                  (next_counter counter)))
              (pure 1) u
              (λ _.
                one_round-Returns count counter _ u g'
                  (λ v x less. next v (omega arith) (omega arith) x))
              (λ _. record { walks = g'; value = refl }))

    -- If from every state of the walk each step comes back, with at least one entry taken, or ends
    -- the process, so does readWriteRange, within its bound on the rounds. It then returns 1, never
    -- the value for a failure, and keeps the walk.
    pub read_write_range-Returns :
        (t : State)
        → Walks s t
        → Always
            (λ r u. Returns 1 s r u)
            (read_write_range floats m item step begin size loop_idx t)
    unfolding read_write_range
    read_write_range-Returns t w =
        let value = (get_or m.loop loop_idx no_loop).counter_value in
        Always-bind (λ _ u. Walks t u) (λ r u. Returns 1 s r u) (set_loop_counter m loop_idx value)
          _ t ((walks _ (set_loop_counter-Total m loop_idx value)).run t)
          (λ _ u g.
            rounds-Returns (suc max_count) 0 value u (omega arith) (omega arith)
              (Walks-preorder.transitive s t u w g))
