-- ===== src/Parcel/Traverse/Progress.antt =====
-- readWriteFrom of parcel_reader_writer.cpp: the entries that it takes.
use fans.Base.{
  ℕ, zero, suc, ◌≤◌, ◌<◌, ◌==◌, ◌≡◌, refl, sym, ap, ◌∙◌, Bool, true, false, List, [], ◌∷◌, Option,
  none, some, arith, inl, inr, Bool-cases, ==_iff, length, get_or, drop,
}
use fans.Base.Text.{Text}
use fans.Exec.{Exec, pure, gets, ◌>>=◌, no_variable}
use fans.Exec.Total.{
  Always, Always-bind, Always-if, Always-map, Total, Total-pure, Total-bind, Total-if,
}
use fans.Model.{Tables, Under, null_variable}
use fans.State.{State}
use fans.Checker.{Floats}
use fans.Checker.Total.{check_name-Total}
use fans.Parcel.Lookup.{valid_loop_in, get_valid_loop_idx_of, get_var_idx, var_idx, found}
use fans.Parcel.Grows.{Grows-preorder, get_var_idx-Total}
use fans.Parcel.Traverse.{
  set_visit, same_loop_run, extend_run, visit_range, read_write_branch, check_unders,
  check_under_constraint, read_write_item, read_write_range, outside_loop, inside_loop,
  read_write_from,
}
use fans.Parcel.Traverse.Walks.{
  Walks, Walks-preorder, unvisited, unvisited-ext, unvisited-visit, valid_loop-found,
}
use fans.Parcel.Traverse.Rounds.{walks, Advances, Returns, read_write_range-Returns}

-- What getValidLoopIdxOf returns is a loop of the table that is not being visited.
abbrev IsFree : Tables → State → Option ℕ → Type 0
IsFree m s none = Unit
IsFree m s (some j) = (j < length m.loop) × (s.loop_visit j ≡ false)

valid_loop-IsFree :
    (m : Tables) (s : State) (names : List Text) (o : Option ℕ)
    → valid_loop_in s.loop_visit names m.loop ≡ o
    → IsFree m s o
valid_loop-IsFree m s names none e = tt
valid_loop-IsFree m s names (some j) e = valid_loop-found s.loop_visit names m.loop j e

get_valid_loop_idx_of-IsFree :
    (m : Tables) (x : Text) (s : State)
    → Always (λ o t. (t ≡ s) × IsFree m s o) (get_valid_loop_idx_of m x s)
unfolding get_valid_loop_idx_of
get_valid_loop_idx_of-IsFree m x s = at_index (var_idx m x)
  where
    at_index :
        (o : Option ℕ)
        → Always
            (λ o t. (t ≡ s) × IsFree m s o)
            ((found no_variable o >>= λ idx.
                gets (λ s.
                  valid_loop_in s.loop_visit (get_or m.variable idx null_variable).loop m.loop))
              s)
    at_index none = tt
    at_index (some i) =
        (refl, valid_loop-IsFree m s (get_or m.variable i null_variable).loop _ refl)

left_visit :
    (s u : State) (j : ℕ)
    → s.loop_visit j ≡ false
    → Walks (set_visit j true s) u
    → (i : ℕ) → (set_visit j false u).loop_visit i ≡ s.loop_visit i
left_visit s u j free g i = elim (Bool-cases (i == j)) [
  | inl e ↦ rw e (sym (ap s.loop_visit ((==_iff i j).0 e) ∙ free))
  | inr e ↦ rw e (g.loop_visit i ∙ (rw e))
]

Walks-visit :
    (s t u : State) (j : ℕ)
    → Walks s t
    → Walks (set_visit j true t) u
    → Walks (set_visit j true s) u
Walks-visit s t u j w g = record {
  parcel = g.parcel ∙ w.parcel;
  operation = g.operation ∙ w.operation;
  depend_idx = g.depend_idx ∙ w.depend_idx;
  loop_visit = λ i. g.loop_visit i ∙ ground (arith, w.loop_visit i);
}

-- The run of a loop never exceeds the names that follow.
extend_run-le :
    (j : ℕ) (rest : Exec State ℕ) (s : State) (n : ℕ)
    → Always (λ k t. Walks s t × (k ≤ n)) (rest s)
    → (o : Option ℕ) → Always (λ k t. Walks s t × (k ≤ suc n)) (extend_run j rest o s)
unfolding extend_run
extend_run-le j rest s n h none = (Walks-preorder.reflexive s, omega arith)
extend_run-le j rest s n h (some i) =
    Always-if (λ k t. Walks s t × (k ≤ suc n)) (j == i) (rest >>= λ k. pure (suc k)) (pure 0) s
      (λ _.
        Always-bind (λ k t. Walks s t × (k ≤ n)) (λ k t. Walks s t × (k ≤ suc n)) rest
          (λ k. pure (suc k)) s h (λ k t w. (w.0, omega arith)))
      (λ _. (Walks-preorder.reflexive s, omega arith))

same_loop_run-le :
    (m : Tables) (j : ℕ) (xs : List Text) (s : State)
    → Always (λ n t. Walks s t × (n ≤ length xs)) (same_loop_run m j xs s)
unfolding same_loop_run
same_loop_run-le m j [] s = (Walks-preorder.reflexive s, omega arith)
same_loop_run-le m j (x ∷ xs) s =
    Always-bind (λ o t. (t ≡ s) × IsFree m s o) (λ n t. Walks s t × (n ≤ suc (length xs)))
      (get_valid_loop_idx_of m x) _ s (get_valid_loop_idx_of-IsFree m x s)
      (λ o t e.
        rw e.0 (extend_run-le j (same_loop_run m j xs) s (length xs) (same_loop_run-le m j xs s) o))

module _ (floats : Floats) (m : Tables) (item : ℕ → Exec State (Unit {0}))
    (item_walks : (i : ℕ) → Total Walks (item i)) where
  check_unders-Total :
      (us : List Under) (flag : Bool) → Total Walks (check_unders floats m item us flag)
  unfolding check_unders
  check_unders-Total [] flag = Total-pure flag
  check_unders-Total (u ∷ us) flag =
      Total-bind _ _ (walks _ (check_name-Total floats m _ u.name (omega arith)))
        (λ b. check_unders-Total us _)

  read_write_item-Total : (i : ℕ) → Total Walks (read_write_item floats m item i)
  unfolding read_write_item check_under_constraint
  read_write_item-Total i =
      Total-bind _ _ (check_unders-Total _ true)
        (λ b. Total-if b (item i) (pure tt) (λ _. item_walks i) (λ _. Total-pure tt))

  outside_loop-Advances :
      (begin : ℕ) (x : Text) (s : State)
      → Always (λ r t. Advances begin s r t) (outside_loop floats m item x s)
  unfolding outside_loop
  outside_loop-Advances begin x s =
      Always-bind (λ _ t. Walks s t) (λ r t. Advances begin s r t) (get_var_idx m x) _ s
        ((walks _ (get_var_idx-Total m x)).run s)
        (λ i t g.
          Always-bind (λ _ u. Walks t u) (λ r u. Advances begin s r u)
            (read_write_item floats m item i) _ t ((read_write_item-Total i).run t)
            (λ _ u h. record {
              walks = Walks-preorder.transitive s t u g h;
              positive = omega arith;
              fits = omega arith;
            }))

  -- Inside a loop: the loop is visited while its range is handled, and is free again after it.
  visit_range-Walks :
      (step : ℕ → Exec State ℕ) (begin j size : ℕ) (s : State)
      → s.loop_visit j ≡ false
      → ((i : ℕ) (t : State)
          → Walks (set_visit j true s) t
          → Always (λ r u. Advances i t r u) (step i t))
      → Always (λ r t. Walks s t × (r ≡ size)) (visit_range floats m item step begin j size s)
  unfolding visit_range
  visit_range-Walks step begin j size s free step_ok =
      Always-bind (λ r u. Returns 1 (set_visit j true s) r u) (λ r t. Walks s t × (r ≡ size))
        (read_write_range floats m item step begin size j) _ (set_visit j true s)
        (read_write_range-Returns step (set_visit j true s) step_ok floats m item begin size j
          (set_visit j true s) (Walks-preorder.reflexive _))
        (λ r u g. (left_free u g.walks, rw g.value))
    where
      left_free : (u : State) → Walks (set_visit j true s) u → Walks s (set_visit j false u)
      left_free u g = record {
        parcel = g.parcel;
        operation = g.operation;
        depend_idx = g.depend_idx;
        loop_visit = λ i. left_visit s u j free g i;
      }

  inside_loop-Advances :
      (step : ℕ → Exec State ℕ) (begin j : ℕ) (s : State)
      → s.loop_visit j ≡ false
      → ((i : ℕ) (t : State)
          → Walks (set_visit j true s) t
          → Always (λ r u. Advances i t r u) (step i t))
      → Always (λ r t. Advances begin s r t) (inside_loop floats m item step begin j s)
  unfolding inside_loop
  inside_loop-Advances step begin j s free step_ok =
      Always-bind (λ n t. Walks s t × (n ≤ length (drop (suc begin) s.parcel)))
        (λ r t. Advances begin s r t) (same_loop_run m j (drop (suc begin) s.parcel)) _ s
        (same_loop_run-le m j (drop (suc begin) s.parcel) s)
        (λ n t w.
          Always-map (λ r u. Walks t u × (r ≡ suc n)) (λ r u. Advances begin s r u)
            (visit_range floats m item step begin j (suc n) t)
            (visit_range-Walks step begin j (suc n) t (w.0.loop_visit j ∙ free)
              (λ i u g. step_ok i u (Walks-visit s t u j w.0 g)))
            (λ r u g. record {
              walks = Walks-preorder.transitive s t u w.0 g.0;
              positive = omega (arith, g.1);
              fits = omega (arith, g.1, w.1);
            }))

  branch-Advances :
      (step : ℕ → Exec State ℕ) (begin : ℕ) (x : Text) (o : Option ℕ) (s : State)
      → IsFree m s o
      → ((j i : ℕ) (t : State)
          → j < length m.loop
          → s.loop_visit j ≡ false
          → Walks (set_visit j true s) t
          → Always (λ r u. Advances i t r u) (step i t))
      → Always (λ r t. Advances begin s r t) (read_write_branch floats m item step begin x o s)
  unfolding read_write_branch
  branch-Advances step begin x none s free step_ok = outside_loop-Advances begin x s
  branch-Advances step begin x (some j) s free step_ok =
      inside_loop-Advances step begin j s free.1 (λ i t g. step_ok j i t free.0 free.1 g)

  -- With fuel for every loop that is not being visited, readWriteFrom comes back or ends the
  -- process, if the handling of one variable does. If it comes back, it leaves the visits to loops
  -- as they were, and returns the number of the entries it took: at least one, and none past the
  -- end of the parcel.
  pub read_write_from-Advances :
      (nesting begin : ℕ) (s : State)
      → unvisited s.loop_visit (length m.loop) < nesting
      → Always (λ r t. Advances begin s r t) (read_write_from floats m item nesting begin s)
  unfolding read_write_from
  read_write_from-Advances zero begin s h = absurd (omega arith)
  read_write_from-Advances (suc nesting) begin s h =
      let deeper = read_write_from-Advances nesting in
      Always-bind (λ o t. (t ≡ s) × IsFree m s o) (λ r t. Advances begin s r t)
        (get_valid_loop_idx_of m (get_or s.parcel begin [])) _ s
        (get_valid_loop_idx_of-IsFree m (get_or s.parcel begin []) s)
        (λ o t e. rw e.0 (
          branch-Advances (read_write_from floats m item nesting) begin _ o s e.1
            (λ j i u less free g. deeper i u (
              omega (
                arith,
                unvisited-ext (set_visit j true s).loop_visit u.loop_visit (length m.loop)
                    g.loop_visit,
                unvisited-visit s.loop_visit j (length m.loop) less free,
              )))))
