-- ===== src/Parcel/Traverse/Start.antt =====
-- The loop of `start` over a whole parcel.
use fans.Base.{
  ℕ, zero, suc, ◌+◌, ◌≤◌, ◌<◌, ◌==◌, ◌%◌, ◌≡◌, refl, ap, Bool, true, not, ◌&&◌, arith, Bool-cases,
  inl, inr, if◌then◌else◌, length, length-drop, ltb,
}
use fans.Exec.{Exec, done, exits, pure, not_reading}
use fans.Exec.Total.{Always, Always-bind, Always-if, Always-map, Total}
use fans.Model.{Tables}
use fans.State.{State, Operation, read_reply, write_data, is_write, uint32_max}
use fans.Checker.{Floats}
use fans.Parcel.Lookup.{is_dependency_item}
use fans.Parcel.Traverse.{should_handle, walk, start, read_write_from}
use fans.Parcel.Traverse.Walks.{Walks, Walks-preorder, unvisited}
use fans.Parcel.Traverse.Rounds.{Advances}
use fans.Parcel.Traverse.Progress.{read_write_from-Advances}

unvisited-le : (v : ℕ → Bool) (n : ℕ) → unvisited v n ≤ n
unvisited-le v zero = omega arith
unvisited-le v (suc n) = ground (arith, unvisited-le v n)

module _ (floats : Floats) (m : Tables) (item : ℕ → Exec State (Unit {0}))
    (item_walks : (i : ℕ) → Total Walks (item i)) where
  should_handle-Walks :
      (idx : ℕ) (s : State) → Always (λ _ t. Walks s t) (should_handle floats m item idx s)
  unfolding should_handle is_dependency_item
  should_handle-Walks idx s = elim (Bool-cases (is_dependency_item idx s)) [
    | inl e ↦ rw e (dependency s.operation)
    | inr e ↦
        rw e (record { parcel = refl; operation = refl; depend_idx = refl; loop_visit = λ j. refl })
  ]
    where
      dependency :
          (op : Operation)
          → Always
              (λ _ t. Walks s t)
              (if is_write op
                then exits not_reading
                else done (
                  not (not (s.depend_idx == uint32_max) && ltb s.depend_idx idx),
                  record s { is_dependency = true },
                ))
      dependency write_data = tt
      dependency read_reply = record {
        parcel = refl;
        operation = refl;
        depend_idx = refl;
        loop_visit = λ j. refl;
      }

  -- One step of the loop, given the rest of it.
  advance :
      (fuel idx : ℕ) (t u v : State) (r : ℕ)
      → ((j : ℕ) (x : State)
          → length x.parcel < 4294967296
          → j ≤ length x.parcel
          → length x.parcel < fuel + j
          → Always (λ _ y. Walks x y) (walk floats m item fuel j x))
      → Walks t u
      → Advances idx u r v
      → length t.parcel < 4294967296
      → idx < length t.parcel
      → length t.parcel < suc fuel + idx
      → Always (λ _ y. Walks t y) (walk floats m item fuel ((idx + r) % 4294967296) v)
  advance fuel idx t u v r next g a small less h =
      let same = ap length g.parcel in
      let same' = ap length a.walks.parcel in
      let left = length-drop (suc idx) u.parcel in
      Always-map (λ _ y. Walks v y) (λ _ y. Walks t y) _
        (next ((idx + r) % 4294967296) v (omega (arith, same, same'))
          (omega (arith, same, same', left, a.fits))
          (omega (arith, same, same', left, a.fits, a.positive)))
        (λ _ y z. Walks-preorder.transitive t v y (Walks-preorder.transitive t u v g a.walks) z)

  walk-Walks :
      (fuel idx : ℕ) (t : State)
      → length t.parcel < 4294967296
      → idx ≤ length t.parcel
      → length t.parcel < fuel + idx
      → Always (λ _ u. Walks t u) (walk floats m item fuel idx t)
  unfolding walk
  walk-Walks zero idx t small le h = absurd (omega arith)
  walk-Walks (suc fuel) idx t small le h =
      let next = walk-Walks fuel in
      Always-if (λ _ u. Walks t u) (ltb idx (length t.parcel)) _ (pure tt) t
        (λ (less : ltb idx (length t.parcel) ≡ true).
          Always-bind (λ _ u. Walks t u) (λ _ u. Walks t u) (should_handle floats m item idx) _ t
            (should_handle-Walks idx t)
            (λ b u g.
              Always-if (λ _ v. Walks t v) b _ (pure tt) u
                (λ _.
                  Always-bind (λ r v. Advances idx u r v) (λ _ v. Walks t v)
                    (read_write_from floats m item (suc (length m.loop)) idx) _ u
                    (read_write_from-Advances floats m item item_walks (suc (length m.loop)) idx u
                      (omega (arith, unvisited-le u.loop_visit (length m.loop))))
                    (λ r v a. advance fuel idx t u v r next g a small (ground arith) h))
                (λ _. g)))
        (λ _. Walks-preorder.reflexive t)

  -- From every state with a parcel of fewer than 2^32 entries, start comes back or ends the
  -- process, if reading or writing one variable does; it never runs out of fuel. It leaves the
  -- parcel, the mode, the dependency and the visits to loops as they were, if reading or writing
  -- one variable does.
  pub start-Total :
      (s : State) → length s.parcel < 4294967296 → Always (λ _ t. Walks s t) (start floats m item s)
  unfolding start
  start-Total s small = walk-Walks (suc (length s.parcel)) 0 s small (omega arith) (omega arith)
