-- ===== src/Arrays/Dependency.antt =====
-- array_type.cpp: isDependency after the reading of an array.
use fans.Base.{
  ℕ, zero, suc, ◌+◌, ◌≤◌, ◌<◌, ◌==◌, ◌≡◌, refl, sym, ap, ◌∙◌, Bool, true, false, ◌&&◌,
  if◌then◌else◌, arith, ltb, ==_iff, ◌++◌,
}
use fans.Base.Text.{text_eq, codes}
use fans.Exec.{Exec, done, pure, exit, bad_item}
use fans.Exec.Total.{
  Always, Always-bind, Always-if, Always-map, Total, Total-bind, Total-pure, Total-if, Total-exit,
}
use fans.Random.{Rng, advance, random_uint64, random_uint64_lem}
use fans.Calls.{Reply}
use fans.Model.{Tables, Variable}
use fans.State.{State, draw, uint32_max}
use fans.Checker.{Floats}
use fans.Parcel.Grows.{get_var_idx-Total}
use fans.Parcel.Traverse.{read_write_item}
use fans.Parcel.Traverse.Dependency.{
  SameDependency, SameDependency-preorder, keeps_dependency, read_write_item-SameDependency,
}
use fans.Arrays.{
  Solver, cut_count, item_idx, item_at, check_item, last_index, choose_dependency, read_items,
  read_array_items,
}

taken :
    (s : State) (b : Bool)
    → s.is_dependency ≡ false
    → (if b then record s { is_dependency = true } else s).is_dependency ≡ b
taken s true e = refl
taken s false e = e

within : (chosen i n : ℕ) → i ≡ chosen → ltb chosen (i + suc n) ≡ true
within chosen i n e = ground (arith, e)

next : (chosen i : ℕ) → i ≤ chosen → (i == chosen) ≡ false → suc i ≤ chosen
next chosen i h e = ground (arith, h, e)

shifted : (chosen i n : ℕ) → ltb chosen (suc i + n) ≡ ltb chosen (i + suc n)
shifted chosen i n = ground arith

from_zero : (chosen n : ℕ) → ltb chosen (0 + n) ≡ ltb chosen n
from_zero chosen n = ground arith

drawn_Always :
    {A : Type 0} (m : Exec Rng A) (Q : A → State → Type 0) (s : State) (v : A) (r : Rng)
    → m s.rng ≡ done (v, r)
    → Q v (record s { rng = r })
    → Always Q (draw m s)
drawn_Always m Q s v r e h = rw (e, Always) h

draw_bounded : (max : ℕ) (s : State) → Always (λ v t. v ≤ max) (draw (random_uint64 0 max) s)
draw_bounded max s =
    let (v, e, low, high) = random_uint64_lem 0 max s.rng (omega arith) in
    drawn_Always (random_uint64 0 max) (λ v t. v ≤ max) s v (advance s.rng) e high

-- The chosen index is one of the items that are read, unless there is none.
chosen-cut :
    (n chosen : ℕ) → n < 4294967296 → chosen ≤ last_index n → ltb chosen (cut_count n) ≡ ltb 0 n
chosen-cut n chosen h k = ground arith

unreached : (n : ℕ) → ltb uint32_max (cut_count n) ≡ false
unreached n = ground arith

module _ (floats : Floats) (m : Tables) (item : ℕ → Exec State (Unit {0})) (solver : Solver)
    (replies : Reply) (variable : Variable)
    (item_keeps : (i : ℕ) → Total SameDependency (item i)) where
  -- The loop takes isDependency up at the chosen item, and stops there.
  read_items-dependency :
      (chosen j n i : ℕ) (s : State)
      → s.is_dependency ≡ false
      → i ≤ chosen
      → Always
          (λ _ t. t.is_dependency ≡ ltb chosen (i + n))
          (read_items floats m item solver replies variable chosen j n i s)
  unfolding read_items
  read_items-dependency chosen j zero i s e h = e ∙ ground arith
  read_items-dependency chosen j (suc n) i s e h =
      let rest = read_items-dependency chosen j n (suc i) in
      let t = if i == chosen then record s { is_dependency = true } else s in
      Always-bind (λ _ u. SameDependency t u) (λ _ v. v.is_dependency ≡ ltb chosen (i + suc n))
        (read_write_item floats m item j) _ t
        ((read_write_item-SameDependency floats m item item_keeps j).run t)
        (λ _ u g.
          let reached = g.same ∙ taken s (i == chosen) e in
          Always-if (λ _ v. v.is_dependency ≡ ltb chosen (i + suc n)) u.is_dependency (pure tt)
            (read_items floats m item solver replies variable chosen j n (suc i)) u
            (λ on. on ∙ sym (within chosen i n ((==_iff i chosen).0 (sym reached ∙ on))))
            (λ off.
              Always-map (λ _ v. v.is_dependency ≡ ltb chosen (suc i + n))
                (λ _ v. v.is_dependency ≡ ltb chosen (i + suc n))
                (read_items floats m item solver replies variable chosen j n (suc i) u)
                (rest u off (next chosen i h (sym reached ∙ off)))
                (λ _ v k. k ∙ shifted chosen i n)))

  abbrev Chosen : ℕ → State → ℕ → State → Type 0
  Chosen n s chosen t =
      (t.is_dependency ≡ false) × (ltb chosen (cut_count n) ≡ (s.is_dependency && ltb 0 n))

  choose_dependency-Chosen :
      (n : ℕ) (s : State)
      → n < 4294967296
      → Always (Chosen n s) (choose_dependency floats m item solver replies variable n s)
  unfolding choose_dependency
  choose_dependency-Chosen n s h =
      Always-if (Chosen n s) s.is_dependency _ _ s
        (λ on.
          Always-bind (λ v t. v ≤ last_index n) (Chosen n s) (draw (random_uint64 0 (last_index n)))
            _ s (draw_bounded (last_index n) s)
            (λ v t k. (refl, chosen-cut n v h k ∙ ap (λ b. b && ltb 0 n) (sym on))))
        (λ off. (off, unreached n ∙ ap (λ b. b && ltb 0 n) (sym off)))

  item_idx-SameDependency : Total SameDependency (item_idx floats m item solver replies variable)
  unfolding item_idx
  item_idx-SameDependency =
      Total-bind _ _ (keeps_dependency _ (get_var_idx-Total m variable.name)) (λ i. Total-pure _)

  check_item-SameDependency :
      (j : ℕ) → Total SameDependency (check_item floats m item solver replies variable j)
  check_item-SameDependency j =
      Total-if
        (text_eq (item_at floats m item solver replies variable j).name
          (variable.name ++ codes "::item"))
        (pure tt) (exit bad_item) (λ _. Total-pure tt) (λ _. Total-exit bad_item)

  abbrev Ends : Bool → Unit {0} → State → Type 0
  Ends b x t = t.is_dependency ≡ b

  -- Reading the items of an array comes back or ends the process, if the reading of an item does
  -- and keeps isDependency. If it comes back, isDependency is as it was, unless the array is empty:
  -- then it is false.
  pub read_array_items-dependency :
      (n : ℕ) (s : State)
      → n < 4294967296
      → Always
          (λ _ t. t.is_dependency ≡ (s.is_dependency && ltb 0 n))
          (read_array_items floats m item solver replies variable n s)
  unfolding read_array_items item_idx
  read_array_items-dependency n s h =
      let b = s.is_dependency && ltb 0 n in
      Always-bind (Chosen n s) (Ends b) (choose_dependency floats m item solver replies variable n)
        _ s (choose_dependency-Chosen n s h)
        (λ chosen t (off, cut).
          Always-bind (λ _ u. SameDependency t u) (Ends b)
            (item_idx floats m item solver replies variable) _ t (item_idx-SameDependency.run t)
            (λ j u g.
              Always-bind (λ _ v. SameDependency u v) (Ends b)
                (check_item floats m item solver replies variable j) _ u
                ((check_item-SameDependency j).run u)
                (λ _ v k.
                  Always-map (Ends (ltb chosen (0 + cut_count n))) (Ends b)
                    (read_items floats m item solver replies variable chosen j (cut_count n) 0 v)
                    (read_items-dependency chosen j (cut_count n) 0 v (k.same ∙ g.same ∙ off)
                      (omega arith))
                    (λ _ w e. e ∙ from_zero chosen (cut_count n) ∙ cut))))
