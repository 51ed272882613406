-- ===== src/Structures/Nested/Flattenable.antt =====
-- structure_type.cpp: the level of flattenable structures, and what is written before the outermost.
use fans.Base.{ℕ, ◌+◌, ◌%◌, ◌<◌, ◌==◌, ◌≡◌, refl, ap, ◌∙◌, ◌∷◌, List, arith}
use fans.Base.Text.{Text}
use fans.Base.Int.{pos, to_i32, ℤ}
use fans.Exec.{Exec, done, pure}
use fans.Exec.Total.{Always, Always-bind, Always-if, Always-map, Total, IsPreorder}
use fans.Calls.{Call, write_int32, set_data_position}
use fans.Model.{Tables}
use fans.State.{State}
use fans.Structures.Nested.{
  Structure, writer_in, after_writer, distance, generate_flattenable, generate_nested_flattenable,
  fix_flattenable, write_new_fds,
}
use fans.Structures.Nested.Lengths.{
  Keeps, Walked, Always-done, distance_self, cut, set_position, nested-Always, is_zero,
}

pub record SameLevel (s t : State) : Type 0 where
  pub level : t.flattenable_level ≡ s.flattenable_level

instance pub SameLevel-preorder : IsPreorder SameLevel
SameLevel-preorder = record {
  reflexive = λ s. record { level = refl };
  transitive = λ s t u g h. record { level = h.level ∙ g.level };
}

-- The position goes to `p`, the length 0 and the number 0 of file descriptors are written, and the
-- position goes to `p` once more.
abbrev fixed_at : ℕ → List Call → List Call
fixed_at p calls =
    set_data_position p ∷ write_int32 (pos 0) ∷ write_int32 (pos 0) ∷ set_data_position p ∷ calls

record Fixed (p : ℕ) (s t : State) : Type 0 where
  calls : t.written ≡ fixed_at p s.written
  level : t.flattenable_level ≡ s.flattenable_level
  fds : t.fd_count ≡ s.fd_count

-- The level and the number of file descriptors are as they were. The calls on the data parcel: a
-- length of 0 and a number 0 of file descriptors at the position `p`, the calls of the walk, and then
-- the position goes back to `p`, again 0 and 0 are written, and the position goes to `p` once more.
pub record NoneCounted (run : Exec State (Unit {0})) (parcel : List Text) (position : List Call → ℕ)
    (s t : State) : Type 0 where
  pub inside : List Call
  pub walked : Walked run parcel (write_int32 (pos 0) ∷ write_int32 (pos 0) ∷ s.written) inside
  pub calls :
      let p = position s.written % 4294967296 in
      t.written
      ≡ set_data_position p
        ∷ write_int32 (pos 0)
        ∷ write_int32 (pos 0)
        ∷ set_data_position p
        ∷ inside
  pub level : t.flattenable_level ≡ s.flattenable_level
  pub fds : t.fd_count ≡ s.fd_count

no_new_fds :
    (generate_fd : Exec State ℤ) (n : ℕ) (s : State)
    → n ≡ 0
    → Always (λ _ t. t ≡ s) (write_new_fds generate_fd n s)
unfolding write_new_fds
no_new_fds generate_fd n s e = rw e refl

-- The level inside is one more than the level outside.
down : (n : ℕ) → n ≡ 0 → distance 1 ((n + 1) % 4294967296) ≡ n
down n e = omega (arith, e)

module _ (start : Tables → Exec State (Unit {0})) (m : Tables) (position : List Call → ℕ)
    (structure : Structure) (var_type : Text) (generate_fd : Exec State ℤ)
    (keeps : Keeps position) where
  fix_flattenable-Fixed :
      (p k : ℕ) (s : State)
      → p < 4294967296
      → k < 4294967296
      → s.fd_count ≡ k
      → Always
          (λ _ t. Fixed p s t)
          (fix_flattenable start m position structure var_type generate_fd p k s)
  unfolding fix_flattenable
  fix_flattenable-Fixed p k s h b e =
      let none : distance k s.fd_count ≡ 0 = ap (distance k) e ∙ distance_self k b in
      Always-map (λ _ t. t ≡ _) (λ _ t. Fixed p s t)
        (write_new_fds generate_fd (distance k s.fd_count) _)
        (no_new_fds generate_fd (distance k s.fd_count) _ none)
        (λ _ t same. record {
          calls =
              ap (λ u. u.written) same
              ∙ ap
                  (λ c.
                    set_data_position c
                    ∷ write_int32 (to_i32 (distance k s.fd_count))
                    ∷ write_int32 (to_i32 (distance p c))
                    ∷ set_data_position p
                    ∷ s.written)
                  (set_position position keeps p s.written h)
              ∙ ap
                  (λ n.
                    set_data_position p
                    ∷ write_int32 (to_i32 n)
                    ∷ write_int32 (to_i32 (distance p p))
                    ∷ set_data_position p
                    ∷ s.written)
                  none
              ∙ ap
                  (λ n.
                    set_data_position p
                    ∷ write_int32 (pos 0)
                    ∷ write_int32 (to_i32 n)
                    ∷ set_data_position p
                    ∷ s.written)
                  (distance_self p h);
          level = ap (λ u. u.flattenable_level) same;
          fds = ap (λ u. u.fd_count) same;
        })

  module _ (ends : Total SameLevel (start structure.tables)) where
    -- The walk gives the level back, and counts its file descriptors in a reader-writer of its own.
    record Inside (s t : State) : Type 0 where
      walked : Walked (start structure.tables) structure.data_parcel s.written t.written
      level : t.flattenable_level ≡ s.flattenable_level
      fds : t.fd_count ≡ s.fd_count

    abbrev enter : State → State
    enter s = record (writer_in structure.data_parcel s) { flattenable_level = s.flattenable_level }

    generate_nested_flattenable-Inside :
        (s : State)
        → Always
            (λ _ t. Inside s t)
            (generate_nested_flattenable start m position structure var_type s)
    unfolding generate_nested_flattenable
    generate_nested_flattenable-Inside s =
        nested-Always (λ _ t. Inside s t) enter
          (λ s t. record (after_writer s t) { flattenable_level = t.flattenable_level }) (λ t. tt)
          (start structure.tables)
          (λ t. SameLevel (enter s) t × (start structure.tables (enter s) ≡ done (tt, t))) s
          (Always-done (λ _ t. SameLevel (enter s) t) (start structure.tables (enter s))
            (ends.run (enter s)))
          (λ t (g, e). record {
            walked = record {
              before = enter s;
              after = t;
              ran = e;
              walks = refl;
              begins = refl;
              leaves = refl;
            };
            level = g.level;
            fds = refl;
          })

    abbrev begun : State → State
    begun s = record s {
      flattenable_level = (s.flattenable_level + 1) % 4294967296;
      written = write_int32 (pos 0) ∷ write_int32 (pos 0) ∷ s.written;
    }

    -- The writing of an outermost flattenable structure, at level 0 and with fewer than 2^32 file
    -- descriptors counted, comes back or ends the process, if the walk over the structure does and
    -- gives the level of flattenable structures back. If it comes back, the level and the number
    -- of file descriptors are as they were. The calls on the data parcel are a length of 0 and a
    -- number 0 of file descriptors at the position where the writing began, those of one walk over
    -- the entries of the structure that began there, and then setDataPosition to the position
    -- where the writing began, again the length 0 and the number 0 of file descriptors whatever
    -- the walk has written, and setDataPosition to the same position, given that dataPosition
    -- answers what setDataPosition set.
    pub generate_flattenable-NoneCounted :
        (s : State)
        → s.flattenable_level ≡ 0
        → s.fd_count < 4294967296
        → Always
            (λ _ t. NoneCounted (start structure.tables) structure.data_parcel position s t)
            (generate_flattenable start m position structure var_type generate_fd s)
    unfolding generate_flattenable
    generate_flattenable-NoneCounted s outermost bounded =
        let p = position s.written % 4294967296 in
        let Q = λ (a : Unit {0}) (t : State).
          NoneCounted (start structure.tables) structure.data_parcel position s t in
        Always-bind (λ _ u. Inside (begun s) u) Q
          (generate_nested_flattenable start m position structure var_type) _ (begun s)
          (generate_nested_flattenable-Inside (begun s))
          (λ _ u k.
            let v = record u { flattenable_level = distance 1 u.flattenable_level } in
            let restored : v.flattenable_level ≡ s.flattenable_level =
              ap (distance 1) k.level ∙ down s.flattenable_level outermost in
            Always-if Q (v.flattenable_level == 0)
              (fix_flattenable start m position structure var_type generate_fd p s.fd_count)
              (pure tt) v
              (λ _.
                Always-map (λ _ t. Fixed p v t) Q _
                  (fix_flattenable-Fixed p s.fd_count v (cut (position s.written)) bounded k.fds)
                  (λ _ t n. record {
                    inside = u.written;
                    walked = k.walked;
                    calls = n.calls;
                    level = n.level ∙ restored;
                    fds = n.fds ∙ k.fds;
                  }))
              (λ off. absurd (is_zero v.flattenable_level (restored ∙ outermost) off)))
