-- ===== src/Structures/Nested/Lengths.antt =====
-- structure_type.cpp: the lengths that are written before a structure.
use mathlib.Core.Path.{subst}
use fans.Base.{ℕ, sym, ◌%◌, ◌<◌, ◌==◌, ◌≡◌, refl, ap, ◌∙◌, false, ◌∷◌, List, some, arith}
use fans.Base.Text.{Text, codes}
use fans.Base.Int.{pos, to_i32}
use fans.Exec.{Exec, Outcome, done, exits, hangs, pure, ◌>>=◌, ◌>>◌}
use fans.Exec.Total.{
  Always, Always-bind, Always-if, Always-map, Total, Total-bind, Total-if, Total-pure,
}
use fans.Calls.{Call, write_int32, set_data_position}
use fans.Model.{Tables}
use fans.State.{State, draw}
use fans.IntType.{generate_size}
use fans.IntType.Bounds.{generate_size-Sure}
use fans.Parcel.Grows.{Grows, Grows-preorder, store_value-Total}
use fans.Writer.Total.{draws}
use fans.Writer.Writes.{Total-Sure}
use fans.Writer.Items.{put_call}
use fans.Structures.Nested.{
  Structure, nested, writer_in, after_writer, distance, fixed_of, is_frame_stats, data_position,
  generate_structure, draw_frame_count, begin_length, fix_length, generate_light_flattenable,
}

-- dataPosition() answers what setDataPosition(p) set last.
pub record Keeps (position : List Call → ℕ) : Type 0 where
  pub set : (p : ℕ) (calls : List Call) → position (set_data_position p ∷ calls) ≡ p

-- Code that comes back or ends the process.
abbrev pub Ends : State → State → Type 0
Ends s t = Unit {0}

-- A walk over a structure that came back: it began on the calls `begun` of the data parcel, and left
-- the calls `left`.
pub record Walked (run : Exec State (Unit {0})) (parcel : List Text) (begun left : List Call)
    : Type 0 where
  pub before : State
  pub after : State
  pub ran : run before ≡ done (tt, after)
  pub walks : before.parcel ≡ parcel
  pub begins : before.written ≡ begun
  pub leaves : after.written ≡ left

-- The calls on the data parcel: a length of 0 at the position `p`, the calls of the walk, and then
-- the position goes back to `p`, a length of 0 is written, and the position goes to `p` once more.
pub record LengthZero (run : Exec State (Unit {0})) (parcel : List Text) (position : List Call → ℕ)
    (s t : State) : Type 0 where
  pub inside : List Call
  pub walked : Walked run parcel (write_int32 (pos 0) ∷ s.written) inside
  pub calls :
      let p = position s.written % 4294967296 in
      t.written ≡ set_data_position p ∷ write_int32 (pos 0) ∷ set_data_position p ∷ inside

pub distance_self : (p : ℕ) → p < 4294967296 → distance p p ≡ 0
distance_self p h = omega (arith, h)

pub is_zero : (n : ℕ) → n ≡ 0 → (n == 0) ≡ false → ⊥
is_zero n z off = ground (arith, z, off)

pub cut : (n : ℕ) → n % 4294967296 < 4294967296
cut n = omega arith

pub set_position :
    (position : List Call → ℕ)
    → Keeps position
    → (p : ℕ) (calls : List Call) → p < 4294967296
    → position (set_data_position p ∷ calls) % 4294967296 ≡ p
set_position position k p calls h = ap (λ c. c % 4294967296) (k.set p calls) ∙ omega (arith, h)

-- What came back is what the code answered.
pub Always-done :
    {A : Type 0} (P : A → State → Type 0) (o : Outcome (A × State))
    → Always P o
    → Always (λ a t. P a t × (o ≡ done (a, t))) o
Always-done P (done (a, t)) h = (h, refl)
Always-done P (exits e) h = tt
Always-done P hangs h = h

pub nested-Always :
    {A : Type 0} (Q : A → State → Type 0) (enter : State → State) (leave : State → State → State)
    (result : State → A) (run : Exec State (Unit {0})) (R : State → Type 0) (s : State)
    → Always (λ _ t. R t) (run (enter s))
    → ((t : State) → R t → Q (result t) (leave s t))
    → Always Q (nested enter leave result run s)
nested-Always Q enter leave result run R s h k =
    Always-bind {S = State} (λ _ t. R t) Q run (λ _ t. done (result t, leave s t)) (enter s) h
      (λ _ t r. k t r)

module _ (start : Tables → Exec State (Unit {0})) (m : Tables) (position : List Call → ℕ)
    (structure : Structure) (var_type : Text) (keeps : Keeps position) where
  fix_length-calls :
      (p : ℕ) (s : State)
      → p < 4294967296
      → Always
          (λ _ t.
            t.written ≡ set_data_position p ∷ write_int32 (pos 0) ∷ set_data_position p ∷ s.written)
          (fix_length start m position structure var_type p s)
  fix_length-calls p s h =
      ap
        (λ c.
          set_data_position c
          ∷ write_int32 (to_i32 (distance p c))
          ∷ set_data_position p
          ∷ s.written)
        (set_position position keeps p s.written h)
      ∙ ap (λ n. set_data_position p ∷ write_int32 (to_i32 n) ∷ set_data_position p ∷ s.written)
          (distance_self p h)

  draw_frame_count-Total : Total Grows (draw_frame_count start m position structure var_type)
  unfolding draw_frame_count
  draw_frame_count-Total =
      Total-if (is_frame_stats var_type) _ (pure tt)
        (λ _.
          Total-bind (draw generate_size) _
            (draws generate_size (Total-Sure _ _ generate_size-Sure))
            (λ n. store_value-Total m (codes "frameCount") _))
        (λ _. Total-pure tt)

  begin_length-zero :
      (n : ℕ) (s : State)
      → n ≡ 0
      → Always
          (λ p t.
            (p ≡ position s.written % 4294967296) × (t.written ≡ write_int32 (pos 0) ∷ s.written))
          (begin_length start m position structure var_type n s)
  begin_length-zero n s z =
      Always-if
        (λ p t.
          (p ≡ position s.written % 4294967296) × (t.written ≡ write_int32 (pos 0) ∷ s.written))
        (n == 0)
        (data_position start m position structure var_type >>= λ p.
          put_call (write_int32 (pos 0)) >> pure p)
        (pure 0) s (λ _. (refl, refl)) (λ off. absurd (is_zero n z off))

  fixed_of-zero :
      (s : State)
      → structure.fixed ≡ some (pos 0)
      → Always (λ n t. (n ≡ 0) × (t.written ≡ s.written)) (fixed_of structure s)
  fixed_of-zero s e = rw (e, Always) (refl, refl)

  module _ (ends : Total Ends (start structure.tables)) where
    generate_structure-Walked :
        (s : State)
        → Always
            (λ _ t. Walked (start structure.tables) structure.data_parcel s.written t.written)
            (generate_structure start m position structure var_type s)
    unfolding generate_structure
    generate_structure-Walked s =
        let enter = writer_in structure.data_parcel s in
        nested-Always
          (λ _ t. Walked (start structure.tables) structure.data_parcel s.written t.written)
          (writer_in structure.data_parcel) after_writer (λ t. tt) (start structure.tables)
          (λ t. Ends s t × (start structure.tables enter ≡ done (tt, t))) s
          (Always-done (λ _ t. Ends s t) (start structure.tables enter) (ends.run enter))
          (λ t (_, e). record {
            before = enter;
            after = t;
            ran = e;
            walks = refl;
            begins = refl;
            leaves = refl;
          })

    -- The writing of a light flattenable structure whose size is not fixed comes back or ends the
    -- process, if the walk over the structure does. If it comes back, the calls on the data parcel
    -- are a length of 0 at the position where the writing began, those of one walk over the entries
    -- of the structure that began there, and then setDataPosition to the position where the writing
    -- began, again a length of 0 whatever the walk has written, and setDataPosition to the same
    -- position, given that dataPosition answers what setDataPosition set.
    pub generate_light_flattenable-LengthZero :
        (s : State)
        → structure.fixed ≡ some (pos 0)
        → Always
            (λ _ t. LengthZero (start structure.tables) structure.data_parcel position s t)
            (generate_light_flattenable start m position structure var_type s)
    unfolding generate_light_flattenable
    generate_light_flattenable-LengthZero s e =
        let run = start structure.tables in
        let parcel = structure.data_parcel in
        let Q = λ (a : Unit {0}) (t : State). LengthZero run parcel position s t in
        Always-bind (λ n t. (n ≡ 0) × (t.written ≡ s.written)) Q (fixed_of structure) _ s
          (fixed_of-zero s e)
          (λ n t (z, same).
            Always-bind
              (λ p u.
                (p ≡ position t.written % 4294967296)
                × (u.written ≡ write_int32 (pos 0) ∷ t.written))
              Q (begin_length start m position structure var_type n) _ t (begin_length-zero n t z)
              (λ p u (at_p, begun).
                Always-bind (λ _ v. Grows u v) Q
                  (draw_frame_count start m position structure var_type) _ u
                  (draw_frame_count-Total.run u)
                  (λ _ v g.
                    Always-bind (λ _ w. Walked run parcel v.written w.written) Q
                      (generate_structure start m position structure var_type) _ v
                      (generate_structure-Walked v)
                      (λ _ w k.
                        Always-if Q (n == 0) (fix_length start m position structure var_type p)
                          (pure tt) w
                          (λ _. length_at p s w (at_p ∙ ap (λ c. position c % 4294967296) same) (
                            from k (
                              ap (λ o. o.0) g.others_same
                              ∙ begun
                              ∙ ap (λ c. write_int32 (pos 0) ∷ c) same)))
                          (λ off. absurd (is_zero n z off))))))
      where
        from :
            {calls others left : List Call}
            → Walked (start structure.tables) structure.data_parcel calls left
            → calls ≡ others
            → Walked (start structure.tables) structure.data_parcel others left
        from k e = record {
          before = k.before;
          after = k.after;
          ran = k.ran;
          walks = k.walks;
          begins = k.begins ∙ e;
          leaves = k.leaves;
        }

        length_at :
            (p : ℕ) (s w : State)
            → p ≡ position s.written % 4294967296
            → Walked
                (start structure.tables)
                structure.data_parcel
                (write_int32 (pos 0) ∷ s.written)
                w.written
            → Always
                (λ _ t. LengthZero (start structure.tables) structure.data_parcel position s t)
                (fix_length start m position structure var_type p w)
        length_at p s w at_p k =
            Always-map _
              (λ _ t. LengthZero (start structure.tables) structure.data_parcel position s t)
              (fix_length start m position structure var_type p w)
              (fix_length-calls p w
                (subst (λ n. n < 4294967296) (sym at_p) (cut (position s.written))))
              (λ _ t c. record {
                inside = w.written;
                walked = k;
                calls =
                    c
                    ∙ ap
                        (λ p.
                          set_data_position p
                          ∷ write_int32 (pos 0)
                          ∷ set_data_position p
                          ∷ w.written)
                        at_p;
              })
