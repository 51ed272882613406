-- ===== src/Strings/Pairs.antt =====
-- string_type.cpp: the generators of key-value pairs come back.
use fans.Random.{Source}
use fans.Base.{
  ℕ, zero, suc, ◌≤◌, ◌<◌, ◌==◌, ◌≡◌, refl, sym, ◌∙◌, inl, inr, List, [], ◌∷◌, none, some, length,
  All, arith, get_elem?,
}
use fans.Base.Text.{Text, codes, text_eq}
use fans.Exec.{Exec, pure, exit, ◌>>=◌, out_of_bounds}
use mathlib.Core.Bool.{true≢false}
use fans.TypeMap.{type_of}
use fans.Exec.Succeeds.{Sure, Sure-pure, Sure-bind}
use fans.IntType.Bounds.{draw-Sure}
use fans.Scalars.{generate_bool}
use fans.Exec.Keeps.{Keeps, Returned, Keeps-if, Keeps-bind}
use fans.VarType.{
  VarType, int32_type, uint32_type, int64_type, uint64_type, cstring_type, bool_type,
}
use fans.IntType.Draws.{generate_int-Sure}
use fans.Strings.{Seeds}
use fans.Strings.Fair.{Fair, On, AnyText, uniformly-Keeps, random_generate-Keeps}
use fans.Strings.Returns.{IsKnown, IsReady, Returns, after_draw, after_text, returned}
use fans.Strings.Audio.{
  audio_parameters, print_value, typed_value, audio_value, parameter_at, key_pairs,
  generate_key_value_pairs, integer,
}

module _ (patience : ℕ) (seeds : Seeds) (ready : IsReady seeds) (nested : Exec Source Text)
    (inner : Returns patience nested) where
  generate_bool-Sure : Sure (λ b. Unit {0}) generate_bool
  generate_bool-Sure =
      Sure-bind (λ v. Unit {0}) _ _ _ (draw-Sure 0 1 _ (omega arith) (λ v l u. tt))
        (λ v _. Sure-pure _ _ tt)

  after_integer :
      (width : ℕ) (type : Text) (f : ℕ → Exec Source Text)
      → ((v : ℕ) → Returns patience (f v))
      → Returns patience (integer seeds nested width type >>= f)
  unfolding text_eq
  after_integer width type f k =
      Keeps-bind _ _ AnyText _ f
        (uniformly-Keeps (Fair patience) _ _
          (generate_int-Sure seeds.platform seeds.enum_info width [] type ready.enums refl))
        (λ v _. k v)

  print_value-Returns :
      (type : Text) (v : VarType) → Returns patience (print_value seeds nested type v)
  unfolding print_value
  print_value-Returns type int32_type = after_integer 32 type _ (λ v. returned _ _)
  print_value-Returns type uint32_type = after_integer 32 type _ (λ v. returned _ _)
  print_value-Returns type int64_type = after_integer 64 type _ (λ v. returned _ _)
  print_value-Returns type uint64_type = after_integer 64 type _ (λ v. returned _ _)
  print_value-Returns type cstring_type = inner
  print_value-Returns type bool_type =
      Keeps-bind _ _ AnyText _ _ (uniformly-Keeps (Fair patience) _ _ generate_bool-Sure)
        (λ b _. returned _ _)
  print_value-Returns type _ = returned _ _

  typed_value-Returns :
      (type : Text) (v : VarType)
      → type_of seeds.types type ≡ some v
      → Returns patience (typed_value seeds nested type)
  unfolding typed_value
  typed_value-Returns type v e = rw (e, typed_value) (print_value-Returns type v)

  audio_value-Returns :
      (p : Text × Text) → IsKnown seeds.types p → Returns patience (audio_value seeds nested (p.1))
  unfolding audio_value
  audio_value-Returns p h =
      Keeps-if _ _ (text_eq (p.1) (codes "on|off")) _ _
        (λ _. after_draw patience 0 1 _ (omega arith) (λ v _. returned _ _))
        (λ no. elim h [
          | inl on_off ↦ absurd (true≢false (sym on_off ∙ no))
          | inr known ↦ typed_value-Returns (p.1) (known.0) (known.1)
        ])

  entry_returned :
      (ps : List (Text × Text)) (r : ℕ) (s : Source)
      → All (IsKnown seeds.types) ps
      → r < length ps
      → Fair patience s.chars
      → Returned
          (On (Fair patience))
          (IsKnown seeds.types)
          (elim (get_elem? ps r) [ none ↦ exit out_of_bounds s | some p ↦ pure p s ])
  entry_returned [] r s h k i = absurd (omega (arith, k))
  entry_returned (p ∷ ps) zero s h k i = (h.0, i)
  entry_returned (p ∷ ps) (suc r) s h k i = entry_returned ps r s h.1 (omega (arith, k)) i

  is_parameter : (r : ℕ) → r ≤ 18 → r < length audio_parameters
  unfolding audio_parameters
  is_parameter r h = omega (arith, h)

  parameter_at-Keeps :
      (r : ℕ) → r ≤ 18 → Keeps (On (Fair patience)) (IsKnown seeds.types) (parameter_at r)
  unfolding parameter_at
  parameter_at-Keeps r h = record {
    run = λ s i. entry_returned audio_parameters r s ready.types (is_parameter r h) i;
  }

  key_pairs-Returns :
      (num : ℕ) (result : Text) → Returns patience (key_pairs seeds nested num result)
  unfolding key_pairs
  key_pairs-Returns zero result = returned _ _
  key_pairs-Returns (suc num) result = after_draw patience 0 18 _ (omega arith) (λ r h.
      Keeps-bind _ _ AnyText _ _ (parameter_at-Keeps r h) (λ p known.
        after_text patience _ _ (audio_value-Returns p known) (λ value. key_pairs-Returns num _)))

  pub generate_key_value_pairs-Returns :
      Returns patience (generate_key_value_pairs seeds nested patience)
  unfolding generate_key_value_pairs
  generate_key_value_pairs-Returns = after_draw patience 0 5 _ (omega arith) (λ n _.
      Keeps-if _ _ (n == 0) _ _
        (λ _. after_draw patience 0 18 _ (omega arith) (λ num _. key_pairs-Returns num []))
        (λ _. after_text patience _ _ (random_generate-Keeps patience) (λ prefix.
          after_text patience _ _ (random_generate-Keeps patience) (λ suffix. returned _ _))))
