-- ===== src/Base/Map.antt =====
-- std::map<string, V> as an association list with at most one entry for a key.
use mathlib.Core.Path.{◌≡◌}
use mathlib.Core.Option.{Option, none, some}
use mathlib.Core.List.{List, [], ◌∷◌}
use native.Mathlib.Omega.{arith}
use fans.Base.Tests.{if◌then◌else◌}
use fans.Base.Text.{Text, text_eq, text_eq_iff, is_prefix}

abbrev pub Map {ℓ} : Type ℓ → Type ℓ
Map V = List (Text × V)

module _ {ℓ} {V : Type ℓ} where
  unfoldable pub get : Text → Map V → Option V
  get k [] = none
  get k ((j, v) ∷ m) = if text_eq j k then some v else get k m

  -- m.erase(k)
  pub erase : Text → Map V → Map V
  erase k [] = []
  erase k ((j, v) ∷ m) = let rest = erase k m in if text_eq j k then rest else (j, v) ∷ rest

  -- m[k] = v
  pub put : Text → V → Map V → Map V
  unfolding erase
  put k v m = (k, v) ∷ erase k m

  -- The loop that erases every key that begins with a prefix.
  pub erase_prefix : Text → Map V → Map V
  erase_prefix p [] = []
  erase_prefix p ((j, v) ∷ m) =
      let rest = erase_prefix p m in if is_prefix p j then rest else (j, v) ∷ rest

  abbrev or_else : Option V → V → V
  or_else none d = d
  or_else (some v) d = v

  -- The value of m[k], where a missing key reads as the default. That the C++ operator also adds
  -- the default is seen by nothing but `count`, and is written as a `put` where `count` is asked.
  abbrev pub at : Text → V → Map V → V
  at k d m = or_else (get k m) d

  pub get-erase :
      (k j : Text) (m : Map V) → get j (erase k m) ≡ (if text_eq k j then none else get j m)
  unfolding get erase
  get-erase k j [] = ground arith
  get-erase k j ((i, v) ∷ m) =
      ground (arith, get-erase k j m, text_eq_iff i k, text_eq_iff i j, text_eq_iff k j)

  pub get-put :
      (k j : Text) (v : V) (m : Map V)
      → get j (put k v m) ≡ (if text_eq k j then some v else get j m)
  unfolding get put
  get-put k j v m = ground (arith, get-erase k j m)

  pub get-erase_prefix :
      (p j : Text) (m : Map V)
      → get j (erase_prefix p m) ≡ (if is_prefix p j then none else get j m)
  unfolding get erase_prefix
  get-erase_prefix p j [] = ground arith
  get-erase_prefix p j ((i, v) ∷ m) = ground (arith, get-erase_prefix p j m, text_eq_iff i j)

  pub get-put_self : (k : Text) (v : V) (m : Map V) → get k (put k v m) ≡ some v
  get-put_self k v m = ground (arith, get-put k k v m, text_eq_iff k k)

pub ruleset map_laws = (get-erase, get-put, get-erase_prefix)
