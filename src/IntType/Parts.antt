-- ===== src/IntType/Parts.antt =====
-- The generators among which `generate` of int_type.h chooses.
use mathlib.Core.Bool.{true≢false}
use fans.Base.{
  ℕ, ◌≡◌, refl, sym, true, false, List, [], ◌∷◌, ◌++◌, Option, none, some, arith, length, ltb, leb,
  le→leb, leb→le,
}
use fans.Base.Text.{Text, codes}
use fans.Base.Map.{Map, get}
use fans.Exec.{Exec, exit, unknown_enum}
use fans.Exec.Succeeds.{Sure, Sure-pure, Sure-if, Sure-bind, Sure-map}
use fans.Random.{Rng, random_uint64}
use fans.EnumType.{one_of, random_enum, uint64_max}
use fans.IntType.{
  Platform, generate_pid, generate_uid, generate_channel_mask, generate_socket_port,
  generate_socket_addr, generate_sin_family,
}
use fans.IntType.Choices.{is_enum}
use fans.IntType.Bounds.{draw-Sure}

abbrev pub Any : ℕ → Type 0
Any v = Unit

pub any : {P : ℕ → Type 0} {m : Exec Rng ℕ} → Sure P m → Sure Any m
any {P} {m} h = Sure-map P Any m h (λ v _. tt)

pub drawn : (min max : ℕ) → leb min max ≡ true → Sure Any (random_uint64 min max)
drawn min max h = draw-Sure min max Any (leb→le min max h) (λ v l u. tt)

pub generate_pid-Sure : (p : Platform) → Sure Any (generate_pid p)
generate_pid-Sure p =
    Sure-bind Any Any _ _ (drawn 0 9 refl)
      (λ flag _. Sure-if Any (ltb flag 8) _ _ (λ _. drawn 0 32766 refl) (λ _. Sure-pure _ _ tt))

pub generate_uid-Sure : Sure Any generate_uid
generate_uid-Sure = drawn 0 1099999 refl

pub generate_channel_mask-Sure : Sure Any generate_channel_mask
generate_channel_mask-Sure = Sure-bind Any Any _ _ (drawn 0 1 refl) (λ v _. Sure-pure _ _ tt)

pub generate_socket_port-Sure : Sure Any generate_socket_port
generate_socket_port-Sure = drawn 0 65535 refl

pub generate_socket_addr-Sure : (p : Platform) → Sure Any (generate_socket_addr p)
generate_socket_addr-Sure p =
    let byte = drawn 0 255 refl in
    Sure-bind Any Any _ _ byte (λ a _. Sure-bind Any Any _ _ byte (λ b _.
      Sure-bind Any Any _ _ byte (λ c _. Sure-bind Any Any _ _ byte (λ d _. Sure-pure _ _ tt))))

pub generate_sin_family-Sure : (p : Platform) → Sure Any (generate_sin_family p)
generate_sin_family-Sure p = Sure-bind Any Any _ _ (drawn 0 9 refl) (λ flag _.
    Sure-if Any (ltb 5 flag) _ _ (λ _. Sure-pure _ _ tt)
      (λ _. Sure-if Any (ltb 2 flag) _ _ (λ _. Sure-pure _ _ tt) (λ _. drawn 0 45 refl)))

pub one_of-Sure : (values : List ℕ) → Sure Any (one_of values)
unfolding one_of
one_of-Sure [] = drawn 0 uint64_max refl
one_of-Sure (v ∷ vs) =
    Sure-bind Any Any _ _ (drawn 0 (length vs) (le→leb 0 _ (omega arith))) (λ i _. Sure-pure _ _ tt)

pub random_enum-Sure :
    (enum_info : Map (List ℕ)) (t : Text)
    → is_enum enum_info t ≡ true
    → Sure Any (random_enum enum_info t)
unfolding random_enum
random_enum-Sure enum_info t e = known_values (get t enum_info) e
  where
    known_values :
        (o : Option (List ℕ))
        → elim o [ some v ↦ true | none ↦ false ] ≡ true
        → Sure {S = Rng} Any (elim o [
          | none ↦ elim (get (codes "enum " ++ t) enum_info) [
            | none ↦ exit unknown_enum
            | some values ↦ one_of values
          ]
          | some values ↦ one_of values
        ])
    known_values none e = absurd (true≢false (sym e))
    known_values (some values) e = one_of-Sure values
