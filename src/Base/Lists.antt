-- ===== src/Base/Lists.antt =====
-- Lists measured and indexed by native numbers, under the library's names.
use Prim.Native.Nat.{ℕ, zero, suc, ◌+◌, ◌-◌, ◌<◌, min}
use mathlib.Core.Path.{◌≡◌, refl, ap}
use mathlib.Core.List.{List, [], ◌∷◌, ◌++◌}
use mathlib.Core.Option.{Option, none, some}
use mathlib.Core.Bool.{Bool, true, false}
use mathlib.Core.Logic.{inl, inr}
use native.Mathlib.Omega.{arith}
use fans.Base.Tests.{if◌then◌else◌, Bool-cases}

module _ {ℓ} {A : Type ℓ} where
  abbrev pub length : List A → ℕ
  length [] = 0
  length (x ∷ xs) = suc (length xs)

  abbrev pub get_elem? : List A → ℕ → Option A
  get_elem? [] i = none
  get_elem? (x ∷ xs) zero = some x
  get_elem? (x ∷ xs) (suc i) = get_elem? xs i

  abbrev pub get_or : List A → ℕ → A → A
  get_or [] i d = d
  get_or (x ∷ xs) zero d = x
  get_or (x ∷ xs) (suc i) d = get_or xs i d

  abbrev pub take : ℕ → List A → List A
  take zero xs = []
  take (suc n) [] = []
  take (suc n) (x ∷ xs) = x ∷ take n xs

  abbrev pub drop : ℕ → List A → List A
  drop zero xs = xs
  drop (suc n) [] = []
  drop (suc n) (x ∷ xs) = drop n xs

  abbrev pub replicate : ℕ → A → List A
  replicate zero a = []
  replicate (suc n) a = a ∷ replicate n a

  abbrev pub All {κ} : (A → Type κ) → List A → Type κ
  All P [] = Unit
  All P (x ∷ xs) = P x × All P xs

module _ {ℓ} {A : Type ℓ} where
  pub length-append : (xs ys : List A) → length (xs ++ ys) ≡ length xs + length ys
  length-append [] ys = omega arith
  length-append (x ∷ xs) ys = omega (arith, length-append xs ys)

  pub length-drop : (n : ℕ) (xs : List A) → length (drop n xs) ≡ length xs - n
  length-drop zero xs = omega arith
  length-drop (suc n) [] = omega arith
  length-drop (suc n) (x ∷ xs) = omega (arith, length-drop n xs)

  pub length-take : (n : ℕ) (xs : List A) → length (take n xs) ≡ min n (length xs)
  length-take zero xs = omega arith
  length-take (suc n) [] = omega arith
  length-take (suc n) (x ∷ xs) = omega (arith, length-take n xs)

  pub length-replicate : (n : ℕ) (a : A) → length (replicate n a) ≡ n
  length-replicate zero a = refl
  length-replicate (suc n) a = ap suc (length-replicate n a)

  -- A predicate of every entry holds of the entry read at an index in range.
  pub All-get_or {κ} :
      (P : A → Type κ) (xs : List A) (i : ℕ) (d : A) → i < length xs → All P xs → P (get_or xs i d)
  All-get_or P [] i d h a = elim h [ ]
  All-get_or P (x ∷ xs) zero d h a = a.0
  All-get_or P (x ∷ xs) (suc i) d h a = All-get_or P xs i d (omega arith) a.1

-- `for (i = 0; i < xs.size(); ++i) if (p(xs[i])) return i;`
unfoldable pub find_index {ℓ} : {A : Type ℓ} → (A → Bool) → List A → Option ℕ
find_index p [] = none
find_index p (x ∷ xs) =
    let rest = find_index p xs in
    if p x then some 0 else elim rest [ none ↦ none | some i ↦ some (suc i) ]

module _ {ℓ} {A : Type ℓ} (p : A → Bool) where
  -- The test passes at the index that is returned,
  pub find_index_found :
      (xs : List A) (i : ℕ)
      → find_index p xs ≡ some i
      → (x : A) × (get_elem? xs i ≡ some x) × (p x ≡ true)
  unfolding find_index
  find_index_found [] i e = cc
  find_index_found (x ∷ xs) zero e = elim (Bool-cases (p x)) [
    | inl hit ↦ (x, refl, hit)
    | inr miss ↦ absurd (ground arith)
  ]
  find_index_found (x ∷ xs) (suc i) e = find_index_found xs i (ground arith)

  -- and at no index before it.
  pub find_index_first :
      (xs : List A) (i j : ℕ) (y : A)
      → find_index p xs ≡ some i
      → j < i
      → get_elem? xs j ≡ some y
      → p y ≡ false
  unfolding find_index
  find_index_first [] i j y e h g = cc
  find_index_first (x ∷ xs) zero j y e h g = elim h [ ]
  find_index_first (x ∷ xs) (suc i) zero y e h g = ground arith
  find_index_first (x ∷ xs) (suc i) (suc j) y e h g =
      find_index_first xs i j y (ground arith) (omega arith) g

  -- A passing entry with no passing entry before it is the one found.
  pub find_index_at :
      (xs : List A) (i : ℕ) (y : A)
      → get_elem? xs i ≡ some y
      → p y ≡ true
      → ((j : ℕ) (z : A) → j < i → get_elem? xs j ≡ some z → p z ≡ false)
      → find_index p xs ≡ some i
  unfolding find_index
  find_index_at [] i y g h first = cc
  find_index_at (x ∷ xs) zero y g h first = ground arith
  find_index_at (x ∷ xs) (suc i) y g h first =
      ground
        (arith, first 0 x, find_index_at xs i y g h (λ j z l e. first (suc j) z (omega arith) e))

module _ {ℓ} {A : Type ℓ} where
  pub get_or-get_elem? :
      (xs : List A) (i : ℕ) (d x : A) → get_elem? xs i ≡ some x → get_or xs i d ≡ x
  get_or-get_elem? [] i d x e = cc
  get_or-get_elem? (y ∷ xs) zero d x e = ground arith
  get_or-get_elem? (y ∷ xs) (suc i) d x e = get_or-get_elem? xs i d x e
