-- ===== src/Strings/Picks.antt =====
-- string_type.cpp: the choice of an entry of a list, an address and a network interface.
use fans.Base.{ℕ, zero, suc, ◌≤◌, ◌<◌, ◌≡◌, List, [], ◌∷◌, length, All, arith}
use fans.Base.Text.{Text}
use fans.Base.Int.{sub_u64}
use fans.Exec.Keeps.{Keeps, Keeps-pure, Keeps-bind}
use fans.Random.{Rng, random_uint64}
use fans.IntType.Bounds.{draw-Sure}
use fans.Strings.{uniformly, pick, entry_at, u32_index, i32_index}
use fans.Strings.Fair.{On, uniformly-Keeps}

-- The conversions that leave a number below 2 ^ 31 as it is.
abbrev pub IsIndex : (ℕ → ℕ) → Type 0
IsIndex as_index = (v : ℕ) → v < 2147483648 → as_index v ≡ v

module _ (I : Rng → Type 0) where
  pub entry_at-Keeps :
      (Q : Text → Type 0) (entries : List Text) (i : ℕ)
      → All Q entries
      → i < length entries
      → Keeps (On I) Q (entry_at entries i)
  entry_at-Keeps Q [] i h k = absurd (omega (arith, k))
  entry_at-Keeps Q (t ∷ ts) zero h k = Keeps-pure _ _ _ h.0
  entry_at-Keeps Q (t ∷ ts) (suc i) h k = entry_at-Keeps Q ts i h.1 (omega (arith, k))

  pub drawn-Keeps :
      (min max : ℕ)
      → min ≤ max
      → Keeps (On I) (λ v. (min ≤ v) × (v ≤ max)) (uniformly (random_uint64 min max))
  drawn-Keeps min max h = uniformly-Keeps I _ _ (draw-Sure min max _ h (λ v l u. (l, u)))

  pub pick-Keeps :
      (Q : Text → Type 0) (as_index : ℕ → ℕ) (t : Text) (ts : List Text)
      → IsIndex as_index
      → length ts < 2147483647
      → All Q (t ∷ ts)
      → Keeps (On I) Q (pick as_index (t ∷ ts))
  unfolding pick
  pick-Keeps Q as_index t ts same few all =
      Keeps-bind _ (λ v. (0 ≤ v) × (v ≤ sub_u64 (length (t ∷ ts)) 1)) Q _ _
        (drawn-Keeps 0 (sub_u64 (length (t ∷ ts)) 1) (omega arith))
        (λ v h.
          entry_at-Keeps Q (t ∷ ts) (as_index v) all
            (omega (arith, same v (omega (arith, h.1)), h.1)))

pub u32_index_small : (v : ℕ) → v < 2147483648 → u32_index v ≡ v
u32_index_small v h = omega arith

pub i32_index_small : (v : ℕ) → v < 2147483648 → i32_index v ≡ v
i32_index_small v h = ground arith
