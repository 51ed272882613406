-- ===== src/Random.antt =====
-- fuzzer-engine/fuzzer/src/utils/random.cpp, and `IntType::nOutOf` of include/fuzzer/types/int_type.h.
--
-- Randomness is a tape of numbers. A draw takes the next one into the range, so that the tapes stand
-- for all sequences of draws that `uniform_int_distribution` may return.
use fans.Base.{ℕ, suc, ◌+◌, ◌-◌, ◌%◌, ◌≤◌, ◌≡◌, Bool, arith, ltb, leb, if◌then◌else◌}
use fans.Exec.{Exec, done, exits, undefined_range, bad_probability, pure, exit, ◌>>=◌}

abbrev pub Rng : Type 0
Rng = ℕ → ℕ

abbrev pub advance : Rng → Rng
advance r n = r (suc n)

-- The two generators: the distributions, and std::rand().
pub record Source : Type 0 where
  pub uniform : Rng
  pub chars : Rng

-- uint64_t randomUInt64(uint64_t min, uint64_t max)
unfoldable pub random_uint64 : ℕ → ℕ → Exec Rng ℕ
random_uint64 min max r =
    if leb min max then done (min + r 0 % suc (max - min), advance r) else exits undefined_range

-- float randomFloat(float min, float max): the next number stands for the float that is drawn.
abbrev pub random_float : Exec Rng ℕ
random_float r = done (r 0, advance r)

-- double randomDouble(double min, double max)
abbrev pub random_double : Exec Rng ℕ
random_double r = done (r 0, advance r)

-- static bool nOutOf(uint64_t n, uint64_t outOf)
unfoldable pub n_out_of : ℕ → ℕ → Exec Rng Bool
unfolding random_uint64
n_out_of n out_of =
    if leb out_of n
    then exit bad_probability
    else do v ← random_uint64 0 (out_of - 1); pure (ltb v n)

-- A draw from a range that is not empty returns, with a number of the range, and takes one number
-- of the tape.
pub random_uint64_lem :
    (min max : ℕ) (r : Rng)
    → min ≤ max
    → (v : ℕ) × (random_uint64 min max r ≡ done (v, advance r)) × (min ≤ v) × (v ≤ max)
unfolding random_uint64
random_uint64_lem min max r h =
    (min + r 0 % suc (max - min), ground arith, omega arith, omega arith)
