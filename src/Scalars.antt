-- ===== src/Scalars.antt =====
-- fuzzer-engine/fuzzer/src/types/bool_type.cpp, float_type.cpp and double_type.cpp.
use fans.Base.{ℕ, Bool, not, ◌==◌}
use fans.Exec.{Exec, pure, ◌>>=◌}
use fans.Random.{Rng, random_uint64, random_float, random_double}

-- bool BoolType::generate()
abbrev pub generate_bool : Exec Rng Bool
generate_bool = do v ← random_uint64 0 1; pure (not (v == 0))

-- float FloatType::generate()
abbrev pub generate_float : Exec Rng ℕ
generate_float = random_float

-- double DoubleType::generate()
abbrev pub generate_double : Exec Rng ℕ
generate_double = random_double
