-- ===== src/IntType/Bounds.antt =====
-- The draws and the smaller generators of int_type.h.
use native.Mathlib.Nat.{one-le-pow, pow-le-pow_right}
use fans.Base.{
  ℕ, suc, ◌+◌, ◌-◌, ◌^◌, ◌≤◌, ◌<◌, ◌==◌, ◌%◌, ◌≡◌, ◌≢◌, refl, arith, ltb, leb, leb→le, le→leb, All,
  get_elem?, none, some, List, [], ◌∷◌, length, zero, inl, inr, Bool-cases, ==_iff,
}
use fans.Exec.{Exec, exits, pure, ◌>>=◌, undefined_range, bad_probability, exit, out_of_bounds}
use fans.Exec.Succeeds.{Sure, Sure-pure, Sure-if, Sure-bind}
use fans.Random.{Rng, random_uint64, n_out_of}
use fans.EnumType.{uint64_max}
use fans.IntType.{
  on, special_ints, special_int, first_stage, second_stage, custom_random_uint64, generate_size,
  generate_sensor, generate_msg_type,
}

pub draw-Sure :
    (min max : ℕ) (Q : ℕ → Type 0)
    → min ≤ max
    → ((v : ℕ) → min ≤ v → v ≤ max → Q v)
    → Sure Q (random_uint64 min max)
unfolding random_uint64
draw-Sure min max Q h k = record {
  run = λ r. rw (le→leb min max h) (k (min + r 0 % suc (max - min)) (omega arith) (omega arith));
}

pub n_out_of-Sure : (n out_of : ℕ) → n < out_of → Sure (λ b. Unit {0}) (n_out_of n out_of)
unfolding n_out_of
n_out_of-Sure n out_of h =
    Sure-if (λ b. Unit {0}) (leb out_of n) (exit bad_probability)
      (random_uint64 0 (out_of - 1) >>= λ v. pure (ltb v n))
      (λ e. absurd (omega (arith, leb→le out_of n e, h)))
      (λ _.
        Sure-bind (λ v. Unit {0}) (λ b. Unit {0}) (random_uint64 0 (out_of - 1)) _
          (draw-Sure 0 (out_of - 1) _ (omega arith) (λ v l u. tt)) (λ v _. Sure-pure _ _ tt))

pub on-Sure :
    {A : Type 0} (Q : A → Type 0) (n out_of : ℕ) (first second : Exec Rng A)
    → n < out_of
    → Sure Q first
    → Sure Q second
    → Sure Q (on (n_out_of n out_of) first second)
on-Sure Q n out_of first second h f s =
    Sure-bind _ Q _ _ (n_out_of-Sure n out_of h) (λ b _. Sure-if Q b _ _ (λ _. f) (λ _. s))

entry-Sure :
    (Q : ℕ → Type 0) (entries : List ℕ) (i : ℕ)
    → i < length entries
    → All Q entries
    → Sure {S = Rng} Q (elim (get_elem? entries i) [ none ↦ exit out_of_bounds | some n ↦ pure n ])
entry-Sure Q [] i h k = elim h [ ]
entry-Sure Q (n ∷ ns) zero h k = Sure-pure Q n k.0
entry-Sure Q (n ∷ ns) (suc i) h k = entry-Sure Q ns i (omega (arith, h)) k.1

-- specialInts holds 64-bit patterns, and none of the first 32 exceeds 2^16 + 1.
pub special_int-Sure :
    (last : ℕ) (Q : ℕ → Type 0) → All Q special_ints → last < 42 → Sure Q (special_int last)
special_int-Sure last Q h k =
    Sure-bind (λ i. i ≤ last) Q (random_uint64 0 last) _
      (draw-Sure 0 last _ (omega arith) (λ v l u. u))
      (λ i less. entry-Sure Q special_ints i (omega (arith, less)) h)

abbrev pub Is64 : ℕ → Type 0
Is64 v = v < 18446744073709551616

pub special_ints-Is64 : All Is64 special_ints
special_ints-Is64 = ground arith

first_stage-Sure : (value : ℕ) → Sure Is64 (first_stage value)
unfolding first_stage
first_stage-Sure value = on-Sure Is64 100 182 _ _ (omega arith) (Sure-pure Is64 _ (omega arith)) (
    on-Sure Is64 50 82 _ _ (omega arith) (special_int-Sure 41 Is64 special_ints-Is64 (omega arith))
      (on-Sure Is64 10 32 _ _ (omega arith) (Sure-pure Is64 _ (omega arith)) (
        on-Sure Is64 10 22 _ _ (omega arith) (Sure-pure Is64 _ (omega arith)) (
          on-Sure Is64 10 12 _ _ (omega arith) (Sure-pure Is64 _ (omega arith))
            (Sure-pure Is64 _ (omega arith))))))

second_stage-Sure : (value : ℕ) → Sure Is64 (second_stage value)
unfolding second_stage
second_stage-Sure value = on-Sure Is64 40 107 _ _ (omega arith) (Sure-pure Is64 _ (omega arith)) (
    Sure-bind (λ v. Unit {0}) Is64 (random_uint64 0 63) _
      (draw-Sure 0 63 _ (omega arith) (λ v l u. tt)) (λ v _. Sure-pure Is64 _ (omega arith)))

-- For every sequence of draws, customRandomUInt64 returns, with a 64-bit pattern.
pub custom_random_uint64-Sure : Sure Is64 custom_random_uint64
custom_random_uint64-Sure =
    Sure-bind (λ v. Unit {0}) Is64 (random_uint64 0 uint64_max) _
      (draw-Sure 0 uint64_max _ (omega arith) (λ v l u. tt))
      (λ value _.
        Sure-bind Is64 Is64 (first_stage value) _ (first_stage-Sure value)
          (λ v _. second_stage-Sure v))

pub generate_size-Sure : Sure Is64 generate_size
generate_size-Sure =
    on-Sure Is64 5 100 _ _ (omega arith)
      (Sure-bind (λ v. Unit {0}) Is64 (random_uint64 0 10) _
        (draw-Sure 0 10 _ (omega arith) (λ v l u. tt)) (λ v _. Sure-pure Is64 _ (omega arith)))
      (special_int-Sure 31 Is64 special_ints-Is64 (omega arith))

two_pow : (v : ℕ) → v ≤ 12 → 2 ^ v ≤ 2 ^ 12
two_pow v h = pow-le-pow_right (omega arith) h

-- For every sequence of draws, generateMsgType returns, with a number from 1 to 65535.
pub generate_msg_type-Sure : Sure (λ v. (0 < v) × (v ≤ 65535)) generate_msg_type
generate_msg_type-Sure =
    Sure-bind (λ v. v ≤ 12) _ (random_uint64 0 12) _ (draw-Sure 0 12 _ (omega arith) (λ v l u. u))
      (λ v h. Sure-pure _ _ (ground (arith, one-le-pow v 2 (omega arith), two_pow v h)))

-- Unless its first draw is 0, generateSensor draws next from an empty range, which is undefined.
pub generate_sensor-undefined : (r : Rng) → r 0 % 5 ≢ 0 → generate_sensor r ≡ exits undefined_range
unfolding random_uint64
generate_sensor-undefined r h = elim (Bool-cases (0 + r 0 % 5 == 0)) [
  | inl e ↦ absurd (h (omega (arith, (==_iff (0 + r 0 % 5) 0).0 e)))
  | inr e ↦ rw e refl
]
