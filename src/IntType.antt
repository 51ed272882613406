-- ===== src/IntType.antt =====
-- fuzzer-engine/fuzzer/include/fuzzer/types/int_type.h and src/types/int_type.cpp: the generator of
-- integers. The children are the tests on names and the choice among the generators.
--
-- Numbers are 64-bit patterns; `generate` of IntType<T> keeps those of the width of T. What comes
-- from the system (the number of cameras, the process id, constants of headers) is the record
-- `Platform`. A chain of else-ifs is the list of its conditions and branches (`first_rule`).
pub mod Names
pub mod Choices
pub mod Bounds
pub mod Parts
pub mod Draws
use fans.Base.{
  ℕ, zero, suc, ◌+◌, ◌-◌, ◌*◌, ◌^◌, ◌==◌, ◌%◌, Bool, true, false, List, [], ◌∷◌, if◌then◌else◌,
  length, get_or, ltb, get_elem?, none, some,
}
use fans.Base.Int.{neg_u64}
use fans.Exec.{Exec, pure, exit, ◌>>=◌, out_of_bounds}
use fans.Random.{Rng, random_uint64, n_out_of}
use fans.EnumType.{uint64_max}

-- const uint64_t specialInts[specIntsLen]
abbrev pub special_ints : List ℕ
special_ints =
    0 ∷ 1 ∷ 2 ∷ 31 ∷ 32 ∷ 33 ∷ 63 ∷ 64 ∷ 65 ∷ 127 ∷ 128 ∷ 129 ∷ 255 ∷ 256 ∷ 257 ∷ 511 ∷ 512 ∷ 1023
    ∷ 1024 ∷ 1025 ∷ 2047 ∷ 2048 ∷ 2049 ∷ 4095 ∷ 4096 ∷ 4097 ∷ 32767 ∷ 32768 ∷ 32769 ∷ 65535 ∷ 65536
    ∷ 65537 ∷ 2147483647 ∷ 2147483648 ∷ 2147483649 ∷ 4294967295 ∷ 4294967296 ∷ 4294967297
    ∷ 9223372036854775807 ∷ 9223372036854775808 ∷ 9223372036854775809 ∷ 18446744073709551615 ∷ []

pub record Platform : Type 0 where
  -- Camera::getNumberOfCameras() and getpid(), as 64-bit patterns
  pub number_of_cameras : ℕ
  pub pid : ℕ
  -- AF_INET, AF_INET6, sizeof(struct sockaddr_in)
  pub af_inet : ℕ
  pub af_inet6 : ℕ
  pub sockaddr_in_size : ℕ
  -- inet_addr of the address with these four numbers
  pub inet_addr : ℕ → ℕ → ℕ → ℕ → ℕ

-- The first branch whose condition holds, or the last one.
unfoldable pub first_rule : {A : Type 0} → List (Bool × A) → A → A
first_rule [] otherwise = otherwise
first_rule ((condition, branch) ∷ rules) otherwise =
    let rest = first_rule rules otherwise in if condition then branch else rest

-- A draw that decides between two branches.
abbrev pub on : {A : Type 0} → Exec Rng Bool → Exec Rng A → Exec Rng A → Exec Rng A
on decide first second = do b ← decide; if b then first else second

-- specialInts[randomUInt64(0, last)]
abbrev pub special_int : ℕ → Exec Rng ℕ
special_int last = do
  i ← random_uint64 0 last
  elim (get_elem? special_ints i) [ none ↦ exit out_of_bounds | some n ↦ pure n ]

-- The first stage of customRandomUInt64. `1 << 31` is -2^31 on int, and a divisor of 2^64 - 2^31 on
-- uint64_t.
pub first_stage : ℕ → Exec Rng ℕ
first_stage value = on (n_out_of 100 182) (pure (value % 10)) (
    on (n_out_of 50 82) (special_int 41) (
      on (n_out_of 10 32) (pure (value % 256)) (
        on (n_out_of 10 22) (pure (value % 4096))
          (on (n_out_of 10 12) (pure (value % 65536)) (pure (value % 18446744071562067968))))))

pub second_stage : ℕ → Exec Rng ℕ
second_stage value =
    on (n_out_of 40 107) (pure (neg_u64 value))
      (do shift ← random_uint64 0 63; pure ((value * 2 ^ shift) % 18446744073709551616))

-- uint64_t customRandomUInt64()
abbrev pub custom_random_uint64 : Exec Rng ℕ
custom_random_uint64 = do
  value ← random_uint64 0 uint64_max
  staged ← first_stage value
  second_stage staged

-- static uint64_t generateSize()
abbrev pub generate_size : Exec Rng ℕ
generate_size = on (n_out_of 5 100) (do n ← random_uint64 0 10; pure (neg_u64 n)) (special_int 31)

-- static int32_t generatePid()
abbrev pub generate_pid : Platform → Exec Rng ℕ
generate_pid p = do
  flag ← random_uint64 0 9
  if ltb flag 8 then random_uint64 0 32766 else pure p.pid

-- static int32_t generateUid()
abbrev pub generate_uid : Exec Rng ℕ
generate_uid = random_uint64 0 1099999

-- uint32_t generateChannelMask(), with my_audio_channel_mask_from_representation_and_bits
abbrev pub generate_channel_mask : Exec Rng ℕ
generate_channel_mask = do
  represent ← random_uint64 0 1
  pure ((if represent == 1 then 2 else represent) * 1073741824 % 4294967296 + 4)

-- int32_t generateSensor(): the lower bound of the second draw is 2^64 - 10000.
abbrev pub generate_sensor : Exec Rng ℕ
generate_sensor = do
  r ← random_uint64 0 4
  if r == 0 then pure (neg_u64 1000) else random_uint64 (neg_u64 10000) 10000

-- int32_t generateMsgType()
abbrev pub generate_msg_type : Exec Rng ℕ
generate_msg_type = do r ← random_uint64 0 12; pure (if ltb r 12 then 2 ^ r else 65535)

-- unsigned short generateSocketPort()
abbrev pub generate_socket_port : Exec Rng ℕ
generate_socket_port = random_uint64 0 65535

-- unsigned int generateSocketAddr()
abbrev pub generate_socket_addr : Platform → Exec Rng ℕ
generate_socket_addr p = do
  a ← random_uint64 0 255
  b ← random_uint64 0 255
  c ← random_uint64 0 255
  d ← random_uint64 0 255
  pure (p.inet_addr a b c d)

-- unsigned short generateSinFamily()
abbrev pub generate_sin_family : Platform → Exec Rng ℕ
generate_sin_family p = do
  flag ← random_uint64 0 9
  if ltb 5 flag then pure p.af_inet else if ltb 2 flag then pure p.af_inet6 else random_uint64 0 45

-- uint64_t generateNetId()
abbrev generate_net_id : Exec Rng ℕ
generate_net_id = do
  n ← random_uint64 0 1
  if n == 0 then random_uint64 100 65535 else random_uint64 1 50
