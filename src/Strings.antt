-- ===== src/Strings.antt =====
-- fuzzer-engine/fuzzer/src/types/string_type.cpp: the generator of strings. This file holds what its
-- parts share: the two sources of random numbers, the lists that the program reads from the device,
-- and the choice of an entry of a list.
--
-- `randomUInt64` draws from a distribution and the characters come from std::rand(), so that each
-- has a tape of its own.
pub mod Chars
pub mod Fair
pub mod Picks
pub mod Decimal
pub mod Split
pub mod Names
pub mod Ops
pub mod Network
pub mod Address
pub mod Interfaces
pub mod Locations
pub mod Audio
pub mod Choice
pub mod Returns
pub mod Pairs
pub mod Total
use fans.Base.{ℕ, ◌%◌, ◌^◌, Bool, List, Option, none, some, length, get_elem?}
use fans.Base.Text.{Text}
use fans.Base.Int.{to_u64, to_i32, sub_u64}
use fans.Base.Map.{Map}
use fans.Exec.{Exec, done, exits, hangs, pure, exit, ◌>>=◌, out_of_bounds}
use fans.Random.{Rng, Source, advance, random_uint64}
use fans.VarType.{VarType}
use fans.IntType.{Platform}

-- Code that draws from the distributions only.
abbrev pub uniformly : {A : Type 0} → Exec Rng A → Exec Source A
uniformly m s = elim (m s.uniform) [
  | done (a, r) ↦ done (a, record s { uniform = r })
  | exits e ↦ exits e
  | hangs ↦ hangs
]

-- static_cast<char>(std::rand())
abbrev pub rand_byte : Exec Source ℕ
rand_byte s = done (s.chars 0 % 256, record s { chars = advance s.chars })

-- An entry of the list that getifaddrs returns: ifa_name, and whether ifa_addr is there and its
-- family is AF_PACKET.
pub record Interface : Type 0 where
  pub name : Text
  pub is_packet : Bool

-- The lists of string_type.cpp, mimeVector, the keys of apkFDPool, the answer of getifaddrs (`none`
-- if it fails), and what the generator of integers reads.
pub record Seeds : Type 0 where
  pub packages : List Text
  pub permissions : List Text
  pub media_urls : List Text
  pub mimes : List Text
  pub apk_files : List Text
  pub interfaces : Option (List Interface)
  pub platform : Platform
  pub enum_info : Map (List ℕ)
  pub types : Map VarType

-- list[idx] of a std::vector: out of range it is undefined.
abbrev pub entry_at : List Text → ℕ → Exec Source Text
entry_at entries i s = elim (get_elem? entries i) [
  | some t ↦ pure t s
  | none ↦ exit out_of_bounds s
]

-- list[idx] for idx = randomUInt64(0, list.size() - 1), where `as_index` is the conversion of the
-- number to the type of idx and then to size_t.
unfoldable pub pick : (ℕ → ℕ) → List Text → Exec Source Text
pick as_index entries = do
  v ← uniformly (random_uint64 0 (sub_u64 (length entries) 1))
  entry_at entries (as_index v)

-- idx of type uint32_t, int32_t (or int) and uint64_t
abbrev pub u32_index : ℕ → ℕ
u32_index v = v % 2 ^ 32

abbrev pub i32_index : ℕ → ℕ
i32_index v = to_u64 (to_i32 v)

abbrev pub u64_index : ℕ → ℕ
u64_index v = v
