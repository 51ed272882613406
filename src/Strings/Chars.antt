-- ===== src/Strings/Chars.antt =====
-- string_type.cpp: random characters and strings.
--
-- The loops on std::rand() run until a character of the wanted kind comes, which no number of rounds
-- makes certain: `patience` is the number of rounds after which the model gives up.
use fans.Base.{ℕ, zero, suc, Bool, ◌&&◌, ◌||◌, [], ◌∷◌, if◌then◌else◌, ltb, leb}
use fans.Base.Text.{Text}
use fans.Exec.{Exec, pure, fuel_out, ◌>>=◌}
use fans.Random.{random_uint64, Source}
use fans.IntType.{generate_size}
use fans.Strings.{uniformly, rand_byte}

-- std::isalnum and std::isprint in the C locale
unfoldable pub is_alnum : ℕ → Bool
is_alnum c =
    (leb b'0' c && leb c b'9') || ((leb b'A' c && leb c b'Z') || (leb b'a' c && leb c b'z'))

unfoldable pub is_print : ℕ → Bool
is_print c = leb 32 c && leb c 126

-- while (!accepted(c = static_cast<char>(std::rand())));
unfoldable pub char_of : (ℕ → Bool) → ℕ → Exec Source ℕ
char_of accepted zero = fuel_out
char_of accepted (suc rounds) =
    let again = char_of accepted rounds in do c ← rand_byte; if accepted c then pure c else again

-- generate_n(std::back_inserter(s), sz, next)
unfoldable pub generate_n : Exec Source ℕ → ℕ → Exec Source Text
generate_n next zero = pure []
generate_n next (suc n) = do c ← next; s ← generate_n next n; pure (c ∷ s)

-- The cut of the size to 100000.
abbrev pub cut_size : ℕ → ℕ
cut_size n = if ltb 100000 n then 100000 else n

module _ (patience : ℕ) where
  -- char randomAlphanumChar()
  abbrev pub random_alphanum_char : Exec Source ℕ
  random_alphanum_char = char_of is_alnum patience

  -- char randomPrintableChar()
  abbrev pub random_printable_char : Exec Source ℕ
  random_printable_char = char_of is_print patience

  -- std::string randomAlphanumString(std::string::size_type sz)
  abbrev pub random_alphanum_string : ℕ → Exec Source Text
  random_alphanum_string n = generate_n random_alphanum_char (cut_size n)

  -- std::string randomPrintableString(std::string::size_type sz)
  abbrev pub random_printable_string : ℕ → Exec Source Text
  random_printable_string n = generate_n random_printable_char (cut_size n)

-- std::string randomString(std::string::size_type sz)
abbrev pub random_string : ℕ → Exec Source Text
random_string n = generate_n rand_byte (cut_size n)

-- string randomGenerate()
unfoldable pub random_generate : ℕ → Exec Source Text
random_generate patience = do
  flag ← uniformly (random_uint64 0 9)
  if ltb flag 5
      then (do n ← uniformly generate_size; random_alphanum_string patience n)
      else if ltb flag 8
      then (do n ← uniformly generate_size; random_printable_string patience n)
      else if ltb flag 9
      then (do n ← uniformly generate_size; random_string n)
      else pure []
