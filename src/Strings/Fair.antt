-- ===== src/Strings/Fair.antt =====
-- string_type.cpp: the loops on std::rand(), on sequences of characters in which an alphanumeric one
-- is never far.
use fans.Base.{
  ℕ, zero, suc, ◌+◌, ◌<◌, ◌%◌, ◌≡◌, refl, ap, ◌∙◌, Bool, true, arith, ltb, length, All, Bool-cases,
  inl, inr,
}
use fans.Base.Text.{Text}
use fans.Exec.{Exec, Outcome, done, exits, hangs, ◌>>=◌}
use fans.Exec.Succeeds.{Sure, Succeeds}
use fans.Exec.Keeps.{Keeps, Returned, Keeps-pure, Keeps-map, Keeps-if, Keeps-bind}
use Prim.Native.Nat.{min}
use fans.IntType.{generate_size}
use fans.IntType.Bounds.{draw-Sure, generate_size-Sure}
use fans.Random.{Rng, advance, Source}
use fans.Strings.{uniformly, rand_byte}
use fans.Strings.Chars.{
  is_alnum, is_print, char_of, generate_n, cut_size, random_alphanum_string, random_generate,
}

-- Among `patience` numbers in a row, one gives an alphanumeric character.
abbrev pub Fair : ℕ → Rng → Type 0
Fair patience r = (n : ℕ) → (k : ℕ) × (k < patience) × (is_alnum (r (k + n) % 256) ≡ true)

Fair-advance : (patience : ℕ) (r : Rng) → Fair patience r → Fair patience (advance r)
Fair-advance patience r h n =
    let (k, short, found) = h (suc n) in
    (k, short, ap (λ m. is_alnum (r m % 256)) (omega arith) ∙ found)

uniformly_returned :
    {A : Type 0} (I : Rng → Type 0) (Q : A → Type 0) (s : Source) (o : Outcome (A × Rng))
    → I s.chars
    → Succeeds Q o
    → Returned
        (λ t. I t.chars)
        Q
        (elim o [
          | done (a, r) ↦ done (a, record s { uniform = r })
          | exits e ↦ exits e
          | hangs ↦ hangs
        ])
uniformly_returned I Q s (done (a, r)) i h = (h, i)
uniformly_returned I Q s (exits e) i h = absurd h
uniformly_returned I Q s hangs i h = absurd h

-- A predicate of the characters that are to come.
abbrev pub On : (Rng → Type 0) → Source → Type 0
On I s = I s.chars

-- Draws from a distribution leave the characters alone.
pub uniformly-Keeps :
    {A : Type 0} (I : Rng → Type 0) (Q : A → Type 0) (m : Exec Rng A)
    → Sure Q m
    → Keeps (On I) Q (uniformly m)
uniformly-Keeps I Q m h = record {
  run = λ s i. uniformly_returned I Q s (m s.uniform) i (h.run s.uniform);
}

is_print_of_alnum : (c : ℕ) → is_alnum c ≡ true → is_print c ≡ true
unfolding is_alnum is_print
is_print_of_alnum c h = ground arith

abbrev Accepts : (ℕ → Bool) → Type 0
Accepts accepted = (c : ℕ) → is_alnum c ≡ true → accepted c ≡ true

module _ (patience : ℕ) (accepted : ℕ → Bool) (broad : Accepts accepted) where
  -- The loop ends by the round in which an alphanumeric character comes.
  char_of_returns :
      (rounds k : ℕ) (s : Source)
      → Fair patience s.chars
      → k < rounds
      → is_alnum (s.chars k % 256) ≡ true
      → Returned (On (Fair patience)) (λ c. accepted c ≡ true) (char_of accepted rounds s)
  unfolding char_of
  char_of_returns zero k s i short found = absurd (omega arith)
  char_of_returns (suc rounds) zero s i short found =
      rw (broad (s.chars 0 % 256) found)
        (broad (s.chars 0 % 256) found, Fair-advance patience s.chars i)
  char_of_returns (suc rounds) (suc k) s i short found =
      elim (Bool-cases (accepted (s.chars 0 % 256))) [
        | inl hit ↦ rw hit (hit, Fair-advance patience s.chars i)
        | inr miss ↦ rw miss (
            char_of_returns rounds k (record s { chars = advance s.chars })
              (Fair-advance patience s.chars i) (omega arith) found)
      ]

  pub char_of-Keeps :
      Keeps (On (Fair patience)) (λ c. accepted c ≡ true) (char_of accepted patience)
  char_of-Keeps = record {
    run = λ s i.
        let (k, short, found) = i 0 in
        char_of_returns patience k s i short
          (ap (λ m. is_alnum (s.chars m % 256)) (omega arith) ∙ found);
  }

module _ (patience : ℕ) (Q : ℕ → Type 0) (next : Exec Source ℕ)
    (each : Keeps (On (Fair patience)) Q next) where
  -- n characters come, each of the wanted kind.
  pub generate_n-Keeps :
      (n : ℕ) → Keeps (On (Fair patience)) (λ s. (length s ≡ n) × All Q s) (generate_n next n)
  unfolding generate_n
  generate_n-Keeps zero = Keeps-pure _ _ _ (refl, tt)
  generate_n-Keeps (suc n) = Keeps-bind _ Q _ _ _ each (λ c good.
      Keeps-bind _ (λ s. (length s ≡ n) × All Q s) _ _ _ (generate_n-Keeps n)
        (λ s h. Keeps-pure _ _ _ (omega (arith, h.0), (good, h.1))))

cut_size-min : (n : ℕ) → cut_size n ≡ min n 100000
cut_size-min n = ground arith

pub random_alphanum_string-Keeps :
    (patience n : ℕ)
    → Keeps
        (On (Fair patience))
        (λ t. (length t ≡ min n 100000) × All (λ c. is_alnum c ≡ true) t)
        (random_alphanum_string patience n)
random_alphanum_string-Keeps patience n =
    Keeps-map _ _ _ _
      (generate_n-Keeps patience _ _ (char_of-Keeps patience is_alnum (λ c h. h)) (cut_size n))
      (λ t h. (h.0 ∙ cut_size-min n, h.1))

-- If among any `patience` characters in a row one is alphanumeric, randomAlphanumString returns as
-- many characters as it is asked for, 100000 at most, and all of them are alphanumeric; what
-- comes after them is as fair.
pub random_alphanum_string_lem :
    (patience n : ℕ) (s : Source)
    → Fair patience s.chars
    → Returned
        (On (Fair patience))
        (λ t. (length t ≡ min n 100000) × All (λ c. is_alnum c ≡ true) t)
        (random_alphanum_string patience n s)
random_alphanum_string_lem patience n s h = (random_alphanum_string-Keeps patience n).run s h

abbrev pub AnyText : Text → Type 0
AnyText t = Unit

pub any_text :
    (I : Source → Type 0) (Q : Text → Type 0) (m : Exec Source Text)
    → Keeps I Q m
    → Keeps I AnyText m
any_text I Q m h = Keeps-map I Q AnyText m h (λ t _. tt)

rand_byte-Keeps : (patience : ℕ) → Keeps (On (Fair patience)) (λ c. Unit {0}) rand_byte
rand_byte-Keeps patience = record { run = λ s i. (tt, Fair-advance patience s.chars i) }

sized :
    (patience : ℕ) (f : ℕ → Exec Source Text)
    → ((n : ℕ) → Keeps (On (Fair patience)) AnyText (f n))
    → Keeps (On (Fair patience)) AnyText (uniformly generate_size >>= f)
sized patience f h =
    Keeps-bind _ _ AnyText _ f (uniformly-Keeps (Fair patience) _ _ generate_size-Sure) (λ n _. h n)

pub random_generate-Keeps :
    (patience : ℕ) → Keeps (On (Fair patience)) AnyText (random_generate patience)
unfolding random_generate
random_generate-Keeps patience =
    Keeps-bind _ (λ v. Unit {0}) AnyText _ _
      (uniformly-Keeps (Fair patience) _ _ (draw-Sure 0 9 _ (omega arith) (λ v l u. tt)))
      (λ flag _.
        Keeps-if _ _ (ltb flag 5) _ _
          (λ _. sized patience _ (λ n. any_text _ _ _ (random_alphanum_string-Keeps patience n)))
          (λ _.
            Keeps-if _ _ (ltb flag 8) _ _
              (λ _. sized patience _ (λ n. any_text _ _ _ (
                generate_n-Keeps patience _ _ (char_of-Keeps patience is_print is_print_of_alnum)
                  (cut_size n))))
              (λ _.
                Keeps-if _ _ (ltb flag 9) _ _
                  (λ _. sized patience _ (λ n.
                    any_text _ _ _
                      (generate_n-Keeps patience _ _ (rand_byte-Keeps patience) (cut_size n))))
                  (λ _. Keeps-pure _ _ _ tt))))
