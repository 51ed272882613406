-- ===== src/Strings/Decimal.antt =====
-- std::to_string of integers.
use fans.Base.{
  ℕ, zero, suc, ◌+◌, ◌*◌, ◌/◌, ◌%◌, ◌<◌, ◌^◌, ◌-◌, ◌≤◌, ◌≡◌, ◌⊎◌, refl, ap, ◌∙◌, All, Bool-cases,
  inl, inr, [], ◌∷◌, ◌++◌, ltb, if◌then◌else◌, arith,
}
use fans.Base.Text.{Text}
use fans.Base.Int.{ℤ, pos, negsuc}

-- The decimal digits of a number below 10 ^ rounds.
unfoldable pub digits : ℕ → ℕ → Text
digits zero n = []
digits (suc rounds) n =
    let higher = digits rounds (n / 10) in
    if ltb n 10 then (b'0' + n) ∷ [] else higher ++ ((b'0' + n % 10) ∷ [])

-- A number of 64 bits has at most 20 digits.
abbrev pub decimal : ℕ → Text
decimal n = digits 20 n

abbrev pub decimal_ℤ : ℤ → Text
decimal_ℤ (pos n) = decimal n
decimal_ℤ (negsuc n) = b'-' ∷ decimal (suc n)

-- A reader of digits, which `acc` have been read before.
abbrev read_from : ℕ → Text → ℕ
read_from acc [] = acc
read_from acc (c ∷ s) = read_from (acc * 10 + (c - b'0')) s

-- The number that a text of digits denotes.
abbrev pub value_of : Text → ℕ
value_of s = read_from 0 s

abbrev pub IsDigit : ℕ → Type 0
IsDigit c = (b'0' ≤ c) × (c ≤ b'9')

abbrev power_of_ten : ℕ → ℕ
power_of_ten zero = 1
power_of_ten (suc n) = 10 * power_of_ten n

read_from-append : (acc : ℕ) (s t : Text) → read_from acc (s ++ t) ≡ read_from (read_from acc s) t
read_from-append acc [] t = refl
read_from-append acc (c ∷ s) t = read_from-append (acc * 10 + (c - b'0')) s t

All-append : (P : ℕ → Type 0) (s t : Text) → All P s → All P t → All P (s ++ t)
All-append P [] t h k = k
All-append P (c ∷ s) t h k = (h.0, All-append P s t h.1 k)

value_of-digits : (rounds n : ℕ) → n < power_of_ten rounds → value_of (digits rounds n) ≡ n
unfolding digits
value_of-digits zero n h = omega (arith, h)
value_of-digits (suc rounds) n h = elim (Bool-cases (ltb n 10)) [
  | inl short ↦ rw short (ground (arith, short))
  | inr long ↦ rw long (
      read_from-append 0 (digits rounds (n / 10)) ((b'0' + n % 10) ∷ [])
      ∙ ap (λ v. v * 10 + ((b'0' + n % 10) - b'0'))
          (value_of-digits rounds (n / 10) (omega (arith, h)))
      ∙ omega arith)
]

digits-IsDigit : (rounds n : ℕ) → All IsDigit (digits rounds n)
unfolding digits
digits-IsDigit zero n = tt
digits-IsDigit (suc rounds) n = elim (Bool-cases (ltb n 10)) [
  | inl short ↦ rw short (ground (arith, short))
  | inr long ↦ rw long (
      All-append IsDigit (digits rounds (n / 10)) _ (digits-IsDigit rounds (n / 10))
        ((omega arith, omega arith), tt))
]

-- A number of 64 bits is printed with digits only, and these denote the number.
pub decimal_lem : (n : ℕ) → n < 2 ^ 64 → All IsDigit (decimal n) × (value_of (decimal n) ≡ n)
decimal_lem n h = (digits-IsDigit 20 n, value_of-digits 20 n (omega arith))

-- The first character is no 0.
abbrev pub Starts : Text → Type 0
Starts [] = ⊥
Starts (c ∷ s) = b'0' < c

Starts-append : (s t : Text) → Starts s → Starts (s ++ t)
Starts-append [] t h = absurd h
Starts-append (c ∷ s) t h = h

digits-Starts : (rounds n : ℕ) → 0 < n → n < power_of_ten rounds → Starts (digits rounds n)
unfolding digits
digits-Starts zero n h k = absurd (omega (arith, h, k))
digits-Starts (suc rounds) n h k = elim (Bool-cases (ltb n 10)) [
  | inl short ↦ rw short (omega (arith, h))
  | inr long ↦ rw long (
      Starts-append (digits rounds (n / 10)) _
        (digits-Starts rounds (n / 10) (ground (arith, long)) (omega (arith, k))))
]

pub decimal-shape : (n : ℕ) → n < 2 ^ 64 → (decimal n ≡ b'0' ∷ []) ⊎ Starts (decimal n)
unfolding digits
decimal-shape zero h = inl refl
decimal-shape (suc n) h = inr (digits-Starts 20 (suc n) (omega arith) (omega arith))
