-- ===== src/Structures/RoundTrip.antt =====
-- structure_type.cpp: uuid_parse reads what a UUID is written as.
use fans.Base.{
  ℕ, zero, suc, ◌+◌, ◌*◌, ◌/◌, ◌%◌, ◌<◌, ◌≤◌, ◌≡◌, refl, sym, ap, ◌∙◌, true, false, List, [], ◌∷◌,
  ◌++◌, some, if◌then◌else◌, arith, ltb, length, All, drop,
}
use fans.Base.Text.{Text}
use fans.Structures.{
  Uuid, is_x_digit, digit_value, strtoul_from, strtoul, is_dash_at, well_formed, node_bytes,
  uuid_parse,
}

-- The hexadecimal digits of a number, in n characters.
abbrev pub hex_char : ℕ → ℕ
hex_char d = if ltb d 10 then b'0' + d else d + 87

abbrev pub hex : ℕ → ℕ → Text
hex zero v = []
hex (suc n) v = hex n (v / 16) ++ (hex_char (v % 16) ∷ [])

abbrev pub hex_bytes : List ℕ → Text
hex_bytes [] = []
hex_bytes (b ∷ bs) = hex 2 b ++ hex_bytes bs

-- The form 8-4-4-4-12 of a UUID, in parts.
abbrev from_clock : Uuid → Text
from_clock u = hex 4 u.clock_seq ++ (b'-' ∷ hex_bytes u.node)

abbrev from_hi : Uuid → Text
from_hi u = hex 4 u.time_hi_and_version ++ (b'-' ∷ from_clock u)

abbrev from_mid : Uuid → Text
from_mid u = hex 4 u.time_mid ++ (b'-' ∷ from_hi u)

abbrev pub uuid_text : Uuid → Text
uuid_text u = hex 8 u.time_low ++ (b'-' ∷ from_mid u)

-- The members of a UUID are within their widths.
pub record IsUuid (u : Uuid) : Type 0 where
  pub low : u.time_low < 4294967296
  pub mid : u.time_mid < 65536
  pub hi : u.time_hi_and_version < 65536
  pub seq : u.clock_seq < 65536
  pub six : length u.node ≡ 6
  pub bytes : All (λ b. b < 256) u.node

abbrev power_of_16 : ℕ → ℕ
power_of_16 zero = 1
power_of_16 (suc n) = 16 * power_of_16 n

append_assoc : (a b c : Text) → (a ++ b) ++ c ≡ a ++ (b ++ c)
append_assoc [] b c = refl
append_assoc (x ∷ a) b c = ap (λ s. x ∷ s) (append_assoc a b c)

hex-is_x_digit : (d : ℕ) → d < 16 → is_x_digit (hex_char d) ≡ true
hex-is_x_digit d h = ground (arith, h)

hex-digit_value : (d : ℕ) → d < 16 → digit_value (hex_char d) ≡ d
hex-digit_value d h = ground (arith, h)

-- One digit after a number.
strtoul_from-digit :
    (acc d : ℕ) (s : Text)
    → d < 16
    → strtoul_from acc (hex_char d ∷ s) ≡ strtoul_from (acc * 16 + d) s
unfolding strtoul_from
strtoul_from-digit acc d s h = rw (hex-is_x_digit d h, hex-digit_value d h) refl

strtoul-hex : (n v : ℕ) (s : Text) → v < power_of_16 n → strtoul (hex n v ++ s) ≡ strtoul_from v s
strtoul-hex zero v s h = ap (λ w. strtoul_from w s) (omega (arith, h))
strtoul-hex (suc n) v s h =
    ap strtoul (append_assoc (hex n (v / 16)) _ s)
    ∙ strtoul-hex n (v / 16) _ (omega (arith, h))
    ∙ strtoul_from-digit (v / 16) (v % 16) s (omega arith)
    ∙ ap (λ w. strtoul_from w s) (omega arith)

well_formed-digit :
    (i d : ℕ) (s : Text)
    → d < 16
    → is_dash_at i ≡ false
    → well_formed i (hex_char d ∷ s) ≡ well_formed (suc i) s
unfolding well_formed
well_formed-digit i d s h e = rw (e, hex-is_x_digit d h) refl

-- Digits where no dash is expected.
well_formed-hex :
    (n i v : ℕ) (s : Text)
    → ((k : ℕ) → i ≤ k → k < i + n → is_dash_at k ≡ false)
    → well_formed i (hex n v ++ s) ≡ well_formed (i + n) s
well_formed-hex zero i v s h = ap (λ j. well_formed j s) (omega arith)
well_formed-hex (suc n) i v s h =
    ap (well_formed i) (append_assoc (hex n (v / 16)) _ s)
    ∙ well_formed-hex n i (v / 16) _ (λ k l g. h k l (omega (arith, g)))
    ∙ well_formed-digit (i + n) (v % 16) s (omega arith) (h (i + n) (omega arith) (omega arith))
    ∙ ap (λ j. well_formed j s) (omega arith)

well_formed-hex_bytes : (bs : List ℕ) (i : ℕ) → 24 ≤ i → well_formed i (hex_bytes bs) ≡ true
unfolding well_formed
well_formed-hex_bytes [] i h = refl
well_formed-hex_bytes (b ∷ bs) i h =
    well_formed-hex 2 i b (hex_bytes bs) (λ k l g. ground (arith, l, h))
    ∙ well_formed-hex_bytes bs (i + 2) (omega (arith, h))

node_bytes-hex_bytes :
    (bs : List ℕ) → All (λ b. b < 256) bs → node_bytes (length bs) (hex_bytes bs) ≡ bs
unfolding node_bytes strtoul_from
node_bytes-hex_bytes [] h = refl
node_bytes-hex_bytes (b ∷ bs) h =
    ap (λ v. v % 256 ∷ node_bytes (length bs) (hex_bytes bs)) (strtoul-hex 2 b [] h.0)
    ∙ ap (λ v. v ∷ node_bytes (length bs) (hex_bytes bs)) (omega (arith, h.0))
    ∙ ap (λ s. b ∷ s) (node_bytes-hex_bytes bs h.1)

well_formed-uuid_text : (u : Uuid) → well_formed 0 (uuid_text u) ≡ true
unfolding well_formed
well_formed-uuid_text u =
    well_formed-hex 8 0 u.time_low (b'-' ∷ from_mid u) (λ k l g. ground (arith, l, g))
    ∙ well_formed-hex 4 9 u.time_mid (b'-' ∷ from_hi u) (λ k l g. ground (arith, l, g))
    ∙ well_formed-hex 4 14 u.time_hi_and_version (b'-' ∷ from_clock u)
        (λ k l g. ground (arith, l, g))
    ∙ well_formed-hex 4 19 u.clock_seq (b'-' ∷ hex_bytes u.node) (λ k l g. ground (arith, l, g))
    ∙ well_formed-hex_bytes u.node 24 (omega arith)

length-hex_bytes : (bs : List ℕ) → length (hex_bytes bs) ≡ length bs * 2
length-hex_bytes [] = refl
length-hex_bytes (b ∷ bs) = ground (arith, length-hex_bytes bs)

length-uuid_text : (u : Uuid) → length u.node ≡ 6 → length (uuid_text u) ≡ 36
length-uuid_text u six = omega (arith, length-hex_bytes u.node, six)

-- A field of n digits that is followed by a character which is no digit.
field : (n v : ℕ) (s : Text) → v < power_of_16 n → strtoul (hex n v ++ (b'-' ∷ s)) ≡ v
unfolding strtoul_from
field n v s h = strtoul-hex n v (b'-' ∷ s) h

cut_field :
    (n v : ℕ) (s : Text) → v < power_of_16 n → strtoul (hex n v ++ (b'-' ∷ s)) % power_of_16 n ≡ v
cut_field n v s h = ap (λ w. w % power_of_16 n) (field n v s h) ∙ grind (arith, h)

of_members :
    (s : Text) (u : Uuid)
    → length s ≡ 36
    → well_formed 0 s ≡ true
    → strtoul s % 4294967296 ≡ u.time_low
    → strtoul (drop 9 s) % 65536 ≡ u.time_mid
    → strtoul (drop 14 s) % 65536 ≡ u.time_hi_and_version
    → strtoul (drop 19 s) % 65536 ≡ u.clock_seq
    → node_bytes 6 (drop 24 s) ≡ u.node
    → uuid_parse s ≡ some u
unfolding uuid_parse
of_members s u size good a b c d e = rw (size, good, a, b, c, d, e) refl

-- uuid_parse returns every UUID whose members are within their widths from its text, of 8, 4, 4, 4
-- and 12 hexadecimal digits in lower case.
pub uuid_parse-uuid_text : (u : Uuid) → IsUuid u → uuid_parse (uuid_text u) ≡ some u
uuid_parse-uuid_text u h =
    of_members (uuid_text u) u (length-uuid_text u h.six) (well_formed-uuid_text u)
      (cut_field 8 u.time_low (from_mid u) h.low) (cut_field 4 u.time_mid (from_hi u) h.mid)
      (cut_field 4 u.time_hi_and_version (from_clock u) h.hi)
      (cut_field 4 u.clock_seq (hex_bytes u.node) h.seq)
      (ap (λ n. node_bytes n (hex_bytes u.node)) (sym h.six) ∙ node_bytes-hex_bytes u.node h.bytes)
