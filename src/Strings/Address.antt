-- ===== src/Strings/Address.antt =====
-- string_type.cpp: what `generateIP` returns.
use fans.Random.{Source}
use fans.Base.{ℕ, ◌≤◌, ◌≡◌, ◌≢◌, ◌⊎◌, refl, List, [], ◌∷◌, ◌++◌, length, All, arith}
use mathlib.Core.List.{cons-ne-nil}
use fans.Base.Text.{Text, codes}
use fans.Exec.{done}
use fans.Exec.Keeps.{Returned, Keeps-pure, Keeps-bind}
use fans.Strings.Fair.{On}
use fans.Strings.Picks.{drawn-Keeps}
use fans.Strings.Decimal.{decimal, IsDigit, value_of, decimal_lem, Starts, decimal-shape}
use fans.Strings.Split.{split}
use fans.Strings.Split.Cut.{Lacks, join, split-join}
use fans.Strings.Network.{generate_ip}

-- A number from 0 to 255 in one or more digits, of which the first is 0 only if it is the only one.
pub record IsOctet (part : Text) : Type 0 where
  pub digits : All IsDigit part
  pub denotes : value_of part ≤ 255
  pub shape : (part ≡ b'0' ∷ []) ⊎ Starts part

-- Four of them with dots between them.
abbrev pub IsAddress : Text → Type 0
IsAddress ip =
    (parts : List Text) × (split ip (codes ".") ≡ done parts)
    × (length parts ≡ 4)
    × All IsOctet parts

no_dot : (part : Text) → All IsDigit part → Lacks b'.' part
no_dot [] h = tt
no_dot (c ∷ part) h = (ground (arith, h.0), no_dot part h.1)

IsOctet-decimal : (n : ℕ) → n ≤ 255 → IsOctet (decimal n)
IsOctet-decimal n h =
    let (digits, denotes) = decimal_lem n (omega arith) in
    record {
      digits = digits;
      denotes = omega (arith, denotes);
      shape = decimal-shape n (omega arith);
    }

not-empty : (part rest : Text) → part ++ (b'.' ∷ rest) ≢ []
not-empty [] rest = cons-ne-nil b'.' rest
not-empty (c ∷ part) rest = cons-ne-nil c (part ++ (b'.' ∷ rest))

IsAddress-decimal :
    (a b c d : ℕ)
    → a ≤ 255
    → b ≤ 255
    → c ≤ 255
    → d ≤ 255
    → IsAddress (decimal a ++ (b'.' ∷ (decimal b ++ (b'.' ∷ (decimal c ++ (b'.' ∷ decimal d))))))
unfolding join
IsAddress-decimal a b c d ha hb hc hd =
    let oa = IsOctet-decimal a ha in
    let ob = IsOctet-decimal b hb in
    let oc = IsOctet-decimal c hc in
    let od = IsOctet-decimal d hd in
    (
      decimal a ∷ decimal b ∷ decimal c ∷ decimal d ∷ [],
      split-join b'.' (decimal a ∷ decimal b ∷ decimal c ∷ decimal d ∷ []) (not-empty (decimal a) _)
          (
            no_dot _ oa.digits,
            (no_dot _ ob.digits, (no_dot _ oc.digits, (no_dot _ od.digits, tt))),
          ),
      refl,
      (oa, (ob, (oc, (od, tt)))),
    )

abbrev Anything : (ℕ → ℕ) → Type 0
Anything r = Unit

-- Whatever is drawn, generateIP returns a string that splits at its dots into four numbers from 0
-- to 255, each in one or more decimal digits and, but for 0 itself, without a leading 0.
pub generate_ip_lem : (s : Source) → Returned (λ t. Unit {0}) IsAddress (generate_ip s)
unfolding generate_ip
generate_ip_lem s =
    let octet = drawn-Keeps Anything 0 255 (omega arith) in
    (Keeps-bind (On Anything) _ IsAddress _ _ octet (λ a ha.
        Keeps-bind (On Anything) _ IsAddress _ _ octet (λ b hb.
          Keeps-bind (On Anything) _ IsAddress _ _ octet (λ c hc.
            Keeps-bind (On Anything) _ IsAddress _ _ octet
              (λ d hd. Keeps-pure _ _ _ (IsAddress-decimal a b c d ha.1 hb.1 hc.1 hd.1)))))).run
      s tt
