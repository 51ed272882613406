-- ===== src/Strings/Split/Cut.antt =====
-- `split` of string_type.cpp for a separator of one character: the reference that it computes.
use fans.Base.{
  ℕ, zero, suc, ◌+◌, ◌≤◌, ◌<◌, ◌==◌, ◌≡◌, ◌≢◌, refl, ap, sym, ◌∙◌, false, List, [], ◌∷◌, ◌++◌, some,
  length, length-append, take, drop, All, if◌then◌else◌, arith, Bool-cases, inl, inr, ==_iff,
}
use mathlib.Core.List.{append_assoc, cons-ne-nil}
use fans.Base.Text.{Text, is_prefix}
use fans.Exec.{done, hangs}
use fans.Strings.Split.{find, split_loop, split_in, split}

abbrev prepend : ℕ → List Text → List Text
prepend c [] = (c ∷ []) ∷ []
prepend c (part ∷ parts) = (c ∷ part) ∷ parts

-- The parts between the separators.
unfoldable pub cut : ℕ → Text → List Text
cut sep [] = [] ∷ []
cut sep (c ∷ s) = let rest = cut sep s in if c == sep then [] ∷ rest else prepend c rest

-- The parts with the separator between them.
unfoldable pub join : ℕ → List Text → Text
join sep [] = []
join sep (part ∷ []) = part
join sep (part ∷ next ∷ parts) = part ++ (sep ∷ join sep (next ∷ parts))

abbrev pub Lacks : ℕ → Text → Type 0
Lacks sep = All (λ c. (c == sep) ≡ false)

-- A text is a part followed by the end or by a separator and the rest.
find-part :
    (sep : ℕ) (part rest : Text)
    → Lacks sep part
    → find (part ++ (sep ∷ rest)) (sep ∷ []) ≡ some (length part)
unfolding find is_prefix
find-part sep [] rest h = ground (arith, ==_iff sep sep)
find-part sep (c ∷ part) rest h = rw (find-part sep part rest h.1) (ground (arith, h.0))

take-part : (part : Text) (rest : Text) → take (length part) (part ++ rest) ≡ part
take-part [] rest = refl
take-part (c ∷ part) rest = ap (λ t. c ∷ t) (take-part part rest)

drop-part :
    (part : Text) (sep : ℕ) (rest : Text) → drop (length part + 1) (part ++ (sep ∷ rest)) ≡ rest
drop-part [] sep rest = refl
drop-part (c ∷ part) sep rest =
    ap (λ k. drop k (c ∷ (part ++ (sep ∷ rest)))) {y = suc (length part + 1)} (omega arith)
    ∙ drop-part part sep rest

-- Where the first separator stands.
data Parted (sep : ℕ) (s : Text) : Type 0 where
  last : Lacks sep s → cut sep s ≡ s ∷ [] → Parted sep s
  more :
      (part rest : Text)
      → Lacks sep part
      → s ≡ part ++ (sep ∷ rest)
      → cut sep s ≡ part ∷ cut sep rest
      → Parted sep s

parted : (sep : ℕ) (s : Text) → Parted sep s
unfolding cut
parted sep [] = last tt refl
parted sep (c ∷ s) = elim (Bool-cases (c == sep)) [
  | inl hit ↦ more [] s tt (ap (λ d. d ∷ s) ((==_iff c sep).0 hit)) (rw hit refl)
  | inr miss ↦ elim (parted sep s) [
    | last lacks e ↦ last (miss, lacks) (rw (miss, e) refl)
    | more part rest lacks e f ↦
        more (c ∷ part) rest (miss, lacks) (ap (λ t. c ∷ t) e) (rw (miss, f) refl)
  ]
]

split_loop-end :
    (rounds sep : ℕ) (res : List Text) → 0 < rounds → split_loop rounds [] (sep ∷ []) res ≡ done res
unfolding split_loop find is_prefix
split_loop-end zero sep res h = absurd (omega arith)
split_loop-end (suc rounds) sep res h = refl

split_loop-step :
    (rounds sep : ℕ) (part rest : Text) (res : List Text)
    → Lacks sep part
    → split_loop (suc rounds) (part ++ (sep ∷ rest)) (sep ∷ []) res
      ≡ split_loop rounds rest (sep ∷ []) (res ++ (part ∷ []))
unfolding split_loop
split_loop-step rounds sep part rest res h =
    rw (find-part sep part rest h, take-part part (sep ∷ rest), drop-part part sep rest, split_loop)
      refl

split_loop-cut :
    (sep rounds : ℕ) (s : Text) (res : List Text)
    → length s + 2 ≤ rounds
    → split_loop rounds (s ++ (sep ∷ [])) (sep ∷ []) res ≡ done (res ++ cut sep s)
split_loop-cut sep zero s res h = absurd (omega arith)
split_loop-cut sep (suc rounds) s res h = elim (parted sep s) [
  | last lacks e ↦
      split_loop-step rounds sep s [] res lacks
      ∙ split_loop-end rounds sep (res ++ (s ∷ [])) (omega arith)
      ∙ ap (λ t. done (res ++ t)) (sym e)
  | more part rest lacks e f ↦
      ap (λ t. split_loop (suc rounds) (t ++ (sep ∷ [])) (sep ∷ []) res) e
      ∙ ap (λ t. split_loop (suc rounds) t (sep ∷ []) res)
          (append_assoc part (sep ∷ rest) (sep ∷ []))
      ∙ split_loop-step rounds sep part (rest ++ (sep ∷ [])) res lacks
      ∙ split_loop-cut sep rounds rest (res ++ (part ∷ []))
          (omega (arith, h, ap length e, length-append part (sep ∷ rest)))
      ∙ ap done (append_assoc res (part ∷ []) (cut sep rest) ∙ ap (λ t. res ++ t) (sym f))
]

prepend-join :
    (sep c : ℕ) (parts : List Text) → parts ≢ [] → join sep (prepend c parts) ≡ c ∷ join sep parts
unfolding join
prepend-join sep c [] h = absurd (h refl)
prepend-join sep c (part ∷ []) h = refl
prepend-join sep c (part ∷ next ∷ parts) h = refl

join-cons :
    (sep : ℕ) (part : Text) (parts : List Text)
    → parts ≢ []
    → join sep (part ∷ parts) ≡ part ++ (sep ∷ join sep parts)
unfolding join
join-cons sep part [] h = absurd (h refl)
join-cons sep part (next ∷ parts) h = refl

prepend-ne-nil : (c : ℕ) (parts : List Text) → prepend c parts ≢ []
prepend-ne-nil c [] = cons-ne-nil (c ∷ []) []
prepend-ne-nil c (part ∷ parts) = cons-ne-nil (c ∷ part) parts

prepend-Lacks :
    (sep c : ℕ) (parts : List Text)
    → (c == sep) ≡ false
    → All (Lacks sep) parts
    → All (Lacks sep) (prepend c parts)
prepend-Lacks sep c [] h k = ((h, tt), tt)
prepend-Lacks sep c (part ∷ parts) h k = ((h, k.0), k.1)

cut-ne-nil : (sep : ℕ) (s : Text) → cut sep s ≢ []
unfolding cut
cut-ne-nil sep [] = cons-ne-nil [] []
cut-ne-nil sep (c ∷ s) = elim (Bool-cases (c == sep)) [
  | inl hit ↦ rw hit (cons-ne-nil [] (cut sep s))
  | inr miss ↦ rw miss (prepend-ne-nil c (cut sep s))
]

join-cut : (sep : ℕ) (s : Text) → join sep (cut sep s) ≡ s
unfolding cut join
join-cut sep [] = refl
join-cut sep (c ∷ s) = elim (Bool-cases (c == sep)) [
  | inl hit ↦ rw hit (
      join-cons sep [] (cut sep s) (cut-ne-nil sep s)
      ∙ ap (λ t. sep ∷ t) (join-cut sep s)
      ∙ ap (λ d. d ∷ s) (sym ((==_iff c sep).0 hit)))
  | inr miss ↦
      rw miss (prepend-join sep c (cut sep s) (cut-ne-nil sep s) ∙ ap (λ t. c ∷ t) (join-cut sep s))
]

cut-Lacks : (sep : ℕ) (s : Text) → All (Lacks sep) (cut sep s)
unfolding cut
cut-Lacks sep [] = (tt, tt)
cut-Lacks sep (c ∷ s) = elim (Bool-cases (c == sep)) [
  | inl hit ↦ rw hit (tt, cut-Lacks sep s)
  | inr miss ↦ rw miss (prepend-Lacks sep c (cut sep s) miss (cut-Lacks sep s))
]

split-cut : (sep : ℕ) (s : Text) → s ≢ [] → split s (sep ∷ []) ≡ done (cut sep s)
unfolding split_in
split-cut sep [] h = absurd (h refl)
split-cut sep (c ∷ s) h = split_loop-cut sep _ (c ∷ s) [] (omega arith)

-- Splitting a string that is not empty at a character returns the parts: none of them holds the
-- character, and with the character between them they are the string.
pub split-parts :
    (sep : ℕ) (s : Text)
    → s ≢ []
    → (parts : List Text) × (split s (sep ∷ []) ≡ done parts)
      × (join sep parts ≡ s)
      × All (Lacks sep) parts
split-parts sep s h = (cut sep s, split-cut sep s h, join-cut sep s, cut-Lacks sep s)

cut-part : (sep : ℕ) (part : Text) → Lacks sep part → cut sep part ≡ part ∷ []
unfolding cut
cut-part sep [] h = refl
cut-part sep (c ∷ part) h = rw (h.0, cut-part sep part h.1) refl

cut-append :
    (sep : ℕ) (part rest : Text)
    → Lacks sep part
    → cut sep (part ++ (sep ∷ rest)) ≡ part ∷ cut sep rest
unfolding cut
cut-append sep [] rest h = ground (arith, ==_iff sep sep)
cut-append sep (c ∷ part) rest h = rw (h.0, cut-append sep part rest h.1) refl

cut-join :
    (sep : ℕ) (parts : List Text)
    → parts ≢ []
    → All (Lacks sep) parts
    → cut sep (join sep parts) ≡ parts
unfolding join
cut-join sep [] h k = absurd (h refl)
cut-join sep (part ∷ []) h k = cut-part sep part k.0
cut-join sep (part ∷ next ∷ parts) h k =
    cut-append sep part (join sep (next ∷ parts)) k.0
    ∙ ap (λ t. part ∷ t) (cut-join sep (next ∷ parts) (cons-ne-nil next parts) k.1)

-- Splitting the join of parts that are given returns these parts, if there is a part, none of them
-- holds the separator and they do not make up the empty string.
pub split-join :
    (sep : ℕ) (parts : List Text)
    → join sep parts ≢ []
    → All (Lacks sep) parts
    → split (join sep parts) (sep ∷ []) ≡ done parts
unfolding join
split-join sep parts h k =
    split-cut sep (join sep parts) h ∙ ap done (cut-join sep parts (λ e. h (ap (join sep) e)) k)

find_nothing : (s : Text) → find s [] ≡ some 0
unfolding find is_prefix
find_nothing [] = refl
find_nothing (c ∷ s) = refl

split_loop-nothing : (rounds : ℕ) (s : Text) (res : List Text) → split_loop rounds s [] res ≡ hangs
unfolding split_loop
split_loop-nothing zero s res = refl
split_loop-nothing (suc rounds) s res =
    rw (find_nothing s, split_loop) (split_loop-nothing rounds s (res ++ ([] ∷ [])))

-- Splitting a string that is not empty at the empty pattern has not returned after any number of
-- rounds.
pub split-nothing : (rounds : ℕ) (s : Text) → s ≢ [] → split_in rounds s [] ≡ hangs
unfolding split_in
split-nothing rounds [] h = absurd (h refl)
split-nothing rounds (c ∷ s) h = split_loop-nothing rounds ((c ∷ s) ++ []) []
