-- ===== src/Strings/Split.antt =====
-- string_type.cpp: `split`.
pub mod Cut
use fans.Base.{
  ℕ, zero, suc, ◌+◌, List, [], ◌∷◌, ◌++◌, Option, none, some, length, take, drop, if◌then◌else◌,
}
use fans.Base.Text.{Text, is_prefix}
use fans.Exec.{Outcome, done, hangs}

-- strs.find(pattern); `none` is npos
unfoldable pub find : Text → Text → Option ℕ
find [] pattern = if is_prefix pattern [] then some 0 else none
find (c ∷ s) pattern =
    let rest = find s pattern in
    if is_prefix pattern (c ∷ s) then some 0 else elim rest [ none ↦ none | some i ↦ some (suc i) ]

-- The loop of split: `res` is what has been pushed. substr(pos, n) stops at the end of the string.
unfoldable pub split_loop : ℕ → Text → Text → List Text → Outcome (List Text)
split_loop zero strs pattern res = hangs
split_loop (suc rounds) strs pattern res = elim (find strs pattern) [
  | none ↦ done res
  | some pos ↦
      split_loop rounds (drop (pos + length pattern) strs) pattern (res ++ (take pos strs ∷ []))
]

-- vector<string> split(const string &str, const string &pattern), with at most `rounds` tests of
-- the loop's condition
unfoldable pub split_in : ℕ → Text → Text → Outcome (List Text)
split_in rounds [] pattern = done []
split_in rounds (c ∷ s) pattern = split_loop rounds ((c ∷ s) ++ pattern) pattern []

-- Each round but the last takes away a pattern, which is not empty.
abbrev pub split : Text → Text → Outcome (List Text)
split str pattern = split_in (length str + length pattern + 2) str pattern
