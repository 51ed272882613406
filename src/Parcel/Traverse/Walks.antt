-- ===== src/Parcel/Traverse/Walks.antt =====
-- What the walk relies on of the handling of one variable, and the loops that are not being visited.
use fans.Base.{
  ℕ, zero, suc, ◌+◌, ◌≤◌, ◌<◌, ◌==◌, ◌≡◌, refl, ap, ◌∙◌, Bool, true, false, List, [], ◌∷◌, some,
  if◌then◌else◌, arith, inl, inr, Bool-cases, ==_iff, length,
}
use fans.Base.Text.{Text}
use fans.Exec.Total.{IsPreorder}
use fans.Model.{Loop}
use fans.State.{State}
use fans.Parcel.Lookup.{unvisited_loop, valid_loop_in}
use fans.Parcel.Grows.{Grows}

-- The parcel, the mode and the dependency that is looked for stay, and so do the visits to loops.
pub record Walks (s t : State) : Type 0 where
  pub parcel : t.parcel ≡ s.parcel
  pub operation : t.operation ≡ s.operation
  pub depend_idx : t.depend_idx ≡ s.depend_idx
  pub loop_visit : (j : ℕ) → t.loop_visit j ≡ s.loop_visit j

instance pub Walks-preorder : IsPreorder Walks
Walks-preorder = record {
  reflexive =
      λ s. record { parcel = refl; operation = refl; depend_idx = refl; loop_visit = λ j. refl };
  transitive = λ s t u g h. record {
    parcel = h.parcel ∙ g.parcel;
    operation = h.operation ∙ g.operation;
    depend_idx = h.depend_idx ∙ g.depend_idx;
    loop_visit = λ j. h.loop_visit j ∙ g.loop_visit j;
  };
}

pub Walks_of_Grows : (s t : State) → Grows s t → Walks s t
Walks_of_Grows s t g = record {
  parcel = g.parcel;
  operation = g.operation;
  depend_idx = g.depend_idx;
  loop_visit = λ j. ap (λ (v : ℕ → Bool). v j) g.loop_visit;
}

-- How many of the first `n` loops are not being visited.
abbrev pub unvisited : (ℕ → Bool) → ℕ → ℕ
unvisited visit zero = 0
unvisited visit (suc n) = (if visit n then 0 else 1) + unvisited visit n

pub unvisited-ext : (v w : ℕ → Bool) (n : ℕ) → ((j : ℕ) → w j ≡ v j) → unvisited w n ≡ unvisited v n
unvisited-ext v w zero h = refl
unvisited-ext v w (suc n) h = ground (arith, h n, unvisited-ext v w n h)

abbrev visited : (ℕ → Bool) → ℕ → ℕ → Bool
visited v j i = if i == j then true else v i

visited-above : (v : ℕ → Bool) (j n : ℕ) → n ≤ j → unvisited (visited v j) n ≡ unvisited v n
visited-above v j zero h = refl
visited-above v j (suc n) h = ground (arith, visited-above v j n (omega arith))

-- Visiting a loop of the table that is not being visited leaves one less.
pub unvisited-visit :
    (v : ℕ → Bool) (j n : ℕ)
    → j < n
    → v j ≡ false
    → suc (unvisited (λ i. if i == j then true else v i) n) ≡ unvisited v n
unvisited-visit v j zero h e = elim h [ ]
unvisited-visit v j (suc n) h e = elim (Bool-cases (n == j)) [
  | inl same ↦ ground (
    arith,
    ==_iff n j,
    visited-above v j n (omega (arith, (==_iff n j).0 same)),
    ap v ((==_iff n j).0 same),
  )
  | inr other ↦ ground (arith, ==_iff n j, unvisited-visit v j n)
]

-- A loop that is found has its index in the table, and is not being visited.
unvisited_loop-found :
    (visit : ℕ → Bool) (name : Text) (k : ℕ) (ls : List Loop) (j : ℕ)
    → unvisited_loop visit name k ls ≡ some j
    → (j < k + length ls) × (visit j ≡ false)
unfolding unvisited_loop
unvisited_loop-found visit name k [] j e = cc
unvisited_loop-found visit name k (l ∷ ls) j e =
    ground (arith, unvisited_loop-found visit name (suc k) ls j)

pub valid_loop-found :
    (visit : ℕ → Bool) (names : List Text) (ls : List Loop) (j : ℕ)
    → valid_loop_in visit names ls ≡ some j
    → (j < length ls) × (visit j ≡ false)
unfolding valid_loop_in
valid_loop-found visit [] ls j e = cc
valid_loop-found visit (x ∷ names) ls j e =
    ground (arith, unvisited_loop-found visit x 0 ls j, valid_loop-found visit names ls j)
