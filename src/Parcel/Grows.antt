-- ===== src/Parcel/Grows.antt =====
-- What storing a value in ParcelReaderWriter may change.
use fans.Base.{
  ℕ, zero, suc, ◌-◌, ◌≤◌, ◌<◌, ◌≡◌, refl, ◌∙◌, Bool, true, ◌||◌, List, [], ◌∷◌, Option, none, some,
  arith, inl, inr, Option-cases, length, get_or, take, length-take,
}
use fans.Base.Text.{Text, codes, text_eq_iff}
use fans.Base.Int.{to_i32}
use fans.Base.Map.{Map, get, put, get-put}
use fans.Exec.{Fault}
use fans.Exec.Total.{
  Always, Always-bind, Always-map, IsPreorder, Total, Total-exit, Total-pure, Total-modify,
  Total-bind, Total-if,
}
use fans.Model.{Attrs, Tables, Loop, no_loop}
use fans.Calls.{Call, Read}
use fans.State.{State}
use fans.VarType.{VarType}
use fans.TypeMap.{type_at}
use fans.Parcel.Lookup.{get_var_cached_status, get_var_idx, found, var_idx}
use fans.Parcel.Store.{
  ends_with, reset_constraints, reset_all, reset_self_constraints, Value, i32, u32, u64, set_value,
  mark_cached, store_value, store_counter, set_loop_counter,
}

-- The parcels, the mode of raw structures and what they have got so far.
abbrev pub others : State → List Call × List Read × List Call × Bool × List ℕ × ℕ
others s = (s.written, s.reply, s.target, s.is_raw, s.raw_data, s.flattenable_level)

-- The parcel, the mode and the visits stay, and no cached variable is forgotten.
pub record Grows (s t : State) : Type 0 where
  pub parcel : t.parcel ≡ s.parcel
  pub operation : t.operation ≡ s.operation
  pub is_dependency : t.is_dependency ≡ s.is_dependency
  pub depend_idx : t.depend_idx ≡ s.depend_idx
  pub loop_visit : t.loop_visit ≡ s.loop_visit
  pub others_same : others t ≡ others s
  pub cached :
      (v : Attrs)
      → get_var_cached_status v s.is_var_cached ≡ true
      → get_var_cached_status v t.is_var_cached ≡ true

instance pub Grows-preorder : IsPreorder Grows
Grows-preorder = record {
  reflexive = λ s. record {
    parcel = refl;
    operation = refl;
    is_dependency = refl;
    depend_idx = refl;
    loop_visit = refl;
    others_same = refl;
    cached = λ v h. h;
  };
  transitive = λ s t u g h. record {
    parcel = h.parcel ∙ g.parcel;
    operation = h.operation ∙ g.operation;
    is_dependency = h.is_dependency ∙ g.is_dependency;
    depend_idx = h.depend_idx ∙ g.depend_idx;
    loop_visit = h.loop_visit ∙ g.loop_visit;
    others_same = h.others_same ∙ g.others_same;
    cached = λ v c. h.cached v (g.cached v c);
  };
}

-- A state that differs in none of what `Grows` reads.
abbrev Same : (s t : State) → Type 0
Same s t =
    (t.parcel ≡ s.parcel)
    × (t.operation ≡ s.operation)
    × (t.is_dependency ≡ s.is_dependency)
    × (t.depend_idx ≡ s.depend_idx)
    × (t.loop_visit ≡ s.loop_visit)
    × (t.is_var_cached ≡ s.is_var_cached)
    × (others t ≡ others s)

pub Grows_of_same : (s t : State) → Same s t → Grows s t
Grows_of_same s t h = record {
  parcel = h.0;
  operation = h.1;
  is_dependency = h.2;
  depend_idx = h.3;
  loop_visit = h.4;
  others_same = h.6;
  cached = λ v c. rw h.5 c;
}

at-mark_cached :
    (x : Text) (v : Attrs) (m : Map Bool)
    → get_var_cached_status v m ≡ true
    → get_var_cached_status v (put x true m) ≡ true
unfolding get_var_cached_status
at-mark_cached x v m h = ground (arith, get-put x v.name true m)

Grows-mark_cached : (x : Text) (s : State) → Grows s (mark_cached x s)
Grows-mark_cached x s = record {
  parcel = refl;
  operation = refl;
  is_dependency = refl;
  depend_idx = refl;
  loop_visit = refl;
  others_same = refl;
  cached = λ v c. at-mark_cached x v s.is_var_cached c;
}

Grows-set_value : (x : Text) (v : Value) (s : State) → Grows s (set_value x v s)
Grows-set_value x (i32 n) s = Grows_of_same _ _ (refl, refl, refl, refl, refl, refl, refl)
Grows-set_value x _ s = Grows_of_same _ _ (refl, refl, refl, refl, refl, refl, refl)

-- A name that ends in _lhs or _rhs has four bytes to take off.
pub ends_with-length :
    (c : Text) → (ends_with c (codes "_lhs") || ends_with c (codes "_rhs")) ≡ true → 4 ≤ length c
unfolding ends_with
ends_with-length c h = ground arith

reset_constraints-Total :
    (fuel : ℕ) (c : Text) → length c < fuel → Total Grows (reset_constraints fuel c)
unfolding reset_constraints
reset_constraints-Total zero c h = elim h [ ]
reset_constraints-Total (suc fuel) c h =
    Total-bind _ _
      (Total-modify _ (λ s. Grows_of_same _ _ (refl, refl, refl, refl, refl, refl, refl)))
      (λ _.
        Total-if _ _ _
          (λ (e : (ends_with c (codes "_lhs") || ends_with c (codes "_rhs")) ≡ true).
            reset_constraints-Total fuel (take (length c - 4) c)
              (omega (arith, ends_with-length c e, length-take (length c - 4) c)))
          (λ _. Total-pure tt))

reset_all-Total : (cs : List Text) → Total Grows (reset_all cs)
unfolding reset_all
reset_all-Total [] = Total-pure tt
reset_all-Total (c ∷ cs) =
    Total-bind _ _ (reset_constraints-Total (suc (length c)) c (omega arith))
      (λ _. reset_all-Total cs)

pub found-Total : {A : Type 0} (e : Fault) (o : Option A) → Total Grows (found e o)
found-Total e none = Total-exit e
found-Total e (some a) = Total-pure a

pub get_var_idx-Total : (m : Tables) (x : Text) → Total Grows (get_var_idx m x)
get_var_idx-Total m x = found-Total _ (var_idx m x)

pub reset_self_constraints-Total :
    (m : Tables) (x : Text) → Total Grows (reset_self_constraints m x)
unfolding reset_self_constraints
reset_self_constraints-Total m x =
    Total-bind (get_var_idx m x) _ (get_var_idx-Total m x) (λ idx. reset_all-Total _)

pub store_value-Total : (m : Tables) (x : Text) (v : Value) → Total Grows (store_value m x v)
unfolding store_value
store_value-Total m x v = Total-bind _ _ (Total-modify _ (Grows-mark_cached x)) (λ _.
    Total-bind _ _ (Total-modify _ (Grows-set_value x v)) (λ _. reset_self_constraints-Total m x))

pub type_at-Total : (t : Text) → Total Grows (type_at t)
unfolding type_at
type_at-Total t = record {
  run = λ s. elim (Option-cases (get t s.types)) [
    | inl e ↦ rw (e, type_at) (Grows_of_same _ _ (refl, refl, refl, refl, refl, refl, refl))
    | inr (v, e) ↦ rw (e, type_at) (Grows_of_same _ _ (refl, refl, refl, refl, refl, refl, refl))
  ];
}

-- Storing a value leaves its variable cached.
pub record Stored (x : Text) (s t : State) : Type 0 where
  pub grows : Grows s t
  pub stored : (v : Attrs) → v.name ≡ x → get_var_cached_status v t.is_var_cached ≡ true

mark_cached-stored :
    (x : Text) (v : Attrs) (m : Map Bool)
    → v.name ≡ x
    → get_var_cached_status v (put x true m) ≡ true
unfolding get_var_cached_status
mark_cached-stored x v m e = ground (arith, get-put x v.name true m, text_eq_iff x v.name)

pub store_value-Stored :
    (m : Tables) (x : Text) (v : Value) (s : State)
    → Always (λ _ t. Stored x s t) (store_value m x v s)
unfolding store_value
store_value-Stored m x v s =
    Always-map (λ _ t. Grows (set_value x v (mark_cached x s)) t) (λ _ t. Stored x s t)
      (reset_self_constraints m x (set_value x v (mark_cached x s)))
      ((reset_self_constraints-Total m x).run _)
      λ _ t g. record {
        grows =
            Grows-preorder.transitive _ _ _ (Grows-mark_cached x s)
              (Grows-preorder.transitive _ _ _ (Grows-set_value x v _) g);
        stored = λ w e. g.cached w (
            (Grows-set_value x v (mark_cached x s)).cached w
              (mark_cached-stored x w s.is_var_cached e));
      }

store_counter-Stored :
    (m : Tables) (l : Loop) (n : ℕ) (t : VarType) (s : State)
    → Always (λ _ u. Stored l.counter_name s u) (store_counter m l n t s)
unfolding store_counter
store_counter-Stored m l n t s = ground (
  arith,
  store_value-Stored m l.counter_name (i32 (to_i32 n)) s,
  store_value-Stored m l.counter_name (u32 n) s,
  store_value-Stored m l.counter_name (u64 n) s,
)

-- setLoopCounter comes back or ends the process; if it comes back, the counter is cached, and no
-- variable that was cached is forgotten.
pub set_loop_counter-Stored :
    (m : Tables) (j n : ℕ) (s : State)
    → Always (λ _ t. Stored (get_or m.loop j no_loop).counter_name s t) (set_loop_counter m j n s)
unfolding set_loop_counter
set_loop_counter-Stored m j n s =
    let l = get_or m.loop j no_loop in
    Always-bind (λ _ t. Grows s t) (λ _ t. Stored l.counter_name s t) (type_at l.counter_type) _ s
      ((type_at-Total l.counter_type).run s)
      λ v t g.
        Always-map (λ _ u. Stored l.counter_name t u) (λ _ u. Stored l.counter_name s u)
          (store_counter m l n v t) (store_counter-Stored m l n v t)
          λ _ u h. record { grows = Grows-preorder.transitive _ _ _ g h.grows; stored = h.stored }

pub set_loop_counter-Total : (m : Tables) (j n : ℕ) → Total Grows (set_loop_counter m j n)
set_loop_counter-Total m j n = record {
  run = λ s.
      Always-map _ (λ _ t. Grows s t) (set_loop_counter m j n s) (set_loop_counter-Stored m j n s)
        (λ _ t h. h.grows);
}
