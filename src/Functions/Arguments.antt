-- ===== src/Functions/Arguments.antt =====
-- function_type.cpp: what initArgv leaves to the function.
use fans.Base.{
  ℕ, suc, ◌≡◌, true, List, [], ◌∷◌, get_or, Option-cases, inl, inr, false, ltb, length,
  if◌then◌else◌,
}
use fans.Base.Text.{Text}
use fans.Base.Map.{at}
use fans.Exec.{done, pure, exit, bad_argument}
use fans.Exec.Total.{Always, Always-bind, Always-if, Always-map}
use fans.Model.{Attrs, Tables, null_variable}
use fans.VarType.{
  VarType, int32_type, uint32_type, int64_type, uint64_type, integer_literal, bool_type,
}
use fans.State.{State}
use fans.TypeMap.{get_var_type_enum, type_of}
use fans.Parcel.Lookup.{
  get_var_cached_status, get_var_idx, cached_value, uncached_value, get_var_value, get_value_of,
}
use fans.Parcel.Store.{Value, store_value, boolean}
use fans.Parcel.Grows.{Grows, Grows-preorder, Stored, store_value-Stored, get_var_idx-Total}
use fans.IntType.Names.{named}
use fans.Functions.{
  Arg, null_arg, Handling, skipped, as_bool, as_int, unsupported, handling, store_in, copy_arg,
  copy_args, init_argv,
}

-- Of an argument that is not skipped, the variable of the function is cached. An argument that is
-- not supported is not there.
pub Passes : Handling → Arg → State → Type 0
Passes skipped arg t = Unit
Passes as_bool arg t =
    (v : Attrs) → v.name ≡ arg.name → get_var_cached_status v t.is_var_cached ≡ true
Passes as_int arg t =
    (v : Attrs) → v.name ≡ arg.name → get_var_cached_status v t.is_var_cached ≡ true
Passes unsupported arg t = ⊥

pub Passed : List Arg → List Arg → ℕ → State → Type 0
Passed [] argv i t = Unit
Passed (parent ∷ parents) argv i t =
    Passes (handling parent.type) (get_or argv i null_arg) t × Passed parents argv (suc i) t

Passes-Grows : (h : Handling) (a : Arg) (s t : State) → Grows s t → Passes h a s → Passes h a t
unfolding Passes
Passes-Grows skipped a s t g h = tt
Passes-Grows as_bool a s t g h = λ v e. g.cached v (h v e)
Passes-Grows as_int a s t g h = λ v e. g.cached v (h v e)
Passes-Grows unsupported a s t g h = h

Passed-Grows :
    (parents argv : List Arg) (i : ℕ) (s t : State)
    → Grows s t
    → Passed parents argv i s
    → Passed parents argv i t
unfolding Passed
Passed-Grows [] argv i s t g h = tt
Passed-Grows (p ∷ ps) argv i s t g (h, k) = (
  Passes-Grows (handling p.type) (get_or argv i null_arg) s t g h,
  Passed-Grows ps argv (suc i) s t g k,
)

abbrev Any : State → State → Type 0
Any s t = Unit {0}

cached_value-Always :
    (type : VarType) (v : Attrs) (s : State) → Always (λ _ t. Any s t) (cached_value type v s)
unfolding cached_value
cached_value-Always int32_type v s = tt
cached_value-Always uint32_type v s = tt
cached_value-Always int64_type v s = tt
cached_value-Always uint64_type v s = tt
cached_value-Always integer_literal v s = tt
cached_value-Always bool_type v s = tt
cached_value-Always _ v s = tt

get_var_type_enum-Always : (t : Text) (s : State) → Always (λ _ u. Any s u) (get_var_type_enum t s)
unfolding get_var_type_enum
get_var_type_enum-Always t s = elim (Option-cases (type_of s.types t)) [
  | inl e ↦ rw (e, Always) tt
  | inr (v, e) ↦ rw (e, Always) tt
]

get_var_value-Always : (v : Attrs) (s : State) → Always (λ _ t. Any s t) (get_var_value v s)
unfolding get_var_value
get_var_value-Always v s =
    Always-bind (λ _ t. Any s t) (λ _ t. Any s t) (get_var_type_enum v.type) _ s
      (get_var_type_enum-Always v.type s)
      (λ type t _.
        Always-if (λ _ u. Any s u) (at v.name false t.is_var_cached) (cached_value type v)
          (pure (uncached_value type v)) _ (λ _. cached_value-Always type v _) (λ _. tt))

module _ (m own : Tables) where
  get_value_of-Always : (x : Text) (s : State) → Always (λ _ t. Any s t) (get_value_of m x s)
  unfolding get_value_of
  get_value_of-Always x s =
      Always-bind (λ _ t. Grows s t) (λ _ t. Any s t) (get_var_idx m x) _ s
        ((get_var_idx-Total m x).run s)
        (λ i t _. get_var_value-Always (get_or m.variable i null_variable).attrs t)

  abbrev Q : Handling → Arg → State → State → State → Type 0
  Q h a s t u = Grows s t × Passes h a t

  store_in-Stored :
      (x : Text) (v : Value) (child s : State)
      → Always (λ t _. Stored x child t) (store_in m own child x v s)
  store_in-Stored x v child s =
      Always-bind {S = State} (λ _ t. Stored x child t) (λ t _. Stored x child t)
        (store_value own x v) (λ _ t. done (t, s)) child (store_value-Stored own x v child)
        (λ _ t h. h)

  copy_arg-Passes :
      (parent : Arg) (h : Handling) (arg : Arg) (child s : State)
      → Always (Q h arg child) (copy_arg m own parent h arg child s)
  unfolding copy_arg Passes
  copy_arg-Passes parent skipped arg child s = (Grows-preorder.reflexive child, tt)
  copy_arg-Passes parent as_bool arg child s =
      Always-bind (λ _ t. Any s t) (Q as_bool arg child) (get_value_of m parent.name) _ s
        (get_value_of-Always parent.name s)
        (λ v t _.
          Always-map (λ u _. Stored arg.name child u) (Q as_bool arg child) _
            (store_in-Stored arg.name _ child t) (λ u w k. (k.grows, k.stored)))
  copy_arg-Passes parent as_int arg child s =
      Always-bind (λ _ t. Any s t) (Q as_int arg child) (get_value_of m parent.name) _ s
        (get_value_of-Always parent.name s)
        (λ v t _.
          Always-map (λ u _. Stored arg.name child u) (Q as_int arg child) _
            (store_in-Stored arg.name _ child t) (λ u w k. (k.grows, k.stored)))
  copy_arg-Passes parent unsupported arg child s = tt

  copy_args-Passed :
      (parents argv : List Arg) (i : ℕ) (child s : State)
      → Always
          (λ t _. Grows child t × Passed parents argv i t)
          (copy_args m own parents argv i child s)
  unfolding copy_args Passed
  copy_args-Passed [] argv i child s = (Grows-preorder.reflexive child, tt)
  copy_args-Passed (p ∷ ps) argv i child s =
      let h = handling p.type in
      let a = get_or argv i null_arg in
      Always-bind (Q h a child) (λ t _. Grows child t × Passed (p ∷ ps) argv i t)
        (copy_arg m own p h a child) _ s (copy_arg-Passes p h a child s)
        (λ next t (g, k).
          Always-map (λ u _. Grows next u × Passed ps argv (suc i) u)
            (λ u _. Grows child u × Passed (p ∷ ps) argv i u)
            (copy_args m own ps argv (suc i) next t) (copy_args-Passed ps argv (suc i) next t)
            (λ u w (f, r).
              (Grows-preorder.transitive child next u g f, (Passes-Grows h a next u f k, r))))

  -- initArgv comes back or ends the process. If it comes back, the reader-writer of the function has
  -- forgotten no cached variable, every argument whose type is int or _Bool is cached there under its
  -- name in the function, and no argument has a type that is not supported.
  pub init_argv-Passed :
      (func_name : Text) (parents argv : List Arg) (child s : State)
      → Always
          (λ t _. Grows child t × Passed parents argv 0 t)
          (init_argv m own func_name parents argv child s)
  unfolding init_argv
  init_argv-Passed func_name parents argv child s =
      let R = λ (t u : State). Grows child t × Passed parents argv 0 t in
      Always-bind R R (copy_args m own parents argv 0 child) _ s
        (copy_args-Passed parents argv 0 child s)
        (λ next t (g, k).
          let last = store_in m own next (get_or argv 1 null_arg).name (boolean true) in
          Always-if R (ltb (length parents) (length argv))
            (if named func_name "keystore::readKeymasterBlob" then last else exit bad_argument)
            (pure next) t
            (λ _.
              Always-if R (named func_name "keystore::readKeymasterBlob") last (exit bad_argument) t
                (λ _.
                  Always-map (λ u _. Stored (get_or argv 1 null_arg).name next u) R (last t)
                    (store_in-Stored (get_or argv 1 null_arg).name (boolean true) next t)
                    (λ u w h. (
                      Grows-preorder.transitive child next u g h.grows,
                      Passed-Grows parents argv 0 next u h.grows k,
                    )))
                (λ _. tt))
            (λ _. (g, k)))
