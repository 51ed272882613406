-- ===== src/Service/Bookkeeping.antt =====
-- usedTxs and generatedInterface of executor.cpp, service.cpp and dependency_solver.cpp.
use fans.Base.{
  ℕ, ◌<◌, ◌≡◌, ◌⊎◌, refl, ap, ◌∙◌, ◌==◌, Bool, true, false, not, ◌&&◌, Option, none, some,
  if◌then◌else◌, arith, inl, inr, Bool-cases, Option-cases, length, leb,
}
use fans.Base.Text.{Text, text_eq, text_eq_iff, codes}
use fans.Base.Map.{get, get-erase, get-put_self}
use fans.Exec.{Exec, Outcome, done, exits, hangs, pure, modify, ◌>>=◌, ◌>>◌}
use fans.Exec.Total.{Always, Always-if, Always-bind}
use fans.Random.{Rng, advance, n_out_of, random_uint64, random_uint64_lem}
use fans.Exec.Succeeds.{Succeeds}
use fans.IntType.Bounds.{n_out_of-Sure}
use fans.Service.{
  Globals, Transaction, System, release, draw_random, top_level, multi_level, can_use_dependency,
  remember, forget, new_binder, with_cached, get_service, run_on, run,
}

-- What the code relies on of the rest of the system: its operations come back or end the process,
-- and a ping leaves the cache of interfaces alone.
pub record Answers (sys : System) : Type 0 where
  pub pings :
      (b : ℕ) (s : Globals)
      → Always (λ _ t. t.generated_interface ≡ s.generated_interface) (sys.ping_binder b s)
  pub checks : (name : Text) (s : Globals) → Always (λ _ _. Unit {0}) (sys.check_service name s)
  pub generates :
      (name : Text) (s : Globals) → Always (λ _ _. Unit {0}) (sys.generate_manually name s)
  pub solves : (tx : Transaction) (s : Globals) → Always (λ _ _. Unit {0}) (sys.solve tx s)
  pub transacts :
      (b : ℕ) (tx : Transaction) (s : Globals) → Always (λ _ _. Unit {0}) (sys.transact b tx s)

-- A binder that is returned is the one that is kept for the interface.
abbrev pub IsKept : Transaction → Option ℕ → Globals → Type 0
IsKept tx none t = Unit
IsKept tx (some b) t = get tx.interface_name t.generated_interface ≡ some b

abbrev Comes : {A : Type 0} → A → Globals → Type 0
Comes a t = Unit

of_outcome :
    {A B : Type 0} (Q : B → Globals → Type 0) (f : A → Exec Globals B) (s : Globals)
    (o : Outcome (A × Rng))
    → Always (λ _ _. Unit {0}) o
    → ((a : A) (t : Globals) → t.used_txs ≡ s.used_txs → Always Q (f a t))
    → Always Q (
        ((λ _. elim o [
          | done (a, r) ↦ done (a, record s { rng = r })
          | exits e ↦ exits e
          | hangs ↦ hangs
        ])
            >>= f)
          s)
of_outcome Q f s (done (a, r)) h k = k a (record s { rng = r }) refl
of_outcome Q f s (exits e) h k = tt
of_outcome Q f s hangs h k = absurd h

Always_of_Succeeds :
    {S A : Type 0} (Q : A → Type 0) (o : Outcome (A × S))
    → Succeeds Q o
    → Always (λ _ _. Unit {0}) o
Always_of_Succeeds Q (done (a, t)) h = tt
Always_of_Succeeds Q (exits e) h = tt
Always_of_Succeeds Q hangs h = h

n_out_of-Comes : (n m : ℕ) (r : Rng) → n < m → Always (λ _ _. Unit {0}) (n_out_of n m r)
n_out_of-Comes n m r h =
    Always_of_Succeeds (λ _. Unit {0}) (n_out_of n m r) ((n_out_of-Sure n m h).run r)

draws :
    {A B : Type 0} (Q : B → Globals → Type 0) (d : Exec Rng A) (f : A → Exec Globals B)
    (s : Globals)
    → Always (λ _ _. Unit {0}) (d s.rng)
    → ((a : A) (t : Globals) → t.used_txs ≡ s.used_txs → Always Q (f a t))
    → Always Q ((draw_random d >>= f) s)
draws Q d f s h k = of_outcome Q f s (d s.rng) h k

module _ (sys : System) (answers : Answers sys) where
  top_level-Comes :
      (tx : Transaction) (o : Option ℕ) (s : Globals) → Always Comes (top_level sys tx o s)
  unfolding top_level
  top_level-Comes tx (some b) s = tt
  top_level-Comes tx none s =
      Always-if Comes (text_eq tx.interface_name (codes "media.log"))
        (sys.generate_manually tx.interface_name) (sys.check_service tx.service_name) s
        (λ _. answers.generates tx.interface_name s) (λ _. answers.checks tx.service_name s)

  multi_level-Comes : (tx : Transaction) (s : Globals) → Always Comes (multi_level sys tx s)
  unfolding multi_level
  multi_level-Comes tx s =
      Always-if Comes (text_eq tx.interface_name (codes "IGraphicBufferProducer")) _ (sys.solve tx)
        s
        (λ _. draws Comes (n_out_of 5 10) _ s (n_out_of-Comes 5 10 s.rng (omega arith)) (λ b t _.
          Always-if Comes b (sys.generate_manually tx.interface_name) (sys.solve tx) t
            (λ _. answers.generates tx.interface_name t) (λ _. answers.solves tx t)))
        (λ _. answers.solves tx s)

  new_binder-Comes : (tx : Transaction) (s : Globals) → Always Comes (new_binder sys tx s)
  unfolding new_binder
  new_binder-Comes tx s =
      Always-if Comes (not (text_eq tx.service_name (codes "None")))
        (sys.check_service tx.service_name >>= top_level sys tx)
        (if not (tx.dependency_size == 0)
          then multi_level sys tx
          else sys.generate_manually tx.interface_name)
        s
        (λ _.
          Always-bind Comes Comes (sys.check_service tx.service_name) (top_level sys tx) s
            (answers.checks tx.service_name s) (λ o t _. top_level-Comes tx o t))
        (λ _.
          Always-if Comes (not (tx.dependency_size == 0)) (multi_level sys tx)
            (sys.generate_manually tx.interface_name) s (λ _. multi_level-Comes tx s)
            (λ _. answers.generates tx.interface_name s))

  remember-IsKept :
      (tx : Transaction) (o : Option ℕ) (s : Globals) → Always (IsKept tx) (remember sys tx o s)
  remember-IsKept tx none s = tt
  remember-IsKept tx (some b) s = get-put_self tx.interface_name b s.generated_interface

  generated-IsKept :
      (tx : Transaction) (s : Globals)
      → Always (IsKept tx) ((new_binder sys tx >>= remember sys tx) s)
  generated-IsKept tx s =
      Always-bind Comes (IsKept tx) (new_binder sys tx) (remember sys tx) s (new_binder-Comes tx s)
        (λ o t _. remember-IsKept tx o t)

  with_cached-IsKept :
      (tx : Transaction) (o : Option ℕ) (s : Globals)
      → get tx.interface_name s.generated_interface ≡ o
      → Always (IsKept tx) (with_cached sys tx o s)
  unfolding with_cached
  with_cached-IsKept tx none s e = generated-IsKept tx s
  with_cached-IsKept tx (some b) s e =
      Always-bind (λ _ t. t.generated_interface ≡ s.generated_interface) (IsKept tx)
        (sys.ping_binder b) _ s (answers.pings b s)
        (λ alive t same.
          Always-if (IsKept tx) alive (pure (some b))
            (modify (forget sys tx) >> (new_binder sys tx >>= remember sys tx)) t
            (λ _. ap (get tx.interface_name) same ∙ e) (λ _. generated-IsKept tx (forget sys tx t)))

  -- getService comes back or ends the process, if the rest of the system does and a ping leaves the
  -- cache of interfaces alone. A binder that it returns is the one that the cache then holds.
  pub get_service-IsKept :
      (tx : Transaction) (s : Globals) → Always (IsKept tx) (get_service sys tx s)
  unfolding get_service
  get_service-IsKept tx s =
      with_cached-IsKept tx (get tx.interface_name s.generated_interface) s refl

  released : (x : Text) (s : Globals) → get x (release x s).used_txs ≡ none
  released x s = ground (arith, get-erase x x s.used_txs, text_eq_iff x x)

  run_on-released :
      (tx : Transaction) (o : Option ℕ) (s : Globals)
      → Always (λ _ t. get tx.tx_name t.used_txs ≡ none) (run_on sys tx o s)
  unfolding run_on
  run_on-released tx none s = released tx.tx_name s
  run_on-released tx (some b) s =
      Always-bind Comes (λ _ t. get tx.tx_name t.used_txs ≡ none) (sys.transact b tx) _ s
        (answers.transacts b tx s) (λ ret t _. released tx.tx_name t)

  -- Executor::run comes back or ends the process, if the rest of the system does and a ping leaves
  -- the cache of interfaces alone. If it comes back, with an interface or without, its transaction is
  -- not in use any more.
  pub run-released :
      (tx : Transaction) (s : Globals)
      → Always (λ _ t. get tx.tx_name t.used_txs ≡ none) (run sys tx s)
  unfolding run
  run-released tx s =
      Always-bind (IsKept tx) (λ _ t. get tx.tx_name t.used_txs ≡ none) (get_service sys tx)
        (run_on sys tx) s (get_service-IsKept tx s) (λ o t _. run_on-released tx o t)

-- What canUseDependency grants: a transaction that is not in use, and fewer than ten in use unless a
-- binder is asked for.
abbrev pub Grants : Bool → Text → Globals → Bool → Type 0
Grants is_binder_dependency x s false = Unit
Grants is_binder_dependency x s true =
    (get x s.used_txs ≡ none) × ((length s.used_txs < 10) ⊎ (is_binder_dependency ≡ true))

grants :
    (b is_binder_dependency : Bool) (x : Text) (s : Globals)
    → (leb 10 (length s.used_txs) && not is_binder_dependency) ≡ false
    → get x s.used_txs ≡ none
    → Grants is_binder_dependency x s b
grants false is_binder_dependency x s e u = tt
grants true true x s e u = (u, inr refl)
grants true false x s e u = (u, inl (ground arith))

abbrev rolled : Globals → Globals
rolled s = record s { rng = advance s.rng }

rare :
    (s : Globals)
    → (b : Bool) × ((draw_random (random_uint64 0 9) >>= λ v. pure (v == 0)) s ≡ done (b, rolled s))
rare s =
    let drawn = random_uint64_lem 0 9 s.rng (omega arith) in
    (drawn.0 == 0, rw (drawn.1, ◌>>=◌, draw_random) refl)

-- canUseDependency returns. If it returns true, the transaction is not in use, and fewer than ten are
-- in use or a binder is asked for. No transaction is taken out of use or into it.
pub can_use_dependency-Grants :
    (is_binder_dependency : Bool) (x type : Text) (s : Globals)
    → (b : Bool) × (t : Globals) × (can_use_dependency is_binder_dependency x type s ≡ done (b, t))
      × Grants is_binder_dependency x s b
      × (t.used_txs ≡ s.used_txs)
unfolding can_use_dependency
can_use_dependency-Grants is_binder_dependency x type s =
    elim (Bool-cases (leb 10 (length s.used_txs) && not is_binder_dependency)) [
      | inl e ↦ (false, s, rw (e, can_use_dependency) refl, tt, refl)
      | inr e ↦ elim (Option-cases (get x s.used_txs)) [
        | inr (b, u) ↦ (false, s, rw (e, can_use_dependency) (rw u refl), tt, refl)
        | inl u ↦ elim (Bool-cases (text_eq type (codes "Structure"))) [
          | inl k ↦
              let r = rare s in
              (
                r.0,
                rolled s,
                rw (e, can_use_dependency) (rw (u, k) r.1),
                grants r.0 is_binder_dependency x s e u,
                refl,
              )
          | inr k ↦ (
            true,
            s,
            rw (e, can_use_dependency) (rw (u, k) refl),
            grants true is_binder_dependency x s e u,
            refl,
          )
        ]
      ]
    ]
