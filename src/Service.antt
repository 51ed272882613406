-- ===== src/Service.antt =====
-- fuzzer-engine/fuzzer/src/transaction.cpp, executor.cpp, service.cpp and dependency_solver.cpp: the
-- transactions in use, the cache of interfaces, and the run of a transaction.
--
-- Binders are numbers, and NULL is `none`. What other code does (Android's service manager and its
-- binders, the stubs of interfaces) is the record `System`, whose members may change the state.
pub mod Bookkeeping
use fans.Base.{◌+◌, ◌%◌}
use fans.Base.{
  ℕ, zero, suc, ◌-◌, ◌==◌, Bool, true, false, not, ◌&&◌, List, [], ◌∷◌, Option, none, some,
  if◌then◌else◌, length, get_or, leb,
}
use fans.Base.Text.{Text, codes, text_eq}
use fans.Base.Map.{Map, get, put, erase}
use fans.Exec.{Exec, Outcome, done, exits, hangs, pure, exit, gets, modify, ◌>>=◌, ◌>>◌}
use fans.Random.{Rng, random_uint64, n_out_of}

-- The globals usedTxs and generatedInterface.
pub record Globals : Type 0 where
  pub rng : Rng
  pub used_txs : Map Bool
  pub generated_interface : Map ℕ

-- The members of Transaction that are read here; `dependency_size` is dependency.size().
pub record Transaction : Type 0 where
  pub tx_name : Text
  pub service_name : Text
  pub interface_name : Text
  pub dependency_size : ℕ
  pub code : ℕ
  pub flags : ℕ

pub record System : Type 0 where
  pub ping_binder : ℕ → Exec Globals Bool
  pub check_service : Text → Exec Globals (Option ℕ)
  pub generate_manually : Text → Exec Globals (Option ℕ)
  -- DependencySolver(NULL, BINDER_DEPENDENCY, dependency).solve() and its binder
  pub solve : Transaction → Exec Globals (Option ℕ)
  pub transact : ℕ → Transaction → Exec Globals ℕ

abbrev pub draw_random : {A : Type 0} → Exec Rng A → Exec Globals A
draw_random m s = elim (m s.rng) [
  | done (a, r) ↦ done (a, record s { rng = r })
  | exits e ↦ exits e
  | hangs ↦ hangs
]

abbrev pub release : Text → Globals → Globals
release tx_name s = record s { used_txs = erase tx_name s.used_txs }

-- Transaction(string &txName, Json::Value &txMeta, uint32_t &possIdx), for the codes of txMeta.
-- Their number is a uint32_t, from which 1 is taken.
new_transaction : Text → Text → Text → ℕ → List ℕ → Exec Globals Transaction
new_transaction tx_name service_name interface_name dependency_size codes_of = do
  modify (λ s. record s { used_txs = put tx_name true s.used_txs })
  code_idx ← draw_random (random_uint64 0 ((length codes_of + 4294967295) % 4294967296))
  pure (record {
    tx_name = tx_name;
    service_name = service_name;
    interface_name = interface_name;
    dependency_size = dependency_size;
    code = get_or codes_of code_idx 0;
    flags = 1;
  })

-- bool canUseDependency(), by the name and the type of the dependency.
pub can_use_dependency : Bool → Text → Text → Exec Globals Bool
can_use_dependency is_binder_dependency tx_name type s =
    if leb 10 (length s.used_txs) && not is_binder_dependency
    then done (false, s)
    else elim (get tx_name s.used_txs) [
      | none ↦
          (if text_eq type (codes "Structure")
              then (do v ← draw_random (random_uint64 0 9); pure (v == 0))
              else pure true)
            s
      | some b ↦ done (false, s)
    ]

module _ (sys : System) where
  -- A top level interface: the service manager is asked again after five seconds.
  pub top_level : Transaction → Option ℕ → Exec Globals (Option ℕ)
  top_level tx (some b) = pure (some b)
  top_level tx none =
      if text_eq tx.interface_name (codes "media.log")
      then sys.generate_manually tx.interface_name
      else sys.check_service tx.service_name

  pub multi_level : Transaction → Exec Globals (Option ℕ)
  multi_level tx =
      if text_eq tx.interface_name (codes "IGraphicBufferProducer")
      then (do
        manually ← draw_random (n_out_of 5 10)
        if manually then sys.generate_manually tx.interface_name else sys.solve tx)
      else sys.solve tx

  pub new_binder : Transaction → Exec Globals (Option ℕ)
  new_binder tx =
      if not (text_eq tx.service_name (codes "None"))
      then sys.check_service tx.service_name >>= top_level tx
      else if not (tx.dependency_size == 0)
      then multi_level tx
      else sys.generate_manually tx.interface_name

  abbrev pub remember : Transaction → Option ℕ → Exec Globals (Option ℕ)
  remember tx none s = done (none, s)
  remember tx (some b) s =
      done
        (some b, record s { generated_interface = put tx.interface_name b s.generated_interface })

  abbrev pub forget : Transaction → Globals → Globals
  forget tx s = record s { generated_interface = erase tx.interface_name s.generated_interface }

  -- sp<IBinder> getService(Transaction &tx), after the look at the cache.
  pub with_cached : Transaction → Option ℕ → Exec Globals (Option ℕ)
  with_cached tx none = new_binder tx >>= remember tx
  with_cached tx (some b) = do
    alive ← sys.ping_binder b
    if alive then pure (some b) else modify (forget tx) >> (new_binder tx >>= remember tx)

  pub get_service : Transaction → Exec Globals (Option ℕ)
  get_service tx = do
    cached ← gets (λ s. get tx.interface_name s.generated_interface)
    with_cached tx cached

  -- status_t Executor::run(Transaction &tx), once the interface is there or not.
  pub run_on : Transaction → Option ℕ → Exec Globals ℕ
  run_on tx none = modify (release tx.tx_name) >> pure 0
  run_on tx (some b) = do ret ← sys.transact b tx; modify (release tx.tx_name); pure ret

  pub run : Transaction → Exec Globals ℕ
  run tx = get_service tx >>= run_on tx
