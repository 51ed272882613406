-- ===== src/Tests/Service.antt =====
-- The run of a transaction against a system with one service.
use fans.Base.{◌≡◌, ◌==◌, refl, Bool, true, false, [], ◌∷◌, none, some}
use fans.Base.Text.{codes}
use fans.Base.Map.{get}
use fans.Exec.{done, pure}
use fans.Exec.Total.{Always}
use fans.Service.{Globals, Transaction, System, can_use_dependency, get_service, run}
use fans.Service.Bookkeeping.{
  Answers, IsKept, Grants, get_service-IsKept, run-released, can_use_dependency-Grants,
}
use fans.Tests.{counting}

-- Binder 7 answers for every service, and every transaction returns 0.
abbrev one_service : System
one_service = record {
  ping_binder = λ b. pure (b == 7);
  check_service = λ name. pure (some 7);
  generate_manually = λ name. pure none;
  solve = λ tx. pure none;
  transact = λ b tx. pure 0;
}

one_service-Answers : Answers one_service
one_service-Answers = record {
  pings = λ b s. refl;
  checks = λ name s. tt;
  generates = λ name s. tt;
  solves = λ tx s. tt;
  transacts = λ b tx s. tt;
}

abbrev connect : Transaction
connect = record {
  tx_name = codes "ICameraService::connect";
  service_name = codes "media.camera";
  interface_name = codes "ICameraService";
  dependency_size = 0;
  code = 3;
  flags = 1;
}

-- The transaction is in use, and the binder that is kept has died.
abbrev globals : Globals
globals = record {
  rng = counting;
  used_txs = (codes "ICameraService::connect", true) ∷ [];
  generated_interface = (codes "ICameraService", 6) ∷ [];
}

get_service-IsKept_example : Always (IsKept connect) (get_service one_service connect globals)
get_service-IsKept_example = get_service-IsKept one_service one_service-Answers connect globals

run-released_example :
    Always
      (λ _ t. get (codes "ICameraService::connect") t.used_txs ≡ none)
      (run one_service connect globals)
run-released_example = run-released one_service one_service-Answers connect globals

can_use_dependency-Grants_example :
    (b : Bool) × (t : Globals) × (can_use_dependency false
        (codes "ICamera::lock")
        (codes "Structure")
        globals
      ≡ done (b, t))
    × Grants false (codes "ICamera::lock") globals b
    × (t.used_txs ≡ globals.used_txs)
can_use_dependency-Grants_example =
    can_use_dependency-Grants false (codes "ICamera::lock") (codes "Structure") globals
