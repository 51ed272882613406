-- ===== src/State.antt =====
-- fuzzer-engine/fuzzer/include/fuzzer/parcel_reader_writer.h: the members of `ParcelReaderWriter`
-- that the code reads or writes.
use fans.Base.{ℕ, Bool, true, false, List, [], Option, none}
use fans.Base.Text.{Text}
use fans.Base.Int.{ℤ, pos}
use fans.Calls.{Call, Read}
use fans.Base.Map.{Map}
use fans.Exec.{Exec, done, exits, hangs}
use fans.Random.{Rng, Source}
use fans.VarType.{VarType}

pub data Operation : Type 0 where
  read_reply write_data : Operation

abbrev pub is_write : Operation → Bool
is_write read_reply = false
is_write write_data = true

-- `rng`, `chars` (std::rand()) and `types` (varTypeMap) are globals of the program. `written` (data), `reply`
-- and `target` (targetParcel) are the calls made on these parcels, the last first.
pub record State : Type 0 where
  pub rng : Rng
  pub chars : Rng
  pub types : Map VarType
  pub operation : Operation
  pub parcel : List Text
  pub is_dependency : Bool
  pub depend_idx : ℕ
  pub is_var_cached : Map Bool
  pub int_map : Map ℤ
  pub uint_map : Map ℕ
  pub int64_map : Map ℤ
  pub uint64_map : Map ℕ
  pub float_map : Map ℕ
  pub double_map : Map ℕ
  pub bool_map : Map Bool
  pub string_map : Map Text
  pub constraint_status : Map Bool
  pub loop_visit : ℕ → Bool
  pub written : List Call
  pub reply : List Read
  pub target : List Call
  pub interface_token : Text
  pub binder : Option ℕ
  pub exception_code : ℤ
  pub fd_count : ℕ
  pub flattenable_level : ℕ
  pub is_raw : Bool
  pub raw_data : List ℕ

abbrev pub uint32_max : ℕ
uint32_max = 4294967295

-- A fresh reader-writer for a parcel.
abbrev pub fresh : Operation → Map VarType → List Text → Rng → Rng → State
fresh op types parcel rng chars = record {
  rng = rng;
  chars = chars;
  types = types;
  operation = op;
  parcel = parcel;
  is_dependency = false;
  depend_idx = uint32_max;
  is_var_cached = [];
  int_map = [];
  uint_map = [];
  int64_map = [];
  uint64_map = [];
  float_map = [];
  double_map = [];
  bool_map = [];
  string_map = [];
  constraint_status = [];
  loop_visit = λ _. false;
  written = [];
  reply = [];
  target = [];
  interface_token = [];
  binder = none;
  exception_code = pos 0;
  fd_count = 0;
  flattenable_level = 0;
  is_raw = false;
  raw_data = [];
}

-- Code that only draws random numbers, run in the state.
abbrev pub draw : {A : Type 0} → Exec Rng A → Exec State A
draw m s = elim (m s.rng) [
  | done (a, r) ↦ done (a, record s { rng = r })
  | exits e ↦ exits e
  | hangs ↦ hangs
]

-- Code that draws strings.
abbrev pub draw_text : {A : Type 0} → Exec Source A → Exec State A
draw_text m s = elim (m (record { uniform = s.rng; chars = s.chars })) [
  | done (a, r) ↦ done (a, record s { rng = r.uniform; chars = r.chars })
  | exits e ↦ exits e
  | hangs ↦ hangs
]
