-- ===== src/Parcel/Traverse.antt =====
-- The walk over a parcel: `start`, `readWriteFrom`, `readWriteRange`, `readWriteItem`.
--
-- What `ParcelWriter::write` and `ParcelReader::read` do with one variable is the parameter `item`.
-- `readWriteFrom` and `readWriteRange` return uint32_t values that their callers test against 0; -1
-- stands there for a failure.
pub mod Walks
pub mod Rounds
pub mod Progress
pub mod Start
pub mod Unders
pub mod Dependency
use Prim.Native.Nat.{max}
use fans.Base.{
  ℕ, drop, ◌%◌, zero, suc, ◌+◌, ◌-◌, ◌<◌, ◌==◌, Bool, true, false, not, ◌&&◌, ◌||◌, List, [], ◌∷◌,
  Option, none, some, if◌then◌else◌, length, get_or, ltb,
}
use fans.Base.Text.{Text, codes, text_eq}
use fans.Exec.{
  Exec, exits, done, pure, exit, fuel_out, gets, modify, ◌>>=◌, ◌>>◌, bad_inc_opcode, not_reading,
}
use fans.Model.{
  max_depth, Tables, Loop, Under, Variable, null_variable, no_loop, Node, null, node, attrs,
}
use fans.State.{State, is_write, uint32_max}
use fans.Parcel.Lookup.{get_var_idx, get_valid_loop_idx_of, is_dependency_item}
use fans.Parcel.Store.{set_loop_counter}
use fans.Checker.{Floats, check_name}

abbrev pub set_visit : ℕ → Bool → State → State
set_visit j b s = record s { loop_visit = λ i. if i == j then b else s.loop_visit i }

-- `for (i = begin; i < end; ++i)` over the `count` indices from `begin` on. A result of 0 ends it
-- early, and it returns false.
pub each_from : (ℕ → Exec State ℕ) → ℕ → ℕ → Exec State Bool
each_from step begin zero = pure true
each_from step begin (suc count) =
    let rest = each_from step (suc begin) count in
    do success ← step begin; if success == 0 then pure false else rest

-- `while (end < parcel.size() && loopIdx == getValidLoopIdxOf(parcel[end])) end += 1;` over the
-- names from `end` on; the result is how often `end` grows. `rest` is the loop after one name more.
pub extend_run : ℕ → Exec State ℕ → Option ℕ → Exec State ℕ
extend_run loop_idx rest none = pure 0
extend_run loop_idx rest (some j) = if loop_idx == j then (do n ← rest; pure (suc n)) else pure 0

pub same_loop_run : Tables → ℕ → List Text → Exec State ℕ
same_loop_run m loop_idx [] = pure 0
same_loop_run m loop_idx (x ∷ xs) =
    let rest = same_loop_run m loop_idx xs in get_valid_loop_idx_of m x >>= extend_run loop_idx rest

-- The bound on the rounds of a loop.
abbrev pub max_count : ℕ
max_count = 65537

-- counterValue += 1 on uint32_t
abbrev pub next_counter : ℕ → ℕ
next_counter c = (c + 1) % 4294967296

module _ (floats : Floats) (m : Tables) (item : ℕ → Exec State (Unit {0})) where
  -- Fuel for `check`, for every constraint of the table.
  abbrev check_fuel : ℕ
  check_fuel = max_depth m.constraint + 3

  -- bool checkUnderConstraint(uint32_t varIdx): every entry is checked, also after one has failed.
  pub check_unders : List Under → Bool → Exec State Bool
  check_unders [] flag = pure flag
  check_unders (u ∷ us) flag = do
    result ← check_name floats m check_fuel u.name
    check_unders us (if (if u.status then result else not result) then flag else false)

  pub check_under_constraint : ℕ → Exec State Bool
  check_under_constraint var_idx =
      check_unders (get_or m.variable var_idx null_variable).under_constraint true

  -- void readWriteItem(uint32_t varIdx)
  pub read_write_item : ℕ → Exec State (Unit {0})
  read_write_item var_idx = do
    satisfied ← check_under_constraint var_idx
    if satisfied then item var_idx else pure tt

  -- The end of a round of readWriteRange: the counter is set, and the loop goes on up to its bound.
  pub end_round : ℕ → ℕ → ℕ → Exec State ℕ → Exec State ℕ
  end_round loop_idx count counter again =
      if text_eq (get_or m.loop loop_idx no_loop).inc_opcode (codes "++")
      then set_loop_counter m loop_idx (next_counter counter)
        >> (if ltb max_count (count + 1) then pure 1 else again)
      else exit bad_inc_opcode

  -- A round of readWriteRange. `-1` is returned where a step fails.
  pub one_round : (ℕ → Exec State ℕ) → ℕ → ℕ → ℕ → ℕ → ℕ → Exec State ℕ → Exec State ℕ
  one_round step begin size loop_idx count counter again = do
    success ← each_from step begin size
    if success then end_round loop_idx count counter again else pure uint32_max

  -- The while loop of readWriteRange, from its test on.
  pub rounds : (ℕ → Exec State ℕ) → ℕ → ℕ → ℕ → ℕ → ℕ → ℕ → Exec State ℕ
  rounds step begin size loop_idx zero count counter = fuel_out
  rounds step begin size loop_idx (suc fuel) count counter =
      let again = rounds step begin size loop_idx fuel (count + 1) (next_counter counter) in
      do
        continue ← check_name floats m check_fuel (get_or m.loop loop_idx no_loop).constraint
        if continue then one_round step begin size loop_idx count counter again else pure 1

  -- int32_t readWriteRange(uint32_t begin, uint32_t end, int32_t loopIdx), for end = begin + size
  pub read_write_range : (ℕ → Exec State ℕ) → ℕ → ℕ → ℕ → Exec State ℕ
  read_write_range step begin size loop_idx =
      let value = (get_or m.loop loop_idx no_loop).counter_value in
      set_loop_counter m loop_idx value >> rounds step begin size loop_idx (suc max_count) 0 value

  -- The branches of readWriteFrom: a variable outside of every loop that is not being visited,
  pub outside_loop : Text → Exec State ℕ
  outside_loop var_name = do var_idx ← get_var_idx m var_name; read_write_item var_idx; pure 1

  -- and the range of variables in one loop, which is visited meanwhile.
  pub visit_range : (ℕ → Exec State ℕ) → ℕ → ℕ → ℕ → Exec State ℕ
  visit_range step begin loop_idx size = do
    modify (set_visit loop_idx true)
    success ← read_write_range step begin size loop_idx
    modify (set_visit loop_idx false)
    pure (if success == 0 then uint32_max else size)

  pub inside_loop : (ℕ → Exec State ℕ) → ℕ → ℕ → Exec State ℕ
  inside_loop step begin loop_idx = do
    parcel ← gets (λ s. s.parcel)
    extra ← same_loop_run m loop_idx (drop (suc begin) parcel)
    visit_range step begin loop_idx (suc extra)

  pub read_write_branch : (ℕ → Exec State ℕ) → ℕ → Text → Option ℕ → Exec State ℕ
  read_write_branch step begin var_name none = outside_loop var_name
  read_write_branch step begin var_name (some j) = inside_loop step begin j

  -- uint32_t readWriteFrom(unsigned int begin). Each call inside a loop visits one more loop, so the
  -- fuel bounds how deep loops nest.
  pub read_write_from : ℕ → ℕ → Exec State ℕ
  read_write_from zero begin s = fuel_out s
  read_write_from (suc nesting) begin s =
      let step = read_write_from nesting in
      let var_name = get_or s.parcel begin [] in
      (get_valid_loop_idx_of m var_name >>= read_write_branch step begin var_name) s

  -- The body of the loop of `start` up to the call of readWriteFrom: whether it goes on.
  pub should_handle : ℕ → Exec State Bool
  should_handle idx s =
      let dependency = is_dependency_item idx s in
      let t = record s { is_dependency = dependency } in
      if dependency
      then (if is_write s.operation
          then exits not_reading
          else done (not (not (s.depend_idx == uint32_max) && ltb s.depend_idx idx), t))
      else done (true, t)

  -- The loop of `start` from an index on.
  pub walk : ℕ → ℕ → Exec State (Unit {0})
  walk zero idx = fuel_out
  walk (suc fuel) idx =
      let next = walk fuel in
      do
        size ← gets (λ s. length s.parcel)
        if ltb idx size
            then (do
              handle ← should_handle idx
              if handle
                  then (do
                    cnt ← read_write_from (suc (length m.loop)) idx
                    next ((idx + cnt) % 4294967296))
                  else pure tt)
            else pure tt

  -- void start()
  pub start : Exec State (Unit {0})
  start s = walk (suc (length s.parcel)) 0 s
