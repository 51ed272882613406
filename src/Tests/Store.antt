-- ===== src/Tests/Store.antt =====
-- Storing, reading and resetting.
use fans.Base.{
  ℕ, ◌<◌, ◌≡◌, ◌↔◌, refl, true, false, [], ◌∷◌, ◌++◌, none, some, arith, length, replicate,
  get_elem?, if◌then◌else◌, find_index,
}
use fans.Base.Text.{codes, is_prefix, text_eq}
use fans.Base.Int.{pos}
use fans.Base.Map.{get}
use fans.Exec.{done}
use fans.Model.{Node, attrs}
use fans.State.{State}
use fans.VarType.{int32_type}
use fans.TypeMap.{load_type_map, before_plus, after_plus}
use fans.TypeMap.Aliases.{load_type_map_keeps, load_type_map_alias}
use fans.Parcel.Lookup.{get_var_value, constraint_idx, var_idx}
use fans.Parcel.Store.{i32, store_value, reset_constraints, erase_struct_status}
use fans.Parcel.Reset.{Resets, reset_constraints_lem, erase_struct_status_lem}
use fans.Parcel.Updates.{Updates, store_value_lem}
use fans.Parcel.RoundTrip.{reads_int, store_value-get_var_value}
use fans.Parcel.Resolution.{constraint_idx_iff, get_target_constraint-IsTarget, IsTarget}
use fans.Parcel.Select.{get_target_constraint}
use fans.Writer.{write_raw_to_data}
use fans.Writer.Bytes.{write_raw_to_data-zero}
use fans.Tests.{tables, types, size, start_state, both}

size_idx : var_idx tables (codes "size") ≡ some 0
unfolding var_idx find_index text_eq
size_idx = refl

store_value-get_var_value_example :
    (t u : State) × (store_value tables (codes "size") (i32 (pos 5)) start_state ≡ done (tt, t))
    × (get_var_value size.attrs t ≡ done (pos 5, u))
unfolding get text_eq
store_value-get_var_value_example =
    store_value-get_var_value tables size.attrs 0 int32_type (i32 (pos 5)) (pos 5) start_state
      size_idx (reads_int (pos 5)) refl

store_value_example :
    (t : State) × (store_value tables (codes "size") (i32 (pos 5)) start_state ≡ done (tt, t))
    × Updates (codes "constraint1_rhs" ∷ []) (codes "size") (i32 (pos 5)) start_state t
store_value_example = store_value_lem tables (codes "size") (i32 (pos 5)) 0 start_state size_idx

-- Two statuses, one of which depends on the right operand of the other.
abbrev two_statuses : State
two_statuses = record start_state {
  constraint_status = (codes "constraint1", true) ∷ (codes "constraint2", false) ∷ [];
  is_var_cached = (codes "Rect_w", true) ∷ (codes "size", true) ∷ [];
}

reset_constraints_example :
    (t : State) × (reset_constraints 16 (codes "constraint1_rhs") two_statuses ≡ done (tt, t))
    × Resets (codes "constraint1_rhs") two_statuses t
reset_constraints_example =
    reset_constraints_lem 16 (codes "constraint1_rhs") two_statuses (omega arith)

erase_struct_status_example :
    (t : State) × (erase_struct_status (codes "Rect") two_statuses ≡ done (tt, t))
    × (get (codes "Rect_w") t.is_var_cached ≡ (
        if is_prefix (codes "Rect") (codes "Rect_w")
        then none
        else get (codes "Rect_w") two_statuses.is_var_cached))
    × (get (codes "Rect_w") t.constraint_status ≡ (
        if is_prefix (codes "Rect") (codes "Rect_w")
        then none
        else get (codes "Rect_w") two_statuses.constraint_status))
erase_struct_status_example = erase_struct_status_lem (codes "Rect") (codes "Rect_w") two_statuses

constraint_idx_iff_example : (constraint_idx tables (codes "constraint1") ≡ some 1) ↔ (
    (j : ℕ) (d : Node)
    → j < 1
    → get_elem? tables.constraint j ≡ some d
    → is_prefix (attrs d).name (codes "constraint1") ≡ false)
constraint_idx_iff_example = constraint_idx_iff tables (codes "constraint1") 1 both refl refl

target_named : (attrs (get_target_constraint (codes "constraint1_rhs") both)).has_name ≡ true
unfolding get_target_constraint text_eq
target_named = refl

get_target_constraint-IsTarget_example :
    IsTarget (codes "constraint1_rhs") both (get_target_constraint (codes "constraint1_rhs") both)
get_target_constraint-IsTarget_example =
    get_target_constraint-IsTarget (codes "constraint1_rhs") both target_named

write_raw_to_data-zero_example :
    write_raw_to_data ((1 ∷ []) ++ 0 ∷ 2 ∷ 3 ∷ []) (7 ∷ [])
    ≡ (7 ∷ []) ++ ((1 ∷ []) ++ 0 ∷ replicate (length {A = ℕ} (2 ∷ 3 ∷ [])) 0)
write_raw_to_data-zero_example = write_raw_to_data-zero (1 ∷ []) (2 ∷ 3 ∷ []) (7 ∷ []) (refl, tt)

load_type_map_keeps_example :
    get (codes "int32_t") (load_type_map (codes "int32_t+uint32_t" ∷ []) types) ≡ some int32_type
unfolding get text_eq
load_type_map_keeps_example =
    load_type_map_keeps (codes "int32_t+uint32_t" ∷ []) (codes "int32_t") types int32_type refl

load_type_map_alias_example :
    get (before_plus (codes "pid_t+int32_t")) (load_type_map (codes "pid_t+int32_t" ∷ []) types)
    ≡ some int32_type
unfolding get text_eq before_plus after_plus
load_type_map_alias_example =
    load_type_map_alias b'p' (codes "id_t+int32_t") [] types int32_type refl refl
