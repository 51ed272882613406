-- ===== src/Parcel/Select.antt =====
-- parcel_reader_writer.cpp: the choice of the constraint that a generated value has to satisfy.
use fans.Base.{Bool, ◌||◌, List, [], ◌∷◌, if◌then◌else◌, length, get_or}
use fans.Base.Text.{Text, codes, text_eq}
use fans.Exec.{Exec, pure, ◌>>=◌}
use fans.Random.{random_uint64}
use fans.Model.{Node, null, node, attrs, Tables, Variable}
use fans.State.{State, draw}
use fans.Parcel.Lookup.{get_constraint_idx}

abbrev pub is_connective : Node → Bool
is_connective c = text_eq (attrs c).opcode (codes "&&") || text_eq (attrs c).opcode (codes "||")

-- What is found on the right replaces what is found on the left.
abbrev pub last_named : Node → Node → Node
last_named l r = if (attrs r).has_name then r else if (attrs l).has_name then l else null

-- Json::Value getTargetConstraint(Json::Value constraint, string constraintName)
unfoldable pub get_target_constraint : Text → Node → Node
get_target_constraint constraint_name null = null
get_target_constraint constraint_name (node a l r) =
    let left = get_target_constraint constraint_name l in
    let right = get_target_constraint constraint_name r in
    if is_connective (node a l r)
    then last_named left right
    else if text_eq a.name constraint_name
    then node a l r
    else null

-- vector<Json::Value> selectOneSelfConstraint(const Json::Value &var)
unfoldable pub select_among : Tables → List Text → Exec State (List Node)
select_among m [] = pure []
select_among m (name ∷ names) = do
  cons_idx ← draw (random_uint64 0 (length names))
  idx ← get_constraint_idx m (get_or (name ∷ names) cons_idx [])
  pure (
      get_target_constraint (get_or (name ∷ names) cons_idx []) (get_or m.constraint idx null) ∷ [])

abbrev pub select_one_self_constraint : Tables → Variable → Exec State (List Node)
select_one_self_constraint m var = select_among m var.self_constraint
