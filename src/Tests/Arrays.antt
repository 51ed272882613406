-- ===== src/Tests/Arrays.antt =====
-- The properties of arrays at concrete inputs.
use fans.Base.{false, refl, ◌≡◌, true, ◌&&◌, [], ◌∷◌, arith, ltb}
use fans.Base.Text.{codes, text_eq, contains, is_prefix}
use fans.Exec.{pure}
use fans.Exec.Total.{Always, Total-pure}
use fans.Model.{Variable, Tables}
use fans.State.{State}
use fans.Parcel.Traverse.Dependency.{SameDependency-preorder}
use fans.Exec.Yields.{Yields}
use fans.IntType.Names.{named}
use fans.Arrays.{Solver, read_array_items, generate_array, is_vector, has_known_size, is_byte_array}
use fans.Arrays.Bytes.{ByteVector, generate_array-ByteVector}
use fans.Arrays.Dependency.{read_array_items-dependency}
use fans.Tests.{bit_patterns, size, start_state}
use fans.Tests.Items.{replies}

-- vector<int32_t> sizes and its items
abbrev sizes : Variable
sizes = record size {
  attrs = record (size.attrs) { name = codes "sizes"; type = codes "vector<int32_t>" };
}

abbrev sizes_item : Variable
sizes_item = record size { attrs = record (size.attrs) { name = codes "sizes::item" } }

abbrev array_tables : Tables
array_tables = record { variable = sizes ∷ sizes_item ∷ []; loop = []; constraint = [] }

abbrev no_solver : Solver
no_solver = record { can_use_dependency = λ v. pure true; solve = λ v. pure tt }

abbrev depending : State
depending = record start_state { is_dependency = true }

read_array_items_example :
    Always
      (λ _ t. t.is_dependency ≡ (true && ltb 0 3))
      (read_array_items bit_patterns array_tables
        (λ i. pure tt)
        no_solver
        replies
        sizes
        3
        depending)
read_array_items_example =
    read_array_items-dependency bit_patterns array_tables (λ i. pure tt) no_solver replies sizes
      (λ i. Total-pure tt) 3 depending (omega arith)

-- vector<uint8_t> sizes
abbrev byte_vector : Variable
byte_vector = record size {
  attrs = record (size.attrs) { name = codes "sizes"; type = codes "vector<uint8_t>" };
}

not_uuid : named (codes "sizes") "uuid" ≡ false
unfolding text_eq
not_uuid = refl

vector : is_vector (codes "vector<uint8_t>") ≡ true
unfolding contains is_prefix
vector = refl

unknown : has_known_size (codes "sizes") ≡ false
unfolding text_eq
unknown = refl

of_bytes : is_byte_array (codes "vector<uint8_t>") ≡ true
unfolding contains is_prefix text_eq
of_bytes = refl

generate_array_example :
    Yields
      (λ _ t. ByteVector start_state t)
      (generate_array bit_patterns array_tables
        (λ i. pure tt)
        no_solver
        replies
        byte_vector
        start_state)
generate_array_example =
    generate_array-ByteVector bit_patterns array_tables (λ i. pure tt) no_solver replies byte_vector
      start_state not_uuid vector unknown of_bytes
