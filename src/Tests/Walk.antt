-- ===== src/Tests/Walk.antt =====
-- The walk over a parcel of two variables, the second of which is in a loop of three rounds.
use fans.Base.{ℕ, zero, suc, arith}
use fans.Base.Text.{codes}
use fans.Base.Int.{pos}
use fans.Exec.{Exec, pure}
use fans.Exec.Total.{Always, Total}
use fans.State.{State}
use fans.Parcel.Store.{i32, store_value}
use fans.Parcel.Grows.{Stored, set_loop_counter-Stored, store_value-Total}
use fans.Parcel.Store.{set_loop_counter}
use fans.Parcel.Traverse.{start, read_write_range, read_write_from}
use fans.Parcel.Traverse.Walks.{Walks, Walks-preorder}
use fans.Parcel.Traverse.Rounds.{Advances, Returns, walks, read_write_range-Returns}
use fans.Parcel.Traverse.Progress.{read_write_from-Advances}
use fans.Parcel.Traverse.Start.{start-Total}
use fans.Tests.{bit_patterns, tables, start_state}

-- Every variable gets the value 5.
abbrev write_five : ℕ → Exec State (Unit {0})
write_five zero = store_value tables (codes "size") (i32 (pos 5))
write_five (suc i) = store_value tables (codes "item") (i32 (pos 5))

write_five-Walks : (i : ℕ) → Total Walks (write_five i)
write_five-Walks zero = walks _ (store_value-Total tables (codes "size") (i32 (pos 5)))
write_five-Walks (suc i) = walks _ (store_value-Total tables (codes "item") (i32 (pos 5)))

start-Total_example :
    Always (λ _ t. Walks start_state t) (start bit_patterns tables write_five start_state)
start-Total_example =
    start-Total bit_patterns tables write_five write_five-Walks start_state (omega arith)

read_write_from-Advances_example :
    Always
      (λ r t. Advances 1 start_state r t)
      (read_write_from bit_patterns tables write_five 2 1 start_state)
read_write_from-Advances_example =
    read_write_from-Advances bit_patterns tables write_five write_five-Walks 2 1 start_state
      (omega arith)

-- A step that takes one entry.
abbrev one_entry : ℕ → Exec State ℕ
one_entry i = pure 1

one_entry-Advances :
    (i : ℕ) (t : State) → Walks start_state t → Always (λ r u. Advances i t r u) (one_entry i t)
one_entry-Advances i t w = record {
  walks = Walks-preorder.reflexive t;
  positive = omega arith;
  fits = omega arith;
}

read_write_range-Returns_example :
    Always
      (λ r u. Returns 1 start_state r u)
      (read_write_range bit_patterns tables write_five one_entry 1 1 0 start_state)
read_write_range-Returns_example =
    read_write_range-Returns one_entry start_state one_entry-Advances bit_patterns tables write_five
      1 1 0 start_state (Walks-preorder.reflexive start_state)

set_loop_counter-Stored_example :
    Always (λ _ t. Stored (codes "i") start_state t) (set_loop_counter tables 0 2 start_state)
set_loop_counter-Stored_example = set_loop_counter-Stored tables 0 2 start_state
