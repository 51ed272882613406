-- ===== src/Tests/Functions.antt =====
-- The properties of functions at concrete inputs.
use fans.Base.{◌≡◌, refl, [], ◌∷◌, List}
use fans.Base.Text.{codes, text_eq, contains, is_prefix}
use fans.Exec.Total.{Always}
use fans.Parcel.Grows.{Grows}
use fans.Functions.{Arg, as_int, handling, init_argv}
use fans.Functions.Arguments.{Passed, init_argv-Passed}
use fans.Tests.{tables, start_state}

handling_int : handling (codes "int") ≡ as_int
unfolding handling contains is_prefix text_eq
handling_int = refl

-- f(size), for void f(int item)
abbrev arguments : List Arg
arguments = record { name = codes "size"; type = codes "int" } ∷ []

abbrev parameters : List Arg
parameters = record { name = codes "item"; type = codes "int" } ∷ []

init_argv_example :
    Always
      (λ t _. Grows start_state t × Passed arguments parameters 0 t)
      (init_argv tables tables (codes "f") arguments parameters start_state start_state)
init_argv_example =
    init_argv-Passed tables tables (codes "f") arguments parameters start_state start_state
