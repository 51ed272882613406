-- ===== src/Tests/Generate.antt =====
-- The generation of values.
use fans.Base.{◌^◌, ◌<◌, ◌≡◌, refl, [], ◌∷◌, arith}
use fans.Base.Text.{codes, text_eq}
use fans.Base.Int.{pos}
use fans.Base.Map.{get}
use fans.Exec.{Exec, exits, pure, undefined_range}
use fans.Exec.Total.{Always, Total, Total-pure}
use fans.Exec.Succeeds.{Sure}
use fans.Random.{advance}
use fans.State.{State}
use fans.Parcel.Store.{Value, i32}
use fans.Parcel.Grows.{Grows, Grows-preorder, Stored}
use fans.Checker.Special.{int_kind}
use fans.Writer.{generate, try_generate}
use fans.Writer.Total.{generate-Total, try_generate-Stored}
use fans.IntType.{generate_sensor}
use fans.IntType.Bounds.{generate_sensor-undefined}
use fans.IntType.Choices.{generate_int}
use fans.IntType.Draws.{generate_int-Sure}
use fans.Tests.{bit_patterns, tables, start_state, size, counting, both, platform, enums}

-- A generator that returns 5.
abbrev five : Exec State Value
five = pure (i32 (pos 5))

generate-Total_example : Total Grows (generate bit_patterns tables size five int_kind (i32 (pos 0)))
generate-Total_example =
    generate-Total bit_patterns tables size five (Total-pure (i32 (pos 5))) int_kind (i32 (pos 0))

try_generate-Stored_example :
    Always
      (λ _ t. Stored (codes "size") start_state t)
      (try_generate bit_patterns tables size five (both ∷ []) 2 (i32 (pos 0)) start_state)
try_generate-Stored_example =
    try_generate-Stored bit_patterns tables size five (Total-pure (i32 (pos 5))) (both ∷ []) 2
      (i32 (pos 0)) start_state (omega arith)

generate_sensor-undefined_example : generate_sensor (advance counting) ≡ exits undefined_range
generate_sensor-undefined_example =
    generate_sensor-undefined (advance counting) (λ e. omega (arith, e))

generate_int-Sure_example :
    Sure (λ v. v < 2 ^ 32) (generate_int platform enums 32 (codes "msgType") (codes "int32_t"))
unfolding get text_eq
generate_int-Sure_example =
    generate_int-Sure platform enums 32 (codes "msgType") (codes "int32_t")
      (refl, (refl, (refl, (refl, (refl, (refl, (refl, (refl, (refl, (refl, (refl, tt)))))))))))
      refl
