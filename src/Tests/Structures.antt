-- ===== src/Tests/Structures.antt =====
-- The properties of structures at concrete inputs.
use fans.Base.{ℕ, ◌+◌, ◌≡◌, refl, [], ◌∷◌, List, some, arith}
use fans.Base.Text.{codes}
use fans.Base.Int.{ℤ, pos}
use fans.Exec.{Exec, pure}
use fans.Exec.Total.{Always}
use fans.Calls.{Call, write_int32, set_data_position}
use fans.Model.{Tables}
use fans.State.{State}
use fans.Writer.Items.{put_call}
use fans.Structures.{Uuid, uuid_parse}
use fans.Structures.RoundTrip.{uuid_text, uuid_parse-uuid_text}
use fans.Structures.Nested.{Structure, generate_light_flattenable, generate_flattenable}
use fans.Structures.Nested.Lengths.{Keeps, LengthZero, generate_light_flattenable-LengthZero}
use fans.Structures.Nested.Flattenable.{NoneCounted, generate_flattenable-NoneCounted}
use fans.Tests.{tables, start_state}

-- "14804144-a5ee-4d24-aa88-0002a5d5c51b"
abbrev audio_uuid : Uuid
audio_uuid = record {
  time_low = 0x14804144;
  time_mid = 0xa5ee;
  time_hi_and_version = 0x4d24;
  clock_seq = 0xaa88;
  node = 0x00 ∷ 0x02 ∷ 0xa5 ∷ 0xd5 ∷ 0xc5 ∷ 0x1b ∷ [];
}

uuid_parse_example : uuid_parse (uuid_text audio_uuid) ≡ some audio_uuid
uuid_parse_example = uuid_parse-uuid_text audio_uuid (record {
  low = omega arith;
  mid = omega arith;
  hi = omega arith;
  seq = omega arith;
  six = refl;
  bytes =
      (omega arith, (omega arith, (omega arith, (omega arith, (omega arith, (omega arith, tt))))));
})

text_example : uuid_text audio_uuid ≡ codes "14804144-a5ee-4d24-aa88-0002a5d5c51b"
text_example = refl

-- Every call but setDataPosition moves the position by 4.
abbrev positions : List Call → ℕ
positions [] = 0
positions (set_data_position p ∷ calls) = p
positions (call ∷ calls) = positions calls + 4

positions-Keeps : Keeps positions
positions-Keeps = record { set = λ p calls. refl }

abbrev one_number : Structure
one_number = record {
  data_parcel = codes "size" ∷ [];
  reply_parcel = [];
  tables = tables;
  fixed = some (pos 0);
}

-- A walk that writes a number.
abbrev write_one : Tables → Exec State (Unit {0})
write_one m = put_call (write_int32 (pos 7))

abbrev no_fd : Exec State ℤ
no_fd = pure (pos 3)

generate_light_flattenable_example :
    Always
      (λ _ t. LengthZero (write_one tables) (codes "size" ∷ []) positions start_state t)
      (generate_light_flattenable write_one tables positions one_number
        (codes "Structure")
        start_state)
generate_light_flattenable_example =
    generate_light_flattenable-LengthZero write_one tables positions one_number (codes "Structure")
      positions-Keeps (record { run = λ s. tt }) start_state refl

generate_flattenable_example :
    Always
      (λ _ t. NoneCounted (write_one tables) (codes "size" ∷ []) positions start_state t)
      (generate_flattenable write_one tables positions one_number
        (codes "Structure")
        no_fd
        start_state)
generate_flattenable_example =
    generate_flattenable-NoneCounted write_one tables positions one_number (codes "Structure") no_fd
      positions-Keeps (record { run = λ s. record { level = refl } }) start_state refl (omega arith)
