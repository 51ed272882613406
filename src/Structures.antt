-- ===== src/Structures.antt =====
-- fuzzer-engine/fuzzer/src/types/structure_type.cpp: uuid_parse, and the raw structure
-- audio_uuid_s.
pub mod RoundTrip
pub mod Nested
use fans.Base.{
  ℕ, zero, suc, ◌+◌, ◌-◌, ◌*◌, ◌%◌, ◌==◌, Bool, true, false, ◌&&◌, ◌||◌, List, [], ◌∷◌, ◌++◌, map,
  Option, none, some, if◌then◌else◌, ltb, leb, get_or, take, drop, length,
}
use fans.Base.Text.{Text, codes, c_str}
use fans.Exec.{Exec, exit, ◌>>=◌, out_of_bounds}
use fans.Random.{random_uint64}
use fans.Calls.{write_bytes}
use fans.State.{State, draw}
use fans.Writer.Items.{little_endian, put_call}

-- struct uuid; node has 6 elements.
pub record Uuid : Type 0 where
  pub time_low : ℕ
  pub time_mid : ℕ
  pub time_hi_and_version : ℕ
  pub clock_seq : ℕ
  pub node : List ℕ

-- isxdigit
abbrev pub is_x_digit : ℕ → Bool
is_x_digit c =
    (leb b'0' c && leb c b'9') || (leb b'a' c && leb c b'f') || (leb b'A' c && leb c b'F')

abbrev pub digit_value : ℕ → ℕ
digit_value c = if leb c b'9' then c - b'0' else if leb c b'F' then c - b'A' + 10 else c - b'a' + 10

-- strtoul(in, NULL, 16) on a string that begins with a hexadecimal digit, after its first digits,
-- which have the value `acc`.
unfoldable pub strtoul_from : ℕ → Text → ℕ
strtoul_from acc [] = acc
strtoul_from acc (c ∷ s) =
    let rest = strtoul_from (acc * 16 + digit_value c) s in if is_x_digit c then rest else acc

abbrev pub strtoul : Text → ℕ
strtoul s = strtoul_from 0 s

-- (i == 8) || (i == 13) || (i == 18) || (i == 23)
abbrev pub is_dash_at : ℕ → Bool
is_dash_at i = i == 8 || i == 13 || i == 18 || i == 23

-- The loop that checks the characters, from character `i` on. The string has 36 characters, so that
-- its end is the 0 at 36.
unfoldable pub well_formed : ℕ → Text → Bool
well_formed i [] = true
well_formed i (c ∷ s) = (if is_dash_at i then c == b'-' else is_x_digit c) && well_formed (suc i) s

-- The loop that fills node: n more bytes, of two characters each.
unfoldable pub node_bytes : ℕ → Text → List ℕ
node_bytes zero s = []
node_bytes (suc n) s = strtoul (take 2 s) % 256 ∷ node_bytes n (drop 2 s)

-- int uuid_parse(const char *in, struct uuid *uuid), where `none` stands for -1
unfoldable pub uuid_parse : Text → Option Uuid
uuid_parse s =
    if length s == 36 && well_formed 0 s
    then some (record {
      time_low = strtoul s % 4294967296;
      time_mid = strtoul (drop 9 s) % 65536;
      time_hi_and_version = strtoul (drop 14 s) % 65536;
      clock_seq = strtoul (drop 19 s) % 65536;
      node = node_bytes 6 (drop 24 s);
    })
    else none

-- The bytes of a struct uuid in memory; it has no padding.
unfoldable pub uuid_bytes : Uuid → List ℕ
uuid_bytes u =
    little_endian 4 u.time_low
    ++ little_endian 2 u.time_mid
    ++ little_endian 2 u.time_hi_and_version
    ++ little_endian 2 u.clock_seq
    ++ u.node

-- audioUUIDs
abbrev pub audio_uuids : List Text
audio_uuids = map codes (
    "14804144-a5ee-4d24-aa88-0002a5d5c51b" ∷ "8631f300-72e2-11df-b57e-0002a5d5c51b"
    ∷ "2c4a8c24-1581-487f-94f6-0002a5d5c51b" ∷ "d3467faa-acc7-4d34-acaf-0002a5d5c51b"
    ∷ "1d4033c0-8557-11df-9f2d-0002a5d5c51b" ∷ "509a4498-561a-4bea-b3b1-0002a5d5c51b"
    ∷ "c8e70ecd-48ca-456e-8a4f-0002a5d5c51b" ∷ "ce772f20-847d-11df-bb17-0002a5d5c51b"
    ∷ "a0dac280-401c-11e3-9379-0002a5d5c51b" ∷ "48404ac9-d202-4ccc-bf84-0002a5d5c51b"
    ∷ "4a387fc0-8ab3-11df-8bad-0002a5d5c51b" ∷ "79a18026-18fd-4185-8233-0002a5d5c51b"
    ∷ "b707403a-a1c1-4291-9573-0002a5d5c51b" ∷ "c7a511a0-a3bb-11df-860e-0002a5d5c51b"
    ∷ "eb64ea04-973b-43d2-8f5e-0002a5d5c51b" ∷ "1b78f587-6d1c-422e-8b84-0002a5d5c51b"
    ∷ "f29a1400-a3bb-11df-8ddc-0002a5d5c51b" ∷ "6987be09-b142-4b41-9056-0002a5d5c51b"
    ∷ "f3e178d2-ebcb-408e-8357-0002a5d5c51b" ∷ "172cdf00-a3bc-11df-a72f-0002a5d5c51b"
    ∷ "aa2bebf6-47cf-4613-9bca-0002a5d5c51b" ∷ "1d0a1a53-7d5d-48f2-8e71-27fbd10d842c"
    ∷ "d069d9e0-8329-11df-9168-0002a5d5c51b" ∷ "7a8044a0-1a71-11e3-a184-0002a5d5c51b"
    ∷ "119341a0-8469-11df-81f9-0002a5d5c51b" ∷ "93f04452-e4fe-41cc-91f9-e475b6d1d69f"
    ∷ "fa415329-2034-4bea-b5dc-5b381c8d1e2c" ∷ "b4398408-1fb9-11e7-93ae-92361f002671"
    ∷ "b43988c2-1fb9-11e7-93ae-92361f002671" ∷ "08b8b058-0590-11e5-ac71-0025b32654a0"
    ∷ "0956df94-0590-11e5-bdbe-0025b32654a0" ∷ "09f303e2-0590-11e5-8fdb-0025b32654a0"
    ∷ "0ace5c08-0590-11e5-ae9e-0025b32654a0" ∷ "0b776dde-0590-11e5-81ba-0025b32654a0"
    ∷ "e0e6539b-1781-7261-676f-6d7573696340" ∷ [])

-- The branch of generateRaw for the type struct audio_uuid_s. The result of uuid_parse is not tested:
-- of a string that it refuses, what is not initialised is written.
unfoldable pub write_audio_uuid : Uuid → Exec State (Unit {0})
write_audio_uuid uninitialised = do
  idx ← draw (random_uint64 0 11)
  put_call (
      write_bytes (
        uuid_bytes (elim (uuid_parse (c_str (get_or audio_uuids idx []))) [
          | none ↦ uninitialised
          | some u ↦ u
        ])))
