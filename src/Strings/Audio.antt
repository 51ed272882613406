-- ===== src/Strings/Audio.antt =====
-- string_type.cpp: the key-value pairs of the audio services.
use fans.Base.{
  ℕ, zero, suc, ◌==◌, Bool, true, List, [], ◌∷◌, ◌++◌, ◌≡◌, refl, none, some, if◌then◌else◌, ◌&&◌,
}
use fans.Base.Text.{Text, codes, text_eq, text_ltb}
use fans.Base.Int.{to_i32, to_i64}
use fans.Exec.{Exec, pure, exit, ◌>>=◌, unknown_type, out_of_bounds}
use fans.Random.{random_uint64, Source}
use fans.Scalars.{generate_bool}
use fans.VarType.{
  VarType, int32_type, uint32_type, int64_type, uint64_type, cstring_type, bool_type,
}
use fans.TypeMap.{type_of}
use fans.IntType.Choices.{generate_int}
use fans.Strings.{Seeds, uniformly}
use fans.Strings.Chars.{random_generate}
use fans.Strings.Decimal.{decimal, decimal_ℤ}
use fans.Base.{get_elem?}

-- map<string, string> audioParameter, in the order of its iteration
unfoldable pub audio_parameters : List (Text × Text)
audio_parameters =
    (codes "bt_headset_nrec", codes "on|off")
    ∷ (codes "channels", codes "audio_channel_mask_t")
    ∷ (codes "connect", codes "audio_devices_t")
    ∷ (codes "disconnect", codes "audio_devices_t")
    ∷ (codes "format", codes "enum audio_format_t")
    ∷ (codes "frame_count", codes "size_t")
    ∷ (codes "hw_av_sync", codes "string")
    ∷ (codes "input_source", codes "enum audio_source_t")
    ∷ (codes "isReconfigA2dpSupported", codes "int32_t")
    ∷ (codes "mono_output", codes "bool")
    ∷ (codes "presentation_id", codes "int32_t")
    ∷ (codes "program_id", codes "int32_t")
    ∷ (codes "reconfigA2dp", codes "int32_t")
    ∷ (codes "routing", codes "audio_devices_t")
    ∷ (codes "sampling_rate", codes "uint32_t")
    ∷ (codes "screen_state", codes "on|off")
    ∷ (codes "sup_channels", codes "audio_channel_mask_t")
    ∷ (codes "sup_formats", codes "enum audio_format_t")
    ∷ (codes "sup_sampling_rates", codes "int32_t")
    ∷ []

is_sorted : List (Text × Text) → Bool
is_sorted [] = true
is_sorted (p ∷ []) = true
is_sorted (p ∷ q ∷ ps) = text_ltb p.0 q.0 && is_sorted (q ∷ ps)

audio_parameters_tests : is_sorted audio_parameters ≡ true
unfolding is_sorted audio_parameters text_ltb
audio_parameters_tests = refl

-- The entry that the iterator stands at after r steps.
unfoldable pub parameter_at : ℕ → Exec Source (Text × Text)
parameter_at r s = elim (get_elem? audio_parameters r) [
  | none ↦ exit out_of_bounds s
  | some p ↦ pure p s
]

-- `nested` is StringType("", type).generate().
module _ (seeds : Seeds) (nested : Exec Source Text) where
  -- IntType<T>("", type).generate() of an unsigned T of `width` bits
  abbrev pub integer : ℕ → Text → Exec Source ℕ
  integer width type = uniformly (generate_int seeds.platform seeds.enum_info width [] type)

  -- The switch on the type of a parameter.
  unfoldable pub print_value : Text → VarType → Exec Source Text
  print_value type int32_type = do v ← integer 32 type; pure (decimal_ℤ (to_i32 v))
  print_value type uint32_type = do v ← integer 32 type; pure (decimal v)
  print_value type int64_type = do v ← integer 64 type; pure (decimal_ℤ (to_i64 v))
  print_value type uint64_type = do v ← integer 64 type; pure (decimal v)
  print_value type cstring_type = nested
  print_value type bool_type = do b ← uniformly generate_bool; pure (decimal (if b then 1 else 0))
  print_value type _ = pure []

  unfoldable pub typed_value : Text → Exec Source Text
  typed_value type = elim (type_of seeds.types type) [
    | none ↦ exit unknown_type
    | some v ↦ print_value type v
  ]

  unfoldable pub audio_value : Text → Exec Source Text
  audio_value type =
      if text_eq type (codes "on|off")
      then (do r ← uniformly (random_uint64 0 1); pure (if r == 0 then codes "on" else codes "off"))
      else typed_value type

  -- The loop of generateAudioParameterKeyPair, for the entries of the map.
  unfoldable pub key_pairs : ℕ → Text → Exec Source Text
  key_pairs zero result = pure result
  key_pairs (suc num) result = do
    r ← uniformly (random_uint64 0 18)
    pair ← parameter_at r
    value ← audio_value (pair.1)
    key_pairs num (result ++ (pair.0 ++ (codes "=" ++ (value ++ codes ";"))))

  -- string generateAudioParameterKeyPair()
  abbrev pub generate_audio_parameter_key_pair : Exec Source Text
  generate_audio_parameter_key_pair = do num ← uniformly (random_uint64 0 18); key_pairs num []

  -- string generataKeyValuePairs()
  unfoldable pub generate_key_value_pairs : ℕ → Exec Source Text
  generate_key_value_pairs patience = do
    n ← uniformly (random_uint64 0 5)
    if n == 0 then generate_audio_parameter_key_pair else do
      prefix ← random_generate patience
      suffix ← random_generate patience
      pure (prefix ++ (codes "=" ++ suffix))
