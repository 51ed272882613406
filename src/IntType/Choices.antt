-- ===== src/IntType/Choices.antt =====
-- int_type.h: `generate`, the choice of a generator by the name and the type of a variable.
use fans.Base.{
  ℕ, ◌^◌, ◌==◌, ◌%◌, Bool, true, false, ◌||◌, List, [], ◌∷◌, ◌++◌, none, some, if◌then◌else◌, ltb,
}
use fans.Base.Text.{Text, codes}
use fans.Base.Int.{sub_u64}
use fans.Base.Map.{Map, get}
use fans.Exec.{Exec, pure, ◌>>=◌}
use fans.Random.{Rng, random_uint64, n_out_of}
use fans.EnumType.{random_enum, uint64_max}
use fans.IntType.{
  Platform, first_rule, on, special_int, custom_random_uint64, generate_size, generate_pid,
  generate_uid, generate_channel_mask, generate_sensor, generate_msg_type, generate_socket_port,
  generate_socket_addr, generate_sin_family,
}
use fans.IntType.Names.{
  named, mentions, is_pid, is_uid, is_user_id, is_sdk_version, is_socket_port, is_size,
}

abbrev pub Rules : Type 0
Rules = List (Bool × Exec Rng ℕ)

-- enumInfo.count(varType) != 0
abbrev pub is_enum : Map (List ℕ) → Text → Bool
is_enum enum_info t = elim (get t enum_info) [ some v ↦ true | none ↦ false ]

-- `x` is varName and `t` is varType.
module _ (p : Platform) (enum_info : Map (List ℕ)) (width : ℕ) (x t : Text) where
  -- The first part of the chain of generate: enumerations.
  unfoldable pub enum_rules : Rules
  enum_rules =
      (
        is_enum enum_info t,
        if named t "enum android::DrmPlugin::SecurityLevel"
            then pure 1
            else random_enum enum_info t,
      )
      ∷ (named x "as", random_enum enum_info (codes "enum audio_source_t"))
      ∷ (named x "vs", random_enum enum_info (codes "enum android::video_source"))
      ∷ (named x "of", random_enum enum_info (codes "enum android::output_format"))
      ∷ (named x "ae", random_enum enum_info (codes "enum android::audio_encoder"))
      ∷ (named x "ve", random_enum enum_info (codes "enum android::video_encoder"))
      ∷ (
        named x "in_event",
        random_enum enum_info (codes "enum android::AudioSystem::sync_event_t"),
      )
      ∷ (
        named x "in_format" || named x "colorFormat",
        random_enum enum_info (codes "enum android_pixel_format_t"),
      )
      ∷ (named x "cmdCode", random_enum enum_info (codes "enum effect_command_e"))
      ∷ (
        named x "stateFlags",
        random_enum enum_info (
            codes
              "enum android::ISurfaceComposer::(anonymous at frameworks.native.libs.gui.include.gui.ISurfaceComposer.h:61:5)"),
      )
      ∷ (
        named x "keyCode",
        random_enum enum_info (
            codes
              "enum android::(anonymous at frameworks.av.media.libmedia.include.media.mediametadataretriever.h:35:1)"),
      )
      ∷ (
        named x "audio_devices_t",
        random_enum enum_info
            (codes "enum (anonymous at system.media.audio.include.system.audio-base.h:289:1)"),
      )
      ∷ []

  -- Processes, users, cameras and sensors.
  unfoldable pub identity_rules : Rules
  identity_rules =
      (is_pid x t, if named x "in_clientPid" then pure uint64_max else generate_pid p)
      ∷ (is_uid x t, if named x "in_clientUid" then pure uint64_max else generate_uid)
      ∷ (named x "in_cameraId", random_uint64 0 (sub_u64 p.number_of_cameras 1))
      ∷ (named x "in_templateId", random_uint64 1 6)
      ∷ (
        named x "in_halVersion",
        (do tmp ← random_uint64 0 1; pure (if tmp == 0 then uint64_max else 256)),
      )
      ∷ (named x "in_eventId", random_uint64 0 1)
      ∷ (named x "in_apiVersion", random_uint64 1 2)
      ∷ (named x "sensor", generate_sensor)
      ∷ (mentions x "mode", random_uint64 0 3)
      ∷ (named x "callback_flag", random_uint64 0 7)
      ∷ (named x "msgType", generate_msg_type)
      ∷ (named x "command", random_uint64 1 11)
      ∷ (named x "arg1", random_uint64 0 1)
      ∷ (named t "audio_channel_mask_t", generate_channel_mask)
      ∷ (named x "format", pure 1)
      ∷ (named x "type", random_uint64 1 2)
      ∷ (is_size x, generate_size)
      ∷ []

  -- Sockets, audio streams, lengths and offsets.
  unfoldable pub stream_rules : Rules
  stream_rules =
      (mentions x "__kernel_sa_family_t", generate_sin_family p)
      ∷ (is_socket_port x t, generate_socket_port)
      ∷ (mentions x "in_addr_t", generate_socket_addr p)
      ∷ (
        named x "amt",
        (do flag ← random_uint64 0 5; pure (if ltb 0 flag then p.sockaddr_in_size else 0)),
      )
      ∷ (
        named x "aaudio::AAudioStreamConfiguration::DeviceId"
            || named x "aaudio::AAudioStreamConfiguration::BufferCapacity",
        random_uint64 0 2147483647,
      )
      ∷ (
        named x "aaudio::AAudioStreamConfiguration::SampleRate",
        (do
          rate ← random_uint64 7999 1600000
          pure (if rate % 2 ^ width == 79999 then 0 else rate)),
      )
      ∷ (named x "aaudio::AAudioStreamConfiguration::SamplesPerFrame", random_uint64 0 8)
      ∷ (named t "sound_trigger_module_handle_t", random_uint64 1 2)
      ∷ (named x "length", special_int 41)
      ∷ (named x "offset", on (n_out_of 8 10) (pure 0) (special_int 41))
      ∷ (named x "code", random_uint64 0 100)
      ∷ (named x "idx", on (n_out_of 8 10) (pure 0) (random_uint64 1 3))
      ∷ (named x "id", on (n_out_of 5 10) (random_uint64 0 2) custom_random_uint64)
      ∷ (named x "GraphicBufferHeader", on (n_out_of 2 3) (pure 1195520049) (pure 1195525714))
      ∷ []

  -- The rest of the chain.
  unfoldable pub other_rules : Rules
  other_rules =
      (named x "infoType", random_uint64 1 4)
      ∷ (is_sdk_version x, random_uint64 1 30)
      ∷ (is_user_id x, random_uint64 0 10)
      ∷ (named x "in_keyType", on (n_out_of 1 2) (pure 6) (pure 408))
      ∷ (mentions x "family", on (n_out_of 1 2) (pure 4) (pure 6))
      ∷ (mentions x "which", on (n_out_of 1 2) (pure 1) (pure 2))
      ∷ (mentions x "level", random_uint64 0 10)
      ∷ (mentions x "TruncBits" || mentions x "IcvBits", random_uint64 0 128)
      ∷ (mentions x "eventType", random_uint64 1 2)
      ∷ (mentions x "pullCode", random_uint64 10000 10021)
      ∷ (named x "validTypes", random_uint64 0 3)
      ∷ []

  abbrev pub rules : Rules
  rules = enum_rules ++ (identity_rules ++ (stream_rules ++ other_rules))

  -- T generate(), for a T of `width` bits
  unfoldable pub generate_int : Exec Rng ℕ
  generate_int = do
    value ← on (n_out_of 7 10) (first_rule rules custom_random_uint64) custom_random_uint64
    pure (value % 2 ^ width)
