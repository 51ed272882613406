-- ===== src/Strings/Choice.antt =====
-- string_type.cpp: `StringType::generate`, the choice of a generator by the name of the variable.
use fans.Base.{ℕ, zero, suc, Bool, List, [], ◌∷◌, map}
use fans.Base.Text.{Text, c_str, codes}
use fans.Base.Int.{sub_u64, to_i32}
use fans.Exec.{Exec, pure, fuel_out, ◌>>=◌}
use fans.Random.{random_uint64, n_out_of, Source}
use fans.IntType.{first_rule}
use fans.IntType.Names.{named, mentions}
use fans.Strings.{Seeds, uniformly, pick, u32_index, i32_index}
use fans.Strings.Chars.{random_generate}
use fans.Strings.Decimal.{decimal_ℤ}
use fans.Strings.Ops.{generate_op}
use fans.Strings.Names.{
  is_url, is_path, is_network_interface_name, is_package, is_permission, is_address,
}
use fans.Strings.Network.{
  generate_ip, generate_server, generate_chain_name, generate_network_interface_name,
}
use fans.Strings.Locations.{generate_url, generate_path}
use fans.Strings.Audio.{generate_key_value_pairs}
use fans.Base.{if◌then◌else◌}

abbrev pub Rules : Type 0
Rules = List (Bool × Exec Source Text)

-- mimeTypeVector
abbrev pub mime_types : List Text
mime_types =
    codes "cenc"
    ∷ codes "audio/mp4"
    ∷ codes "video/mp4"
    ∷ codes "webm"
    ∷ codes "audio/webm"
    ∷ codes "video/webm"
    ∷ []

module _ (patience : ℕ) (seeds : Seeds) (nested : Exec Source Text) (x : Text) where
  -- The first half of the chain.
  unfoldable pub device_rules : Rules
  device_rules =
      (is_package x, pick u32_index seeds.packages)
      ∷ (is_permission x, pick u32_index seeds.permissions)
      ∷ (is_network_interface_name x, generate_network_interface_name seeds)
      ∷ (mentions x "KeyValuePairs", generate_key_value_pairs seeds nested patience)
      ∷ (
        named x "in_cameraId",
        (do
          tmp ← uniformly (random_uint64 0 (sub_u64 seeds.platform.number_of_cameras 1))
          pure (decimal_ℤ (to_i32 tmp))),
      )
      ∷ (named x "mime", pick i32_index (map c_str seeds.mimes))
      ∷ (named x "mimeType", pick i32_index mime_types)
      ∷ (named x "algorithm", pure (codes "HmacSHA256"))
      ∷ (mentions x "chainName", generate_chain_name)
      ∷ []

  -- The rest of the chain.
  unfoldable pub location_rules : Rules
  location_rules =
      (mentions x "in_servers", generate_server)
      ∷ (mentions x "in_tlsServers", generate_ip)
      ∷ (mentions x "tlsName", pure [])
      ∷ (mentions x "addrString", generate_ip)
      ∷ (is_address x, generate_ip)
      ∷ (named x "op", generate_op)
      ∷ (is_url x, generate_url patience seeds x)
      ∷ (is_path x, generate_path patience seeds x)
      ∷ []

  unfoldable pub generate_by_name : Exec Source Text
  generate_by_name = do
    semantic ← uniformly (n_out_of 7 10)
    if semantic
        then first_rule device_rules (first_rule location_rules (random_generate patience))
        else random_generate patience

module _ (patience : ℕ) (seeds : Seeds) where
  -- string StringType::generate(), with at most `depth` calls of it inside one another. The inner
  -- call is for a variable without a name.
  unfoldable pub generate_string_at : ℕ → Text → Exec Source Text
  generate_string_at zero x = fuel_out
  generate_string_at (suc depth) x = generate_by_name patience seeds (generate_string_at depth []) x

  abbrev pub generate_string : Text → Exec Source Text
  generate_string x = generate_string_at 2 x
