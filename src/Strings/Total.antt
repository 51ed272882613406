-- ===== src/Strings/Total.antt =====
-- string_type.cpp: `StringType::generate` comes back.
use mathlib.Core.Bool.{true≢false}
use fans.Base.{
  ℕ, suc, ◌<◌, ◌≡◌, refl, sym, ap, Bool, true, List, [], ◌∷◌, some, length, All, arith, ltb, map,
}
use fans.Base.Text.{Text, c_str, is_prefix, contains}
use fans.Base.Int.{sub_u64}
use fans.Exec.{Exec}
use fans.Exec.Keeps.{Returned, Keeps-if}
use fans.Random.{Source}
use fans.IntType.{first_rule}
use fans.IntType.Names.{mentions}
use fans.Strings.{Interface, Seeds, u32_index, i32_index}
use fans.Strings.Fair.{Fair, On, AnyText, any_text, random_generate-Keeps}
use fans.Strings.Picks.{entry_at-Keeps, u32_index_small, i32_index_small}
use fans.Strings.Ops.{op_strings, generate_op}
use fans.Strings.Network.{
  generate_ip, dns_servers, generate_server, chain_names, generate_chain_name,
  generate_network_interface_name,
}
use fans.Strings.Interfaces.{generate-IsChoice}
use fans.Strings.Returns.{
  IsFilled, IsReady, Returns, pick-Returns, after_draw, after_chance, returned,
  generate_url-Returns, generate_path-Returns,
}
use fans.Strings.Pairs.{generate_key_value_pairs-Returns}
use fans.Strings.Choice.{
  Rules, mime_types, device_rules, location_rules, generate_by_name, generate_string_at,
  generate_string,
}

op_strings-IsFilled : IsFilled op_strings
unfolding op_strings
op_strings-IsFilled = (omega arith, omega arith)

length-map : (f : Text → Text) (ts : List Text) → length (map f ts) ≡ length ts
length-map f [] = refl
length-map f (t ∷ ts) = ap suc (length-map f ts)

c_strs-IsFilled : (ts : List Text) → IsFilled ts → IsFilled (map c_str ts)
c_strs-IsFilled ts h =
    (omega (arith, h.0, length-map c_str ts), omega (arith, h.1, length-map c_str ts))

module _ (patience : ℕ) where
  -- A branch comes back if its condition holds.
  abbrev IsSafe : (Bool × Exec Source Text) → Type 0
  IsSafe (condition, branch) = condition ≡ true → Returns patience branch

  first_rule-Returns :
      (rs : Rules) (otherwise : Exec Source Text)
      → All IsSafe rs
      → Returns patience otherwise
      → Returns patience (first_rule rs otherwise)
  unfolding first_rule
  first_rule-Returns [] otherwise h k = k
  first_rule-Returns ((condition, branch) ∷ rs) otherwise h k =
      Keeps-if _ AnyText condition branch (first_rule rs otherwise) h.0
        (λ _. first_rule-Returns rs otherwise h.1 k)

  generate_ip-Returns : Returns patience generate_ip
  unfolding generate_ip
  generate_ip-Returns = after_draw patience 0 255 _ (omega arith) (λ a _.
      after_draw patience 0 255 _ (omega arith) (λ b _.
        after_draw patience 0 255 _ (omega arith)
          (λ c _. after_draw patience 0 255 _ (omega arith) (λ d _. returned _ _))))

  generate_server-Returns : Returns patience generate_server
  generate_server-Returns = after_draw patience 0 2 _ (omega arith) (λ n _.
      Keeps-if _ _ (ltb n 2) _ _
        (λ e.
          entry_at-Keeps (Fair patience) AnyText dns_servers n (tt, (tt, tt)) (ground (arith, e)))
        (λ _. generate_ip-Returns))

  generate_chain_name-Returns : Returns patience generate_chain_name
  generate_chain_name-Returns = after_draw patience 0 2 _ (omega arith) (λ idx h.
      entry_at-Keeps (Fair patience) AnyText chain_names (i32_index idx) (tt, (tt, (tt, tt)))
        (omega (arith, i32_index_small idx (omega (arith, h)), h)))

  generate_op-Returns : Returns patience generate_op
  generate_op-Returns =
      pick-Returns patience i32_index op_strings i32_index_small op_strings-IsFilled

  network-Returns :
      (seeds : Seeds)
      → (is : List Interface) × (seeds.interfaces ≡ some is) × (length is < 2147483648)
      → Returns patience (generate_network_interface_name seeds)
  unfolding generate_network_interface_name
  network-Returns seeds (is, known, few) =
      rw known (any_text _ _ _ (generate-IsChoice (Fair patience) is few))

  module _ (seeds : Seeds) (ready : IsReady seeds) (nested : Exec Source Text) (x : Text)
      (inner : mentions x "KeyValuePairs" ≡ true → Returns patience nested) where
    device_rules-IsSafe : All IsSafe (device_rules patience seeds nested x)
    unfolding device_rules
    device_rules-IsSafe = (
      (λ _. pick-Returns patience u32_index _ u32_index_small ready.packages),
      (
        (λ _. pick-Returns patience u32_index _ u32_index_small ready.permissions),
        (
          (λ _. network-Returns seeds ready.interfaces),
          (
            (λ e. generate_key_value_pairs-Returns patience seeds ready nested (inner e)),
            (
              (λ _.
                  after_draw patience 0 (sub_u64 seeds.platform.number_of_cameras 1) _ (omega arith)
                    (λ v _. returned _ _)),
              (
                (λ _.
                    pick-Returns patience i32_index _ i32_index_small
                      (c_strs-IsFilled _ ready.mimes)),
                (
                  (λ _.
                      pick-Returns patience i32_index mime_types i32_index_small
                        (omega arith, omega arith)),
                  ((λ _. returned _ _), ((λ _. generate_chain_name-Returns), tt)),
                ),
              ),
            ),
          ),
        ),
      ),
    )

    location_rules-IsSafe : All IsSafe (location_rules patience seeds nested x)
    unfolding location_rules
    location_rules-IsSafe = (
      (λ _. generate_server-Returns),
      (
        (λ _. generate_ip-Returns),
        (
          (λ _. returned _ _),
          (
            (λ _. generate_ip-Returns),
            (
              (λ _. generate_ip-Returns),
              (
                (λ _. generate_op-Returns),
                (
                  (λ _. generate_url-Returns patience seeds x ready),
                  ((λ _. generate_path-Returns patience seeds x ready), tt),
                ),
              ),
            ),
          ),
        ),
      ),
    )

    generate_by_name-Returns : Returns patience (generate_by_name patience seeds nested x)
    unfolding generate_by_name
    generate_by_name-Returns = after_chance patience 7 10 _ (omega arith) (λ semantic.
        Keeps-if _ _ semantic _ _
          (λ _.
            first_rule-Returns _ _ device_rules-IsSafe
              (first_rule-Returns _ _ location_rules-IsSafe (random_generate-Keeps patience)))
          (λ _. random_generate-Keeps patience))

  generate_string-Returns :
      (seeds : Seeds) (x : Text)
      → IsReady seeds
      → Returns patience (generate_string patience seeds x)
  unfolding generate_string_at contains is_prefix
  generate_string-Returns seeds x ready =
      generate_by_name-Returns seeds ready _ x
        (λ _. generate_by_name-Returns seeds ready _ [] (λ e. absurd (true≢false (sym e))))

  -- generate returns a string for every name of a variable and every sequence of draws, on these
  -- conditions: among any `patience` characters in a row one is alphanumeric; the lists of packages,
  -- permissions, URLs, MIME types and files that it chooses from have at least one entry and fewer
  -- than 2^31; getifaddrs succeeds, with fewer than 2^31 interfaces; the enumerations that the
  -- generator of integers names are known; and each type of the table audioParameter is "on|off" or
  -- known to getVarTypeEnum. What comes after the characters that it takes is as fair.
  pub generate_string_lem :
      (seeds : Seeds) (x : Text) (s : Source)
      → IsReady seeds
      → Fair patience s.chars
      → Returned (On (Fair patience)) AnyText (generate_string patience seeds x s)
  generate_string_lem seeds x s ready fair = (generate_string-Returns seeds x ready).run s fair
