-- ===== src/Tests/Strings.antt =====
-- The properties of the strings at concrete inputs.
use Prim.Native.Nat.{min}
use fans.Base.{◌≡◌, refl, true, List, [], ◌∷◌, some, length, All, arith, inl, inr}
use mathlib.Core.List.{cons-ne-nil}
use fans.Base.Text.{Text, codes, text_eq}
use fans.Base.Map.{Map, get}
use fans.Exec.{done, hangs}
use fans.Exec.Keeps.{Returned}
use fans.Random.{Source}
use fans.VarType.{VarType, int32_type, uint32_type, uint64_type, cstring_type, bool_type}
use fans.Strings.{Interface, Seeds}
use fans.Strings.Chars.{is_alnum, random_alphanum_string}
use fans.Strings.Fair.{Fair, On, AnyText, random_alphanum_string_lem}
use fans.Strings.Split.{split, split_in}
use fans.Strings.Split.Cut.{Lacks, join, split-parts, split-nothing}
use fans.Strings.Interfaces.{IsChoice, generate_network_interface_name_lem}
use fans.Strings.Network.{generate_network_interface_name, generate_ip}
use fans.Strings.Address.{IsAddress, generate_ip_lem}
use fans.Strings.Audio.{audio_parameters}
use fans.Strings.Returns.{IsReady}
use fans.Strings.Choice.{generate_string}
use fans.Strings.Total.{generate_string_lem}
use fans.Tests.{counting, platform, enums}

-- Always an "a".
abbrev letters : Source
letters = record { uniform = counting; chars = λ n. 97 }

letters-Fair : Fair 1 (λ n. 97)
unfolding is_alnum
letters-Fair = λ n. (0, omega arith, refl)

random_alphanum_string_example :
    Returned
      (On (Fair 1))
      (λ t. (length t ≡ min 3 100000) × All (λ c. is_alnum c ≡ true) t)
      (random_alphanum_string 1 3 letters)
random_alphanum_string_example = random_alphanum_string_lem 1 3 letters letters-Fair

split-parts_example :
    (parts : List Text) × (split (codes "a,,b") (codes ",") ≡ done parts)
    × (join b',' parts ≡ codes "a,,b")
    × All (Lacks b',') parts
split-parts_example = split-parts b',' (codes "a,,b") (cons-ne-nil b'a' (codes ",,b"))

split-nothing_example : split_in 9 (codes "ab") [] ≡ hangs
split-nothing_example = split-nothing 9 (codes "ab") (cons-ne-nil b'a' (codes "b"))

generate_ip_example : Returned (λ t. Unit {0}) IsAddress (generate_ip letters)
generate_ip_example = generate_ip_lem letters

abbrev wlan0 : Interface
wlan0 = record { name = codes "wlan0"; is_packet = true }

abbrev lo : Interface
lo = record { name = codes "lo"; is_packet = true }

abbrev names : List Text
names = codes "a" ∷ codes "b" ∷ []

-- What the types of audioParameter stand for on the device.
abbrev audio_types : Map VarType
audio_types =
    (codes "audio_channel_mask_t", uint32_type)
    ∷ (codes "audio_devices_t", uint32_type)
    ∷ (codes "enum audio_format_t", uint32_type)
    ∷ (codes "size_t", uint64_type)
    ∷ (codes "string", cstring_type)
    ∷ (codes "enum audio_source_t", int32_type)
    ∷ (codes "int32_t", int32_type)
    ∷ (codes "bool", bool_type)
    ∷ (codes "uint32_t", uint32_type)
    ∷ []

abbrev pub seeds : Seeds
seeds = record {
  packages = names;
  permissions = names;
  media_urls = names;
  mimes = names;
  apk_files = names;
  interfaces = some (lo ∷ wlan0 ∷ []);
  platform = platform;
  enum_info = enums;
  types = audio_types;
}

generate_network_interface_name_example :
    Returned
      (λ t. Unit {0})
      (IsChoice (lo ∷ wlan0 ∷ []))
      (generate_network_interface_name seeds letters)
generate_network_interface_name_example =
    generate_network_interface_name_lem seeds (lo ∷ wlan0 ∷ []) letters refl (omega arith)

seeds-IsReady : IsReady seeds
unfolding audio_parameters get text_eq
seeds-IsReady = record {
  packages = (omega arith, omega arith);
  permissions = (omega arith, omega arith);
  media_urls = (omega arith, omega arith);
  mimes = (omega arith, omega arith);
  apk_files = (omega arith, omega arith);
  interfaces = (lo ∷ wlan0 ∷ [], refl, omega arith);
  enums =
      (refl, (refl, (refl, (refl, (refl, (refl, (refl, (refl, (refl, (refl, (refl, tt)))))))))));
  types = (
    inl refl,
    (
      inr (_, refl),
      (
        inr (_, refl),
        (
          inr (_, refl),
          (
            inr (_, refl),
            (
              inr (_, refl),
              (
                inr (_, refl),
                (
                  inr (_, refl),
                  (
                    inr (_, refl),
                    (
                      inr (_, refl),
                      (
                        inr (_, refl),
                        (
                          inr (_, refl),
                          (
                            inr (_, refl),
                            (
                              inr (_, refl),
                              (
                                inr (_, refl),
                                (inl refl, (inr (_, refl), (inr (_, refl), (inr (_, refl), tt)))),
                              ),
                            ),
                          ),
                        ),
                      ),
                    ),
                  ),
                ),
              ),
            ),
          ),
        ),
      ),
    ),
  );
}

generate_string_example :
    Returned (On (Fair 1)) AnyText (generate_string 1 seeds (codes "KeyValuePairs") letters)
generate_string_example =
    generate_string_lem 1 seeds (codes "KeyValuePairs") letters seeds-IsReady letters-Fair
