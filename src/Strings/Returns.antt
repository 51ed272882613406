-- ===== src/Strings/Returns.antt =====
-- string_type.cpp: the generators of strings come back.
use fans.Base.{
  ℕ, zero, suc, ◌≤◌, ◌<◌, ◌≡◌, ◌||◌, refl, Bool, true, ◌⊎◌, List, [], ◌∷◌, some, length, All, arith,
}
use fans.Base.Text.{Text, codes, lower, text_eq}
use fans.Base.Map.{Map}
use fans.Exec.{Exec, pure, ◌>>=◌}
use fans.Exec.Keeps.{Keeps, Keeps-pure, Keeps-if, Keeps-bind}
use fans.Random.{random_uint64, n_out_of, Source}
use fans.VarType.{VarType}
use fans.TypeMap.{type_of}
use fans.IntType.Names.{named, mentions}
use fans.IntType.Bounds.{n_out_of-Sure}
use fans.IntType.Choices.{is_enum}
use fans.IntType.Draws.{enum_names}
use fans.Strings.{Interface, Seeds, uniformly, pick, u32_index, u64_index}
use fans.Strings.Fair.{
  Fair, On, AnyText, any_text, uniformly-Keeps, random_generate-Keeps, random_alphanum_string-Keeps,
}
use fans.Strings.Picks.{IsIndex, drawn-Keeps, pick-Keeps, u32_index_small}
use fans.Strings.Locations.{words, any_url, generate_url, segments, any_path, generate_path}
use fans.Strings.Audio.{audio_parameters}

-- A list that has entries, and not more than an int32_t can count.
abbrev pub IsFilled : List Text → Type 0
IsFilled ts = (0 < length ts) × (length ts < 2147483648)

-- The values of audioParameter are types that getVarTypeEnum knows, or "on|off".
abbrev pub IsKnown : Map VarType → (Text × Text) → Type 0
IsKnown types p =
    (text_eq (p.1) (codes "on|off") ≡ true) ⊎ ((v : VarType) × (type_of types (p.1) ≡ some v))

-- What StringType::generate relies on.
pub record IsReady (seeds : Seeds) : Type 0 where
  pub packages : IsFilled seeds.packages
  pub permissions : IsFilled seeds.permissions
  pub media_urls : IsFilled seeds.media_urls
  pub mimes : IsFilled seeds.mimes
  pub apk_files : IsFilled seeds.apk_files
  pub interfaces : (is : List Interface) × (seeds.interfaces ≡ some is) × (length is < 2147483648)
  pub enums : All (λ name. is_enum seeds.enum_info (codes name) ≡ true) enum_names
  pub types : All (IsKnown seeds.types) audio_parameters

module _ (patience : ℕ) where
  abbrev pub Returns : Exec Source Text → Type 0
  Returns m = Keeps (On (Fair patience)) AnyText m

  pub pick-Returns :
      (as_index : ℕ → ℕ) (ts : List Text)
      → IsIndex as_index
      → IsFilled ts
      → Returns (pick as_index ts)
  pick-Returns as_index [] same h = absurd (omega (arith, h.0))
  pick-Returns as_index (t ∷ ts) same h =
      pick-Keeps (Fair patience) AnyText as_index t ts same (omega (arith, h.1)) (anything (t ∷ ts))
    where
      anything : (ts : List Text) → All AnyText ts
      anything [] = tt
      anything (t ∷ ts) = (tt, anything ts)

  -- What follows a draw.
  pub after_draw :
      (min max : ℕ) (f : ℕ → Exec Source Text)
      → min ≤ max
      → ((v : ℕ) → v ≤ max → Returns (f v))
      → Returns (uniformly (random_uint64 min max) >>= f)
  after_draw min max f h k =
      Keeps-bind _ _ AnyText _ f (drawn-Keeps (Fair patience) min max h) (λ v b. k v b.1)

  pub after_chance :
      (n out_of : ℕ) (f : Bool → Exec Source Text)
      → n < out_of
      → ((b : Bool) → Returns (f b))
      → Returns (uniformly (n_out_of n out_of) >>= f)
  after_chance n out_of f h k =
      Keeps-bind _ _ AnyText _ f (uniformly-Keeps (Fair patience) _ _ (n_out_of-Sure n out_of h))
        (λ b _. k b)

  pub after_text :
      (m : Exec Source Text) (f : Text → Exec Source Text)
      → Returns m
      → ((t : Text) → Returns (f t))
      → Returns (m >>= f)
  after_text m f h k = Keeps-bind _ _ AnyText m f h (λ t _. k t)

  pub returned : (t : Text) → Returns (pure t)
  returned t = Keeps-pure _ AnyText t tt

  words-Returns : (separator : Text) (n : ℕ) → Returns (words patience separator n)
  unfolding words
  words-Returns separator zero = returned []
  words-Returns separator (suc more) = after_draw 1 10 _ (omega arith) (λ size _.
      after_text _ _ (any_text _ _ _ (random_alphanum_string-Keeps patience size))
        (λ word. after_text _ _ (words-Returns separator more) (λ rest. returned _)))

  any_url-Returns : Returns (any_url patience)
  unfolding any_url
  any_url-Returns = after_chance 1 2 _ (omega arith) (λ plain.
      after_draw 2 5 _ (omega arith) (λ n _. after_text _ _ (words-Returns (codes ".") n) (λ host.
        after_draw 0 5 _ (omega arith)
          (λ k _. after_text _ _ (words-Returns (codes "/") k) (λ path. returned _)))))

  pub generate_url-Returns :
      (seeds : Seeds) (x : Text) → IsReady seeds → Returns (generate_url patience seeds x)
  unfolding generate_url
  generate_url-Returns seeds x ready =
      Keeps-if _ _ (named (lower x) "url" || named (lower x) "srcurl") _ _
        (λ _. pick-Returns u32_index _ u32_index_small ready.media_urls)
        (λ _. Keeps-if _ _ (named (lower x) "in_url") _ _ (λ _. returned _) (λ _. any_url-Returns))

  segments-Returns : (n : ℕ) (path : Text) → Returns (segments patience n path)
  unfolding segments
  segments-Returns zero path = returned path
  segments-Returns (suc n) path =
      after_text _ _ (random_generate-Keeps patience) (λ name. segments-Returns n _)

  any_path-Returns : Returns (any_path patience)
  unfolding any_path
  any_path-Returns = after_draw 0 10 _ (omega arith) (λ n _.
      after_text _ _ (segments-Returns n [])
        (λ path. after_chance 1 3 _ (omega arith) (λ slash. returned _)))

  pub generate_path-Returns :
      (seeds : Seeds) (x : Text) → IsReady seeds → Returns (generate_path patience seeds x)
  unfolding generate_path
  generate_path-Returns seeds x ready =
      Keeps-if _ _ (mentions (lower x) "apk") _ _
        (λ _. pick-Returns u64_index _ (λ v h. refl) ready.apk_files) (λ _. any_path-Returns)
