-- ===== src/IntType/Draws.antt =====
-- `generate` of int_type.h.
use native.Mathlib.Nat.{one-le-pow, mod-lt}
use Prim.Native.String.{String}
use mathlib.Core.Bool.{true≢false}
use fans.Base.{
  ℕ, ◌^◌, ◌<◌, ◌≡◌, refl, sym, ◌∙◌, Bool, true, false, List, [], ◌∷◌, ◌++◌, arith, le→leb, All,
}
use fans.Base.Text.{Text, codes}
use fans.Base.Map.{Map}
use fans.Exec.{Exec}
use fans.Exec.Succeeds.{Sure, Sure-pure, Sure-if, Sure-bind}
use fans.Random.{Rng}
use fans.IntType.{Platform, first_rule}
use fans.IntType.Names.{named}
use fans.IntType.Choices.{
  Rules, is_enum, enum_rules, identity_rules, stream_rules, other_rules, rules, generate_int,
}
use fans.IntType.Bounds.{
  on-Sure, special_int-Sure, special_ints-Is64, Is64, custom_random_uint64-Sure, generate_size-Sure,
  generate_msg_type-Sure,
}
use fans.IntType.Parts.{
  Any, any, drawn, generate_pid-Sure, generate_uid-Sure, generate_channel_mask-Sure,
  generate_socket_port-Sure, generate_socket_addr-Sure, generate_sin_family-Sure, random_enum-Sure,
}

-- A branch comes back if its condition holds.
abbrev IsSafe : (Bool × Exec Rng ℕ) → Type 0
IsSafe (condition, branch) = condition ≡ true → Sure Any branch

first_rule-Sure :
    (rs : Rules) (otherwise : Exec Rng ℕ)
    → All IsSafe rs
    → Sure Any otherwise
    → Sure Any (first_rule rs otherwise)
unfolding first_rule
first_rule-Sure [] otherwise h k = k
first_rule-Sure ((condition, branch) ∷ rs) otherwise h k =
    Sure-if Any condition branch (first_rule rs otherwise) h.0
      (λ _. first_rule-Sure rs otherwise h.1 k)

All-append : (xs ys : Rules) → All IsSafe xs → All IsSafe ys → All IsSafe (xs ++ ys)
All-append [] ys h k = k
All-append (x ∷ xs) ys h k = (h.0, All-append xs ys h.1 k)

-- The enumerations that generate names.
abbrev pub enum_names : List String
enum_names =
    "enum audio_source_t" ∷ "enum android::video_source" ∷ "enum android::output_format"
    ∷ "enum android::audio_encoder" ∷ "enum android::video_encoder"
    ∷ "enum android::AudioSystem::sync_event_t" ∷ "enum android_pixel_format_t"
    ∷ "enum effect_command_e"
    ∷ "enum android::ISurfaceComposer::(anonymous at frameworks.native.libs.gui.include.gui.ISurfaceComposer.h:61:5)"
    ∷ "enum android::(anonymous at frameworks.av.media.libmedia.include.media.mediametadataretriever.h:35:1)"
    ∷ "enum (anonymous at system.media.audio.include.system.audio-base.h:289:1)" ∷ []

module _ (p : Platform) (enum_info : Map (List ℕ)) (width : ℕ) (x t : Text)
    (known : All (λ name. is_enum enum_info (codes name) ≡ true) enum_names)
    (no_sensor : named x "sensor" ≡ false) where
  enum_rules-IsSafe : All IsSafe (enum_rules p enum_info width x t)
  unfolding enum_rules
  enum_rules-IsSafe = (
    (λ e.
        Sure-if _ (named t "enum android::DrmPlugin::SecurityLevel") _ _ (λ _. Sure-pure _ _ tt)
          (λ _. random_enum-Sure enum_info t e)),
    (
      (λ _. random_enum-Sure enum_info _ known.0),
      (
        (λ _. random_enum-Sure enum_info _ known.1.0),
        (
          (λ _. random_enum-Sure enum_info _ known.1.1.0),
          (
            (λ _. random_enum-Sure enum_info _ known.1.1.1.0),
            (
              (λ _. random_enum-Sure enum_info _ known.1.1.1.1.0),
              (
                (λ _. random_enum-Sure enum_info _ known.1.1.1.1.1.0),
                (
                  (λ _. random_enum-Sure enum_info _ known.1.1.1.1.1.1.0),
                  (
                    (λ _. random_enum-Sure enum_info _ known.1.1.1.1.1.1.1.0),
                    (
                      (λ _. random_enum-Sure enum_info _ known.1.1.1.1.1.1.1.1.0),
                      (
                        (λ _. random_enum-Sure enum_info _ known.1.1.1.1.1.1.1.1.1.0),
                        ((λ _. random_enum-Sure enum_info _ known.1.1.1.1.1.1.1.1.1.1.0), tt),
                      ),
                    ),
                  ),
                ),
              ),
            ),
          ),
        ),
      ),
    ),
  )

  identity_rules-IsSafe : All IsSafe (identity_rules p enum_info width x t)
  unfolding identity_rules
  identity_rules-IsSafe = (
    (λ _.
        Sure-if _ (named x "in_clientPid") _ _ (λ _. Sure-pure _ _ tt) (λ _. generate_pid-Sure p)),
    (
      (λ _.
          Sure-if _ (named x "in_clientUid") _ _ (λ _. Sure-pure _ _ tt) (λ _. generate_uid-Sure)),
      (
        (λ _. drawn 0 _ (le→leb 0 _ (omega arith))),
        (
          (λ _. drawn 1 6 refl),
          (
            (λ _. Sure-bind _ _ _ _ (drawn 0 1 refl) (λ _ _. Sure-pure _ _ tt)),
            (
              (λ _. drawn 0 1 refl),
              (
                (λ _. drawn 1 2 refl),
                (
                  (λ e. absurd (true≢false (sym e ∙ no_sensor))),
                  (
                    (λ _. drawn 0 3 refl),
                    (
                      (λ _. drawn 0 7 refl),
                      (
                        (λ _. any generate_msg_type-Sure),
                        (
                          (λ _. drawn 1 11 refl),
                          (
                            (λ _. drawn 0 1 refl),
                            (
                              (λ _. generate_channel_mask-Sure),
                              (
                                (λ _. Sure-pure _ _ tt),
                                ((λ _. drawn 1 2 refl), ((λ _. any generate_size-Sure), tt)),
                              ),
                            ),
                          ),
                        ),
                      ),
                    ),
                  ),
                ),
              ),
            ),
          ),
        ),
      ),
    ),
  )

  stream_rules-IsSafe : All IsSafe (stream_rules p enum_info width x t)
  unfolding stream_rules
  stream_rules-IsSafe = (
    (λ _. generate_sin_family-Sure p),
    (
      (λ _. generate_socket_port-Sure),
      (
        (λ _. generate_socket_addr-Sure p),
        (
          (λ _. Sure-bind _ _ _ _ (drawn 0 5 refl) (λ _ _. Sure-pure _ _ tt)),
          (
            (λ _. drawn 0 2147483647 refl),
            (
              (λ _. Sure-bind _ _ _ _ (drawn 7999 1600000 refl) (λ _ _. Sure-pure _ _ tt)),
              (
                (λ _. drawn 0 8 refl),
                (
                  (λ _. drawn 1 2 refl),
                  (
                    (λ _. any (special_int-Sure 41 Is64 special_ints-Is64 (omega arith))),
                    (
                      (λ _.
                          on-Sure _ 8 10 _ _ (omega arith) (Sure-pure _ _ tt)
                            (any (special_int-Sure 41 Is64 special_ints-Is64 (omega arith)))),
                      (
                        (λ _. drawn 0 100 refl),
                        (
                          (λ _.
                              on-Sure _ 8 10 _ _ (omega arith) (Sure-pure _ _ tt) (drawn 1 3 refl)),
                          (
                            (λ _.
                                on-Sure _ 5 10 _ _ (omega arith) (drawn 0 2 refl)
                                  (any custom_random_uint64-Sure)),
                            (
                              (λ _.
                                  on-Sure _ 2 3 _ _ (omega arith) (Sure-pure _ _ tt)
                                    (Sure-pure _ _ tt)),
                              tt,
                            ),
                          ),
                        ),
                      ),
                    ),
                  ),
                ),
              ),
            ),
          ),
        ),
      ),
    ),
  )

  other_rules-IsSafe : All IsSafe (other_rules p enum_info width x t)
  unfolding other_rules
  other_rules-IsSafe = (
    (λ _. drawn 1 4 refl),
    (
      (λ _. drawn 1 30 refl),
      (
        (λ _. drawn 0 10 refl),
        (
          (λ _. on-Sure _ 1 2 _ _ (omega arith) (Sure-pure _ _ tt) (Sure-pure _ _ tt)),
          (
            (λ _. on-Sure _ 1 2 _ _ (omega arith) (Sure-pure _ _ tt) (Sure-pure _ _ tt)),
            (
              (λ _. on-Sure _ 1 2 _ _ (omega arith) (Sure-pure _ _ tt) (Sure-pure _ _ tt)),
              (
                (λ _. drawn 0 10 refl),
                (
                  (λ _. drawn 0 128 refl),
                  (
                    (λ _. drawn 1 2 refl),
                    ((λ _. drawn 10000 10021 refl), ((λ _. drawn 0 3 refl), tt)),
                  ),
                ),
              ),
            ),
          ),
        ),
      ),
    ),
  )

  rules-IsSafe : All IsSafe (rules p enum_info width x t)
  rules-IsSafe = All-append (enum_rules p enum_info width x t) _ enum_rules-IsSafe (
      All-append (identity_rules p enum_info width x t) _ identity_rules-IsSafe
        (All-append (stream_rules p enum_info width x t) _ stream_rules-IsSafe other_rules-IsSafe))

  -- For every sequence of draws generate returns, with a value of the width of T, if the
  -- enumerations that it names are known and the variable is not called "sensor".
  pub generate_int-Sure : Sure (λ v. v < 2 ^ width) (generate_int p enum_info width x t)
  unfolding generate_int
  generate_int-Sure =
      Sure-bind Any _ _ _
        (on-Sure Any 7 10 _ _ (omega arith)
          (first_rule-Sure _ _ rules-IsSafe (any custom_random_uint64-Sure))
          (any custom_random_uint64-Sure))
        (λ v _. Sure-pure _ _ (mod-lt v (one-le-pow width 2 (omega arith))))
