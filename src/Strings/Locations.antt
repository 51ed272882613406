-- ===== src/Strings/Locations.antt =====
-- string_type.cpp: URLs and paths.
use fans.Base.{ℕ, zero, suc, ◌==◌, [], ◌++◌, if◌then◌else◌, ◌||◌}
use fans.Base.Text.{Text, codes, lower}
use fans.Exec.{Exec, pure, ◌>>=◌}
use fans.Random.{random_uint64, n_out_of, Source}
use fans.IntType.Names.{named, mentions}
use fans.Strings.{Seeds, uniformly, pick, u32_index, u64_index}
use fans.Strings.Chars.{random_alphanum_string, random_generate}

module _ (patience : ℕ) where
  -- The loops of generateUrl: words with a separator between them.
  unfoldable pub words : Text → ℕ → Exec Source Text
  words separator zero = pure []
  words separator (suc more) = do
    size ← uniformly (random_uint64 1 10)
    word ← random_alphanum_string patience size
    rest ← words separator more
    pure (word ++ ((if more == 0 then [] else separator) ++ rest))

  unfoldable pub any_url : Exec Source Text
  any_url = do
    plain ← uniformly (n_out_of 1 2)
    n ← uniformly (random_uint64 2 5)
    host ← words (codes ".") n
    k ← uniformly (random_uint64 0 5)
    path ← words (codes "/") k
    pure ((if plain then codes "http://" else codes "https://") ++ (host ++ path))

  -- string generateUrl(string varName)
  unfoldable pub generate_url : Seeds → Text → Exec Source Text
  generate_url seeds x =
      if named (lower x) "url" || named (lower x) "srcurl"
      then pick u32_index seeds.media_urls
      else if named (lower x) "in_url"
      then pure (codes "http://127.0.0.1:8080/payload")
      else any_url

  -- The loop of generatePath, which appends to `path`.
  unfoldable pub segments : ℕ → Text → Exec Source Text
  segments zero path = pure path
  segments (suc n) path = do
    name ← random_generate patience
    segments n (path ++ (codes "/" ++ name))

  unfoldable pub any_path : Exec Source Text
  any_path = do
    n ← uniformly (random_uint64 0 10)
    path ← segments n []
    slash ← uniformly (n_out_of 1 3)
    pure (if slash then path ++ codes "/" else path)

  -- string generatePath(string varName): the keys of apkFDPool are the names of files.
  unfoldable pub generate_path : Seeds → Text → Exec Source Text
  generate_path seeds x =
      if mentions (lower x) "apk" then pick u64_index seeds.apk_files else any_path
