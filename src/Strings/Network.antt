-- ===== src/Strings/Network.antt =====
-- string_type.cpp: addresses, chains and network interfaces.
use fans.Base.{Bool, ◌||◌, List, [], ◌∷◌, ◌++◌, none, some, if◌then◌else◌, ltb}
use fans.Base.Text.{Text, codes}
use fans.Exec.{Exec, pure, exit, ◌>>=◌, no_interfaces}
use fans.Random.{random_uint64, Source}
use fans.IntType.Names.{named, mentions}
use fans.Strings.{Interface, Seeds, uniformly, pick, entry_at, u32_index, i32_index}
use fans.Strings.Decimal.{decimal}

-- string generateIP()
unfoldable pub generate_ip : Exec Source Text
generate_ip = do
  a ← uniformly (random_uint64 0 255)
  b ← uniformly (random_uint64 0 255)
  c ← uniformly (random_uint64 0 255)
  d ← uniformly (random_uint64 0 255)
  pure (decimal a ++ (b'.' ∷ (decimal b ++ (b'.' ∷ (decimal c ++ (b'.' ∷ decimal d))))))

abbrev pub dns_servers : List Text
dns_servers = codes "8.8.8.8" ∷ codes "2001:4860:4860::8888" ∷ []

-- The branch of StringType::generate for "in_servers".
abbrev pub generate_server : Exec Source Text
generate_server = do
  n ← uniformly (random_uint64 0 2)
  if ltb n 2 then entry_at dns_servers n else generate_ip

abbrev pub chain_names : List Text
chain_names = codes "INPUT" ∷ codes "OUTPUT" ∷ codes "FORWARD" ∷ []

-- string generateChainName()
abbrev pub generate_chain_name : Exec Source Text
generate_chain_name = do idx ← uniformly (random_uint64 0 2); entry_at chain_names (i32_index idx)

-- tmp.find("wlan") != string::npos || tmp == "p2p0"
abbrev pub is_wireless : Text → Bool
is_wireless name = mentions name "wlan" || named name "p2p0"

-- networkInterface["wireless"] and networkInterface["other"] after the walk through the list
unfoldable pub wireless : List Interface → List Text
wireless [] = []
wireless (i ∷ is) =
    let rest = wireless is in
    if i.is_packet then if is_wireless i.name then i.name ∷ rest else rest else rest

unfoldable pub other : List Interface → List Text
other [] = []
other (i ∷ is) =
    let rest = other is in
    if i.is_packet then if is_wireless i.name then rest else i.name ∷ rest else rest

abbrev pub pick_or : List Text → Exec Source Text → Exec Source Text
pick_or [] otherwise = otherwise
pick_or (t ∷ ts) otherwise = pick u32_index (t ∷ ts)

-- string generateNetworkInterfaceName()
unfoldable pub generate_network_interface_name : Seeds → Exec Source Text
generate_network_interface_name seeds = elim seeds.interfaces [
  | none ↦ exit no_interfaces
  | some is ↦ pick_or (wireless is) (pick_or (other is) (pure []))
]
