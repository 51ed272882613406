-- ===== src/Strings/Names.antt =====
-- string_type.cpp: the tests on the name of a variable.
use fans.Base.{Bool, ◌&&◌, ◌||◌}
use fans.Base.Text.{Text, lower}
use fans.IntType.Names.{mentions}

-- bool isUrl(string varName)
abbrev pub is_url : Text → Bool
is_url x = mentions (lower x) "url"

-- bool isPath(string varName)
abbrev pub is_path : Text → Bool
is_path x = mentions (lower x) "path"

-- bool isChainName(string varName)
abbrev is_chain_name : Text → Bool
is_chain_name x = mentions (lower x) "chainname"

-- bool isNetworkInterfaceName(string varName)
abbrev pub is_network_interface_name : Text → Bool
is_network_interface_name x = mentions (lower x) "iface" || mentions (lower x) "ifname"

-- bool isPackage(string varName)
abbrev pub is_package : Text → Bool
is_package x =
    (mentions (lower x) "package" && mentions (lower x) "name")
    || mentions (lower x) "pkgname"
    || mentions (lower x) "in_app"

-- bool isPermission(string varName)
abbrev pub is_permission : Text → Bool
is_permission x = mentions (lower x) "permission"

-- The names of StringType::generate that stand for an address.
abbrev pub is_address : Text → Bool
is_address x =
    mentions x "sourceAddress"
    || mentions x "destinationAddress"
    || mentions x "localAddress"
    || mentions x "remoteAddress"
    || mentions x "ipAddress"
    || mentions x "ipAddr"
    || mentions x "srcIp"
    || mentions x "dstIp"
