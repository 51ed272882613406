-- ===== src/IntType/Names.antt =====
-- int_type.h: the tests on the name and the type of a variable.
use Prim.Native.String.{String}
use fans.Base.{Bool, ◌&&◌, ◌||◌}
use fans.Base.Text.{Text, codes, text_eq, contains, lower}

abbrev pub named : Text → String → Bool
named x name = text_eq x (codes name)

abbrev pub mentions : Text → String → Bool
mentions x part = contains x (codes part)

-- bool isPid(string varName, string varType)
abbrev pub is_pid : Text → Text → Bool
is_pid x t = named t "pid_t" || named x "pid" || named x "tid" || mentions x "Pid"

-- bool isUid(string varName, string varType)
abbrev pub is_uid : Text → Text → Bool
is_uid x t = named t "uid_t" || mentions (lower x) "uid"

-- bool isUserId(string varName)
abbrev pub is_user_id : Text → Bool
is_user_id x = mentions (lower x) "userid"

-- bool isNetId(string varName): the second part can never occur in lower case.
abbrev is_net_id : Text → Bool
is_net_id x = mentions (lower x) "netid" || mentions (lower x) "networkIds"

-- bool isSdkVersion(string varName)
abbrev pub is_sdk_version : Text → Bool
is_sdk_version x = mentions (lower x) "sdkversion"

-- bool isSocketPort()
abbrev pub is_socket_port : Text → Text → Bool
is_socket_port x t = named t "__be16" && mentions x "port"

-- bool isSize(string varName)
abbrev pub is_size : Text → Bool
is_size x =
    mentions (lower x) "size"
    || mentions (lower x) "num"
    || mentions (lower x) "argc"
    || mentions (lower x) "vector_size"
