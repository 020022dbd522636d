-- ===== src/Config.antt =====
-- cli/internal/config/config.go: the servers of config.json; and `RelayEnv` of
-- cli/internal/localrelay/ensure.go, which keeps the account of the local relay there. The file can
-- always be read and written; that there is none is an empty map.
pub mod Credentials
use roxey.Base.{
  Bool, true, false, ◌||◌, List, [], ◌∷◌, ◌++◌, map, Option, none, some, Bytes, codes, is_empty,
  Dict, lookup, insert, ◌==◌, if◌then◌else◌,
}

-- `ServerConfig`
pub record ServerConfig : Type 0 where
  pub api_key : Bytes
  pub local : Bool
  pub admin_email : Bytes
  pub admin_pass : Bytes

abbrev pub no_server : ServerConfig
no_server = record { api_key = []; local = false; admin_email = []; admin_pass = [] }

abbrev pub or_none : Option ServerConfig → ServerConfig
or_none none = no_server
or_none (some sc) = sc

-- `ServerFor`, whose first result stands for both where the callers drop the second one
abbrev pub server_for : Dict ServerConfig → Bytes → ServerConfig
server_for servers tld = or_none (lookup tld servers)

-- `SetServer`
abbrev pub set_server : Dict ServerConfig → Bytes → ServerConfig → Dict ServerConfig
set_server servers tld sc = insert tld sc servers

-- `RelayHost`
abbrev pub relay_host : Bytes → Bytes
relay_host tld = codes "roxey." ++ tld

abbrev underscored : Bytes → Bytes
underscored = map (λ c. if c == b'.' then b'_' else c)

-- the variables that `RelayEnv` gives
abbrev pub relay_vars : (Bytes → Bytes) → Bytes → ServerConfig → List Bytes
relay_vars path tld sc =
    (codes "ROXEY_DOMAIN=" ++ tld)
    ∷ (codes "ROXEY_ADMIN_HOST=" ++ relay_host tld)
    ∷ codes "ROXEY_SINGLE_USER=1"
    ∷ (codes "ROXEY_ADMIN_EMAIL=" ++ sc.admin_email)
    ∷ (codes "ROXEY_ADMIN_PASSWORD=" ++ sc.admin_pass)
    ∷ (codes "ROXEY_DB_PATH=" ++ path (codes "local_" ++ underscored tld ++ codes ".db"))
    ∷ codes "PORT=443"
    ∷ (codes "ROXEY_TLS_CERT=" ++ path (codes "certs/leaf.crt"))
    ∷ (codes "ROXEY_TLS_KEY=" ++ path (codes "certs/leaf.key"))
    ∷ []

-- an account for the local relay, made of two random tokens
abbrev pub new_account : ServerConfig → Bytes → Bytes → ServerConfig
new_account sc first second = record {
  api_key = sc.api_key;
  local = true;
  admin_email = first ++ codes "@localhost";
  admin_pass = second;
}

abbrev pub lacks_account : ServerConfig → Bool
lacks_account sc = is_empty sc.admin_email || is_empty sc.admin_pass

-- `RelayEnv` with what `ServerFor` gives; `path` is a path in the state directory, and the tokens
-- are those of `RandomToken`.
abbrev pub relay_env_with :
    (Bytes → Bytes)
    → Dict ServerConfig
    → Bytes
    → Bytes
    → Bytes
    → ServerConfig
    → Dict ServerConfig × List Bytes
relay_env_with path servers tld first second sc =
    let made = new_account sc first second in
    if lacks_account sc
    then (set_server servers tld made, relay_vars path tld made)
    else (servers, relay_vars path tld sc)

-- `RelayEnv`
unfoldable pub relay_env :
    (Bytes → Bytes) → Dict ServerConfig → Bytes → Bytes → Bytes → Dict ServerConfig × List Bytes
relay_env path servers tld first second =
    relay_env_with path servers tld first second (server_for servers tld)

-- what `cmdAuth` saves
unfoldable pub save_key : Dict ServerConfig → Bytes → Bytes → Dict ServerConfig
save_key servers tld api_key = set_server servers tld (record no_server { api_key = api_key })
