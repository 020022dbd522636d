-- ===== src/Ledger.antt =====
-- cli/internal/config/config.go and cli/main.go: the records of the tunnels and services that run on
-- this machine, and the commands that add to them and take from them. A map is walked in the order
-- of its entries. The files tunnels.json and services.json are state and can always be read and
-- written. Signals that are sent are listed; whether a process is alive is a parameter.
pub mod Start
pub mod Spec
pub mod Up
pub mod Down
use roxey.Base.{
  ℕ, Bool, true, false, not, ◌&&◌, ◌||◌, List, [], ◌∷◌, ◌++◌, map, Option, none, some, Bytes, codes,
  equal, is_empty, cut, contains_byte, trim_suffix, Dict, lookup, insert, delete, select, length,
  ltb, ◌+◌, is_some, ◌==◌, if◌then◌else◌, inl, inr, ◌⊎◌,
}
use roxey.Std.Decimal.{ℤ}
use roxey.Std.Path.{dir_of, base_of, same_dir}
use roxey.Projects.{Project}

pub record TunnelInfo : Type 0 where
  pub pid : ℕ
  pub service : Bytes
  pub path_prefix : Bytes
  pub tld : Bytes
  pub target : Bytes
  pub manifest_path : Bytes
  pub started_at : Bytes
  pub log_file : Bytes

pub record ServiceInfo : Type 0 where
  pub name : Bytes
  pub pid : ℕ
  pub port : ℤ
  pub command : Bytes
  pub cwd : Bytes
  pub manifest_path : Bytes
  pub started_at : Bytes
  pub log_file : Bytes

-- what the code asks of the system: `processAlive`, a path in the log directory, the time
pub record Host : Type 0 where
  pub alive : ℕ → Bool
  pub log_path : Bytes → Bytes
  pub now : Bytes

-- `syscall.SIGTERM` to a process, and `runner.KillGroup`
pub data Signal : Type 0 where
  terminated : ℕ → Signal
  killed_group : ℕ → Signal

abbrev slash_star : Bytes
slash_star = b'/' ∷ b'*' ∷ []

-- `parseServiceSpec`
unfoldable pub parse_service_spec : Bytes → Bytes × Bytes
parse_service_spec spec =
    let (before, after, found) = cut b'/' spec in
    if found
    then (before, trim_suffix (trim_suffix (b'/' ∷ after) slash_star) (b'/' ∷ []))
    else (spec, [])

-- `tunnelKey`
unfoldable pub tunnel_key : Bytes → Bytes → Bytes
tunnel_key service path_prefix = if is_empty path_prefix then service else service ++ path_prefix

abbrev pub replace_byte : ℕ → ℕ → Bytes → Bytes
replace_byte old new = map (λ c. if c == old then new else c)

-- `stopKey`, with the signal that it sends
unfoldable pub stop_key : Dict TunnelInfo → Bytes → Dict TunnelInfo × List Signal
stop_key tunnels k = elim (lookup k tunnels) [
  | none ↦ (tunnels, [])
  | some info ↦ (delete k tunnels, terminated info.pid ∷ [])
]

abbrev keys_where : (TunnelInfo → Bool) → Dict TunnelInfo → List Bytes
keys_where p tunnels = map (λ (e : Bytes × TunnelInfo). e.0) (select (λ e. p e.1) tunnels)

-- `keysToStop`
unfoldable pub keys_to_stop : Dict TunnelInfo → Bytes → List Bytes
unfolding parse_service_spec tunnel_key
keys_to_stop tunnels spec =
    let (service, path_prefix) = parse_service_spec spec in
    let key = tunnel_key service path_prefix in
    if is_some (lookup key tunnels)
    then key ∷ []
    else if contains_byte b'/' spec
    then []
    else keys_where (λ info. equal info.service service) tunnels

unfoldable pub stop_keys : Dict TunnelInfo → List Bytes → Dict TunnelInfo × List Signal
unfolding stop_key
stop_keys tunnels [] = (tunnels, [])
stop_keys tunnels (k ∷ ks) =
    let (left, sent) = stop_key tunnels k in
    let (rest, later) = stop_keys left ks in (rest, sent ++ later)

-- `cmdStop`; `none` is the error that nothing is found.
unfoldable pub cmd_stop : Dict TunnelInfo → Bytes → Option (Dict TunnelInfo × List Signal)
unfolding keys_to_stop stop_keys
cmd_stop tunnels spec = elim (keys_to_stop tunnels spec) [
  | [] ↦ none
  | k ∷ ks ↦ some (stop_keys tunnels (k ∷ ks))
]

-- tunnels.json and services.json
pub record Ledger : Type 0 where
  pub tunnels : Dict TunnelInfo
  pub services : Dict ServiceInfo

-- the loops that stop the tunnels, and kill the services, of some entries
unfoldable pub stop_where :
    (Bytes × TunnelInfo → Bool) → Dict TunnelInfo → Dict TunnelInfo × List Signal
stop_where p tunnels = (
  select (λ e. not (p e)) tunnels,
  map (λ (e : Bytes × TunnelInfo). terminated e.1.pid) (select p tunnels),
)

unfoldable pub kill_where :
    (Bytes × ServiceInfo → Bool) → Dict ServiceInfo → Dict ServiceInfo × List Signal
kill_where p services = (
  select (λ e. not (p e)) services,
  map (λ (e : Bytes × ServiceInfo). killed_group e.1.pid) (select p services),
)

abbrev pub of_manifest : Bytes → Bytes × TunnelInfo → Bool
of_manifest path e = equal e.1.manifest_path path

abbrev pub service_of : Bytes → Bytes × ServiceInfo → Bool
service_of path e = equal e.1.manifest_path path

-- `teardownManifest`
unfoldable pub teardown_manifest : Ledger → Bytes → Ledger × List Signal
unfolding stop_where kill_where
teardown_manifest l path =
    let (tunnels, stopped) = stop_where (of_manifest path) l.tunnels in
    let (services, killed) = kill_where (service_of path) l.services in
    (record { tunnels = tunnels; services = services }, stopped ++ killed)

-- `pruneDeadServices`
unfoldable pub prune_dead_services : Host → Dict ServiceInfo → Dict ServiceInfo
prune_dead_services h services = select (λ e. h.alive e.1.pid) services

-- `svcKey`
unfoldable pub svc_key : Bytes → Bytes → Bytes
unfolding base_of dir_of
svc_key manifest_path name =
    replace_byte b':' b'_' (base_of (dir_of manifest_path)) ++ (b':' ∷ name)

-- `sanitizeName`
unfoldable pub sanitize_name : Bytes → Bytes
sanitize_name = map (λ c. if c == b'/' then b'_' else if c == b':' then b'_' else c)

pub data Status : Type 0 where
  services_only running stopped : Status

abbrev is_live_tunnel : Host → Bytes → Bytes × TunnelInfo → Bool
is_live_tunnel h path e =
    same_dir (dir_of e.1.manifest_path) path
    && (not (is_empty e.1.manifest_path) && h.alive e.1.pid)

abbrev is_live_service : Host → Bytes → Bytes × ServiceInfo → Bool
is_live_service h path e =
    same_dir e.1.manifest_path path && (not (is_empty e.1.manifest_path) && h.alive e.1.pid)

-- `projectStatus`
unfoldable pub project_status : Host → Project → Ledger → Status × ℕ
unfolding same_dir dir_of
project_status h p l =
    let live = length (select (is_live_tunnel h p.path) l.tunnels) in
    let service_live = length (select (is_live_service h p.path) l.services) in
    let total = live + service_live in
    if ltb 0 total && (ltb 0 service_live && (live == 0))
    then (services_only, total)
    else if ltb 0 total
    then (running, total)
    else (stopped, 0)
