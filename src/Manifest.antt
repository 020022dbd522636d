-- ===== src/Manifest.antt =====
-- cli/manifest/manifest.go: the manifest of a project and its validation. Error texts are
-- constructors, without the place that they name. What the code asks of the file system and of
-- net.ParseIP is a parameter.
pub mod Validated
pub mod Ports
use roxey.Base.{
  ℕ, Bool, true, false, not, ◌&&◌, ◌||◌, List, [], ◌∷◌, map, Option, none, some, Bytes, codes,
  equal, is_empty, split, trim_suffix, has_prefix, lower, ltb, any, all, if◌then◌else◌, Dict,
  lookup, insert, is_some,
}
use roxey.Std.Decimal.{ℤ, pos, negsuc}
use roxey.Std.Label.{dashed, label_matches_star}

pub record System : Type 0 where
  pub is_ip : Bytes → Bool
  pub is_abs : Bytes → Bool
  pub join_path : Bytes → Bytes → Bytes
  pub is_dir : Bytes → Bool

pub record RelayServer : Type 0 where
  pub tld : Bytes
  pub api_key : Bytes
  pub local : Bool

-- A route; its environment values are left out.
pub record Route : Type 0 where
  pub path : Bytes
  pub name : Bytes
  pub target : Bytes
  pub command : Bytes
  pub cwd : Bytes
  pub port : ℤ

pub record Environment : Type 0 where
  pub host : Bytes
  pub protect : Bytes
  pub routes : List Route

pub record Manifest : Type 0 where
  pub relay_server : RelayServer
  pub environments : List Environment
  pub dir : Bytes
  pub host_map : Dict Bytes
  pub assigned_host_map : Dict Bytes

pub data ManifestError : Type 0 where
  relay_required tld_required invalid_tld key_with_local no_environment : ManifestError
  invalid_host duplicate_host no_route path_start duplicate_path : ManifestError
  address_and_command invalid_port invalid_name name_is_host duplicate_name : ManifestError
  missing_cwd name_without_command nothing_to_do : ManifestError

pub data Checked {ℓ} (A : Type ℓ) : Type ℓ where
  valid : A → Checked A
  invalid : ManifestError → Checked A

-- `IsRun`
abbrev pub is_run : Route → Bool
is_run r = not (is_empty r.command)

-- `hostRe`
abbrev pub host_word : Bytes → Bool
host_word l = label_matches_star dashed l

abbrev pub listed : Bytes → List Bytes → Bool
listed s = any (equal s)

abbrev pub is_nil {ℓ} : {A : Type ℓ} → List A → Bool
is_nil [] = true
is_nil (x ∷ xs) = false

-- the test of a port that is out of range
abbrev pub bad_port : ℤ → Bool
bad_port (pos n) = ltb 65535 n
bad_port (negsuc n) = true

-- `checkRouteName`; `none` is no error
unfoldable pub check_route_name : Bytes → List Bytes → List Bytes → Option ManifestError
check_route_name name hosts seen =
    if is_empty name
    then none
    else if not (host_word name)
    then some invalid_name
    else if listed name hosts
    then some name_is_host
    else if listed name seen
    then some duplicate_name
    else none

module _ (sys : System) where
  -- `validTLD`
  unfoldable pub valid_tld : Bytes → Bool
  valid_tld tld =
      equal tld (map lower tld)
      && all host_word (split b'.' (trim_suffix tld (codes ".")))
      && not (sys.is_ip tld)

  -- `validHost`
  unfoldable pub valid_host : Bytes → Bool
  valid_host host =
      let h = trim_suffix host (codes ".") in
      not (is_empty h) && not (sys.is_ip h) && all host_word (split b'.' h)

  -- the first loop of `validateEnvironments`
  unfoldable pub check_hosts : List Bytes → List Environment → Option ManifestError
  check_hosts seen [] = none
  check_hosts seen (env ∷ envs) =
      let rest = check_hosts (env.host ∷ seen) envs in
      if is_empty env.host || not (valid_host env.host)
      then some invalid_host
      else if listed env.host seen
      then some duplicate_host
      else rest

  -- the working directory of a spawned route
  abbrev pub place : Bytes → Route → Checked Route
  place dir r =
      let cwd = if sys.is_abs r.cwd then r.cwd else sys.join_path dir r.cwd in
      if is_empty r.cwd
      then valid (record r { cwd = dir })
      else if sys.is_dir cwd
      then valid (record r { cwd = cwd })
      else invalid missing_cwd

  -- the body of the loop over the routes
  unfoldable pub check_route : Bytes → List Bytes → List Bytes → List Bytes → Route → Checked Route
  check_route dir hosts names paths r =
      if not (has_prefix r.path (codes "/"))
      then invalid path_start
      else if listed r.path paths
      then invalid duplicate_path
      else if is_run r
      then (if not (is_empty r.target)
          then invalid address_and_command
          else if bad_port r.port
          then invalid invalid_port
          else elim (check_route_name r.name hosts names) [
            | some why ↦ invalid why
            | none ↦ place dir r
          ])
      else if not (is_empty r.name)
      then invalid name_without_command
      else if is_empty r.target
      then invalid nothing_to_do
      else valid r

  -- the names that are taken behind a route
  abbrev pub names_after : List Bytes → Route → List Bytes
  names_after names r = if is_run r && not (is_empty r.name) then r.name ∷ names else names

  -- the inner loop, with the routes as it leaves them and the names taken
  unfoldable pub check_routes :
      Bytes → List Bytes → List Bytes → List Bytes → List Route → Checked (List Route × List Bytes)
  unfolding check_route
  check_routes dir hosts names paths [] = valid ([], names)
  check_routes dir hosts names paths (r ∷ rs) =
      let rest = check_routes dir hosts (names_after names r) (r.path ∷ paths) rs in
      elim (check_route dir hosts names paths r) [
        | invalid why ↦ invalid why
        | valid r' ↦ elim rest [
          | invalid why ↦ invalid why
          | valid (rs', taken) ↦ valid (r' ∷ rs', taken)
        ]
      ]

  -- the outer loop
  unfoldable pub check_environments :
      Bytes → List Bytes → List Bytes → List Environment → Checked (List Environment)
  unfolding check_routes
  check_environments dir hosts names [] = valid []
  check_environments dir hosts names (env ∷ envs) =
      if is_nil env.routes
      then invalid no_route
      else elim (check_routes dir hosts names [] env.routes) [
        | invalid why ↦ invalid why
        | valid (routes, taken) ↦ elim (check_environments dir hosts taken envs) [
          | invalid why ↦ invalid why
          | valid rest ↦ valid (record env { routes = routes } ∷ rest)
        ]
      ]

  -- `validateEnvironments`
  unfoldable pub validate_environments : Manifest → Checked Manifest
  unfolding check_hosts check_environments
  validate_environments m =
      if is_nil m.environments
      then invalid no_environment
      else elim (check_hosts [] m.environments) [
        | some why ↦ invalid why
        | none ↦
            elim (check_environments m.dir (map (λ (e : Environment). e.host) m.environments) []
              m.environments) [
                | invalid why ↦ invalid why
                | valid envs ↦ valid (record m { environments = envs })
              ]
      ]

  -- `DefaultLocalTLD`, which a local relay without a domain gets
  abbrev pub with_default : RelayServer → RelayServer
  with_default rs = if is_empty rs.tld && rs.local then record rs { tld = codes "dev" } else rs

  -- `Validate`
  unfoldable pub validate : Manifest → Checked Manifest
  validate m =
      let rs = with_default m.relay_server in
      if is_empty m.relay_server.tld && not m.relay_server.local && is_empty m.relay_server.api_key
      then invalid relay_required
      else if is_empty rs.tld
      then invalid tld_required
      else if not (valid_tld rs.tld)
      then invalid invalid_tld
      else if rs.local && not (is_empty rs.api_key)
      then invalid key_with_local
      else validate_environments (record m { relay_server = rs })

-- `initHostMap`
unfoldable pub init_host_map : Manifest → Manifest
init_host_map m = record m { host_map = add_hosts m.environments m.host_map }
  where
    add_hosts : List Environment → Dict Bytes → Dict Bytes
    add_hosts [] d = d
    add_hosts (e ∷ es) d =
        add_hosts es (if is_some (lookup e.host d) then d else insert e.host e.host d)
