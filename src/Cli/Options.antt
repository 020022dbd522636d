-- ===== src/Cli/Options.antt =====
-- cli/main.go: the options of `up`, `down`, `start`, `auth`, `projects`, `doctor` and the daemon.
use roxey.Base.{
  Bool, true, false, not, ◌&&◌, ◌||◌, List, [], ◌∷◌, ◌++◌, Option, none, some, Bytes, codes, equal,
  is_empty, has_prefix, trim_prefix, Dict, lookup, if◌then◌else◌,
}
use roxey.Std.Path.{clean}
use roxey.Projects.{Project}
use roxey.Cli.{Step, failed, one, two, Scanned, invalid, scanned, scan}

pub data ArgError : Type 0 where
  unexpected : Bytes → ArgError
  no_secret empty_secret usage no_state_dir : ArgError
  project_and_file : ArgError
  unknown_project : Bytes → ArgError

-- `upOptions`
pub record UpOptions : Type 0 where
  pub detach : Bool
  pub preview : Bool
  pub preview_slug : Bytes
  pub online : Bool
  pub protect : Bytes
  pub manifest_file : Bytes
  pub project : Bytes

pub record UpState : Type 0 where
  pub opts : UpOptions
  pub protect_set : Bool

abbrev pub no_options : UpOptions
no_options = record {
  detach = false;
  preview = false;
  preview_slug = [];
  online = false;
  protect = [];
  manifest_file = [];
  project = [];
}

abbrev set_protect : UpState → Bytes → UpState
set_protect s secret = record { opts = record s.opts { protect = secret }; protect_set = true }

abbrev protect_with : UpState → Option Bytes → Step UpState ArgError
protect_with s none = failed no_secret
protect_with s (some b) =
    if has_prefix b (codes "--") then failed no_secret else two (set_protect s b)

abbrev project_with : UpState → Bytes → Option Bytes → Step UpState ArgError
project_with s a none = failed (unexpected a)
project_with s a (some b) = two (record s { opts = record s.opts { project = b } })

-- the body of the loop of `parseUpOptions`
unfoldable pub up_step : UpState → Bytes → Option Bytes → Step UpState ArgError
up_step s a next =
    let o = s.opts in
    if equal a (codes "-d") || equal a (codes "--detach")
    then one (record s { opts = record o { detach = true } })
    else if equal a (codes "--preview")
    then one (record s { opts = record o { preview = true } })
    else if has_prefix a (codes "--preview=")
    then one (record s {
      opts = record o { preview = true; preview_slug = trim_prefix a (codes "--preview=") };
    })
    else if equal a (codes "--online")
    then one (record s { opts = record o { online = true } })
    else if equal a (codes "--protect")
    then protect_with s next
    else if has_prefix a (codes "--protect=")
    then one (set_protect s (trim_prefix a (codes "--protect=")))
    else if equal a (codes "--project")
    then project_with s a next
    else if has_prefix a (codes "--project=")
    then one (record s { opts = record o { project = trim_prefix a (codes "--project=") } })
    else if is_empty o.manifest_file && not (has_prefix a (codes "-"))
    then one (record s { opts = record o { manifest_file = a } })
    else failed (unexpected a)

abbrev pub with_secret : Scanned UpState ArgError → Scanned UpOptions ArgError
with_secret (invalid e) = invalid e
with_secret (scanned s) =
    if s.protect_set && is_empty s.opts.protect then invalid empty_secret else scanned s.opts

-- `parseUpOptions`
unfoldable pub parse_up_options : List Bytes → Scanned UpOptions ArgError
unfolding scan up_step
parse_up_options args =
    with_secret (scan up_step (record { opts = no_options; protect_set = false }) args)

-- the manifest and the project that `down` and `doctor` are given
pub record Place : Type 0 where
  pub file : Bytes
  pub project : Bytes

abbrev pub no_place : Place
no_place = record { file = []; project = [] }

abbrev named_or_file : Place → Bytes → Option Bytes → Step Place ArgError
named_or_file s a (some b) = two (record s { project = b })
named_or_file s a none =
    if is_empty s.file then one (record s { file = a }) else failed (unexpected a)

-- the body of the loop of `cmdDown`
unfoldable pub down_step : Place → Bytes → Option Bytes → Step Place ArgError
down_step s a next =
    if equal a (codes "-d") || equal a (codes "--detach")
    then one s
    else if has_prefix a (codes "--project=")
    then one (record s { project = trim_prefix a (codes "--project=") })
    else if equal a (codes "--project")
    then named_or_file s a next
    else named_or_file s a none

abbrev manifest_of : Bytes → Bytes
manifest_of dir = clean (dir ++ codes "/roxey.yaml")

abbrev default_file : Bytes → Bytes
default_file file = if is_empty file then codes "roxey.yaml" else file

-- the manifest that `up` and `down` work on: of a project, or the file, or the one in the directory
unfoldable pub manifest_file : Dict Project → Place → Scanned Bytes ArgError
unfolding clean
manifest_file registry s =
    if is_empty s.project
    then scanned (default_file s.file)
    else if not (is_empty s.file)
    then invalid project_and_file
    else elim (lookup s.project registry) [
      | none ↦ invalid (unknown_project s.project)
      | some p ↦ scanned (manifest_of p.path)
    ]

-- the options of `start`
pub record StartArgs : Type 0 where
  pub rest : List Bytes
  pub protect : Bytes

abbrev start_other : StartArgs → Bytes → StartArgs
start_other s a =
    if has_prefix a (codes "--protect=")
    then record s { protect = trim_prefix a (codes "--protect=") }
    else record s { rest = s.rest ++ (a ∷ []) }

abbrev start_next : StartArgs → Bytes → Option Bytes → Step StartArgs ArgError
start_next s a (some b) = two (record s { protect = b })
start_next s a none = one (start_other s a)

-- the body of the loop of `cmdStart`
unfoldable pub start_step : StartArgs → Bytes → Option Bytes → Step StartArgs ArgError
start_step s a next =
    if equal a (codes "--protect") then start_next s a next else one (start_other s a)

-- what `cmdStart` goes on with: the service with its path, the target, and the secret
pub record StartRequest : Type 0 where
  pub spec : Bytes
  pub target : Bytes
  pub protect : Bytes

abbrev pub start_request : Scanned StartArgs ArgError → Scanned StartRequest ArgError
start_request (invalid e) = invalid e
start_request (scanned s) = elim s.rest [
  | [] ↦ invalid usage
  | spec ∷ more ↦ elim more [
    | [] ↦ invalid usage
    | target ∷ ignored ↦ scanned (record { spec = spec; target = target; protect = s.protect })
  ]
]

unfoldable pub start_options : List Bytes → Scanned StartRequest ArgError
unfolding scan start_step
start_options args = start_request (scan start_step (record { rest = []; protect = [] }) args)

-- the arguments of `_daemon` and `_install-daemon`
pub record DaemonArgs : Type 0 where
  pub state_dir : Bytes
  pub relay_bin : Bytes

abbrev daemon_other : DaemonArgs → Bytes → DaemonArgs
daemon_other s a =
    if has_prefix a (codes "--state-dir=")
    then record s { state_dir = trim_prefix a (codes "--state-dir=") }
    else if has_prefix a (codes "--relay-bin=")
    then record s { relay_bin = trim_prefix a (codes "--relay-bin=") }
    else s

abbrev daemon_next : DaemonArgs → Bytes → Bytes → Step DaemonArgs ArgError
daemon_next s a b =
    if equal a (codes "--state-dir")
    then two (record s { state_dir = b })
    else if equal a (codes "--relay-bin")
    then two (record s { relay_bin = b })
    else one (daemon_other s a)

-- the body of the loops of `cmdDaemon` and `cmdInstallDaemon`
unfoldable pub daemon_step : DaemonArgs → Bytes → Option Bytes → Step DaemonArgs ArgError
daemon_step s a none = one (daemon_other s a)
daemon_step s a (some b) = daemon_next s a b

abbrev pub with_state_dir : Scanned DaemonArgs ArgError → Scanned DaemonArgs ArgError
with_state_dir (invalid e) = invalid e
with_state_dir (scanned s) = if is_empty s.state_dir then invalid no_state_dir else scanned s

unfoldable pub daemon_options : List Bytes → Scanned DaemonArgs ArgError
unfolding scan daemon_step
daemon_options args =
    with_state_dir (scan daemon_step (record { state_dir = []; relay_bin = [] }) args)
