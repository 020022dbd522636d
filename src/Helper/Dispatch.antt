-- ===== src/Helper/Dispatch.antt =====
-- cli/internal/helper/server.go, protocol.go and daemon.go, and `writeHosts` of
-- cli/internal/localrelay/hosts.go: the requests that the root daemon answers. The registry and
-- /etc/hosts are state. What the system answers (files, the certificate store, the health check, the
-- start of a process) is a record of outcomes, one for each request.
pub mod Authority
use roxey.Base.{
  ℕ, contains_byte, trim_suffix, Bool, true, false, not, ◌&&◌, ◌||◌, List, [], ◌∷◌, ◌++◌, map,
  Option, none, some, Bytes, codes, equal, is_empty, Dict, any, ◌==◌, if◌then◌else◌,
}
use roxey.Config.{relay_host}
use roxey.Hosts.{HostError, validate_hosts, merge_hosts_block, render_block}
use roxey.Projects.{Project, all_local_hosts, primary_local_tld}
use roxey.Helper.Supervisor.{System, ensure, ensure_ok}

-- `Request`
pub record Request : Type 0 where
  pub op : Bytes
  pub hosts : List Bytes

pub data HelperError : Type 0 where
  unauthorized_peer bad_request update_hosts start_relay no_local_projects : HelperError
  ca_missing trust_failed : HelperError
  unknown_op : Bytes → HelperError
  refused : HostError → HelperError

-- `Response`
pub record Response : Type 0 where
  pub ok : Bool
  pub error : Option HelperError
  pub version : ℕ
  pub tld : Bytes
  pub relay_up : Bool
  pub trusted : Bool
  pub daemon_pid : ℕ

abbrev pub protocol_version : ℕ
protocol_version = 1

abbrev empty_response : Response
empty_response = record {
  ok = false;
  error = none;
  version = 0;
  tld = [];
  relay_up = false;
  trusted = false;
  daemon_pid = 0;
}

abbrev pub success : Response
success = record empty_response { ok = true }

abbrev pub failure : HelperError → Response
failure e = record empty_response { error = some e }

-- `Server`, with what it works on; `registry` is `none` when the file cannot be read.
pub record Daemon : Type 0 where
  pub uid : ℕ
  pub relay : Option System
  pub registry : Option (Dict Project)
  pub hosts_file : Bytes
  pub ca_trusted : Bool

pub record Outcome : Type 0 where
  pub hosts_read : Bool
  pub hosts_written : Bool
  pub starts : Bool
  pub certs_made : Bool
  pub ca_found : Bool
  pub ca_trusts : Bool
  pub health : Bytes → Bool
  pub pid : ℕ

-- `primaryTLD`, the method and the function
unfoldable pub primary_tld : Option (Dict Project) → Bytes
primary_tld none = []
primary_tld (some []) = []
primary_tld (some (p ∷ ps)) = primary_local_tld (p ∷ ps)

-- the loop of `allowedTLDs`
unfoldable pub local_tlds : List Bytes → Dict Project → List Bytes
local_tlds seen [] = []
local_tlds seen ((name, p) ∷ ps) =
    let skipped = local_tlds seen ps in
    let taken = p.tld ∷ local_tlds (p.tld ∷ seen) ps in
    if p.local && not (any (equal p.tld) seen) then taken else skipped

-- `allowedTLDs`
unfoldable pub allowed_tlds : Option (Dict Project) → List Bytes
unfolding local_tlds
allowed_tlds none = []
allowed_tlds (some projects) = local_tlds [] projects

-- `writeHosts` as root; whether there is no error
unfoldable pub write_hosts : Daemon → Outcome → Bytes → Daemon × Bool
unfolding merge_hosts_block
write_hosts d o block =
    let content = merge_hosts_block d.hosts_file block in
    if not o.hosts_read
    then (d, false)
    else if equal content d.hosts_file
    then (d, true)
    else if o.hosts_written
    then (record d { hosts_file = content }, true)
    else (d, false)

-- `SyncHosts` and `RemoveHosts` of cli/internal/localrelay/hosts.go, where the write by sudo has the
-- same outcomes
unfoldable pub rewrite_hosts : Daemon → Outcome → List Bytes → Daemon × Bool
unfolding write_hosts render_block
rewrite_hosts d o [] = (d, true)
rewrite_hosts d o (e ∷ entries) = write_hosts d o (render_block (e ∷ entries))

unfoldable pub remove_hosts : Daemon → Outcome → Daemon × Bool
unfolding write_hosts
remove_hosts d o = write_hosts d o []

-- `HostsEntries`; whether a text is an IP address is a parameter.
unfoldable pub hosts_entries : (Bytes → Bool) → Bytes → List Bytes → List Bytes
hosts_entries is_ip tld env_hosts =
    let bare = not (is_ip tld) && not (contains_byte b'.' (trim_suffix tld (b'.' ∷ []))) in
    (relay_host tld ∷ map (λ h. h ++ (b'.' ∷ tld)) env_hosts) ++ (if bare then tld ∷ [] else [])

abbrev pub start_for : Daemon → Outcome → Bytes → System → Response → Daemon × Response
start_for d o tld relay answer =
    let running = record d { relay = some (ensure relay tld o.starts) } in
    if ensure_ok relay tld o.starts then (running, answer) else (running, failure start_relay)

abbrev pub keep_serving : Daemon → Outcome → Option System → Daemon × Response
keep_serving d o none = (d, success)
keep_serving d o (some relay) =
    let tld = primary_tld d.registry in
    if is_empty tld then (d, success) else start_for d o tld relay success

-- the part of `syncHosts` behind `ValidateHosts`
abbrev pub sync_checked : Daemon → Outcome → List Bytes → Option HostError → Daemon × Response
sync_checked d o hosts (some why) = (d, failure (refused why))
sync_checked d o hosts none =
    let written = write_hosts d o (render_block hosts) in
    if written.1
    then keep_serving written.0 o written.0.relay
    else (written.0, failure update_hosts)

-- `syncHosts`
unfoldable pub sync_hosts : Daemon → Outcome → List Bytes → Daemon × Response
unfolding allowed_tlds validate_hosts write_hosts render_block primary_tld ensure
sync_hosts d o hosts = sync_checked d o hosts (validate_hosts hosts (allowed_tlds d.registry))

abbrev pub ensure_with : Daemon → Outcome → Option System → Daemon × Response
ensure_with d o none = (d, success)
ensure_with d o (some relay) =
    let tld = primary_tld d.registry in
    if is_empty tld
    then (d, failure no_local_projects)
    else start_for d o tld relay (record success { tld = tld })

-- `ensureRelay`
unfoldable pub ensure_relay : Daemon → Outcome → Daemon × Response
unfolding primary_tld ensure
ensure_relay d o = ensure_with d o d.relay

-- `trustCA`
unfoldable pub trust_ca : Daemon → Outcome → Daemon × Response
trust_ca d o =
    let answer = record success { trusted = true } in
    if not o.ca_found
    then (d, failure ca_missing)
    else if d.ca_trusted
    then (d, answer)
    else if o.ca_trusts
    then (record d { ca_trusted = true }, answer)
    else (d, failure trust_failed)

abbrev served_tld : Daemon → Bytes
served_tld d = elim d.relay [
  | none ↦ primary_tld d.registry
  | some relay ↦
      if is_empty relay.supervisor.tld then primary_tld d.registry else relay.supervisor.tld
]

-- `relayStatus`
unfoldable pub relay_status : Daemon → Outcome → Response
unfolding primary_tld
relay_status d o =
    let tld = served_tld d in
    record success { tld = tld; relay_up = not (is_empty tld) && o.health tld }

-- `handle`
unfoldable pub handle : Daemon → Outcome → Request → Daemon × Response
unfolding sync_hosts ensure_relay trust_ca relay_status
handle d o req =
    if equal req.op (codes "ping")
    then (d, record success { version = protocol_version; daemon_pid = o.pid })
    else if equal req.op (codes "sync_hosts")
    then sync_hosts d o req.hosts
    else if equal req.op (codes "ensure_relay")
    then ensure_relay d o
    else if equal req.op (codes "trust_ca")
    then trust_ca d o
    else if equal req.op (codes "relay_status")
    then (d, relay_status d o)
    else (d, failure (unknown_op req.op))

-- a connection: not of a Unix socket, or with the answer of `peerUID`
pub data Peer : Type 0 where
  no_unix_conn unknown_uid : Peer
  peer : ℕ → Peer

-- the part of `handleConn` behind the check of the peer; `none` is a message that cannot be read.
abbrev pub answer_request : Daemon → Outcome → Option Request → Daemon × Response
answer_request d o none = (d, failure bad_request)
answer_request d o (some req) = handle d o req

-- `handleConn`, with what it writes
unfoldable pub handle_conn : Daemon → Outcome → Peer → Option Request → Daemon × Option Response
unfolding handle
handle_conn d o no_unix_conn req = (d, none)
handle_conn d o unknown_uid req = (d, some (failure unauthorized_peer))
handle_conn d o (peer uid) req =
    let answered = answer_request d o req in
    if uid == d.uid then (answered.0, some answered.1) else (d, some (failure unauthorized_peer))

-- `dedupe`, with the entries that were seen
unfoldable pub dedupe : List Bytes → List Bytes → List Bytes
dedupe seen [] = []
dedupe seen (s ∷ ss) =
    let skipped = dedupe seen ss in
    let taken = s ∷ dedupe (s ∷ seen) ss in if any (equal s) seen then skipped else taken

abbrev no_hosts : List Bytes → Bool
no_hosts [] = true
no_hosts (h ∷ hs) = false

abbrev pub hosts_to_sync : Dict Project → List Bytes
hosts_to_sync projects =
    let hosts = all_local_hosts projects in
    let with_localhost = hosts ++ (codes "localhost" ∷ []) in
    dedupe []
      (if equal (primary_tld (some projects)) (codes "localhost") then with_localhost else hosts)

-- `reconcile`; whether there is no error
unfoldable pub reconcile : Daemon → Outcome → Daemon × Bool
unfolding dedupe all_local_hosts primary_tld write_hosts render_block
reconcile d o = elim d.registry [
  | none ↦ (d, false)
  | some projects ↦
      let hosts = hosts_to_sync projects in
      let trusting = record d { ca_trusted = d.ca_trusted || o.ca_trusts } in
      if no_hosts hosts
      then (d, true)
      else if not o.certs_made
      then (d, false)
      else write_hosts trusting o (render_block hosts)
]
