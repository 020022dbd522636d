-- ===== src/Ledger/Down.antt =====
-- cli/main.go: `cmdDown`, from the reading of the manifest on, in the mode without a control plane.
pub mod Removed
use roxey.Base.{
  ℕ, Bool, true, false, not, ◌&&◌, ◌||◌, List, [], ◌∷◌, ◌++◌, Option, none, some, Bytes, codes,
  equal, is_empty, has_prefix, has_suffix, Dict, select, any, length, if◌then◌else◌,
}
use roxey.Std.Path.{same_dir}
use roxey.Manifest.{Environment}
use roxey.Projects.{Project, forget, all_local_hosts}
use roxey.Ledger.{
  TunnelInfo, ServiceInfo, Host, Signal, Ledger, stop_where, kill_where, of_manifest, service_of,
}

-- `sameHost`
unfoldable pub same_host : Bytes → List Environment → Bool
same_host key environments =
    any (λ e. equal key e.host || has_prefix key (e.host ++ (b'/' ∷ []))) environments

-- a tunnel of the manifest, or one started by hand for a host of the manifest
abbrev pub is_down : Bytes → List Environment → Bytes × TunnelInfo → Bool
is_down path environments e =
    of_manifest path e || (is_empty e.1.manifest_path && same_host e.0 environments)

-- the loop that forgets what is registered for a directory; the map is walked as it was before.
unfoldable pub forget_dir : Bytes → Dict Project → Dict Project → Dict Project
unfolding same_dir forget
forget_dir dir [] registry = registry
forget_dir dir ((n, p) ∷ ps) registry =
    let forgotten = forget_dir dir ps (forget registry p.name).0 in
    let passed = forget_dir dir ps registry in if same_dir p.path dir then forgotten else passed

-- `localrelay.NeedsHosts`
abbrev pub needs_hosts : Bytes → Bool
needs_hosts tld = not (equal tld (codes "localhost")) && not (has_suffix tld (codes ".localhost"))

-- the manifest, as far as `cmdDown` reads it
pub record Down : Type 0 where
  pub path : Bytes
  pub dir : Bytes
  pub tld : Bytes
  pub local : Bool
  pub environments : List Environment

-- `synced` is the list that goes to `syncHostsAny`, if it is called.
pub record Downed : Type 0 where
  pub ledger : Ledger
  pub registry : Dict Project
  pub signals : List Signal
  pub synced : Option (List Bytes)
  pub stopped : ℕ
  pub killed : ℕ

-- `cmdDown`
unfoldable pub down : Down → Ledger → Dict Project → Downed
unfolding same_host stop_where kill_where forget_dir all_local_hosts
down d l registry =
    let (tunnels, stopped) = stop_where (is_down d.path d.environments) l.tunnels in
    let (services, killed) = kill_where (service_of d.path) l.services in
    let left = forget_dir d.dir registry registry in
    record {
      ledger = record { tunnels = tunnels; services = services };
      registry = left;
      signals = stopped ++ killed;
      synced = if d.local && needs_hosts d.tld then some (all_local_hosts left) else none;
      stopped = length stopped;
      killed = length killed;
    }

-- `anySurvivorOn`
unfoldable pub any_survivor_on : Host → Ledger → Bytes → Bool
any_survivor_on h l tld =
    any (λ (e : Bytes × TunnelInfo). h.alive e.1.pid && equal e.1.tld tld) l.tunnels
    || any (λ (e : Bytes × ServiceInfo). h.alive e.1.pid) l.services
