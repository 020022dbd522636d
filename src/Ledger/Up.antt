-- ===== src/Ledger/Up.antt =====
-- cli/main.go: the part of `cmdUp` that stops what is left of the last run, reclaims the ports, starts
-- the services and opens the tunnels, in the mode without a control plane.
pub mod Covered
pub mod Served
pub mod Signals
use roxey.Base.{
  ℕ, suc, Bool, true, false, not, ◌&&◌, ◌||◌, List, [], ◌∷◌, ◌++◌, map, Option, none, some, inl,
  inr, Bytes, codes, is_empty, trim_suffix, Dict, insert, any, if◌then◌else◌,
}
use roxey.Std.Decimal.{ℤ, pos, negsuc, format_nat}
use roxey.Manifest.{Route, Environment, is_run}
use roxey.Ledger.{
  TunnelInfo, ServiceInfo, Host, Signal, Ledger, stop_where, kill_where, of_manifest, service_of,
  prune_dead_services, svc_key, sanitize_name,
}
use roxey.Runner.{Sent, reclaim_port}
use roxey.Ledger.Start.{Start, StartError, start_one, run_args}

-- `runRoute`
pub record RunRoute : Type 0 where
  pub name : Bytes
  pub env : Bytes
  pub protect : Bytes
  pub route : Route

abbrev pub run_route : Environment → Route → RunRoute
run_route e r = record { name = e.host ++ r.path; env = e.host; protect = e.protect; route = r }

-- `runs` and `proxyRoutes`
unfoldable pub routes_of : Environment → List Route → List RunRoute × List RunRoute
routes_of e [] = ([], [])
routes_of e (r ∷ rs) =
    let (runs, proxies) = routes_of e rs in
    if is_run r then (run_route e r ∷ runs, proxies) else (runs, run_route e r ∷ proxies)

unfoldable pub collect_routes : List Environment → List RunRoute × List RunRoute
unfolding routes_of
collect_routes [] = ([], [])
collect_routes (e ∷ es) =
    let (runs, proxies) = routes_of e e.routes in
    let (more_runs, more_proxies) = collect_routes es in
    (runs ++ more_runs, proxies ++ more_proxies)

-- `hasProtectedEnvironment`
unfoldable pub has_protected : List Environment → Bool
has_protected environments = any (λ e. not (is_empty e.protect)) environments

abbrev pub own_and_alive : Host → Bytes → Bytes × TunnelInfo → Bool
own_and_alive h path e = of_manifest path e && h.alive e.1.pid

-- what this manifest left running is stopped
unfoldable pub stop_leftovers : Host → Bytes → Ledger → Ledger × List Signal
unfolding prune_dead_services kill_where stop_where
stop_leftovers h path l =
    let (services, killed) = kill_where (service_of path) (prune_dead_services h l.services) in
    let (tunnels, stopped) = stop_where (own_and_alive h path) l.tunnels in
    (record { tunnels = tunnels; services = services }, killed ++ stopped)

abbrev service_info : Host → Bytes → Bool → RunRoute → ℕ → ServiceInfo
service_info h path detach r pid = record {
  name = r.name;
  pid = pid;
  port = r.route.port;
  command = r.route.command;
  cwd = r.route.cwd;
  manifest_path = path;
  started_at = h.now;
  log_file = if detach then h.log_path (sanitize_name r.name ++ codes ".log") else [];
}

-- `startService`, for each run-route; `pids` says what the system starts, in turn.
unfoldable pub start_services :
    Host
    → Bytes
    → Bool
    → (ℕ → Option ℕ)
    → ℕ
    → Dict ServiceInfo
    → List RunRoute
    → Dict ServiceInfo × List Bytes
unfolding svc_key sanitize_name
start_services h path detach pids i services [] = (services, [])
start_services h path detach pids i services (r ∷ rs) = elim (pids i) [
  | none ↦
      let (after, failed) = start_services h path detach pids (suc i) services rs in
      (after, r.name ∷ failed)
  | some pid ↦
      start_services h path detach pids (suc i)
        (insert (svc_key path r.name) (service_info h path detach r pid) services) rs
]

abbrev pub port_text : ℤ → Bytes
port_text (pos n) = format_nat n
port_text (negsuc n) = b'-' ∷ format_nat (suc n)

abbrev pub route_target : Route → Bytes
route_target r = if is_run r then codes "localhost:" ++ port_text r.port else r.target

-- what `up` asks `startOne` for
abbrev pub tunnel_of : Bytes → Bytes → Bytes → RunRoute → Start
tunnel_of tld gate_group path r = record {
  tld = tld;
  service = r.env;
  path_prefix = trim_suffix r.route.path (b'/' ∷ []);
  target = route_target r.route;
  protect = r.protect;
  gate_group = gate_group;
  manifest_path = path;
}

-- the loop over `startOne`, with the error that ends it
unfoldable pub start_tunnels :
    Host → (ℕ → Option ℕ) → ℕ → Dict TunnelInfo → List Start → Dict TunnelInfo × Option StartError
unfolding start_one
start_tunnels h pids i tunnels [] = (tunnels, none)
start_tunnels h pids i tunnels (s ∷ ss) = elim (start_one h (pids i) tunnels s) [
  | inl e ↦ (tunnels, some e)
  | inr after ↦ start_tunnels h pids (suc i) after ss
]

-- what `ReclaimPort` sees on the port of one route: the listeners before its loop, at each question
-- and behind it, and how long the questions take
pub record Reclaim : Type 0 where
  pub first : List ℕ
  pub during : ℕ → List ℕ
  pub last : List ℕ
  pub took : ℕ → ℕ

-- the loop over `ReclaimPort`, from run-route number `i` on
unfoldable pub reclaim_ports : (ℕ → Reclaim) → ℕ → List RunRoute → List Sent
unfolding reclaim_port
reclaim_ports seen i [] = []
reclaim_ports seen i (r ∷ rs) =
    (reclaim_port (seen i).first (seen i).during (seen i).last (seen i).took).0
    ++ reclaim_ports seen (suc i) rs

-- what `cmdUp` is told: the manifest with its path, the flag, a new group, what listens on the ports,
-- and what starts
pub record Up : Type 0 where
  pub path : Bytes
  pub tld : Bytes
  pub environments : List Environment
  pub detach : Bool
  pub new_group : Bytes
  pub ports : ℕ → Reclaim
  pub service_pids : ℕ → Option ℕ
  pub tunnel_pids : ℕ → Option ℕ

pub record Result : Type 0 where
  pub ledger : Ledger
  pub signals : List Signal
  pub reclaimed : List Sent
  pub failed : List Bytes
  pub error : Option StartError

abbrev pub starts_of : Up → List Start
starts_of u =
    let (runs, proxies) = collect_routes u.environments in
    let gate_group = if has_protected u.environments then u.new_group else [] in
    map (tunnel_of u.tld gate_group u.path) (runs ++ proxies)

-- `cmdUp`, from the restart on
unfoldable pub up : Host → Up → Ledger → Result
unfolding collect_routes has_protected stop_leftovers start_services start_tunnels reclaim_ports
up h u l =
    let (left, signals) = stop_leftovers h u.path l in
    let (services, failed) =
      start_services h u.path u.detach u.service_pids 0 left.services
        (collect_routes u.environments).0 in
    let (tunnels, error) = start_tunnels h u.tunnel_pids 0 left.tunnels (starts_of u) in
    record {
      ledger = record { tunnels = tunnels; services = services };
      signals = signals;
      reclaimed = reclaim_ports u.ports 0 (collect_routes u.environments).0;
      failed = failed;
      error = error;
    }
