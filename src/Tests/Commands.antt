-- ===== src/Tests/Commands.antt =====
-- A manifest that is brought up beside a tunnel of another one.
use roxey.Base.{
  inl, ℕ, zero, suc, ◌+◌, ◌≡◌, refl, false, true, List, [], ◌∷◌, none, some, Option, Bytes, codes,
  All, lookup, Dict, equal, leb, arith,
}
use roxey.Std.Decimal.{pos}
use roxey.Std.Path.{same_dir}
use roxey.Manifest.{Route, Environment}
use roxey.Projects.{Project}
use roxey.Ledger.{TunnelInfo, Host, Ledger}
use roxey.Ledger.Start.{Start}
use roxey.Ledger.Up.{Up, Reclaim, up}
use roxey.Ledger.Up.Covered.{up-lookup}
use roxey.Ledger.Up.Served.{IsServed, up-HasTunnel}
use roxey.Ledger.Up.Signals.{IsOwn, IsReclaimed, up-IsOwn}
use roxey.Ledger.Down.{Down, down}
use roxey.Ledger.Down.Removed.{IsClean, down-IsClean}

abbrev request : Start
request = record {
  tld = codes "dev";
  service = codes "app";
  path_prefix = codes "/api";
  target = codes "localhost:3000";
  protect = [];
  gate_group = codes "up_1";
  manifest_path = codes "/w/roxey.yaml";
}

-- processes from 10 on are alive
abbrev host : Host
host = record { alive = λ p. leb 10 p; log_path = λ s. s; now = [] }

abbrev route : Route
route = record {
  path = codes "/";
  name = [];
  target = [];
  command = codes "run";
  cwd = codes "/w";
  port = pos 3000;
}

abbrev next_pid : ℕ → Option ℕ
next_pid n = some (10 + n)

abbrev path : Bytes
path = codes "/w/roxey.yaml"

-- process 40 holds the port of the route to the end
abbrev held : ℕ → Reclaim
held n = record { first = 40 ∷ []; during = λ k. 40 ∷ []; last = 40 ∷ []; took = λ k. 0 }

abbrev plan : Up
plan = record {
  path = path;
  tld = codes "dev";
  environments = record { host = codes "app"; protect = []; routes = route ∷ [] } ∷ [];
  detach = true;
  new_group = [];
  ports = held;
  service_pids = next_pid;
  tunnel_pids = next_pid;
}

abbrev foreign : TunnelInfo
foreign = record {
  pid = 12;
  service = codes "shop";
  path_prefix = [];
  tld = codes "dev";
  target = codes "localhost:1";
  manifest_path = codes "/v/roxey.yaml";
  started_at = [];
  log_file = [];
}

abbrev ledger : Ledger
ledger = record { tunnels = (codes "shop", foreign) ∷ []; services = [] }

up-lookup_example : lookup (codes "shop") (up host plan ledger).ledger.tunnels ≡ some foreign
unfolding lookup
up-lookup_example = up-lookup host plan ledger (codes "shop") foreign refl refl refl

new_pid : (n pid : ℕ) → next_pid n ≡ some pid → host.alive pid ≡ true
new_pid n pid e = let same : 10 + n ≡ pid = cc in ground arith

abbrev environment : Environment
environment = record { host = codes "app"; protect = []; routes = route ∷ [] }

up-HasTunnel_example : IsServed host plan (up host plan ledger).ledger.tunnels environment route
unfolding up lookup roxey.Base.trim_suffix
up-HasTunnel_example =
    up-HasTunnel host plan ledger environment route new_pid refl (inl refl) (inl refl)

up-IsOwn_example :
    All (IsOwn host path ledger) (up host plan ledger).signals
    × All (IsReclaimed held 1) (up host plan ledger).reclaimed
unfolding up lookup
up-IsOwn_example = up-IsOwn host plan ledger

abbrev project : Project
project = record {
  name = codes "app";
  path = codes "/w";
  tld = codes "dev";
  local = true;
  hosts = codes "app" ∷ [];
  preview = false;
  branch = [];
  auto_start = false;
  added_at = [];
}

abbrev request_down : Down
request_down = record {
  path = path;
  dir = codes "/w";
  tld = codes "dev";
  local = true;
  environments = [];
}

abbrev registry : Dict Project
registry = (codes "app", project) ∷ []

down-IsClean_example :
    IsClean path (down request_down ledger registry).ledger
    × All (λ e. same_dir e.1.path (codes "/w") ≡ false) (down request_down ledger registry).registry
down-IsClean_example = down-IsClean request_down ledger registry (refl, tt)
