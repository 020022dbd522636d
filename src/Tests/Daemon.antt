-- ===== src/Tests/Daemon.antt =====
-- The root daemon of a user with one local project.
use roxey.Base.{
  ◌≡◌, ◌⊎◌, ◌≢◌, refl, ap, ℕ, arith, false, true, List, [], ◌∷◌, Option, some, Bytes, codes,
}
use roxey.Projects.{Project}
use roxey.Hosts.{merge_hosts_block, render_block}
use roxey.Helper.Supervisor.{
  System, new_supervisor, Event, ensured, stopped, exited, went_on, step, run,
}
use roxey.Helper.Supervisor.Owned.{IsOwned, new_supervisor-IsOwned, run-IsOwned}
use roxey.Helper.Supervisor.Stopped.{run-restarted}
use roxey.Helper.Dispatch.{
  Request, Daemon, Outcome, Peer, no_unix_conn, unknown_uid, peer, handle_conn,
}
use roxey.Helper.Dispatch.Authority.{IsAuthorized, handle_conn-hosts_file}

abbrev dev : Bytes
dev = codes "dev"

-- a relay that ended, and whose restart is near
abbrev crash : List Event
crash = ensured dev true ∷ exited 0 ∷ went_on 0 true ∷ []

run-IsOwned_example : IsOwned (run new_supervisor crash)
run-IsOwned_example = run-IsOwned new_supervisor crash new_supervisor-IsOwned

abbrev started : System
started = run new_supervisor (ensured dev true ∷ [])

abbrev crashed : System
crashed = run new_supervisor crash

run-restarted_example :
    ((run crashed (stopped ∷ went_on 0 true ∷ [])).supervisor
      ≡ record { tld = dev; cmd = some crashed.next })
    × ((run crashed (stopped ∷ went_on 0 true ∷ [])).live ≡ crashed.next ∷ [])
unfolding run step new_supervisor
run-restarted_example =
    run-restarted crashed 0 dev (run-IsOwned new_supervisor crash new_supervisor-IsOwned) refl

abbrev project : Project
project = record {
  name = codes "app";
  path = codes "/home/u/app";
  tld = dev;
  local = true;
  hosts = codes "app" ∷ [];
  preview = false;
  branch = [];
  auto_start = false;
  added_at = [];
}

abbrev daemon : Daemon
daemon = record {
  uid = 501;
  relay = some new_supervisor;
  registry = some ((codes "app", project) ∷ []);
  hosts_file = codes "127.0.0.1 localhost";
  ca_trusted = false;
}

abbrev fine : Outcome
fine = record {
  hosts_read = true;
  hosts_written = true;
  starts = true;
  certs_made = true;
  ca_found = true;
  ca_trusts = true;
  health = λ tld. true;
  pid = 1;
}

abbrev request : Option Request
request = some (record { op = codes "sync_hosts"; hosts = codes "app.dev" ∷ [] })

handle_conn-hosts_file_example :
    ((handle_conn daemon fine (peer 501) request).0.hosts_file ≡ daemon.hosts_file)
    ⊎ ((hosts : List Bytes) × IsAuthorized daemon (peer 501) request hosts
        × ((handle_conn daemon fine (peer 501) request).0.hosts_file
            ≡ merge_hosts_block daemon.hosts_file (render_block hosts)))
handle_conn-hosts_file_example = handle_conn-hosts_file daemon fine (peer 501) request

abbrev peer_uid : Peer → ℕ
peer_uid no_unix_conn = 0
peer_uid unknown_uid = 0
peer_uid (peer uid) = uid

other_peer : peer 502 ≢ peer 501
other_peer e = let same : 502 ≡ 501 = ap peer_uid e in absurd (ground arith)
