-- ===== src/Tests/Processes.antt =====
-- A command line, a port, and a tunnel that drops.
use Prim.Native.Nat.{min}
use roxey.Base.{
  ℕ, ◌+◌, ◌≤◌, ◌≡◌, refl, arith, false, true, List, [], ◌∷◌, ◌++◌, none, some, Bytes, codes, length,
  Bool, leb→le, leb, join, map, take, Dict, insert, lookup,
}
use roxey.Runner.{words, split_command, wait_port_or_exit, kill_group}
use roxey.Runner.Quoted.{quoted, word_of, split_command-join}
use roxey.Runner.Wait.{IsPortEnd, IsEnded, wait_port_or_exit-IsPortEnd, kill_group-IsEnded}
use roxey.Tunnel.{
  waiting, HoldEvent, dropped, dialled, hold, hold_run, second, longest_wait, Reader, WsConn, read,
}
use roxey.Tunnel.Backoff.{failures, doubled, hold_run-outage, hold_run-waiting}
use roxey.Tunnel.Bytestream.{IsReader, IsRead, stream, read-IsRead}
use roxey.Std.Path.{clean}
use roxey.Projects.{Project}
use roxey.Projects.Register.{is_free, Registration, new_project, register_project}
use roxey.Projects.Register.Named.{register_project-is_free}
use roxey.Cli.{scanned}
use roxey.Cli.Options.{UpOptions, parse_up_options, start_options}
use roxey.Cli.Render.{render, parse_up_options-render, start_options-unprotected}

abbrev shell : ℕ × Bytes
shell = (39, codes "bash")

abbrev script : ℕ × Bytes
script = (34, codes "set -a && exec air")

split_command-join_example :
    split_command (join (32 ∷ []) (map quoted (shell ∷ script ∷ [])))
    ≡ words (map word_of (shell ∷ script ∷ []))
unfolding roxey.Base.contains_byte
split_command-join_example =
    split_command-join shell (script ∷ []) ((refl, refl), ((refl, refl), tt))

abbrev from_third : ℕ → Bool
from_third n = leb 2 n

wait_port_or_exit-IsPortEnd_example :
    IsPortEnd from_third
      (λ n. false)
      (λ n. 5)
      1000
      (wait_port_or_exit from_third (λ n. false) (λ n. 5) 1000)
wait_port_or_exit-IsPortEnd_example =
    wait_port_or_exit-IsPortEnd from_third (λ n. false) (λ n. 5) 1000

kill_group-IsEnded_example : IsEnded 7 (λ n. true) (λ n. 0) (kill_group 7 (λ n. true) (λ n. 0))
kill_group-IsEnded_example = kill_group-IsEnded 6 (λ n. true) (λ n. 0)

abbrev restart : List HoldEvent
restart = dropped ∷ dialled false ∷ dialled true ∷ []

hold_run-outage_example :
    (hold_run hold (restart ++ (dropped ∷ failures 6))
      ≡ waiting (min (doubled 6 second) longest_wait))
    × (hold_run hold (restart ++ (dropped ∷ failures 6) ++ (dialled true ∷ [])) ≡ hold)
unfolding hold_run
hold_run-outage_example = hold_run-outage restart second 6 refl

hold_run-waiting_example : (second ≤ 2000) × (2000 ≤ longest_wait)
unfolding hold_run
hold_run-waiting_example = hold_run-waiting (dropped ∷ dialled false ∷ []) 2000 refl

-- a reader that gives as much as fits, and tells the end with the last bytes
abbrev eager : Reader
eager = record { gives = λ size rest. size; ends = λ size rest. leb (length rest) size }

eager-IsReader : IsReader eager
eager-IsReader = record {
  fits = λ size rest. omega arith;
  complete = λ size rest h. leb→le (length rest) size h;
}

abbrev conn : WsConn
conn = record { reader = some []; messages = [] ∷ codes "hello" ∷ [] }

read-IsRead_example : IsRead 2 (stream conn) (read eager 2 conn)
read-IsRead_example = read-IsRead eager eager-IsReader 2 conn

abbrev taken : Project
taken = record {
  name = codes "app";
  path = codes "/a/app";
  tld = codes "dev";
  local = true;
  hosts = [];
  preview = false;
  branch = [];
  auto_start = true;
  added_at = [];
}

abbrev registry : Dict Project
registry = (codes "app", taken) ∷ []

abbrev registration : Registration
registration = record {
  dir_path = codes "/b/app/";
  tld = codes "dev";
  local = true;
  hosts = [];
  branch = [];
  preview = false;
  now = [];
}

register_project-is_free_example :
    (name : Bytes) × (register_project registry registration
      ≡ some (insert name (new_project registration name) registry, name))
    × (is_free (clean registration.dir_path) (lookup name registry) ≡ true)
register_project-is_free_example = register_project-is_free registry registration

abbrev options : UpOptions
options = record {
  detach = true;
  preview = true;
  preview_slug = codes "fix";
  online = false;
  protect = codes "--s";
  manifest_file = codes "roxey.yaml";
  project = [];
}

parse_up_options-render_example : parse_up_options (render options) ≡ scanned options
parse_up_options-render_example = parse_up_options-render options tt refl

start_options-unprotected_example :
    start_options (codes "app" ∷ codes "3000" ∷ codes "--protect" ∷ [])
    ≡ scanned (record { spec = codes "app"; target = codes "3000"; protect = [] })
unfolding roxey.Base.equal roxey.Base.has_prefix
start_options-unprotected_example =
    start_options-unprotected (codes "app") (codes "3000") (refl, refl) (refl, refl)
