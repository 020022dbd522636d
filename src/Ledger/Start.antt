-- ===== src/Ledger/Start.antt =====
-- cli/main.go: `startOne`, the arguments that it gives to the worker process, and `cmdRun`, which reads
-- them.
use roxey.Base.{
  ℕ, not, ◌||◌, List, [], ◌∷◌, ◌++◌, Option, none, some, inl, inr, ◌⊎◌, Bytes, codes, is_empty,
  Dict, lookup, insert, if◌then◌else◌,
}
use roxey.Ledger.{TunnelInfo, Host, tunnel_key, replace_byte}

-- the arguments of `startOne`
pub record Start : Type 0 where
  pub tld : Bytes
  pub service : Bytes
  pub path_prefix : Bytes
  pub target : Bytes
  pub protect : Bytes
  pub gate_group : Bytes
  pub manifest_path : Bytes

-- the arguments of the worker process, behind `_run`
unfoldable pub run_args : Start → List Bytes
run_args s =
    (s.tld ∷ s.service ∷ s.path_prefix ∷ s.target ∷ [])
    ++ ((if not (is_empty s.protect) || not (is_empty s.gate_group) then s.protect ∷ [] else [])
        ++ (if is_empty s.gate_group then [] else s.gate_group ∷ []))

-- what `cmdRun` hands to `worker.Run`; `none` is the error of its usage.
pub record Worker : Type 0 where
  pub tld : Bytes
  pub service : Bytes
  pub path_prefix : Bytes
  pub target : Bytes
  pub protect : Bytes
  pub gate_group : Bytes

-- `args[i]` of the arguments that may be left out
abbrev first_arg : List Bytes → Bytes
first_arg [] = []
first_arg (a ∷ args) = a

abbrev later_args : List Bytes → List Bytes
later_args [] = []
later_args (a ∷ args) = args

-- `cmdRun`
unfoldable pub cmd_run : List Bytes → Option Worker
cmd_run (tld ∷ service ∷ path_prefix ∷ target ∷ rest) = some (record {
  tld = tld;
  service = service;
  path_prefix = path_prefix;
  target = target;
  protect = first_arg rest;
  gate_group = first_arg (later_args rest);
})
cmd_run _ = none

pub data StartError : Type 0 where
  already_running : Bytes → ℕ → StartError
  not_spawned : StartError

abbrev pub tunnel_info : Host → Start → ℕ → TunnelInfo
tunnel_info h s pid = record {
  pid = pid;
  service = s.service;
  path_prefix = s.path_prefix;
  tld = s.tld;
  target = s.target;
  manifest_path = s.manifest_path;
  started_at = h.now;
  log_file =
      h.log_path (replace_byte b'/' b'_' (tunnel_key s.service s.path_prefix) ++ codes ".log");
}

-- the process that the key has already, if it is alive
unfoldable pub running_pid : Host → Dict TunnelInfo → Bytes → Option ℕ
running_pid h tunnels key = elim (lookup key tunnels) [
  | none ↦ none
  | some info ↦ if h.alive info.pid then some info.pid else none
]

-- the part of `startOne` behind the lookup
abbrev pub start_unless :
    Host → Option ℕ → Dict TunnelInfo → Start → Option ℕ → StartError ⊎ Dict TunnelInfo
start_unless h spawned tunnels s (some pid) =
    inl (already_running (tunnel_key s.service s.path_prefix) pid)
start_unless h none tunnels s none = inl not_spawned
start_unless h (some pid) tunnels s none =
    inr (insert (tunnel_key s.service s.path_prefix) (tunnel_info h s pid) tunnels)

-- `startOne`; `spawned` is the process that the system starts, if it does.
unfoldable pub start_one : Host → Option ℕ → Dict TunnelInfo → Start → StartError ⊎ Dict TunnelInfo
unfolding running_pid tunnel_key
start_one h spawned tunnels s =
    start_unless h spawned tunnels s (running_pid h tunnels (tunnel_key s.service s.path_prefix))
