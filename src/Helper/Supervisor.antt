-- ===== src/Helper/Supervisor.antt =====
-- cli/internal/helper/relay.go: the supervisor of the relay process. A process is a number, and the
-- processes that run are part of the state. A goroutine of `watch` is either in `Wait` on its
-- process or asleep before its restart. The mutex makes each method, and each of the two parts of
-- `watch`, one step; which step comes next is up to the list of events.
pub mod Owned
pub mod Stopped
use roxey.Base.{
  ℕ, suc, ◌+◌, Bool, true, false, not, ◌&&◌, ◌||◌, List, [], ◌∷◌, Option, none, some, Bytes, equal,
  select, any, get_elem?, remove_at, ◌==◌, if◌then◌else◌,
}

-- `RelaySupervisor`
pub record Supervisor : Type 0 where
  pub tld : Bytes
  pub cmd : Option ℕ

pub data Watcher : Type 0 where
  -- in `cmd.Wait` for this process
  waiting : Bytes → ℕ → Watcher
  -- in the two seconds before `Ensure`
  sleeping : Bytes → Watcher

pub record System : Type 0 where
  pub supervisor : Supervisor
  -- the processes that run and were not killed; then those that run on after SIGKILL for a while
  pub live : List ℕ
  pub killed : List ℕ
  pub watchers : List Watcher
  pub next : ℕ

unfoldable pub new_supervisor : System
new_supervisor = record {
  supervisor = record { tld = []; cmd = none };
  live = [];
  killed = [];
  watchers = [];
  next = 0;
}

abbrev pub owns : Supervisor → ℕ → Bool
owns r p = elim r.cmd [ none ↦ false | some q ↦ q == p ]

abbrev pub without : ℕ → List ℕ → List ℕ
without p = select (λ q. not (q == p))

abbrev pub is_live : ℕ → List ℕ → Bool
is_live p = any (λ q. q == p)

-- `stopLocked`: SIGKILL is sent, and the end of the process is not awaited. `Kill` fails where the
-- process has ended.
unfoldable pub stop_locked : System → System
stop_locked s = elim s.supervisor.cmd [
  | none ↦ s
  | some p ↦ record s {
    supervisor = record s.supervisor { cmd = none };
    live = without p s.live;
    killed = if is_live p s.live then p ∷ s.killed else s.killed;
  }
]

-- `startLocked`, with the start of the goroutine behind it; `starts` is whether there is no error
unfoldable pub start_locked : System → Bytes → Bool → System
start_locked s tld starts =
    if starts
    then record {
      supervisor = record { tld = tld; cmd = some s.next };
      live = s.next ∷ s.live;
      killed = s.killed;
      watchers = waiting tld s.next ∷ s.watchers;
      next = suc s.next;
    }
    else s

abbrev pub is_serving : Supervisor → Bytes → Bool
is_serving r tld = elim r.cmd [ none ↦ false | some p ↦ equal r.tld tld ]

-- `Ensure`
unfoldable pub ensure : System → Bytes → Bool → System
unfolding stop_locked start_locked
ensure s tld starts =
    if is_serving s.supervisor tld then s else start_locked (stop_locked s) tld starts

-- whether `Ensure` returns no error
abbrev pub ensure_ok : System → Bytes → Bool → Bool
ensure_ok s tld starts = if is_serving s.supervisor tld then true else starts

-- the part of `watch` between `Wait` and the sleep
unfoldable pub observe : System → ℕ → Bytes → ℕ → System
observe s i tld p =
    if is_live p s.live || is_live p s.killed
    then s
    else if owns s.supervisor p
    then record s {
      supervisor = record s.supervisor { cmd = none };
      watchers = sleeping tld ∷ remove_at s.watchers i;
    }
    else record s { watchers = remove_at s.watchers i }

pub data Event : Type 0 where
  ensured : Bytes → Bool → Event
  stopped : Event
  -- a process ends, by itself or of SIGKILL
  exited : ℕ → Event
  -- the goroutine at this place goes on; `Ensure` in it starts a process or fails
  went_on : ℕ → Bool → Event

abbrev pub go_on : System → ℕ → Bool → Option Watcher → System
go_on s i starts none = s
go_on s i starts (some (waiting tld p)) = observe s i tld p
go_on s i starts (some (sleeping tld)) =
    ensure (record s { watchers = remove_at s.watchers i }) tld starts

unfoldable pub step : System → Event → System
unfolding ensure stop_locked observe
step s (ensured tld starts) = ensure s tld starts
step s stopped = stop_locked s
step s (exited p) = record s { live = without p s.live; killed = without p s.killed }
step s (went_on i starts) = go_on s i starts (get_elem? s.watchers i)

unfoldable pub run : System → List Event → System
unfolding step
run s [] = s
run s (e ∷ es) = run (step s e) es
