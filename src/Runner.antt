-- ===== src/Runner.antt =====
-- cli/runner/runner.go: the command line of a service, and the loops that wait for its port and for
-- its end.
pub mod Quoted
pub mod Wait
use roxey.Base.{
  ℕ, zero, suc, ◌+◌, ◌/◌, ltb, map, not, Bool, true, false, List, [], ◌∷◌, ◌++◌, Option, none, some,
  Bytes, ◌||◌, ◌==◌, if◌then◌else◌,
}

pub data CommandError : Type 0 where
  unterminated : ℕ → CommandError
  empty_command : CommandError

pub data Words : Type 0 where
  words : List Bytes → Words
  refused : CommandError → Words

abbrev pub is_quote : ℕ → Bool
is_quote c = c == 39 || c == 34

abbrev pub is_separator : ℕ → Bool
is_separator c = c == 32 || (c == 9 || c == 10)

-- `flush`: the words with the current one behind them, if there is one
abbrev pub flush : List Bytes → Bytes → Bool → List Bytes
flush out cur in_word = if in_word then out ++ (cur ∷ []) else out

abbrev pub finish : List Bytes → Words
finish [] = refused empty_command
finish (w ∷ ws) = words (w ∷ ws)

-- the loop of `splitCommand` and what is behind it, with `out`, `cur`, `inWord` and `quote`
unfoldable pub split_onto : List Bytes → Bytes → Bool → Option ℕ → Bytes → Words
split_onto out cur in_word (some q) [] = refused (unterminated q)
split_onto out cur in_word none [] = finish (flush out cur in_word)
split_onto out cur in_word (some q) (c ∷ s) =
    let closed = split_onto out cur in_word none s in
    let inside = split_onto out (cur ++ (c ∷ [])) in_word (some q) s in
    if c == q then closed else inside
split_onto out cur in_word none (c ∷ s) =
    let quoted = split_onto out cur true (some c) s in
    let flushed = split_onto (flush out cur in_word) [] false none s in
    let longer = split_onto out (cur ++ (c ∷ [])) true none s in
    if is_quote c then quoted else if is_separator c then flushed else longer

-- `splitCommand`
unfoldable pub split_command : Bytes → Words
unfolding split_onto
split_command s = split_onto [] [] false none s

-- A loop that asks until a deadline, as there are in `waitPortOrExit`, `KillGroup`, `ReclaimPort`,
-- `waitHelper` and `waitRelay`. `asks n` is what the question number `n` gives: success, an end
-- without success, or a sleep and the next question. `took n` is how long the question and what
-- else delays it take. Times are in milliseconds.
pub data Asked : Type 0 where
  succeeded gave_up not_yet : Asked

pub data Waited : Type 0 where
  ready : ℕ → Waited
  ended : ℕ → Waited
  timed_out : ℕ → Waited
  out_of_fuel : Waited

module _ (asks : ℕ → Asked) (took : ℕ → ℕ) (period deadline : ℕ) where
  unfoldable pub wait_from : ℕ → ℕ → ℕ → Waited
  wait_from zero n now = out_of_fuel
  wait_from (suc fuel) n now =
      let later = wait_from fuel (suc n) (now + took n + period) in
      if ltb now deadline
      then (elim (asks n) [ succeeded ↦ ready n | gave_up ↦ ended n | not_yet ↦ later ])
      else timed_out n

-- The whole loop, from time 0, with fuel for one question in each period and the last look at the
-- clock.
unfoldable pub wait : (ℕ → Asked) → (ℕ → ℕ) → ℕ → ℕ → Waited
unfolding wait_from
wait asks took period timeout =
    wait_from asks took period timeout (suc (suc (timeout / period))) 0 0

-- `waitPortOrExit`: whether the port takes a connection, or else the child has exited
abbrev pub port_answer : Bool → Bool → Asked
port_answer true exited = succeeded
port_answer false true = gave_up
port_answer false false = not_yet

unfoldable pub wait_port_or_exit : (ℕ → Bool) → (ℕ → Bool) → (ℕ → ℕ) → ℕ → Waited
unfolding wait
wait_port_or_exit connects exited took timeout =
    wait (λ n. port_answer (connects n) (exited n)) took 250 timeout

-- `waitHelper` and `waitRelay`
abbrev pub sooner : Bool → Asked
sooner true = succeeded
sooner false = not_yet

unfoldable pub wait_healthy : (ℕ → Bool) → (ℕ → ℕ) → ℕ → Waited
unfolding wait
wait_healthy healthy took timeout = wait (λ n. sooner (healthy n)) took 300 timeout

-- signals to a group or to a process
pub data Sent : Type 0 where
  term kill : ℕ → Sent

-- what is sent behind the loop that waits for the end
abbrev pub send_kill : List Sent → Waited → List Sent
send_kill kills (ready n) = []
send_kill kills (ended n) = []
send_kill kills (timed_out n) = kills
send_kill kills out_of_fuel = []

-- `KillGroup`, for the group of a process; `alive n` is what `alive` says the time number `n`.
unfoldable pub kill_group : ℕ → (ℕ → Bool) → (ℕ → ℕ) → List Sent
unfolding wait
kill_group zero alive took = []
kill_group (suc p) alive took =
    term (suc p) ∷ send_kill (kill (suc p) ∷ []) (wait (λ n. sooner (not (alive n))) took 100 5000)

abbrev none_left : List ℕ → Bool
none_left [] = true
none_left (p ∷ ps) = false

-- `ReclaimPort`; `listeners n` is what `PortListeners` gives the time number `n` in the loop, and
-- `first` and `last` before and behind it.
unfoldable pub reclaim_port : List ℕ → (ℕ → List ℕ) → List ℕ → (ℕ → ℕ) → List Sent × List ℕ
unfolding wait
reclaim_port [] listeners last took = ([], [])
reclaim_port (p ∷ ps) listeners last took = (
  map term (p ∷ ps)
      ++ send_kill (map kill last) (wait (λ n. sooner (none_left (listeners n))) took 100 5000),
  p ∷ ps,
)
