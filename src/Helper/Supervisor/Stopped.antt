-- ===== src/Helper/Supervisor/Stopped.antt =====
-- cli/internal/helper/relay.go: what `Stop` prevents, and what it does not.
use roxey.Base.{
  ◌||◌, ℕ, zero, suc, ap, ◌∙◌, inl, inr, ◌≡◌, refl, Bool, true, false, List, [], ◌∷◌, Option, none,
  some, arith, Bytes, All, get_elem?, remove_at, Bool-cases, Option-cases,
}
use mathlib.Core.Path.{subst, sym}
use roxey.Helper.Supervisor.{
  is_live, Watcher, waiting, sleeping, System, stop_locked, start_locked, is_serving, ensure,
  observe, Event, ensured, stopped, exited, went_on, go_on, step, run,
}
use roxey.Helper.Supervisor.Owned.{IsOwned, live-stop_locked, cmd-stop_locked}

abbrev IsWaiting : Watcher → Type 0
IsWaiting (waiting tld p) = Unit {0}
IsWaiting (sleeping tld) = ⊥

-- No process runs that was not killed, and no goroutine is about to start one.
record IsQuiet (s : System) : Type 0 where
  pub idle : s.supervisor.cmd ≡ none
  pub dead : s.live ≡ []
  pub awake : All IsWaiting s.watchers

abbrev is_call : Event → Bool
is_call (ensured tld starts) = true
is_call stopped = false
is_call (exited p) = false
is_call (went_on i starts) = false

All-remove_at : (ws : List Watcher) (i : ℕ) → All IsWaiting ws → All IsWaiting (remove_at ws i)
All-remove_at [] i h = h
All-remove_at (w ∷ ws) zero h = h.1
All-remove_at (w ∷ ws) (suc i) h = (h.0, All-remove_at ws i h.1)

All-get_elem? :
    (ws : List Watcher) (i : ℕ) (w : Watcher)
    → get_elem? ws i ≡ some w
    → All IsWaiting ws
    → IsWaiting w
All-get_elem? [] i w g h = absurd (ground arith)
All-get_elem? (v ∷ ws) zero w g h = let same : v ≡ w = ground arith in subst IsWaiting same h.0
All-get_elem? (v ∷ ws) (suc i) w g h = All-get_elem? ws i w g h.1

go_on-IsQuiet :
    (s : System) (i : ℕ) (starts : Bool) (w : Option Watcher)
    → get_elem? s.watchers i ≡ w
    → IsQuiet s
    → IsQuiet (go_on s i starts w)
unfolding observe
go_on-IsQuiet s i starts none g q = q
go_on-IsQuiet s i starts (some (sleeping tld)) g q =
    absurd (All-get_elem? s.watchers i (sleeping tld) g q.awake)
go_on-IsQuiet s i starts (some (waiting tld p)) g q =
    elim (Bool-cases (is_live p s.live || is_live p s.killed)) [
      | inl e ↦ rw e q
      | inr e ↦
          rw (e, q.idle)
            (record { idle = refl; dead = q.dead; awake = All-remove_at s.watchers i q.awake })
    ]

step-IsQuiet : (s : System) (e : Event) → is_call e ≡ false → IsQuiet s → IsQuiet (step s e)
unfolding step stop_locked
step-IsQuiet s (ensured tld starts) c q = absurd (ground arith)
step-IsQuiet s stopped c q =
    let same : stop_locked s ≡ s = rw q.idle refl in subst IsQuiet (sym same) q
step-IsQuiet s (exited p) c q = record { idle = q.idle; dead = rw q.dead refl; awake = q.awake }
step-IsQuiet s (went_on i starts) c q = go_on-IsQuiet s i starts (get_elem? s.watchers i) refl q

run-IsQuiet :
    (s : System) (es : List Event)
    → All (λ e. is_call e ≡ false) es
    → IsQuiet s
    → IsQuiet (run s es)
unfolding run
run-IsQuiet s [] c q = q
run-IsQuiet s (e ∷ es) c q = run-IsQuiet (step s e) es c.1 (step-IsQuiet s e c.0 q)

watchers-stop_locked : (s : System) → (stop_locked s).watchers ≡ s.watchers
unfolding stop_locked
watchers-stop_locked s = elim (Option-cases s.supervisor.cmd) [
  | inl c ↦ let same : stop_locked s ≡ s = rw c refl in ap (λ t. t.watchers) same
  | inr (p, c) ↦ rw c refl
]

-- When no goroutine sleeps before a restart, then after `Stop` nothing is started until the next
-- call of `Ensure`, whatever processes end and goroutines go on in between.
pub run-stopped :
    (s : System) (es : List Event)
    → IsOwned s
    → All IsWaiting s.watchers
    → All (λ e. is_call e ≡ false) es
    → (run (step s stopped) es).live ≡ []
unfolding step
run-stopped s es v w c =
    (run-IsQuiet (stop_locked s) es c (record {
      idle = cmd-stop_locked s;
      dead = live-stop_locked s v;
      awake = rw (watchers-stop_locked s) w;
    })).dead

next-stop_locked : (s : System) → (stop_locked s).next ≡ s.next
unfolding stop_locked
next-stop_locked s = elim (Option-cases s.supervisor.cmd) [
  | inl c ↦ let same : stop_locked s ≡ s = rw c refl in ap (λ t. t.next) same
  | inr (p, c) ↦ rw c refl
]

supervisor-ensure :
    (s : System) (tld : Bytes)
    → s.supervisor.cmd ≡ none
    → s.live ≡ []
    → ((ensure s tld true).supervisor ≡ record { tld = tld; cmd = some s.next })
      × ((ensure s tld true).live ≡ s.next ∷ [])
unfolding ensure
supervisor-ensure s tld c l =
    let same : stop_locked s ≡ s = rw c refl in
    let off : is_serving s.supervisor tld ≡ false = rw c refl in
    rw off (
      ap (λ t. (start_locked t tld true).supervisor) same,
      ap (λ t. (start_locked t tld true).live) same ∙ ap (◌∷◌ s.next) l,
    )

-- A goroutine that sleeps before a restart is not told of a `Stop`: when it goes on and the start
-- succeeds, a new process is the supervisor's again, for the domain that the goroutine's own process
-- had, and it is the only one that runs and was not killed.
pub run-restarted :
    (s : System) (i : ℕ) (tld : Bytes)
    → IsOwned s
    → get_elem? s.watchers i ≡ some (sleeping tld)
    → ((run s (stopped ∷ went_on i true ∷ [])).supervisor ≡ record { tld = tld; cmd = some s.next })
      × ((run s (stopped ∷ went_on i true ∷ [])).live ≡ s.next ∷ [])
unfolding run step
run-restarted s i tld v g =
    let same : get_elem? (stop_locked s).watchers i ≡ some (sleeping tld) =
      ap (λ ws. get_elem? ws i) (watchers-stop_locked s) ∙ g in
    let after =
      supervisor-ensure (record (stop_locked s) { watchers = remove_at (stop_locked s).watchers i })
        tld (cmd-stop_locked s) (live-stop_locked s v) in
    (
      ap (λ w. (go_on (stop_locked s) i true w).supervisor) same
          ∙ after.0
          ∙ ap (λ n. record { tld = tld; cmd = some n }) (next-stop_locked s),
      ap (λ w. (go_on (stop_locked s) i true w).live) same
          ∙ after.1
          ∙ ap (λ n. n ∷ []) (next-stop_locked s),
    )
