-- ===== src/Helper/Supervisor/Owned.antt =====
-- cli/internal/helper/relay.go: the supervisor never loses a process that it started.
use roxey.Base.{
  ℕ, ◌≤◌, ◌≡◌, refl, Bool, true, false, not, ◌||◌, List, [], ◌∷◌, Option, none, some, arith, inl,
  inr, Bytes, All, All-map, any, any-remove_at, length, get_elem?, remove_at, ◌==◌, Bool-cases,
  Option-cases, All-select, length-select, ap, ◌∙◌,
}
use roxey.Helper.Supervisor.{
  Supervisor, Watcher, waiting, sleeping, System, new_supervisor, owns, without, is_live,
  stop_locked, start_locked, is_serving, ensure, observe, Event, ensured, stopped, exited, went_on,
  go_on, step, run,
}

abbrev pub waits_for : ℕ → Watcher → Bool
waits_for p (waiting tld q) = q == p
waits_for p (sleeping tld) = false

abbrev pub IsWatched : Option ℕ → List Watcher → Type 0
IsWatched none ws = Unit {0}
IsWatched (some p) ws = any (waits_for p) ws ≡ true

-- At most one process that was not killed runs, it is the supervisor's, and a goroutine waits for it.
pub record IsOwned (s : System) : Type 0 where
  pub owned : All (λ p. owns s.supervisor p ≡ true) s.live
  pub single : length s.live ≤ 1
  pub watched : IsWatched s.supervisor.cmd s.watchers

pub new_supervisor-IsOwned : IsOwned new_supervisor
unfolding new_supervisor
new_supervisor-IsOwned = record { owned = tt; single = omega arith; watched = tt }

-- Killing the only process that can run leaves none.
without-all : (p : ℕ) (ps : List ℕ) → All (λ q. (p == q) ≡ true) ps → without p ps ≡ []
without-all p [] h = refl
without-all p (q ∷ qs) h = ground (arith, h.0, without-all p qs h.1)

unowned : (r : Supervisor) (ps : List ℕ) → r.cmd ≡ none → All (λ q. owns r q ≡ true) ps → ps ≡ []
unowned r [] c h = refl
unowned r (q ∷ qs) c h = let bad : owns r q ≡ false = rw c refl in absurd (ground arith)

pub live-stop_locked : (s : System) → IsOwned s → (stop_locked s).live ≡ []
unfolding stop_locked
live-stop_locked s v = elim (Option-cases s.supervisor.cmd) [
  | inl c ↦ rw c (unowned s.supervisor s.live c v.owned)
  | inr (p, c) ↦ rw c (
      without-all p s.live (
        All-map _ _ (λ q o. let h : owns s.supervisor q ≡ (p == q) = rw c refl in cc) s.live
          v.owned))
]

pub cmd-stop_locked : (s : System) → (stop_locked s).supervisor.cmd ≡ none
unfolding stop_locked
cmd-stop_locked s = elim (Option-cases s.supervisor.cmd) [
  | inl c ↦ let same : stop_locked s ≡ s = rw c refl in ap (λ t. t.supervisor.cmd) same ∙ c
  | inr (p, c) ↦ rw c refl
]

stop_locked-IsOwned : (s : System) → IsOwned s → IsOwned (stop_locked s)
stop_locked-IsOwned s v = record {
  owned = rw (live-stop_locked s v) tt;
  single = rw (live-stop_locked s v) (omega arith);
  watched = rw (cmd-stop_locked s) tt;
}

start_locked-IsOwned :
    (s : System) (tld : Bytes) (starts : Bool)
    → IsOwned s
    → s.live ≡ []
    → IsOwned (start_locked s tld starts)
unfolding start_locked
start_locked-IsOwned s tld true v l = record {
  owned = rw l (ground arith, tt);
  single = rw l (omega arith);
  watched = ground arith;
}
start_locked-IsOwned s tld false v l = v

ensure-IsOwned :
    (s : System) (tld : Bytes) (starts : Bool) → IsOwned s → IsOwned (ensure s tld starts)
unfolding ensure
ensure-IsOwned s tld starts v = elim (Bool-cases (is_serving s.supervisor tld)) [
  | inl e ↦ rw e v
  | inr e ↦ rw e (
      start_locked-IsOwned (stop_locked s) tld starts (stop_locked-IsOwned s v)
        (live-stop_locked s v))
]

-- A process that ends is taken from a list with one element at most.
All-without :
    (r : Supervisor) (p : ℕ) (ps : List ℕ)
    → All (λ q. owns r q ≡ true) ps
    → All (λ q. owns r q ≡ true) (without p ps)
All-without r p ps h = All-select (λ q. owns r q ≡ true) (λ q. not (q == p)) ps h

exited-IsOwned :
    (s : System) (p : ℕ)
    → IsOwned s
    → IsOwned (record s { live = without p s.live; killed = without p s.killed })
exited-IsOwned s p v = record {
  owned = All-without s.supervisor p s.live v.owned;
  single = omega (arith, length-select (λ q. not (q == p)) s.live, v.single);
  watched = v.watched;
}

-- A goroutine that is not the one in `Wait` on the supervisor's process may end.
IsWatched-remove_at :
    (c : Option ℕ) (ws : List Watcher) (i : ℕ) (w : Watcher)
    → get_elem? ws i ≡ some w
    → ((p : ℕ) → c ≡ some p → waits_for p w ≡ false)
    → IsWatched c ws
    → IsWatched c (remove_at ws i)
IsWatched-remove_at none ws i w g f h = tt
IsWatched-remove_at (some p) ws i w g f h = rw (any-remove_at (waits_for p) ws i w g (f p refl)) h

not_live :
    (r : Supervisor) (p : ℕ) (ps : List ℕ)
    → owns r p ≡ true
    → All (λ q. owns r q ≡ true) ps
    → is_live p ps ≡ false
    → ps ≡ []
not_live r p [] o h l = refl
not_live r p (q ∷ qs) o h l = elim (Option-cases r.cmd) [
  | inl c ↦ let bad : owns r p ≡ false = rw c refl in absurd (ground arith)
  | inr (x, c) ↦
      let a : owns r p ≡ (x == p) = rw c refl in
      let b : owns r q ≡ (x == q) = rw c refl in absurd (ground (arith, h.0))
]

observe-IsOwned :
    (s : System) (i : ℕ) (tld : Bytes) (p : ℕ)
    → get_elem? s.watchers i ≡ some (waiting tld p)
    → IsOwned s
    → IsOwned (observe s i tld p)
unfolding observe
observe-IsOwned s i tld p g v = elim (Bool-cases (is_live p s.live || is_live p s.killed)) [
  | inl e ↦ rw e v
  | inr e ↦
      let gone_one : is_live p s.live ≡ false = ground arith in
      elim (Bool-cases (owns s.supervisor p)) [
        | inl o ↦
            rw (e, o)
              (let gone : s.live ≡ [] = not_live s.supervisor p s.live o v.owned gone_one in
                record { owned = rw gone tt; single = v.single; watched = tt })
        | inr o ↦
            rw (e, o)
              (record {
                owned = v.owned;
                single = v.single;
                watched =
                    IsWatched-remove_at s.supervisor.cmd s.watchers i (waiting tld p) g
                      (λ q c. let h : owns s.supervisor p ≡ (q == p) = rw c refl in ground arith)
                      v.watched;
              })
      ]
]

go_on-IsOwned :
    (s : System) (i : ℕ) (starts : Bool) (w : Option Watcher)
    → get_elem? s.watchers i ≡ w
    → IsOwned s
    → IsOwned (go_on s i starts w)
go_on-IsOwned s i starts none g v = v
go_on-IsOwned s i starts (some (waiting tld p)) g v = observe-IsOwned s i tld p g v
go_on-IsOwned s i starts (some (sleeping tld)) g v =
    ensure-IsOwned (record s { watchers = remove_at s.watchers i }) tld starts
      (record {
        owned = v.owned;
        single = v.single;
        watched =
            IsWatched-remove_at s.supervisor.cmd s.watchers i (sleeping tld) g (λ p c. refl)
              v.watched;
      })

pub step-IsOwned : (s : System) (e : Event) → IsOwned s → IsOwned (step s e)
unfolding step
step-IsOwned s (ensured tld starts) v = ensure-IsOwned s tld starts v
step-IsOwned s stopped v = stop_locked-IsOwned s v
step-IsOwned s (exited p) v = exited-IsOwned s p v
step-IsOwned s (went_on i starts) v = go_on-IsOwned s i starts (get_elem? s.watchers i) refl v

-- Whatever the calls, the ends of processes and the goroutines do, and in whatever order, an owned
-- system, such as the new supervisor, stays one: of the processes that run, at most one was not sent
-- SIGKILL, it is the one that the supervisor calls its own, and a goroutine waits for the
-- supervisor's process, so that its end is seen.
pub run-IsOwned : (s : System) (es : List Event) → IsOwned s → IsOwned (run s es)
unfolding run
run-IsOwned s [] v = v
run-IsOwned s (e ∷ es) v = run-IsOwned (step s e) es (step-IsOwned s e v)
