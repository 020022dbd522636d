-- ===== src/Ledger/Up/Signals.antt =====
-- cli/main.go: which processes `up` sends a signal.
use mathlib.Core.Path.{subst}
use roxey.Base.{
  ℕ, suc, ◌+◌, ◌<◌, ◌≤◌, ◌≡◌, refl, Bool, true, List, [], ◌∷◌, map, inl, inr, arith, Bytes, All,
  All-map, All-append, Member, Bool-cases, select, length,
}
use roxey.Runner.{
  Sent, term, kill, reclaim_port, send_kill, Waited, ready, ended, timed_out, out_of_fuel,
}
use roxey.Ledger.{
  TunnelInfo, ServiceInfo, Host, Signal, terminated, killed_group, Ledger, of_manifest, service_of,
  stop_where, kill_where, prune_dead_services,
}
use roxey.Ledger.Up.{
  RunRoute, own_and_alive, stop_leftovers, collect_routes, Reclaim, reclaim_ports, Up, up,
}

-- A signal for the process of an entry of this manifest that is alive: SIGTERM for a tunnel, the end
-- of the group for a service.
abbrev pub IsOwn : Host → Bytes → Ledger → Signal → Type 0
IsOwn h path l (terminated p) =
    (e : Bytes × TunnelInfo) × Member e l.tunnels
    × (of_manifest path e ≡ true)
    × (h.alive p ≡ true)
    × (p ≡ e.1.pid)
IsOwn h path l (killed_group p) =
    (e : Bytes × ServiceInfo) × Member e l.services
    × (service_of path e ≡ true)
    × (h.alive p ≡ true)
    × (p ≡ e.1.pid)

-- A signal for a process that listens on the port of a run-route: SIGTERM if it did at the first
-- look, SIGKILL if it does at the last one.
abbrev pub IsReclaimed : (ℕ → Reclaim) → ℕ → Sent → Type 0
IsReclaimed ports count (term p) = (n : ℕ) × (n < count) × Member p (ports n).first
IsReclaimed ports count (kill p) = (n : ℕ) × (n < count) × Member p (ports n).last

-- The elements that a test keeps are elements that pass it.
module _ {A : Type 0} where
  All-selected :
      (test : A → Bool) (xs : List A) → All (λ x. Member x xs × (test x ≡ true)) (select test xs)
  All-selected test [] = tt
  All-selected test (x ∷ xs) =
      let rest =
        All-map _ (λ y. Member y (x ∷ xs) × (test y ≡ true)) (λ y h. (inr h.0, h.1)) _
          (All-selected test xs) in
      elim (Bool-cases (test x)) [ inl h ↦ rw h ((inl refl, h), rest) | inr h ↦ rw h rest ]

  All-mapped :
      {B : Type 0} (P : B → Type 0) (f : A → B) (xs : List A)
      → All (λ x. P (f x)) xs
      → All P (map f xs)
  All-mapped P f [] h = tt
  All-mapped P f (x ∷ xs) h = (h.0, All-mapped P f xs h.1)

  Member-selected :
      (test : A → Bool) (a : A) (xs : List A)
      → Member a (select test xs)
      → Member a xs × (test a ≡ true)
  Member-selected test a xs m = from (select test xs) (All-selected test xs) m
    where
      from :
          (ys : List A)
          → All (λ x. Member x xs × (test x ≡ true)) ys
          → Member a ys
          → Member a xs × (test a ≡ true)
      from [] h n = absurd n
      from (y ∷ ys) h (inl e) = subst (λ x. Member x xs × (test x ≡ true)) e h.0
      from (y ∷ ys) h (inr n) = from ys h.1 n

  Member-All : (xs : List A) → All (λ x. Member x xs) xs
  Member-All [] = tt
  Member-All (x ∷ xs) = (inl refl, All-map _ _ (λ y m. inr m) xs (Member-All xs))

stopped-IsOwn :
    (h : Host) (path : Bytes) (l : Ledger)
    → All (IsOwn h path l) (stop_where (own_and_alive h path) l.tunnels).1
unfolding stop_where
stopped-IsOwn h path l = All-mapped (IsOwn h path l) _ _ (
    All-map _ _ (λ e m. (e, m.0, ground (arith, m.1), ground (arith, m.1), refl)) _
      (All-selected (own_and_alive h path) l.tunnels))

killed-IsOwn :
    (h : Host) (path : Bytes) (l : Ledger)
    → All (IsOwn h path l) (kill_where (service_of path) (prune_dead_services h l.services)).1
unfolding kill_where prune_dead_services
killed-IsOwn h path l = All-mapped (IsOwn h path l) _ _ (
    All-map _ _
      (λ e m.
        let (there, alive) =
          Member-selected (λ (x : Bytes × ServiceInfo). h.alive x.1.pid) e l.services m.0 in
        (e, there, m.1, alive, refl))
      _ (All-selected (service_of path) (prune_dead_services h l.services)))

-- one call of `ReclaimPort`
abbrev IsReclaimedAt : Reclaim → Sent → Type 0
IsReclaimedAt c (term p) = Member p c.first
IsReclaimedAt c (kill p) = Member p c.last

send_kill-IsReclaimedAt :
    (c : Reclaim) (w : Waited) → All (IsReclaimedAt c) (send_kill (map kill c.last) w)
send_kill-IsReclaimedAt c (ready n) = tt
send_kill-IsReclaimedAt c (ended n) = tt
send_kill-IsReclaimedAt c (timed_out n) =
    All-mapped (IsReclaimedAt c) kill c.last (Member-All c.last)
send_kill-IsReclaimedAt c out_of_fuel = tt

reclaim_port-IsReclaimedAt :
    (c : Reclaim) → All (IsReclaimedAt c) (reclaim_port c.first c.during c.last c.took).0
unfolding reclaim_port
reclaim_port-IsReclaimedAt c = from c.first refl
  where
    from :
        (ps : List ℕ)
        → c.first ≡ ps
        → All (IsReclaimedAt c) (reclaim_port ps c.during c.last c.took).0
    from [] e = tt
    from (p ∷ ps) e =
        All-append _ (map term (p ∷ ps)) _
          (All-mapped (IsReclaimedAt c) term (p ∷ ps)
            (subst (λ qs. All (λ x. Member x c.first) qs) e (Member-All c.first)))
          (send_kill-IsReclaimedAt c _)

at_route :
    (ports : ℕ → Reclaim) (n count : ℕ) (s : Sent)
    → n < count
    → IsReclaimedAt (ports n) s
    → IsReclaimed ports count s
at_route ports n count (term p) l m = (n, l, m)
at_route ports n count (kill p) l m = (n, l, m)

reclaim_ports-IsReclaimed :
    (ports : ℕ → Reclaim) (i count : ℕ) (rs : List RunRoute)
    → i + length rs ≤ count
    → All (IsReclaimed ports count) (reclaim_ports ports i rs)
unfolding reclaim_ports
reclaim_ports-IsReclaimed ports i count [] l = tt
reclaim_ports-IsReclaimed ports i count (r ∷ rs) l =
    All-append _ _ _
      (All-map _ _ (λ s m. at_route ports i count s (omega (arith, l)) m) _
        (reclaim_port-IsReclaimedAt (ports i)))
      (reclaim_ports-IsReclaimed ports (suc i) count rs (omega (arith, l)))

-- Whatever the records hold, and wherever `up` fails: to stop what is left of the last run it sends
-- a signal only to a process that is alive and that a tunnel or a service of this manifest has in
-- the records, and to reclaim the ports only to a process that listens on the port of one of the
-- manifest's commands.
pub up-IsOwn :
    (h : Host) (u : Up) (l : Ledger)
    → All (IsOwn h u.path l) (up h u l).signals
      × All (IsReclaimed u.ports (length (collect_routes u.environments).0)) (up h u l).reclaimed
unfolding up stop_leftovers
up-IsOwn h u l = (
  All-append _ _ _ (killed-IsOwn h u.path l) (stopped-IsOwn h u.path l),
  reclaim_ports-IsReclaimed u.ports 0 _ (collect_routes u.environments).0 (omega arith),
)
