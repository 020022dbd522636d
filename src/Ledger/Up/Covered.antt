-- ===== src/Ledger/Up/Covered.antt =====
-- cli/main.go: the tunnels after `up`.
use roxey.Base.{
  ℕ, suc, ◌≡◌, refl, ◌∙◌, ap, sym, true, false, List, [], ◌∷◌, Option, none, some, inl, inr, arith,
  Bytes, equal, equal_iff, Dict, lookup, insert, lookup-insert, lookup-select, All, Bool-cases,
  Sum-cases, equal_refl,
}
use mathlib.Core.Path.{subst}
use roxey.Ledger.{TunnelInfo, Host, tunnel_key, Ledger, stop_where}
use roxey.Ledger.Start.{Start, tunnel_info, running_pid, start_one, start_unless}
use roxey.Ledger.Up.{start_tunnels, stop_leftovers, starts_of, Up, up}

abbrev key_of : Start → Bytes
key_of s = tunnel_key s.service s.path_prefix

-- What `startOne` writes, when it does.
start_unless_cases :
    (h : Host) (spawned : Option ℕ) (tunnels : Dict TunnelInfo) (s : Start) (running : Option ℕ)
    {after : Dict TunnelInfo}
    → start_unless h spawned tunnels s running ≡ inr after
    → (running ≡ none)
      × ((pid : ℕ) × (spawned ≡ some pid)
          × (insert (key_of s) (tunnel_info h s pid) tunnels ≡ after))
start_unless_cases h spawned tunnels s (some pid) e = cc
start_unless_cases h none tunnels s none e = cc
start_unless_cases h (some pid) tunnels s none e = (refl, (pid, refl, cc))

start_one_cases :
    (h : Host) (spawned : Option ℕ) (tunnels : Dict TunnelInfo) (s : Start)
    {after : Dict TunnelInfo}
    → start_one h spawned tunnels s ≡ inr after
    → (running_pid h tunnels (key_of s) ≡ none)
      × ((pid : ℕ) × (spawned ≡ some pid)
          × (insert (key_of s) (tunnel_info h s pid) tunnels ≡ after))
unfolding start_one
start_one_cases h spawned tunnels s e =
    start_unless_cases h spawned tunnels s (running_pid h tunnels (key_of s)) e

running_pid-alive :
    (h : Host) (tunnels : Dict TunnelInfo) (k : Bytes) (info : TunnelInfo)
    → lookup k tunnels ≡ some info
    → h.alive info.pid ≡ true
    → running_pid h tunnels k ≡ some info.pid
unfolding running_pid
running_pid-alive h tunnels k info g a = rw (g, a, running_pid) refl

-- `startOne` never replaces the entry of a process that is alive.
start_one-lookup :
    (h : Host) (spawned : Option ℕ) (tunnels : Dict TunnelInfo) (s : Start)
    {after : Dict TunnelInfo} (k : Bytes) (info : TunnelInfo)
    → start_one h spawned tunnels s ≡ inr after
    → lookup k tunnels ≡ some info
    → h.alive info.pid ≡ true
    → lookup k after ≡ some info
start_one-lookup h spawned tunnels s {after} k info e g a =
    let (free, (pid, sp, new)) = start_one_cases h spawned tunnels s e in
    let written = lookup-insert (key_of s) k (tunnel_info h s pid) tunnels in
    elim (Bool-cases (equal (key_of s) k)) [
      | inl same ↦
          let here : key_of s ≡ k = (equal_iff (key_of s) k).0 same in
          let busy : running_pid h tunnels k ≡ some info.pid =
            running_pid-alive h tunnels k info g a in
          let idle : running_pid h tunnels k ≡ none =
            subst (λ j. running_pid h tunnels j ≡ none) here free in
          cc
      | inr other ↦ subst (λ t. lookup k t ≡ some info) new (rw other at written ∙ g)
    ]

start_tunnels-lookup :
    (h : Host) (pids : ℕ → Option ℕ) (i : ℕ) (tunnels : Dict TunnelInfo) (ss : List Start)
    (k : Bytes) (info : TunnelInfo)
    → lookup k tunnels ≡ some info
    → h.alive info.pid ≡ true
    → lookup k (start_tunnels h pids i tunnels ss).0 ≡ some info
unfolding start_tunnels
start_tunnels-lookup h pids i tunnels [] k info g a = g
start_tunnels-lookup h pids i tunnels (s ∷ ss) k info g a =
    elim (Sum-cases (start_one h (pids i) tunnels s)) [
      | inl (why, e) ↦ rw (e, start_tunnels) g
      | inr (after, e) ↦
          rw (e, start_tunnels)
            (start_tunnels-lookup h pids (suc i) after ss k info
              (start_one-lookup h (pids i) tunnels s k info e g a) a)
    ]

-- The tunnel that was asked for stands in the records, with a process that is alive.
abbrev pub HasTunnel : Host → Dict TunnelInfo → Start → Type 0
HasTunnel h tunnels s =
    (pid : ℕ) × (lookup (tunnel_key s.service s.path_prefix) tunnels ≡ some (tunnel_info h s pid))
    × (h.alive pid ≡ true)

start_tunnels-HasTunnel :
    (h : Host) (pids : ℕ → Option ℕ) (i : ℕ) (tunnels : Dict TunnelInfo) (ss : List Start)
    → ((n pid : ℕ) → pids n ≡ some pid → h.alive pid ≡ true)
    → (start_tunnels h pids i tunnels ss).1 ≡ none
    → All (HasTunnel h (start_tunnels h pids i tunnels ss).0) ss
unfolding start_tunnels
start_tunnels-HasTunnel h pids i tunnels [] live ok = tt
start_tunnels-HasTunnel h pids i tunnels (s ∷ ss) live ok =
    elim (Sum-cases (start_one h (pids i) tunnels s)) [
      | inl (why, e) ↦ let bad : some why ≡ none = rw (e, start_tunnels) at ok in cc
      | inr (after, e) ↦
          let (free, (pid, sp, new)) = start_one_cases h (pids i) tunnels s e in
          let info = tunnel_info h s pid in
          let here : lookup (key_of s) after ≡ some info =
            subst (λ t. lookup (key_of s) t ≡ some info) new
              (rw (equal_refl (key_of s)) at (lookup-insert (key_of s) (key_of s) info tunnels)) in
          let alive = live i pid sp in
          let after_s = start_tunnels h pids (suc i) after ss in
          let one : start_tunnels h pids i tunnels (s ∷ ss) ≡ after_s =
            rw (e, start_tunnels) refl in
          subst (λ r. All (HasTunnel h r.0) (s ∷ ss)) (sym one)
            (
              (pid, start_tunnels-lookup h pids (suc i) after ss (key_of s) info here alive, alive),
              start_tunnels-HasTunnel h pids (suc i) after ss live (sym (ap (λ r. r.1) one) ∙ ok),
            )
    ]

-- A tunnel of another manifest whose process is alive keeps its entry as it is through `up`, under
-- whatever name the new tunnels are asked for, and wherever `up` fails.
pub up-lookup :
    (h : Host) (u : Up) (l : Ledger) (k : Bytes) (info : TunnelInfo)
    → lookup k l.tunnels ≡ some info
    → equal info.manifest_path u.path ≡ false
    → h.alive info.pid ≡ true
    → lookup k (up h u l).ledger.tunnels ≡ some info
unfolding up stop_leftovers stop_where
up-lookup h u l k info g m a =
    start_tunnels-lookup h u.tunnel_pids 0 (stop_leftovers h u.path l).0.tunnels (starts_of u) k
      info (lookup-select _ k info l.tunnels g (ground arith)) a

pub starts-HasTunnel :
    (h : Host) (u : Up) (l : Ledger)
    → ((n pid : ℕ) → u.tunnel_pids n ≡ some pid → h.alive pid ≡ true)
    → (up h u l).error ≡ none
    → All (HasTunnel h (up h u l).ledger.tunnels) (starts_of u)
unfolding up
starts-HasTunnel h u l live ok =
    start_tunnels-HasTunnel h u.tunnel_pids 0 (stop_leftovers h u.path l).0.tunnels (starts_of u)
      live ok
