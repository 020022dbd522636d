-- ===== src/Ledger/Up/Served.antt =====
-- cli/main.go: after `up` each route of the manifest has its tunnel.
use mathlib.Core.Path.{subst}
use roxey.Base.{
  ℕ, ◌≡◌, refl, sym, ap, ◌⊎◌, inl, inr, true, List, [], ◌∷◌, ◌++◌, map, none, some, codes, Dict,
  lookup, trim_suffix, All-Member, Member, Bool-cases, if◌then◌else◌,
}
use roxey.Manifest.{Route, Environment, is_run}
use roxey.Ledger.{TunnelInfo, Host, Ledger, tunnel_key}
use roxey.Ledger.Start.{tunnel_info}
use roxey.Ledger.Up.{
  RunRoute, run_route, routes_of, collect_routes, has_protected, tunnel_of, starts_of, port_text,
  Up, up,
}
use roxey.Ledger.Up.Covered.{HasTunnel, starts-HasTunnel}

module _ {A : Type 0} where
  Member-left : (a : A) (xs ys : List A) → Member a xs → Member a (xs ++ ys)
  Member-left a [] ys m = absurd m
  Member-left a (x ∷ xs) ys (inl e) = inl e
  Member-left a (x ∷ xs) ys (inr m) = inr (Member-left a xs ys m)

  Member-right : (a : A) (xs ys : List A) → Member a ys → Member a (xs ++ ys)
  Member-right a [] ys m = m
  Member-right a (x ∷ xs) ys m = inr (Member-right a xs ys m)

Member-map :
    {A B : Type 0} (f : A → B) (a : A) (xs : List A) → Member a xs → Member (f a) (map f xs)
Member-map f a [] m = absurd m
Member-map f a (x ∷ xs) (inl e) = inl (ap f e)
Member-map f a (x ∷ xs) (inr m) = inr (Member-map f a xs m)

-- in one of the two lists
abbrev IsIn : RunRoute → List RunRoute × List RunRoute → Type 0
IsIn x (runs, proxies) = Member x runs ⊎ Member x proxies

IsIn-routes_of :
    (e : Environment) (r : Route) (rs : List Route)
    → Member r rs
    → IsIn (run_route e r) (routes_of e rs)
unfolding routes_of
IsIn-routes_of e r [] m = absurd m
IsIn-routes_of e r (x ∷ rs) (inl q) = elim (Bool-cases (is_run x)) [
  | inl h ↦ rw (h, routes_of) (inl (inl (ap (run_route e) q)))
  | inr h ↦ rw (h, routes_of) (inr (inl (ap (run_route e) q)))
]
IsIn-routes_of e r (x ∷ rs) (inr m) = elim (Bool-cases (is_run x)) [
  | inl h ↦
      rw (h, routes_of) (elim (IsIn-routes_of e r rs m) [ inl a ↦ inl (inr a) | inr b ↦ inr b ])
  | inr h ↦
      rw (h, routes_of) (elim (IsIn-routes_of e r rs m) [ inl a ↦ inl a | inr b ↦ inr (inr b) ])
]

IsIn-collect_routes :
    (e : Environment) (r : Route) (es : List Environment)
    → Member e es
    → Member r e.routes
    → IsIn (run_route e r) (collect_routes es)
unfolding collect_routes
IsIn-collect_routes e r [] m n = absurd m
IsIn-collect_routes e r (x ∷ es) (inl q) n =
    let n' : Member r x.routes = subst (λ (y : Environment). Member r y.routes) (sym q) n in
    let own : IsIn (run_route e r) (routes_of x x.routes) =
      subst (λ y. IsIn (run_route y r) (routes_of x x.routes)) q (IsIn-routes_of x r x.routes n') in
    elim own [ inl a ↦ inl (Member-left _ _ _ a) | inr b ↦ inr (Member-left _ _ _ b) ]
IsIn-collect_routes e r (x ∷ es) (inr m) n = elim (IsIn-collect_routes e r es m n) [
  | inl a ↦ inl (Member-right _ _ _ a)
  | inr b ↦ inr (Member-right _ _ _ b)
]

both : (x : RunRoute) (p : List RunRoute × List RunRoute) → IsIn x p → Member x (p.0 ++ p.1)
both x p (inl a) = Member-left x p.0 p.1 a
both x p (inr b) = Member-right x p.0 p.1 b

-- The tunnel of a route stands in the records, under the key of its host and path and with a process
-- that is alive: to `localhost` and the port of the route where it runs a command, else to the
-- target that the manifest gives.
pub record IsServed (h : Host) (u : Up) (tunnels : Dict TunnelInfo) (e : Environment) (r : Route)
    : Type 0 where
  pub info : TunnelInfo
  pub there : lookup (tunnel_key e.host (trim_suffix r.path (codes "/"))) tunnels ≡ some info
  pub alive : h.alive info.pid ≡ true
  pub service : info.service ≡ e.host
  pub path_prefix : info.path_prefix ≡ trim_suffix r.path (codes "/")
  pub tld : info.tld ≡ u.tld
  pub manifest_path : info.manifest_path ≡ u.path
  pub target : info.target ≡ (if is_run r then codes "localhost:" ++ port_text r.port else r.target)

-- When `up` ends without an error, and every process that it started is alive, then each route of
-- each environment of the manifest, one with a command and one with an address alike, has a tunnel
-- of this run in the records: at its own host and path and to its own target.
pub up-HasTunnel :
    (h : Host) (u : Up) (l : Ledger) (e : Environment) (r : Route)
    → ((n pid : ℕ) → u.tunnel_pids n ≡ some pid → h.alive pid ≡ true)
    → (up h u l).error ≡ none
    → Member e u.environments
    → Member r e.routes
    → IsServed h u (up h u l).ledger.tunnels e r
unfolding up
up-HasTunnel h u l e r live ok m n =
    let gate_group = if has_protected u.environments then u.new_group else [] in
    let asked = Member-map (tunnel_of u.tld gate_group u.path) (run_route e r) _ (
      both (run_route e r) (collect_routes u.environments)
        (IsIn-collect_routes e r u.environments m n)) in
    let (pid, there, alive) =
      All-Member (HasTunnel h (up h u l).ledger.tunnels) (starts_of u)
        (starts-HasTunnel h u l live ok) asked in
    record {
      info = tunnel_info h (tunnel_of u.tld gate_group u.path (run_route e r)) pid;
      there = there;
      alive = alive;
      service = refl;
      path_prefix = refl;
      tld = refl;
      manifest_path = refl;
      target = refl;
    }
