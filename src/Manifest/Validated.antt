-- ===== src/Manifest/Validated.antt =====
-- cli/manifest/manifest.go: what a manifest that passes validation satisfies.
use mathlib.Core.Path.{subst}
use roxey.Base.{
  ◌≡◌, refl, sym, ◌∙◌, true, false, List, [], ◌∷◌, none, Bytes, codes, arith, inl, inr, ◌⊎◌, All,
  All-map, Bool-cases, Option-cases, equal, is_empty, has_prefix, map,
}
use roxey.Manifest.{
  System, Route, Environment, Manifest, ManifestError, Checked, valid, invalid, is_run, is_nil,
  listed, bad_port, check_route_name, valid_host, check_hosts, check_route, place, names_after,
  check_routes, check_environments, validate_environments,
}

Checked-cases :
    {A : Type 0} (c : Checked A)
    → ((why : ManifestError) × (c ≡ invalid why)) ⊎ ((a : A) × (c ≡ valid a))
Checked-cases (valid a) = inr (a, refl)
Checked-cases (invalid why) = inl (why, refl)

-- A route begins with a slash. It spawns a command with a port in range and no address, or it
-- has an address and no name.
abbrev pub IsRoute : Route → Type 0
IsRoute r =
    (has_prefix r.path (codes "/") ≡ true)
    × (((is_run r ≡ true) × (is_empty r.target ≡ true) × (bad_port r.port ≡ false))
        ⊎ ((is_run r ≡ false) × (is_empty r.name ≡ true) × (is_empty r.target ≡ false)))

abbrev pub IsEnvironment : Environment → Type 0
IsEnvironment e = (is_nil e.routes ≡ false) × All IsRoute e.routes

-- No two environments have the same host.
abbrev pub AreUnique : List Environment → Type 0
AreUnique [] = Unit {0}
AreUnique (e ∷ es) = All (λ (f : Environment). equal f.host e.host ≡ false) es × AreUnique es

module _ (sys : System) where
  check_hosts-fresh :
      (seen : List Bytes) (es : List Environment)
      → check_hosts sys seen es ≡ none
      → All (λ (e : Environment). (listed e.host seen ≡ false) × (valid_host sys e.host ≡ true)) es
  unfolding check_hosts
  check_hosts-fresh seen [] h = tt
  check_hosts-fresh seen (e ∷ es) h = (
    ground arith,
    All-map _ _ (λ f k. (ground arith, k.1)) es
        (check_hosts-fresh (e.host ∷ seen) es (ground arith)),
  )

  check_hosts-AreUnique :
      (seen : List Bytes) (es : List Environment) → check_hosts sys seen es ≡ none → AreUnique es
  unfolding check_hosts
  check_hosts-AreUnique seen [] h = tt
  check_hosts-AreUnique seen (e ∷ es) h =
      let rest : check_hosts sys (e.host ∷ seen) es ≡ none = ground arith in
      (
        All-map _ _ (λ f k. ground arith) es (check_hosts-fresh (e.host ∷ seen) es rest),
        check_hosts-AreUnique (e.host ∷ seen) es rest,
      )

  place-kept :
      (dir : Bytes) (r r' : Route)
      → place sys dir r ≡ valid r'
      → (cwd : Bytes) × (r' ≡ record r { cwd = cwd })
  place-kept dir r r' h = elim (Bool-cases (is_empty r.cwd)) [
    | inl here ↦ (dir, ground arith)
    | inr given ↦ elim (Bool-cases (sys.is_abs r.cwd)) [
      | inl absolute ↦ (r.cwd, ground arith)
      | inr relative ↦ (sys.join_path dir r.cwd, ground arith)
    ]
  ]

  check_route-IsRoute :
      (dir : Bytes) (hosts names paths : List Bytes) (r r' : Route)
      → check_route sys dir hosts names paths r ≡ valid r'
      → IsRoute r'
  unfolding check_route
  check_route-IsRoute dir hosts names paths r r' h = elim (Bool-cases (is_run r)) [
    | inr proxied ↦
        let same : r ≡ r' = ground arith in
        subst IsRoute same (ground arith, inr (proxied, ground arith, ground arith))
    | inl spawned ↦ elim (Option-cases (check_route_name r.name hosts names)) [
      | inr (why, named) ↦ absurd (ground arith)
      | inl named ↦
          let placed : place sys dir r ≡ valid r' = ground arith in
          let (cwd, same) = place-kept dir r r' placed in
          subst IsRoute (sym same) (ground arith, inl (spawned, ground arith, ground arith))
    ]
  ]

  check_routes-IsRoute :
      (dir : Bytes) (hosts names paths : List Bytes) (rs rs' : List Route) (taken : List Bytes)
      → check_routes sys dir hosts names paths rs ≡ valid (rs', taken)
      → All IsRoute rs' × (is_nil rs' ≡ is_nil rs)
  unfolding check_routes
  check_routes-IsRoute dir hosts names paths [] rs' taken h =
      let same : [] ≡ rs' = ground arith in
      subst (λ x. All IsRoute x × (is_nil x ≡ true)) same (tt, refl)
  check_routes-IsRoute dir hosts names paths (r ∷ rs) rs' taken h =
      elim (Checked-cases (check_route sys dir hosts names paths r)) [
        | inl (why, bad) ↦ absurd (ground arith)
        | inr (r', good) ↦
            elim (Checked-cases
              (check_routes sys dir hosts (names_after sys names r) (r.path ∷ paths) rs)) [
                | inl (why, bad) ↦ absurd (ground arith)
                | inr ((xs, t), rest) ↦
                    let same : r' ∷ xs ≡ rs' = ground arith in
                    subst (λ x. All IsRoute x × (is_nil x ≡ false)) same
                      (
                        (
                          check_route-IsRoute dir hosts names paths r r' good,
                          (check_routes-IsRoute dir hosts (names_after sys names r) (r.path ∷ paths)
                              rs xs t rest).0,
                        ),
                        refl,
                      )
              ]
      ]

  check_environments-IsEnvironment :
      (dir : Bytes) (hosts names : List Bytes) (es es' : List Environment)
      → check_environments sys dir hosts names es ≡ valid es'
      → All IsEnvironment es'
  unfolding check_environments
  check_environments-IsEnvironment dir hosts names [] es' h =
      let same : [] ≡ es' = ground arith in subst (All IsEnvironment) same tt
  check_environments-IsEnvironment dir hosts names (e ∷ es) es' h =
      elim (Bool-cases (is_nil e.routes)) [
        | inl bare ↦ absurd (ground arith)
        | inr routed ↦ elim (Checked-cases (check_routes sys dir hosts names [] e.routes)) [
          | inl (why, bad) ↦ absurd (ground arith)
          | inr ((rs, taken), good) ↦
              elim (Checked-cases (check_environments sys dir hosts taken es)) [
                | inl (why, bad) ↦ absurd (ground arith)
                | inr (xs, rest) ↦
                    let same : record e { routes = rs } ∷ xs ≡ es' = ground arith in
                    let (all_routes, nil_as) =
                      check_routes-IsRoute dir hosts names [] e.routes rs taken good in
                    subst (All IsEnvironment) same (
                      (nil_as ∙ routed, all_routes),
                      check_environments-IsEnvironment dir hosts taken es xs rest,
                    )
              ]
        ]
      ]

  -- A manifest whose environments pass has valid hosts, no two the same, and at least one route in
  -- each environment. Every route begins with a slash, and either spawns a command with a port in
  -- range and no address, or has an address and no name.
  pub validate_environments-IsEnvironment :
      (m m' : Manifest)
      → validate_environments sys m ≡ valid m'
      → All (λ (e : Environment). valid_host sys e.host ≡ true) m.environments
        × AreUnique m.environments
        × All IsEnvironment m'.environments
  unfolding validate_environments
  validate_environments-IsEnvironment m m' h = elim (Bool-cases (is_nil m.environments)) [
    | inl bare ↦ absurd (ground arith)
    | inr some_left ↦ elim (Option-cases (check_hosts sys [] m.environments)) [
      | inr (why, bad) ↦ absurd (ground arith)
      | inl hosts_pass ↦
          elim (Checked-cases (
            check_environments sys m.dir (map (λ (e : Environment). e.host) m.environments) []
              m.environments)) [
                | inl (why, bad) ↦ absurd (ground arith)
                | inr (es, good) ↦
                    let same : record m { environments = es } ≡ m' = ground arith in
                    (
                      All-map _ _ (λ e k. k.1) m.environments
                          (check_hosts-fresh [] m.environments hosts_pass),
                      check_hosts-AreUnique [] m.environments hosts_pass,
                      subst (λ (x : Manifest). All IsEnvironment x.environments) same
                          (check_environments-IsEnvironment m.dir
                            (map (λ (e : Environment). e.host) m.environments) [] m.environments es
                            good),
                    )
              ]
    ]
  ]
