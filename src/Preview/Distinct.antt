-- ===== src/Preview/Distinct.antt =====
-- cli/preview/preview.go: the ports that a preview's routes are given.
use roxey.Base.{
  ◌≡◌, refl, ◌∙◌, ap, true, false, List, [], ◌∷◌, ◌++◌, some, arith, any, All, All-append, All-map,
  Bool-cases, Option-cases, inl, inr, if◌then◌else◌,
}
use mathlib.Core.Path.{subst}
use roxey.Std.Decimal.{ℤ}
use roxey.Manifest.{Environment, Route, is_run}
use roxey.Preview.{
  same_port, in_range, distinct_port, is_settled, assign_routes, assign_environments, assign_ports,
}

-- the ports of the spawned routes
unfoldable pub run_ports : List Route → List ℤ
run_ports [] = []
run_ports (r ∷ rs) = if is_run r then r.port ∷ run_ports rs else run_ports rs

unfoldable pub all_run_ports : List Environment → List ℤ
all_run_ports [] = []
all_run_ports (e ∷ es) = run_ports e.routes ++ all_run_ports es

abbrev pub Unique : List ℤ → Type 0
Unique [] = Unit {0}
Unique (p ∷ ps) = All (λ q. same_port q p ≡ false) ps × Unique ps

-- A port that is in range and not among those that are used.
abbrev pub IsFree : List ℤ → ℤ → Type 0
IsFree used p = (in_range p ≡ true) × (any (same_port p) used ≡ false)

distinct_port-IsFree :
    (used answers : List ℤ) (p : ℤ) (more : List ℤ)
    → distinct_port used answers ≡ some (p, more)
    → IsFree used p
unfolding distinct_port
distinct_port-IsFree used [] p more h = ground arith
distinct_port-IsFree used (q ∷ answers) p more h = elim (Bool-cases (in_range q)) [
  | inr out ↦ absurd (ground arith)
  | inl good ↦ elim (Bool-cases (any (same_port q) used)) [
    | inl taken ↦ distinct_port-IsFree used answers p more (ground arith)
    | inr free ↦ ground arith
  ]
]

-- What an assignment says: every spawned route has a free port of its own, and what is free
-- afterwards was free before and is none of them.
abbrev Assigned : List ℤ → List ℤ → List ℤ → Type 0
Assigned used used' ports =
    All (IsFree used) ports
    × Unique ports
    × ((q : ℤ)
        → any (same_port q) used' ≡ false
        → (any (same_port q) used ≡ false) × All (λ p. same_port q p ≡ false) ports)

IsFree-tail :
    (p : ℤ) (used ports : List ℤ) → All (IsFree (p ∷ used)) ports → All (IsFree used) ports
IsFree-tail p used = All-map _ _ (λ q f. (f.0, ground arith))

IsFree-apart :
    (p : ℤ) (used ports : List ℤ)
    → All (IsFree (p ∷ used)) ports
    → All (λ q. same_port q p ≡ false) ports
IsFree-apart p used = All-map _ _ (λ q f. ground arith)

Assigned-one :
    (p : ℤ) (used used' ports : List ℤ)
    → IsFree used p
    → Assigned (p ∷ used) used' ports
    → Assigned used used' (p ∷ ports)
Assigned-one p used used' ports f (free, unique, grows) = (
  (f, IsFree-tail p used ports free),
  (IsFree-apart p used ports free, unique),
  λ q h. let (apart, others) = grows q h in (ground arith, (ground arith, others)),
)

moved :
    (used u used' ports ports' : List ℤ)
    → ports ≡ ports'
    → u ≡ used'
    → Assigned used u ports
    → Assigned used used' ports'
moved used u used' ports ports' a b h =
    subst (λ x. Assigned used x ports') b (subst (λ x. Assigned used u x) a h)

assign_routes-Assigned :
    (used answers : List ℤ) (rs rs' : List Route) (used' left : List ℤ)
    → assign_routes true used answers rs ≡ some (rs', used', left)
    → Assigned used used' (run_ports rs')
unfolding assign_routes run_ports
assign_routes-Assigned used answers [] rs' used' left h =
    let none_left : [] ≡ rs' = ground arith in
    moved used used used' [] (run_ports rs') (ap run_ports none_left) (ground arith)
      (tt, tt, λ q f. (f, tt))
assign_routes-Assigned used answers (r ∷ rs) rs' used' left h =
    elim (Bool-cases (is_settled true r)) [
      | inl kept ↦ elim (Option-cases (assign_routes true used answers rs)) [
        | inl failed ↦ absurd (ground arith)
        | inr ((xs, u, l), e) ↦
            let is : r ∷ xs ≡ rs' = ground arith in
            let proxy : is_run r ≡ false = ground arith in
            moved used u used' (run_ports xs) (run_ports rs')
              (rw (proxy, run_ports) refl ∙ ap run_ports is) (ground arith)
              (assign_routes-Assigned used answers rs xs u l e)
      ]
      | inr unsettled ↦ elim (Option-cases (distinct_port used answers)) [
        | inl failed ↦ absurd (ground arith)
        | inr ((p, more), given) ↦ elim (Option-cases (assign_routes true (p ∷ used) more rs)) [
          | inl failed ↦ absurd (ground arith)
          | inr ((xs, u, l), e) ↦
              let is : record r { port = p } ∷ xs ≡ rs' = ground arith in
              let spawned : is_run r ≡ true = ground arith in
              moved used u used' (p ∷ run_ports xs) (run_ports rs')
                (rw (spawned, run_ports) refl ∙ ap run_ports is) (ground arith)
                (Assigned-one p used u (run_ports xs)
                  (distinct_port-IsFree used answers p more given)
                  (assign_routes-Assigned (p ∷ used) more rs xs u l e))
        ]
      ]
    ]

Unique-append :
    (ps qs : List ℤ)
    → Unique ps
    → Unique qs
    → All (λ q. All (λ p. same_port q p ≡ false) ps) qs
    → Unique (ps ++ qs)
Unique-append [] qs u v a = v
Unique-append (p ∷ ps) qs u v a = (
  All-append _ ps qs u.0 (All-map _ _ (λ q f. f.0) qs a),
  Unique-append ps qs u.1 v (All-map _ _ (λ q f. f.1) qs a),
)

Assigned-append :
    (used mid used' ps qs : List ℤ)
    → Assigned used mid ps
    → Assigned mid used' qs
    → Assigned used used' (ps ++ qs)
Assigned-append used mid used' ps qs (free, unique, grows) (free', unique', grows') = (
  All-append _ ps qs free (All-map _ _ (λ q f. (f.0, (grows q f.1).0)) qs free'),
  Unique-append ps qs unique unique' (All-map _ _ (λ q f. (grows q f.1).1) qs free'),
  λ q h.
      let (old, apart) = grows' q h in
      let (before, apart') = grows q old in (before, All-append _ ps qs apart' apart),
)

assign_environments-Assigned :
    (used answers : List ℤ) (es es' : List Environment) (used' left : List ℤ)
    → assign_environments true used answers es ≡ some (es', used', left)
    → Assigned used used' (all_run_ports es')
unfolding assign_environments all_run_ports
assign_environments-Assigned used answers [] es' used' left h =
    let none_left : [] ≡ es' = ground arith in
    moved used used used' [] (all_run_ports es') (ap all_run_ports none_left) (ground arith)
      (tt, tt, λ q f. (f, tt))
assign_environments-Assigned used answers (env ∷ es) es' used' left h =
    elim (Option-cases (assign_routes true used answers env.routes)) [
      | inl failed ↦ absurd (ground arith)
      | inr ((rs, mid, more), given) ↦ elim (Option-cases (assign_environments true mid more es)) [
        | inl failed ↦ absurd (ground arith)
        | inr ((xs, u, l), e) ↦
            let is : record env { routes = rs } ∷ xs ≡ es' = ground arith in
            moved used u used' (run_ports rs ++ all_run_ports xs) (all_run_ports es')
              (ap all_run_ports is) (ground arith)
              (Assigned-append used mid u (run_ports rs) (all_run_ports xs)
                (assign_routes-Assigned used answers env.routes rs mid more given)
                (assign_environments-Assigned mid more es xs u l e))
      ]
    ]

-- In a preview whose ports could all be assigned, the spawned routes of all environments have
-- ports from 1 to 65535, and no two of them the same.
pub assign_ports-Unique :
    (answers : List ℤ) (es es' : List Environment)
    → assign_ports true answers es ≡ some es'
    → Unique (all_run_ports es') × All (λ p. in_range p ≡ true) (all_run_ports es')
unfolding assign_ports
assign_ports-Unique answers es es' h =
    elim (Option-cases (assign_environments true [] answers es)) [
      | inl failed ↦ absurd (ground arith)
      | inr ((xs, u, l), e) ↦
          let is : xs ≡ es' = ground arith in
          let (free, unique, _) = assign_environments-Assigned [] answers es xs u l e in
          (
            subst (λ x. Unique (all_run_ports x)) is unique,
            subst (λ x. All (λ p. in_range p ≡ true) (all_run_ports x)) is
                (All-map _ _ (λ p f. f.0) _ free),
          )
    ]
