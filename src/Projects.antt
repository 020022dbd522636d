-- ===== src/Projects.antt =====
-- cli/internal/projects/projects.go: the registry of projects, without its file. A map is walked in
-- the order of its entries; the code sorts what it returns. Whether a directory exists is a
-- parameter.
pub mod Register
use roxey.Base.{
  Bool, true, false, not, List, [], ◌∷◌, ◌++◌, map, Option, none, some, Bytes, codes, equal,
  is_empty, Dict, lookup, delete, is_some, select, sort_by, any, if◌then◌else◌,
}
use roxey.Relay.{less_bytes}

pub record Project : Type 0 where
  pub name : Bytes
  pub path : Bytes
  pub tld : Bytes
  pub local : Bool
  pub hosts : List Bytes
  pub preview : Bool
  pub branch : Bytes
  pub auto_start : Bool
  pub added_at : Bytes

-- `Get`
abbrev pub get_project : Dict Project → Bytes → Option Project
get_project projects name = lookup name projects

-- `Forget`
unfoldable pub forget : Dict Project → Bytes → Dict Project × Bool
forget projects name =
    if is_some (lookup name projects) then (delete name projects, true) else (projects, false)

abbrev is_gone : (Bytes → Bool) → Bytes × Project → Bool
is_gone is_dir (name, p) = not (is_dir p.path)

-- `Prune`
unfoldable pub prune : (Bytes → Bool) → Dict Project → Dict Project × List Bytes
prune is_dir projects = (
  select (λ e. not (is_gone is_dir e)) projects,
  sort_by less_bytes (map (λ (e : Bytes × Project). e.0) (select (is_gone is_dir) projects)),
)

-- `SortedNames`
unfoldable pub sorted_names : Dict Project → List Bytes
sorted_names projects = sort_by less_bytes (map (λ (e : Bytes × Project). e.0) projects)

abbrev local_hosts : Project → List Bytes
local_hosts p =
    if p.local
    then (codes "roxey" ++ (b'.' ∷ p.tld)) ∷ map (λ h. h ++ (b'.' ∷ p.tld)) p.hosts
    else []

abbrev add_new : List Bytes → List Bytes → List Bytes
add_new [] set = set
add_new (h ∷ hs) set = add_new hs (if any (equal h) set then set else h ∷ set)

abbrev collect_hosts : Dict Project → List Bytes → List Bytes
collect_hosts [] set = set
collect_hosts ((name, p) ∷ ps) set = collect_hosts ps (add_new (local_hosts p) set)

-- `AllLocalHostFQDNs`
unfoldable pub all_local_hosts : Dict Project → List Bytes
all_local_hosts projects = sort_by less_bytes (collect_hosts projects [])

abbrev default_local_tld : Bytes
default_local_tld = codes "dev"

-- the loop of `PrimaryLocalTLD`, with `first`
unfoldable pub primary_in : Dict Project → Bytes → List Bytes → Bytes
primary_in projects first [] = if is_empty first then default_local_tld else first
primary_in projects first (n ∷ names) = elim (lookup n projects) [
  | none ↦ primary_in projects first names
  | some p ↦
      let rest = primary_in projects first names in
      let from_here = primary_in projects p.tld names in
      if not p.local
      then rest
      else if equal p.tld default_local_tld
      then p.tld
      else if is_empty first
      then from_here
      else rest
]

-- `PrimaryLocalTLD`
unfoldable pub primary_local_tld : Dict Project → Bytes
primary_local_tld projects = primary_in projects [] (sorted_names projects)
