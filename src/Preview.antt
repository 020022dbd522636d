-- ===== src/Preview.antt =====
-- cli/preview/preview.go: the hosts of a preview, and the ports of spawned routes. The answers of
-- the port allocator come as a list; where it ends the allocator has failed.
pub mod Distinct
pub mod Slug
use roxey.Base.{
  ℕ, Bool, true, false, not, ◌&&◌, ◌||◌, List, [], ◌∷◌, ◌++◌, map, Option, none, some, Bytes, codes,
  equal, cut, join, split, trim_suffix, ltb, leb, ◌==◌, any, if◌then◌else◌, Dict,
}
use roxey.Std.Decimal.{ℤ, pos, negsuc}
use roxey.Manifest.{Manifest, Environment, Route, is_run}

pub data Mode : Type 0 where
  subdomain flatten : Mode

-- `previewHost`; `ReplaceAll` of a dot by a dash is a split and a join
unfoldable pub preview_host : Mode → Bytes → Bytes → Bytes
preview_host flatten host slug = slug ++ (b'-' ∷ join (codes "-") (split b'.' host))
preview_host subdomain host slug =
    let (first, rest, dotted) = cut b'.' host in
    let label = trim_suffix first (codes "-") ++ (b'-' ∷ slug) in
    if dotted then label ++ (b'.' ∷ rest) else label

abbrev rehosted : Mode → Bytes → Environment → Environment
rehosted mode slug e = record e { host = preview_host mode e.host slug }

abbrev remapped : Mode → Bytes → Bytes × Bytes → Bytes × Bytes
remapped mode slug (orig, _) = (orig, preview_host mode orig slug)

-- `ApplyMode`
unfoldable pub apply_mode : Mode → Manifest → Bytes → Bytes → Manifest × Bytes
apply_mode mode m project slug = (
  record m {
    environments = map (rehosted mode slug) m.environments;
    host_map = map (remapped mode slug) m.host_map;
  },
  project ++ (b'-' ∷ b'-' ∷ slug),
)

abbrev pub same_port : ℤ → ℤ → Bool
same_port (pos m) (pos n) = m == n
same_port (negsuc m) (negsuc n) = m == n
same_port _ _ = false

-- `port > 0`
abbrev pub is_positive : ℤ → Bool
is_positive (pos n) = ltb 0 n
is_positive (negsuc n) = false

abbrev pub in_range : ℤ → Bool
in_range (pos n) = ltb 0 n && leb n 65535
in_range (negsuc n) = false

-- `distinctPort`: the port, and the answers left. `used` grows by the port.
unfoldable pub distinct_port : List ℤ → List ℤ → Option (ℤ × List ℤ)
distinct_port used [] = none
distinct_port used (p ∷ answers) =
    let later = distinct_port used answers in
    if not (in_range p) then none else if any (same_port p) used then later else some (p, answers)

-- The ports that are taken from the start: those that the manifest gives.
unfoldable pub declared : List Route → List ℤ
declared [] = []
declared (r ∷ rs) =
    let rest = declared rs in if is_run r && is_positive r.port then r.port ∷ rest else rest

-- a route that keeps its port
abbrev pub is_settled : Bool → Route → Bool
is_settled is_preview r = not (is_run r) || (not is_preview && is_positive r.port)

-- the second loop of `AssignPorts` over the routes of an environment, with the used ports and the
-- answers left
unfoldable pub assign_routes :
    Bool → List ℤ → List ℤ → List Route → Option (List Route × List ℤ × List ℤ)
unfolding distinct_port
assign_routes is_preview used answers [] = some ([], used, answers)
assign_routes is_preview used answers (r ∷ rs) =
    if is_settled is_preview r
    then elim (assign_routes is_preview used answers rs) [
      | none ↦ none
      | some (rs', used', left) ↦ some (r ∷ rs', used', left)
    ]
    else elim (distinct_port used answers) [
      | none ↦ none
      | some (p, more) ↦ elim (assign_routes is_preview (p ∷ used) more rs) [
        | none ↦ none
        | some (rs', used', left) ↦ some (record r { port = p } ∷ rs', used', left)
      ]
    ]

unfoldable pub assign_environments :
    Bool → List ℤ → List ℤ → List Environment → Option (List Environment × List ℤ × List ℤ)
assign_environments is_preview used answers [] = some ([], used, answers)
assign_environments is_preview used answers (e ∷ es) =
    elim (assign_routes is_preview used answers e.routes) [
      | none ↦ none
      | some (rs, used', more) ↦ elim (assign_environments is_preview used' more es) [
        | none ↦ none
        | some (es', used'', left) ↦ some (record e { routes = rs } ∷ es', used'', left)
      ]
    ]

unfoldable pub declared_in : List Environment → List ℤ
declared_in [] = []
declared_in (e ∷ es) = declared e.routes ++ declared_in es

-- `AssignPorts` up to its last loop, which rewrites the proxy targets of a preview
unfoldable pub assign_ports : Bool → List ℤ → List Environment → Option (List Environment)
assign_ports is_preview answers envs =
    elim (assign_environments is_preview (if is_preview then [] else declared_in envs) answers
      envs) [ none ↦ none | some (envs', used, left) ↦ some envs' ]
