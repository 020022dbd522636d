-- ===== src/Tests/Projects.antt =====
-- A manifest of cli/manifest with two environments, and its ports in a preview.
use roxey.Base.{
  map, lower, ◌≡◌, ◌++◌, ◌∷◌, [], refl, true, false, List, Bytes, codes, some, All, arith,
}
use roxey.Std.Decimal.{ℤ, pos}
use roxey.Manifest.{System, Route, Environment, Manifest, valid, valid_host, validate_environments}
use roxey.Manifest.Validated.{AreUnique, IsEnvironment, validate_environments-IsEnvironment}
use roxey.Std.Label.{label_matches, dashed}
use roxey.Preview.Slug.{slugify}
use roxey.Preview.Slug.Label.{slugify-label}
use roxey.Preview.{in_range, assign_ports}
use roxey.Preview.Distinct.{Unique, all_run_ports, assign_ports-Unique}

-- a machine where every path is an absolute path of a directory, and no name is an address
abbrev machine : System
machine = record {
  is_ip = λ s. false;
  is_abs = λ p. true;
  join_path = λ d p. p;
  is_dir = λ p. true;
}

abbrev web : Route
web = record {
  path = codes "/";
  name = codes "web";
  target = [];
  command = codes "run";
  cwd = codes "/w";
  port = pos 3_000;
}

abbrev proxy : Route
proxy = record {
  path = codes "/api";
  name = [];
  target = codes "localhost:1";
  command = [];
  cwd = [];
  port = pos 0;
}

abbrev environments : List Environment
environments =
    record { host = codes "app"; protect = []; routes = web ∷ proxy ∷ [] }
    ∷ record { host = codes "b.app"; protect = []; routes = record web { name = [] } ∷ [] }
    ∷ []

abbrev manifest : Manifest
manifest = record {
  relay_server = record { tld = codes "dev"; api_key = []; local = true };
  environments = environments;
  dir = codes "/d";
  host_map = [];
  assigned_host_map = [];
}

passes : validate_environments machine manifest ≡ valid manifest
unfolding validate_environments valid_host roxey.Base.trim_suffix roxey.Base.split
    roxey.Std.Label.label_matches_star roxey.Base.has_prefix roxey.Manifest.check_route_name
passes = refl

validate_environments-IsEnvironment_example :
    All (λ (e : Environment). valid_host machine e.host ≡ true) environments
    × AreUnique environments
    × All IsEnvironment environments
validate_environments-IsEnvironment_example =
    validate_environments-IsEnvironment machine manifest manifest passes

-- The allocator gives 4000 twice.
abbrev answers : List ℤ
answers = pos 4_000 ∷ pos 4_000 ∷ pos 4_001 ∷ []

abbrev assigned : List Environment
assigned =
    record {
      host = codes "app";
      protect = [];
      routes = record web { port = pos 4_000 } ∷ proxy ∷ [];
    }
    ∷ record {
      host = codes "b.app";
      protect = [];
      routes = record web { name = []; port = pos 4_001 } ∷ [];
    }
    ∷ []

assigns : assign_ports true answers environments ≡ some assigned
unfolding assign_ports roxey.Preview.assign_environments roxey.Preview.assign_routes
assigns = refl

assign_ports-Unique_example :
    Unique (all_run_ports assigned) × All (λ p. in_range p ≡ true) (all_run_ports assigned)
assign_ports-Unique_example = assign_ports-Unique answers environments assigned assigns

-- a digest of four bytes
abbrev sum256 : Bytes → Bytes
sum256 s = 1 ∷ 2 ∷ 3 ∷ 255 ∷ []

-- `strings.ToLower` as far as these inputs go
abbrev ascii_lower : Bytes → Bytes
ascii_lower = map lower

slugify-label_example :
    label_matches dashed 61 (slugify sum256 ascii_lower (codes "--Fix/The Bug--")) ≡ true
slugify-label_example =
    slugify-label sum256 ascii_lower (codes "--Fix/The Bug--")
      (omega arith, (omega arith, (omega arith, (omega arith, tt)))) (omega arith)

slug_of_branch : slugify sum256 ascii_lower (codes "--Fix/The Bug--") ≡ codes "fix-the-bug"
unfolding slugify roxey.Base.trim_right roxey.Base.trim_left
slug_of_branch = refl
