-- ===== src/Projects/Register.antt =====
-- cli/internal/projects/projects.go: `Register`, whose loop over names is given fuel.
pub mod Named
use roxey.Base.{
  ℕ, zero, suc, ◌+◌, Bool, true, false, List, [], ◌∷◌, ◌++◌, Option, none, some, Bytes, Dict,
  lookup, insert, length, if◌then◌else◌,
}
use roxey.Std.Decimal.{format_nat}
use roxey.Std.Path.{clean, base_of, same_dir}
use roxey.Projects.{Project}

-- the name that the loop comes to after some rounds: `base`, `base-2`, `base-3` and so on
unfoldable pub candidate : Bytes → ℕ → Bytes
unfolding format_nat
candidate base zero = base
candidate base (suc n) = base ++ (b'-' ∷ format_nat (n + 2))

-- no project has the name, or the one that has it is in this directory
abbrev pub is_free : Bytes → Option Project → Bool
is_free dir none = true
is_free dir (some p) = same_dir p.path dir

-- the loop of `Register`; `none` is out of fuel.
unfoldable pub free_name : Bytes → Bytes → Dict Project → ℕ → ℕ → Option Bytes
unfolding candidate same_dir lookup
free_name base dir registry zero n = none
free_name base dir registry (suc fuel) n =
    let later = free_name base dir registry fuel (suc n) in
    if is_free dir (lookup (candidate base n) registry) then some (candidate base n) else later

-- the arguments of `Register`, and the time
pub record Registration : Type 0 where
  pub dir_path : Bytes
  pub tld : Bytes
  pub local : Bool
  pub hosts : List Bytes
  pub branch : Bytes
  pub preview : Bool
  pub now : Bytes

abbrev pub new_project : Registration → Bytes → Project
new_project r name = record {
  name = name;
  path = clean r.dir_path;
  tld = r.tld;
  local = r.local;
  hosts = r.hosts;
  preview = r.preview;
  branch = r.branch;
  auto_start = false;
  added_at = r.now;
}

abbrev pub put : Dict Project → Registration → Option Bytes → Option (Dict Project × Bytes)
put registry r none = none
put registry r (some name) = some (insert name (new_project r name) registry, name)

abbrev pub name_of : Dict Project → Registration → Option Bytes
name_of registry r =
    free_name (base_of (clean r.dir_path)) (clean r.dir_path) registry (suc (length registry)) 0

-- `Register`, with the final name; one round for each project and one more are enough.
unfoldable pub register_project : Dict Project → Registration → Option (Dict Project × Bytes)
unfolding free_name base_of clean
register_project registry r = put registry r (name_of registry r)
