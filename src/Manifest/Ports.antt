-- ===== src/Manifest/Ports.antt =====
-- cli/manifest/manifest.go: what a port or host placeholder stands for.
use roxey.Base.{
  zero, suc, not, ◌&&◌, List, [], ◌∷◌, ◌++◌, none, some, Bytes, codes, equal, is_empty,
  if◌then◌else◌, Dict, lookup, insert,
}
use roxey.Std.Decimal.{ℤ, pos, negsuc}
use roxey.Manifest.{Manifest, Environment, Route, is_run}

pub data PortError : Type 0 where
  unknown_name not_assigned no_root_route many_root_routes : PortError

pub data PortResult : Type 0 where
  port_is : ℤ → PortResult
  port_error : PortError → PortResult

abbrev add_named : List Route → Dict ℤ → Dict ℤ
add_named [] d = d
add_named (r ∷ rs) d =
    add_named rs (if is_run r && not (is_empty r.name) then insert r.name r.port d else d)

-- the map that `portIndex` builds
unfoldable pub named_ports : List Environment → Dict ℤ → Dict ℤ
named_ports [] d = d
named_ports (e ∷ es) d = named_ports es (add_named e.routes d)

-- `portIndex.host`
unfoldable pub effective_host : Manifest → Bytes → Bytes
effective_host m name = elim (lookup name m.assigned_host_map) [
  | some assigned ↦ assigned
  | none ↦ elim (lookup name m.host_map) [ some final ↦ final | none ↦ name ]
]

-- the ports of the spawned routes at `/`
abbrev pub root_ports : List Route → List ℤ
root_ports [] = []
root_ports (r ∷ rs) =
    if equal r.path (codes "/") && is_run r then r.port ∷ root_ports rs else root_ports rs

unfoldable pub ports_at : Bytes → List Environment → List ℤ
ports_at host [] = []
ports_at host (e ∷ es) =
    let rest = ports_at host es in if equal e.host host then root_ports e.routes ++ rest else rest

-- `assignedPort`
abbrev pub assigned_port : ℤ → PortResult
assigned_port (pos zero) = port_error not_assigned
assigned_port (pos (suc n)) = port_is (pos (suc n))
assigned_port (negsuc n) = port_error not_assigned

abbrev pub only_port : List ℤ → PortResult
only_port [] = port_error no_root_route
only_port (p ∷ []) = assigned_port p
only_port (p ∷ q ∷ ps) = port_error many_root_routes

-- `portIndex.port`
unfoldable pub port_of : Manifest → Bytes → PortResult
port_of m name = elim (lookup name (named_ports m.environments [])) [
  | some p ↦ assigned_port p
  | none ↦ elim (lookup name m.host_map) [
    | none ↦ port_error unknown_name
    | some effective ↦ only_port (ports_at effective m.environments)
  ]
]
