-- ===== src/Server/Front.antt =====
-- backend/main.go: where the relay's handler sends a request, by its host and path.
use roxey.Base.{not, ◌∷◌, Bytes, codes, equal, has_suffix, trim_suffix, if◌then◌else◌}
use roxey.Server.Gate.{strip_port}

pub data Destination : Type 0 where
  healthy handshake account_pages unknown_host : Destination
  -- the request is for the tunnel of this host
  tunnel_of : Bytes → Destination

-- the handler of `main`
unfoldable pub route : Bytes → Bytes → Bytes → Bytes → Destination
unfolding strip_port
route admin_host domain host_header path =
    let host = strip_port host_header in
    if equal path (codes "/healthz")
    then healthy
    else if equal host admin_host
    then (if equal path (codes "/_ws") then handshake else account_pages)
    else if not (has_suffix host (b'.' ∷ domain))
    then unknown_host
    else tunnel_of (trim_suffix host (b'.' ∷ domain))
