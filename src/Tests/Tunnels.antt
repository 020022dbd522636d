-- ===== src/Tests/Tunnels.antt =====
-- The gate and the handshake of backend/main.go on small requests.
use roxey.Base.{
  ◌++◌, ◌≡◌, ◌≢◌, ◌⊎◌, inl, inr, ℕ, ◌+◌, ◌∷◌, [], refl, arith, true, false, Bytes, codes, some,
  none, equal, ◌&&◌, if◌then◌else◌,
}
use roxey.Auth.Limiter.{Limiter, new_limiter, allow}
use roxey.Auth.ClientIp.{Peer}
use roxey.Auth.Sessions.{issue_gate, gate_cookie, session_ttl}
use roxey.Relay.{Entry, Registry, new_registry, make_entry, register, resolve, check, table_at}
use roxey.Relay.Invariant.{state_of, new_registry-IsValid}
use roxey.Relay.Resolve.{takes_over}
use roxey.Relay.Restored.{IsOther}
use roxey.Server.Query.{query_get, query_values, remove_query_param, remove_query_param-values}
use roxey.Server.Gate.{
  Request, get, post, absent, basic, Response, forwarded, unlocked, error_page, strip_port,
  handle_entry, handle_tunnel_request, sanitize, credential_of,
}
use roxey.Server.Gate.Access.{
  is_grouped, MayPass, IsClean, is_blocked, handle_tunnel_request-forwarded,
}
use roxey.Server.Gate.Unlock.{handle_entry-limiter, serve_gate-unlocks}
use roxey.Server.Handshake.{
  Hello, World, Server, Tunnel, refused, connected, handle_ws_upgrade, hang_up, valid_service,
  protect_hash,
}
use roxey.Server.Handshake.Laws.{
  SameRoutes, host_of, handle_ws_upgrade-clean, handle_ws_upgrade-connected, hang_up-restores,
}
use roxey.Store.{validate_api_key}
use roxey.Tests.{crypto, secret, store, template, host, alice}
use roxey.Tests.Tokens.{host-IsBody, fits}

remove_query_param-values_example :
    query_values (remove_query_param (codes "a=1&t=2&t=3&a=4") (codes "t")) (codes "a")
    ≡ codes "1" ∷ codes "4" ∷ []
unfolding equal query_values roxey.Base.split roxey.Server.Query.query_unescape roxey.Base.cut
    roxey.Base.contains_byte
remove_query_param-values_example =
    remove_query_param-values (codes "a=1&t=2&t=3&a=4") (codes "t") (codes "a")

-- a tunnel that asks for the password `pw`
abbrev locked : Entry
locked = record template { protect_hash = protect_hash crypto (codes "pw") }

abbrev peer : Peer
peer = record { cf_connecting_ip = codes "9"; x_forwarded_for = []; remote_addr = [] }

-- a visit, a submitted password, and a visit with the password in a header
abbrev visit : Request
visit = record {
  method = get;
  host = host;
  path = codes "/p";
  raw_query = [];
  cookies = [];
  authorization = absent;
  peer = peer;
  form_password = none;
}

abbrev attempt : Request
attempt = record visit { method = post; form_password = some (codes "pw") }

abbrev ticket : Bytes
ticket = issue_gate crypto secret host 1_000

abbrev return_visit : Request
return_visit = record visit { cookies = (gate_cookie ++ (b'=' ∷ ticket)) ∷ [] }

abbrev with_header : Request
with_header = record visit { authorization = basic [] (codes "pw") }

abbrev limiter : Limiter
limiter = new_limiter 60 1 0

-- a limiter that allows nothing
abbrev shut : Limiter
shut = new_limiter 60 0 0

handle_entry-limiter_example :
    (handle_entry crypto secret shut (codes "x") false locked visit 1_000).0 ≡ shut
unfolding new_limiter protect_hash roxey.Std.Hex.hex_encode credential_of
    roxey.Server.Gate.visitor_credential roxey.Server.Cookies.read_cookie query_get roxey.Base.split
    roxey.Server.Query.query_unescape roxey.Base.cut equal
handle_entry-limiter_example =
    handle_entry-limiter crypto secret shut (codes "x") false locked visit 1_000

attempt_blocked : is_blocked crypto secret false locked attempt 1_000 ≡ true
unfolding protect_hash roxey.Std.Hex.hex_encode credential_of roxey.Server.Gate.visitor_credential
    roxey.Server.Cookies.read_cookie query_get roxey.Base.split roxey.Server.Query.query_unescape
    roxey.Base.cut equal
attempt_blocked = refl

serve_gate-unlocks_example :
    ((handle_entry crypto secret limiter (codes "x") false locked attempt 1_000).1
      ≡ unlocked (codes "/p") gate_cookie ticket (strip_port host))
    × (handle_entry crypto secret shut (codes "x") false locked return_visit 2_000 ≡ (
      shut,
      forwarded locked (
          sanitize crypto secret
            (credential_of crypto secret locked (is_grouped false locked) return_visit 2_000)
            return_visit),
    ))
unfolding allow new_limiter roxey.Base.lookup roxey.Server.Gate.check_gate_secret
    roxey.Std.Hex.hex_encode protect_hash roxey.Server.Cookies.read_cookie roxey.Base.split
    issue_gate roxey.Auth.Sessions.seal roxey.Std.Base64.encode roxey.Std.Decimal.format_nat
    roxey.Server.Cookies.trim roxey.Base.trim_right roxey.Base.trim_left roxey.Base.cut
serve_gate-unlocks_example =
    serve_gate-unlocks crypto secret limiter shut (codes "x") (codes "pw") false locked attempt
      return_visit 1_000 2_000 attempt_blocked refl refl refl refl host-IsBody fits (omega arith)
      refl

-- a registry with one tunnel that is locked
abbrev locked_registry : Registry
locked_registry = state_of (register new_registry locked [] 7 [] 100)

abbrev locked_entry : Entry
locked_entry = make_entry new_registry locked 7 [] 100

abbrev passed : Request
passed =
    sanitize crypto secret (credential_of crypto secret locked_entry false with_header 1_000)
      with_header

let_through :
    handle_tunnel_request crypto secret locked_registry limiter
      (codes "x")
      false
      host
      with_header
      1_000
    ≡ (limiter, forwarded locked_entry passed)
unfolding handle_tunnel_request resolve roxey.Base.lookup register roxey.Base.insert make_entry
    roxey.Relay.resolve_in handle_entry protect_hash roxey.Std.Hex.hex_encode credential_of
    roxey.Server.Gate.visitor_credential roxey.Server.Cookies.read_cookie
    roxey.Server.Gate.check_gate_secret
let_through = refl

handle_tunnel_request-forwarded_example :
    (resolve locked_registry host (codes "/p") ≡ some locked_entry)
    × MayPass crypto secret false locked_entry with_header 1_000
    × (limiter ≡ limiter)
    × IsClean crypto secret
        (credential_of crypto secret locked_entry (is_grouped false locked_entry) with_header 1_000)
        with_header
        passed
handle_tunnel_request-forwarded_example =
    handle_tunnel_request-forwarded crypto secret locked_registry limiter limiter (codes "x") false
      host locked_entry with_header passed 1_000 let_through

abbrev server : Server
server = record { registry = new_registry; store = store; released = [] }

abbrev world : World
world = record {
  upgraded = true;
  multiplexed = true;
  greeted = true;
  session = 7;
  now = 100;
  event_id = codes "e";
}

abbrev hello : Hello
hello = record {
  api_key = codes "rxy_k";
  service = codes "web";
  path_prefix = [];
  protect = [];
  gate_group = [];
  remote = [];
}

abbrev after : Server
after = (handle_ws_upgrade crypto server world true new_registry hello).0

abbrev web_entry : Entry
web_entry =
    make_entry new_registry (roxey.Server.Handshake.template crypto alice (codes "web") hello) 7 []
      100

abbrev tunnel : Tunnel
tunnel = record { host = codes "web"; path_prefix = []; entry = web_entry; event_id = codes "e" }

connects : handle_ws_upgrade crypto server world true new_registry hello ≡ (after, connected tunnel)
unfolding handle_ws_upgrade validate_api_key roxey.Store.find_row equal roxey.Std.Hex.hex_encode
    roxey.Server.Handshake.welcome roxey.Std.Label.label_matches check roxey.Base.lookup
    roxey.Server.Handshake.attach register roxey.Server.Handshake.greet
    roxey.Server.Handshake.tunnel_host
connects = refl

-- The greeting fails.
abbrev mute : World
mute = record world { greeted = false }

abbrev after_mute : Server
after_mute = (handle_ws_upgrade crypto server mute true new_registry hello).0

drops :
    handle_ws_upgrade crypto server mute true new_registry hello
    ≡ (after_mute, roxey.Server.Handshake.dropped)
unfolding handle_ws_upgrade validate_api_key roxey.Store.find_row equal roxey.Std.Hex.hex_encode
    roxey.Server.Handshake.welcome roxey.Std.Label.label_matches check roxey.Base.lookup
    roxey.Server.Handshake.attach register roxey.Server.Handshake.greet
drops = refl

handle_ws_upgrade-clean_example : SameRoutes new_registry after_mute.registry
handle_ws_upgrade-clean_example =
    handle_ws_upgrade-clean crypto server mute true new_registry hello after_mute
      roxey.Server.Handshake.dropped new_registry-IsValid drops (inl refl)

handle_ws_upgrade-connected_example :
    (user_id : Bytes) × ((validate_api_key crypto store (codes "rxy_k") 100).1 ≡ some user_id)
    × (valid_service true (codes "web") ≡ true)
    × (check new_registry (host_of crypto true user_id hello) [] ≡ none)
    × (web_entry.user_id ≡ user_id)
    × (web_entry.host ≡ host_of crypto true user_id hello)
    × (web_entry.ready ≡ false)
    × (true ≡ true)
    × (after.released ≡ web_entry.address ∷ [])
    × ((asked path : Bytes)
        → resolve after.registry asked path ≡ (
            if equal (host_of crypto true user_id hello) asked
              && takes_over
                  (table_at (host_of crypto true user_id hello) new_registry)
                  []
                  web_entry
                  path
            then some web_entry
            else resolve new_registry asked path))
handle_ws_upgrade-connected_example =
    handle_ws_upgrade-connected crypto server world true new_registry hello after tunnel
      new_registry-IsValid connects

-- later another tunnel stands beside this one
abbrev now_server : Server
now_server = record after { registry = state_of (register after.registry template [] 8 [] 150) }

another : IsOther web_entry (resolve now_server.registry host (codes "/"))
unfolding handle_ws_upgrade validate_api_key roxey.Store.find_row equal roxey.Std.Hex.hex_encode
    roxey.Server.Handshake.welcome roxey.Std.Label.label_matches check roxey.Base.lookup
    roxey.Server.Handshake.attach register roxey.Server.Handshake.greet
    roxey.Server.Handshake.tunnel_host resolve roxey.Relay.resolve_in roxey.Base.insert make_entry
    roxey.Server.Handshake.template
another = refl

hang_up-restores_example :
    SameRoutes new_registry (hang_up after tunnel 200).registry
    × (resolve (hang_up now_server tunnel 200).registry host (codes "/")
        ≡ resolve now_server.registry host (codes "/"))
hang_up-restores_example =
    hang_up-restores crypto server world true new_registry hello after now_server tunnel 200 host
      (codes "/") new_registry-IsValid connects another
