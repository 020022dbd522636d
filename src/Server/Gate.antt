-- ===== src/Server/Gate.antt =====
-- backend/main.go: a request to a tunnel host, through the gate of a protected preview to the app.
pub mod Access
pub mod Unlock
use roxey.Base.{
  ℕ, Bool, true, false, not, ◌&&◌, ◌||◌, List, [], ◌∷◌, ◌++◌, Option, none, some, Bytes, codes,
  equal, cut, is_empty, if◌then◌else◌,
}
use roxey.Auth.ClientIp.{Peer, client_ip}
use roxey.Auth.Limiter.{Limiter, allow, nanoseconds}
use roxey.Auth.Sessions.{
  Crypto, gate_cookie, gate_group_cookie_name, verify_gate, verify_gate_group, issue_gate,
  issue_gate_group,
}
use roxey.Relay.{Entry, Registry, resolve}
use roxey.Std.Hex.{hex_encode}
use roxey.Server.Cookies.{strip_gate_cookies, read_cookie}
use roxey.Server.Query.{query_get, remove_query_param}

pub data Method : Type 0 where
  get post delete_method other_method : Method

-- The `Authorization` header, as far as `BasicAuth` tells one from another.
pub data Authorization : Type 0 where
  absent : Authorization
  -- user, then password
  basic : Bytes → Bytes → Authorization
  other_scheme : Bytes → Authorization

pub record Request : Type 0 where
  pub method : Method
  pub host : Bytes
  pub path : Bytes
  pub raw_query : Bytes
  pub cookies : List Bytes
  pub authorization : Authorization
  pub peer : Peer
  -- the submitted `password`; `none` is a form that cannot be parsed
  pub form_password : Option Bytes

-- The flags of `gateCredential`.
pub record Credential : Type 0 where
  pub by_cookie : Bool
  pub by_basic : Bool
  pub by_query : Bool

-- `credential == gateCredentialNone`
abbrev pub is_none : Credential → Bool
is_none c = not (c.by_cookie || c.by_basic || c.by_query)

-- What a visitor gets. A cookie carries its name, its value and its domain.
pub data Response : Type 0 where
  -- the request as it goes through the tunnel
  forwarded : Entry → Request → Response
  error_page : ℕ → Response
  -- the password page, and whether it says "denied"
  gate_page : Bool → Response
  redirect : Bytes → Response
  unlocked : Bytes → Bytes → Bytes → Bytes → Response

-- `stripPort`
unfoldable pub strip_port : Bytes → Bytes
strip_port host = (cut b':' host).0

abbrev pub is_post : Method → Bool
is_post post = true
is_post _ = false

module _ (crypto : Crypto) (secret : Bytes) where
  -- `checkGateSecret`
  unfoldable pub check_gate_secret : Bytes → Bytes → Bool
  check_gate_secret hash presented = equal (hex_encode (crypto.sha256 presented)) hash

  -- the name of the cookie that `visitorCredential` looks for
  abbrev pub gate_name : Entry → Bool → Bytes
  gate_name e grouped =
      if grouped then gate_group_cookie_name crypto secret e.user_id e.gate_group else gate_cookie

  abbrev pub is_grant : Entry → Bool → ℕ → Option Bytes → Bool
  is_grant e grouped now none = false
  is_grant e grouped now (some value) =
      if grouped
      then verify_gate_group crypto secret value e.user_id e.gate_group e.protect_hash now
      else verify_gate crypto secret value e.host now

  abbrev pub is_basic : Entry → Authorization → Bool
  is_basic e (basic user password) = check_gate_secret e.protect_hash password
  is_basic e _ = false

  -- `visitorCredential`
  unfoldable pub visitor_credential : Entry → Bool → Request → ℕ → Credential
  visitor_credential e grouped r now =
      let token = query_get r.raw_query (codes "access_token") in
      record {
        by_cookie = is_grant e grouped now (read_cookie r.cookies (gate_name e grouped));
        by_basic = is_basic e r.authorization;
        by_query = not (is_empty token) && check_gate_secret e.protect_hash token;
      }

  abbrev pub check_password : Entry → Bytes → Bool → Request → ℕ → Option Bytes → Response
  check_password e domain grouped r now none = error_page 400
  check_password e domain grouped r now (some password) =
      if check_gate_secret e.protect_hash password
      then (if grouped
          then unlocked r.path (gate_group_cookie_name crypto secret e.user_id e.gate_group)
              (issue_gate_group crypto secret e.user_id e.gate_group e.protect_hash now) domain
          else unlocked r.path gate_cookie (issue_gate crypto secret e.host now)
              (strip_port r.host))
      else gate_page true

  -- `serveGate`
  unfoldable pub serve_gate : Entry → Bytes → Bool → Request → ℕ → Response
  serve_gate e domain grouped r now =
      if is_post r.method
      then check_password e domain grouped r now r.form_password
      else if (visitor_credential e grouped r now).by_cookie
      then redirect r.path
      else gate_page false

  -- the request without the gate's own secrets
  unfoldable pub sanitize : Credential → Request → Request
  sanitize c r = record r {
    cookies = strip_gate_cookies r.cookies;
    authorization = if c.by_basic then absent else r.authorization;
    raw_query =
        if c.by_query then remove_query_param r.raw_query (codes "access_token") else r.raw_query;
  }

  abbrev no_credential : Credential
  no_credential = record { by_cookie = false; by_basic = false; by_query = false }

  -- the credential that `handleTunnelRequest` goes by
  unfoldable pub credential_of : Entry → Bool → Request → ℕ → Credential
  credential_of e grouped r now =
      if is_empty e.protect_hash then no_credential else visitor_credential e grouped r now

  unfoldable pub handle_entry : Limiter → Bytes → Bool → Entry → Request → ℕ → Limiter × Response
  handle_entry l domain single_user e r now =
      let grouped = not single_user && not (is_empty e.gate_group) in
      let credential = credential_of e grouped r now in
      let (l', allowed) = allow l (client_ip r.peer) (nanoseconds now) in
      if not (is_empty e.protect_hash) && is_none credential
      then (if is_post r.method
          then (l', if allowed then serve_gate e domain grouped r now else error_page 429)
          else (l, serve_gate e domain grouped r now))
      else (l, forwarded e (sanitize credential r))

  -- `handleTunnelRequest`
  unfoldable pub handle_tunnel_request :
      Registry → Limiter → Bytes → Bool → Bytes → Request → ℕ → Limiter × Response
  handle_tunnel_request reg l domain single_user host r now = elim (resolve reg host r.path) [
    | none ↦ (l, error_page 502)
    | some e ↦ handle_entry l domain single_user e r now
  ]
