-- ===== src/Server/Handshake.antt =====
-- backend/main.go: `handleWSUpgrade`, from a CLI's websocket request to its tunnel and back down.
pub mod Laws
use roxey.Base.{
  ℕ, ◌+◌, Bool, true, false, not, ◌&&◌, List, [], ◌∷◌, ◌++◌, Option, none, some, Bytes, codes,
  equal, is_empty, take, if◌then◌else◌,
}
use roxey.Auth.Sessions.{Crypto}
use roxey.Relay.Service.{validate_service}
use roxey.Relay.{Entry, Registry, RegisterError, Registered, ok, err, check, register, unregister}
use roxey.Std.Hex.{hex_encode}
use roxey.Std.Label.{dotted, label_matches}
use roxey.Store.{Store, validate_api_key, record_connect, record_disconnect}

-- `looseServiceRe`
abbrev pub loose_service : Bytes → Bool
loose_service service = label_matches dotted 58 service

-- the check of the service name, by the kind of relay
abbrev pub valid_service : Bool → Bytes → Bool
valid_service single_user service =
    if single_user then loose_service service else validate_service service

-- What the handler reads of the request: the bearer key and the query parameters.
pub record Hello : Type 0 where
  pub api_key : Bytes
  pub service : Bytes
  pub path_prefix : Bytes
  pub protect : Bytes
  pub gate_group : Bytes
  pub remote : Bytes

-- What the world does: whether the upgrade, the yamux session and the greeting succeed, the
-- session, the time and the random identifier of the event.
pub record World : Type 0 where
  pub upgraded : Bool
  pub multiplexed : Bool
  pub greeted : Bool
  pub session : ℕ
  pub now : ℕ
  pub event_id : Bytes

pub record Tunnel : Type 0 where
  pub host : Bytes
  pub path_prefix : Bytes
  pub entry : Entry
  pub event_id : Bytes

pub data Outcome : Type 0 where
  -- an HTTP error instead of the upgrade
  refused : ℕ → Outcome
  -- the connection is closed again
  dropped : Outcome
  -- the tunnel is up and `Ready` has been called on its entry
  connected : Tunnel → Outcome

-- The parts of the server that the handler changes. `released` are the addresses of the entries
-- on which `Ready` has been called: the channel of an entry is shared by all its pointers.
pub record Server : Type 0 where
  pub registry : Registry
  pub store : Store
  pub released : List ℕ

-- `sha256(secret)` in hex, or nothing where no secret is given
unfoldable pub protect_hash : Crypto → Bytes → Bytes
protect_hash crypto secret = if is_empty secret then [] else hex_encode (crypto.sha256 secret)

-- `tunnelHost`
unfoldable pub tunnel_host : Crypto → Bool → Bytes → Bytes → Bytes
tunnel_host crypto single_user user_id service =
    if single_user
    then service
    else service ++ (b'-' ∷ take 6 (hex_encode (crypto.sha256 (user_id ++ (b'|' ∷ service)))))

unfoldable pub template : Crypto → Bytes → Bytes → Hello → Entry
unfolding protect_hash
template crypto user_id host h = record {
  address = 0;
  ready = false;
  service = h.service;
  host = host;
  user_id = user_id;
  gate_group = h.gate_group;
  protect_hash = protect_hash crypto h.protect;
  connected_at = 0;
  remote = [];
  pending = true;
  session = 0;
}

-- The store after `RecordConnect`, whose error is only logged.
abbrev pub logged : Store → Option Store → Store
logged st none = st
logged st (some st') = st'

-- behind the registration: the greeting, `Ready` and the history
unfoldable pub greet : Server → World → Bytes → Bytes → Hello → Entry → Registry → Server × Outcome
greet s w user_id host h e reg =
    if w.greeted
    then (
      record {
        registry = reg;
        store =
            logged s.store (
              record_connect s.store user_id h.service host h.path_prefix h.remote w.event_id
                w.now);
        released = e.address ∷ s.released;
      },
      connected
          (record { host = host; path_prefix = h.path_prefix; entry = e; event_id = w.event_id }),
    )
    else (record s { registry = unregister reg host h.path_prefix e }, dropped)

abbrev pub admit : Server → World → Bytes → Bytes → Hello → Registered → Server × Outcome
admit s w user_id host h (ok reg e) = greet s w user_id host h e reg
admit s w user_id host h (err why reg) = (record s { registry = reg }, dropped)

-- behind the check: the upgrade, yamux and the registration
unfoldable pub attach : Crypto → Server → World → Bytes → Bytes → Hello → Server × Outcome
attach crypto s w user_id host h =
    if not (w.upgraded && w.multiplexed)
    then (s, dropped)
    else admit s w user_id host h (
        register s.registry (template crypto user_id host h) h.path_prefix w.session h.remote w.now)

abbrev pub checked : Option RegisterError → Server × Outcome → Server → Server × Outcome
checked none go s = go
checked (some why) go s = (s, refused 409)

-- behind the key: the service name and the check
unfoldable pub welcome :
    Crypto → Server → World → Bool → Registry → Hello → Bytes → Server × Outcome
welcome crypto s w single_user seen h user_id =
    if valid_service single_user h.service
    then (let host = tunnel_host crypto single_user user_id h.service in
        checked (check seen host h.path_prefix) (attach crypto s w user_id host h) s)
    else (s, refused 400)

-- `handleWSUpgrade` up to its loop. `seen` is the registry at the time of the check; other
-- connections may have changed it by the registration, which works on `s.registry`.
unfoldable pub handle_ws_upgrade :
    Crypto → Server → World → Bool → Registry → Hello → Server × Outcome
handle_ws_upgrade crypto s w single_user seen h =
    let (st, owner) = validate_api_key crypto s.store h.api_key w.now in
    let s' = record s { store = st } in
    elim owner [
      | none ↦ (s', refused 401)
      | some user_id ↦ welcome crypto s' w single_user seen h user_id
    ]

-- the deferred function of `handleWSUpgrade`, when the session ends
unfoldable pub hang_up : Server → Tunnel → ℕ → Server
hang_up s t now = record s {
  registry = unregister s.registry t.host t.path_prefix t.entry;
  store =
      if is_empty t.event_id
      then s.store
      else logged s.store (record_disconnect s.store t.event_id now);
}
