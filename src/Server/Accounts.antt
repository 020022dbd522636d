-- ===== src/Server/Accounts.antt =====
-- backend/main.go: the handlers of `buildMux` behind /api/, over the store, the sessions and the
-- limiter. bcrypt and `strings.ToLower` are parameters. Times are in seconds, random identifiers and
-- salts arguments.
pub mod Login
pub mod Ownership
use roxey.Base.{
  ℕ, ◌≡◌, Bool, true, false, not, ◌&&◌, ◌||◌, List, [], ◌∷◌, map, Option, none, some, Bytes, codes,
  equal, is_empty, cut, split, trim_prefix, contains_byte, length, ltb, any, if◌then◌else◌, ◌==◌,
}
use roxey.Auth.ClientIp.{Peer, client_ip}
use roxey.Auth.Limiter.{Limiter, allow, nanoseconds}
use roxey.Auth.Sessions.{Crypto, session_cookie, issue, verify}
use roxey.Relay.{Registry, ActiveTunnel, list_active}
use roxey.Std.Space.{trim_space}
use roxey.Server.Cookies.{read_cookie}
use roxey.Server.Gate.{Method, get, post, delete_method, is_post}
use roxey.Server.Handshake.{valid_service, tunnel_host}
use roxey.Store.{
  Store, User, ApiKey, EventRow, get_user_by_email, get_user_by_id, create_user, list_api_keys,
  create_api_key, revoke_api_key, validate_api_key, list_tunnel_events,
}

abbrev pub is_delete : Method → Bool
is_delete delete_method = true
is_delete _ = false

-- bcrypt: a hash of a password, from a salt, which may be refused, and the comparison, which
-- accepts the password of a hash
pub record Passwords : Type 0 where
  pub hash : Bytes → Bytes → Option Bytes
  pub matches : Bytes → Bytes → Bool
  pub matches_own :
      (salt password h : Bytes) → hash salt password ≡ some h → matches h password ≡ true

pub record ApiRequest : Type 0 where
  pub method : Method
  pub path : Bytes
  pub cookies : List Bytes
  pub peer : Peer
  -- the bearer key, and the query parameter `services`
  pub bearer : Bytes
  pub services : Bytes
  -- the email and password of the body; `none` is a body that cannot be decoded
  pub body : Option (Bytes × Bytes)
  pub label : Bytes
  pub accepts_html : Bool

pub data Answer : Type 0 where
  -- an HTTP error
  failed : ℕ → Answer
  -- the redirect or the 401 of `unauthorized`, and whether the session cookie is cleared
  login_page unauthorized_error : Bool → Answer
  -- a session cookie, and the account's id and email
  signed_in : Bytes → Bytes → Bytes → Answer
  account : Bytes → Bytes → Answer
  no_content : Answer
  key_list : List ApiKey → Answer
  new_key : Bytes → ApiKey → Answer
  host_list : List (Bytes × Bytes) → Answer
  tunnel_list : List ActiveTunnel → Answer
  event_list : List EventRow → Answer

-- a dot that is neither the first nor the last byte
unfoldable pub has_inner_dot : Bytes → Bool
has_inner_dot [] = false
has_inner_dot (c ∷ s) = dot_before_end s
  where
    dot_before_end : Bytes → Bool
    dot_before_end [] = false
    dot_before_end (d ∷ []) = false
    dot_before_end (d ∷ e ∷ t) = d == b'.' || dot_before_end (e ∷ t)

-- `\s` of Go's regular expressions
abbrev is_white : ℕ → Bool
is_white c = c == b' ' || c == 9 || c == 10 || c == 12 || c == 13

-- `emailRe`: `^[^@\s]+@[^@\s]+\.[^@\s]+$`
unfoldable pub valid_email : Bytes → Bool
unfolding has_inner_dot
valid_email s =
    let (user, domain, found) = cut b'@' s in
    found
    && not (is_empty user)
    && not (any is_white s)
    && not (contains_byte b'@' domain)
    && has_inner_dot domain

-- `strings.ToLower(strings.TrimSpace(body.Email))`; the letters that Unicode pairs are a parameter.
abbrev pub clean_email : (Bytes → Bytes) → Bytes → Bytes
clean_email to_lower email = to_lower (trim_space email)

-- `wantsHTML` and `unauthorized`
unfoldable pub unauthorized : ApiRequest → Bool → Answer
unauthorized r cleared =
    if not (roxey.Base.has_prefix r.path (codes "/api/")) && r.accepts_html
    then login_page cleared
    else unauthorized_error cleared

abbrev pub revoked_by : Store → Option (Store × Bool) → Store × Answer
revoked_by st none = (st, failed 500)
revoked_by st (some (st', hit)) = if hit then (st', no_content) else (st', failed 404)

module _ (crypto : Crypto) (secret : Bytes) (passwords : Passwords) (to_lower : Bytes → Bytes) where
  abbrev register_account : Store → Bytes → Bytes → Bytes → ℕ → Option Bytes → Store × Answer
  register_account st email password id now none = (st, failed 500)
  register_account st email password id now (some hash) = elim (create_user st email hash id now) [
    | none ↦ (st, failed 500)
    | some (st', u) ↦ (st', signed_in (issue crypto secret u.id now) u.id email)
  ]

  -- the part of the signup handler behind the decoding of the body
  unfoldable pub sign_up_with : Store → Bytes → Bytes → Bytes → Bytes → ℕ → Store × Answer
  sign_up_with st email password salt id now =
      if not (valid_email email)
      then (st, failed 400)
      else if ltb (length password) 8
      then (st, failed 400)
      else elim (get_user_by_email st email) [
        | none ↦ (st, failed 500)
        | some (some _) ↦ (st, failed 409)
        | some none ↦ register_account st email password id now (passwords.hash salt password)
      ]

  -- `/api/auth/signup`
  unfoldable pub sign_up :
      Limiter → Store → Bool → ApiRequest → Bytes → Bytes → ℕ → Limiter × (Store × Answer)
  sign_up l st single_user r salt id now =
      if single_user
      then (l, (st, failed 403))
      else if not (is_post r.method)
      then (l, (st, failed 405))
      else (let (l', allowed) = allow l (client_ip r.peer) (nanoseconds now) in
          if not allowed then (l', (st, failed 429)) else elim r.body [
            | none ↦ (l', (st, failed 400))
            | some (email, password) ↦
                (l', sign_up_with st (clean_email to_lower email) password salt id now)
          ])

  abbrev pub log_in_as : Bytes → ℕ → Option (Option (User × Bytes)) → Answer
  log_in_as password now none = failed 500
  log_in_as password now (some none) = failed 401
  log_in_as password now (some (some (u, hash))) =
      if passwords.matches hash password
      then signed_in (issue crypto secret u.id now) u.id u.email
      else failed 401

  -- `/api/auth/login`
  unfoldable pub log_in : Store → ApiRequest → ℕ → Answer
  log_in st r now = if not (is_post r.method) then failed 405 else elim r.body [
    | none ↦ failed 400
    | some (email, password) ↦
        log_in_as password now (get_user_by_email st (clean_email to_lower email))
  ]

module _ (crypto : Crypto) (secret : Bytes) where
  -- `sessioned`: the account of the request's session, or the answer in its place
  unfoldable pub sessioned {ℓ} : {A : Type ℓ} → ApiRequest → ℕ → (Answer → A) → (Bytes → A) → A
  sessioned r now stop next = elim (read_cookie r.cookies session_cookie) [
    | none ↦ stop (unauthorized r false)
    | some value ↦ elim (verify crypto secret value now) [
      | none ↦ stop (unauthorized r true)
      | some user_id ↦ next user_id
    ]
  ]

  -- `/api/me`
  unfoldable pub me : Store → ApiRequest → ℕ → Answer
  me st r now =
      sessioned r now (λ a. a)
        (λ user_id. elim (get_user_by_id st user_id) [
          | none ↦ failed 500
          | some none ↦ unauthorized r true
          | some (some u) ↦ account u.id u.email
        ])

  abbrev pub keys_of : Store → ApiRequest → Bytes → Bytes → ℕ → Bytes → Method → Store × Answer
  keys_of st r random id now user_id get = elim (list_api_keys st user_id) [
    | none ↦ (st, failed 500)
    | some ks ↦ (st, key_list ks)
  ]
  keys_of st r random id now user_id post =
      elim (create_api_key crypto st user_id r.label random id now) [
        | none ↦ (st, failed 500)
        | some (st', plain, key) ↦ (st', new_key plain key)
      ]
  keys_of st r random id now user_id _ = (st, failed 405)

  -- `/api/keys`
  unfoldable pub keys : Store → ApiRequest → Bytes → Bytes → ℕ → Store × Answer
  keys st r random id now =
      sessioned r now (λ a. (st, a)) (λ user_id. keys_of st r random id now user_id r.method)

  -- `/api/keys/<id>`
  unfoldable pub delete_key : Store → ApiRequest → ℕ → Store × Answer
  delete_key st r now =
      sessioned r now (λ a. (st, a))
        (λ user_id.
          if is_delete r.method
          then revoked_by st (revoke_api_key st user_id (trim_prefix r.path (codes "/api/keys/")))
          else (st, failed 405))

  -- `/api/tunnels`
  unfoldable pub tunnels : Registry → ApiRequest → ℕ → Answer
  tunnels reg r now = sessioned r now (λ a. a) (λ user_id. tunnel_list (list_active reg user_id))

  -- `/api/tunnel-events`
  unfoldable pub tunnel_events : Store → ApiRequest → ℕ → Answer
  tunnel_events st r now =
      sessioned r now (λ a. a)
        (λ user_id. elim (list_tunnel_events st user_id 100) [
          | none ↦ failed 500
          | some es ↦ event_list es
        ])

module _ (crypto : Crypto) where
  -- the loop of `/api/lookup`
  unfoldable pub hosts_for : Bool → Bytes → List Bytes → List (Bytes × Bytes)
  hosts_for single_user user_id [] = []
  hosts_for single_user user_id (s ∷ rest) =
      let others = hosts_for single_user user_id rest in
      if valid_service single_user (trim_space s)
      then (trim_space s, tunnel_host crypto single_user user_id (trim_space s)) ∷ others
      else others

  -- `/api/lookup`
  unfoldable pub look_up : Store → Bool → ApiRequest → ℕ → Store × Answer
  look_up st single_user r now =
      let (st', owner) = validate_api_key crypto st (trim_prefix r.bearer (codes "Bearer ")) now in
      elim owner [
        | none ↦ (st', failed 401)
        | some user_id ↦ (st', host_list (hosts_for single_user user_id (split b',' r.services)))
      ]
