-- ===== src/Store.antt =====
-- backend/internal/store/store.go: accounts, API keys and tunnel events. A table is the list of
-- its rows in the order of insertion, under the constraints that `Open` declares. `none` is a
-- database error, which changes nothing; `up` says whether the database answers at all. Random
-- identifiers and the time (Unix seconds, where the code stores RFC 3339 text) are arguments.
pub mod Users
pub mod Keys
pub mod Events
use roxey.Base.{
  ℕ, ◌+◌, Bool, true, false, not, ◌&&◌, ◌||◌, List, [], ◌∷◌, ◌++◌, map, Option, none, some, Bytes,
  codes, equal, is_empty, select, any, sort_by, take, ltb, if◌then◌else◌, length, is_some,
}
use roxey.Auth.Sessions.{Crypto}
use roxey.Std.Hex.{hex_encode}

pub record UserRow : Type 0 where
  pub id : Bytes
  pub email : Bytes
  pub password_hash : Bytes
  pub created_at : ℕ

pub record KeyRow : Type 0 where
  pub id : Bytes
  pub user_id : Bytes
  pub label : Bytes
  pub hash : Bytes
  pub created_at : ℕ
  pub last_used_at : Option ℕ

pub record EventRow : Type 0 where
  pub id : Bytes
  pub user_id : Bytes
  pub service : Bytes
  pub host : Bytes
  pub path : Bytes
  pub remote : Bytes
  pub connected_at : ℕ
  pub disconnected_at : Option ℕ

pub record Store : Type 0 where
  pub up : Bool
  -- whether the UPDATE of `ValidateAPIKey` goes through, where its SELECT does
  pub touches : Bool
  pub users : List UserRow
  pub api_keys : List KeyRow
  pub tunnel_events : List EventRow

pub record User : Type 0 where
  pub id : Bytes
  pub email : Bytes
  pub created_at : ℕ

pub record ApiKey : Type 0 where
  pub id : Bytes
  pub label : Bytes
  pub created_at : ℕ
  pub last_used_at : Option ℕ

-- the version that `Open` writes; an older database is refused, a new one has version 0
abbrev pub schema_version : ℕ
schema_version = 2

-- `Open`: what is at `path` (nothing, or a version with its tables) becomes a store.
unfoldable pub open_store : ℕ → Store → Option Store
open_store version st =
    if not st.up
    then none
    else if ltb 0 version && ltb version schema_version
    then none
    else some st

-- a statement of the database
abbrev pub exec {ℓ} : {A : Type ℓ} → Store → Option A → Option A
exec st r = if st.up then r else none

-- the first row that a test selects
unfoldable pub find_row {ℓ} : {A : Type ℓ} → (A → Bool) → List A → Option A
find_row p [] = none
find_row p (x ∷ xs) = if p x then some x else find_row p xs

abbrev pub has_email : Bytes → UserRow → Bool
has_email email u = equal u.email email

abbrev pub has_user_id : Bytes → UserRow → Bool
has_user_id id u = equal u.id id

abbrev pub to_user : UserRow → User
to_user u = record { id = u.id; email = u.email; created_at = u.created_at }

-- `CreateUser`: the primary key and the email are unique.
unfoldable pub create_user : Store → Bytes → Bytes → Bytes → ℕ → Option (Store × User)
create_user st email password_hash id now =
    let row : UserRow = record {
      id = id;
      email = email;
      password_hash = password_hash;
      created_at = now;
    } in
    exec st (
      if any (has_user_id id) st.users || any (has_email email) st.users
      then none
      else some (record st { users = st.users ++ (row ∷ []) }, to_user row))

-- `GetUserByEmail`: `some none` is an absent account.
unfoldable pub get_user_by_email : Store → Bytes → Option (Option (User × Bytes))
get_user_by_email st email = exec st (elim (find_row (has_email email) st.users) [
  | none ↦ some none
  | some u ↦ some (some (to_user u, u.password_hash))
])

-- `GetUserByID`
unfoldable pub get_user_by_id : Store → Bytes → Option (Option User)
get_user_by_id st id = exec st (elim (find_row (has_user_id id) st.users) [
  | none ↦ some none
  | some u ↦ some (some (to_user u))
])

abbrev pub set_password : Bytes → Bytes → UserRow → UserRow
set_password id password_hash u =
    if has_user_id id u then record u { password_hash = password_hash } else u

abbrev drop_user : Option (Store × User) → Option Store
drop_user none = none
drop_user (some (st, u)) = some st

-- `SeedSingleUser`
unfoldable pub seed_single_user : Store → Bytes → Bytes → Bytes → ℕ → Option Store
unfolding get_user_by_email create_user
seed_single_user st email password_hash id now = elim (get_user_by_email st email) [
  | none ↦ none
  | some none ↦ drop_user (create_user st email password_hash id now)
  | some (some (u, _)) ↦
      exec st (some (record st { users = map (set_password u.id password_hash) st.users }))
]

-- `hashKey`
unfoldable pub hash_key : Crypto → Bytes → Bytes
hash_key crypto k = hex_encode (crypto.sha256 k)

abbrev pub has_hash : Bytes → KeyRow → Bool
has_hash hash k = equal k.hash hash

abbrev pub has_key_id : Bytes → KeyRow → Bool
has_key_id id k = equal k.id id

abbrev pub of_user : Bytes → KeyRow → Bool
of_user user_id k = equal k.user_id user_id

abbrev pub to_key : KeyRow → ApiKey
to_key k = record {
  id = k.id;
  label = k.label;
  created_at = k.created_at;
  last_used_at = k.last_used_at;
}

-- `CreateAPIKey`; `random` is the hex text of the 24 random bytes.
unfoldable pub create_api_key :
    Crypto → Store → Bytes → Bytes → Bytes → Bytes → ℕ → Option (Store × Bytes × ApiKey)
unfolding hash_key
create_api_key crypto st user_id label random id now =
    let plain : Bytes = codes "rxy_" ++ random in
    let row : KeyRow = record {
      id = id;
      user_id = user_id;
      label = if is_empty label then codes "unnamed" else label;
      hash = hash_key crypto plain;
      created_at = now;
      last_used_at = none;
    } in
    exec st (
      if any (has_key_id id) st.api_keys || any (has_hash row.hash) st.api_keys
      then none
      else some (record st { api_keys = st.api_keys ++ (row ∷ []) }, plain, to_key row))

-- `ORDER BY created_at DESC`
abbrev pub newer : KeyRow → KeyRow → Bool
newer a b = ltb b.created_at a.created_at

-- `ListAPIKeys`
unfoldable pub list_api_keys : Store → Bytes → Option (List ApiKey)
list_api_keys st user_id =
    exec st (some (map to_key (sort_by newer (select (of_user user_id) st.api_keys))))

abbrev pub is_target : Bytes → Bytes → KeyRow → Bool
is_target user_id id k = has_key_id id k && of_user user_id k

-- `RevokeAPIKey`, with whether a row was affected
unfoldable pub revoke_api_key : Store → Bytes → Bytes → Option (Store × Bool)
revoke_api_key st user_id id = exec st (
    some (
      record st { api_keys = select (λ k. not (is_target user_id id k)) st.api_keys },
      any (is_target user_id id) st.api_keys,
    ))

abbrev pub touch : Bytes → ℕ → KeyRow → KeyRow
touch hash now k = if has_hash hash k then record k { last_used_at = some now } else k

-- `ValidateAPIKey`: the store afterwards, and the owner of a valid key
unfoldable pub validate_api_key : Crypto → Store → Bytes → ℕ → Store × Option Bytes
unfolding hash_key
validate_api_key crypto st plain now =
    if is_empty plain
    then (st, none)
    else if not st.up
    then (st, none)
    else elim (find_row (has_hash (hash_key crypto plain)) st.api_keys) [
      | none ↦ (st, none)
      | some k ↦
          if st.touches
          then (
            record st { api_keys = map (touch (hash_key crypto plain) now) st.api_keys },
            some k.user_id,
          )
          else (st, none)
    ]

-- `RecordConnect`. The identifier is an argument here, since the code returns it beside an error
-- too and the caller uses it all the same.
unfoldable pub record_connect :
    Store → Bytes → Bytes → Bytes → Bytes → Bytes → Bytes → ℕ → Option Store
record_connect st user_id service host path remote id now =
    let row : EventRow = record {
      id = id;
      user_id = user_id;
      service = service;
      host = host;
      path = path;
      remote = remote;
      connected_at = now;
      disconnected_at = none;
    } in
    exec st (
      if any (λ e. equal e.id id) st.tunnel_events
      then none
      else some (record st { tunnel_events = st.tunnel_events ++ (row ∷ []) }))

abbrev pub close_event : Bytes → ℕ → EventRow → EventRow
close_event id now e = if equal e.id id then record e { disconnected_at = some now } else e

-- `RecordDisconnect`
unfoldable pub record_disconnect : Store → Bytes → ℕ → Option Store
record_disconnect st id now =
    exec st (some (record st { tunnel_events = map (close_event id now) st.tunnel_events }))

abbrev pub later_event : EventRow → EventRow → Bool
later_event a b = ltb b.connected_at a.connected_at

-- `ListTunnelEvents`
unfoldable pub list_tunnel_events : Store → Bytes → ℕ → Option (List EventRow)
list_tunnel_events st user_id limit = exec st (
    some
      (take limit (sort_by later_event (select (λ e. equal e.user_id user_id) st.tunnel_events))))
