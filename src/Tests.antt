-- ===== src/Tests.antt =====
-- Concrete inputs of the relay server, shared by the tests.
mod Routing
mod Tokens
mod Accounts
mod Tunnels
mod Names
mod Signup
mod Projects
mod Daemon
mod Commands
mod Processes
use roxey.Base.{ℕ, ◌%◌, ◌≡◌, ◌∷◌, [], refl, arith, true, false, Bytes, codes, length, none}
use roxey.Auth.Sessions.{Crypto}
use roxey.Std.Base64.{AreBytes}
use roxey.Store.{Store, hash_key}
use roxey.Relay.{Entry}

-- a digest of 32 bytes that tells inputs of different lengths apart
abbrev pub digest : Bytes → Bytes
digest m =
    length m % 256
    ∷ 2
    ∷ 3
    ∷ 4
    ∷ 5
    ∷ 6
    ∷ 7
    ∷ 8
    ∷ 1
    ∷ 2
    ∷ 3
    ∷ 4
    ∷ 5
    ∷ 6
    ∷ 7
    ∷ 8
    ∷ 1
    ∷ 2
    ∷ 3
    ∷ 4
    ∷ 5
    ∷ 6
    ∷ 7
    ∷ 8
    ∷ 1
    ∷ 2
    ∷ 3
    ∷ 4
    ∷ 5
    ∷ 6
    ∷ 7
    ∷ 8
    ∷ []

pub digest-AreBytes : (m : Bytes) → AreBytes (digest m)
digest-AreBytes m = ground arith

-- a stand-in for Go's crypto packages
abbrev pub crypto : Crypto
crypto = record {
  sha256 = digest;
  hmac = λ k m. digest m;
  sha256_bytes = digest-AreBytes;
  sha256_length = λ m. refl;
  hmac_bytes = λ k m. digest-AreBytes m;
}

abbrev pub secret : Bytes
secret = codes "s"

abbrev pub host : Bytes
host = codes "a.x"

abbrev pub alice : Bytes
alice = codes "al"

abbrev pub template : Entry
template = record {
  address = 0;
  ready = false;
  service = codes "a";
  host = host;
  user_id = alice;
  gate_group = [];
  protect_hash = [];
  connected_at = 0;
  remote = [];
  pending = true;
  session = 0;
}

-- a database with an account, a key of it (`rxy_k`) and a key of another account (`rxy_long`)
abbrev pub store : Store
store = record {
  up = true;
  touches = true;
  users =
      record { id = alice; email = codes "a@x"; password_hash = codes "h"; created_at = 1 } ∷ [];
  api_keys =
      record {
        id = codes "k1";
        user_id = alice;
        label = codes "laptop";
        hash = hash_key crypto (codes "rxy_k");
        created_at = 2;
        last_used_at = none;
      }
      ∷ record {
        id = codes "k2";
        user_id = codes "bo";
        label = codes "desk";
        hash = hash_key crypto (codes "rxy_long");
        created_at = 3;
        last_used_at = none;
      }
      ∷ [];
  tunnel_events = [];
}
