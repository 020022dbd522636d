-- ===== src/Tests/Accounts.antt =====
-- Accounts, keys and events of backend/internal/store/store.go on a small database.
use roxey.Base.{◌≡◌, ◌++◌, ◌∷◌, [], refl, arith, true, false, Bytes, codes, some, none, equal}
use roxey.Store.{
  Store, User, ApiKey, KeyRow, create_user, get_user_by_email, seed_single_user, create_api_key,
  validate_api_key, revoke_api_key, list_api_keys, record_connect, record_disconnect,
}
use roxey.Store.Users.{
  hash_found, get_user_by_email-create_user, seed_single_user-lookup, create_user-AreDistinct,
}
use roxey.Store.Keys.{
  row_of, validate_api_key-create, validate_api_key-revoke, revoke_api_key-isolated,
}
use roxey.Tests.{crypto, store, alice}

users-AreDistinct : roxey.Store.Users.AreDistinct store.users
users-AreDistinct = ground arith

abbrev bo : User
bo = record { id = codes "bo"; email = codes "b@x"; created_at = 9 }

abbrev with_bo : Store
with_bo = record store {
  users =
      store.users
      ++ (record { id = codes "bo"; email = codes "b@x"; password_hash = codes "p"; created_at = 9 }
          ∷ []);
}

created : create_user store (codes "b@x") (codes "p") (codes "bo") 9 ≡ some (with_bo, bo)
unfolding create_user equal
created = refl

abbrev seeded : Store
seeded = record store {
  users =
      record { id = alice; email = codes "a@x"; password_hash = codes "new"; created_at = 1 } ∷ [];
}

seed : seed_single_user store (codes "a@x") (codes "new") (codes "id") 9 ≡ some seeded
unfolding seed_single_user roxey.Store.find_row equal
seed = refl

abbrev new_key : ApiKey
new_key = record { id = codes "k3"; label = codes "ci"; created_at = 9; last_used_at = none }

abbrev with_key : Store
with_key = record store {
  api_keys =
      store.api_keys
      ++ (record {
        id = codes "k3";
        user_id = alice;
        label = codes "ci";
        hash = roxey.Store.hash_key crypto (codes "rxy_longer");
        created_at = 9;
        last_used_at = none;
      }
          ∷ []);
}

minted :
    create_api_key crypto store alice (codes "ci") (codes "longer") (codes "k3") 9
    ≡ some (with_key, codes "rxy_longer", new_key)
unfolding create_api_key equal roxey.Std.Hex.hex_encode
minted = refl

abbrev first_key : KeyRow
first_key = record {
  id = codes "k1";
  user_id = alice;
  label = codes "laptop";
  hash = roxey.Store.hash_key crypto (codes "rxy_k");
  created_at = 2;
  last_used_at = none;
}

abbrev second_key : KeyRow
second_key = record {
  id = codes "k2";
  user_id = codes "bo";
  label = codes "desk";
  hash = roxey.Store.hash_key crypto (codes "rxy_long");
  created_at = 3;
  last_used_at = none;
}

abbrev revoked : Store
revoked = record store { api_keys = second_key ∷ [] }

revocation : revoke_api_key store alice (codes "k1") ≡ some (revoked, true)
unfolding revoke_api_key equal
revocation = refl

keys-AreDistinct : roxey.Store.Keys.AreDistinct store.api_keys
unfolding roxey.Store.hash_key roxey.Base.equal roxey.Std.Hex.hex_encode
keys-AreDistinct = ground arith

found : row_of crypto store (codes "rxy_k") ≡ some first_key
unfolding roxey.Store.find_row equal roxey.Store.hash_key roxey.Std.Hex.hex_encode
found = refl

validate_api_key-revoke_example : (validate_api_key crypto revoked (codes "rxy_k") 10).1 ≡ none
unfolding equal
validate_api_key-revoke_example =
    validate_api_key-revoke crypto store revoked alice (codes "k1") (codes "rxy_k") true 10
      first_key keys-AreDistinct revocation found

abbrev opened : Store
opened = record store {
  tunnel_events =
      record {
        id = codes "e";
        user_id = alice;
        service = codes "a";
        host = codes "a.x";
        path = [];
        remote = [];
        connected_at = 5;
        disconnected_at = none;
      }
      ∷ [];
}

abbrev closed : Store
closed = record store {
  tunnel_events =
      record {
        id = codes "e";
        user_id = alice;
        service = codes "a";
        host = codes "a.x";
        path = [];
        remote = [];
        connected_at = 5;
        disconnected_at = some 8;
      }
      ∷ [];
}

connect : record_connect store alice (codes "a") (codes "a.x") [] [] (codes "e") 5 ≡ some opened
unfolding record_connect
connect = refl

disconnect : record_disconnect opened (codes "e") 8 ≡ some closed
unfolding record_disconnect equal
disconnect = refl
