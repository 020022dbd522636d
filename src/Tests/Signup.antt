-- ===== src/Tests/Signup.antt =====
-- The account handlers of backend/main.go on small requests.
use roxey.Base.{
  map, lower, ◌≡◌, ◌++◌, ◌∷◌, [], refl, arith, true, false, Bytes, codes, some, none, equal,
  equal_refl,
}
use roxey.Auth.Sessions.{issue, issue_gate, session_cookie}
use roxey.Server.Accounts.{
  Passwords, ApiRequest, signed_in, new_key, clean_email, sign_up_with, log_in, keys, delete_key,
}
use roxey.Server.Accounts.Login.{log_in-sign_up_with}
use roxey.Server.Accounts.Ownership.{session_user}
use roxey.Server.Gate.{delete_method, post}
use roxey.Store.{Store, User, ApiKey, get_user_by_email, list_api_keys, create_api_key}
use roxey.Tests.{crypto, secret, store, alice, host}

password-matches : (salt password h : Bytes) → some password ≡ some h → equal h password ≡ true
password-matches salt password h same = ground (arith, equal_refl password)

-- a stand-in for bcrypt: the hash of a password is the password
abbrev plain_text : Passwords
plain_text = record {
  hash = λ salt password. some password;
  matches = equal;
  matches_own = password-matches;
}

abbrev request : ApiRequest
request = record {
  method = post;
  path = codes "/api/keys/k2";
  cookies = [];
  peer = record { cf_connecting_ip = []; x_forwarded_for = []; remote_addr = [] };
  bearer = [];
  services = [];
  body = some (codes "a@x", codes "h");
  label = codes "l";
  accepts_html = false;
}

-- `strings.ToLower` as far as these inputs go
abbrev ascii_lower : Bytes → Bytes
ascii_lower = map lower

abbrev alice_user : User
alice_user = record { id = alice; email = codes "a@x"; created_at = 1 }

logs_in :
    log_in crypto secret plain_text ascii_lower store request 1_000
    ≡ signed_in (issue crypto secret alice 1_000) alice (codes "a@x")
unfolding log_in get_user_by_email roxey.Store.find_row equal roxey.Std.Space.trim_space
logs_in = refl

abbrev signed_up : Store
signed_up =
    (sign_up_with crypto secret plain_text ascii_lower store
      (clean_email ascii_lower (codes "b@x.y")) (codes "password") [] (codes "bo") 1_000).0

signs_up :
    sign_up_with crypto secret plain_text ascii_lower store
      (clean_email ascii_lower (codes "b@x.y"))
      (codes "password")
      []
      (codes "bo")
      1_000
    ≡ (signed_up, signed_in (issue crypto secret (codes "bo") 1_000) (codes "bo") (codes "b@x.y"))
unfolding sign_up_with roxey.Server.Accounts.valid_email roxey.Base.cut roxey.Std.Space.trim_space
    roxey.Base.contains_byte get_user_by_email roxey.Store.find_row equal roxey.Store.create_user
signs_up = refl

abbrev second_request : ApiRequest
second_request = record request { body = some (codes " B@x.y", codes "password") }

log_in-sign_up_with_example :
    log_in crypto secret plain_text ascii_lower signed_up second_request 2_000
    ≡ signed_in
        (issue crypto secret (codes "bo") 2_000)
        (codes "bo")
        (clean_email ascii_lower (codes "b@x.y"))
unfolding roxey.Std.Space.trim_space
log_in-sign_up_with_example =
    log_in-sign_up_with crypto secret plain_text ascii_lower store signed_up (codes "b@x.y")
      (codes " B@x.y") (codes "password") [] (codes "bo") (issue crypto secret (codes "bo") 1_000)
      (codes "bo") (codes "b@x.y") 1_000 2_000 second_request signs_up refl refl refl

-- a request with a session of alice
abbrev with_session : ApiRequest
with_session = record request {
  cookies = (session_cookie ++ (b'=' ∷ issue crypto secret alice 1_000)) ∷ [];
}

abbrev deletion : ApiRequest
deletion = record with_session { method = delete_method }

is_alice : session_user crypto secret deletion 2_000 ≡ some alice
unfolding roxey.Server.Cookies.read_cookie roxey.Base.split issue roxey.Auth.Sessions.seal
    roxey.Std.Base64.encode roxey.Std.Decimal.format_nat roxey.Server.Cookies.trim
    roxey.Base.trim_right roxey.Base.trim_left equal roxey.Base.cut roxey.Auth.Sessions.verify
    roxey.Auth.Sessions.unseal roxey.Std.Base64.decode roxey.Auth.Sessions.read_session
    roxey.Std.Decimal.parse_int
is_alice = refl

-- a request with the unlock token of a preview as its session cookie
abbrev with_ticket : ApiRequest
with_ticket = record request {
  cookies = (session_cookie ++ (b'=' ∷ issue_gate crypto secret host 1_000)) ∷ [];
}

abbrev minted_key : ApiKey
minted_key = record { id = codes "k9"; label = codes "l"; created_at = 2_000; last_used_at = none }

abbrev minted_store : Store
minted_store = record store {
  api_keys =
      store.api_keys
      ++ (record {
        id = codes "k9";
        user_id = codes "gate:" ++ host;
        label = codes "l";
        hash = roxey.Store.hash_key crypto (codes "rxy_longest");
        created_at = 2_000;
        last_used_at = none;
      }
          ∷ []);
}

mints :
    create_api_key crypto store
      (codes "gate:" ++ host)
      (codes "l")
      (codes "longest")
      (codes "k9")
      2_000
    ≡ some (minted_store, codes "rxy_longest", minted_key)
unfolding create_api_key equal roxey.Std.Hex.hex_encode
mints = refl
