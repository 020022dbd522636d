-- ===== src/Tests/Tokens.antt =====
-- Rate limits, signed cookies and client addresses of backend/internal/auth on small inputs.
use roxey.Base.{
  cut, ℕ, ◌≡◌, ◌≤◌, ◌++◌, ◌∷◌, [], refl, arith, true, false, Bytes, codes, length, some, none,
}
use roxey.Auth.Limiter.{new_limiter, recent}
use roxey.Auth.Limiter.Window.{
  Attempts, times, decisions, spec_decisions, InTime, allow-refines_history,
}
use roxey.Auth.Limiter.Bound.{accepted_by, EndsBy, allow_bounded}
use roxey.Auth.Sessions.{issue, verify, issue_gate, sign, unexpired}
use roxey.Auth.Sessions.Tokens.{IsBody, Fits64, verify-issue, verify_signed}
use roxey.Auth.Sessions.Confusion.{verify-issue_gate}
use roxey.Auth.ClientIp.{Peer}
use roxey.Std.Base64.{decode}
use roxey.Std.Decimal.{parse_int}
use roxey.Tests.{crypto, secret, host, alice}

-- three attempts of one address, of which two are allowed in ten nanoseconds
abbrev calls : Attempts
calls = (codes "k", 100) ∷ (codes "k", 101) ∷ (codes "k", 102) ∷ []

in_time : InTime 0 calls
in_time = ground arith

ends : EndsBy 0 105 calls
ends = ground arith

allow_bounded_example :
    length (recent 10 105 (times (codes "k") (accepted_by (new_limiter 10 2 0) calls))) ≤ 2
allow_bounded_example = allow_bounded 10 2 0 105 calls (codes "k") ends

allow-refines_history_example :
    decisions (new_limiter 10 2 0) calls
    ≡ spec_decisions (record { window = 10; max = 2; accepted = [] }) calls
allow-refines_history_example = allow-refines_history 10 2 0 calls in_time

pub host-IsBody : IsBody host
unfolding roxey.Base.contains_byte
host-IsBody = (ground arith, refl)

alice-IsBody : IsBody alice
unfolding roxey.Base.contains_byte
alice-IsBody = (ground arith, refl)

pub fits : Fits64 1_000
fits = omega arith

verify-issue_example : verify crypto secret (issue crypto secret alice 1_000) 2_000 ≡ some alice
verify-issue_example = verify-issue crypto secret alice 1_000 2_000 alice-IsBody fits

verify-issue_gate_example :
    verify crypto secret (issue_gate crypto secret host 1_000) 2_000 ≡ some (codes "gate:" ++ host)
verify-issue_gate_example = verify-issue_gate crypto secret host 1_000 2_000 host-IsBody fits

abbrev direct : Peer
direct = record { cf_connecting_ip = []; x_forwarded_for = []; remote_addr = codes "1.2:80" }

abbrev proxied : Peer
proxied = record {
  cf_connecting_ip = [];
  x_forwarded_for = codes "9, 8";
  remote_addr = codes "1.2:80";
}

opened : verify crypto secret (issue crypto secret alice 1_000) 2_000 ≡ some alice
opened = verify-issue crypto secret alice 1_000 2_000 alice-IsBody fits

abbrev cookie : Bytes
cookie = issue crypto secret alice 1_000

verify_signed_example :
    (payload : Bytes) × (decode (cut b'.' cookie).0 ≡ some payload)
    × (decode (cut b'.' cookie).1 ≡ some (sign crypto secret payload))
    × ((cut b'|' payload).0 ≡ alice)
    × (unexpired 2_000 (parse_int (cut b'|' payload).1) ≡ true)
verify_signed_example = verify_signed crypto secret cookie alice 2_000 opened
