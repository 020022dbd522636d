-- ===== src/Auth/Sessions.antt =====
-- backend/internal/auth/sessions.go: HMAC-signed cookies. SHA-256 and HMAC come as a parameter,
-- the clock's reading in Unix seconds as an argument.
pub mod Tokens
pub mod Confusion
use roxey.Base.{
  ℕ, ◌+◌, ◌*◌, ◌≡◌, Bool, true, false, not, ◌&&◌, ◌||◌, List, [], ◌∷◌, ◌++◌, Option, none, some,
  Bytes, codes, equal, cut, cut_prefix, trim_prefix, has_prefix, take, leb, ltb, if◌then◌else◌,
  length, All,
}
use roxey.Std.Base64.{encode, decode, AreBytes}
use roxey.Std.Decimal.{ℤ, pos, negsuc, format_nat, parse_int}
use roxey.Std.Hex.{hex_encode}

-- Go's crypto packages, with what the program relies on: digests are 32 bytes.
pub record Crypto : Type 0 where
  pub sha256 : Bytes → Bytes
  -- the secret, then the message
  pub hmac : Bytes → Bytes → Bytes
  pub sha256_bytes : (m : Bytes) → AreBytes (sha256 m)
  pub sha256_length : (m : Bytes) → length (sha256 m) ≡ 32
  pub hmac_bytes : (k m : Bytes) → AreBytes (hmac k m)

abbrev pub session_ttl : ℕ
session_ttl = 7 * 24 * 60 * 60

abbrev pub session_cookie : Bytes
session_cookie = codes "roxey_session"

abbrev pub gate_cookie : Bytes
gate_cookie = codes "roxey_gate"

abbrev pub gate_group_cookie_prefix : Bytes
gate_group_cookie_prefix = codes "roxey_gate_"

-- `err == nil && now <= exp` on the outcome of `ParseInt`
abbrev pub unexpired : ℕ → Option ℤ → Bool
unexpired now none = false
unexpired now (some (pos exp)) = leb now exp
unexpired now (some (negsuc exp)) = false

-- the payload of a token: a body, `|`, and the expiry
abbrev pub expiring : Bytes → ℕ → Bytes
expiring body now = body ++ (b'|' ∷ format_nat (now + session_ttl))

-- the second half of `Verify`
unfoldable pub read_session : ℕ → Bytes → Option Bytes
read_session now payload =
    let (user_id, exp, ok) = cut b'|' payload in
    if ok && unexpired now (parse_int exp) then some user_id else none

-- the second half of `VerifyGate`
unfoldable pub read_gate : ℕ → Bytes → Bytes → Bool
read_gate now host payload =
    let (token_host, exp, ok) = cut b'|' (trim_prefix payload (codes "gate:")) in
    ok && equal token_host host && unexpired now (parse_int exp)

-- the second half of `VerifyGateGroup`, behind its `CutPrefix`
unfoldable pub read_gate_group : ℕ → Bytes → Option Bytes → Bool
read_gate_group now expected none = false
read_gate_group now expected (some body) =
    let (binding, exp, ok) = cut b'|' body in
    ok && equal binding expected && unexpired now (parse_int exp)

module _ (crypto : Crypto) (secret : Bytes) where
  -- `Sessions.sign`
  abbrev pub sign : Bytes → Bytes
  sign payload = crypto.hmac secret payload

  -- the base64 text that every `Issue…` method returns for its payload
  unfoldable pub seal : Bytes → Bytes
  seal payload = encode payload ++ (b'.' ∷ encode (sign payload))

  abbrev check_mac : Option Bytes → Option Bytes → Option Bytes
  check_mac (some payload) (some got) = if equal got (sign payload) then some payload else none
  check_mac _ _ = none

  -- the first half of every `Verify…` method: the payload of a token with a valid signature
  unfoldable pub unseal : Bytes → Option Bytes
  unseal value =
      let (val, sig, ok) = cut b'.' value in
      if ok then check_mac (decode val) (decode sig) else none

  -- `Sessions.Issue`
  unfoldable pub issue : Bytes → ℕ → Bytes
  issue user_id now = seal (expiring user_id now)

  -- `Sessions.Verify`; `none` is `errInvalidSession`.
  unfoldable pub verify : Bytes → ℕ → Option Bytes
  verify value now = elim (unseal value) [ none ↦ none | some payload ↦ read_session now payload ]

  -- `Sessions.IssueGate`
  unfoldable pub issue_gate : Bytes → ℕ → Bytes
  issue_gate host now = seal (expiring (codes "gate:" ++ host) now)

  -- `Sessions.VerifyGate`
  unfoldable pub verify_gate : Bytes → Bytes → ℕ → Bool
  verify_gate value host now = elim (unseal value) [
    | none ↦ false
    | some payload ↦ read_gate now host payload
  ]

  -- `gateGroupBinding`
  unfoldable pub gate_group_binding : Bytes → Bytes → Bytes → Bytes
  gate_group_binding user_id group protect_hash =
      hex_encode (crypto.sha256 (user_id ++ (0 ∷ (group ++ (0 ∷ protect_hash)))))

  -- `GateGroupCookieName`
  unfoldable pub gate_group_cookie_name : Bytes → Bytes → Bytes
  gate_group_cookie_name user_id group =
      gate_group_cookie_prefix ++ hex_encode (take 16 (crypto.sha256 (user_id ++ (0 ∷ group))))

  -- `Sessions.IssueGateGroup`
  unfoldable pub issue_gate_group : Bytes → Bytes → Bytes → ℕ → Bytes
  issue_gate_group user_id group protect_hash now =
      seal (expiring (codes "gate-group:" ++ gate_group_binding user_id group protect_hash) now)

  -- `Sessions.VerifyGateGroup`
  unfoldable pub verify_gate_group : Bytes → Bytes → Bytes → Bytes → ℕ → Bool
  unfolding read_gate_group
  verify_gate_group value user_id group protect_hash now = elim (unseal value) [
    | none ↦ false
    | some payload ↦
        read_gate_group now (gate_group_binding user_id group protect_hash)
          (cut_prefix payload (codes "gate-group:"))
  ]

-- `IsGateCookieName`
unfoldable pub is_gate_cookie_name : Bytes → Bool
is_gate_cookie_name name = equal name gate_cookie || has_prefix name gate_group_cookie_prefix
