-- ===== src/Auth/Sessions/Tokens.antt =====
-- backend/internal/auth/sessions.go: what the `Verify…` methods make of issued and of other tokens.
use roxey.Base.{
  ℕ, ◌+◌, ◌<◌, ◌≡◌, refl, true, false, ◌&&◌, [], ◌∷◌, ◌++◌, inl, inr, Option, none, some, arith,
  Bytes, codes, equal, equal_iff, equal_refl, cut, cut-append, cut_prefix-append,
  trim_prefix-append, contains_byte, leb, if◌then◌else◌, All, All-map, All-append, Bool-cases,
  Option-cases,
}
use roxey.Std.Base64.{encode, decode, AreBytes, decode-encode, encode_no_dot}
use roxey.Std.Decimal.{
  int64_limit, is_digit, format_nat, parse_int, parse_int-format_nat, format_nat-digits,
}
use roxey.Std.Hex.{is_hex, hex_encode-is_hex}
use roxey.Auth.Sessions.{
  Crypto, session_ttl, unexpired, expiring, sign, seal, unseal, check_mac, issue, read_session,
  verify, issue_gate, read_gate, verify_gate, gate_group_binding, issue_gate_group, read_gate_group,
  verify_gate_group,
}

-- A text that can stand in front of the separator of a payload.
abbrev pub IsBody : Bytes → Type 0
IsBody body = AreBytes body × (contains_byte b'|' body ≡ false)

-- The expiry of a token issued now is a 64-bit number.
abbrev pub Fits64 : ℕ → Type 0
Fits64 now = now + session_ttl < int64_limit

pub expiring-AreBytes : (body : Bytes) (now : ℕ) → AreBytes body → AreBytes (expiring body now)
expiring-AreBytes body now h =
    All-append (λ c. c < 256) body (b'|' ∷ format_nat (now + session_ttl)) h
      (
        omega arith,
        All-map (λ c. is_digit c ≡ true) (λ c. c < 256) (λ c d. ground arith) _
            (format_nat-digits (now + session_ttl)),
      )

pub cut-expiring :
    (body : Bytes) (now : ℕ)
    → contains_byte b'|' body ≡ false
    → cut b'|' (expiring body now) ≡ (body, format_nat (now + session_ttl), true)
cut-expiring body now h = cut-append b'|' body (format_nat (now + session_ttl)) h

pub unexpired-format_nat :
    (now issued : ℕ)
    → Fits64 issued
    → unexpired now (parse_int (format_nat (issued + session_ttl))) ≡ leb now (issued + session_ttl)
unexpired-format_nat now issued h = rw (parse_int-format_nat (issued + session_ttl) h)

pub read_session-expiring :
    (body : Bytes) (issued now : ℕ)
    → contains_byte b'|' body ≡ false
    → Fits64 issued
    → read_session now (expiring body issued)
      ≡ (if leb now (issued + session_ttl) then some body else none)
unfolding read_session
read_session-expiring body issued now h fits =
    rw (cut-expiring body issued h) (rw (unexpired-format_nat now issued fits))

pub read_gate-expiring :
    (host host' : Bytes) (issued now : ℕ)
    → contains_byte b'|' host ≡ false
    → Fits64 issued
    → read_gate now host' (expiring (codes "gate:" ++ host) issued)
      ≡ (equal host host' && leb now (issued + session_ttl))
unfolding read_gate
read_gate-expiring host host' issued now h fits =
    rw (trim_prefix-append (codes "gate:") (expiring host issued))
      (rw (cut-expiring host issued h) (rw (unexpired-format_nat now issued fits)))

no_bar : (s : Bytes) → All (λ c. is_hex c ≡ true) s → contains_byte b'|' s ≡ false
unfolding contains_byte
no_bar [] h = refl
no_bar (c ∷ s) h = ground (arith, no_bar s h.1)

is_hex-byte : (s : Bytes) → All (λ c. is_hex c ≡ true) s → AreBytes s
is_hex-byte s h = All-map (λ c. is_hex c ≡ true) (λ c. c < 256) (λ c e. ground arith) s h

pub gate-AreBytes : (host : Bytes) → AreBytes host → AreBytes (codes "gate:" ++ host)
gate-AreBytes host h = All-append (λ c. c < 256) (codes "gate:") host (omega arith) h

module _ (crypto : Crypto) (secret : Bytes) where
  -- A sealed payload is opened with the same secret.
  pub unseal-seal :
      (payload : Bytes)
      → AreBytes payload
      → unseal crypto secret (seal crypto secret payload) ≡ some payload
  unfolding unseal seal
  unseal-seal payload h =
      rw
        (cut-append b'.' (encode payload) (encode (sign crypto secret payload))
          (encode_no_dot payload))
        (rw
          (
            decode-encode payload h,
            decode-encode (sign crypto secret payload) (crypto.hmac_bytes secret payload),
          )
          (rw (equal_refl (sign crypto secret payload))))

  -- A session cookie names its user until the expiry, and nobody after it.
  pub verify-issue :
      (user_id : Bytes) (issued now : ℕ)
      → IsBody user_id
      → Fits64 issued
      → verify crypto secret (issue crypto secret user_id issued) now
        ≡ (if leb now (issued + session_ttl) then some user_id else none)
  unfolding verify issue
  verify-issue user_id issued now b fits =
      rw (unseal-seal (expiring user_id issued) (expiring-AreBytes user_id issued b.0), verify)
        (read_session-expiring user_id issued now b.1 fits)

  -- A gate token opens the host that it was issued for, until the expiry, and no other host.
  pub verify_gate-issue_gate :
      (host host' : Bytes) (issued now : ℕ)
      → IsBody host
      → Fits64 issued
      → verify_gate crypto secret (issue_gate crypto secret host issued) host' now
        ≡ (equal host host' && leb now (issued + session_ttl))
  unfolding verify_gate issue_gate
  verify_gate-issue_gate host host' issued now b fits =
      rw
        (
          unseal-seal (expiring (codes "gate:" ++ host) issued)
              (expiring-AreBytes (codes "gate:" ++ host) issued (gate-AreBytes host b.0)),
          verify_gate,
        )
        (read_gate-expiring host host' issued now b.1 fits)

  binding-is_hex :
      (u g p : Bytes) → All (λ c. is_hex c ≡ true) (gate_group_binding crypto secret u g p)
  unfolding gate_group_binding
  binding-is_hex u g p = hex_encode-is_hex _ (crypto.sha256_bytes _)

  pub group-AreBytes :
      (u g p : Bytes) → AreBytes (codes "gate-group:" ++ gate_group_binding crypto secret u g p)
  group-AreBytes u g p =
      All-append (λ c. c < 256) (codes "gate-group:") _ (omega arith)
        (is_hex-byte _ (binding-is_hex u g p))

  -- A group token opens the tunnels whose owner, group and secret have the digest that the token
  -- binds, until the expiry, and no others.
  pub verify_gate_group-issue :
      (u g p u' g' p' : Bytes) (issued now : ℕ)
      → Fits64 issued
      → verify_gate_group crypto secret (issue_gate_group crypto secret u g p issued) u' g' p' now
        ≡ (equal
              (gate_group_binding crypto secret u g p)
              (gate_group_binding crypto secret u' g' p')
            && leb now (issued + session_ttl))
  unfolding verify_gate_group issue_gate_group read_gate_group
  verify_gate_group-issue u g p u' g' p' issued now fits =
      let binding = gate_group_binding crypto secret u g p in
      rw
        (
          unseal-seal (expiring (codes "gate-group:" ++ binding) issued)
              (expiring-AreBytes (codes "gate-group:" ++ binding) issued (group-AreBytes u g p)),
          verify_gate_group,
        )
        (rw (cut_prefix-append (codes "gate-group:") (expiring binding issued)) (
          rw (cut-expiring binding issued (no_bar binding (binding-is_hex u g p)))
            (rw (unexpired-format_nat now issued fits))))

  check_mac-some :
      (p got : Option Bytes) (payload : Bytes)
      → check_mac crypto secret p got ≡ some payload
      → (p ≡ some payload) × (got ≡ some (sign crypto secret payload))
  check_mac-some none got payload h = cc
  check_mac-some (some x) none payload h = cc
  check_mac-some (some x) (some y) payload h = ground (arith, equal_iff y (sign crypto secret x))

  -- Whatever value is opened carries the code that the secret gives for its payload.
  pub unseal-signed :
      (value payload : Bytes)
      → unseal crypto secret value ≡ some payload
      → (decode (cut b'.' value).0 ≡ some payload)
        × (decode (cut b'.' value).1 ≡ some (sign crypto secret payload))
        × ((cut b'.' value).2 ≡ true)
  unfolding unseal
  unseal-signed value payload h = elim (Bool-cases (cut b'.' value).2) [
    | inl ok ↦
        let both =
          check_mac-some (decode (cut b'.' value).0) (decode (cut b'.' value).1) payload
            (rw (ok, unseal) at h) in
        (both.0, both.1, ok)
    | inr no_dot ↦ absurd (ground arith)
  ]

  -- `Verify` accepts only a value whose signature part decodes to the code of its payload under
  -- the server's secret, whose payload begins with the user that it returns, and whose expiry is
  -- a number that the clock has not passed.
  pub verify_signed :
      (value user_id : Bytes) (now : ℕ)
      → verify crypto secret value now ≡ some user_id
      → (payload : Bytes) × (decode (cut b'.' value).0 ≡ some payload)
        × (decode (cut b'.' value).1 ≡ some (sign crypto secret payload))
        × ((cut b'|' payload).0 ≡ user_id)
        × (unexpired now (parse_int (cut b'|' payload).1) ≡ true)
  unfolding verify read_session
  verify_signed value user_id now h = elim (Option-cases (unseal crypto secret value)) [
    | inl e ↦ absurd (ground arith)
    | inr (payload, e) ↦
        let signed = unseal-signed value payload e in
        let read : read_session now payload ≡ some user_id = rw (e, verify) at h in
        (payload, signed.0, signed.1, ground arith, ground arith)
  ]
