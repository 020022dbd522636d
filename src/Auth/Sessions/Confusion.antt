-- ===== src/Auth/Sessions/Confusion.antt =====
-- backend/internal/auth/sessions.go: the three kinds of token share one secret and one format.
-- Which `Verify…` method accepts which kind.
use roxey.Base.{
  ℕ, ◌+◌, ◌≡◌, false, ◌&&◌, ◌++◌, none, some, Bytes, codes, equal, cut_prefix, trim_prefix,
  contains_byte, leb, if◌then◌else◌,
}
use roxey.Auth.Sessions.{
  Crypto, session_ttl, expiring, issue, verify, issue_gate, verify_gate, read_gate,
  verify_gate_group, read_gate_group,
}
use roxey.Auth.Sessions.Tokens.{
  IsBody, Fits64, expiring-AreBytes, unseal-seal, read_session-expiring, gate-AreBytes,
  unexpired-format_nat, cut-expiring,
}

module _ (crypto : Crypto) (secret : Bytes) where
  -- `Verify` takes the unlock token of a gated preview for the session of an account named
  -- `gate:` and the host, since nothing in a token says which method may accept it.
  pub verify-issue_gate :
      (host : Bytes) (issued now : ℕ)
      → IsBody host
      → Fits64 issued
      → verify crypto secret (issue_gate crypto secret host issued) now
        ≡ (if leb now (issued + session_ttl) then some (codes "gate:" ++ host) else none)
  unfolding verify issue_gate contains_byte
  verify-issue_gate host issued now b fits =
      rw
        (
          unseal-seal crypto secret (expiring (codes "gate:" ++ host) issued)
              (expiring-AreBytes (codes "gate:" ++ host) issued (gate-AreBytes host b.0)),
          verify,
        )
        (read_session-expiring (codes "gate:" ++ host) issued now b.1 fits)

  -- A body without the prefix is read whole.
  no_prefix :
      (body : Bytes) (now : ℕ)
      → cut_prefix (expiring body now) (codes "gate:") ≡ none
      → trim_prefix (expiring body now) (codes "gate:") ≡ expiring body now
  unfolding trim_prefix
  no_prefix body now h = rw (h, trim_prefix)

  -- `VerifyGate` only trims its prefix, so the session cookie of a user whose identifier is the
  -- host's name opens that host.
  pub verify_gate-issue :
      (user_id host : Bytes) (issued now : ℕ)
      → IsBody user_id
      → Fits64 issued
      → cut_prefix (expiring user_id issued) (codes "gate:") ≡ none
      → verify_gate crypto secret (issue crypto secret user_id issued) host now
        ≡ (equal user_id host && leb now (issued + session_ttl))
  unfolding verify_gate issue read_gate
  verify_gate-issue user_id host issued now b fits plain =
      rw
        (
          unseal-seal crypto secret (expiring user_id issued)
              (expiring-AreBytes user_id issued b.0),
          verify_gate,
        )
        (rw (no_prefix user_id issued plain)
          (rw (cut-expiring user_id issued b.1) (rw (unexpired-format_nat now issued fits))))

  -- `VerifyGateGroup` cuts its prefix, and accepts no session cookie whose user identifier does
  -- not itself begin with that prefix.
  pub verify_gate_group-issue_session :
      (user_id u g p : Bytes) (issued now : ℕ)
      → IsBody user_id
      → cut_prefix (expiring user_id issued) (codes "gate-group:") ≡ none
      → verify_gate_group crypto secret (issue crypto secret user_id issued) u g p now ≡ false
  unfolding verify_gate_group issue read_gate_group
  verify_gate_group-issue_session user_id u g p issued now b plain =
      rw
        (
          unseal-seal crypto secret (expiring user_id issued)
              (expiring-AreBytes user_id issued b.0),
          verify_gate_group,
        )
        (rw plain)
