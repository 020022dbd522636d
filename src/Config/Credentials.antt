-- ===== src/Config/Credentials.antt =====
-- cli/internal/localrelay/ensure.go: the local relay keeps its account.
use roxey.Base.{
  ◌≡◌, refl, sym, ap, ◌∙◌, true, false, [], ◌∷◌, some, inl, inr, Bytes, is_empty, Dict, lookup,
  insert, lookup-insert, equal_refl, Bool-cases,
}
use roxey.Config.{
  ServerConfig, no_server, server_for, set_server, relay_vars, new_account, or_none, relay_env_with,
  lacks_account, relay_env, save_key,
}

server_for-set_server :
    (servers : Dict ServerConfig) (tld : Bytes) (sc : ServerConfig)
    → server_for (set_server servers tld sc) tld ≡ sc
server_for-set_server servers tld sc =
    let found : lookup tld (insert tld sc servers) ≡ some sc =
      rw (equal_refl tld) at (lookup-insert tld tld sc servers) in
    ap or_none found

made-lacks_account :
    (sc : ServerConfig) (first second : Bytes)
    → is_empty second ≡ false
    → lacks_account (new_account sc first second) ≡ false
made-lacks_account sc [] second h = rw h refl
made-lacks_account sc (c ∷ first) second h = rw h refl

-- `RelayEnv` with an account that is there, and without one.
relay_env-account :
    (path : Bytes → Bytes) (servers : Dict ServerConfig) (tld first second : Bytes)
    (sc : ServerConfig)
    → server_for servers tld ≡ sc
    → lacks_account sc ≡ false
    → relay_env path servers tld first second ≡ (servers, relay_vars path tld sc)
unfolding relay_env
relay_env-account path servers tld first second sc e h =
    ap (relay_env_with path servers tld first second) e ∙ rw h refl

relay_env-no_account :
    (path : Bytes → Bytes) (servers : Dict ServerConfig) (tld first second : Bytes)
    (sc : ServerConfig)
    → server_for servers tld ≡ sc
    → lacks_account sc ≡ true
    → relay_env path servers tld first second ≡ (
      set_server servers tld (new_account sc first second),
      relay_vars path tld (new_account sc first second),
    )
unfolding relay_env
relay_env-no_account path servers tld first second sc e h =
    ap (relay_env_with path servers tld first second) e ∙ rw h refl

-- Two calls in a row agree: where the first call has a password that is not empty at hand, the second
-- one for the same domain writes nothing and gives the same variables, whatever tokens it could draw.
-- So a relay that starts again, with nothing written in between, gets the account of its last start.
pub relay_env-again :
    (path : Bytes → Bytes) (servers : Dict ServerConfig) (tld first second third fourth : Bytes)
    → is_empty second ≡ false
    → relay_env path (relay_env path servers tld first second).0 tld third fourth
      ≡ relay_env path servers tld first second
relay_env-again path servers tld first second third fourth h =
    let sc = server_for servers tld in
    let made = new_account sc first second in
    elim (Bool-cases (lacks_account sc)) [
      | inr has ↦
          let kept = relay_env-account path servers tld first second sc refl has in
          ap (λ r. relay_env path r.0 tld third fourth) kept
          ∙ relay_env-account path servers tld third fourth sc refl has
          ∙ sym kept
      | inl lacks ↦
          let new = relay_env-no_account path servers tld first second sc refl lacks in
          ap (λ r. relay_env path r.0 tld third fourth) new
          ∙ relay_env-account path (set_server servers tld made) tld third fourth made
              (server_for-set_server servers tld made) (made-lacks_account sc first second h)
          ∙ sym new
    ]

-- `roxey auth` for the domain of a local relay saves the key and drops the account: the next start of
-- the relay gets a new account, whatever it had.
pub relay_env-save_key :
    (path : Bytes → Bytes) (servers : Dict ServerConfig) (tld api_key first second : Bytes)
    → (relay_env path (save_key servers tld api_key) tld first second).1
      ≡ relay_vars path tld (new_account (record no_server { api_key = api_key }) first second)
unfolding save_key
relay_env-save_key path servers tld api_key first second =
    let saved : ServerConfig = record no_server { api_key = api_key } in
    ap (λ r. r.1)
      (relay_env-no_account path (set_server servers tld saved) tld first second saved
        (server_for-set_server servers tld saved) refl)
