-- ===== src/Server/Accounts/Ownership.antt =====
-- backend/main.go: what the session of a request lets it do to the keys.
use roxey.Base.{
  ℕ, ◌≡◌, refl, ◌∙◌, ap, true, false, Option, none, some, Bytes, codes, ◌++◌, arith, inl, inr,
  Bool-cases, Option-cases, equal, leb, ◌+◌, trim_prefix,
}
use roxey.Auth.Sessions.{Crypto, issue_gate, verify, session_cookie, session_ttl}
use roxey.Auth.Sessions.Tokens.{IsBody, Fits64}
use roxey.Auth.Sessions.Confusion.{verify-issue_gate}
use roxey.Server.Accounts.{
  is_delete, ApiRequest, Answer, new_key, keys, keys_of, delete_key, revoked_by, unauthorized,
  sessioned,
}
use roxey.Server.Cookies.{read_cookie}
use roxey.Server.Gate.{post}
use roxey.Store.{Store, ApiKey, create_api_key, list_api_keys, revoke_api_key}
use roxey.Store.Keys.{revoke_api_key-isolated}

-- the account that a request's session names
abbrev pub session_user : Crypto → Bytes → ApiRequest → ℕ → Option Bytes
session_user crypto secret r now = elim (read_cookie r.cookies session_cookie) [
  | none ↦ none
  | some value ↦ verify crypto secret value now
]

module _ (crypto : Crypto) (secret : Bytes) where
  sessioned-none :
      (A : Type 0) (r : ApiRequest) (now : ℕ) (stop : Answer → A) (next : Bytes → A)
      → session_user crypto secret r now ≡ none
      → (a : Answer) × (sessioned crypto secret r now stop next ≡ stop a)
  unfolding sessioned
  sessioned-none A r now stop next h = elim (Option-cases (read_cookie r.cookies session_cookie)) [
    | inl missing ↦ (unauthorized r false, rw (missing, sessioned) refl)
    | inr (value, there) ↦
        let rejected : verify crypto secret value now ≡ none = ground arith in
        (unauthorized r true, rw (there, sessioned) (rw rejected refl))
  ]

  sessioned-some :
      (A : Type 0) (r : ApiRequest) (now : ℕ) (stop : Answer → A) (next : Bytes → A)
      (user_id : Bytes)
      → session_user crypto secret r now ≡ some user_id
      → sessioned crypto secret r now stop next ≡ next user_id
  unfolding sessioned
  sessioned-some A r now stop next user_id h =
      elim (Option-cases (read_cookie r.cookies session_cookie)) [
        | inl missing ↦ absurd (ground arith)
        | inr (value, there) ↦
            let named : verify crypto secret value now ≡ some user_id = ground arith in
            rw (there, sessioned) (rw named refl)
      ]

  -- A request whose session cookie is missing, forged or expired neither makes nor deletes a key.
  pub keys-no_session :
      (st : Store) (r : ApiRequest) (random id : Bytes) (now : ℕ)
      → session_user crypto secret r now ≡ none
      → ((keys crypto secret st r random id now).0 ≡ st)
        × ((delete_key crypto secret st r now).0 ≡ st)
  unfolding keys delete_key
  keys-no_session st r random id now h = (
    ap (λ (p : Store × Answer). p.0) (sessioned-none _ r now _ _ h).1,
    ap (λ (p : Store × Answer). p.0) (sessioned-none _ r now _ _ h).1,
  )

  revoked_by-isolated :
      (st : Store) (user_id id other : Bytes)
      → equal user_id other ≡ false
      → list_api_keys (revoked_by st (revoke_api_key st user_id id)).0 other
        ≡ list_api_keys st other
  revoked_by-isolated st user_id id other apart =
      elim (Option-cases (revoke_api_key st user_id id)) [
        | inl down ↦ rw down refl
        | inr ((st', hit), done) ↦ rw done (elim (Bool-cases hit) [
          | inl b ↦ rw b (revoke_api_key-isolated st st' user_id id other hit done apart).0
          | inr b ↦ rw b (revoke_api_key-isolated st st' user_id id other hit done apart).0
        ])
      ]

  -- A deletion that the session of one account asks for, whatever key it names, leaves the key list
  -- of every other account as it was.
  pub delete_key-isolated :
      (st : Store) (r : ApiRequest) (now : ℕ) (user_id other : Bytes)
      → session_user crypto secret r now ≡ some user_id
      → equal user_id other ≡ false
      → list_api_keys (delete_key crypto secret st r now).0 other ≡ list_api_keys st other
  unfolding delete_key
  delete_key-isolated st r now user_id other h apart =
      rw (sessioned-some _ r now _ _ user_id h) (elim (Bool-cases (is_delete r.method)) [
        | inl asked ↦
            rw asked
              (revoked_by-isolated st user_id (trim_prefix r.path (codes "/api/keys/")) other apart)
        | inr other_way ↦ rw other_way refl
      ])

  -- The unlock token of a gated preview, sent as a session cookie before it expires, makes an API
  -- key, for an account named `gate:` and the host that no one signed up.
  pub keys-gate_token :
      (st st' : Store) (r : ApiRequest) (host random id plain : Bytes) (key : ApiKey)
      (issued now : ℕ)
      → IsBody host
      → Fits64 issued
      → leb now (issued + session_ttl) ≡ true
      → read_cookie r.cookies session_cookie ≡ some (issue_gate crypto secret host issued)
      → r.method ≡ post
      → create_api_key crypto st (codes "gate:" ++ host) r.label random id now
        ≡ some (st', plain, key)
      → keys crypto secret st r random id now ≡ (st', new_key plain key)
  unfolding keys
  keys-gate_token st st' r host random id plain key issued now body fits fresh there posted made =
      let named : session_user crypto secret r now ≡ some (codes "gate:" ++ host) =
        rw (there, session_user)
          (verify-issue_gate crypto secret host issued now body fits ∙ rw fresh refl) in
      sessioned-some _ r now _ _ (codes "gate:" ++ host) named
      ∙ ap (keys_of crypto secret st r random id now (codes "gate:" ++ host)) posted
      ∙ rw (made, keys_of) refl
