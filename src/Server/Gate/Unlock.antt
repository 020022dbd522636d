-- ===== src/Server/Gate/Unlock.antt =====
-- backend/main.go: unlocking a protected preview, and what the rate limit covers.
use roxey.Base.{
  ℕ, ◌+◌, ◌≤◌, ◌≡◌, refl, ◌∙◌, Bool, true, false, ◌&&◌, inl, inr, some, arith, Bytes, equal_refl,
  if◌then◌else◌, Bool-cases,
}
use roxey.Auth.ClientIp.{client_ip}
use roxey.Auth.Limiter.{Limiter, allow, nanoseconds}
use roxey.Auth.Sessions.{Crypto, session_ttl, issue_gate, issue_gate_group, gate_group_binding}
use roxey.Auth.Sessions.Tokens.{IsBody, Fits64, verify_gate-issue_gate, verify_gate_group-issue}
use roxey.Relay.{Entry}
use roxey.Server.Cookies.{read_cookie}
use roxey.Server.Gate.{
  Request, forwarded, error_page, unlocked, is_post, sanitize, strip_port, gate_name,
  visitor_credential, handle_entry, credential_of, serve_gate, check_gate_secret,
}
use roxey.Server.Gate.Access.{is_grouped, is_blocked, handle_entry-open, handle_entry-blocked}

module _ (crypto : Crypto) (secret : Bytes) where
  -- Only a request that is kept at the gate and submits the form spends an attempt. Every other
  -- request, a wrong password in the `Authorization` header or a wrong `access_token` included,
  -- leaves the limiter as it was.
  pub handle_entry-limiter :
      (l : Limiter) (domain : Bytes) (single_user : Bool) (e : Entry) (r : Request) (now : ℕ)
      → (handle_entry crypto secret l domain single_user e r now).0 ≡ (
          if is_blocked crypto secret single_user e r now && is_post r.method
          then (allow l (client_ip r.peer) (nanoseconds now)).0
          else l)
  handle_entry-limiter l domain single_user e r now =
      elim (Bool-cases (is_blocked crypto secret single_user e r now)) [
        | inl b ↦ elim (Bool-cases (is_post r.method)) [
          | inl p ↦
              rw (handle_entry-blocked crypto secret l domain single_user e r now b) (rw (b, p))
          | inr p ↦
              rw (handle_entry-blocked crypto secret l domain single_user e r now b) (rw (b, p))
        ]
        | inr o ↦ rw (handle_entry-open crypto secret l domain single_user e r now o) (rw o)
      ]

  -- Once the limiter refuses, a submitted form is answered with 429 whatever password it holds.
  pub handle_entry-limited :
      (l : Limiter) (domain : Bytes) (single_user : Bool) (e : Entry) (r : Request) (now : ℕ)
      → is_blocked crypto secret single_user e r now ≡ true
      → is_post r.method ≡ true
      → (allow l (client_ip r.peer) (nanoseconds now)).1 ≡ false
      → handle_entry crypto secret l domain single_user e r now
        ≡ ((allow l (client_ip r.peer) (nanoseconds now)).0, error_page 429)
  handle_entry-limited l domain single_user e r now b p d =
      rw (handle_entry-blocked crypto secret l domain single_user e r now b) (rw (p, d))

  cookie_passes :
      (single_user : Bool) (e : Entry) (r : Request) (now : ℕ)
      → (visitor_credential crypto secret e (is_grouped single_user e) r now).by_cookie ≡ true
      → is_blocked crypto secret single_user e r now ≡ false
  unfolding credential_of
  cookie_passes single_user e r now h = ground arith

  -- the ticket that unlocks a tunnel: for its group, or for its host
  abbrev pub ticket_of : Bool → Entry → ℕ → Bytes
  ticket_of grouped e now =
      if grouped
      then issue_gate_group crypto secret e.user_id e.gate_group e.protect_hash now
      else issue_gate crypto secret e.host now

  granted :
      (single_user : Bool) (e : Entry) (r : Request) (issued now : ℕ)
      → IsBody e.host
      → Fits64 issued
      → now ≤ issued + session_ttl
      → read_cookie r.cookies (gate_name crypto secret e (is_grouped single_user e))
        ≡ some (ticket_of (is_grouped single_user e) e issued)
      → (visitor_credential crypto secret e (is_grouped single_user e) r now).by_cookie ≡ true
  unfolding visitor_credential
  granted single_user e r issued now body fits le cookie =
      rw cookie (elim (Bool-cases (is_grouped single_user e)) [
        | inl g ↦ rw g (
            verify_gate_group-issue crypto secret e.user_id e.gate_group e.protect_hash e.user_id
              e.gate_group e.protect_hash issued now fits
            ∙ rw
                (equal_refl
                  (gate_group_binding crypto secret e.user_id e.gate_group e.protect_hash))
                (ground arith))
        | inr g ↦ rw g (
            verify_gate-issue_gate crypto secret e.host e.host issued now body fits
            ∙ rw (equal_refl e.host) (ground arith))
      ])

  unlocked_with :
      (domain password : Bytes) (grouped : Bool) (e : Entry) (r : Request) (now : ℕ)
      → is_post r.method ≡ true
      → r.form_password ≡ some password
      → check_gate_secret crypto secret e.protect_hash password ≡ true
      → serve_gate crypto secret e domain grouped r now
        ≡ unlocked r.path
            (gate_name crypto secret e grouped)
            (ticket_of grouped e now)
            (if grouped then domain else strip_port r.host)
  unfolding serve_gate
  unlocked_with domain password true e r now p form right = rw (p, form, right) refl
  unlocked_with domain password false e r now p form right = rw (p, form, right) refl

  -- The right password, submitted where the limiter allows it, is answered with a cookie: for the
  -- whole domain, under the name of its group, if the tunnel has a group and the relay has several
  -- users, else for the host. A later request to that tunnel that carries this cookie goes through
  -- until the cookie expires, without another attempt. The host is one that a token can carry, and the
  -- time of the submission fits 64 bits with the life of the cookie.
  pub serve_gate-unlocks :
      (l l' : Limiter) (domain password : Bytes) (single_user : Bool) (e : Entry)
      (r later : Request) (now then_now : ℕ)
      → is_blocked crypto secret single_user e r now ≡ true
      → is_post r.method ≡ true
      → (allow l (client_ip r.peer) (nanoseconds now)).1 ≡ true
      → r.form_password ≡ some password
      → check_gate_secret crypto secret e.protect_hash password ≡ true
      → IsBody e.host
      → Fits64 now
      → then_now ≤ now + session_ttl
      → read_cookie later.cookies (gate_name crypto secret e (is_grouped single_user e))
        ≡ some (ticket_of (is_grouped single_user e) e now)
      → ((handle_entry crypto secret l domain single_user e r now).1
          ≡ unlocked r.path
              (gate_name crypto secret e (is_grouped single_user e))
              (ticket_of (is_grouped single_user e) e now)
              (if is_grouped single_user e then domain else strip_port r.host))
        × (handle_entry crypto secret l' domain single_user e later then_now ≡ (
          l',
          forwarded e (
              sanitize crypto secret
                (credential_of crypto secret e (is_grouped single_user e) later then_now)
                later),
        ))
  serve_gate-unlocks l l' domain password single_user e r later now then_now b p ok form right body
        fits le cookie =
      (
        rw (handle_entry-blocked crypto secret l domain single_user e r now b) (
            rw (p, ok)
              (unlocked_with domain password (is_grouped single_user e) e r now p form right)),
        handle_entry-open crypto secret l' domain single_user e later then_now (
            cookie_passes single_user e later then_now
              (granted single_user e later now then_now body fits le cookie)),
      )
