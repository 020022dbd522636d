-- ===== src/Server/Gate/Access.antt =====
-- backend/main.go: who gets through the gate of a protected preview, and what the app then sees.
use mathlib.Core.Path.{subst}
use roxey.Base.{
  ℕ, ◌≡◌, ◌≢◌, ◌⊎◌, refl, sym, ◌∙◌, ap, Bool, true, false, not, ◌&&◌, [], inl, inr, Option, none,
  some, arith, Bytes, codes, equal, is_empty, select, if◌then◌else◌, Bool-cases, Option-cases,
}
use roxey.Auth.ClientIp.{client_ip}
use roxey.Auth.Limiter.{Limiter, allow, nanoseconds}
use roxey.Auth.Sessions.{Crypto}
use roxey.Relay.{Entry, Registry, resolve}
use roxey.Server.Cookies.{parts_of, is_other, strip_gate_cookies-parts}
use roxey.Server.Query.{query_values, remove_query_param-values}
use roxey.Server.Gate.{
  Request, absent, Credential, Response, forwarded, error_page, is_none, is_post, sanitize,
  visitor_credential, handle_entry, handle_tunnel_request, credential_of, serve_gate,
  check_password,
}

-- `!singleUser && entry.GateGroup != ""`
abbrev pub is_grouped : Bool → Entry → Bool
is_grouped single_user e = not single_user && not (is_empty e.gate_group)

module _ (crypto : Crypto) (secret : Bytes) where
  -- The tunnel is public, or the visitor holds a credential for it.
  abbrev pub MayPass : Bool → Entry → Request → ℕ → Type 0
  MayPass single_user e r now =
      (is_empty e.protect_hash ≡ true)
      ⊎ (is_none (visitor_credential crypto secret e (is_grouped single_user e) r now) ≡ false)

  serve_gate-forwards :
      (e e' : Entry) (domain : Bytes) (grouped : Bool) (r q : Request) (now : ℕ)
      → serve_gate crypto secret e domain grouped r now ≢ forwarded e' q
  unfolding serve_gate
  serve_gate-forwards e e' domain grouped r q now h = elim (Bool-cases (is_post r.method)) [
    | inl p ↦ posted r.form_password (rw (p, serve_gate) at h)
    | inr g ↦ ground arith
  ]
    where
      posted :
          (f : Option Bytes)
          → check_password crypto secret e domain grouped r now f ≢ forwarded e' q
      posted none k = cc
      posted (some password) k = ground arith

  -- The test by which a request is kept at the gate.
  abbrev pub is_blocked : Bool → Entry → Request → ℕ → Bool
  is_blocked single_user e r now =
      not (is_empty e.protect_hash)
      && is_none (credential_of crypto secret e (is_grouped single_user e) r now)

  pub handle_entry-open :
      (l : Limiter) (domain : Bytes) (single_user : Bool) (e : Entry) (r : Request) (now : ℕ)
      → is_blocked single_user e r now ≡ false
      → handle_entry crypto secret l domain single_user e r now ≡ (
        l,
        forwarded e (
            sanitize crypto secret
              (credential_of crypto secret e (is_grouped single_user e) r now)
              r),
      )
  unfolding handle_entry
  handle_entry-open l domain single_user e r now h = rw (h, handle_entry)

  abbrev pub at_gate : Limiter → Bytes → Bool → Entry → Request → ℕ → Limiter × Response
  at_gate l domain single_user e r now =
      if is_post r.method
      then (
        (allow l (client_ip r.peer) (nanoseconds now)).0,
        if (allow l (client_ip r.peer) (nanoseconds now)).1
            then serve_gate crypto secret e domain (is_grouped single_user e) r now
            else error_page 429,
      )
      else (l, serve_gate crypto secret e domain (is_grouped single_user e) r now)

  pub handle_entry-blocked :
      (l : Limiter) (domain : Bytes) (single_user : Bool) (e : Entry) (r : Request) (now : ℕ)
      → is_blocked single_user e r now ≡ true
      → handle_entry crypto secret l domain single_user e r now
        ≡ at_gate l domain single_user e r now
  unfolding handle_entry
  handle_entry-blocked l domain single_user e r now h = rw (h, handle_entry)

  at_gate-forwards :
      (l : Limiter) (domain : Bytes) (single_user : Bool) (e e' : Entry) (r q : Request) (now : ℕ)
      → (at_gate l domain single_user e r now).1 ≢ forwarded e' q
  at_gate-forwards l domain single_user e e' r q now h =
      let kept = serve_gate-forwards e e' domain (is_grouped single_user e) r q now in
      elim (Bool-cases (is_post r.method)) [
        | inr g ↦ kept (ground (arith, g))
        | inl p ↦ elim (Bool-cases (allow l (client_ip r.peer) (nanoseconds now)).1) [
          | inl yes_allowed ↦ kept (ground (arith, p, yes_allowed))
          | inr too_many ↦ ground (arith, p, too_many)
        ]
      ]

  credential-MayPass :
      (single_user : Bool) (e : Entry) (r : Request) (now : ℕ)
      → is_blocked single_user e r now ≡ false
      → MayPass single_user e r now
  unfolding credential_of
  credential-MayPass single_user e r now h = elim (Bool-cases (is_empty e.protect_hash)) [
    | inl public ↦ inl public
    | inr gated ↦ inr (ground (arith, gated))
  ]

  -- What the app is given of a request: no cookie of the gate, none of the gate's secrets that the
  -- visitor passed by, and the rest as it was.
  pub record IsClean (c : Credential) (r q : Request) : Type 0 where
    pub cookies : parts_of q.cookies ≡ select is_other (parts_of r.cookies)
    pub password : q.authorization ≡ (if c.by_basic then absent else r.authorization)
    pub parameters :
        (key : Bytes)
        → query_values q.raw_query key ≡ (
            if c.by_query && equal (codes "access_token") key
            then []
            else query_values r.raw_query key)
    pub same_target : (q.method ≡ r.method) × (q.path ≡ r.path) × (q.host ≡ r.host)

  sanitize-IsClean : (c : Credential) (r : Request) → IsClean c r (sanitize crypto secret c r)
  unfolding sanitize
  sanitize-IsClean c r = record {
    cookies = strip_gate_cookies-parts r.cookies;
    password = refl;
    parameters = λ key. parameter key (Bool-cases c.by_query);
    same_target = (refl, refl, refl);
  }
    where
      parameter :
          (key : Bytes)
          → (c.by_query ≡ true) ⊎ (c.by_query ≡ false)
          → query_values (sanitize crypto secret c r).raw_query key ≡ (
              if c.by_query && equal (codes "access_token") key
              then []
              else query_values r.raw_query key)
      parameter key (inl h) =
          rw (h, sanitize) (remove_query_param-values r.raw_query (codes "access_token") key)
      parameter key (inr h) = rw (h, sanitize)

  -- A request reaches the app only through the tunnel that `Resolve` gives for it, and only if
  -- that tunnel is public or the visitor holds a credential for it. The limiter is then untouched.
  -- Of the cookie parts, trimmed of white space, the app sees all but those of gate cookies. The
  -- `Authorization` header and the values of the parameter `access_token` are gone if they let the
  -- visitor in; else the header is as it was, and so are all values of every other parameter, and the
  -- method, the path and the host.
  pub handle_tunnel_request-forwarded :
      (reg : Registry) (l l' : Limiter) (domain : Bytes) (single_user : Bool) (host : Bytes)
      (e : Entry) (r q : Request) (now : ℕ)
      → handle_tunnel_request crypto secret reg l domain single_user host r now
        ≡ (l', forwarded e q)
      → (resolve reg host r.path ≡ some e)
        × MayPass single_user e r now
        × (l' ≡ l)
        × IsClean (credential_of crypto secret e (is_grouped single_user e) r now) r q
  unfolding handle_tunnel_request
  handle_tunnel_request-forwarded reg l l' domain single_user host e r q now h =
      elim (Option-cases (resolve reg host r.path)) [
        | inl nobody ↦ absurd (ground arith)
        | inr (x, found) ↦
            passed x found (rw (found, handle_tunnel_request) at h)
              (Bool-cases (is_blocked single_user x r now))
      ]
    where
      passed :
          (x : Entry)
          → resolve reg host r.path ≡ some x
          → handle_entry crypto secret l domain single_user x r now ≡ (l', forwarded e q)
          → (is_blocked single_user x r now ≡ true) ⊎ (is_blocked single_user x r now ≡ false)
          → (resolve reg host r.path ≡ some e)
            × MayPass single_user e r now
            × (l' ≡ l)
            × IsClean (credential_of crypto secret e (is_grouped single_user e) r now) r q
      passed x found g (inl b) = absurd (
          at_gate-forwards l domain single_user x e r q now (
            ap (λ (p : Limiter × Response). p.1)
              (sym (handle_entry-blocked l domain single_user x r now b) ∙ g)))
      passed x found g (inr o) =
          let same = sym (handle_entry-open l domain single_user x r now o) ∙ g in
          let x_is : x ≡ e = cc same in
          let q_is : sanitize crypto secret
                (credential_of crypto secret x (is_grouped single_user x) r now) r
              ≡ q =
            cc same in
          (
            found ∙ ap some x_is,
            subst (λ y. MayPass single_user y r now) x_is
                (credential-MayPass single_user x r now o),
            cc same,
            subst
                (λ y. IsClean (credential_of crypto secret y (is_grouped single_user y) r now) r q)
                x_is
                (subst
                  (λ p.
                    IsClean (credential_of crypto secret x (is_grouped single_user x) r now) r p)
                  q_is
                  (sanitize-IsClean (credential_of crypto secret x (is_grouped single_user x) r now)
                    r)),
          )
