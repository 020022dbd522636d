-- ===== src/Server/Handshake/Laws.antt =====
-- backend/main.go: what a handshake leaves behind, on every path.
use mathlib.Core.Path.{subst}
use roxey.Base.{
  ℕ, ◌∷◌, ◌≡◌, refl, sym, ◌∙◌, Bool, true, false, ◌&&◌, inl, inr, ◌⊎◌, Option, none, some, arith,
  Bytes, equal, if◌then◌else◌, Bool-cases, Option-cases,
}
use roxey.Auth.Sessions.{Crypto}
use roxey.Relay.{
  Entry, Registry, RegisterError, Registered, ok, err, check, register, resolve, table_at,
}
use roxey.Relay.Admission.{register-entry}
use roxey.Relay.Invariant.{IsValid}
use roxey.Relay.Resolve.{register_refused, register-resolve, takes_over}
use roxey.Relay.Teardown.{unregister-added}
use roxey.Relay.Restored.{IsOther, unregister-other}
use roxey.Store.{validate_api_key}
use roxey.Server.Handshake.{
  Server, World, Hello, Outcome, Tunnel, refused, dropped, connected, template, tunnel_host,
  valid_service, greet, admit, attach, checked, welcome, handle_ws_upgrade, hang_up,
}

-- Every request is routed alike.
abbrev pub SameRoutes : Registry → Registry → Type 0
SameRoutes r r' = (asked path : Bytes) → resolve r' asked path ≡ resolve r asked path

SameRoutes-table : (r r' : Registry) → r'.table ≡ r.table → SameRoutes r r'
unfolding resolve
SameRoutes-table r r' e asked path = rw e

-- What a handshake for `user_id` at `host` has done, by its outcome: nothing to the routes, or one
-- registration, which the tunnel names.
abbrev Done : Crypto → Server → World → Bytes → Bytes → Hello → Server × Outcome → Type 0
Done crypto s w user_id host h (s', refused status) = SameRoutes s.registry s'.registry
Done crypto s w user_id host h (s', dropped) = SameRoutes s.registry s'.registry
Done crypto s w user_id host h (s', connected t) =
    (register s.registry (template crypto user_id host h) h.path_prefix w.session h.remote w.now
      ≡ ok s'.registry t.entry)
    × (t.host ≡ host)
    × (t.path_prefix ≡ h.path_prefix)
    × (w.greeted ≡ true)
    × (s'.released ≡ t.entry.address ∷ s.released)

template-host :
    (crypto : Crypto) (user_id host : Bytes) (h : Hello)
    → (template crypto user_id host h).host ≡ host
unfolding template
template-host crypto user_id host h = refl

module _ (crypto : Crypto) (s : Server) (w : World) (user_id host : Bytes) (h : Hello)
    (v : IsValid s.registry) where
  greet-Done :
      (e : Entry) (reg : Registry)
      → register s.registry (template crypto user_id host h) h.path_prefix w.session h.remote w.now
        ≡ ok reg e
      → Done crypto s w user_id host h (greet s w user_id host h e reg)
  unfolding greet
  greet-Done e reg made = elim (Bool-cases w.greeted) [
    | inl sent ↦ rw sent (made, refl, refl, refl, refl)
    | inr lost ↦ rw lost (
        SameRoutes-table s.registry _ (
          rw (template-host crypto user_id host h) at (
            unregister-added s.registry (template crypto user_id host h) h.path_prefix w.session
              h.remote w.now reg e v made)))
  ]

  admit-Done :
      (result : Registered)
      → register s.registry (template crypto user_id host h) h.path_prefix w.session h.remote w.now
        ≡ result
      → Done crypto s w user_id host h (admit s w user_id host h result)
  admit-Done (ok reg e) made = greet-Done e reg made
  admit-Done (err why reg) made = λ asked path.
      register_refused s.registry (template crypto user_id host h) h.path_prefix w.session h.remote
        w.now why reg asked path made

  attach-Done : Done crypto s w user_id host h (attach crypto s w user_id host h)
  unfolding attach
  attach-Done = elim (Bool-cases (w.upgraded && w.multiplexed)) [
    | inl up ↦ rw up (admit-Done _ refl)
    | inr down ↦ rw down (λ asked path. refl)
  ]

  checked-Done :
      (o : Option RegisterError)
      → Done crypto s w user_id host h (checked o (attach crypto s w user_id host h) s)
  checked-Done none = attach-Done
  checked-Done (some why) = λ asked path. refl

-- The handshake as a whole: which account and host its outcome is about.
abbrev pub host_of : Crypto → Bool → Bytes → Hello → Bytes
host_of crypto single_user user_id h = tunnel_host crypto single_user user_id h.service

module _ (crypto : Crypto) (s : Server) (w : World) (single_user : Bool) (seen : Registry)
    (h : Hello) where
  abbrev paid : Server
  paid = record s { store = (validate_api_key crypto s.store h.api_key w.now).0 }

  handle-owner :
      (user_id : Bytes)
      → (validate_api_key crypto s.store h.api_key w.now).1 ≡ some user_id
      → handle_ws_upgrade crypto s w single_user seen h
        ≡ welcome crypto paid w single_user seen h user_id
  unfolding handle_ws_upgrade
  handle-owner user_id e = rw (e, handle_ws_upgrade)

  handle-stranger :
      (validate_api_key crypto s.store h.api_key w.now).1 ≡ none
      → handle_ws_upgrade crypto s w single_user seen h ≡ (paid, refused 401)
  unfolding handle_ws_upgrade
  handle-stranger e = rw (e, handle_ws_upgrade)

  welcome-Done :
      (user_id : Bytes)
      → IsValid s.registry
      → Done crypto paid w user_id
          (host_of crypto single_user user_id h)
          h
          (welcome crypto paid w single_user seen h user_id)
  unfolding welcome
  welcome-Done user_id v = elim (Bool-cases (valid_service single_user h.service)) [
    | inl fine ↦
        rw fine (checked-Done crypto paid w user_id (host_of crypto single_user user_id h) h v _)
    | inr bad ↦ rw bad (λ asked path. refl)
  ]

  handle-connected :
      (s' : Server) (t : Tunnel)
      → IsValid s.registry
      → handle_ws_upgrade crypto s w single_user seen h ≡ (s', connected t)
      → (user_id : Bytes) × ((validate_api_key crypto s.store h.api_key w.now).1 ≡ some user_id)
        × (welcome crypto paid w single_user seen h user_id ≡ (s', connected t))
        × Done crypto paid w user_id (host_of crypto single_user user_id h) h (s', connected t)
  handle-connected s' t v e =
      elim (Option-cases (validate_api_key crypto s.store h.api_key w.now).1) [
        | inl stranger ↦ absurd (cc (handle-stranger stranger, e))
        | inr (user_id, owner) ↦
            let reached = sym (handle-owner user_id owner) ∙ e in
            (
              user_id,
              owner,
              reached,
              subst (Done crypto paid w user_id (host_of crypto single_user user_id h) h) reached
                  (welcome-Done user_id v),
            )
      ]

  -- A handshake that ends in any other way than a connected tunnel, refused for its key, its name
  -- or a place in use, or dropped on the way, leaves every route as it was.
  pub handle_ws_upgrade-clean :
      (s' : Server) (o : Outcome)
      → IsValid s.registry
      → handle_ws_upgrade crypto s w single_user seen h ≡ (s', o)
      → (o ≡ dropped) ⊎ ((status : ℕ) × (o ≡ refused status))
      → SameRoutes s.registry s'.registry
  handle_ws_upgrade-clean s' o v e how =
      elim (Option-cases (validate_api_key crypto s.store h.api_key w.now).1) [
        | inl stranger ↦
            let same : paid ≡ s' = cc (handle-stranger stranger, e) in
            subst (λ (x : Server). SameRoutes s.registry x.registry) same (λ asked path. refl)
        | inr (user_id, owner) ↦ kept user_id how (
            subst (Done crypto paid w user_id (host_of crypto single_user user_id h) h)
              (sym (handle-owner user_id owner) ∙ e) (welcome-Done user_id v))
      ]
    where
      kept :
          (user_id : Bytes)
          → (o ≡ dropped) ⊎ ((status : ℕ) × (o ≡ refused status))
          → Done crypto paid w user_id (host_of crypto single_user user_id h) h (s', o)
          → SameRoutes s.registry s'.registry
      kept user_id (inl q) d =
          subst (λ x. Done crypto paid w user_id (host_of crypto single_user user_id h) h (s', x)) q
            d
      kept user_id (inr (status, q)) d =
          subst (λ x. Done crypto paid w user_id (host_of crypto single_user user_id h) h (s', x)) q
            d

  welcome-connected :
      (user_id : Bytes) (s' : Server) (t : Tunnel)
      → welcome crypto paid w single_user seen h user_id ≡ (s', connected t)
      → (valid_service single_user h.service ≡ true)
        × (check seen (host_of crypto single_user user_id h) h.path_prefix ≡ none)
  unfolding welcome
  welcome-connected user_id s' t e = elim (Bool-cases (valid_service single_user h.service)) [
    | inr bad ↦ absurd (cc (rw (bad, welcome) at e))
    | inl fine ↦
        elim (Option-cases (check seen (host_of crypto single_user user_id h) h.path_prefix)) [
          | inl free ↦ (fine, free)
          | inr (why, used) ↦ absurd (ground (arith, rw (fine, welcome) at e, used))
        ]
  ]

  -- A tunnel comes up only for a valid API key, a valid service name and a place that the check
  -- found free. It belongs to the account of the key, stands at the host that the relay derives
  -- for that account and service. Its entry is made as not ready; the greeting went out, and `Ready`
  -- is called on this entry and no other. It takes over exactly the routes that its registration
  -- gives it.
  pub handle_ws_upgrade-connected :
      (s' : Server) (t : Tunnel)
      → IsValid s.registry
      → handle_ws_upgrade crypto s w single_user seen h ≡ (s', connected t)
      → (user_id : Bytes) × ((validate_api_key crypto s.store h.api_key w.now).1 ≡ some user_id)
        × (valid_service single_user h.service ≡ true)
        × (check seen (host_of crypto single_user user_id h) h.path_prefix ≡ none)
        × (t.entry.user_id ≡ user_id)
        × (t.entry.host ≡ host_of crypto single_user user_id h)
        × (t.entry.ready ≡ false)
        × (w.greeted ≡ true)
        × (s'.released ≡ t.entry.address ∷ s.released)
        × ((asked path : Bytes)
            → resolve s'.registry asked path ≡ (
                if equal (host_of crypto single_user user_id h) asked
                  && takes_over
                      (table_at (host_of crypto single_user user_id h) s.registry)
                      h.path_prefix
                      t.entry
                      path
                then some t.entry
                else resolve s.registry asked path))
  unfolding template
  handle_ws_upgrade-connected s' t v e =
      let (user_id, owner, reached, done) = handle-connected s' t v e in
      let host = host_of crypto single_user user_id h in
      let (fine, free) = welcome-connected user_id s' t reached in
      let entry_is =
        register-entry s.registry (template crypto user_id host h) h.path_prefix w.session h.remote
          w.now s'.registry t.entry v done.0 in
      (
        user_id,
        owner,
        fine,
        free,
        entry_is.0,
        entry_is.2,
        entry_is.3,
        done.3,
        done.4,
        λ asked path.
            register-resolve s.registry (template crypto user_id host h) h.path_prefix w.session
              h.remote w.now s'.registry t.entry asked path v done.0,
      )

  -- When the session of a connected tunnel ends before any other tunnel came or went, the deferred
  -- clean-up gives every route back as it was before the handshake. When it ends at any later state
  -- of the server, whatever other connections have done, a request that another tunnel answers then,
  -- or none, is answered alike after the clean-up.
  pub hang_up-restores :
      (s' now : Server) (t : Tunnel) (later : ℕ) (asked path : Bytes)
      → IsValid s.registry
      → handle_ws_upgrade crypto s w single_user seen h ≡ (s', connected t)
      → IsOther t.entry (resolve now.registry asked path)
      → SameRoutes s.registry (hang_up s' t later).registry
        × (resolve (hang_up now t later).registry asked path ≡ resolve now.registry asked path)
  unfolding hang_up template
  hang_up-restores s' now t later asked path v e other =
      let (user_id, owner, reached, done) = handle-connected s' t v e in
      let host = host_of crypto single_user user_id h in
      (
        SameRoutes-table s.registry _ (
            rw (done.1, done.2)
              (unregister-added s.registry (template crypto user_id host h) h.path_prefix w.session
                h.remote w.now s'.registry t.entry v done.0)),
        unregister-other now.registry t.host t.path_prefix t.entry asked path other,
      )
