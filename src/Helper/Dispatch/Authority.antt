-- ===== src/Helper/Dispatch/Authority.antt =====
-- cli/internal/helper/server.go: who can make the root daemon change /etc/hosts, and to what.
use roxey.Base.{
  ◌≡◌, ◌⊎◌, refl, ap, ◌∙◌, ◌≢◌, false, List, [], ◌∷◌, inl, inr, Option, none, some, Bytes, codes,
  equal, equal_iff, is_empty, All, ==_iff, ◌==◌, Bool-cases,
}
use roxey.Hosts.{HostError, validate_hosts, merge_hosts_block, render_block}
use roxey.Hosts.Allowed.{IsAllowed, validate_hosts-IsAllowed}
use roxey.Helper.Supervisor.{System, ensure_ok}
use roxey.Helper.Dispatch.{
  Request, Daemon, Outcome, Peer, no_unix_conn, unknown_uid, peer, write_hosts, allowed_tlds,
  trust_ca, handle, handle_conn, primary_tld, sync_checked, keep_serving, ensure_with, start_for,
  success, Response,
}

-- The file is as it was, or is the old one with a block of allowed names.
abbrev pub IsRewritten : Daemon → Daemon → List Bytes → Type 0
IsRewritten d e hosts =
    (e.hosts_file ≡ d.hosts_file)
    ⊎ (All (IsAllowed (allowed_tlds d.registry)) hosts
        × (e.hosts_file ≡ merge_hosts_block d.hosts_file (render_block hosts)))

write_hosts_cases :
    (d : Daemon) (o : Outcome) (block : Bytes)
    → ((write_hosts d o block).0.hosts_file ≡ d.hosts_file)
      ⊎ ((write_hosts d o block).0.hosts_file ≡ merge_hosts_block d.hosts_file block)
unfolding write_hosts
write_hosts_cases d o block = elim (Bool-cases o.hosts_read) [
  | inr unread ↦ inl (rw (unread, write_hosts) refl)
  | inl read ↦ elim (Bool-cases (equal (merge_hosts_block d.hosts_file block) d.hosts_file)) [
    | inl same ↦ inl (rw (read, same, write_hosts) refl)
    | inr other ↦ elim (Bool-cases o.hosts_written) [
      | inl done ↦ inr (rw (read, other, done, write_hosts) refl)
      | inr failed ↦ inl (rw (read, other, failed, write_hosts) refl)
    ]
  ]
]

start_for-hosts_file :
    (d : Daemon) (o : Outcome) (tld : Bytes) (relay : System) (r : Response)
    → (start_for d o tld relay r).0.hosts_file ≡ d.hosts_file
start_for-hosts_file d o tld relay r = elim (Bool-cases (ensure_ok relay tld o.starts)) [
  | inl e ↦ rw e refl
  | inr e ↦ rw e refl
]

keep_serving-hosts_file :
    (d : Daemon) (o : Outcome) (relay : Option System)
    → (keep_serving d o relay).0.hosts_file ≡ d.hosts_file
keep_serving-hosts_file d o none = refl
keep_serving-hosts_file d o (some relay) = elim (Bool-cases (is_empty (primary_tld d.registry))) [
  | inl e ↦ rw e refl
  | inr e ↦ rw e (start_for-hosts_file d o (primary_tld d.registry) relay success)
]

ensure_with-hosts_file :
    (d : Daemon) (o : Outcome) (relay : Option System)
    → (ensure_with d o relay).0.hosts_file ≡ d.hosts_file
ensure_with-hosts_file d o none = refl
ensure_with-hosts_file d o (some relay) = elim (Bool-cases (is_empty (primary_tld d.registry))) [
  | inl e ↦ rw e refl
  | inr e ↦
      let tld = primary_tld d.registry in
      rw e (start_for-hosts_file d o tld relay (record success { tld = tld }))
]

sync_checked-hosts_file :
    (d : Daemon) (o : Outcome) (hosts : List Bytes)
    → (sync_checked d o hosts none).0.hosts_file
      ≡ (write_hosts d o (render_block hosts)).0.hosts_file
sync_checked-hosts_file d o hosts =
    let written = write_hosts d o (render_block hosts) in
    elim (Bool-cases written.1) [
      | inl e ↦ rw e (keep_serving-hosts_file written.0 o written.0.relay)
      | inr e ↦ rw e refl
    ]

sync_checked-IsRewritten :
    (d : Daemon) (o : Outcome) (hosts : List Bytes) (v : Option HostError)
    → validate_hosts hosts (allowed_tlds d.registry) ≡ v
    → IsRewritten d (sync_checked d o hosts v).0 hosts
sync_checked-IsRewritten d o hosts (some why) h = inl refl
sync_checked-IsRewritten d o hosts none h =
    let allowed = (validate_hosts-IsAllowed hosts (allowed_tlds d.registry) h).1 in
    elim (write_hosts_cases d o (render_block hosts)) [
      | inl same ↦ inl (sync_checked-hosts_file d o hosts ∙ same)
      | inr new ↦ inr (allowed, sync_checked-hosts_file d o hosts ∙ new)
    ]

trust_ca-hosts_file : (d : Daemon) (o : Outcome) → (trust_ca d o).0.hosts_file ≡ d.hosts_file
unfolding trust_ca
trust_ca-hosts_file d o = elim (Bool-cases o.ca_found) [
  | inr e ↦ rw e refl
  | inl e ↦ elim (Bool-cases d.ca_trusted) [
    | inl t ↦ rw (e, t) refl
    | inr t ↦ elim (Bool-cases o.ca_trusts) [
      | inl k ↦ rw (e, t, k) refl
      | inr k ↦ rw (e, t, k) refl
    ]
  ]
]

-- Only a request for it rewrites the file.
abbrev pub IsSynced : Daemon → Daemon → Request → Type 0
IsSynced d e req =
    (e.hosts_file ≡ d.hosts_file)
    ⊎ ((req.op ≡ codes "sync_hosts")
        × All (IsAllowed (allowed_tlds d.registry)) req.hosts
        × (e.hosts_file ≡ merge_hosts_block d.hosts_file (render_block req.hosts)))

handle-IsSynced : (d : Daemon) (o : Outcome) (req : Request) → IsSynced d (handle d o req).0 req
unfolding handle
handle-IsSynced d o req = elim (Bool-cases (equal req.op (codes "ping"))) [
  | inl p ↦ rw (p, handle) (inl refl)
  | inr p ↦ elim (Bool-cases (equal req.op (codes "sync_hosts"))) [
    | inl s ↦
        rw (p, s, handle)
          (elim (sync_checked-IsRewritten d o req.hosts
            (validate_hosts req.hosts (allowed_tlds d.registry)) refl) [
              | inl same ↦ inl same
              | inr (allowed, new) ↦ inr ((equal_iff req.op (codes "sync_hosts")).0 s, allowed, new)
            ])
    | inr s ↦ elim (Bool-cases (equal req.op (codes "ensure_relay"))) [
      | inl e ↦ rw (p, s, e, handle) (inl (ensure_with-hosts_file d o d.relay))
      | inr e ↦ elim (Bool-cases (equal req.op (codes "trust_ca"))) [
        | inl t ↦ rw (p, s, e, t, handle) (inl (trust_ca-hosts_file d o))
        | inr t ↦ elim (Bool-cases (equal req.op (codes "relay_status"))) [
          | inl r ↦ rw (p, s, e, t, r, handle) (inl refl)
          | inr r ↦ rw (p, s, e, t, r, handle) (inl refl)
        ]
      ]
    ]
  ]
]

-- A connection over which /etc/hosts may change: the owner's, with a request to sync names that are
-- all allowed.
abbrev pub IsAuthorized : Daemon → Peer → Option Request → List Bytes → Type 0
IsAuthorized d from req hosts =
    (from ≡ peer d.uid)
    × (req ≡ some (record { op = codes "sync_hosts"; hosts = hosts }))
    × All (IsAllowed (allowed_tlds d.registry)) hosts

-- Whoever connects and whatever is asked, /etc/hosts either stays as it is, or the peer is the owner
-- of the state directory, the request is to sync names that are all host names under the domain of
-- a registered local project (or `localhost`, where that is such a domain), and the new file is the
-- old one with its managed block replaced by these names.
pub handle_conn-hosts_file :
    (d : Daemon) (o : Outcome) (from : Peer) (req : Option Request)
    → ((handle_conn d o from req).0.hosts_file ≡ d.hosts_file)
      ⊎ ((hosts : List Bytes) × IsAuthorized d from req hosts
          × ((handle_conn d o from req).0.hosts_file
              ≡ merge_hosts_block d.hosts_file (render_block hosts)))
unfolding handle_conn
handle_conn-hosts_file d o no_unix_conn req = inl refl
handle_conn-hosts_file d o unknown_uid req = inl refl
handle_conn-hosts_file d o (peer uid) none = elim (Bool-cases (uid == d.uid)) [
  | inl owner ↦ rw owner (inl refl)
  | inr other ↦ rw other (inl refl)
]
handle_conn-hosts_file d o (peer uid) (some req) = elim (Bool-cases (uid == d.uid)) [
  | inr other ↦ rw other (inl refl)
  | inl owner ↦ rw owner (elim (handle-IsSynced d o req) [
    | inl same ↦ inl same
    | inr (op, allowed, new) ↦
        inr (req.hosts, (ap peer ((==_iff uid d.uid).0 owner), cc, allowed), new)
  ])
]

abbrev pub to_list : Option Response → List Response
to_list none = []
to_list (some r) = r ∷ []

-- A peer other than the owner changes nothing in the daemon and is told of no success.
pub handle_conn-foreign :
    (d : Daemon) (o : Outcome) (from : Peer) (req : Option Request)
    → from ≢ peer d.uid
    → ((handle_conn d o from req).0 ≡ d)
      × All (λ r. r.ok ≡ false) (to_list (handle_conn d o from req).1)
unfolding handle_conn
handle_conn-foreign d o no_unix_conn req h = (refl, tt)
handle_conn-foreign d o unknown_uid req h = (refl, (refl, tt))
handle_conn-foreign d o (peer uid) req h = elim (Bool-cases (uid == d.uid)) [
  | inl owner ↦ absurd (h (ap peer ((==_iff uid d.uid).0 owner)))
  | inr other ↦ rw other (refl, (refl, tt))
]
