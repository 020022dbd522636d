-- ===== src/Relay/Listing.antt =====
-- backend/relay/relay.go: `ListActive` shows each account its own tunnels and no others.
use roxey.Base.{
  ℕ, ◌+◌, ◌≡◌, ◌∙◌, ap, true, false, List, [], ◌∷◌, ◌++◌, inl, inr, none, arith, Bytes, Dict, equal,
  lookup, insert, insert_by, sort_by, if◌then◌else◌, Bool-cases, length, length-append,
  length-sort_onto,
}
use roxey.Relay.{
  Entry, PrefixEntry, HostTable, Registry, ok, register, make_entry, table_at, longer, ActiveTunnel,
  owns, active_root, active_prefixed, active_in, list_active, before, check_table,
}
use roxey.Relay.Invariant.{IsValid, table_at-IsTable}
use roxey.Relay.Admission.{added, register_in-ok}

abbrev active_of : Bytes → HostTable → List ActiveTunnel
active_of user t = active_root user t.root ++ active_prefixed user t.prefixed

-- 1 for an entry of this account, 0 for any other
abbrev pub share : Bytes → Entry → ℕ
share user e = if owns user e then 1 else 0

abbrev table_in : Bytes → Dict HostTable → HostTable
table_in host m = table_at host (record { table = m; next = 0 })

table_in-here :
    (host j : Bytes) (w : HostTable) (m : Dict HostTable)
    → equal j host ≡ true
    → table_in host ((j, w) ∷ m) ≡ w
unfolding lookup
table_in-here host j w m h = ground arith

table_in-there :
    (host j : Bytes) (w : HostTable) (m : Dict HostTable)
    → equal j host ≡ false
    → table_in host ((j, w) ∷ m) ≡ table_in host m
unfolding lookup
table_in-there host j w m h = ground arith

module _ (user : Bytes) where
  active_prefixed-insert_by :
      (x : PrefixEntry) (ps : List PrefixEntry)
      → owns user x.entry ≡ false
      → active_prefixed user (insert_by longer x ps) ≡ active_prefixed user ps
  unfolding active_prefixed insert_by
  active_prefixed-insert_by x [] h = ground arith
  active_prefixed-insert_by x (y ∷ ys) h = ground (arith, active_prefixed-insert_by x ys h)

  length-active_prefixed :
      (x : PrefixEntry) (ps : List PrefixEntry)
      → length (active_prefixed user (insert_by longer x ps))
        ≡ length (active_prefixed user ps) + share user x.entry
  unfolding active_prefixed insert_by
  length-active_prefixed x [] = ground arith
  length-active_prefixed x (y ∷ ys) = ground (arith, length-active_prefixed x ys)

  active_of-added :
      (t : HostTable) (path_prefix : Bytes) (e : Entry)
      → check_table t path_prefix ≡ none
      → owns user e ≡ false
      → active_of user (added t path_prefix e) ≡ active_of user t
  active_of-added t [] e free h = ground arith
  active_of-added t (c ∷ cs) e free h =
      ap (◌++◌ (active_root user t.root))
        (active_prefixed-insert_by (record { prefix = c ∷ cs; entry = e }) t.prefixed h)

  length-active_of :
      (t : HostTable) (path_prefix : Bytes) (e : Entry)
      → check_table t path_prefix ≡ none
      → length (active_of user (added t path_prefix e)) ≡ length (active_of user t) + share user e
  length-active_of t [] e free = ground arith
  length-active_of t (c ∷ cs) e free = omega (
    arith,
    length-append {0} (active_root user t.root) (active_prefixed user t.prefixed),
    length-append {0} (active_root user t.root) (
        active_prefixed user (insert_by longer (record { prefix = c ∷ cs; entry = e }) t.prefixed)),
    length-active_prefixed (record { prefix = c ∷ cs; entry = e }) t.prefixed,
  )

  active_in-insert :
      (host : Bytes) (t' : HostTable) (m : Dict HostTable)
      → active_of user t' ≡ active_of user (table_in host m)
      → active_in user (insert host t' m) ≡ active_in user m
  unfolding active_in lookup insert active_prefixed
  active_in-insert host t' [] h = rw h
  active_in-insert host t' ((j, w) ∷ m) h = elim (Bool-cases (equal j host)) [
    | inl same ↦
        rw (same, insert)
          (ap (λ l. l ++ active_in user m)
            (h ∙ ap (active_of user) (table_in-here host j w m same)))
    | inr other ↦
        rw (other, insert)
          (ap (◌++◌ (active_of user w)) (
            active_in-insert host t' m (h ∙ ap (active_of user) (table_in-there host j w m other))))
  ]

  length-active_in :
      (host : Bytes) (t' : HostTable) (m : Dict HostTable)
      → length (active_in user (insert host t' m)) + length (active_of user (table_in host m))
        ≡ length (active_in user m) + length (active_of user t')
  unfolding active_in lookup insert active_prefixed
  length-active_in host t' [] = omega (arith, length-append {0} (active_of user t') [])
  length-active_in host t' ((j, w) ∷ m) = elim (Bool-cases (equal j host)) [
    | inl same ↦
        rw (same, insert)
          (omega (
            arith,
            ap (λ x. length (active_of user x)) (table_in-here host j w m same),
            length-append {0} (active_of user t') (active_in user m),
            length-append {0} (active_of user w) (active_in user m),
          ))
    | inr other ↦
        rw (other, insert)
          (omega (
            arith,
            ap (λ x. length (active_of user x)) (table_in-there host j w m other),
            length-active_in host t' m,
            length-append {0} (active_of user w) (active_in user m),
            length-append {0} (active_of user w) (active_in user (insert host t' m)),
          ))
  ]

-- A tunnel that one account registers does not show in the list of another account, which stays
-- as it was.
pub list_active-register_other :
    (r : Registry) (template : Entry) (path_prefix : Bytes) (sess : ℕ) (remote : Bytes) (now : ℕ)
    (r' : Registry) (e : Entry) (user : Bytes)
    → IsValid r
    → register r template path_prefix sess remote now ≡ ok r' e
    → equal template.user_id user ≡ false
    → list_active r' user ≡ list_active r user
unfolding register make_entry list_active
list_active-register_other r template path_prefix sess remote now r' e user v h other =
    let t = table_at template.host r in
    let w = table_at-IsTable template.host r v in
    let e0 = make_entry r template sess remote now in
    let (r_is, _, free) = register_in-ok r e0 t path_prefix w.descending h in
    rw r_is (
      ap (sort_by before) (
        active_in-insert user template.host _ r.table
          (active_of-added user t path_prefix e0 free other)))

-- A registered tunnel adds exactly one to the number of tunnels that its account sees, and nothing
-- to the number that any other account sees.
pub list_active-register :
    (r : Registry) (template : Entry) (path_prefix : Bytes) (sess : ℕ) (remote : Bytes) (now : ℕ)
    (r' : Registry) (e : Entry) (user : Bytes)
    → IsValid r
    → register r template path_prefix sess remote now ≡ ok r' e
    → length (list_active r' user)
      ≡ length (list_active r user) + (if equal template.user_id user then 1 else 0)
unfolding register make_entry list_active
list_active-register r template path_prefix sess remote now r' e user v h =
    let t = table_at template.host r in
    let w = table_at-IsTable template.host r v in
    let e0 = make_entry r template sess remote now in
    let (r_is, _, free) = register_in-ok r e0 t path_prefix w.descending h in
    rw r_is (
      omega (
        arith,
        length-sort_onto {0} before [] (active_in user r.table),
        length-sort_onto {0} before []
            (active_in user (insert template.host (added t path_prefix e0) r.table)),
        length-active_in user template.host (added t path_prefix e0) r.table,
        length-active_of user t path_prefix e0 free,
      ))
