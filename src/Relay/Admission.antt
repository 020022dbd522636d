-- ===== src/Relay/Admission.antt =====
-- backend/relay/relay.go: what `Register` does when it accepts and when it refuses, and that
-- `Check` foresees it.
use roxey.Base.{
  ℕ, suc, ◌≡◌, refl, sym, ◌∙◌, not, [], ◌∷◌, inl, inr, Option, none, some, arith, Bytes, insert,
  any, insert_by, is_some, Bool-cases,
}
use roxey.Relay.{
  Entry, HostTable, Registry, RegisterError, Registered, ok, err, register, register_in, check,
  check_table, make_entry, table_at, has_path, longer,
}
use roxey.Relay.Sorted.{Descending, sort-append}
use roxey.Relay.Invariant.{IsValid, table_at-IsTable}

abbrev pub outcome : Registered → Option RegisterError
outcome (ok r e) = none
outcome (err why r) = some why

check-table_at :
    (r : Registry) (host path_prefix : Bytes)
    → check r host path_prefix ≡ check_table (table_at host r) path_prefix
unfolding check
check-table_at r host [] = ground arith
check-table_at r host (c ∷ cs) = ground arith

outcome-register_in :
    (r : Registry) (e : Entry) (t : HostTable) (path_prefix : Bytes)
    → outcome (register_in r e t path_prefix) ≡ check_table t path_prefix
outcome-register_in r e t [] = ground arith
outcome-register_in r e t (c ∷ cs) = ground arith

-- `Check` answers with no error exactly when `Register` accepts the same host and prefix, and
-- otherwise with the error that `Register` returns.
pub register-check :
    (r : Registry) (template : Entry) (path_prefix : Bytes) (sess : ℕ) (remote : Bytes) (now : ℕ)
    → outcome (register r template path_prefix sess remote now) ≡ check r template.host path_prefix
unfolding register
register-check r template path_prefix sess remote now =
    outcome-register_in r _ (table_at template.host r) path_prefix
    ∙ sym (check-table_at r template.host path_prefix)

-- The table of a host with one more entry in its place.
abbrev pub added : HostTable → Bytes → Entry → HostTable
added t [] e = record t { root = some e }
added t (c ∷ cs) e = record t {
  prefixed = insert_by longer (record { prefix = c ∷ cs; entry = e }) t.prefixed;
}

abbrev pub with_table : Registry → Bytes → HostTable → Registry
with_table r host t = record { table = insert host t r.table; next = suc r.next }

ok-injective : {r r' : Registry} {e e' : Entry} → Registered.ok r e ≡ ok r' e' → (r' ≡ r) × (e' ≡ e)
ok-injective h = (cc h, cc h)

pub register_in-ok :
    (r : Registry) (e : Entry) (t : HostTable) (path_prefix : Bytes) {r' : Registry} {e' : Entry}
    → Descending t.prefixed
    → register_in r e t path_prefix ≡ ok r' e'
    → (r' ≡ with_table r e.host (added t path_prefix e))
      × (e' ≡ e)
      × (check_table t path_prefix ≡ none)
register_in-ok r e t [] d h = elim (Bool-cases (is_some t.root)) [
  | inl used ↦ absurd (ground arith)
  | inr free ↦ let q = ok-injective (rw (free, register_in) at h) in (q.0, q.1, rw free)
]
register_in-ok r e t (c ∷ cs) d h = elim (Bool-cases (any (has_path (c ∷ cs)) t.prefixed)) [
  | inl used ↦ absurd (ground arith)
  | inr free ↦
      let q = ok-injective (
        rw (sort-append t.prefixed (record { prefix = c ∷ cs; entry = e }) d) at
          (rw (free, register_in) at h)) in
      (q.0, q.1, rw free)
]

pub register_in-err :
    (r : Registry) (e : Entry) (t : HostTable) (path_prefix : Bytes) {r' : Registry}
    {why : RegisterError}
    → register_in r e t path_prefix ≡ err why r'
    → r' ≡ with_table r e.host t
register_in-err r e t [] h = ground arith
register_in-err r e t (c ∷ cs) h = ground arith

-- The entry of an accepted registration is its template's, at the next address, and is ready
-- exactly if the template is not pending.
pub register-entry :
    (r : Registry) (template : Entry) (path_prefix : Bytes) (sess : ℕ) (remote : Bytes) (now : ℕ)
    (r' : Registry) (e : Entry)
    → IsValid r
    → register r template path_prefix sess remote now ≡ ok r' e
    → (e.user_id ≡ template.user_id)
      × (e.protect_hash ≡ template.protect_hash)
      × (e.host ≡ template.host)
      × (e.ready ≡ not template.pending)
      × (e.address ≡ r.next)
unfolding register make_entry
register-entry r template path_prefix sess remote now r' e v h =
    let t = table_at template.host r in
    let (_, e_is, _) =
      register_in-ok r (make_entry r template sess remote now) t path_prefix
        (table_at-IsTable template.host r v).descending h in
    rw e_is (refl, refl, refl, refl, refl)
