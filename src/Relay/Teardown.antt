-- ===== src/Relay/Teardown.antt =====
-- backend/relay/relay.go: `Unregister` undoes `Register` on the table of the model, and what it leaves
-- alone.
use roxey.Base.{
  ℕ, suc, ◌≤◌, ◌≡◌, ◌≢◌, refl, sym, ◌∙◌, ap, Bool, true, false, List, [], ◌∷◌, ◌++◌, inl, inr, none,
  some, arith, Bytes, equal, equal_iff, equal_refl, lookup, lookup-insert, insert, insert-insert,
  delete-insert, any, insert_by, Bool-cases, Option-cases, length, length-append, has_prefix-eq,
  All, All-lookup, select,
}
use roxey.Relay.{
  Entry, PrefixEntry, HostTable, Registry, ok, register, unregister, unregister_in, make_entry,
  table_at, longer, serves, resolve, other_entry, store_table, is_root, check_table,
}
use roxey.Relay.Sorted.{any-has_path}
use roxey.Relay.Invariant.{IsValid, IsLive, FitsPrefix, table_at-IsTable}
use roxey.Relay.Admission.{added, register_in-ok}
use roxey.Relay.Resolve.{shadows, takes_over, register-resolve}

module _ (host : Bytes) (e : Entry) where
  select_fresh :
      (ps : List PrefixEntry) → All (FitsPrefix host e.address) ps → select (other_entry e) ps ≡ ps
  select_fresh [] f = refl
  select_fresh (p ∷ ps) f = ground (arith, select_fresh ps f.1)

  pub select-insert_by :
      (prefix : Bytes) (ps : List PrefixEntry)
      → All (FitsPrefix host e.address) ps
      → select (other_entry e) (insert_by longer (record { prefix = prefix; entry = e }) ps) ≡ ps
  unfolding insert_by
  select-insert_by prefix [] f = ground arith
  select-insert_by prefix (y ∷ ys) f =
      ground (arith, select-insert_by prefix ys f.1, select_fresh ys f.1)

  -- Removing an entry that was just added gives the old table.
  unregister_in-added :
      (t : HostTable) (path_prefix : Bytes)
      → All (FitsPrefix host e.address) t.prefixed
      → check_table t path_prefix ≡ none
      → unregister_in (added t path_prefix e) path_prefix e ≡ t
  unregister_in-added t [] f free = ground arith
  unregister_in-added t (c ∷ cs) f free =
      ap (λ ps. record { root = t.root; prefixed = ps }) (select-insert_by (c ∷ cs) t.prefixed f)

-- The map of tables after an addition and the removal of the same entry.
store-insert :
    (r : Registry) (host : Bytes) (t' : HostTable) (next : ℕ)
    → IsValid r
    → (store_table host
        (table_at host r)
        (record { table = insert host t' r.table; next = next })).table
      ≡ r.table
store-insert r host t' next v = elim (Option-cases (lookup host r.table)) [
  | inl absent ↦ rw (absent, table_at) (delete-insert host t' r.table absent)
  | inr (t, there) ↦
      rw (there, table_at)
        (rw ((All-lookup (IsLive r.next) host r.table v there).1, store_table)
          (insert-insert host t t' r.table there))
]

-- With the order that `sort_by` keeps, removing the entry that a registration has just installed
-- gives the very table back.
pub unregister-added :
    (r : Registry) (template : Entry) (path_prefix : Bytes) (sess : ℕ) (remote : Bytes) (now : ℕ)
    (r' : Registry) (e : Entry)
    → IsValid r
    → register r template path_prefix sess remote now ≡ ok r' e
    → (unregister r' template.host path_prefix e).table ≡ r.table
unfolding register unregister make_entry
unregister-added r template path_prefix sess remote now r' e v h =
    let t = table_at template.host r in
    let w = table_at-IsTable template.host r v in
    let e0 = make_entry r template sess remote now in
    let (r_is, e_is, free) = register_in-ok r e0 t path_prefix w.descending h in
    let found : lookup template.host (insert template.host (added t path_prefix e0) r.table)
        ≡ some (added t path_prefix e0) =
      lookup-insert template.host template.host _ r.table ∙ rw (equal_refl template.host) in
    rw (r_is, e_is)
      (rw (found, unregister)
        (rw (unregister_in-added template.host e0 t path_prefix w.prefixed_fit free)
          (store-insert r template.host (added t path_prefix e0) (suc r.next) v)))

-- No tunnel of the table stands at the address of `e`.
abbrev pub IsStale : Entry → HostTable → Type 0
IsStale e t = (is_root e t.root ≡ false) × All (λ p. other_entry e p ≡ true) t.prefixed

select-All :
    (keep : PrefixEntry → Bool) (ps : List PrefixEntry)
    → All (λ p. keep p ≡ true) ps
    → select keep ps ≡ ps
select-All keep [] h = refl
select-All keep (p ∷ ps) h = ground (arith, select-All keep ps h.1)

unregister_in-IsStale :
    (t : HostTable) (path_prefix : Bytes) (e : Entry)
    → IsStale e t
    → unregister_in t path_prefix e ≡ t
unregister_in-IsStale t [] e h = ground arith
unregister_in-IsStale t (c ∷ cs) e h =
    ap (λ ps. record { root = t.root; prefixed = ps }) (select-All (other_entry e) t.prefixed h.1)

-- A removal that names an entry which the host no longer holds, such as the second removal of one
-- tunnel or one that came after a new tunnel took the place, changes no answer.
pub unregister-IsStale :
    (r : Registry) (host path_prefix : Bytes) (e : Entry) (asked path : Bytes)
    → IsValid r
    → IsStale e (table_at host r)
    → resolve (unregister r host path_prefix e) asked path ≡ resolve r asked path
unfolding unregister resolve
unregister-IsStale r host path_prefix e asked path v stale =
    elim (Option-cases (lookup host r.table)) [
      | inl absent ↦ rw (absent, unregister)
      | inr (t, there) ↦
          rw (there, unregister)
            (rw (unregister_in-IsStale t path_prefix e (rw (there, table_at) at stale)) (
              rw ((All-lookup (IsLive r.next) host r.table v there).1, store_table)
                (ground (arith, equal_iff host asked, lookup-insert host asked t r.table))))
    ]

-- A prefix that matches `path` and is at least as long is `path` itself.
serves-length :
    (path : Bytes) (q : PrefixEntry)
    → serves path q ≡ true
    → length path ≤ length q.prefix
    → q.prefix ≡ path
unfolding serves
serves-length path q m h = elim (Bool-cases (equal path q.prefix)) [
  | inl same ↦ sym ((equal_iff path q.prefix).0 same)
  | inr other ↦
      let (r, e) = has_prefix-eq path (q.prefix ++ (b'/' ∷ [])) (ground arith) in
      absurd (
        omega (
          arith,
          ap length e,
          length-append (q.prefix ++ (b'/' ∷ [])) r,
          length-append q.prefix (b'/' ∷ []),
        ))
]

no_shadow_own :
    (path : Bytes) (x : PrefixEntry) (ps : List PrefixEntry)
    → x.prefix ≡ path
    → All (λ q. q.prefix ≢ path) ps
    → any (shadows path x) ps ≡ false
no_shadow_own path x [] e h = refl
no_shadow_own path x (p ∷ ps) e h = elim (Bool-cases (shadows path x p)) [
  | inl bad ↦ absurd (h.0 (serves-length path p (ground arith) (ground (arith, ap length e))))
  | inr good ↦ rw good (no_shadow_own path x ps e h.1)
]

takes_over-own :
    (t : HostTable) (c : ℕ) (cs : Bytes) (e : Entry)
    → check_table t (c ∷ cs) ≡ none
    → takes_over t (c ∷ cs) e (c ∷ cs) ≡ true
unfolding serves
takes_over-own t c cs e free = rw (equal_refl (c ∷ cs)) (
    rw (
      no_shadow_own (c ∷ cs) (record { prefix = c ∷ cs; entry = e }) t.prefixed refl
        (any-has_path (c ∷ cs) t.prefixed (ground arith))))

-- A tunnel that registers a path prefix answers requests for exactly that path at once.
pub register-own_prefix :
    (r : Registry) (template : Entry) (c : ℕ) (cs : Bytes) (sess : ℕ) (remote : Bytes) (now : ℕ)
    (r' : Registry) (e : Entry)
    → IsValid r
    → register r template (c ∷ cs) sess remote now ≡ ok r' e
    → resolve r' template.host (c ∷ cs) ≡ some e
unfolding register make_entry
register-own_prefix r template c cs sess remote now r' e v h =
    let t = table_at template.host r in
    let w = table_at-IsTable template.host r v in
    let (_, _, free) =
      register_in-ok r (make_entry r template sess remote now) t (c ∷ cs) w.descending h in
    register-resolve r template (c ∷ cs) sess remote now r' e template.host (c ∷ cs) v h
    ∙ rw (equal_refl template.host, takes_over-own t c cs e free)
