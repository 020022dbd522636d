-- ===== src/Relay/Restored.antt =====
-- backend/relay/relay.go: the routes after `Unregister`, in whatever order `sort.Slice` left the table.
use roxey.Base.{
  ℕ, ◌≡◌, refl, sym, ◌∙◌, ap, Bool, true, false, not, List, [], ◌∷◌, inl, inr, Option, none, some,
  arith, Bytes, equal, equal_iff, is_some, Bool-cases, Option-cases, lookup, insert, lookup-insert,
  lookup-delete, if◌then◌else◌, All-lookup, equal_refl, select,
}
use roxey.Relay.{
  Entry, PrefixEntry, HostTable, Registry, ok, register, unregister, unregister_in, make_entry,
  table_at, resolve, resolve_in, is_vacant, store_table, same_entry, other_entry, serves, is_root,
}
use roxey.Relay.Invariant.{IsValid, IsLive, table_at-IsTable}
use roxey.Relay.Admission.{added, register_in-ok}
use roxey.Relay.Resolve.{table_at-equal}
use roxey.Relay.Reordered.{
  IsReordered, IsLike, IsLike-unregister_in, is_vacant-IsLike, resolve_in-IsLike,
}

lookup-store_table :
    (host : Bytes) (u : HostTable) (s : Registry) (h : Bytes)
    → lookup h (store_table host u s).table
      ≡ (if equal host h then (if is_vacant u then none else some u) else lookup h s.table)
lookup-store_table host u s h = elim (Bool-cases (is_vacant u)) [
  | inl v ↦ rw (v, store_table) (lookup-delete host h s.table)
  | inr v ↦ rw (v, store_table) (lookup-insert host h u s.table)
]

vacant_answer :
    (path : Bytes) (u : HostTable) → is_vacant u ≡ true → resolve_in path u.prefixed u.root ≡ none
unfolding resolve_in
vacant_answer path u v = nothing u.prefixed u.root v
  where
    nothing :
        (ps : List PrefixEntry) (root : Option Entry)
        → is_vacant (record { root = root; prefixed = ps }) ≡ true
        → resolve_in path ps root ≡ none
    nothing [] none h = refl
    nothing [] (some e) h = absurd (ground arith)
    nothing (p ∷ ps) none h = absurd (ground arith)
    nothing (p ∷ ps) (some e) h = absurd (ground arith)

abbrev answer_of : Bytes → Option HostTable → Option Entry
answer_of path none = none
answer_of path (some t) = resolve_in path t.prefixed t.root

answer_of-lookup :
    (r : Registry) (asked path : Bytes)
    → resolve r asked path ≡ answer_of path (lookup asked r.table)
unfolding resolve
answer_of-lookup r asked path = ground arith

-- An empty table answers like one that is not there.
stored_answer :
    (path : Bytes) (u : HostTable)
    → answer_of path (if is_vacant u then none else some u) ≡ resolve_in path u.prefixed u.root
stored_answer path u = elim (Bool-cases (is_vacant u)) [
  | inl v ↦ rw v (sym (vacant_answer path u v))
  | inr v ↦ rw v refl
]

pub resolve-store_table :
    (host : Bytes) (u : HostTable) (s : Registry) (asked path : Bytes)
    → resolve (store_table host u s) asked path
      ≡ (if equal host asked then resolve_in path u.prefixed u.root else resolve s asked path)
resolve-store_table host u s asked path =
    answer_of-lookup (store_table host u s) asked path
    ∙ ap (answer_of path) (lookup-store_table host u s asked)
    ∙ elim (Bool-cases (equal host asked)) [
      | inr other ↦ rw other (sym (answer_of-lookup s asked path))
      | inl same ↦ rw same (stored_answer path u)
    ]

-- A host has a table exactly if something stands in it.
is_some-table_at :
    (r : Registry) (host : Bytes)
    → IsValid r
    → is_some (lookup host r.table) ≡ not (is_vacant (table_at host r))
is_some-table_at r host v = elim (Option-cases (lookup host r.table)) [
  | inl absent ↦ rw (absent, table_at) refl
  | inr (t, there) ↦
      rw (there, table_at) (rw ((All-lookup (IsLive r.next) host r.table v there).1) refl)
]

is_some-if : (b : Bool) (u : HostTable) → is_some (if b then none else some u) ≡ not b
is_some-if true u = refl
is_some-if false u = refl

-- the registry after a registration, as `sort.Slice` may leave the table of the host
abbrev pub with_order : Registry → Bytes → HostTable → Registry
with_order r host t' = record r { table = insert host t' r.table }

-- the same routes, and tables for the same hosts
abbrev pub IsRestored : Registry → Registry → Type 0
IsRestored r r' =
    ((asked path : Bytes) → resolve r' asked path ≡ resolve r asked path)
    × ((host : Bytes) → is_some (lookup host r'.table) ≡ is_some (lookup host r.table))

restored :
    (r r' : Registry) (host : Bytes) (t' u : HostTable)
    → IsValid r
    → ((h : Bytes) → equal host h ≡ false → lookup h r'.table ≡ lookup h r.table)
    → IsLike (table_at host r) u
    → IsRestored r (store_table host u (with_order r' host t'))
restored r r' host t' u v others like =
    let w = table_at-IsTable host r v in
    let s = with_order r' host t' in
    let outside : (h : Bytes) → equal host h ≡ false → lookup h s.table ≡ lookup h r.table =
      λ h other. lookup-insert host h t' r'.table ∙ rw other (others h other) in
    (
      λ asked path. resolve-store_table host u s asked path ∙ elim (Bool-cases (equal host asked)) [
        | inr other ↦ rw other (
            answer_of-lookup s asked path
            ∙ ap (answer_of path) (outside asked other)
            ∙ sym (answer_of-lookup r asked path))
        | inl same ↦ rw same (
            resolve_in-IsLike path (table_at host r) u w.descending w.distinct like
            ∙ table_at-equal r host asked path same)
      ],
      λ h. ap is_some (lookup-store_table host u s h) ∙ elim (Bool-cases (equal host h)) [
        | inr other ↦ rw other (ap is_some (outside h other))
        | inl same ↦ rw same (
            is_some-if (is_vacant u) u
            ∙ ap not (is_vacant-IsLike (table_at host r) u like)
            ∙ sym (is_some-table_at r host v)
            ∙ ap (λ k. is_some (lookup k r.table)) ((equal_iff host h).0 same))
      ],
    )

-- In a valid table, removing the entry that a registration has just installed gives every route back
-- as it was, in whatever order `sort.Slice` has left the prefixes of equal length. The hosts that have
-- a table are those from before: no empty table is left behind.
pub unregister-register :
    (r : Registry) (template : Entry) (path_prefix : Bytes) (sess : ℕ) (remote : Bytes) (now : ℕ)
    (r' : Registry) (e : Entry) (t' : HostTable)
    → IsValid r
    → register r template path_prefix sess remote now ≡ ok r' e
    → IsReordered (table_at template.host r') t'
    → IsRestored r (unregister (with_order r' template.host t') template.host path_prefix e)
unfolding register unregister make_entry
unregister-register r template path_prefix sess remote now r' e t' v h o =
    let host = template.host in
    let t = table_at host r in
    let w = table_at-IsTable host r v in
    let e0 = make_entry r template sess remote now in
    let (r_is, e_is, free) = register_in-ok r e0 t path_prefix w.descending h in
    let new : lookup host r'.table ≡ some (added t path_prefix e0) =
      rw r_is (lookup-insert host host _ r.table ∙ rw (equal_refl host)) in
    let there : lookup host (with_order r' host t').table ≡ some t' =
      lookup-insert host host t' r'.table ∙ rw (equal_refl host) in
    let like =
      IsLike-unregister_in host e0 t t' path_prefix w.prefixed_fit free (rw (new, table_at) at o) in
    rw e_is (
      rw (there, unregister)
        (restored r r' host t' (unregister_in t' path_prefix e0) v
          (λ k other. rw r_is (lookup-insert host k _ r.table ∙ rw other)) like))

-- `e` is not what is answered.
abbrev pub IsOther : Entry → Option Entry → Type 0
IsOther e none = Unit {0}
IsOther e (some x) = same_entry x e ≡ false

select_other :
    (e : Entry) (path : Bytes) (ps : List PrefixEntry) (root : Option Entry)
    → IsOther e (resolve_in path ps root)
    → resolve_in path (select (other_entry e) ps) root ≡ resolve_in path ps root
unfolding resolve_in
select_other e path [] root h = refl
select_other e path (p ∷ ps) root h = elim (Bool-cases (serves path p)) [
  | inl m ↦
      let answer : IsOther e (some p.entry) = rw (m, resolve_in) at h in
      rw (answer, m, resolve_in) refl
  | inr m ↦
      let later = select_other e path ps root (rw (m, resolve_in) at h) in
      elim (Bool-cases (other_entry e p)) [
        | inl k ↦ rw (k, m, resolve_in) later
        | inr k ↦ rw (k, m, resolve_in) later
      ]
]

root_other :
    (e : Entry) (path : Bytes) (ps : List PrefixEntry) (root : Option Entry)
    → IsOther e (resolve_in path ps root)
    → resolve_in path ps (if is_root e root then none else root) ≡ resolve_in path ps root
unfolding resolve_in
root_other e path [] none h = refl
root_other e path [] (some x) h = rw h refl
root_other e path (p ∷ ps) root h = elim (Bool-cases (serves path p)) [
  | inl m ↦ rw (m, resolve_in) refl
  | inr m ↦ rw (m, resolve_in) (root_other e path ps root (rw (m, resolve_in) at h))
]

unregister_in-other :
    (t : HostTable) (path_prefix : Bytes) (e : Entry) (path : Bytes)
    → IsOther e (resolve_in path t.prefixed t.root)
    → resolve_in path (unregister_in t path_prefix e).prefixed (unregister_in t path_prefix e).root
      ≡ resolve_in path t.prefixed t.root
unregister_in-other t [] e path h = root_other e path t.prefixed t.root h
unregister_in-other t (c ∷ cs) e path h = select_other e path t.prefixed t.root h

-- Whatever else is registered: a request that another tunnel answers, or none, is answered alike
-- after the removal.
pub unregister-other :
    (r : Registry) (host path_prefix : Bytes) (e : Entry) (asked path : Bytes)
    → IsOther e (resolve r asked path)
    → resolve (unregister r host path_prefix e) asked path ≡ resolve r asked path
unfolding unregister
unregister-other r host path_prefix e asked path h = elim (Option-cases (lookup host r.table)) [
  | inl absent ↦ rw (absent, unregister) refl
  | inr (t, there) ↦
      rw (there, unregister)
        (resolve-store_table host (unregister_in t path_prefix e) r asked path
          ∙ elim (Bool-cases (equal host asked)) [
            | inr other ↦ rw other refl
            | inl same ↦
                let here : resolve_in path t.prefixed t.root ≡ resolve r asked path =
                  (rw (there, table_at) at (table_at-equal r host asked path same)) in
                rw same (unregister_in-other t path_prefix e path (rw here h) ∙ here)
          ])
]
