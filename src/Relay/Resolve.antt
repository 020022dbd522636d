-- ===== src/Relay/Resolve.antt =====
-- backend/relay/relay.go: `Resolve` answers with the longest matching prefix, and what an accepted
-- or refused registration changes about its answers.
use roxey.Base.{
  leb, ℕ, ◌≤◌, ◌≡◌, refl, sym, ◌∙◌, ap, Bool, true, false, not, ◌&&◌, List, [], ◌∷◌, inl, inr,
  Option, some, arith, Bytes, equal, equal_iff, lookup-insert, any, insert_by, if◌then◌else◌,
  Bool-cases, length, All, All-map, Member,
}
use roxey.Relay.{
  Entry, PrefixEntry, HostTable, Registry, RegisterError, ok, err, register, make_entry, table_at,
  longer, serves, resolve, resolve_in,
}
use roxey.Relay.Sorted.{Descending}
use roxey.Relay.Invariant.{IsValid, table_at-IsTable}
use roxey.Relay.Admission.{added, with_table, register_in-ok, register_in-err}

-- Prefix `p` of the table answers for `path`, and none that does is longer.
pub record IsBest (path : Bytes) (ps : List PrefixEntry) (p : PrefixEntry) : Type 0 where
  pub member : Member p ps
  pub matches : serves path p ≡ true
  pub longest : All (λ q. serves path q ≡ true → length q.prefix ≤ length p.prefix) ps

pub data Answer (t : HostTable) (path : Bytes) (o : Option Entry) : Type 0 where
  by_prefix : (p : PrefixEntry) → IsBest path t.prefixed p → o ≡ some p.entry → Answer t path o
  by_root : All (λ q. serves path q ≡ false) t.prefixed → o ≡ t.root → Answer t path o

IsBest-here :
    (path : Bytes) (p : PrefixEntry) (ps : List PrefixEntry)
    → Descending (p ∷ ps)
    → serves path p ≡ true
    → IsBest path (p ∷ ps) p
IsBest-here path p ps d m = record {
  member = inl refl;
  matches = m;
  longest = (λ _. omega arith, All-map _ _ (λ q h _. ground arith) ps d.0);
}

IsBest-there :
    (path : Bytes) (q p : PrefixEntry) (ps : List PrefixEntry)
    → serves path q ≡ false
    → IsBest path ps p
    → IsBest path (q ∷ ps) p
IsBest-there path q p ps no_match b = record {
  member = inr b.member;
  matches = b.matches;
  longest = (λ m. absurd (ground arith), b.longest);
}

pub resolve_in-Answer :
    (path : Bytes) (ps : List PrefixEntry) (root : Option Entry)
    → Descending ps
    → Answer (record { root = root; prefixed = ps }) path (resolve_in path ps root)
unfolding resolve_in
resolve_in-Answer path [] root d = by_root tt refl
resolve_in-Answer path (p ∷ ps) root d = elim (Bool-cases (serves path p)) [
  | inl m ↦ rw (m, resolve_in) (by_prefix p (IsBest-here path p ps d m) refl)
  | inr no_match ↦
      rw (no_match, resolve_in)
        (elim (resolve_in-Answer path ps root d.1) [
          | by_prefix q b e ↦ by_prefix q (IsBest-there path p q ps no_match b) e
          | by_root none_match e ↦ by_root (no_match, none_match) e
        ])
]

pub resolve-table_at :
    (r : Registry) (host path : Bytes)
    → resolve r host path ≡ resolve_in path (table_at host r).prefixed (table_at host r).root
unfolding resolve resolve_in
resolve-table_at r host path = ground arith

-- In a valid table `Resolve` answers with the entry of a matching prefix that no other matching
-- prefix of the host exceeds in length. Where no prefix matches it answers with the host's root
-- tunnel, or with nothing if there is none or the host is unknown.
pub resolve-Answer :
    (r : Registry) (host path : Bytes)
    → IsValid r
    → Answer (table_at host r) path (resolve r host path)
resolve-Answer r host path v =
    rw (resolve-table_at r host path)
      (resolve_in-Answer path _ _ (table_at-IsTable host r v).descending)

-- What stands in the way of a new prefix: one at least as long that matches the path too.
abbrev pub shadows : Bytes → PrefixEntry → PrefixEntry → Bool
shadows path x q = serves path q && leb (length x.prefix) (length q.prefix)

abbrev pub takes_over : HostTable → Bytes → Entry → Bytes → Bool
takes_over t [] e path = not (any (serves path) t.prefixed)
takes_over t (c ∷ cs) e path =
    let x : PrefixEntry = record { prefix = c ∷ cs; entry = e } in
    serves path x && not (any (shadows path x) t.prefixed)

no_shadow :
    (path : Bytes) (x y : PrefixEntry) (ps : List PrefixEntry)
    → longer x y ≡ true
    → All (λ z. longer z y ≡ false) ps
    → any (shadows path x) ps ≡ false
no_shadow path x y [] h d = refl
no_shadow path x y (p ∷ ps) h d = ground (arith, no_shadow path x y ps h d.1)

resolve_in-insert_by :
    (path : Bytes) (x : PrefixEntry) (ps : List PrefixEntry) (root : Option Entry)
    → Descending ps
    → resolve_in path (insert_by longer x ps) root ≡ (
        if serves path x && not (any (shadows path x) ps)
        then some x.entry
        else resolve_in path ps root)
unfolding resolve_in insert_by
resolve_in-insert_by path x [] root d = ground arith
resolve_in-insert_by path x (y ∷ ys) root d =
    ground (arith, no_shadow path x y ys, resolve_in-insert_by path x ys root d.1)

resolve_in-root :
    (path : Bytes) (ps : List PrefixEntry) (root : Option Entry) (e : Entry)
    → resolve_in path ps (some e)
      ≡ (if not (any (serves path) ps) then some e else resolve_in path ps root)
unfolding resolve_in
resolve_in-root path [] root e = refl
resolve_in-root path (p ∷ ps) root e = ground (arith, resolve_in-root path ps root e)

resolve_in-added :
    (t : HostTable) (path_prefix : Bytes) (e : Entry) (path : Bytes)
    → Descending t.prefixed
    → resolve_in path (added t path_prefix e).prefixed (added t path_prefix e).root
      ≡ (if takes_over t path_prefix e path then some e else resolve_in path t.prefixed t.root)
resolve_in-added t [] e path d = resolve_in-root path t.prefixed t.root e
resolve_in-added t (c ∷ cs) e path d =
    resolve_in-insert_by path (record { prefix = c ∷ cs; entry = e }) t.prefixed t.root d

resolve-with_table :
    (r : Registry) (host : Bytes) (t : HostTable) (asked path : Bytes)
    → resolve (with_table r host t) asked path
      ≡ (if equal host asked then resolve_in path t.prefixed t.root else resolve r asked path)
unfolding resolve
resolve-with_table r host t asked path = ground (arith, lookup-insert host asked t r.table)

pub table_at-equal :
    (r : Registry) (host asked path : Bytes)
    → equal host asked ≡ true
    → resolve_in path (table_at host r).prefixed (table_at host r).root ≡ resolve r asked path
table_at-equal r host asked path h =
    sym (resolve-table_at r host path) ∙ ap (λ k. resolve r k path) ((equal_iff host asked).0 h)

-- An accepted registration takes over exactly the requests of its host that it matches and that no
-- prefix of at least its length matches (for a root tunnel: that no prefix matches). Every other
-- request, of this host or another, is answered as before.
pub register-resolve :
    (r : Registry) (template : Entry) (path_prefix : Bytes) (sess : ℕ) (remote : Bytes) (now : ℕ)
    (r' : Registry) (e : Entry) (asked path : Bytes)
    → IsValid r
    → register r template path_prefix sess remote now ≡ ok r' e
    → resolve r' asked path ≡ (
        if equal template.host asked && takes_over (table_at template.host r) path_prefix e path
        then some e
        else resolve r asked path)
unfolding register make_entry
register-resolve r template path_prefix sess remote now r' e asked path v h =
    let t = table_at template.host r in
    let d = (table_at-IsTable template.host r v).descending in
    let (r_is, e_is, _) = register_in-ok r _ t path_prefix d h in
    rw (r_is, e_is)
      (resolve-with_table r template.host _ asked path
        ∙ ground (
          arith,
          resolve_in-added t path_prefix (make_entry r template sess remote now) path d,
          table_at-equal r template.host asked path,
        ))

-- A refused registration changes no answer.
pub register_refused :
    (r : Registry) (template : Entry) (path_prefix : Bytes) (sess : ℕ) (remote : Bytes) (now : ℕ)
    (why : RegisterError) (r' : Registry) (asked path : Bytes)
    → register r template path_prefix sess remote now ≡ err why r'
    → resolve r' asked path ≡ resolve r asked path
unfolding register make_entry
register_refused r template path_prefix sess remote now why r' asked path h =
    let t = table_at template.host r in
    rw (register_in-err r _ t path_prefix h) (
      resolve-with_table r template.host t asked path
      ∙ ground (arith, table_at-equal r template.host asked path))
