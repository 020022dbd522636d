-- ===== src/Relay/Invariant.antt =====
-- backend/relay/relay.go: what every reachable routing table satisfies, and that the operations
-- that change it keep this.
use roxey.Base.{
  ℕ, suc, ◌<◌, ◌≡◌, ◌≢◌, refl, Bool, true, false, List, [], ◌∷◌, ◌⊎◌, inl, inr, Option, none, some,
  arith, Bytes, lookup, insert, any, All, All-map, All-insert, All-delete, All-lookup, All-select,
  All-insert_by, insert_by, is_some, if◌then◌else◌, Bool-cases, Option-cases,
}
use roxey.Relay.{
  Entry, PrefixEntry, HostTable, Registry, Registered, ok, err, register, unregister, make_entry,
  table_at, has_path, longer, is_vacant, is_root, register_in, store_table, unregister_in,
  other_entry, new_registry,
}
use roxey.Relay.Sorted.{
  Descending, Distinct, insert_by-Descending, insert_by-Distinct, any-has_path, select-Descending,
  select-Distinct, sort-append,
}

-- An entry stands under its own host, at an address that has been given out.
abbrev pub Fits : Bytes → ℕ → Entry → Type 0
Fits host next e = (e.host ≡ host) × (e.address < next)

abbrev pub FitsRoot : Bytes → ℕ → Option Entry → Type 0
FitsRoot host next none = Unit {0}
FitsRoot host next (some e) = Fits host next e

abbrev pub FitsPrefix : Bytes → ℕ → PrefixEntry → Type 0
FitsPrefix host next p = (p.prefix ≢ []) × Fits host next p.entry

pub record IsTable (host : Bytes) (next : ℕ) (t : HostTable) : Type 0 where
  pub root_fits : FitsRoot host next t.root
  pub prefixed_fit : All (FitsPrefix host next) t.prefixed
  pub descending : Descending t.prefixed
  pub distinct : Distinct t.prefixed

-- A table of the map, which is deleted when it empties.
abbrev pub IsLive : ℕ → Bytes × HostTable → Type 0
IsLive next (host, t) = IsTable host next t × (is_vacant t ≡ false)

abbrev pub IsValid : Registry → Type 0
IsValid r = All (IsLive r.next) r.table

pub new_registry-IsValid : IsValid new_registry
new_registry-IsValid = tt

Fits-suc : (host : Bytes) (next : ℕ) (e : Entry) → Fits host next e → Fits host (suc next) e
Fits-suc host next e f = (f.0, omega arith)

FitsRoot-suc :
    (host : Bytes) (next : ℕ) (o : Option Entry) → FitsRoot host next o → FitsRoot host (suc next) o
FitsRoot-suc host next none f = tt
FitsRoot-suc host next (some e) f = (f.0, omega arith)

pub IsTable-suc :
    (host : Bytes) (next : ℕ) (t : HostTable) → IsTable host next t → IsTable host (suc next) t
IsTable-suc host next t v = record {
  root_fits = FitsRoot-suc host next t.root v.root_fits;
  prefixed_fit = All-map _ _ (λ p f. (f.0, (f.1.0, omega arith))) t.prefixed v.prefixed_fit;
  descending = v.descending;
  distinct = v.distinct;
}

IsLive-suc : (next : ℕ) (e : Bytes × HostTable) → IsLive next e → IsLive (suc next) e
IsLive-suc next (host, t) v = (IsTable-suc host next t v.0, v.1)

pub table_at-IsTable :
    (host : Bytes) (r : Registry) → IsValid r → IsTable host r.next (table_at host r)
table_at-IsTable host r v = elim (Option-cases (lookup host r.table)) [
  | inl e ↦
      rw (e, table_at)
        (record { root_fits = tt; prefixed_fit = tt; descending = tt; distinct = tt })
  | inr (t, e) ↦ rw (e, table_at) ((All-lookup (IsLive r.next) host r.table v e).0)
]

pub make_entry-Fits :
    (r : Registry) (template : Entry) (sess : ℕ) (remote : Bytes) (now : ℕ)
    → Fits template.host (suc r.next) (make_entry r template sess remote now)
unfolding make_entry
make_entry-Fits r template sess remote now = (refl, omega arith)

pub insert_by-IsTable :
    (host : Bytes) (next : ℕ) (t : HostTable) (p : PrefixEntry)
    → IsTable host next t
    → FitsPrefix host next p
    → any (has_path p.prefix) t.prefixed ≡ false
    → IsTable host next (record t { prefixed = insert_by longer p t.prefixed })
insert_by-IsTable host next t p v f h = record {
  root_fits = v.root_fits;
  prefixed_fit = All-insert_by longer _ p t.prefixed f v.prefixed_fit;
  descending = insert_by-Descending p t.prefixed v.descending;
  distinct = insert_by-Distinct p t.prefixed (any-has_path p.prefix t.prefixed h) v.distinct;
}

set_root-IsTable :
    (host : Bytes) (next : ℕ) (t : HostTable) (o : Option Entry)
    → IsTable host next t
    → FitsRoot host next o
    → IsTable host next (record t { root = o })
set_root-IsTable host next t o v f = record {
  root_fits = f;
  prefixed_fit = v.prefixed_fit;
  descending = v.descending;
  distinct = v.distinct;
}

FitsRoot-cleared :
    (host : Bytes) (next : ℕ) (o : Option Entry) (gone : Bool)
    → FitsRoot host next o
    → FitsRoot host next (if gone then none else o)
FitsRoot-cleared host next o true f = tt
FitsRoot-cleared host next o false f = f

insert_by-occupied :
    (o : Option Entry) (p : PrefixEntry) (ps : List PrefixEntry)
    → is_vacant (record { root = o; prefixed = insert_by longer p ps }) ≡ false
unfolding insert_by
insert_by-occupied o p [] = ground arith
insert_by-occupied o p (q ∷ ps) = ground arith

any-occupied :
    (t : HostTable) (path : Bytes) (ps : List PrefixEntry)
    → t.prefixed ≡ ps
    → any (has_path path) ps ≡ true
    → is_vacant t ≡ false
any-occupied t path [] e h = cc
any-occupied t path (p ∷ ps) e h = ground arith

abbrev pub state_of : Registered → Registry
state_of (ok r e) = r
state_of (err why r) = r

put-IsValid :
    (r : Registry) (host : Bytes) (t : HostTable)
    → IsValid r
    → IsTable host (suc r.next) t
    → is_vacant t ≡ false
    → IsValid (record { table = insert host t r.table; next = suc r.next })
put-IsValid r host t v w o =
    All-insert (IsLive (suc r.next)) host t r.table (w, o)
      (All-map (IsLive r.next) (IsLive (suc r.next)) (IsLive-suc r.next) r.table v)

register_in-IsValid :
    (r : Registry) (e : Entry) (t : HostTable) (path_prefix : Bytes)
    → IsValid r
    → IsTable e.host r.next t
    → Fits e.host (suc r.next) e
    → IsValid (state_of (register_in r e t path_prefix))
register_in-IsValid r e t [] v w f = elim (Bool-cases (is_some t.root)) [
  | inl used ↦
      rw (used, register_in)
        (put-IsValid r e.host t v (IsTable-suc e.host r.next t w) (ground arith))
  | inr free ↦
      rw (free, register_in)
        (put-IsValid r e.host (record t { root = some e }) v
          (set_root-IsTable e.host (suc r.next) t (some e) (IsTable-suc e.host r.next t w) f) refl)
]
register_in-IsValid r e t (c ∷ cs) v w f = elim (Bool-cases (any (has_path (c ∷ cs)) t.prefixed)) [
  | inl used ↦
      rw (used, register_in)
        (put-IsValid r e.host t v (IsTable-suc e.host r.next t w)
          (any-occupied t (c ∷ cs) t.prefixed refl used))
  | inr free ↦
      rw (free, register_in)
        (rw (sort-append t.prefixed _ w.descending) (
          put-IsValid r e.host _ v
            (insert_by-IsTable e.host (suc r.next) t (record { prefix = c ∷ cs; entry = e })
              (IsTable-suc e.host r.next t w) ((λ q. cc q), f) free)
            (insert_by-occupied t.root _ t.prefixed)))
]

-- A registration, accepted or refused, keeps the routing table valid.
pub register-IsValid :
    (r : Registry) (template : Entry) (path_prefix : Bytes) (sess : ℕ) (remote : Bytes) (now : ℕ)
    → IsValid r
    → IsValid (state_of (register r template path_prefix sess remote now))
unfolding register make_entry
register-IsValid r template path_prefix sess remote now v =
    register_in-IsValid r _ (table_at template.host r) path_prefix v
      (table_at-IsTable template.host r v) (make_entry-Fits r template sess remote now)

unregister_in-IsTable :
    (host : Bytes) (next : ℕ) (t : HostTable) (path_prefix : Bytes) (e : Entry)
    → IsTable host next t
    → IsTable host next (unregister_in t path_prefix e)
unregister_in-IsTable host next t [] e w =
    set_root-IsTable host next t _ w
      (FitsRoot-cleared host next t.root (is_root e t.root) w.root_fits)
unregister_in-IsTable host next t (c ∷ cs) e w = record {
  root_fits = w.root_fits;
  prefixed_fit = All-select _ (other_entry e) t.prefixed w.prefixed_fit;
  descending = select-Descending (other_entry e) t.prefixed w.descending;
  distinct = select-Distinct (other_entry e) t.prefixed w.distinct;
}

-- So does a removal, whatever entry it names.
pub unregister-IsValid :
    (r : Registry) (host path_prefix : Bytes) (e : Entry)
    → IsValid r
    → IsValid (unregister r host path_prefix e)
unfolding unregister
unregister-IsValid r host path_prefix e v = elim (Option-cases (lookup host r.table)) [
  | inl absent ↦ rw (absent, unregister) v
  | inr (t, there) ↦ rw (there, unregister) (stored t there (Bool-cases _))
]
  where
    stored :
        (t : HostTable)
        → lookup host r.table ≡ some t
        → (is_vacant (unregister_in t path_prefix e) ≡ true)
          ⊎ (is_vacant (unregister_in t path_prefix e) ≡ false)
        → IsValid (store_table host (unregister_in t path_prefix e) r)
    stored t there (inl gone) = rw (gone, store_table) (All-delete (IsLive r.next) host r.table v)
    stored t there (inr stays) =
        rw (stays, store_table)
          (All-insert (IsLive r.next) host _ r.table
            (
              unregister_in-IsTable host r.next t path_prefix e
                  (All-lookup (IsLive r.next) host r.table v there).0,
              stays,
            )
            v)
