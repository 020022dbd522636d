-- ===== src/Relay.antt =====
-- backend/relay/relay.go: the live routing table. Pointers to entries are their addresses, which
-- the registry hands out; the time and the yamux session come from outside.
pub mod Sorted
pub mod Invariant
pub mod Admission
pub mod Resolve
pub mod Teardown
pub mod Reordered
pub mod Restored
pub mod Listing
pub mod Stream
pub mod Service
use roxey.Base.{
  ℕ, suc, ◌+◌, Bool, true, false, ◌&&◌, ◌||◌, not, List, [], ◌∷◌, ◌++◌, map, Option, none, some,
  Bytes, codes, equal, is_empty, has_prefix, Dict, lookup, insert, delete, length, ltb, leb, ◌==◌,
  select, any, sort_by, insert_by, sort_onto, is_some, if◌then◌else◌,
}

pub record Entry : Type 0 where
  -- the pointer, and the channel `ready`, which `once` closes
  pub address : ℕ
  pub ready : Bool
  pub service : Bytes
  pub host : Bytes
  pub user_id : Bytes
  pub gate_group : Bytes
  pub protect_hash : Bytes
  pub connected_at : ℕ
  pub remote : Bytes
  pub pending : Bool
  pub session : ℕ

pub record PrefixEntry : Type 0 where
  pub prefix : Bytes
  pub entry : Entry

pub record HostTable : Type 0 where
  pub root : Option Entry
  pub prefixed : List PrefixEntry

pub record Registry : Type 0 where
  pub table : Dict HostTable
  -- the next free address
  pub next : ℕ

pub data RegisterError : Type 0 where
  service_in_use path_in_use : RegisterError

pub data Registered : Type 0 where
  ok : Registry → Entry → Registered
  err : RegisterError → Registry → Registered

abbrev pub empty_table : HostTable
empty_table = record { root = none; prefixed = [] }

abbrev pub new_registry : Registry
new_registry = record { table = []; next = 0 }

-- `newEntry`, at a fresh address
pub new_entry : ℕ → ℕ → ℕ → Bytes → Bool → Entry
new_entry address now sess remote pending = record {
  address = address;
  ready = not pending;
  service = [];
  host = [];
  user_id = [];
  gate_group = [];
  protect_hash = [];
  connected_at = now;
  remote = remote;
  pending = false;
  session = sess;
}

-- `Entry.Ready`
unfoldable pub make_ready : Entry → Entry
make_ready e = record e { ready = true }

abbrev pub has_path : Bytes → PrefixEntry → Bool
has_path path_prefix p = equal p.prefix path_prefix

abbrev check_table : HostTable → Bytes → Option RegisterError
check_table t [] = if is_some t.root then some service_in_use else none
check_table t (c ∷ cs) = if any (has_path (c ∷ cs)) t.prefixed then some path_in_use else none

-- `Registry.Check`; `none` is no error
unfoldable pub check : Registry → Bytes → Bytes → Option RegisterError
check r host path_prefix = elim (lookup host r.table) [
  | none ↦ none
  | some t ↦ check_table t path_prefix
]

-- the order that `Register` sorts by: longer prefixes first
abbrev pub longer : PrefixEntry → PrefixEntry → Bool
longer p q = ltb (length q.prefix) (length p.prefix)

-- `t, ok := r.table[host]; if !ok { t = &hostTable{} }`
abbrev pub table_at : Bytes → Registry → HostTable
table_at host r = elim (lookup host r.table) [ none ↦ empty_table | some t ↦ t ]

-- the entry that `Register` makes from its template
unfoldable pub make_entry : Registry → Entry → ℕ → Bytes → ℕ → Entry
unfolding new_entry
make_entry r template sess remote now = record (new_entry r.next now sess remote template.pending) {
  service = template.service;
  host = template.host;
  user_id = template.user_id;
  gate_group = template.gate_group;
  protect_hash = template.protect_hash;
}

abbrev pub install : Registry → Entry → HostTable → Registered
install r e t = ok (record { table = insert e.host t r.table; next = suc r.next }) e

-- A refused registration has still put the (possibly new) table in place.
abbrev pub refuse : Registry → Entry → HostTable → RegisterError → Registered
refuse r e t why = err why (record { table = insert e.host t r.table; next = suc r.next })

-- the body of `Register`. `sort.Slice` leaves prefixes of equal length in any order, `sort_by` in the
-- order of registration. Relay/Reordered is about the other orders.
abbrev register_in : Registry → Entry → HostTable → Bytes → Registered
register_in r e t [] =
    if is_some t.root then refuse r e t service_in_use else install r e (record t { root = some e })
register_in r e t (c ∷ cs) =
    if any (has_path (c ∷ cs)) t.prefixed
    then refuse r e t path_in_use
    else install r e (record t {
      prefixed = sort_by longer (t.prefixed ++ (record { prefix = c ∷ cs; entry = e } ∷ []));
    })

-- `Registry.Register`
unfoldable pub register : Registry → Entry → Bytes → ℕ → Bytes → ℕ → Registered
register r template path_prefix sess remote now =
    register_in r (make_entry r template sess remote now) (table_at template.host r) path_prefix

abbrev pub same_entry : Entry → Entry → Bool
same_entry a b = a.address == b.address

abbrev pub other_entry : Entry → PrefixEntry → Bool
other_entry e p = not (same_entry p.entry e)

abbrev pub is_root : Entry → Option Entry → Bool
is_root e none = false
is_root e (some x) = same_entry x e

abbrev pub unregister_in : HostTable → Bytes → Entry → HostTable
unregister_in t [] e = record t { root = if is_root e t.root then none else t.root }
unregister_in t (c ∷ cs) e = record t { prefixed = select (other_entry e) t.prefixed }

abbrev pub is_vacant : HostTable → Bool
is_vacant t = not (is_some t.root) && elim t.prefixed [ [] ↦ true | _ ∷ _ ↦ false ]

abbrev store_table : Bytes → HostTable → Registry → Registry
store_table host t r =
    if is_vacant t
    then record r { table = delete host r.table }
    else record r { table = insert host t r.table }

-- `Registry.Unregister`
unfoldable pub unregister : Registry → Bytes → Bytes → Entry → Registry
unregister r host path_prefix e = elim (lookup host r.table) [
  | none ↦ r
  | some t ↦ store_table host (unregister_in t path_prefix e) r
]

-- `reqPath == p.prefix || strings.HasPrefix(reqPath, p.prefix+"/")`
unfoldable pub serves : Bytes → PrefixEntry → Bool
serves path p = equal path p.prefix || has_prefix path (p.prefix ++ (b'/' ∷ []))

unfoldable pub resolve_in : Bytes → List PrefixEntry → Option Entry → Option Entry
resolve_in path [] root = root
resolve_in path (p ∷ ps) root = if serves path p then some p.entry else resolve_in path ps root

-- `Registry.Resolve`
unfoldable pub resolve : Registry → Bytes → Bytes → Option Entry
resolve r host path = elim (lookup host r.table) [
  | none ↦ none
  | some t ↦ resolve_in path t.prefixed t.root
]

pub record ActiveTunnel : Type 0 where
  pub service : Bytes
  pub host : Bytes
  pub path : Bytes
  pub protected : Bool
  pub connected_at : ℕ
  pub remote : Bytes

abbrev pub to_active : Bytes → Entry → ActiveTunnel
to_active path e = record {
  service = e.service;
  host = e.host;
  path = path;
  protected = not (is_empty e.protect_hash);
  connected_at = e.connected_at;
  remote = e.remote;
}

abbrev pub owns : Bytes → Entry → Bool
owns user e = equal e.user_id user

abbrev pub active_root : Bytes → Option Entry → List ActiveTunnel
active_root user none = []
active_root user (some e) = if owns user e then to_active (codes "/") e ∷ [] else []

unfoldable pub active_prefixed : Bytes → List PrefixEntry → List ActiveTunnel
active_prefixed user [] = []
active_prefixed user (p ∷ ps) =
    let rest = active_prefixed user ps in
    if owns user p.entry then to_active p.prefix p.entry ∷ rest else rest

unfoldable pub active_in : Bytes → Dict HostTable → List ActiveTunnel
active_in user [] = []
active_in user ((host, t) ∷ rest) =
    (active_root user t.root ++ active_prefixed user t.prefixed) ++ active_in user rest

-- `a < b` on Go strings
pub less_bytes : Bytes → Bytes → Bool
less_bytes _ [] = false
less_bytes [] (y ∷ ys) = true
less_bytes (x ∷ xs) (y ∷ ys) = ltb x y || (x == y && less_bytes xs ys)

abbrev pub before : ActiveTunnel → ActiveTunnel → Bool
before a b = less_bytes (a.host ++ a.path) (b.host ++ b.path)

-- `Registry.ListActive`
unfoldable pub list_active : Registry → Bytes → List ActiveTunnel
unfolding active_in active_prefixed
list_active r user = sort_by before (active_in user r.table)
