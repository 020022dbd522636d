-- ===== src/Relay/Reordered.antt =====
-- backend/relay/relay.go: `Resolve` on the orders that `sort.Slice` may leave, in which prefixes of
-- equal length stand anyhow.
use mathlib.Core.Path.{subst}
use mathlib.Core.List.{append-nil, append_assoc}
use roxey.Base.{
  ◌≤◌, ◌≡◌, refl, sym, ◌∙◌, ap, Bool, true, false, List, [], ◌∷◌, ◌++◌, inl, inr, Option, none,
  some, arith, Bytes, equal, equal_iff, Bool-cases, length, All, All-Member, Member, select,
  has_prefix-eq,
}
use roxey.Relay.{
  Entry, PrefixEntry, HostTable, unregister_in, serves, resolve_in, other_entry, is_vacant, is_root,
  check_table,
}
use roxey.Relay.Sorted.{Descending, Distinct, select-Descending}
use roxey.Relay.Invariant.{FitsPrefix}
use roxey.Relay.Admission.{added}
use roxey.Relay.Teardown.{select-insert_by}
use roxey.Relay.Resolve.{by_prefix, by_root, resolve_in-Answer}

-- A matching prefix is the beginning of the path.
serves-append :
    (path : Bytes) (p : PrefixEntry) → serves path p ≡ true → (r : Bytes) × (path ≡ p.prefix ++ r)
unfolding serves
serves-append path p m = elim (Bool-cases (equal path p.prefix)) [
  | inl same ↦ ([], (equal_iff path p.prefix).0 same ∙ sym (append-nil p.prefix))
  | inr other ↦
      let (r, e) = has_prefix-eq path (p.prefix ++ (b'/' ∷ [])) (ground arith) in
      ((b'/' ∷ []) ++ r, e ∙ append_assoc p.prefix (b'/' ∷ []) r)
]

same_beginning : (a b r s : Bytes) → a ++ r ≡ b ++ s → length a ≡ length b → a ≡ b
same_beginning [] [] r s e l = refl
same_beginning [] (y ∷ b) r s e l = absurd (omega (arith, l))
same_beginning (x ∷ a) [] r s e l = absurd (omega (arith, l))
same_beginning (x ∷ a) (y ∷ b) r s e l =
    ground (arith, e, same_beginning a b r s (cc e) (omega (arith, l)))

-- Two matching prefixes of one length are the same.
serves-same :
    (path : Bytes) (p q : PrefixEntry)
    → serves path p ≡ true
    → serves path q ≡ true
    → length p.prefix ≡ length q.prefix
    → p.prefix ≡ q.prefix
serves-same path p q m n l =
    let (r, e) = serves-append path p m in
    let (s, f) = serves-append path q n in same_beginning p.prefix q.prefix r s (sym e ∙ f) l

Distinct-Member :
    (ps : List PrefixEntry) (p q : PrefixEntry)
    → Distinct ps
    → Member p ps
    → Member q ps
    → p.prefix ≡ q.prefix
    → p ≡ q
Distinct-Member (x ∷ ps) p q d (inl a) (inl b) e = sym a ∙ b
Distinct-Member (x ∷ ps) p q d (inl a) (inr n) e =
    absurd (All-Member _ ps d.0 n (sym e ∙ ap (λ y. y.prefix) (sym a)))
Distinct-Member (x ∷ ps) p q d (inr m) (inl b) e =
    absurd (All-Member _ ps d.0 m (e ∙ ap (λ y. y.prefix) (sym b)))
Distinct-Member (x ∷ ps) p q d (inr m) (inr n) e = Distinct-Member ps p q d.1 m n e
Distinct-Member [] p q d m n e = absurd m

-- The prefixes are the same ones.
abbrev pub SameMembers : List PrefixEntry → List PrefixEntry → Type 0
SameMembers ps qs =
    ((p : PrefixEntry) → Member p ps → Member p qs)
    × ((p : PrefixEntry) → Member p qs → Member p ps)

no_best :
    (path : Bytes) (ps : List PrefixEntry) (p : PrefixEntry)
    → All (λ q. serves path q ≡ false) ps
    → Member p ps
    → serves path p ≡ true
    → ⊥
no_best path ps p none_match m h =
    let bad : serves path p ≡ false = All-Member _ ps none_match m in
    absurd (ground (arith, bad, h))

-- In each order by length the same prefixes give the same answer.
pub resolve_in-SameMembers :
    (path : Bytes) (ps qs : List PrefixEntry) (root : Option Entry)
    → Descending ps
    → Distinct ps
    → Descending qs
    → SameMembers ps qs
    → resolve_in path qs root ≡ resolve_in path ps root
resolve_in-SameMembers path ps qs root d distinct d' same =
    elim (resolve_in-Answer path ps root d) [
      | by_prefix p b e ↦ elim (resolve_in-Answer path qs root d') [
        | by_prefix q c f ↦
            let below : length p.prefix ≤ length q.prefix =
              All-Member _ qs c.longest (same.0 p b.member) b.matches in
            let above : length q.prefix ≤ length p.prefix =
              All-Member _ ps b.longest (same.1 q c.member) c.matches in
            let one =
              Distinct-Member ps q p distinct (same.1 q c.member) b.member
                (serves-same path q p c.matches b.matches (omega (arith, below, above))) in
            f ∙ ap (λ (x : PrefixEntry). some x.entry) one ∙ sym e
        | by_root n f ↦ absurd (no_best path qs p n (same.0 p b.member) b.matches)
      ]
      | by_root n e ↦ elim (resolve_in-Answer path qs root d') [
        | by_prefix q c f ↦ absurd (no_best path ps q n (same.1 q c.member) c.matches)
        | by_root n' f ↦ f ∙ sym e
      ]
    ]

-- The table as a sort that is not stable may leave it.
pub record IsReordered (t t' : HostTable) : Type 0 where
  pub same_root : t'.root ≡ t.root
  pub descending : Descending t'.prefixed
  pub members : SameMembers t.prefixed t'.prefixed

Member-select :
    (keep : PrefixEntry → Bool) (p : PrefixEntry) (ps : List PrefixEntry)
    → Member p ps
    → keep p ≡ true
    → Member p (select keep ps)
Member-select keep p [] m k = m
Member-select keep p (x ∷ ps) (inl e) k =
    let here : keep x ≡ true = ap keep e ∙ k in rw here (inl e)
Member-select keep p (x ∷ ps) (inr m) k = elim (Bool-cases (keep x)) [
  | inl h ↦ rw h (inr (Member-select keep p ps m k))
  | inr h ↦ rw h (Member-select keep p ps m k)
]

Member-selected :
    (keep : PrefixEntry → Bool) (p : PrefixEntry) (ps : List PrefixEntry)
    → Member p (select keep ps)
    → Member p ps × (keep p ≡ true)
Member-selected keep p [] m = absurd m
Member-selected keep p (x ∷ ps) m = elim (Bool-cases (keep x)) [
  | inr h ↦ let (there, k) = Member-selected keep p ps (rw h at m) in (inr there, k)
  | inl h ↦ here_or_there h (Member-selected keep p ps) (rw h at m)
]
  where
    here_or_there :
        keep x ≡ true
        → (Member p (select keep ps) → Member p ps × (keep p ≡ true))
        → Member p (x ∷ select keep ps)
        → Member p (x ∷ ps) × (keep p ≡ true)
    here_or_there h later (inl e) = (inl e, ap keep (sym e) ∙ h)
    here_or_there h later (inr n) = let (there, k) = later n in (inr there, k)

pub select-SameMembers :
    (keep : PrefixEntry → Bool) (ps qs : List PrefixEntry)
    → SameMembers ps qs
    → SameMembers (select keep ps) (select keep qs)
select-SameMembers keep ps qs same = (
  λ p m. let (there, k) = Member-selected keep p ps m in Member-select keep p qs (same.0 p there) k,
  λ p m. let (there, k) = Member-selected keep p qs m in Member-select keep p ps (same.1 p there) k,
)

-- A table with the same root and the same prefixes, in an order by length.
abbrev pub IsLike : HostTable → HostTable → Type 0
IsLike t u = (u.root ≡ t.root) × Descending u.prefixed × SameMembers t.prefixed u.prefixed

pub IsLike-unregister_in :
    (host : Bytes) (e : Entry) (t t' : HostTable) (path_prefix : Bytes)
    → All (FitsPrefix host e.address) t.prefixed
    → check_table t path_prefix ≡ none
    → IsReordered (added t path_prefix e) t'
    → IsLike t (unregister_in t' path_prefix e)
IsLike-unregister_in host e t t' [] f free o =
    let own : is_root e t'.root ≡ true = rw o.same_root (ground arith) in
    (rw own (ground arith), o.descending, o.members)
IsLike-unregister_in host e t t' (c ∷ cs) f free o = (
  o.same_root,
  select-Descending (other_entry e) t'.prefixed o.descending,
  subst (λ ps. SameMembers ps (select (other_entry e) t'.prefixed))
      (select-insert_by host e (c ∷ cs) t.prefixed f)
      (select-SameMembers (other_entry e) _ t'.prefixed o.members),
)

abbrev no_prefix : List PrefixEntry → Bool
no_prefix ps = elim ps [ [] ↦ true | _ ∷ _ ↦ false ]

no_prefix-SameMembers : (ps qs : List PrefixEntry) → SameMembers ps qs → no_prefix qs ≡ no_prefix ps
no_prefix-SameMembers [] [] same = refl
no_prefix-SameMembers [] (q ∷ qs) same = absurd (same.1 q (inl refl))
no_prefix-SameMembers (p ∷ ps) [] same = absurd (same.0 p (inl refl))
no_prefix-SameMembers (p ∷ ps) (q ∷ qs) same = refl

pub is_vacant-IsLike : (t u : HostTable) → IsLike t u → is_vacant u ≡ is_vacant t
is_vacant-IsLike t u (root, _, same) =
    let none_left : no_prefix u.prefixed ≡ no_prefix t.prefixed =
      no_prefix-SameMembers t.prefixed u.prefixed same in
    rw (root, none_left) refl

pub resolve_in-IsLike :
    (path : Bytes) (t u : HostTable)
    → Descending t.prefixed
    → Distinct t.prefixed
    → IsLike t u
    → resolve_in path u.prefixed u.root ≡ resolve_in path t.prefixed t.root
resolve_in-IsLike path t u d distinct (root, d', same) =
    rw root (resolve_in-SameMembers path t.prefixed u.prefixed t.root d distinct d' same)
