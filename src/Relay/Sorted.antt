-- ===== src/Relay/Sorted.antt =====
-- backend/relay/relay.go, the order of `hostTable.prefixed`: longer prefixes first, none twice.
use roxey.Base.{
  ◌≡◌, ◌≢◌, sym, Bool, true, false, List, [], ◌∷◌, ◌++◌, inl, inr, arith, Bytes, equal_iff, any,
  select, All, All-map, All-select, InOrder, insert_by, sort_by, All-insert_by, sort_onto-InOrder,
  Bool-cases,
}
use roxey.Relay.{PrefixEntry, longer, has_path}

-- Longer prefixes stand first.
abbrev pub Descending : List PrefixEntry → Type 0
Descending = InOrder longer

-- No prefix stands twice.
abbrev pub Distinct : List PrefixEntry → Type 0
Distinct [] = Unit {0}
Distinct (p ∷ ps) = All (λ q. q.prefix ≢ p.prefix) ps × Distinct ps

longer_trans :
    (x y : PrefixEntry)
    → longer x y ≡ true
    → (z : PrefixEntry) → longer z y ≡ false
    → longer z x ≡ false
longer_trans x y h z k = ground arith

pub insert_by-Descending :
    (x : PrefixEntry) (ps : List PrefixEntry) → Descending ps → Descending (insert_by longer x ps)
unfolding insert_by
insert_by-Descending x [] d = (tt, tt)
insert_by-Descending x (y ∷ ys) d = elim (Bool-cases (longer x y)) [
  | inl e ↦ rw e ((ground arith, All-map _ _ (longer_trans x y e) ys d.0), d)
  | inr e ↦ rw e (All-insert_by longer _ x ys e d.0, insert_by-Descending x ys d.1)
]

pub insert_by-Distinct :
    (x : PrefixEntry) (ps : List PrefixEntry)
    → All (λ q. q.prefix ≢ x.prefix) ps
    → Distinct ps
    → Distinct (insert_by longer x ps)
unfolding insert_by
insert_by-Distinct x [] h d = (tt, tt)
insert_by-Distinct x (y ∷ ys) h d = elim (Bool-cases (longer x y)) [
  | inl e ↦ rw e (h, d)
  | inr e ↦
      rw e (All-insert_by longer _ x ys (λ q. h.0 (sym q)) d.0, insert_by-Distinct x ys h.1 d.1)
]

-- The search that refuses a prefix in use finds every prefix of that name.
pub any-has_path :
    (path : Bytes) (ps : List PrefixEntry)
    → any (has_path path) ps ≡ false
    → All (λ q. q.prefix ≢ path) ps
any-has_path path [] h = tt
any-has_path path (p ∷ ps) h =
    (λ e. cc ((equal_iff p.prefix path).1 e, h), any-has_path path ps (ground arith))

module _ (keep : PrefixEntry → Bool) where
  pub select-Descending : (ps : List PrefixEntry) → Descending ps → Descending (select keep ps)
  select-Descending [] d = tt
  select-Descending (p ∷ ps) d =
      ground (arith, All-select (λ q. longer q p ≡ false) keep ps d.0, select-Descending ps d.1)

  pub select-Distinct : (ps : List PrefixEntry) → Distinct ps → Distinct (select keep ps)
  select-Distinct [] d = tt
  select-Distinct (p ∷ ps) d =
      ground (arith, All-select (λ q. q.prefix ≢ p.prefix) keep ps d.0, select-Distinct ps d.1)

-- On a list in order, `append` and `sort.Slice` together are one insertion.
pub sort-append :
    (ps : List PrefixEntry) (x : PrefixEntry)
    → Descending ps
    → sort_by longer (ps ++ (x ∷ [])) ≡ insert_by longer x ps
sort-append ps x d = sort_onto-InOrder longer [] ps x d
